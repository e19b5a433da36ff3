-- ===== src/Ar8216/Mii.antt =====
-- The registers of the chip through the MII bus: split_addr, ar8216_mii_read, ar8216_mii_write and
-- ar8216_rmw of ar8216.c. The bus is a parameter. The wait for the page switch is left out.
use wair_os.Base.{ℕ, ◌+◌, ◌-◌, ◌%◌, ◌^◌, bit_and, bit_or, ◌<<◌, ◌>>>◌}

-- `phy->bus->read` and `phy->bus->write`: the address, the register and the value
pub record MiiBus (D : Type 0) : Type 0 where
  pub read : ℕ → ℕ → D → ℕ × D
  pub write : ℕ → ℕ → ℕ → D → D

-- `priv->read` and `priv->write`
pub record Regs (D : Type 0) : Type 0 where
  pub read : ℕ → D → ℕ × D
  pub write : ℕ → ℕ → D → D

pub record Split : Type 0 where
  pub r1 : ℕ
  pub r2 : ℕ
  pub page : ℕ

unfoldable pub split_addr : ℕ → Split
split_addr regaddr = record {
  r1 = bit_and (regaddr >>> 1) 0x1e;
  r2 = bit_and (regaddr >>> 1 >>> 5) 0x7;
  page = bit_and (regaddr >>> 1 >>> 5 >>> 3) 0x1ff;
}

module _ {D : Type 0} (bus : MiiBus D) where
  -- `lo` and `hi` have sixteen bits.
  unfoldable pub mii_read : ℕ → D → ℕ × D
  mii_read reg d =
      let a = split_addr reg in
      let d₁ = bus.write 0x18 0 a.page d in
      let lo = bus.read (bit_or 0x10 a.r2) a.r1 d₁ in
      let hi = bus.read (bit_or 0x10 a.r2) (a.r1 + 1) lo.1 in
      (bit_or ((hi.0 % 2 ^ 16) << 16) (lo.0 % 2 ^ 16), hi.1)

  unfoldable pub mii_write : ℕ → ℕ → D → D
  mii_write reg val d =
      let a = split_addr reg in
      let d₁ = bus.write 0x18 0 a.page d in
      let d₂ = bus.write (bit_or 0x10 a.r2) (a.r1 + 1) ((val >>> 16) % 2 ^ 16) d₁ in
      bus.write (bit_or 0x10 a.r2) a.r1 (bit_and val 0xffff) d₂

  abbrev pub mii_regs : Regs D
  mii_regs = record { read = mii_read; write = mii_write }

-- `~mask` is taken in 32 bits. The value written is not used by any caller.
unfoldable pub rmw : {D : Type 0} → Regs D → ℕ → ℕ → ℕ → D → D
rmw b reg mask val d =
    let v = b.read reg d in b.write reg (bit_or (bit_and v.0 (2 ^ 32 - 1 - mask)) val) v.1
