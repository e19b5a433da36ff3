-- ===== src/Ar7240/Reg.antt =====
-- The registers of the switch through the MDIO bus of ag71xx: mk_phy_addr to ar7240sw_phy_write of
-- ag71xx_ar7240.c. `mii` stands for `ag71xx_mdio_mii_read` and `ag71xx_mdio_mii_write`, which are
-- `mdio_bus` of Ag71xx/Mdio. Locks and delays are left out.
use wair_os.Base.{
  ℕ, zero, suc, ◌+◌, ◌-◌, ◌%◌, ◌^◌, bit, bit_and, bit_or, ◌<<◌, ◌>>>◌, leb, ◌==◌, if◌then◌else◌,
  Outcome, ok, err, einval, etimedout,
}
use wair_os.Ar8216.Mii.{MiiBus, Regs}

abbrev pub reg_mdio_ctrl : ℕ
reg_mdio_ctrl = 0x98

abbrev pub mdio_ctrl_busy : ℕ
mdio_ctrl_busy = bit 31

abbrev pub mdio_ctrl_master_en : ℕ
mdio_ctrl_master_en = bit 30

abbrev pub mdio_ctrl_cmd_read : ℕ
mdio_ctrl_cmd_read = bit 27

abbrev pub num_phys : ℕ
num_phys = 5

unfoldable pub mk_phy_addr : ℕ → ℕ
mk_phy_addr reg = bit_and 0x17 (bit_or (reg >>> 4) 0x10)

unfoldable pub mk_phy_reg : ℕ → ℕ
mk_phy_reg reg = bit_and (reg << 1) 0x1e

unfoldable pub mk_high_addr : ℕ → ℕ
mk_high_addr reg = bit_and (reg >>> 7) 0x1ff

-- `(reg & 0xfffffffc) >> 2`
abbrev pub word_addr : ℕ → ℕ
word_addr reg = bit_and reg 0xfffffffc >>> 2

module _ {D : Type 0} (mii : MiiBus D) where
  unfoldable pub reg_read : ℕ → D → ℕ × D
  reg_read reg d =
      let r = word_addr reg in
      let phy_addr = mk_phy_addr r in
      let phy_reg = mk_phy_reg r in
      let d₁ = mii.write 0x1f 0x10 (mk_high_addr r) d in
      let lo = mii.read phy_addr phy_reg d₁ in
      let hi = mii.read phy_addr (phy_reg + 1) lo.1 in (bit_or (hi.0 << 16) lo.0, hi.1)

  unfoldable pub reg_write : ℕ → ℕ → D → D
  reg_write reg val d =
      let r = word_addr reg in
      let phy_addr = mk_phy_addr r in
      let phy_reg = mk_phy_reg r in
      let d₁ = mii.write 0x1f 0x10 (mk_high_addr r) d in
      let d₂ = mii.write phy_addr (phy_reg + 1) ((val >>> 16) % 2 ^ 16) d₁ in
      mii.write phy_addr phy_reg (bit_and val 0xffff) d₂

  -- The registers as an interface.
  abbrev pub reg_bus : Regs D
  reg_bus = record { read = reg_read; write = reg_write }

-- `~mask` is taken in 32 bits. The value written is not used by any caller.
unfoldable pub reg_rmw : {D : Type 0} → Regs D → ℕ → ℕ → ℕ → D → D
reg_rmw b reg mask val d =
    let t = b.read reg d in b.write reg (bit_or (bit_and t.0 (2 ^ 32 - 1 - mask)) val) t.1

unfoldable pub reg_set : {D : Type 0} → Regs D → ℕ → ℕ → D → D
reg_set b reg val d = let t = b.read reg d in b.write reg (bit_or t.0 val) t.1

module _ {D : Type 0} (b : Regs D) where
  -- `timeout` counts the rounds of the loop that are left.
  unfoldable pub reg_wait : ℕ → ℕ → ℕ → ℕ → D → Outcome (Unit {0}) × D
  reg_wait reg mask val zero d = (err etimedout, d)
  reg_wait reg mask val (suc timeout) d =
      let t = b.read reg d in
      let rest = reg_wait reg mask val timeout t.1 in
      if bit_and t.0 mask == val then (ok tt, t.1) else rest

  -- The word for `AR7240_REG_MDIO_CTRL`; `AR7240_MDIO_CTRL_CMD_WRITE` is 0.
  abbrev pub mdio_word : ℕ → ℕ → ℕ → ℕ
  mdio_word phy_addr reg_addr rest =
      bit_or
        (bit_or (bit_or (bit_or (reg_addr << 16) (phy_addr << 21)) mdio_ctrl_master_en)
          mdio_ctrl_busy)
        rest

  -- The end of `ar7240sw_phy_read`, after the wait.
  unfoldable pub phy_take : Outcome (Unit {0}) × D → ℕ × D
  phy_take (ok u, d) = let v = b.read reg_mdio_ctrl d in (bit_and v.0 0xffff, v.1)
  phy_take (err e, d) = (bit_and 0xffff 0xffff, d)

  unfoldable pub phy_read : ℕ → ℕ → D → ℕ × D
  phy_read phy_addr reg_addr d =
      if leb num_phys phy_addr
      then (0xffff, d)
      else phy_take (
          reg_wait reg_mdio_ctrl mdio_ctrl_busy 0 5
            (b.write reg_mdio_ctrl (mdio_word phy_addr reg_addr mdio_ctrl_cmd_read % 2 ^ 32) d))

  unfoldable pub phy_write : ℕ → ℕ → ℕ → D → Outcome (Unit {0}) × D
  phy_write phy_addr reg_addr reg_val d =
      if leb num_phys phy_addr
      then (err einval, d)
      else reg_wait reg_mdio_ctrl mdio_ctrl_busy 0 5
          (b.write reg_mdio_ctrl (mdio_word phy_addr reg_addr (reg_val % 2 ^ 16) % 2 ^ 32) d)
