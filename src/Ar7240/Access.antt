-- ===== src/Ar7240/Access.antt =====
-- The register access of ag71xx_ar7240.c over ag71xx_mdio.c beside that of ar8216.c.
use Prim.Native.Nat.{min, max, bit_and-bitwise}
use wair_os.Base.{
  ℕ, ◌+◌, ◌*◌, ◌/◌, ◌%◌, ◌^◌, ◌<◌, ◌≡◌, Bool, true, false, refl, sym, ◌∙◌, ap, arith, bit_and,
  bit_or, bit_and_low, bit_or_low, bit_or-zero, bit_and_mask, ◌<<◌, ◌>>>◌, ◌==◌, if◌then◌else◌,
}
use wair_os.Ag71xx.Mdio.{reg_mii_status, mdio_take, mdio_mii_read, mdio_bus}
use wair_os.Ar8216.Mii.{MiiBus, Regs, split_addr, mii_read, mii_write}
use wair_os.Ar8216.Paged.{phy, phy_lem, phy-lt, split_lem}
use wair_os.Ar7240.Reg.{mk_phy_addr, mk_phy_reg, mk_high_addr, word_addr, reg_read, reg_write}

-- The bus of an AR7240 as ar8216.c sees its own: what goes to address 0x18 there selects a page.
abbrev pub repaged : {D : Type 0} → MiiBus D → MiiBus D
repaged mii = record {
  read = mii.read;
  write = λ a r x d. if a == 0x18 then mii.write 0x1f 0x10 x d else mii.write a r x d;
}

word_addr_lem : (reg : ℕ) → reg < 2 ^ 32 → word_addr reg ≡ reg / 4
word_addr_lem reg h =
    let s₁ : bit_and reg 0xfffffffc ≡ bit_and (reg / 2) 0x7ffffffe * 2 + min (reg % 2) 0 =
      bit_and_low reg 0xfffffffc in
    let s₂ : bit_and (reg / 2) 0x7ffffffe
        ≡ bit_and (reg / 2 / 2) 0x3fffffff * 2 + min (reg / 2 % 2) 0 =
      bit_and_low (reg / 2) 0x7ffffffe in
    omega (arith, h, s₁, s₂, bit_and_mask 30 (reg / 2 / 2))

-- Digits 0, 1, 2 and 4.
and_lem : (y : ℕ) → bit_and 0x17 y ≡ y % 8 + y / 16 % 2 * 16
and_lem y =
    let s₁ : bit_and 23 y ≡ bit_and 11 (y / 2) * 2 + min 1 (y % 2) = bit_and_low 23 y in
    let s₂ : bit_and 11 (y / 2) ≡ bit_and 5 (y / 2 / 2) * 2 + min 1 (y / 2 % 2) =
      bit_and_low 11 (y / 2) in
    let s₃ : bit_and 5 (y / 2 / 2) ≡ bit_and 2 (y / 2 / 2 / 2) * 2 + min 1 (y / 2 / 2 % 2) =
      bit_and_low 5 (y / 2 / 2) in
    let s₄ : bit_and 2 (y / 2 / 2 / 2)
        ≡ bit_and 1 (y / 2 / 2 / 2 / 2) * 2 + min 0 (y / 2 / 2 / 2 % 2) =
      bit_and_low 2 (y / 2 / 2 / 2) in
    let s₅ : bit_and 1 (y / 2 / 2 / 2 / 2)
        ≡ bit_and 0 (y / 2 / 2 / 2 / 2 / 2) * 2 + min 1 (y / 2 / 2 / 2 / 2 % 2) =
      bit_and_low 1 (y / 2 / 2 / 2 / 2) in
    omega (arith, s₁, s₂, s₃, s₄, s₅, bit_and-bitwise 0 (y / 2 / 2 / 2 / 2 / 2))

or_lem : (x : ℕ) → (bit_or x 16 % 8 ≡ x % 8) × (bit_or x 16 / 16 % 2 ≡ 1)
or_lem x =
    let s₁ : bit_or x 16 ≡ bit_or (x / 2) 8 * 2 + max (x % 2) 0 = bit_or_low x 16 in
    let s₂ : bit_or (x / 2) 8 ≡ bit_or (x / 2 / 2) 4 * 2 + max (x / 2 % 2) 0 =
      bit_or_low (x / 2) 8 in
    let s₃ : bit_or (x / 2 / 2) 4 ≡ bit_or (x / 2 / 2 / 2) 2 * 2 + max (x / 2 / 2 % 2) 0 =
      bit_or_low (x / 2 / 2) 4 in
    let s₄ : bit_or (x / 2 / 2 / 2) 2
        ≡ bit_or (x / 2 / 2 / 2 / 2) 1 * 2 + max (x / 2 / 2 / 2 % 2) 0 =
      bit_or_low (x / 2 / 2 / 2) 2 in
    let s₅ : bit_or (x / 2 / 2 / 2 / 2) 1
        ≡ bit_or (x / 2 / 2 / 2 / 2 / 2) 0 * 2 + max (x / 2 / 2 / 2 / 2 % 2) 1 =
      bit_or_low (x / 2 / 2 / 2 / 2) 1 in
    let z = bit_or-zero (x / 2 / 2 / 2 / 2 / 2) in
    (omega (arith, s₁, s₂, s₃), omega (arith, s₁, s₂, s₃, s₄, s₅, z))

mk_phy_addr_lem : (reg : ℕ) → reg < 2 ^ 32 → mk_phy_addr (word_addr reg) ≡ phy reg
unfolding mk_phy_addr
mk_phy_addr_lem reg h =
    let x = word_addr reg >>> 4 in
    let o = or_lem x in
    and_lem (bit_or x 0x10) ∙ omega (arith, o.0, o.1, word_addr_lem reg h) ∙ sym (phy_lem reg)

mk_phy_reg_lem : (reg : ℕ) → reg < 2 ^ 32 → mk_phy_reg (word_addr reg) ≡ (split_addr reg).r1
unfolding mk_phy_reg
mk_phy_reg_lem reg h =
    let w = word_addr reg in
    let low = bit_and_low (w << 1) 0x1e in
    omega (arith, low, bit_and_mask 4 (w << 1 / 2), word_addr_lem reg h, (split_lem reg).0)

mk_high_addr_lem : (reg : ℕ) → reg < 2 ^ 32 → mk_high_addr (word_addr reg) ≡ (split_addr reg).page
unfolding mk_high_addr
mk_high_addr_lem reg h =
    bit_and_mask 9 (word_addr reg >>> 7) ∙ omega (arith, word_addr_lem reg h, (split_lem reg).2)

-- What `ag71xx_mdio_mii_read` returns has sixteen bits.
take-below : {D : Type 0} (b : Regs D) (r : Bool × D) → (mdio_take b r).0 < 2 ^ 16
unfolding mdio_take
take-below b (true, d) = omega arith
take-below b (false, d) = omega (arith, bit_and_mask 16 (b.read reg_mii_status d).0)

mdio_mii_read-below :
    {D : Type 0} (b : Regs D) (a r : ℕ) (d : D) → (mdio_mii_read b a r d).0 < 2 ^ 16
unfolding mdio_mii_read
mdio_mii_read-below b a r d = take-below b _

-- A bus whose reads return sixteen bits.
abbrev IsShort : {D : Type 0} → MiiBus D → Type 0
IsShort {D} mii = (a r : ℕ) (d : D) → (mii.read a r d).0 < 2 ^ 16

module _ {D : Type 0} (mii : MiiBus D) (reg : ℕ) (h : reg < 2 ^ 32) where
  -- `lo` and `hi` are 16-bit variables in ar8216.c, and 32-bit ones in ag71xx_ar7240.c.
  reg_read-mii_read : IsShort mii → (d : D) → reg_read mii reg d ≡ mii_read (repaged mii) reg d
  unfolding reg_read mii_read
  reg_read-mii_read short d =
      let a = split_addr reg in
      let d₁ = mii.write 0x1f 0x10 a.page d in
      let lo = mii.read (phy reg) a.r1 d₁ in
      let hi = mii.read (phy reg) (a.r1 + 1) lo.1 in
      let low : lo.0 % 2 ^ 16 ≡ lo.0 = omega (arith, short (phy reg) a.r1 d₁) in
      let high : hi.0 % 2 ^ 16 ≡ hi.0 = omega (arith, short (phy reg) (a.r1 + 1) lo.1) in
      rw (mk_phy_addr_lem reg h, mk_phy_reg_lem reg h, mk_high_addr_lem reg h)
        (sym (
          ap (λ (x : ℕ). (bit_or (x << 16) (lo.0 % 2 ^ 16), hi.1)) high
          ∙ ap (λ (x : ℕ). (bit_or (hi.0 << 16) x, hi.1)) low))

  -- The three writes, with the parts of the address.
  abbrev write_at : ℕ → ℕ → ℕ → ℕ → D → D
  write_at a r p val d =
      let d₂ = mii.write a (r + 1) ((val >>> 16) % 2 ^ 16) (mii.write 0x1f 0x10 p d) in
      mii.write a r (bit_and val 0xffff) d₂

  reg_write-mii_write :
      (val : ℕ) (d : D) → reg_write mii reg val d ≡ mii_write (repaged mii) reg val d
  unfolding reg_write mii_write
  reg_write-mii_write val d =
      let a = split_addr reg in
      let below = phy-lt reg in
      let apart : (phy reg == 0x18) ≡ false = ground arith in
      let parts : write_at (mk_phy_addr (word_addr reg)) (mk_phy_reg (word_addr reg))
            (mk_high_addr (word_addr reg)) val d
          ≡ write_at (phy reg) a.r1 a.page val d =
        ap (λ (x : ℕ). write_at x (mk_phy_reg (word_addr reg)) (mk_high_addr (word_addr reg)) val d)
          (mk_phy_addr_lem reg h)
        ∙ ap (λ (x : ℕ). write_at (phy reg) x (mk_high_addr (word_addr reg)) val d)
            (mk_phy_reg_lem reg h)
        ∙ ap (λ (x : ℕ). write_at (phy reg) a.r1 x val d) (mk_high_addr_lem reg h) in
      parts ∙ rw apart refl

-- For every register address of 32 bits, `__ar7240sw_reg_read` and `__ar7240sw_reg_write` do over
-- `ag71xx_mdio_mii_read` and `ag71xx_mdio_mii_write`, whatever the registers of the MAC answer, what
-- `ar8216_mii_read` and `ar8216_mii_write` do over the same two functions when a page is selected by
-- a write to register 0x10 of address 0x1f in place of register 0 of address 0x18.
pub reg_access-mii_access :
    {D : Type 0} (b : Regs D) (reg val : ℕ) (d : D)
    → reg < 2 ^ 32
    → (reg_read (mdio_bus b) reg d ≡ mii_read (repaged (mdio_bus b)) reg d)
      × (reg_write (mdio_bus b) reg val d ≡ mii_write (repaged (mdio_bus b)) reg val d)
reg_access-mii_access b reg val d h = (
  reg_read-mii_read (mdio_bus b) reg h (mdio_mii_read-below b) d,
  reg_write-mii_write (mdio_bus b) reg h val d,
)
