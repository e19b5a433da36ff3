-- ===== src/Ar8216/Paged.antt =====
-- The register access of ar8216.c through the MII bus, on a switch whose pages of registers keep
-- what is written.
use wair_os.Base.{
  ℕ, ◌+◌, ◌*◌, ◌/◌, ◌%◌, ◌^◌, ◌<◌, ◌≡◌, ◌≢◌, refl, sym, ◌∙◌, arith, bit_and, bit_or, true, false,
  ◌&&◌, ◌==◌, ==_iff, if◌then◌else◌, Bool-cases, inl, inr, ◌<<◌, ◌>>>◌, bit_and_mask, bit_and_low,
  bit_or_below,
}
use wair_os.Ar8216.Mii.{MiiBus, split_addr, mii_read, mii_write}

-- What is relied on of the switch on the bus: address 0x18 selects a page, and the addresses below
-- it have words of sixteen bits in each page.
pub record Pages {D : Type 0} (bus : MiiBus D) : Type 0 where
  pub page : D → ℕ
  pub cell : D → ℕ → ℕ → ℕ → ℕ
  pub selects :
      (x : ℕ) (d : D) → (page (bus.write 0x18 0 x d) ≡ x) × (cell (bus.write 0x18 0 x d) ≡ cell d)
  pub reads :
      (a r : ℕ) (d : D)
      → a < 0x18
      → ((bus.read a r d).0 ≡ cell d (page d) a r)
        × (page (bus.read a r d).1 ≡ page d)
        × (cell (bus.read a r d).1 ≡ cell d)
  pub writes :
      (a r x : ℕ) (d : D)
      → a < 0x18
      → (page (bus.write a r x d) ≡ page d)
        × (cell (bus.write a r x d) ≡ λ p b q.
            if (p == page d) && (b == a) && (q == r) then x % 2 ^ 16 else cell d p b q)

-- The parts of an address by arithmetic.
pub split_lem :
    (reg : ℕ)
    → ((split_addr reg).r1 ≡ reg / 4 % 16 * 2)
      × ((split_addr reg).r2 ≡ reg / 64 % 8)
      × ((split_addr reg).page ≡ reg / 512 % 512)
unfolding split_addr
split_lem reg = (
  omega (arith, bit_and_low (reg / 2) 0x1e, bit_and_mask 4 (reg / 2 / 2)),
  omega (arith, bit_and_mask 3 (reg / 2 / 2 ^ 5)),
  omega (arith, bit_and_mask 9 (reg / 2 / 2 ^ 5 / 2 ^ 3)),
)

-- The address of the switch on the bus that has the register.
abbrev pub phy : ℕ → ℕ
phy reg = bit_or 0x10 (split_addr reg).r2

pub phy_lem : (reg : ℕ) → phy reg ≡ 16 + reg / 64 % 8
phy_lem reg =
    let fits : (split_addr reg).r2 < 16 = omega (arith, (split_lem reg).1) in
    bit_or_below 4 1 (split_addr reg).r2 fits ∙ omega (arith, (split_lem reg).1)

pub phy-lt : (reg : ℕ) → phy reg < 0x18
phy-lt reg = omega (arith, phy_lem reg)

==-self : (a : ℕ) → (a == a) ≡ true
==-self a = (==_iff a a).1 refl

next-ne : (a : ℕ) → (a + 1 == a) ≡ false
next-ne a = ground arith

twice : (x : ℕ) → x % 2 ^ 16 % 2 ^ 16 ≡ x % 2 ^ 16
twice x = omega arith

-- The two halves of a 32-bit value, as they are read.
halves :
    (v : ℕ) → v < 2 ^ 32 → bit_or (((v >>> 16) % 2 ^ 16 % 2 ^ 16) << 16) (v % 2 ^ 16 % 2 ^ 16) ≡ v
halves v h =
    rw (twice (v >>> 16), twice v)
      (bit_or_below 16 ((v >>> 16) % 2 ^ 16) (v % 2 ^ 16) (omega arith) ∙ omega (arith, h))

-- An address of a register: aligned, and within the pages.
abbrev pub IsReg : ℕ → Type 0
IsReg reg = (reg % 4 ≡ 0) × (reg < 2 ^ 18)

-- Words of two registers at even places are in different cells.
apart :
    (reg reg' : ℕ)
    → IsReg reg
    → IsReg reg'
    → reg' ≢ reg
    → (x y : ℕ) → (x ≡ y → (split_addr reg').r1 ≡ (split_addr reg).r1)
    → ((split_addr reg').page == (split_addr reg).page) && (phy reg' == phy reg) && (x == y) ≡ false
apart reg reg' h h' ne x y same =
    elim (Bool-cases ((split_addr reg').page == (split_addr reg).page)) [
      | inr e ↦ rw e refl
      | inl e ↦ elim (Bool-cases (phy reg' == phy reg)) [
        | inr f ↦ rw (e, f) refl
        | inl f ↦ elim (Bool-cases (x == y)) [
          | inr g ↦ rw (e, f, g) refl
          | inl g ↦
              let a = split_lem reg in
              let a' = split_lem reg' in
              let pages = (==_iff _ _).0 e in
              let phys = (==_iff _ _).0 f in
              let words = same ((==_iff x y).0 g) in
              absurd (
                ne (
                  omega (
                    arith,
                    a.0,
                    a.1,
                    a.2,
                    a'.0,
                    a'.1,
                    a'.2,
                    pages,
                    phys,
                    words,
                    phy_lem reg,
                    phy_lem reg',
                    h.0,
                    h.1,
                    h'.0,
                    h'.1,
                  )))
        ]
      ]
    ]

module _ {D : Type 0} (bus : MiiBus D) (k : Pages bus) where
  -- The two words of a register.
  abbrev word_at : (ℕ → ℕ → ℕ → ℕ) → ℕ → ℕ
  word_at c reg =
      let a = split_addr reg in
      bit_or ((c a.page (phy reg) (a.r1 + 1) % 2 ^ 16) << 16) (c a.page (phy reg) a.r1 % 2 ^ 16)

  mii_read_lem : (reg : ℕ) (d : D) → (mii_read bus reg d).0 ≡ word_at (k.cell d) reg
  unfolding mii_read
  mii_read_lem reg d =
      let a = split_addr reg in
      let s = k.selects a.page d in
      let d₁ = bus.write 0x18 0 a.page d in
      let lo = k.reads (phy reg) a.r1 d₁ (phy-lt reg) in
      let d₂ = (bus.read (phy reg) a.r1 d₁).1 in
      let hi = k.reads (phy reg) (a.r1 + 1) d₂ (phy-lt reg) in
      rw (hi.0, lo.0, lo.1, lo.2, s.0, s.1) refl

  -- The cells after a write of the two words.
  abbrev put : (ℕ → ℕ → ℕ → ℕ) → ℕ → ℕ → ℕ → ℕ → ℕ → ℕ
  put c reg v p b q =
      let a = split_addr reg in
      if (p == a.page) && (b == phy reg) && (q == a.r1)
      then v % 2 ^ 16
      else if (p == a.page) && (b == phy reg) && (q == a.r1 + 1)
      then (v >>> 16) % 2 ^ 16
      else c p b q

  mii_write_lem : (reg val : ℕ) (d : D) → k.cell (mii_write bus reg val d) ≡ put (k.cell d) reg val
  unfolding mii_write
  mii_write_lem reg val d =
      let a = split_addr reg in
      let s = k.selects a.page d in
      let d₁ = bus.write 0x18 0 a.page d in
      let hi = k.writes (phy reg) (a.r1 + 1) ((val >>> 16) % 2 ^ 16) d₁ (phy-lt reg) in
      let d₂ = bus.write (phy reg) (a.r1 + 1) ((val >>> 16) % 2 ^ 16) d₁ in
      let lo = k.writes (phy reg) a.r1 (bit_and val 0xffff) d₂ (phy-lt reg) in
      let low : bit_and val 0xffff % 2 ^ 16 ≡ val % 2 ^ 16 = omega (arith, bit_and_mask 16 val) in
      let high : (val >>> 16) % 2 ^ 16 % 2 ^ 16 ≡ (val >>> 16) % 2 ^ 16 = omega arith in
      lo.1 ∙ rw (hi.0, hi.1, s.0, s.1, low, high) refl

  same_reg :
      (reg val : ℕ) (d : D) → val < 2 ^ 32 → (mii_read bus reg (mii_write bus reg val d)).0 ≡ val
  same_reg reg val d h =
      let a = split_addr reg in
      mii_read_lem reg (mii_write bus reg val d)
      ∙ rw
          (
            mii_write_lem reg val d,
            ==-self a.page,
            ==-self (phy reg),
            ==-self a.r1,
            ==-self (a.r1 + 1),
            next-ne a.r1,
          )
          (halves val h)

  other_reg :
      (reg reg' val : ℕ) (d : D)
      → IsReg reg
      → IsReg reg'
      → reg' ≢ reg
      → (mii_read bus reg' (mii_write bus reg val d)).0 ≡ (mii_read bus reg' d).0
  other_reg reg reg' val d h h' ne =
      let a' = split_addr reg' in
      let a = split_addr reg in
      let even = (split_lem reg).0 in
      let even' = (split_lem reg').0 in
      mii_read_lem reg' (mii_write bus reg val d)
      ∙ rw
          (
            mii_write_lem reg val d,
            apart reg reg' h h' ne a'.r1 a.r1 (λ e. omega (arith, e, even, even')),
            apart reg reg' h h' ne a'.r1 (a.r1 + 1) (λ e. omega (arith, e, even, even')),
            apart reg reg' h h' ne (a'.r1 + 1) a.r1 (λ e. omega (arith, e, even, even')),
            apart reg reg' h h' ne (a'.r1 + 1) (a.r1 + 1) (λ e. omega (arith, e, even, even')),
          )
          (sym (mii_read_lem reg' d))

  -- On such a switch, after `ar8216_mii_write` of a 32-bit value to a register, `ar8216_mii_read`
  -- reads that value from that register, and from each other register what it read before. A
  -- register has an address below 2 ^ 18 that is a multiple of 4.
  pub mii_read-mii_write :
      (reg reg' val : ℕ) (d : D)
      → IsReg reg
      → IsReg reg'
      → val < 2 ^ 32
      → (mii_read bus reg' (mii_write bus reg val d)).0
        ≡ (if reg' == reg then val else (mii_read bus reg' d).0)
  mii_read-mii_write reg reg' val d h h' hv = elim (Bool-cases (reg' == reg)) [
    | inl e ↦ rw (e, (==_iff reg' reg).0 e) (same_reg reg val d hv)
    | inr e ↦ rw e (other_reg reg reg' val d h h' (λ f. cc (e, (==_iff reg' reg).1 f)))
  ]
