-- ===== src/Rtl8366s/Counters.antt =====
-- The PHY registers and the MIB counters of rtl8366s.c.
use wair_os.Base.{
  ℕ, zero, suc, ◌+◌, ◌*◌, ◌%◌, ◌^◌, bit_and, bit_or, List, [], ◌∷◌, get_elem?, Option, some, none,
  Bool, ◌||◌, ltb, leb, ◌==◌, if◌then◌else◌, bit, ◌<<◌, ok, on_err, einval, eio, ebusy, Op, ◌>>=◌,
  ◌>>◌, pure, fail,
}
use wair_os.Rtl8366.{Bus}

-- `struct rtl8366_mib_counter` without the name, which is only printed
pub record MibCounter : Type 0 where
  pub base : ℕ
  pub offset : ℕ
  pub width : ℕ

-- A counter of two words.
abbrev pair_at : ℕ → ℕ → MibCounter
pair_at base offset = record { base = base; offset = offset; width = 2 }

abbrev quad_at : ℕ → MibCounter
quad_at offset = record { base = 0; offset = offset; width = 4 }

-- `rtl8366s_mib_counters`
abbrev pub mib_counters : List MibCounter
mib_counters =
    quad_at 0
    ∷ quad_at 4
    ∷ pair_at 0 8
    ∷ pair_at 0 10
    ∷ pair_at 0 12
    ∷ pair_at 0 14
    ∷ pair_at 0 16
    ∷ pair_at 0 18
    ∷ pair_at 0 20
    ∷ pair_at 0 22
    ∷ pair_at 0 24
    ∷ pair_at 0 26
    ∷ pair_at 0 28
    ∷ pair_at 0 30
    ∷ pair_at 0 32
    ∷ pair_at 0 34
    ∷ pair_at 0 36
    ∷ pair_at 0 38
    ∷ pair_at 0 40
    ∷ pair_at 0 42
    ∷ quad_at 44
    ∷ pair_at 0 48
    ∷ pair_at 0 50
    ∷ pair_at 0 52
    ∷ pair_at 0 54
    ∷ pair_at 0 56
    ∷ pair_at 0 58
    ∷ pair_at 0 60
    ∷ pair_at 0 62
    ∷ pair_at 1 0
    ∷ pair_at 1 2
    ∷ pair_at 1 4
    ∷ pair_at 1 6
    ∷ []

-- The `switch` on the base.
abbrev pub counter_addr : MibCounter → ℕ → Option ℕ
counter_addr c port =
    if c.base == 0
    then some (0x1000 + 0x0040 * port + c.offset)
    else (if c.base == 1 then some (0x1180 + 0x0008 * port + c.offset) else none)

module _ {D : Type 0} (b : Bus D) where
  -- The loop over the words of a counter, the highest first, into a 64-bit value.
  unfoldable pub read_words : ℕ → ℕ → ℕ → Op D ℕ
  read_words addr zero mibvalue = pure mibvalue
  read_words addr (suc i) mibvalue = do
    data_word ← b.read_reg (addr + i)
    read_words addr i (bit_or ((mibvalue << 16) % 2 ^ 64) (bit_and data_word 0xFFFF))

  unfoldable pub read_counter : ℕ → ℕ → Op D ℕ
  read_counter addr width = do
    b.write_reg addr 0
    control ← b.read_reg 0x11F0
    if bit_and control 0x0001 == 0 then pure tt else fail ebusy
    if bit_and control 0x0002 == 0 then pure tt else fail eio
    read_words addr width 0

  unfoldable pub get_mib_counter : ℕ → ℕ → Op D ℕ
  get_mib_counter counter port =
      if ltb 6 port || leb 33 counter then fail einval else (elim (get_elem? mib_counters counter) [
        | some c ↦ elim (counter_addr c port) [
          | some addr ↦ read_counter addr c.width
          | none ↦ fail einval
        ]
        | none ↦ fail einval
      ])

  abbrev pub phy_reg : ℕ → ℕ → ℕ → ℕ
  phy_reg phy_no page addr =
      bit_or (bit_or (bit_or 0x8000 (bit (phy_no + 9))) (bit_and (page << 5) (0x7 << 5)))
        (bit_and addr 0x1f)

  abbrev pub phy_args_bad : ℕ → ℕ → ℕ → Bool
  phy_args_bad phy_no page addr = ltb 4 phy_no || ltb 7 page || ltb 31 addr

  unfoldable pub read_phy_reg : ℕ → ℕ → ℕ → Op D ℕ
  read_phy_reg phy_no page addr = do
    if phy_args_bad phy_no page addr then fail einval else pure tt
    b.write_reg 0x8028 1
    b.write_reg (phy_reg phy_no page addr) 0
    b.read_reg 0x8029

  unfoldable pub write_phy_reg : ℕ → ℕ → ℕ → ℕ → Op D (Unit {0})
  write_phy_reg phy_no page addr data_word = do
    if phy_args_bad phy_no page addr then fail einval else pure tt
    b.write_reg 0x8028 0
    b.write_reg (phy_reg phy_no page addr) data_word

  -- An error reads as all ones.
  unfoldable pub mii_read : ℕ → ℕ → Op D ℕ
  mii_read addr reg s = let (r, s₁) = read_phy_reg addr 0 reg s in (on_err (λ e. ok 0xffff) r, s₁)

  -- The outcome is that of the write; the read after it flushes it.
  unfoldable pub mii_write : ℕ → ℕ → ℕ → Op D (Unit {0})
  mii_write addr reg val s =
      let (r, s₁) = write_phy_reg addr 0 reg val s in (r, (read_phy_reg addr 0 reg s₁).1)
