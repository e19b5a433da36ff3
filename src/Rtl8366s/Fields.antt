-- ===== src/Rtl8366s/Fields.antt =====
-- The MC index of a port: a field of four bits in a register that four ports share.
use native.Mathlib.Nat.{mod-eq_of_lt}
use wair_os.Base.{
  ℕ, ◌+◌, ◌-◌, ◌*◌, ◌/◌, ◌%◌, ◌^◌, ◌<◌, ◌≡◌, ◌≢◌, ◌⊎◌, inl, inr, refl, arith, bit_and, bit_or, ◌<<◌,
  ◌>>>◌, Replaced, put_nibble-Replaced,
}
use wair_os.Rtl8366s.{port_vlan_ctrl_shift}
use wair_os.Rtl8366s.Asic.{index_field}
use wair_os.Rtl8366s.Words.{low_4}

-- What `rtl8366s_set_mc_index` writes to the register.
abbrev pub index_word : ℕ → ℕ → ℕ → ℕ
index_word port t index =
    bit_or (bit_and t (2 ^ 32 - 1 - (0xf << port_vlan_ctrl_shift port)))
      (bit_and index 0xf << port_vlan_ctrl_shift port)

-- A register holds the fields of four ports.
by_slot : (P : ℕ → Type 0) → P 0 → P 1 → P 2 → P 3 → (n : ℕ) → n < 4 → P n
by_slot P a b c d n h = elim (slots n h) [
  | inl e ↦ rw e a
  | inr (inl e) ↦ rw e b
  | inr (inr (inl e)) ↦ rw e c
  | inr (inr (inr e)) ↦ rw e d
]
  where
    slots : (n : ℕ) → n < 4 → (n ≡ 0) ⊎ ((n ≡ 1) ⊎ ((n ≡ 2) ⊎ (n ≡ 3)))
    slots n h = ground arith

-- The register still holds sixteen bits.
Replaced-lt : (t v r n : ℕ) → n < 4 → t < 2 ^ 16 → Replaced (4 * n) t v r → r < 2 ^ 16
Replaced-lt t v r n hn ht =
    by_slot (λ n. Replaced (4 * n) t v r → r < 2 ^ 16) (λ h. omega (arith, h.above_same))
      (λ h. omega (arith, h.above_same)) (λ h. omega (arith, h.above_same))
      (λ h. omega (arith, h.above_same)) n hn

-- The other fields stay.
Replaced-other :
    (t v r n m : ℕ)
    → n < 4
    → m < 4
    → n ≢ m
    → Replaced (4 * n) t v r
    → r / 2 ^ (4 * m) % 16 ≡ t / 2 ^ (4 * m) % 16
Replaced-other t v r n m hn hm =
    by_slot (λ n. n ≢ m → Replaced (4 * n) t v r → r / 2 ^ (4 * m) % 16 ≡ t / 2 ^ (4 * m) % 16)
      (by_slot (λ m. 0 ≢ m → Replaced (4 * 0) t v r → r / 2 ^ (4 * m) % 16 ≡ t / 2 ^ (4 * m) % 16)
        (λ ne h. absurd (ne refl)) (λ ne h. omega (arith, h.above_same))
        (λ ne h. omega (arith, h.above_same)) (λ ne h. omega (arith, h.above_same)) m hm)
      (by_slot (λ m. 1 ≢ m → Replaced (4 * 1) t v r → r / 2 ^ (4 * m) % 16 ≡ t / 2 ^ (4 * m) % 16)
        (λ ne h. omega (arith, h.below_same)) (λ ne h. absurd (ne refl))
        (λ ne h. omega (arith, h.above_same)) (λ ne h. omega (arith, h.above_same)) m hm)
      (by_slot (λ m. 2 ≢ m → Replaced (4 * 2) t v r → r / 2 ^ (4 * m) % 16 ≡ t / 2 ^ (4 * m) % 16)
        (λ ne h. omega (arith, h.below_same)) (λ ne h. omega (arith, h.below_same))
        (λ ne h. absurd (ne refl)) (λ ne h. omega (arith, h.above_same)) m hm)
      (by_slot (λ m. 3 ≢ m → Replaced (4 * 3) t v r → r / 2 ^ (4 * m) % 16 ≡ t / 2 ^ (4 * m) % 16)
        (λ ne h. omega (arith, h.below_same)) (λ ne h. omega (arith, h.below_same))
        (λ ne h. omega (arith, h.below_same)) (λ ne h. absurd (ne refl)) m hm)
      n hn

module _ (p t index : ℕ) (ht : t < 2 ^ 16) (hi : index < 16) where
  abbrev r : ℕ
  r = index_word p t index

  index_word-Replaced : Replaced (4 * (p % 4)) t index r
  index_word-Replaced =
      rw (low_4 index, mod-eq_of_lt {n = index} {m = 16} hi)
        (rw width at (put_nibble-Replaced (28 - k) k t index (rw width (omega (arith, ht))) hi))
    where
      k : ℕ
      k = 4 * (p % 4)

      width : 28 - k + 4 + k ≡ 32
      width = omega arith

  pub index_word-lt : r < 2 ^ 16
  index_word-lt = Replaced-lt t index r (p % 4) (omega arith) ht index_word-Replaced

  -- The port's field is the new index.
  pub index_word_self : index_field p r ≡ index
  index_word_self = omega (arith, low_4 (r >>> (4 * (p % 4))), index_word-Replaced.field_new)

  -- The fields of the other ports in the register stay.
  pub index_word_other : (q : ℕ) → p / 4 ≡ q / 4 → p ≢ q → index_field q r ≡ index_field q t
  index_word_other q same ne = omega (
    arith,
    low_4 (r >>> (4 * (q % 4))),
    low_4 (t >>> (4 * (q % 4))),
    Replaced-other t index r (p % 4) (q % 4) (omega arith) (omega arith)
        (λ e. ne (omega (arith, e, same))) index_word-Replaced,
  )
