-- ===== src/Rtl8366s/Width.antt =====
-- The value of a MIB counter.
use native.Mathlib.Nat.{mod-eq_of_lt, pow-suc}
use wair_os.Base.{
  ℕ, zero, suc, ◌+◌, ◌*◌, ◌%◌, ◌^◌, ◌<◌, ◌≤◌, ◌≡◌, refl, ◌∙◌, arith, ap, bit_and, bit_or,
  bit_and_mask, bit_or_below, pow_mono, ◌<<◌, ok, and_then-ok,
}
use wair_os.Rtl8366.{Bus}
use wair_os.Rtl8366s.Counters.{read_words}

-- The number that `n` words from `a` on make, the first one lowest.
abbrev pub little_endian : (ℕ → ℕ) → ℕ → ℕ → ℕ
little_endian v a zero = 0
little_endian v a (suc n) = little_endian v a n + v (a + n) * 2 ^ (16 * n)

-- Reads succeed with the words `v`, of sixteen bits.
pub record Frozen {D : Type 0} (b : Bus D) (v : ℕ → ℕ) : Type 0 where
  pub answers : (a : ℕ) (d : D) → (b.read_reg a d).0 ≡ ok (v a)
  pub words : (a : ℕ) → v a < 2 ^ 16

three_words : (used : ℕ) → used ≤ 3 → 2 ^ (16 * used) ≤ 2 ^ 48
three_words used h = pow_mono (16 * used) 48 (omega arith)

-- The word that a round adds below the others.
next_word :
    (m x used : ℕ)
    → used ≤ 3
    → m < 2 ^ (16 * used)
    → x < 2 ^ 16
    → bit_or ((m << 16) % 2 ^ 64) (bit_and x 0xFFFF) ≡ m * 2 ^ 16 + x
next_word m x used hu hm hx =
    rw
      (
        bit_and_mask 16 x,
        mod-eq_of_lt {n = x} {m = 2 ^ 16} hx,
        mod-eq_of_lt {n = m << 16} {m = 2 ^ 64} (omega (arith, three_words used hu)),
      )
      (bit_or_below 16 m x hx)

one_word : (k : ℕ) → 2 ^ (k + 16) ≡ 2 ^ k * 2 ^ 16
one_word zero = refl
one_word (suc k) =
    ap (λ (n : ℕ). 2 ^ n) (omega arith)
    ∙ pow-suc 2 (k + 16)
    ∙ omega (arith, one_word k, pow-suc 2 k)

regroup : (m x p l q : ℕ) → q ≡ p * 2 ^ 16 → (m * 2 ^ 16 + x) * p + l ≡ m * q + (l + x * p)
regroup m x p l q e = rw e (grind arith)

wider : (n : ℕ) → 2 ^ (16 * (n + 1)) ≡ 2 ^ (16 * n) * 2 ^ 16
wider n = ap (λ (k : ℕ). 2 ^ k) (omega arith) ∙ one_word (16 * n)

module _ {D : Type 0} (b : Bus D) (v : ℕ → ℕ) (z : Frozen b v) (addr : ℕ) where
  words_below :
      (i used m : ℕ) (d : D)
      → used + i ≤ 4
      → m < 2 ^ (16 * used)
      → (read_words b addr i m d).0 ≡ ok (m * 2 ^ (16 * i) + little_endian v addr i)
  unfolding read_words
  words_below zero used m d h lt = ap ok (omega arith)
  words_below (suc i) used m d h lt =
      rw
        (
          and_then-ok
              (λ (x : ℕ). read_words b addr i (bit_or ((m << 16) % 2 ^ 64) (bit_and x 0xFFFF)))
              (b.read_reg (addr + i) d) (z.answers (addr + i) d),
          next_word m (v (addr + i)) used (omega arith) lt (z.words (addr + i)),
        )
        (words_below i (used + 1) (m * 2 ^ 16 + v (addr + i)) (b.read_reg (addr + i) d).1
            (omega arith) (omega (arith, wider used, z.words (addr + i)))
          ∙ ap ok (
              regroup m (v (addr + i)) (2 ^ (16 * i)) (little_endian v addr i) (2 ^ (16 * (i + 1)))
                (wider i)
              ∙ ap (λ (k : ℕ). m * 2 ^ (16 * k) + little_endian v addr (suc i)) (omega arith)))

  -- When the reads succeed with words of sixteen bits, reading a counter of at most four words
  -- gives the number that they make, the first one lowest.
  pub read_words_lem :
      (width : ℕ) (d : D)
      → width ≤ 4
      → (read_words b addr width 0 d).0 ≡ ok (little_endian v addr width)
  read_words_lem width d h =
      words_below width 0 0 d (omega arith) (omega arith) ∙ ap ok (omega arith)
