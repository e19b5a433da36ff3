-- ===== src/Base/Digits.antt =====
-- Setting one digit of a word, and testing another.
use Prim.Native.Nat.{ℕ, zero, suc, ◌+◌, ◌*◌, ◌/◌, ◌%◌, ◌^◌, bit_and, bit_or, bit_and-bitwise}
use mathlib.Core.Path.{◌≡◌, refl, ap, sym, ◌∙◌}
use mathlib.Core.Bool.{Bool, true, false, not}
use mathlib.Core.Logic.{inl, inr}
use native.Mathlib.Nat.{pow-suc, one-le-pow}
use native.Mathlib.Omega.{arith}
use wair_os.Base.Tests.{◌==◌, if◌then◌else◌, Bool-cases}
use wair_os.Base.Bits.{bit, bit_or_low, bit_or-zero, bit_and_bit, div-pow-suc}

abbrev pub digit : ℕ → ℕ → ℕ
digit k a = a / 2 ^ k % 2

pub digit-suc : (k a : ℕ) → digit (suc k) a ≡ digit k (a / 2)
digit-suc k a = ap (λ (x : ℕ). x % 2) (div-pow-suc k a)

half_set : (p a : ℕ) → bit_or a (2 ^ suc p) / 2 ≡ bit_or (a / 2) (2 ^ p)
half_set p a = ground (arith, bit_or_low a (2 ^ suc p), pow-suc 2 p)

half_low : (a : ℕ) → bit_or a 1 / 2 ≡ a / 2
half_low a = ground (arith, bit_or_low a 1, bit_or-zero (a / 2))

digit-set : (p q a : ℕ) → digit q (bit_or a (2 ^ p)) ≡ (if q == p then 1 else digit q a)
digit-set zero zero a = ground (arith, bit_or_low a 1)
digit-set zero (suc q) a =
    digit-suc q (bit_or a 1) ∙ ap (digit q) (half_low a) ∙ ground (arith, digit-suc q a)
digit-set (suc p) zero a = ground (arith, bit_or_low a (2 ^ suc p), pow-suc 2 p)
digit-set (suc p) (suc q) a =
    digit-suc q (bit_or a (2 ^ suc p))
    ∙ ap (digit q) (half_set p a)
    ∙ digit-set p q (a / 2)
    ∙ ground (arith, digit-suc q a)

-- The test of a digit, `a & BIT(q)`.
abbrev pub has_bit : ℕ → ℕ → Bool
has_bit a q = not (bit_and a (bit q) == 0)

shifted_zero : (d q : ℕ) → (d * 2 ^ q == 0) ≡ (d == 0)
shifted_zero zero q = ground arith
shifted_zero (suc d) q = ground (arith, one-le-pow q 2, step)
  where
    step : suc d * 2 ^ q ≡ d * 2 ^ q + 2 ^ q
    step = omega arith

pub has_bit-digit : (a q : ℕ) → has_bit a q ≡ not (digit q a == 0)
has_bit-digit a q =
    ap (λ (x : ℕ). not (x == 0)) (bit_and_bit q a) ∙ ap not (shifted_zero (digit q a) q)

-- Setting digit `p` sets that digit and no other.
pub has_bit-set :
    (a p q : ℕ) → has_bit (bit_or a (bit p)) q ≡ (if q == p then true else has_bit a q)
has_bit-set a p q =
    has_bit-digit (bit_or a (bit p)) q ∙ ap (λ (x : ℕ). not (x == 0)) (digit-set p q a) ∙ chosen
  where
    chosen : not ((if q == p then 1 else digit q a) == 0) ≡ (if q == p then true else has_bit a q)
    chosen = elim (Bool-cases (q == p)) [
      | inl e ↦ rw e refl
      | inr e ↦ rw e (sym (has_bit-digit a q))
    ]

pub zero-has_bit : (q : ℕ) → has_bit 0 q ≡ false
zero-has_bit q = simp bit_and-bitwise refl
