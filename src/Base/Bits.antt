-- ===== src/Base/Bits.antt =====
-- C's `&`, `|`, `<<`, `>>` on unsigned words as arithmetic. `~m` on 32 bits is `2 ^ 32 - 1 - m`.
use Prim.Native.Nat.{
  ℕ, zero, suc, ◌+◌, ◌-◌, ◌*◌, ◌/◌, ◌%◌, ◌^◌, ◌≤◌, ◌<◌, min, max, bit_and, bit_or, digits, bitwise,
  bit_and-bitwise, bit_or-bitwise,
}
use mathlib.Core.Path.{◌≡◌, refl, ap}
use native.Mathlib.Nat.{pow-suc, pow-succ', one-le-pow, le_refl, div-div-eq-div-mul, div-add-mod}
use native.Mathlib.Omega.{arith}

infixl 75 ◌<<◌ ◌>>>◌
abbrev pub ◌<<◌ : ℕ → ℕ → ℕ
x << k = x * 2 ^ k

abbrev pub ◌>>>◌ : ℕ → ℕ → ℕ
x >>> k = x / 2 ^ k

-- `BIT(k)`
abbrev pub bit : ℕ → ℕ
bit k = 2 ^ k

-- The native operations mean a recursion on binary digits with fuel, which the next lemmas drop.
module _ (z : ℕ → ℕ) (f : ℕ → ℕ → ℕ) where
  enough_fuel : (n m a b : ℕ) → a ≤ n → a ≤ m → digits z f n a b ≡ digits z f m a b
  enough_fuel zero zero a b p q = refl
  enough_fuel zero (suc m) zero b p q = refl
  enough_fuel zero (suc m) (suc a) b p q = absurd (omega arith)
  enough_fuel (suc n) zero zero b p q = refl
  enough_fuel (suc n) zero (suc a) b p q = absurd (omega arith)
  enough_fuel (suc n) (suc m) zero b p q = refl
  enough_fuel (suc n) (suc m) (suc a) b p q =
      rw (enough_fuel n m (suc a / 2) (b / 2) (omega arith) (omega arith))

  bitwise_low :
      (a b : ℕ)
      → bitwise z f (suc a) b ≡ bitwise z f (suc a / 2) (b / 2) * 2 + f (suc a % 2) (b % 2)
  bitwise_low a b =
      omega (arith, enough_fuel a (suc a / 2) (suc a / 2) (b / 2) (omega arith) (le_refl _))

pub bit_and_low : (a b : ℕ) → bit_and a b ≡ bit_and (a / 2) (b / 2) * 2 + min (a % 2) (b % 2)
bit_and_low zero b = simp bit_and-bitwise (omega arith)
bit_and_low (suc a) b = simp bit_and-bitwise (bitwise_low (λ y. 0) min a b)

pub bit_or_low : (a b : ℕ) → bit_or a b ≡ bit_or (a / 2) (b / 2) * 2 + max (a % 2) (b % 2)
bit_or_low zero b = simp bit_or-bitwise (omega arith)
bit_or_low (suc a) b = simp bit_or-bitwise (bitwise_low (λ y. y) max a b)

-- By a bound on the first argument, which halves at each digit.
and_zero_below : (n a : ℕ) → a ≤ n → bit_and a 0 ≡ 0
and_zero_below n zero h = refl
and_zero_below zero (suc a) h = absurd (omega arith)
and_zero_below (suc n) (suc a) h =
    omega (arith, bit_and_low (suc a) 0, and_zero_below n (suc a / 2) (omega arith))

pub bit_and-zero : (a : ℕ) → bit_and a 0 ≡ 0
bit_and-zero a = and_zero_below a a (omega arith)

or_zero_below : (n a : ℕ) → a ≤ n → bit_or a 0 ≡ a
or_zero_below n zero h = refl
or_zero_below zero (suc a) h = absurd (omega arith)
or_zero_below (suc n) (suc a) h =
    omega (arith, bit_or_low (suc a) 0, or_zero_below n (suc a / 2) (omega arith))

pub bit_or-zero : (a : ℕ) → bit_or a 0 ≡ a
bit_or-zero a = or_zero_below a a (omega arith)

pub zero-bit_or : (a : ℕ) → bit_or 0 a ≡ a
zero-bit_or a = bit_or-bitwise 0 a

pub double_shift : (q k : ℕ) → q * 2 ^ suc k ≡ 2 * (q * 2 ^ k)
double_shift q k = omega (arith, ap (λ (t : ℕ). q * t) (pow-suc 2 k))

-- `r | (q << k)` is a sum when `r` fits `k` bits, and so is `(q << k) | r`.
pub bit_or_above : (k q r : ℕ) → r < 2 ^ k → bit_or r (q << k) ≡ q * 2 ^ k + r
bit_or_above zero q r fits = ground (arith, zero-bit_or q)
bit_or_above (suc k) q r fits =
    ground (
      arith,
      bit_or_low r (q * 2 ^ suc k),
      double_shift q k,
      bit_or_above k q (r / 2) (omega arith),
    )

pub bit_or_below : (k q r : ℕ) → r < 2 ^ k → bit_or (q << k) r ≡ q * 2 ^ k + r
bit_or_below zero q r fits = ground (arith, bit_or-zero q)
bit_or_below (suc k) q r fits =
    ground (
      arith,
      bit_or_low (q * 2 ^ suc k) r,
      double_shift q k,
      bit_or_below k q (r / 2) (omega arith),
    )

-- Dropping the lowest digit, in the quotient and in the remainder.
pub div-pow-suc : (k a : ℕ) → a / 2 ^ suc k ≡ a / 2 / 2 ^ k
div-pow-suc k a = rw (pow-succ' 2 k, div-div-eq-div-mul)

pub mod-pow-suc : (k a : ℕ) → a % 2 ^ suc k ≡ a / 2 % 2 ^ k * 2 + a % 2
mod-pow-suc k a = omega (
  arith,
  div-pow-suc k a,
  pow-suc 2 k,
  div-add-mod a (2 ^ suc k),
  div-add-mod (a / 2) (2 ^ k),
  ap (λ (t : ℕ). t * (a / 2 / 2 ^ k)) (pow-suc 2 k),
  ap (λ (t : ℕ). 2 ^ suc k * t) (div-pow-suc k a),
)

-- `a & (2 ^ k - 1)` is the remainder by `2 ^ k`.
pub bit_and_mask : (k a : ℕ) → bit_and a (2 ^ k - 1) ≡ a % 2 ^ k
bit_and_mask zero a = ground (arith, bit_and-zero a)
bit_and_mask (suc k) a = ground (
  arith,
  bit_and_low a (2 ^ suc k - 1),
  pow-suc 2 k,
  one-le-pow k 2,
  mod-pow-suc k a,
  bit_and_mask k (a / 2),
)

-- `a & (1 << k)` keeps digit `k` of `a`.
pub bit_and_bit : (k a : ℕ) → bit_and a (2 ^ k) ≡ (a / 2 ^ k % 2) * 2 ^ k
bit_and_bit zero a = omega (arith, bit_and_low a 1, bit_and-zero (a / 2))
bit_and_bit (suc k) a = ground (
  arith,
  bit_and_low a (2 ^ suc k),
  pow-suc 2 k,
  div-pow-suc k a,
  bit_and_bit k (a / 2),
  double_shift (a / 2 / 2 ^ k % 2) k,
)

-- The digits below `k + 1`: digit `k` and those below it.
pub mod_top : (k a : ℕ) → a % 2 ^ suc k ≡ (a / 2 ^ k % 2) * 2 ^ k + a % 2 ^ k
mod_top k a = omega (
  arith,
  div-add-mod a (2 ^ suc k),
  div-add-mod a (2 ^ k),
  pow-suc 2 k,
  two_steps,
  ap (λ (t : ℕ). t * (a / 2 ^ k / 2)) (pow-suc 2 k),
  ap (λ (t : ℕ). 2 ^ suc k * t) two_steps,
  ap (λ (t : ℕ). 2 ^ k * t) halves,
)
  where
    two_steps : a / 2 ^ suc k ≡ a / 2 ^ k / 2
    two_steps = rw (pow-suc 2 k, div-div-eq-div-mul)

    halves : a / 2 ^ k ≡ 2 * (a / 2 ^ k / 2) + a / 2 ^ k % 2
    halves = omega arith

pub pow_mono : (k n : ℕ) → k ≤ n → 2 ^ k ≤ 2 ^ n
pow_mono zero n h = one-le-pow n 2 (omega arith)
pow_mono (suc k) zero h = absurd (omega arith)
pow_mono (suc k) (suc n) h = omega (arith, pow-suc 2 k, pow-suc 2 n, pow_mono k n (omega arith))

pub bit_or-lt : (k a b : ℕ) → a < 2 ^ k → b < 2 ^ k → bit_or a b < 2 ^ k
bit_or-lt zero zero zero p q = refl_lt
  where
    refl_lt : bit_or 0 0 < 1
    refl_lt = omega arith
bit_or-lt zero zero (suc b) p q = absurd (omega arith)
bit_or-lt zero (suc a) b p q = absurd (omega arith)
bit_or-lt (suc k) a b p q = omega (
  arith,
  bit_or_low a b,
  pow-suc 2 k,
  bit_or-lt k (a / 2) (b / 2) (omega (arith, pow-suc 2 k)) (omega (arith, pow-suc 2 k)),
)
