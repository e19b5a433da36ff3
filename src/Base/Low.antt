-- ===== src/Base/Low.antt =====
-- The low bits of `&` with a mask that has none, and of `|` with a word that has none.
use Prim.Native.Nat.{ℕ, zero, suc, ◌*◌, ◌/◌, ◌%◌, ◌^◌, bit_and, bit_or}
use mathlib.Core.Path.{◌≡◌, refl}
use native.Mathlib.Omega.{arith}
use wair_os.Base.Bits.{bit_and_low, bit_or_low, mod-pow-suc, double_shift}

pub bit_and-mod : (k t m : ℕ) → bit_and t (m * 2 ^ k) % 2 ^ k ≡ 0
bit_and-mod zero t m = omega arith
bit_and-mod (suc k) t m =
    let half : m * 2 ^ suc k / 2 ≡ m * 2 ^ k = omega (arith, double_shift m k) in
    let even : m * 2 ^ suc k % 2 ≡ 0 = omega (arith, double_shift m k) in
    let low = rw half at (bit_and_low t (m * 2 ^ suc k)) in
    let x = bit_and t (m * 2 ^ suc k) in
    let above : x / 2 ≡ bit_and (t / 2) (m * 2 ^ k) = omega (arith, low, even) in
    let last : x % 2 ≡ 0 = omega (arith, low, even) in
    rw (mod-pow-suc k x, above, last, bit_and-mod k (t / 2) m) refl

pub bit_or-mod : (k a b : ℕ) → a % 2 ^ k ≡ 0 → bit_or a b % 2 ^ k ≡ b % 2 ^ k
bit_or-mod zero a b h = omega arith
bit_or-mod (suc k) a b h =
    let low = bit_or_low a b in
    let split = mod-pow-suc k a in
    let x = bit_or a b in
    let above : x / 2 ≡ bit_or (a / 2) (b / 2) = omega (arith, low, split, h) in
    let last : x % 2 ≡ b % 2 = omega (arith, low, split, h) in
    rw
      (
        mod-pow-suc k x,
        mod-pow-suc k b,
        above,
        last,
        bit_or-mod k (a / 2) (b / 2) (omega (arith, split, h)),
      )
      refl
