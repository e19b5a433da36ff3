-- ===== src/Base/Nibble.antt =====
-- Replacing a four bit field of a word, as a read, mask, or, write of a register does it.
use Prim.Native.Nat.{ℕ, zero, suc, ◌+◌, ◌-◌, ◌*◌, ◌/◌, ◌%◌, ◌^◌, ◌≤◌, ◌<◌, bit_and, bit_or}
use mathlib.Core.Path.{◌≡◌}
use native.Mathlib.Nat.{pow-suc, one-le-pow, mod-eq_of_lt, add-zero}
use native.Mathlib.Numerals.{towards_suc}
use native.Mathlib.Omega.{arith}
use wair_os.Base.Bits.{
  ◌<<◌, bit_and_low, bit_or_low, bit_and_mask, bit_or_above, bit_or_below, double_shift,
  div-pow-suc, mod-pow-suc,
}

-- `(t & ~(0xf << k)) | (v << k)` on words of `w + 4 + k` bits.
abbrev pub put_nibble : ℕ → ℕ → ℕ → ℕ → ℕ
put_nibble w k t v = bit_or (bit_and t (2 ^ (w + 4 + k) - 1 - (15 << k))) (v << k)

bit_and-double : (a m : ℕ) → bit_and a (m * 2) ≡ bit_and (a / 2) m * 2
bit_and-double a m = ground (arith, bit_and_low a (m * 2))

nibble_mask : (w : ℕ) → 2 ^ (w + 4) - 1 - 15 ≡ (2 ^ w - 1) * 2 * 2 * 2 * 2
nibble_mask w = simp towards_suc (omega arith)

drop_nibble : (w t : ℕ) → t < 2 ^ (w + 4) → bit_and t (2 ^ (w + 4) - 1 - 15) ≡ t / 16 * 16
drop_nibble w t h =
    rw (nibble_mask w, bit_and-double, bit_and-double, bit_and-double, bit_and-double, bit_and_mask)
      (omega (arith, mod-eq_of_lt {n = t / 2 / 2 / 2 / 2} {m = 2 ^ w} fits))
  where
    wide : 2 ^ (w + 4) ≡ 2 ^ w * 16
    wide = simp towards_suc (omega arith)

    fits : t / 2 / 2 / 2 / 2 < 2 ^ w
    fits = omega (arith, wide)

nibble_room : (w k : ℕ) → 15 * 2 ^ k + 1 ≤ 2 ^ (w + 4 + k)
nibble_room w zero = omega (arith, nibble_wide, one-le-pow w 2)
  where
    nibble_wide : 2 ^ (w + 4 + 0) ≡ 2 ^ w * 16
    nibble_wide = simp towards_suc (omega arith)
nibble_room w (suc k) = ground (arith, nibble_room w k, pow-suc 2 k, pow-suc 2 (w + 4 + k))

put_nibble-suc : (w k t v : ℕ) → put_nibble w (suc k) t v ≡ put_nibble w k (t / 2) v * 2 + t % 2
put_nibble-suc w k t v = ground (
  arith,
  bit_or_low (bit_and t (2 ^ (w + 4 + suc k) - 1 - (15 << suc k))) (v << suc k),
  bit_and_low t (2 ^ (w + 4 + suc k) - 1 - (15 << suc k)),
  double_shift 15 k,
  double_shift v k,
  pow-suc 2 (w + 4 + k),
  one-le-pow (w + 4 + k) 2,
  nibble_room w k,
)

-- The field at digit `k` is replaced, and the digits below it and above it stay.
pub record Replaced (k t v r : ℕ) : Type 0 where
  pub field_new : r / 2 ^ k % 16 ≡ v
  pub below_same : r % 2 ^ k ≡ t % 2 ^ k
  pub above_same : r / 2 ^ k / 16 ≡ t / 2 ^ k / 16

Replaced-suc : (k t v r s : ℕ) → Replaced k (t / 2) v r → s ≡ r * 2 + t % 2 → Replaced (suc k) t v s
Replaced-suc k t v r s h e = record {
  field_new = rw (div-pow-suc, half) h.field_new;
  below_same = rw (mod-pow-suc k s, mod-pow-suc k t, half) (omega (arith, h.below_same));
  above_same = rw (div-pow-suc k s, half, div-pow-suc k t) h.above_same;
}
  where
    half : s / 2 ≡ r
    half = omega arith

pub put_nibble-Replaced :
    (w k t v : ℕ) → t < 2 ^ (w + 4 + k) → v < 16 → Replaced k t v (put_nibble w k t v)
put_nibble-Replaced w zero t v ht hv = ground (
  arith,
  drop_nibble w t (rw add-zero at ht),
  bit_or_above 4 (t / 16) v,
  bit_or_below 4 (t / 16) v,
  add-zero (w + 4),
)
put_nibble-Replaced w (suc k) t v ht hv =
    Replaced-suc k t v (put_nibble w k (t / 2) v) _
      (put_nibble-Replaced w k (t / 2) v (ground (arith, pow-suc 2 (w + 4 + k))) hv)
      (put_nibble-suc w k t v)
