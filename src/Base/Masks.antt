-- ===== src/Base/Masks.antt =====
-- The digits of `&` and `|`, and of a word with one digit cleared.
use Prim.Native.Nat.{ℕ, zero, suc, ◌+◌, ◌-◌, ◌*◌, ◌/◌, ◌%◌, ◌^◌, ◌<◌, min, max, bit_and, bit_or}
use mathlib.Core.Path.{◌≡◌, refl, ap, sym, ◌∙◌}
use mathlib.Core.Bool.{Bool, true, false, not, ◌&&◌, ◌||◌}
use native.Mathlib.Nat.{div-eq_of_lt}
use native.Mathlib.Omega.{arith}
use wair_os.Base.Tests.{◌==◌}
use wair_os.Base.Bits.{bit, bit_and_low, bit_or_low, bit_and_mask, double_shift, ◌<<◌}
use wair_os.Base.Digits.{digit, digit-suc, has_bit, has_bit-digit}

half_and : (a b : ℕ) → bit_and a b / 2 ≡ bit_and (a / 2) (b / 2)
half_and a b = omega (arith, bit_and_low a b)

half_or : (a b : ℕ) → bit_or a b / 2 ≡ bit_or (a / 2) (b / 2)
half_or a b = omega (arith, bit_or_low a b)

digit-and : (q a b : ℕ) → digit q (bit_and a b) ≡ min (digit q a) (digit q b)
digit-and zero a b = omega (arith, bit_and_low a b)
digit-and (suc q) a b =
    digit-suc q (bit_and a b)
    ∙ ap (digit q) (half_and a b)
    ∙ digit-and q (a / 2) (b / 2)
    ∙ rw (digit-suc q a, digit-suc q b) refl

digit-or : (q a b : ℕ) → digit q (bit_or a b) ≡ max (digit q a) (digit q b)
digit-or zero a b = omega (arith, bit_or_low a b)
digit-or (suc q) a b =
    digit-suc q (bit_or a b)
    ∙ ap (digit q) (half_or a b)
    ∙ digit-or q (a / 2) (b / 2)
    ∙ rw (digit-suc q a, digit-suc q b) refl

both_set : (x y : ℕ) → not (min x y == 0) ≡ not (x == 0) && not (y == 0)
both_set x y = ground arith

one_set : (x y : ℕ) → not (max x y == 0) ≡ not (x == 0) || not (y == 0)
one_set x y = ground arith

pub has_bit-and : (a b q : ℕ) → has_bit (bit_and a b) q ≡ has_bit a q && has_bit b q
has_bit-and a b q =
    has_bit-digit (bit_and a b) q
    ∙ ap (λ (x : ℕ). not (x == 0)) (digit-and q a b)
    ∙ both_set (digit q a) (digit q b)
    ∙ rw (has_bit-digit a q, has_bit-digit b q) refl

pub has_bit-or : (a b q : ℕ) → has_bit (bit_or a b) q ≡ has_bit a q || has_bit b q
has_bit-or a b q =
    has_bit-digit (bit_or a b) q
    ∙ ap (λ (x : ℕ). not (x == 0)) (digit-or q a b)
    ∙ one_set (digit q a) (digit q b)
    ∙ rw (has_bit-digit a q, has_bit-digit b q) refl

-- Over a small range, every value is checked by evaluation.
unfoldable pub all_below : ℕ → (ℕ → Bool) → Bool
all_below zero p = true
all_below (suc n) p = p n && all_below n p

pub all_below_sound : (n : ℕ) (p : ℕ → Bool) (x : ℕ) → all_below n p ≡ true → x < n → p x ≡ true
unfolding all_below
all_below_sound zero p x h lt = absurd (omega (arith, lt))
all_below_sound (suc n) p x h lt = ground (arith, all_below_sound n p x)

unfoldable pub agree : Bool → Bool → Bool
agree true b = b
agree false b = not b

pub agree_sound : (a b : Bool) → agree a b ≡ true → a ≡ b
unfolding agree
agree_sound true true h = refl
agree_sound true false h = cc
agree_sound false true h = cc
agree_sound false false h = refl

without_fits : ℕ → ℕ → Bool
without_fits p q = agree (has_bit (2 ^ 32 - 1 - bit p) q) (not (q == p))

without_table : all_below 8 (λ p. all_below 8 (without_fits p)) ≡ true
unfolding all_below without_fits agree
without_table = refl

-- The digits of `~(1 << p)` and of `0xff`.
pub has_bit-without : (p q : ℕ) → p < 8 → q < 8 → has_bit (2 ^ 32 - 1 - bit p) q ≡ not (q == p)
unfolding without_fits
has_bit-without p q hp hq =
    let row = all_below_sound 8 (λ p. all_below 8 (without_fits p)) p without_table hp in
    agree_sound _ _ (all_below_sound 8 (without_fits p) q row hq)

byte_table : all_below 8 (has_bit 255) ≡ true
unfolding all_below
byte_table = refl

word_table : all_below 32 (has_bit (2 ^ 32 - 1)) ≡ true
unfolding all_below
word_table = refl

and_true : (b : Bool) → b && true ≡ b
and_true true = refl
and_true false = refl

pub has_bit-word : (x q : ℕ) → q < 32 → has_bit (x % 2 ^ 32) q ≡ has_bit x q
has_bit-word x q hq =
    let full = all_below_sound 32 (has_bit (2 ^ 32 - 1)) q word_table hq in
    rw (sym (bit_and_mask 32 x)) (has_bit-and x (2 ^ 32 - 1) q ∙ rw full (and_true (has_bit x q)))

pub has_bit-byte : (x q : ℕ) → q < 8 → has_bit (x % 256) q ≡ has_bit x q
has_bit-byte x q hq =
    let full = all_below_sound 8 (has_bit 255) q byte_table hq in
    rw (sym (bit_and_mask 8 x)) (has_bit-and x 255 q ∙ rw full (and_true (has_bit x q)))

digit-shift : (n q x : ℕ) → digit (n + q) (x * 2 ^ n) ≡ digit q x
digit-shift zero q x = ap (λ (k : ℕ). digit k (x * 1)) (omega arith) ∙ ap (digit q) (omega arith)
digit-shift (suc n) q x =
    ap (λ (k : ℕ). digit k (x * 2 ^ suc n)) (omega arith)
    ∙ digit-suc (n + q) (x * 2 ^ suc n)
    ∙ ap (digit (n + q)) (omega (arith, double_shift x n))
    ∙ digit-shift n q x

pub has_bit-shift : (n q x : ℕ) → has_bit (x << n) (n + q) ≡ has_bit x q
has_bit-shift n q x =
    has_bit-digit (x << n) (n + q)
    ∙ ap (λ (d : ℕ). not (d == 0)) (digit-shift n q x)
    ∙ sym (has_bit-digit x q)

-- A word has no digit above its length.
pub has_bit-above : (x q : ℕ) → x < 2 ^ q → has_bit x q ≡ false
has_bit-above x q lt = has_bit-digit x q ∙ ap (λ (d : ℕ). not (d % 2 == 0)) (div-eq_of_lt lt)
