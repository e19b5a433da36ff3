-- ===== src/Smi/Ack.antt =====
-- The samples that the driver takes: how long it waits for an acknowledge, and what it reads.
use native.Mathlib.Nat.{pow-suc, one-le-pow, zero-mul}
use mathlib.Core.Path.{subst₂}
use wair_os.Base.{
  sym, ℕ, zero, suc, ◌+◌, ◌*◌, ◌^◌, ◌<◌, ◌≤◌, ◌≡◌, ◌≢◌, refl, Outcome, ok, err, eio, arith, bit_and,
  bit, ◌<<◌, ◌∙◌, bit_or, bit_or_below, ap,
}
use wair_os.Smi.{
  set_value, direction_input, emit, sda, sck, Wire, truth, write_bits, read_loop, read_bits,
  ack_loop, wait_for_ack,
}

-- The number that `n` samples make from the i-th on, the first one highest.
unfoldable pub sampled : (ℕ → ℕ) → ℕ → ℕ → ℕ
sampled levels i zero = 0
sampled levels i (suc n) = truth (levels i) * 2 ^ n + sampled levels (i + 1) n

truth_le : (x : ℕ) → truth x ≤ 1
truth_le x = ground arith

-- One round of the loops of `write_bits` and `read_loop`.
abbrev digit_out : ℕ → ℕ → Wire → Wire
digit_out d len w =
    emit (set_value sck 0)
      (emit (set_value sck 1) (emit (set_value sda (truth (bit_and d (bit len)))) w))

abbrev digit_in : Wire → Wire
digit_in w =
    let v = emit (set_value sck 1) w in emit (set_value sck 0) (record v { taken = v.taken + 1 })

-- `w'` has taken `n` samples more, of the same line.
pub record Sampled (w w' : Wire) (n : ℕ) : Type 0 where
  pub same_levels : w'.levels ≡ w.levels
  pub more_taken : w'.taken ≡ w.taken + n

pub Sampled-trans : {w u v : Wire} {n m : ℕ} → Sampled w u n → Sampled u v m → Sampled w v (n + m)
Sampled-trans h k = record {
  same_levels = k.same_levels ∙ h.same_levels;
  more_taken = omega (arith, h.more_taken, k.more_taken);
}

pub write_bits-Sampled : (d len : ℕ) (w : Wire) → Sampled w (write_bits d len w) 0
unfolding write_bits
write_bits-Sampled d zero w = record { same_levels = refl; more_taken = omega arith }
write_bits-Sampled d (suc len) w =
    let rest = write_bits-Sampled d len (digit_out d len w) in
    record { same_levels = rest.same_levels; more_taken = rest.more_taken }

read_loop-Sampled : (len got : ℕ) (w : Wire) → Sampled w (read_loop len got w).1 len
unfolding read_loop
read_loop-Sampled zero got w = record { same_levels = refl; more_taken = omega arith }
read_loop-Sampled (suc len) got w =
    let rest = read_loop-Sampled len (bit_or got (truth (w.levels w.taken) << len)) (digit_in w) in
    record { same_levels = rest.same_levels; more_taken = omega (arith, rest.more_taken) }

-- The digit that `read_loop` adds, which is 0 or 1.
digit_fits : (k u : ℕ) → u ≤ 1 → u * 2 ^ k < 2 ^ suc k
digit_fits k zero h = omega (arith, pow-suc 2 k, one-le-pow k 2)
digit_fits k (suc zero) h = omega (arith, pow-suc 2 k, one-le-pow k 2)
digit_fits k (suc (suc u)) h = absurd (omega arith)

pub sampled-lt : (levels : ℕ → ℕ) (i n : ℕ) → sampled levels i n < 2 ^ n
unfolding sampled
sampled-lt levels i zero = omega arith
sampled-lt levels i (suc n) =
    grind (arith, sampled-lt levels (i + 1) n, pow-suc 2 n, truth_le (levels i))

add_digit : (k g u : ℕ) → u ≤ 1 → bit_or (g * 2 ^ suc k) (u << k) ≡ (g * 2 + u) * 2 ^ k
add_digit k g u h = omega (
  arith,
  bit_or_below (suc k) g (u * 2 ^ k) (digit_fits k u h),
  ap (λ (t : ℕ). g * t) (pow-suc 2 k),
)

read_loop-value :
    (len g : ℕ) (w : Wire)
    → (read_loop len (g * 2 ^ len) w).0 ≡ g * 2 ^ len + sampled w.levels w.taken len
unfolding read_loop sampled
read_loop-value zero g w = omega arith
read_loop-value (suc len) g w =
    ap (λ (got : ℕ). (read_loop len got (digit_in w)).0) (add_digit len g u (ground arith))
    ∙ read_loop-value len (g * 2 + u) (digit_in w)
    ∙ omega (arith, ap (λ (t : ℕ). g * t) (pow-suc 2 len))
  where
    u : ℕ
    u = truth (w.levels w.taken)

-- `read_bits` returns what it samples.
pub read_bits_lem :
    (len : ℕ) (w : Wire)
    → ((read_bits len w).0 ≡ sampled w.levels w.taken len) × Sampled w (read_bits len w).1 len
unfolding read_bits
read_bits_lem len w = (
  (rw (zero-mul (2 ^ len)) at (read_loop-value len 0 (emit (direction_input sda) w))) ∙ omega arith,
  record { same_levels = loop.same_levels; more_taken = loop.more_taken },
)
  where
    loop :
        Sampled
          (emit (direction_input sda) w)
          (read_loop len 0 (emit (direction_input sda) w)).1
          len
    loop = read_loop-Sampled len 0 (emit (direction_input sda) w)

-- No digit is 0 before the k-th sample from the i-th on, and the k-th is.
abbrev pub FirstZero : (ℕ → ℕ) → ℕ → ℕ → Type 0
FirstZero levels i zero = levels i ≡ 0
FirstZero levels i (suc k) = (levels i ≢ 0) × FirstZero levels (i + 1) k

abbrev pub NoZero : (ℕ → ℕ) → ℕ → ℕ → Type 0
NoZero levels i zero = Unit {0}
NoZero levels i (suc n) = (levels i ≢ 0) × NoZero levels (i + 1) n

pub along :
    (P : (ℕ → ℕ) → ℕ → Type 0) {w w' : Wire} {n : ℕ}
    → Sampled w w' n
    → P w.levels (w.taken + n)
    → P w'.levels w'.taken
along P h = subst₂ P (sym h.same_levels) (sym h.more_taken)

ack_one : (w : Wire) → (read_bits 1 w).0 ≡ truth (w.levels w.taken)
unfolding sampled
ack_one w = omega (arith, (read_bits_lem 1 w).0)

ack_loop-acked :
    (left : ℕ) (w : Wire) → w.levels w.taken ≡ 0 → ack_loop left w ≡ (ok tt, (read_bits 1 w).1)
unfolding ack_loop
ack_loop-acked zero w z = ground (arith, ack_one w)
ack_loop-acked (suc left) w z = ground (arith, ack_one w)

ack_loop-again :
    (left : ℕ) (w : Wire)
    → w.levels w.taken ≢ 0
    → ack_loop (suc left) w ≡ ack_loop left (read_bits 1 w).1
unfolding ack_loop
ack_loop-again left w z = ground (arith, ack_one w)

ack_loop-last : (w : Wire) → w.levels w.taken ≢ 0 → ack_loop 0 w ≡ (err eio, (read_bits 1 w).1)
unfolding ack_loop
ack_loop-last w z = ground (arith, ack_one w)

-- The outcome of `r`, and how many samples it took from `w` on.
pub record Ends {A : Type 0} (w : Wire) (o : Outcome A) (n : ℕ) (r : Outcome A × Wire)
    : Type 0 where
  pub outcome : r.0 ≡ o
  pub samples : Sampled w r.1 n

ack_loop-ok :
    (left k : ℕ) (w : Wire)
    → k ≤ left
    → FirstZero w.levels w.taken k
    → Ends w (ok tt) (k + 1) (ack_loop left w)
ack_loop-ok left zero w h z =
    rw (ack_loop-acked left w z) (record { outcome = refl; samples = (read_bits_lem 1 w).1 })
ack_loop-ok zero (suc k) w h z = absurd (omega arith)
ack_loop-ok (suc left) (suc k) w h z =
    let one = (read_bits_lem 1 w).1 in
    let rest =
      ack_loop-ok left k (read_bits 1 w).1 (omega arith) (along (λ l i. FirstZero l i k) one z.1) in
    rw (ack_loop-again left w z.0)
      (record { outcome = rest.outcome; samples = rw one_more at (Sampled-trans one rest.samples) })
  where
    one_more : 1 + (k + 1) ≡ suc k + 1
    one_more = omega arith

ack_loop-eio :
    (left : ℕ) (w : Wire)
    → NoZero w.levels w.taken (suc left)
    → Ends w (err eio) (suc left) (ack_loop left w)
ack_loop-eio zero w z =
    rw (ack_loop-last w z.0) (record { outcome = refl; samples = (read_bits_lem 1 w).1 })
ack_loop-eio (suc left) w z =
    let one = (read_bits_lem 1 w).1 in
    let rest = ack_loop-eio left (read_bits 1 w).1 (along (λ l i. NoZero l i (suc left)) one z.1) in
    rw (ack_loop-again left w z.0)
      (record { outcome = rest.outcome; samples = rw one_more at (Sampled-trans one rest.samples) })
  where
    one_more : 1 + suc left ≡ suc (suc left)
    one_more = omega arith

-- When the first sample at level 0 is the `k`-th from here, counted from 0, and `k` is at most 5,
-- `rtl8366_smi_wait_for_ack` returns 0 having taken `k + 1` samples.
pub wait_for_ack-acked :
    (w : Wire) (k : ℕ)
    → k ≤ 5
    → FirstZero w.levels w.taken k
    → Ends w (ok tt) (k + 1) (wait_for_ack w)
unfolding wait_for_ack
wait_for_ack-acked w k h z = ack_loop-ok 5 k w h z

-- When none of the next six samples is at level 0, `rtl8366_smi_wait_for_ack` returns -EIO having
-- taken these six.
pub wait_for_ack-eio : (w : Wire) → NoZero w.levels w.taken 6 → Ends w (err eio) 6 (wait_for_ack w)
unfolding wait_for_ack
wait_for_ack-eio w z = ack_loop-eio 5 w z
