-- ===== src/Smi/Frame.antt =====
-- What the chip has received after each part of a register access.
use native.Mathlib.Nat.{pow-suc, one-le-pow, mod-mod}
use wair_os.Base.{
  ℕ, zero, suc, ◌+◌, ◌-◌, ◌*◌, ◌/◌, ◌%◌, ◌^◌, ◌≡◌, true, false, some, arith, bit_and, bit_and_bit,
  mod_top, bit, ap,
}
use wair_os.Smi.{
  sda, direction_input, emit, Wire, truth, start, stop, write_bits, read_loop, read_bits, ack_loop,
  wait_for_ack, write_byte,
}
use wair_os.Smi.Chip.{Chip, sda_to, sck_to, after}

-- Between two digits: SCK is low, the host drives SDA, and `n` digits have the value `s`.
pub record Received (c : Chip) (s n : ℕ) : Type 0 where
  pub low : c.sck_level ≡ 0
  pub host : c.driven ≡ true
  pub value : c.shift ≡ s
  pub number : c.count ≡ n

-- The same with the levels of SDA and SCK.
record Levels (c : Chip) (a k s n : ℕ) : Type 0 where
  at_sda : c.sda_level ≡ a
  at_sck : c.sck_level ≡ k
  host : c.driven ≡ true
  value : c.shift ≡ s
  number : c.count ≡ n

sda_low : {c : Chip} {s n : ℕ} (v : ℕ) → Received c s n → Levels (sda_to v c) v 0 s n
unfolding sda_to
sda_low v h = ground arith

sck_rise : {c : Chip} {a s n : ℕ} → Levels c a 0 s n → Levels (sck_to 1 c) a 1 (s * 2 + a) (n + 1)
unfolding sck_to
sck_rise h = ground arith

sck_fall : {c : Chip} {a k s n : ℕ} → Levels c a k s n → Levels (sck_to 0 c) a 0 s n
unfolding sck_to
sck_fall h = ground arith

begin : {c : Chip} {s n : ℕ} → Levels c 1 1 s n → Levels (sda_to 0 c) 0 1 0 0
unfolding sda_to
begin h = ground arith

finish : {c : Chip} {s n : ℕ} → Levels c 0 1 s n → (sda_to 1 c).frame ≡ some (s / 2, n - 1)
unfolding sda_to
finish h = ground arith

frame-sck_to : (v : ℕ) (c : Chip) → (sck_to v c).frame ≡ c.frame
unfolding sck_to
frame-sck_to v c = ground arith

Levels→Received : {c : Chip} {a s n : ℕ} → Levels c a 0 s n → Received c s n
Levels→Received h = ground arith

one_digit :
    {c : Chip} {s n : ℕ} (v : ℕ)
    → Received c s n
    → Received (sck_to 0 (sck_to 1 (sda_to v c))) (s * 2 + v) (n + 1)
one_digit v r = Levels→Received (sck_fall (sck_rise (sda_low v r)))

truth_of_bit : (k d : ℕ) → truth (bit_and d (bit k)) ≡ d / 2 ^ k % 2
truth_of_bit k d = ground (arith, bit_and_bit k d, one-le-pow k 2)

next_digit :
    (k d s : ℕ)
    → (s * 2 + truth (bit_and d (bit k))) * 2 ^ k + d % 2 ^ k ≡ s * 2 ^ suc k + d % 2 ^ suc k
next_digit k d s =
    rw (truth_of_bit, mod_top) (omega (arith, ap (λ (t : ℕ). s * t) (pow-suc 2 k), pow-suc 2 k))

-- `start` takes the bus over, whatever the chip saw before.
take_over :
    (c : Chip) → Levels (sda_to 1 (record (sck_to 0 c) { driven = true })) 1 0 c.shift c.count
unfolding sda_to sck_to
take_over c = ground arith

module _ (c : Chip) where
  pub start-Received : (w : Wire) → Received (after c (start w).trace) 0 0
  unfolding start after
  start-Received w = Levels→Received (
      sda_low 1 (
        Levels→Received (
          sck_fall (
            begin (
              sck_rise {s = c₀.shift * 2 + 1} {n = c₀.count + 1}
                (sck_fall (sck_rise (take_over c₀))))))))
    where
      c₀ : Chip
      c₀ = after c w.trace

  pub stop-frame :
      (w : Wire) (s n : ℕ)
      → Received (after c w.trace) s n
      → (after c (stop w).trace).frame ≡ some (s, n)
  unfolding stop after
  stop-frame w s n r = simp frame-sck_to (ground (arith, finish (sck_rise (sda_low 0 r))))

  pub write_bits-Received :
      (d len : ℕ) (w : Wire) (s n : ℕ)
      → Received (after c w.trace) s n
      → Received (after c (write_bits d len w).trace) (s * 2 ^ len + d % 2 ^ len) (n + len)
  unfolding write_bits after sck_to
  write_bits-Received d zero w s n r = ground arith
  write_bits-Received d (suc len) w s n r =
      rw (← next_digit len d s, count_on)
        (write_bits-Received d len _ _ _ (one_digit (truth (bit_and d (bit len))) r))
    where
      count_on : n + suc len ≡ n + 1 + len
      count_on = omega arith

-- While the host does not drive SDA, clock pulses leave the digits alone.
record Listening (c : Chip) (s n : ℕ) : Type 0 where
  low : c.sck_level ≡ 0
  released : c.driven ≡ false
  value : c.shift ≡ s
  number : c.count ≡ n

pulse : {c : Chip} {s n : ℕ} → Listening c s n → Listening (sck_to 0 (sck_to 1 c)) s n
unfolding sck_to
pulse h = ground arith

listen : {c : Chip} {s n : ℕ} → Received c s n → Listening (record c { driven = false }) s n
listen h = ground arith

drive_again :
    {c : Chip} {s n : ℕ} → Listening c s n → Received (sda_to 0 (record c { driven = true })) s n
unfolding sda_to
drive_again h = ground arith

module _ (c : Chip) where
  read_loop-Listening :
      (len got : ℕ) (w : Wire) (s n : ℕ)
      → Listening (after c w.trace) s n
      → Listening (after c (read_loop len got w).1.trace) s n
  unfolding read_loop
  read_loop-Listening zero got w s n h = h
  read_loop-Listening (suc len) got w s n h =
      read_loop-Listening len _ _ s n (unfold after in pulse h)

  -- Reading leaves what the chip has received as it was.
  pub read_bits-Received :
      (len : ℕ) (w : Wire) (s n : ℕ)
      → Received (after c w.trace) s n
      → Received (after c (read_bits len w).1.trace) s n
  unfolding read_bits after
  read_bits-Received len w s n r =
      drive_again (read_loop-Listening len 0 (emit (direction_input sda) w) s n (listen r))

  ack_loop-Received :
      (left : ℕ) (w : Wire) (s n : ℕ)
      → Received (after c w.trace) s n
      → Received (after c (ack_loop left w).1.trace) s n
  unfolding ack_loop
  ack_loop-Received zero w s n r = ground (arith, read_bits-Received 1 w s n r)
  ack_loop-Received (suc left) w s n r = ground (
    arith,
    read_bits-Received 1 w s n r,
    ack_loop-Received left (read_bits 1 w).1 s n (read_bits-Received 1 w s n r),
  )

  -- A byte adds eight digits, whether or not it is acknowledged.
  pub write_byte-Received :
      (d : ℕ) (w : Wire) (s n : ℕ)
      → Received (after c w.trace) s n
      → Received (after c (write_byte d w).1.trace) (s * 256 + d % 256) (n + 8)
  unfolding write_byte wait_for_ack
  write_byte-Received d w s n r = rw (mod-mod d 256) at (
      ack_loop-Received 5 (write_bits (d % 256) 8 w) (s * 256 + d % 256 % 256) (n + 8)
        (write_bits-Received c (d % 256) 8 w s n r))
