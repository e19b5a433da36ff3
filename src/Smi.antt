-- ===== src/Smi.antt =====
-- The two wire bus of rtl8366_smi.c (target/linux/generic-2.6/files/drivers/net/phy), lines 25 to
-- 291: the functions that toggle the GPIO pins, and the register accesses made of them.
-- The calls of the GPIO library are recorded in order; the level that the chip puts on SDA at
-- each `gpio_get_value` is an arbitrary function of the number of samples taken before.
-- The delays and the spin lock, which is held round each register access, are left out.
pub mod Chip
pub mod Frame
pub mod Access
pub mod Ack
pub mod Reads
pub mod Nack
use wair_os.Base.{
  ℕ, zero, suc, ◌+◌, ◌-◌, ◌*◌, ◌%◌, ◌^◌, bit_and, bit_or, List, ◌∷◌, ◌==◌, if◌then◌else◌, bit, ◌<<◌,
  ◌>>>◌, true, false, Outcome, ok, err, eio, Op, ◌>>=◌, ◌>>◌, pure,
}

-- `smi->gpio_sda` and `smi->gpio_sck`
pub data Pin : Type 0 where
  sda sck : Pin

-- `gpio_set_value`, `gpio_direction_output` and `gpio_direction_input`
pub data Event : Type 0 where
  set_value : Pin → ℕ → Event
  direction_output : Pin → ℕ → Event
  direction_input : Pin → Event

pub record Wire : Type 0 where
  -- newest first
  pub trace : List Event
  -- what `gpio_get_value` of SDA returns the n-th time
  pub levels : ℕ → ℕ
  pub taken : ℕ

abbrev pub emit : Event → Wire → Wire
emit e w = record w { trace = e ∷ w.trace }

-- `!!x`
abbrev pub truth : ℕ → ℕ
truth x = if x == 0 then 0 else 1

unfoldable pub start : Wire → Wire
start w =
    let w = emit (direction_output sck 0) w in
    let w = emit (direction_output sda 1) w in
    let w = emit (set_value sck 1) w in
    let w = emit (set_value sck 0) w in
    let w = emit (set_value sck 1) w in
    let w = emit (set_value sda 0) w in let w = emit (set_value sck 0) w in emit (set_value sda 1) w

unfoldable pub stop : Wire → Wire
stop w =
    let w = emit (set_value sda 0) w in
    let w = emit (set_value sck 1) w in
    let w = emit (set_value sda 1) w in
    let w = emit (set_value sck 1) w in
    let w = emit (set_value sck 0) w in
    let w = emit (set_value sck 1) w in
    let w = emit (set_value sck 0) w in
    let w = emit (set_value sck 1) w in
    let w = emit (direction_input sda) w in emit (direction_input sck) w

-- The loop runs `len` times, the most significant digit first.
unfoldable pub write_bits : ℕ → ℕ → Wire → Wire
write_bits data_word zero w = w
write_bits data_word (suc len) w =
    let w = emit (set_value sda (truth (bit_and data_word (bit len)))) w in
    let w = emit (set_value sck 1) w in
    let w = emit (set_value sck 0) w in write_bits data_word len w

-- The loop of `rtl8366_smi_read_bits`, with `*data` so far.
unfoldable pub read_loop : ℕ → ℕ → Wire → ℕ × Wire
read_loop zero got w = (got, w)
read_loop (suc len) got w =
    let w = emit (set_value sck 1) w in
    let u = truth (w.levels w.taken) in
    let w = record w { taken = w.taken + 1 } in
    let w = emit (set_value sck 0) w in read_loop len (bit_or got (u << len)) w

unfoldable pub read_bits : ℕ → Wire → ℕ × Wire
unfolding read_loop
read_bits len w =
    let (got, w') = read_loop len 0 (emit (direction_input sda) w) in
    (got, emit (direction_output sda 0) w')

abbrev pub ack_retry_count : ℕ
ack_retry_count = 5

-- One round of the loop; `left` is RTL8366_SMI_ACK_RETRY_COUNT - retry_cnt.
unfoldable pub ack_loop : ℕ → Op Wire (Unit {0})
ack_loop zero w = let (ack, w') = read_bits 1 w in if ack == 0 then (ok tt, w') else (err eio, w')
ack_loop (suc left) w =
    let (ack, w') = read_bits 1 w in
    elim (ack == 0) [ true ↦ (ok tt, w') | false ↦ ack_loop left w' ]

unfoldable pub wait_for_ack : Op Wire (Unit {0})
wait_for_ack = ack_loop ack_retry_count

-- The argument is a `u8`.
unfoldable pub write_byte : ℕ → Op Wire (Unit {0})
write_byte data_word w = wait_for_ack (write_bits (data_word % 2 ^ 8) 8 w)

-- `rtl8366_smi_read_byte0` and `rtl8366_smi_read_byte1` send 0 and 1 as the ACK.
unfoldable pub read_byte : ℕ → Op Wire ℕ
read_byte ack w = let (t, w') = read_bits 8 w in (ok (bit_and t 0xff), write_bits ack 1 w')

-- Every path of a register access goes through the label `out`.
abbrev pub framed : {A : Type 0} → Op Wire A → Op Wire A
framed body w = let (r, w') = body (start w) in (r, stop w')

unfoldable pub read_reg_body : ℕ → Op Wire ℕ
read_reg_body addr = do
  write_byte (bit_or (bit_or (0x0a << 4) (0x04 << 1)) 0x01)
  write_byte (bit_and addr 0xff)
  write_byte (addr >>> 8)
  lo ← read_byte 0x00
  hi ← read_byte 0x01
  pure (bit_or lo (hi << 8))

unfoldable pub read_reg : ℕ → Op Wire ℕ
read_reg addr = framed (read_reg_body addr)

unfoldable pub write_reg_body : ℕ → ℕ → Op Wire (Unit {0})
write_reg_body addr data_word = do
  write_byte (bit_or (bit_or (0x0a << 4) (0x04 << 1)) 0x00)
  write_byte (bit_and addr 0xff)
  write_byte (addr >>> 8)
  write_byte (bit_and data_word 0xff)
  write_byte (data_word >>> 8)

unfoldable pub write_reg : ℕ → ℕ → Op Wire (Unit {0})
write_reg addr data_word = framed (write_reg_body addr data_word)
