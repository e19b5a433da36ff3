-- ===== src/Smi/Access.antt =====
-- A whole register access: the frame that the chip receives, and the bus after it.
use wair_os.Base.{ℕ, ◌+◌, ◌*◌, ◌/◌, ◌%◌, ◌≡◌, List, [], ◌∷◌, some, ok, arith, bit_and, bit_and_mask}
use wair_os.Smi.{
  Wire, start, write_byte, read_byte, read_bits, read_reg_body, read_reg, write_reg_body, write_reg,
}
use wair_os.Smi.Chip.{Chip, after}
use wair_os.Smi.Frame.{
  Received, start-Received, stop-frame, write_byte-Received, read_bits-Received,
  write_bits-Received,
}

-- The number that bytes make, the first one highest.
abbrev pub big_endian : ℕ → List ℕ → ℕ
big_endian acc [] = acc
big_endian acc (b ∷ bs) = big_endian (acc * 256 + b) bs

module _ (c : Chip) (addr d : ℕ) (w : Wire) where
  write_body-Received :
      (write_reg_body addr d (start w)).0 ≡ ok tt
      → Received
          (after c (write_reg_body addr d (start w)).1.trace)
          (big_endian 0 (0xa8 ∷ addr % 256 ∷ addr / 256 % 256 ∷ d % 256 ∷ d / 256 % 256 ∷ []))
          40
  unfolding write_reg_body
  write_body-Received h = ground (
    arith,
    bit_and_mask 8 addr,
    bit_and_mask 8 d,
    start-Received c w,
    write_byte-Received c 0xa8 w₀ 0 0,
    write_byte-Received c (bit_and addr 0xff) w₁ 0xa8 8,
    write_byte-Received c (addr / 256) w₂ (0xa8 * 256 + addr % 256) 16,
    write_byte-Received c (bit_and d 0xff) w₃ ((0xa8 * 256 + addr % 256) * 256 + addr / 256 % 256)
        24,
    write_byte-Received c (d / 256) w₄
        (((0xa8 * 256 + addr % 256) * 256 + addr / 256 % 256) * 256 + d % 256) 32,
  )
    where
      w₀ : Wire
      w₀ = start w

      w₁ : Wire
      w₁ = (write_byte 0xa8 w₀).1

      w₂ : Wire
      w₂ = (write_byte (bit_and addr 0xff) w₁).1

      w₃ : Wire
      w₃ = (write_byte (addr / 256) w₂).1

      w₄ : Wire
      w₄ = (write_byte (bit_and d 0xff) w₃).1

  -- A write that returns 0 has put one frame on the bus, between a START and a STOP: the write
  -- command, the address and the data, low byte first, whatever the bus carried before and
  -- however often the chip let the driver wait for its acknowledge.
  pub write_reg-frame :
      (write_reg addr d w).0 ≡ ok tt
      → (after c (write_reg addr d w).1.trace).frame
        ≡ some
            (big_endian 0 (0xa8 ∷ addr % 256 ∷ addr / 256 % 256 ∷ d % 256 ∷ d / 256 % 256 ∷ []), 40)
  unfolding write_reg
  write_reg-frame h = stop-frame c _ _ _ (write_body-Received h)

module _ (c : Chip) (addr : ℕ) (w : Wire) where
  read_byte-Received :
      (ack : ℕ) (u : Wire) (s n : ℕ)
      → Received (after c u.trace) s n
      → Received (after c (read_byte ack u).1.trace) (s * 2 + ack % 2) (n + 1)
  unfolding read_byte
  read_byte-Received ack u s n r =
      write_bits-Received c ack 1 (read_bits 8 u).1 s n (read_bits-Received c 8 u s n r)

  read_body-Received :
      (v : ℕ)
      → (read_reg_body addr (start w)).0 ≡ ok v
      → Received
          (after c (read_reg_body addr (start w)).1.trace)
          (big_endian 0 (0xa9 ∷ addr % 256 ∷ addr / 256 % 256 ∷ []) * 4 + 1)
          26
  unfolding read_reg_body
  read_body-Received v h = ground (
    arith,
    bit_and_mask 8 addr,
    start-Received c w,
    write_byte-Received c 0xa9 w₀ 0 0,
    write_byte-Received c (bit_and addr 0xff) w₁ 0xa9 8,
    write_byte-Received c (addr / 256) w₂ (0xa9 * 256 + addr % 256) 16,
    read_byte-Received 0 w₃ ((0xa9 * 256 + addr % 256) * 256 + addr / 256 % 256) 24,
    read_byte-Received 1 w₄ (((0xa9 * 256 + addr % 256) * 256 + addr / 256 % 256) * 2) 25,
  )
    where
      w₀ : Wire
      w₀ = start w

      w₁ : Wire
      w₁ = (write_byte 0xa9 w₀).1

      w₂ : Wire
      w₂ = (write_byte (bit_and addr 0xff) w₁).1

      w₃ : Wire
      w₃ = (write_byte (addr / 256) w₂).1

      w₄ : Wire
      w₄ = (read_byte 0 w₃).1

  -- A read that returns 0 has put the read command and the address in one frame, and answered the
  -- two data bytes with an ACK (0) and then a NAK (1).
  pub read_reg-frame :
      (v : ℕ)
      → (read_reg addr w).0 ≡ ok v
      → (after c (read_reg addr w).1.trace).frame
        ≡ some (big_endian 0 (0xa9 ∷ addr % 256 ∷ addr / 256 % 256 ∷ []) * 4 + 1, 26)
  unfolding read_reg
  read_reg-frame v h = stop-frame c _ _ _ (read_body-Received v h)
