-- ===== src/Smi/Nack.antt =====
-- Register accesses that the chip does not acknowledge.
use native.Mathlib.Nat.{add-zero}
use wair_os.Base.{
  length, ℕ, ◌+◌, ◌/◌, ◌≤◌, ◌^◌, ◌%◌, List, [], ◌∷◌, err, eio, Op, ◌>>=◌, arith, bit_and,
}
use wair_os.Smi.{
  Wire, start, write_byte, write_reg_body, write_reg, read_reg_body, read_reg, write_bits,
}
use wair_os.Smi.Ack.{Sampled, write_bits-Sampled, FirstZero, NoZero, along, Ends, wait_for_ack-eio}
use wair_os.Smi.Reads.{Ends-after, Ends->>=, Ends-fails, Ends-framed, write_byte-Ends}

-- Bytes are acknowledged after `ks` samples at another level, and the next byte is not, in six.
abbrev pub Nacked : (ℕ → ℕ) → ℕ → List ℕ → Type 0
Nacked levels i [] = NoZero levels i 6
Nacked levels i (k ∷ ks) = (k ≤ 5) × FirstZero levels i k × Nacked levels (i + (k + 1)) ks

-- The samples that this takes.
abbrev pub waited : List ℕ → ℕ
waited [] = 6
waited (k ∷ ks) = k + 1 + waited ks

-- Bytes written in order, and then `last`.
abbrev bytes_then : {A : Type 0} → List ℕ → Op Wire A → Op Wire A
bytes_then [] last = last
bytes_then (b ∷ bs) last = write_byte b >>= λ _. bytes_then bs last

write_byte-eio :
    (d : ℕ) (w : Wire) → NoZero w.levels w.taken 6 → Ends w (err eio) 6 (write_byte d w)
unfolding write_byte
write_byte-eio d w z =
    Ends-after out (wait_for_ack-eio _ (along (λ l i. NoZero l i 6) out (rw (add-zero w.taken) z)))
  where
    out : Sampled w (write_bits (d % 2 ^ 8) 8 w) 0
    out = write_bits-Sampled (d % 2 ^ 8) 8 w

bytes_then-eio :
    {A : Type 0} (ks bs : List ℕ) (last : Op Wire A) (w : Wire)
    → ((u : Wire) → NoZero u.levels u.taken 6 → Ends u (err eio) 6 (last u))
    → length ks ≤ length bs
    → Nacked w.levels w.taken ks
    → Ends w (err eio) (waited ks) (bytes_then bs last w)
bytes_then-eio [] [] last w stuck h z = stuck w z
bytes_then-eio [] (b ∷ bs) last w stuck h z = Ends-fails (write_byte b) _ (write_byte-eio b w z)
bytes_then-eio (k ∷ ks) [] last w stuck h z = absurd (omega arith)
bytes_then-eio (k ∷ ks) (b ∷ bs) last w stuck h z =
    let e = write_byte-Ends b k w z.0 z.1 in
    Ends->>= (write_byte b) _ e (
      bytes_then-eio ks bs last (write_byte b w).1 stuck (omega arith)
        (along (λ l i. Nacked l i ks) e.samples z.2))

-- When the chip leaves one of the three bytes that address a read without an acknowledge for six
-- samples, the read returns -EIO at once: after these samples, with no later byte waited for.
pub read_reg-eio :
    (addr : ℕ) (ks : List ℕ) (w : Wire)
    → length ks ≤ 2
    → Nacked w.levels w.taken ks
    → Ends w (err eio) (waited ks) (read_reg addr w)
unfolding read_reg read_reg_body start
read_reg-eio addr ks w h z = Ends-framed (read_reg_body addr) w (
    bytes_then-eio ks (0xa9 ∷ bit_and addr 0xff ∷ []) _ (start w)
      (λ u nz. Ends-fails (write_byte (addr / 256)) _ (write_byte-eio _ u nz)) h z)

-- When the chip leaves one of the five bytes of a write without an acknowledge for six samples,
-- the write returns -EIO at once: after these samples, with no later byte waited for.
pub write_reg-eio :
    (addr d : ℕ) (ks : List ℕ) (w : Wire)
    → length ks ≤ 4
    → Nacked w.levels w.taken ks
    → Ends w (err eio) (waited ks) (write_reg addr d w)
unfolding write_reg write_reg_body start
write_reg-eio addr d ks w h z = Ends-framed (write_reg_body addr d) w (
    bytes_then-eio ks (0xa8 ∷ bit_and addr 0xff ∷ addr / 256 ∷ bit_and d 0xff ∷ []) _ (start w)
      (λ u nz. write_byte-eio (d / 256) u nz) h z)
