-- ===== src/Smi/Reads.antt =====
-- Register accesses against the samples: when they succeed, what they read, when they fail.
use native.Mathlib.Nat.{zero-add, add-zero}
use mathlib.Core.Path.{subst₂}
use wair_os.Base.{
  ◌∙◌, ℕ, ◌+◌, ◌*◌, ◌/◌, ◌%◌, ◌^◌, ◌≤◌, ◌≡◌, refl, List, [], ◌∷◌, Outcome, ok, err, eio, Op,
  and_then-ok, and_then-err, ◌>>=◌, arith, ◌<<◌, pure, ap, bit_or, bit_and, bit_and_mask,
  bit_or_above,
}
use wair_os.Smi.{
  Wire, start, stop, framed, write_bits, read_bits, write_byte, read_byte, write_reg_body,
  write_reg, read_reg_body, read_reg,
}
use wair_os.Smi.Ack.{
  sampled, sampled-lt, Sampled, Sampled-trans, write_bits-Sampled, read_bits_lem, FirstZero, along,
  Ends, wait_for_ack-acked,
}

-- After a start, or after digits written, the samples go on where they were.
pub Ends-after :
    {A : Type 0} {w u : Wire} {o : Outcome A} {n : ℕ} {r : Outcome A × Wire}
    → Sampled w u 0
    → Ends u o n r
    → Ends w o n r
Ends-after {n} s e = record {
  outcome = e.outcome;
  samples = rw (zero-add n) at (Sampled-trans s e.samples);
}

pub Ends->>= :
    {A B : Type 0} (m : Op Wire A) (f : A → Op Wire B) {w : Wire} {a : A} {o : Outcome B} {n k : ℕ}
    → Ends w (ok a) n (m w)
    → Ends (m w).1 o k (f a (m w).1)
    → Ends w o (n + k) ((m >>= f) w)
Ends->>= m f {w} e h =
    rw (and_then-ok f (m w) e.outcome)
      (record { outcome = h.outcome; samples = Sampled-trans e.samples h.samples })

pub Ends-fails :
    {A B : Type 0} (m : Op Wire A) (f : A → Op Wire B) {w : Wire} {n : ℕ}
    → Ends w (err eio) n (m w)
    → Ends w (err eio) n ((m >>= f) w)
Ends-fails m f {w} e =
    rw (and_then-err f (m w) e.outcome) (record { outcome = refl; samples = e.samples })

-- Each byte in turn is acknowledged, after so many samples at another level.
abbrev pub Acks : (ℕ → ℕ) → ℕ → List ℕ → Type 0
Acks levels i [] = Unit {0}
Acks levels i (k ∷ ks) = (k ≤ 5) × FirstZero levels i k × Acks levels (i + (k + 1)) ks

pub write_byte-Ends :
    (d k : ℕ) (w : Wire)
    → k ≤ 5
    → FirstZero w.levels w.taken k
    → Ends w (ok tt) (k + 1) (write_byte d w)
unfolding write_byte
write_byte-Ends d k w h z =
    Ends-after out
      (wait_for_ack-acked _ k h (along (λ l i. FirstZero l i k) out (rw (add-zero w.taken) z)))
  where
    out : Sampled w (write_bits (d % 2 ^ 8) 8 w) 0
    out = write_bits-Sampled (d % 2 ^ 8) 8 w

start-Sampled : (w : Wire) → Sampled w (start w) 0
unfolding start
start-Sampled w = record { same_levels = refl; more_taken = omega arith }

pub Ends-framed :
    {A : Type 0} (body : Op Wire A) (w : Wire) {o : Outcome A} {n : ℕ}
    → Ends (start w) o n (body (start w))
    → Ends w o n (framed body w)
unfolding stop
Ends-framed body w e =
    let all = Ends-after (start-Sampled w) e in
    record {
      outcome = all.outcome;
      samples = record {
        same_levels = all.samples.same_levels;
        more_taken = all.samples.more_taken;
      };
    }

-- A byte that is acknowledged, and then the rest of the access.
byte_then :
    {B : Type 0} (d k : ℕ) (ks : List ℕ) (w : Wire) (f : Unit {0} → Op Wire B) {o : Outcome B}
    {n : ℕ}
    → Acks w.levels w.taken (k ∷ ks)
    → ((u : Wire) → Sampled w u (k + 1) → Acks u.levels u.taken ks → Ends u o n (f tt u))
    → Ends w o (k + 1 + n) ((write_byte d >>= f) w)
byte_then d k ks w f a rest =
    let e = write_byte-Ends d k w a.0 a.1 in
    Ends->>= (write_byte d) f e
      (rest (write_byte d w).1 e.samples (along (λ l i. Acks l i ks) e.samples a.2))

write_body-Ends :
    (addr d k₀ k₁ k₂ k₃ k₄ : ℕ) (w : Wire)
    → Acks w.levels w.taken (k₀ ∷ k₁ ∷ k₂ ∷ k₃ ∷ k₄ ∷ [])
    → Ends w (ok tt) (k₀ + 1 + (k₁ + 1 + (k₂ + 1 + (k₃ + 1 + (k₄ + 1))))) (write_reg_body addr d w)
unfolding write_reg_body
write_body-Ends addr d k₀ k₁ k₂ k₃ k₄ w a = byte_then _ k₀ (k₁ ∷ k₂ ∷ k₃ ∷ k₄ ∷ []) w _ a λ w₁ _ a₁.
    byte_then _ k₁ (k₂ ∷ k₃ ∷ k₄ ∷ []) w₁ _ a₁ λ w₂ _ a₂.
      byte_then _ k₂ (k₃ ∷ k₄ ∷ []) w₂ _ a₂ λ w₃ _ a₃.
        byte_then _ k₃ (k₄ ∷ []) w₃ _ a₃ λ w₄ _ a₄. write_byte-Ends (d / 256) k₄ w₄ a₄.0 a₄.1

-- A register write returns 0 whenever the chip acknowledges each of the five bytes within six
-- samples, and takes no sample after an acknowledge.
pub write_reg_lem :
    (addr d k₀ k₁ k₂ k₃ k₄ : ℕ) (w : Wire)
    → Acks w.levels w.taken (k₀ ∷ k₁ ∷ k₂ ∷ k₃ ∷ k₄ ∷ [])
    → Ends w (ok tt) (k₀ + k₁ + k₂ + k₃ + k₄ + 5) (write_reg addr d w)
unfolding write_reg
write_reg_lem addr d k₀ k₁ k₂ k₃ k₄ w a = rw total (
    Ends-framed (write_reg_body addr d) w (
      write_body-Ends addr d k₀ k₁ k₂ k₃ k₄ (start w) (
        along (λ l i. Acks l i (k₀ ∷ k₁ ∷ k₂ ∷ k₃ ∷ k₄ ∷ [])) (start-Sampled w)
          (rw (add-zero w.taken) a))))
  where
    total : k₀ + k₁ + k₂ + k₃ + k₄ + 5 ≡ k₀ + 1 + (k₁ + 1 + (k₂ + 1 + (k₃ + 1 + (k₄ + 1))))
    total = omega arith

read_byte-Ends : (ack : ℕ) (w : Wire) → Ends w (ok (sampled w.levels w.taken 8)) 8 (read_byte ack w)
unfolding read_byte
read_byte-Ends ack w = record {
  outcome = ap ok whole_byte;
  samples = Sampled-trans (read_bits_lem 8 w).1 (write_bits-Sampled ack 1 (read_bits 8 w).1);
}
  where
    whole_byte : bit_and (read_bits 8 w).0 0xff ≡ sampled w.levels w.taken 8
    whole_byte = omega (
      arith,
      bit_and_mask 8 (read_bits 8 w).0,
      (read_bits_lem 8 w).0,
      sampled-lt w.levels w.taken 8,
    )

-- The two data bytes, and the word that they make.
read_two : Op Wire ℕ
read_two = do lo ← read_byte 0x00; hi ← read_byte 0x01; pure (bit_or lo (hi << 8))

read_two-Ends :
    (w : Wire)
    → Ends w
        (ok (sampled w.levels (w.taken + 8) 8 * 256 + sampled w.levels w.taken 8))
        16
        (read_two w)
unfolding read_two
read_two-Ends w = Ends->>= (read_byte 0) _ first (
    Ends->>= (read_byte 1) _ {k = 0} second (record {
      outcome = ap ok (
          bit_or_above 8 (sampled u.levels u.taken 8) (sampled w.levels w.taken 8)
            (sampled-lt w.levels w.taken 8)
          ∙ ap (λ (x : ℕ). x * 256 + sampled w.levels w.taken 8) moved);
      samples = record { same_levels = refl; more_taken = omega arith };
    }))
  where
    u : Wire
    u = (read_byte 0 w).1

    first : Ends w (ok (sampled w.levels w.taken 8)) 8 (read_byte 0 w)
    first = read_byte-Ends 0 w

    second : Ends u (ok (sampled u.levels u.taken 8)) 8 (read_byte 1 u)
    second = read_byte-Ends 1 u

    moved : sampled u.levels u.taken 8 ≡ sampled w.levels (w.taken + 8) 8
    moved = λ i. sampled (first.samples.same_levels i) (first.samples.more_taken i) 8

read_body-Ends :
    (addr k₀ k₁ k₂ : ℕ) (w : Wire)
    → Acks w.levels w.taken (k₀ ∷ k₁ ∷ k₂ ∷ [])
    → let i = w.taken + (k₀ + k₁ + k₂ + 3) in
      Ends w
        (ok (sampled w.levels (i + 8) 8 * 256 + sampled w.levels i 8))
        (k₀ + 1 + (k₁ + 1 + (k₂ + 1 + 16)))
        (read_reg_body addr w)
unfolding read_reg_body read_two
read_body-Ends addr k₀ k₁ k₂ w a = byte_then _ k₀ (k₁ ∷ k₂ ∷ []) w _ a λ w₁ s₁ a₁.
    byte_then _ k₁ (k₂ ∷ []) w₁ _ a₁ λ w₂ s₂ a₂.
      byte_then _ k₂ [] w₂ _ a₂ λ w₃ s₃ a₃. word w₃ (Sampled-trans s₁ (Sampled-trans s₂ s₃))
  where
    i : ℕ
    i = w.taken + (k₀ + k₁ + k₂ + 3)

    word :
        (u : Wire)
        → Sampled w u (k₀ + 1 + (k₁ + 1 + (k₂ + 1)))
        → Ends u (ok (sampled w.levels (i + 8) 8 * 256 + sampled w.levels i 8)) 16 (read_two u)
    word u s =
        subst₂
          (λ (l : ℕ → ℕ) (j : ℕ).
            Ends u (ok (sampled l (j + 8) 8 * 256 + sampled l j 8)) 16 (read_two u))
          s.same_levels (omega (arith, s.more_taken)) (read_two-Ends u)

-- A register read returns 0 whenever the chip acknowledges the three bytes that address it, each
-- within six samples, and then the word that it reads is made of the next sixteen samples: the
-- low byte first, each byte its highest digit first.
pub read_reg_lem :
    (addr k₀ k₁ k₂ : ℕ) (w : Wire)
    → Acks w.levels w.taken (k₀ ∷ k₁ ∷ k₂ ∷ [])
    → let i = w.taken + (k₀ + k₁ + k₂ + 3) in
      Ends w
        (ok (sampled w.levels (i + 8) 8 * 256 + sampled w.levels i 8))
        (k₀ + k₁ + k₂ + 19)
        (read_reg addr w)
unfolding read_reg start
read_reg_lem addr k₀ k₁ k₂ w a =
    rw total (Ends-framed (read_reg_body addr) w (read_body-Ends addr k₀ k₁ k₂ (start w) a))
  where
    total : k₀ + k₁ + k₂ + 19 ≡ k₀ + 1 + (k₁ + 1 + (k₂ + 1 + 16))
    total = omega arith
