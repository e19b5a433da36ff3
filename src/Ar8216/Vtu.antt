-- ===== src/Ar8216/Vtu.antt =====
-- ar8216_wait_bit and ar8216_vtu_op of ar8216.c on a chip that behaves as `Asic` says.
use wair_os.Base.{
  ℕ, zero, suc, ◌%◌, ◌^◌, ◌<◌, ◌≤◌, ◌≡◌, refl, ◌∙◌, ap, arith, bit_and, bit_or, bit_and_mask,
  bit_or_above, Bool, true, false, ◌==◌, ==_iff, Bool-cases, inl, inr, ◌<<◌, update, update_self,
}
use wair_os.Ar8216.Mii.{Regs}
use wair_os.Ar8216.Apply.{
  reg_vtu, reg_vtu_data, vtu_op_flush, vtu_op_load, vtu_active, vtudata_member, vtudata_valid,
  wait_loop, wait_bit, vtu_start, vtu_op,
}
use wair_os.Ar8216.Asic.{Store, Asic}

-- The word that the driver loads for the members `val`.
abbrev pub member_word : ℕ → ℕ
member_word val = bit_or (bit_and val vtudata_member) vtudata_valid % 2 ^ 32

module _ {D : Type 0} (b : Regs D) (k : Asic b) where
  -- The wait is not over time, and no operation goes on.
  pub record Waited (d : D) (r : Bool × D) : Type 0 where
    pub in_time : r.0 ≡ false
    pub regs : (k.store r.1).regs ≡ (k.store d).regs
    pub vtu : (k.store r.1).vtu ≡ (k.store d).vtu
    pub idle : (k.store r.1).busy ≡ 0

  -- One read of the register, when no operation goes on and when one does.
  idle_now : (d : D) → (k.store d).busy ≡ 0 → (bit_and (b.read reg_vtu d).0 vtu_active == 0) ≡ true
  idle_now d e = rw ((k.polls d).0, e) refl

  busy_now :
      (d : D)
      → ((k.store d).busy == 0) ≡ false
      → (bit_and (b.read reg_vtu d).0 vtu_active == 0) ≡ false
  busy_now d e = rw ((k.polls d).0, e) refl

  wait_loop-Waited :
      (left : ℕ) (d : D)
      → (k.store d).busy ≤ left
      → Waited d (wait_loop b reg_vtu vtu_active 0 left d)
  unfolding wait_loop
  wait_loop-Waited zero d h =
      let none_left : (k.store d).busy ≡ 0 = omega (arith, h) in
      let polled = (k.polls d).1 in
      rw (idle_now d none_left) (record {
        in_time = refl;
        regs = ap (λ (s : Store). s.regs) polled;
        vtu = ap (λ (s : Store). s.vtu) polled;
        idle = ap (λ (s : Store). s.busy) polled ∙ omega (arith, none_left);
      })
  wait_loop-Waited (suc left) d h =
      let polled = (k.polls d).1 in
      elim (Bool-cases ((k.store d).busy == 0)) [
        | inl e ↦
            let none_left : (k.store d).busy ≡ 0 = (==_iff _ _).0 e in
            rw (idle_now d none_left) (record {
              in_time = refl;
              regs = ap (λ (s : Store). s.regs) polled;
              vtu = ap (λ (s : Store). s.vtu) polled;
              idle = ap (λ (s : Store). s.busy) polled ∙ omega (arith, none_left);
            })
        | inr e ↦
            let fewer : (k.store (b.read reg_vtu d).1).busy ≤ left =
              omega (arith, ap (λ (s : Store). s.busy) polled, h) in
            let w = wait_loop-Waited left (b.read reg_vtu d).1 fewer in
            rw (busy_now d e) (record {
              in_time = w.in_time;
              regs = w.regs ∙ ap (λ (s : Store). s.regs) polled;
              vtu = w.vtu ∙ ap (λ (s : Store). s.vtu) polled;
              idle = w.idle;
            })
      ]

  wait_bit-Waited : (d : D) → Waited d (wait_bit b reg_vtu vtu_active 0 d)
  unfolding wait_bit
  wait_bit-Waited d = wait_loop-Waited 20 d (k.busy_most d)

  -- `AR8216_VTU_OP_FLUSH` empties the translation unit.
  pub vtu_op-flush :
      (d : D)
      → ((k.store (vtu_op b vtu_op_flush 0 d)).regs ≡ (k.store d).regs)
        × ((k.store (vtu_op b vtu_op_flush 0 d)).vtu ≡ λ v. 0)
  unfolding vtu_op vtu_start
  vtu_op-flush d =
      let w = wait_bit-Waited d in
      let f = k.flushes (wait_bit b reg_vtu vtu_active 0 d).1 w.idle in
      rw w.in_time (f.0 ∙ w.regs, f.1)

  is_load : (vid : ℕ) → (bit_and (bit_or vtu_op_load (vid << 16)) 0x7 == vtu_op_load) ≡ true
  is_load vid =
      rw (bit_and_mask 3 (bit_or vtu_op_load (vid << 16)), bit_or_above 16 vid 2 (omega arith))
        ((==_iff _ _).1 (omega arith))

  -- `AR8216_VTU_OP_LOAD` gives a VID its members.
  pub vtu_op-load :
      (vid val : ℕ) (d : D)
      → vid < 4096
      → let w = k.store (vtu_op b (bit_or vtu_op_load (vid << 16)) val d) in
        (w.regs ≡ update (k.store d).regs reg_vtu_data (member_word val))
        × (w.vtu ≡ update (k.store d).vtu vid (member_word val))
  unfolding vtu_op vtu_start
  vtu_op-load vid val d h =
      let w = wait_bit-Waited d in
      let d₁ = (wait_bit b reg_vtu vtu_active 0 d).1 in
      let word = bit_or (bit_and val vtudata_member) vtudata_valid in
      let d₂ = b.write reg_vtu_data word d₁ in
      let put = k.writes reg_vtu_data word d₁ refl in
      let f = k.loads vid d₂ h (ap (λ (s : Store). s.busy) put ∙ w.idle) in
      let regs₂ : (k.store d₂).regs ≡ update (k.store d).regs reg_vtu_data (member_word val) =
        ap (λ (s : Store). s.regs) put
        ∙ ap (λ (g : ℕ → ℕ). update g reg_vtu_data (member_word val)) w.regs in
      let vtu₂ : (k.store d₂).vtu ≡ (k.store d).vtu = ap (λ (s : Store). s.vtu) put ∙ w.vtu in
      let loaded : (k.store d₂).regs reg_vtu_data ≡ member_word val =
        ap (λ (g : ℕ → ℕ). g reg_vtu_data) regs₂
        ∙ update_self (k.store d).regs reg_vtu_data (member_word val) in
      rw (w.in_time, vtu_start, is_load vid) (f.0 ∙ regs₂, f.1 ∙ rw (loaded, vtu₂) refl)
