-- ===== src/Ar7240/Forwards.antt =====
-- The destinations and the mode of each port of the switch of ag71xx_ar7240.c after ar7240_hw_apply,
-- on a chip whose registers behave as those of an AR8216, `Asic` of Ar8216/Asic.
use wair_os.Base.{
  ℕ, zero, suc, ◌+◌, ◌%◌, ◌^◌, ◌<◌, ◌≤◌, ◌≡◌, ◌≢◌, refl, sym, ◌∙◌, ap, arith, Bool, true, false,
  ◌||◌, bit_or, ◌<<◌, has_bit-or, has_bit-word, ◌==◌, ==_iff, if◌then◌else◌, Bool-cases, inl, inr,
  update_self, update_ne, has_bit, zero-has_bit,
}
use wair_os.Ar8216.Mii.{Regs}
use wair_os.Ar8216.Asic.{Store, Asic, is_kept, is_secure}
use wair_os.Ar8216.Forward.{Joined, masks, masks_complete, star}
use wair_os.Ar7240.{Sw, max_vlans, num_ports}
use wair_os.Ar7240.Apply.{
  dest_mask, port_vlan_word, reg_port_status, reg_port_ctrl, reg_port_vlan, isolate, load_vlans,
  setup_port, setup_ports, vtu_op, hw_apply,
}
use wair_os.Ar7240.Dest.{
  load_vlans-masks, dest-none, dest-some, dest-isolate, word_lem, IsAlone, masks-alone,
}

-- The VLAN ids have twelve bits, and the PVIDs are numbers of VLANs.
pub record FitsSw (s : Sw) : Type 0 where
  pub ids : (j : ℕ) → j < max_vlans → s.vlan_id j < 4096
  pub pvid_in : (q : ℕ) → q < 6 → s.pvid q < max_vlans

-- With VLANs on the mode in the word for a port is `AR8216_IN_SECURE`.
secure_lem : (s : Sw) (i m : ℕ) → s.vlan ≡ true → is_secure (port_vlan_word s i m % 2 ^ 32) ≡ true
secure_lem s i m on =
    let low = digit_on 30 (omega arith) refl in
    let high = digit_on 31 (omega arith) refl in rw (low, high) refl
  where
    last : (x y : Bool) → (x || true) || y ≡ true
    last true y = refl
    last false y = refl

    digit_on :
        (q : ℕ)
        → q < 32
        → has_bit (3 << 30) q ≡ true
        → has_bit (port_vlan_word s i m % 2 ^ 32) q ≡ true
    digit_on q hq set =
        has_bit-word _ q hq
        ∙ rw on (
            has_bit-or (bit_or (s.vlan_id (s.pvid i)) (3 << 30)) (dest_mask i m << 16) q
            ∙ rw (has_bit-or (s.vlan_id (s.pvid i)) (3 << 30) q, set)
                (last (has_bit (s.vlan_id (s.pvid i)) q) _))

-- The registers of the ports after the last loop.
module _ {D : Type 0} (b : Regs D) (k : Asic b) where
  abbrev regs : D → ℕ → ℕ
  regs d = (k.store d).regs

  write-own : (a x : ℕ) (d : D) → is_kept a ≡ true → regs (b.write a x d) a ≡ x % 2 ^ 32
  write-own a x d h =
      ap (λ (s : Store). s.regs a) (k.writes a x d h) ∙ update_self (regs d) a (x % 2 ^ 32)

  write-other :
      (a x : ℕ) (d : D) (c : ℕ) → is_kept a ≡ true → c ≢ a → regs (b.write a x d) c ≡ regs d c
  write-other a x d c h ne =
      ap (λ (s : Store). s.regs c) (k.writes a x d h) ∙ update_ne (regs d) a c (x % 2 ^ 32) ne

  setup_port-other :
      (s : Sw) (i m : ℕ) (d : D) (a : ℕ)
      → a ≢ reg_port_status i
      → a ≢ reg_port_ctrl i
      → a ≢ reg_port_vlan i
      → regs (setup_port b s i m d) a ≡ regs d a
  unfolding setup_port
  setup_port-other s i m d a n₁ n₂ n₃ =
      write-other (reg_port_vlan i) _ _ a (ground arith) n₃
      ∙ write-other (reg_port_ctrl i) _ _ a (ground arith) n₂
      ∙ write-other (reg_port_status i) _ d a (ground arith) n₁

  setup_port-own :
      (s : Sw) (i m : ℕ) (d : D)
      → regs (setup_port b s i m d) (reg_port_vlan i) ≡ port_vlan_word s i m % 2 ^ 32
  unfolding setup_port
  setup_port-own s i m d = write-own (reg_port_vlan i) _ _ (ground arith)

  -- The ports before `i` keep their registers.
  setup_ports-before :
      (s : Sw) (m : ℕ → ℕ) (left i : ℕ) (d : D) (j : ℕ)
      → j < i
      → regs (setup_ports b s m left i d) (reg_port_vlan j) ≡ regs d (reg_port_vlan j)
  unfolding setup_ports
  setup_ports-before s m zero i d j h = refl
  setup_ports-before s m (suc left) i d j h =
      setup_ports-before s m left (i + 1) (setup_port b s i (m i) d) j (omega (arith, h))
      ∙ setup_port-other s i (m i) d (reg_port_vlan j) (λ e. omega (arith, e, h))
          (λ e. omega (arith, e, h)) (λ e. omega (arith, e, h))

  setup_ports-within :
      (s : Sw) (m : ℕ → ℕ) (left i : ℕ) (d : D) (j : ℕ)
      → i ≤ j
      → j < i + left
      → regs (setup_ports b s m left i d) (reg_port_vlan j) ≡ port_vlan_word s j (m j) % 2 ^ 32
  unfolding setup_ports
  setup_ports-within s m zero i d j le lt = absurd (omega (arith, le, lt))
  setup_ports-within s m (suc left) i d j le lt = elim (Bool-cases (j == i)) [
    | inl e ↦
        let same : j ≡ i = (==_iff j i).0 e in
        rw same (
          setup_ports-before s m left (i + 1) (setup_port b s i (m i) d) i (omega arith)
          ∙ setup_port-own s i (m i) d)
    | inr e ↦
        let other : j ≢ i = λ f. cc (e, (==_iff j i).1 f) in
        setup_ports-within s m left (i + 1) (setup_port b s i (m i) d) j (omega (arith, le, other))
          (omega (arith, lt))
  ]

  -- The translation unit stays as it is.
  write-vtu : (a x : ℕ) (d : D) → is_kept a ≡ true → (k.store (b.write a x d)).vtu ≡ (k.store d).vtu
  write-vtu a x d h = ap (λ (s : Store). s.vtu) (k.writes a x d h)

  setup_ports-vtu :
      (s : Sw) (m : ℕ → ℕ) (left i : ℕ) (d : D)
      → (k.store (setup_ports b s m left i d)).vtu ≡ (k.store d).vtu
  unfolding setup_ports setup_port
  setup_ports-vtu s m zero i d = refl
  setup_ports-vtu s m (suc left) i d =
      setup_ports-vtu s m left (i + 1) _
      ∙ write-vtu (reg_port_vlan i) _ _ (ground arith)
      ∙ write-vtu (reg_port_ctrl i) _ _ (ground arith)
      ∙ write-vtu (reg_port_status i) _ d (ground arith)

  pub hw_apply-load_vlans :
      (s : Sw) (d : D)
      → s.vlan ≡ true
      → (k.store (hw_apply b s d)).vtu
        ≡ (k.store (load_vlans b s max_vlans 0 (λ n. 0, vtu_op b 1 0 d)).1).vtu
  unfolding hw_apply
  hw_apply-load_vlans s d on =
      let d₁ = vtu_op b 1 0 d in
      let r : Bool → (ℕ → ℕ) × D = λ v.
        if v then load_vlans b s max_vlans 0 (λ n. 0, d₁) else (isolate num_ports 0 (λ n. 0), d₁) in
      setup_ports-vtu s (r s.vlan).0 num_ports 0 (r s.vlan).1
      ∙ ap (λ (v : Bool). (k.store (r v).1).vtu) on

  -- Port `q` is a destination in the register of port `i`.
  abbrev pub dest_bit_sw : D → ℕ → ℕ → Bool
  dest_bit_sw d i q = has_bit (regs d (reg_port_vlan i)) (16 + q)

  module _ (s : Sw) (f : FitsSw s) (d : D) (i q : ℕ) (hi : i < 6) (hq : q < 6) where
    dest_after :
        (m : ℕ → ℕ) (d' : D)
        → dest_bit_sw (setup_ports b s m num_ports 0 d') i q ≡ has_bit (dest_mask i (m i)) q
    dest_after m d' =
        ap (λ (x : ℕ). has_bit x (16 + q))
          (setup_ports-within s m num_ports 0 d' i (omega arith) (omega (arith, hi)))
        ∙ word_lem i q hi hq s (m i) vid_fits
      where
        vid_fits : (if s.vlan then s.vlan_id (s.pvid i) else i) < 4096
        vid_fits = elim (Bool-cases s.vlan) [
          | inl e ↦ rw e (f.ids (s.pvid i) (f.pvid_in i hi))
          | inr e ↦ rw e (omega (arith, hi))
        ]

    -- `ar7240_hw_apply` with the flag of the VLANs set aside.
    abbrev way : Bool → D
    way v =
        let d₁ = vtu_op b 1 0 d in
        let r =
          (if v
            then load_vlans b s max_vlans 0 (λ n. 0, d₁)
            else (isolate num_ports 0 (λ n. 0), d₁)) in
        setup_ports b s r.0 num_ports 0 r.1

    hw_apply-way : (v : Bool) → s.vlan ≡ v → hw_apply b s d ≡ way v
    unfolding hw_apply
    hw_apply-way v e = ap way e

    abbrev mask : ℕ
    mask = masks s.vlan_table max_vlans 0 (λ n. 0) i

    dest-mask : s.vlan ≡ true → dest_bit_sw (hw_apply b s d) i q ≡ has_bit (dest_mask i mask) q
    dest-mask on =
        let r = load_vlans b s max_vlans 0 (λ n. 0, vtu_op b 1 0 d) in
        ap (λ (x : D). dest_bit_sw x i q) (hw_apply-way true on)
        ∙ dest_after r.0 r.1
        ∙ ap (λ (m : ℕ → ℕ). has_bit (dest_mask i (m i)) q)
            (load_vlans-masks b s max_vlans 0 (λ n. 0, vtu_op b 1 0 d))

    -- With VLANs on, after `ar7240_hw_apply` the mode of the port is `AR8216_IN_SECURE`.
    pub hw_apply-secure : s.vlan ≡ true → is_secure (regs (hw_apply b s d) (reg_port_vlan i)) ≡ true
    hw_apply-secure on =
        let r = load_vlans b s max_vlans 0 (λ n. 0, vtu_op b 1 0 d) in
        ap (λ (x : D). is_secure (regs x (reg_port_vlan i))) (hw_apply-way true on)
        ∙ ap is_secure
            (setup_ports-within s r.0 num_ports 0 r.1 i (omega arith) (omega (arith, hi)))
        ∙ secure_lem s i (r.0 i) on

    -- A port is none of its own destinations, and has those that share a VLAN with it.
    pub dest-apart : s.vlan ≡ true → dest_bit_sw (hw_apply b s d) i q ≡ true → (q == i) ≡ false
    dest-apart on h =
        let set : has_bit (dest_mask i mask) q ≡ true = sym (dest-mask on) ∙ h in
        elim (Bool-cases (mask == 0)) [
          | inl e ↦
              let alone : star i q ≡ true =
                sym (
                  ap (λ (m : ℕ). has_bit (dest_mask i m) q) ((==_iff mask 0).0 e)
                  ∙ dest-none i q hi hq)
                ∙ set in
              ground (arith, alone)
          | inr e ↦
              let some : mask ≢ 0 = λ g. cc (e, (==_iff mask 0).1 g) in
              let both = sym (dest-some i q hi hq mask some) ∙ set in ground (arith, both)
        ]

    pub dest-met :
        s.vlan ≡ true
        → Joined s.vlan_table max_vlans 0 i q
        → dest_bit_sw (hw_apply b s d) i q ≡ true
    dest-met on j =
        let met = masks_complete s.vlan_table i q hi hq max_vlans 0 (λ n. 0) j in
        let some : mask ≢ 0 = λ e. cc (zero-has_bit q, rw e at met) in
        let both = j.members in
        dest-mask on ∙ dest-some i q hi hq mask some ∙ ground (arith, met, both)

    -- With VLANs on, after `ar7240_hw_apply` the destination of a port that shares no VLAN with another
    -- port is the CPU port only, and those of the CPU port in that case are all other ports.
    pub hw_apply-alone :
        s.vlan ≡ true → IsAlone s.vlan_table i → dest_bit_sw (hw_apply b s d) i q ≡ star i q
    hw_apply-alone on alone =
        dest-mask on
        ∙ ap (λ (m : ℕ). has_bit (dest_mask i m) q)
            (masks-alone s.vlan_table i hi alone max_vlans 0 (λ n. 0) (omega arith))
        ∙ dest-none i q hi hq

    -- With VLANs off, after `ar7240_hw_apply` the destinations of the CPU port are the other ports,
    -- and that of each other port is the CPU port.
    pub hw_apply-star_sw : s.vlan ≡ false → dest_bit_sw (hw_apply b s d) i q ≡ star i q
    hw_apply-star_sw off =
        ap (λ (x : D). dest_bit_sw x i q) (hw_apply-way false off)
        ∙ dest_after (isolate num_ports 0 (λ n. 0)) (vtu_op b 1 0 d)
        ∙ dest-isolate i q hi hq
