-- ===== src/Ar8216/Applied.antt =====
-- ar8216_hw_apply of ar8216.c on a chip that behaves as `Asic` says: where the chip dest_bit a
-- packet, and which VLANs it knows.
use wair_os.Base.{
  ℕ, ◌+◌, ◌-◌, ◌^◌, ◌<◌, ◌≡◌, ◌↔◌, refl, sym, ◌∙◌, ap, arith, bit_or, Bool, true, false, not, ◌&&◌,
  ◌||◌, if◌then◌else◌, Bool-cases, inl, inr, ◌<<◌, has_bit, has_bit-or, has_bit-shift,
  has_bit-above, all_below, all_below_sound, pow_mono,
}
use wair_os.Ar8216.{Priv, max_vlans, num_ports}
use wair_os.Ar8216.Mii.{Regs}
use wair_os.Ar8216.Apply.{
  reg_port_vlan, port_vlan_mask, port_vlan_value, vtu_op_flush, isolate, vtu_op, load_vlans,
  apply_ports, hw_apply,
}
use wair_os.Ar8216.Asic.{Asic, is_secure}
use wair_os.Ar8216.Forward.{load_vlans-masks, Joined, masks_iff, star, isolate_lem}
use wair_os.Ar8216.Settings.{changed, has_bit-changed, apply_ports-Settled}

-- The destination bits of `AR8216_REG_PORT_VLAN` are written, and lie above the VID.
dest_gone : ℕ → Bool
dest_gone q = not (has_bit (2 ^ 32 - 1 - port_vlan_mask) (16 + q))

dest_table : all_below 6 dest_gone ≡ true
unfolding all_below dest_gone
dest_table = refl

mode_away : ℕ → Bool
mode_away q = not (has_bit (3 << 30) (16 + q)) && not (has_bit (0 << 30) (16 + q))

mode_table : all_below 6 mode_away ≡ true
unfolding all_below mode_away
mode_table = refl

-- A destination bit of the register after the change is that of the mask.
dest_lem :
    (p : Priv) (m : ℕ → ℕ) (i q old : ℕ)
    → q < 6
    → (if p.vlan then p.vlan_id (p.pvid i) else i) < 4096
    → has_bit (changed old port_vlan_mask (port_vlan_value p m i)) (16 + q) ≡ has_bit (m i) q
unfolding dest_gone mode_away
dest_lem p m i q old hq fits =
    let gone = all_below_sound 6 dest_gone q dest_table hq in
    let away = all_below_sound 6 mode_away q mode_table hq in
    let pvid : ℕ = (if p.vlan then p.vlan_id (p.pvid i) else i) in
    let ingress : ℕ = (if p.vlan then 3 else 0) in
    let low : has_bit pvid (16 + q) ≡ false =
      has_bit-above pvid (16 + q) (omega (arith, fits, pow_mono 12 (16 + q) (omega arith))) in
    let mode : has_bit (ingress << 30) (16 + q) ≡ false = elim (Bool-cases p.vlan) [
      | inl e ↦ rw e (ground (arith, away))
      | inr e ↦ rw e (ground (arith, away))
    ] in
    has_bit-changed old port_vlan_mask (port_vlan_value p m i) (16 + q) (omega (arith, hq))
      (ground (arith, gone))
    ∙ has_bit-or (bit_or (m i << 16) (ingress << 30)) pvid (16 + q)
    ∙ rw (low, has_bit-or (m i << 16) (ingress << 30) (16 + q), mode, has_bit-shift 16 q (m i))
        (nothing (has_bit (m i) q))
  where
    nothing : (b : Bool) → (b || false) || false ≡ b
    nothing true = refl
    nothing false = refl

-- With VLANs on the mode of the register after the change is `AR8216_IN_SECURE`.
secure_lem :
    (p : Priv) (m : ℕ → ℕ) (i old : ℕ)
    → p.vlan ≡ true
    → is_secure (changed old port_vlan_mask (port_vlan_value p m i)) ≡ true
secure_lem p m i old on =
    let low = digit_on 30 (omega arith) refl refl in
    let high = digit_on 31 (omega arith) refl refl in rw (low, high) refl
  where
    last : (x y : Bool) → (x || true) || y ≡ true
    last true y = refl
    last false y = refl

    digit_on :
        (q : ℕ)
        → q < 32
        → has_bit (2 ^ 32 - 1 - port_vlan_mask) q ≡ false
        → has_bit (3 << 30) q ≡ true
        → has_bit (changed old port_vlan_mask (port_vlan_value p m i)) q ≡ true
    digit_on q hq gone set =
        let pvid : ℕ = (if p.vlan then p.vlan_id (p.pvid i) else i) in
        has_bit-changed old port_vlan_mask (port_vlan_value p m i) q hq gone
        ∙ rw on (
            has_bit-or (bit_or (m i << 16) (3 << 30)) (p.vlan_id (p.pvid i)) q
            ∙ rw (has_bit-or (m i << 16) (3 << 30) q, set) (last (has_bit (m i << 16) q) _))

-- The VLAN ids, and the PVIDs, have twelve bits.
pub record Fits (p : Priv) : Type 0 where
  pub ids : (j : ℕ) → j < max_vlans → p.vlan_id j < 4096
  pub pvid_in : (q : ℕ) → q < 6 → p.pvid q < max_vlans

module _ {D : Type 0} (b : Regs D) (k : Asic b) where
  -- Port `q` is a destination in the register of port `i`.
  abbrev pub dest_bit : D → ℕ → ℕ → Bool
  dest_bit d i q = has_bit ((k.store d).regs (reg_port_vlan i)) (16 + q)

  module _ (p : Priv) (f : Fits p) (d : D) where
    pvid_fits : (i : ℕ) → i < 6 → (if p.vlan then p.vlan_id (p.pvid i) else i) < 4096
    pvid_fits i hi = elim (Bool-cases p.vlan) [
      | inl e ↦ rw e (f.ids (p.pvid i) (f.pvid_in i hi))
      | inr e ↦ rw e (omega (arith, hi))
    ]

    -- The destinations of the ports after the last loop.
    dest_after :
        (m : ℕ → ℕ) (d' : D) (i q : ℕ)
        → i < 6
        → q < 6
        → dest_bit (apply_ports b p m num_ports 0 d') i q ≡ has_bit (m i) q
    dest_after m d' i q hi hq =
        ap (λ (x : ℕ). has_bit x (16 + q))
          ((apply_ports-Settled b k p m num_ports 0 d').vlans i (omega arith) (omega (arith, hi)))
        ∙ dest_lem p m i q ((k.store d').regs (reg_port_vlan i)) hq (pvid_fits i hi)

    mode_after :
        (m : ℕ → ℕ) (d' : D) (i : ℕ)
        → p.vlan ≡ true
        → i < 6
        → is_secure ((k.store (apply_ports b p m num_ports 0 d')).regs (reg_port_vlan i)) ≡ true
    mode_after m d' i on hi =
        ap is_secure
          ((apply_ports-Settled b k p m num_ports 0 d').vlans i (omega arith) (omega (arith, hi)))
        ∙ secure_lem p m i ((k.store d').regs (reg_port_vlan i)) on

    -- The two ways through ar8216_hw_apply.
    abbrev pub flushed : D
    flushed = vtu_op b vtu_op_flush 0 d

    abbrev pub loaded : (ℕ → ℕ) × D
    loaded = load_vlans b p max_vlans 0 (λ n. 0, flushed)

    abbrev pub way : Bool → D
    way v =
        let s = (if v then loaded else (isolate num_ports 0 (λ n. 0), flushed)) in
        apply_ports b p s.0 num_ports 0 s.1

    pub hw_apply-way : (v : Bool) → p.vlan ≡ v → hw_apply b p d ≡ way v
    unfolding hw_apply
    hw_apply-way v e = ap way e

    -- With VLANs on, after `ar8216_hw_apply` a destination bit of a port is set exactly when a VLAN of
    -- the table has the port and another one as members.
    pub hw_apply-dest_iff :
        p.vlan ≡ true
        → (i q : ℕ) → i < 6
        → q < 6
        → (dest_bit (hw_apply b p d) i q ≡ true) ↔ Joined p.vlan_table max_vlans 0 i q
    hw_apply-dest_iff on i q hi hq =
        let dest : dest_bit (hw_apply b p d) i q ≡ has_bit (loaded.0 i) q =
          ap (λ (r : D). dest_bit r i q) (hw_apply-way true on)
          ∙ dest_after loaded.0 loaded.1 i q hi hq in
        let same =
          dest ∙ ap (λ (m : ℕ → ℕ). has_bit (m i) q) (load_vlans-masks b p max_vlans 0 _) in
        let spec = masks_iff p.vlan_table i q hi hq in
        (λ h. spec.0 (sym same ∙ h), λ j. same ∙ spec.1 j)

    -- With VLANs on, after `ar8216_hw_apply` each port is in the mode `AR8216_IN_SECURE`.
    pub hw_apply-secure :
        (i : ℕ)
        → p.vlan ≡ true
        → i < 6
        → is_secure ((k.store (hw_apply b p d)).regs (reg_port_vlan i)) ≡ true
    hw_apply-secure i on hi =
        ap (λ (r : D). is_secure ((k.store r).regs (reg_port_vlan i))) (hw_apply-way true on)
        ∙ mode_after loaded.0 loaded.1 i on hi

    -- With VLANs off, after `ar8216_hw_apply` the destinations of the CPU port are the other ports,
    -- and that of each other port is the CPU port.
    pub hw_apply-star :
        p.vlan ≡ false → (i q : ℕ) → i < 6 → q < 6 → dest_bit (hw_apply b p d) i q ≡ star i q
    hw_apply-star off i q hi hq =
        ap (λ (r : D). dest_bit r i q) (hw_apply-way false off)
        ∙ dest_after (isolate num_ports 0 (λ n. 0)) flushed i q hi hq
        ∙ isolate_lem i q hi hq
