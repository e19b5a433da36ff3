-- ===== src/Ar7240/Passes.antt =====
-- Which packets ar7240_hw_apply of ag71xx_ar7240.c lets pass from port to port, on a chip that
-- behaves as `Asic` and `Forwarding` of Ar8216/Asic say.
use wair_os.Base.{
  ℕ, ◌+◌, ◌<◌, ◌≡◌, ◌≢◌, ◌↔◌, sym, ◌∙◌, ap, arith, true, ltb, Bool-cases, inl, inr, ◌&&◌, has_bit,
  refl,
}
use wair_os.Ar8216.Mii.{Regs}
use wair_os.Ar8216.Apply
use wair_os.Ar8216.Asic.{Asic, is_secure, Forwarding}
use wair_os.Ar8216.Vtu.{member_word, vtu_op-flush}
use wair_os.Ar8216.Loaded.{load_vlans-own, load_vlans-other}
use wair_os.Ar8216.Filter.{IsDistinct, Carries, Programmed, through_iff}
use wair_os.Ar7240.{Sw, max_vlans}
use wair_os.Ar7240.Apply.{reg_port_vlan, load_vlans, hw_apply}
use wair_os.Ar7240.Loaded.{as_priv, as_priv-Fits, ltb-in, in-ltb, IsQuick, vtu_op_eq, load_vlans_eq}
use wair_os.Ar7240.Forwards.{
  FitsSw, dest_bit_sw, hw_apply-secure, hw_apply-load_vlans, dest-apart, dest-met,
}

-- The same VLANs have members.
filled : (s : Sw) (v : ℕ) → (as_priv s).vlan_table v ≢ 0 → v < max_vlans
filled s v full = elim (Bool-cases (ltb v max_vlans)) [
  | inl e ↦ in-ltb v e
  | inr e ↦ absurd (full (rw e refl))
]

module _ {D : Type 0} (b : Regs D) (k : Asic b) (quick : IsQuick b k) (s : Sw) (f : FitsSw s)
    (d : D) where
  abbrev before : (ℕ → ℕ) × D
  before = (λ n. 0, Apply.vtu_op b 1 0 d)

  -- The translation unit is that of the loop of ar8216.c.
  vtu-load_vlans :
      s.vlan ≡ true
      → (k.store (hw_apply b s d)).vtu
        ≡ (k.store (Apply.load_vlans b (as_priv s) max_vlans 0 before).1).vtu
  vtu-load_vlans on =
      hw_apply-load_vlans b k s d on
      ∙ ap (λ (x : D). (k.store (load_vlans b s max_vlans 0 (λ n. 0, x)).1).vtu)
          (vtu_op_eq b k quick 1 0 d)
      ∙ ap (λ (x : (ℕ → ℕ) × D). (k.store x.1).vtu)
          (load_vlans_eq b k quick s max_vlans 0 before (omega arith))

  abbrev entry : ℕ → ℕ
  entry vid = (k.store (hw_apply b s d)).vtu vid

  entry-own :
      (u : ℕ)
      → IsDistinct s.vlan_id s.vlan_table max_vlans
      → s.vlan ≡ true
      → u < max_vlans
      → s.vlan_table u ≢ 0
      → entry (s.vlan_id u) ≡ member_word (s.vlan_table u)
  entry-own u distinct on hu full =
      let p = as_priv s in
      let inside = ltb-in u hu in
      let own =
        load_vlans-own b k p (as_priv-Fits s f) d max_vlans 0 u before (omega arith) (omega arith)
          (omega (arith, hu)) (rw inside full)
          (λ v hv some same.
            let lt = filled s v some in
            distinct v u lt hu (rw (ltb-in v lt) at some) full
              (rw (ltb-in v lt, inside) at same)) in
      ap (λ (g : ℕ → ℕ). g (s.vlan_id u)) (vtu-load_vlans on) ∙ rw inside at own

  entry-other :
      (vid : ℕ)
      → s.vlan ≡ true
      → ((v : ℕ) → v < max_vlans → s.vlan_table v ≢ 0 → s.vlan_id v ≢ vid)
      → entry vid ≡ 0
  entry-other vid on away =
      let p = as_priv s in
      ap (λ (g : ℕ → ℕ). g vid) (vtu-load_vlans on)
      ∙ load_vlans-other b k p (as_priv-Fits s f) d max_vlans 0 vid before (omega arith)
          (λ v from hv some same.
            let lt = filled s v some in
            away v lt (rw (ltb-in v lt) at some) (rw (ltb-in v lt) at same))
      ∙ ap (λ (g : ℕ → ℕ). g vid) (vtu_op-flush b k d).1

  hw_apply-Programmed :
      (vid i q : ℕ)
      → IsDistinct s.vlan_id s.vlan_table max_vlans
      → s.vlan ≡ true
      → i < 6
      → q < 6
      → Programmed s.vlan_id s.vlan_table max_vlans vid i q
          (dest_bit_sw b k (hw_apply b s d) i q)
          (entry vid)
  hw_apply-Programmed vid i q distinct on hi hq = record {
    own = λ u hu full same. rw (sym same) (entry-own u distinct on hu full);
    other = entry-other vid on;
    apart = dest-apart b k s f d i q hi hq on;
    met = λ u hu both.
        dest-met b k s f d i q hi hq on
          (record { at = u; from = omega arith; below = omega (arith, hu); members = both });
  }

  -- On a chip that behaves as `Asic` and `Forwarding` say, whose translation unit is done after at
  -- most four reads, with VLANs on, VLAN ids below 4096, no id that two VLANs with members have, and
  -- PVIDs of the table: after `ar7240_hw_apply` the VLANs let a packet of VLAN `vid` pass from one of
  -- the six ports to another exactly when the two differ and are both members of a VLAN of the table
  -- whose id is `vid`.
  pub hw_apply-passes_sw :
      (w : Forwarding k) (vid i q : ℕ)
      → IsDistinct s.vlan_id s.vlan_table max_vlans
      → s.vlan ≡ true
      → i < 6
      → q < 6
      → (w.passes (hw_apply b s d) vid i q ≡ true)
        ↔ Carries s.vlan_id s.vlan_table max_vlans vid i q
  hw_apply-passes_sw w vid i q distinct on hi hq =
      let done = hw_apply b s d in
      let regs = (k.store done).regs in
      let same : Apply.reg_port_vlan i ≡ reg_port_vlan i = omega arith in
      let secure =
        ap (λ (a : ℕ). is_secure (regs a)) same ∙ hw_apply-secure b k s f d i q hi hq on in
      let in_unit = has_bit (entry vid) 11 && (has_bit (entry vid) i && has_bit (entry vid) q) in
      let rule =
        w.secure done vid i q secure ∙ ap (λ (a : ℕ). has_bit (regs a) (16 + q) && in_unit) same in
      let spec =
        through_iff s.vlan_id s.vlan_table max_vlans vid i q hi hq _ _
          (hw_apply-Programmed vid i q distinct on hi hq) in
      (λ h. spec.0 (sym rule ∙ h), λ c. rule ∙ spec.1 c)
