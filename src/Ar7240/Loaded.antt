-- ===== src/Ar7240/Loaded.antt =====
-- The VLANs that ar7240_hw_apply of ag71xx_ar7240.c loads into the translation unit: ar7240_vtu_op
-- is ar8216_vtu_op with a shorter wait.
use wair_os.Base.{
  ℕ, zero, suc, ◌+◌, ◌<◌, ◌≤◌, ◌≡◌, refl, ap, arith, bit_and, bit_or, ◌<<◌, true, false, ◌==◌,
  ==_iff, ltb, if◌then◌else◌, Bool-cases, inl, inr, ok,
}
use wair_os.Ar8216.{Priv, ar8216}
use wair_os.Ar8216.Mii.{Regs}
use wair_os.Ar8216.Apply
use wair_os.Ar8216.Asic.{Store, Asic}
use wair_os.Ar8216.Applied.{Fits}
use wair_os.Ar7240.{Sw, max_vlans}
use wair_os.Ar7240.Reg.{reg_wait}
use wair_os.Ar7240.Apply.{reg_vtu, vtu_active, spread, vtu_start, vtu_after, vtu_op, load_vlans}
use wair_os.Ar7240.Forwards.{FitsSw}

-- The fields as those of ar8216.c, without VLANs from the sixteenth on.
abbrev pub as_priv : Sw → Priv
as_priv s = record {
  chip = ar8216;
  vlan = s.vlan;
  vlan_id = λ j. if ltb j max_vlans then s.vlan_id j else 0;
  vlan_table = λ j. if ltb j max_vlans then s.vlan_table j else 0;
  vlan_tagged = s.vlan_tagged;
  pvid = s.pvid;
}

pub ltb-in : (j : ℕ) → j < max_vlans → ltb j max_vlans ≡ true
ltb-in j h = ground (arith, h)

pub in-ltb : (j : ℕ) → ltb j max_vlans ≡ true → j < max_vlans
in-ltb j h = ground (arith, h)

pub as_priv-Fits : (s : Sw) → FitsSw s → Fits (as_priv s)
as_priv-Fits s f = record {
  ids = λ j h. elim (Bool-cases (ltb j max_vlans)) [
    | inl e ↦ rw e (f.ids j (in-ltb j e))
    | inr e ↦ rw e (omega arith)
  ];
  pvid_in = λ q h. omega (arith, f.pvid_in q h);
}

module _ {D : Type 0} (b : Regs D) (k : Asic b) where
  -- An operation of the translation unit is over after at most four reads.
  abbrev pub IsQuick : Type 0
  IsQuick = (d : D) → (k.store d).busy ≤ 4

  idle_now : (d : D) → (k.store d).busy ≡ 0 → (bit_and (b.read reg_vtu d).0 vtu_active == 0) ≡ true
  idle_now d e = rw ((k.polls d).0, e) refl

  busy_now :
      (d : D)
      → ((k.store d).busy == 0) ≡ false
      → (bit_and (b.read reg_vtu d).0 vtu_active == 0) ≡ false
  busy_now d e = rw ((k.polls d).0, e) refl

  -- The two loops, when the operation is over in time for the shorter one.
  reg_wait-wait_loop :
      (left most : ℕ) (d : D)
      → left ≤ most
      → (k.store d).busy ≤ left
      → (reg_wait b reg_vtu vtu_active 0 (suc left) d
          ≡ (ok tt, (Apply.wait_loop b reg_vtu vtu_active 0 most d).1))
        × ((Apply.wait_loop b reg_vtu vtu_active 0 most d).0 ≡ false)
  unfolding reg_wait Apply.wait_loop
  reg_wait-wait_loop zero zero d le h =
      let now = idle_now d (omega (arith, h)) in rw now (refl, refl)
  reg_wait-wait_loop zero (suc most) d le h =
      let now = idle_now d (omega (arith, h)) in rw now (refl, refl)
  reg_wait-wait_loop (suc left) zero d le h = absurd (omega (arith, le))
  reg_wait-wait_loop (suc left) (suc most) d le h = elim (Bool-cases ((k.store d).busy == 0)) [
    | inl e ↦ let now = idle_now d ((==_iff _ _).0 e) in rw now (refl, refl)
    | inr e ↦
        let fewer : (k.store (b.read reg_vtu d).1).busy ≤ left =
          omega (arith, ap (λ (s : Store). s.busy) (k.polls d).1, h) in
        rw (busy_now d e)
          (reg_wait-wait_loop left most (b.read reg_vtu d).1 (omega (arith, le)) fewer)
  ]

  pub vtu_op_eq : IsQuick → (op val : ℕ) (d : D) → vtu_op b op val d ≡ Apply.vtu_op b op val d
  unfolding vtu_op vtu_after vtu_start Apply.vtu_op Apply.vtu_start Apply.wait_bit
  vtu_op_eq quick op val d =
      let w = reg_wait-wait_loop 4 20 d (omega arith) (quick d) in rw (w.0, w.1) refl

  pub load_vlans_eq :
      IsQuick
      → (s : Sw) (left j : ℕ) (r : (ℕ → ℕ) × D) → j + left ≤ max_vlans
      → load_vlans b s left j r ≡ Apply.load_vlans b (as_priv s) left j r
  unfolding load_vlans Apply.load_vlans spread Apply.spread
  load_vlans_eq quick s zero j r h = refl
  load_vlans_eq quick s (suc left) j r h =
      let here = ltb-in j (omega (arith, h)) in
      rw (here, vtu_op_eq quick (bit_or 2 (s.vlan_id j << 16)) (s.vlan_table j) r.1)
        (load_vlans_eq quick s left (j + 1) _ (omega (arith, h)))
