-- ===== src/Ar7240/Once.antt =====
-- The invariant of the tables of ag71xx_ar7240.c over the handlers that swconfig calls, which is
-- that of ar8216.c.
use wair_os.Base.{
  ℕ, ◌%◌, ◌^◌, ◌<◌, ◌≡◌, refl, sym, ◌∙◌, ap, arith, true, false, leb, ◌==◌, ==_iff, if◌then◌else◌,
  Bool-cases, inl, inr, List, update, update_at, has_bit, zero-has_bit,
}
use wair_os.Rtl8366.Handlers.{SwitchPort}
use wair_os.Rtl8366.Ports.{AllBelow}
use wair_os.Rtl8366.Listing.{untagged}
use wair_os.Ar8216
use wair_os.Ar8216.{Priv, ar8216}
use wair_os.Ar8216.Once
use wair_os.Ar8216.Once.{set_ports-IsOnce, set_ports-Assigned}
use wair_os.Ar8216.Listing.{listed, get_ports-set_ports}
use wair_os.Ar7240.{
  Sw, max_vlans, num_ports, set_vid, set_pvid, get_ports, set_ports, set_vlan, probed,
}
use wair_os.Ar7240.Same.{Same, update_same, set_ports-Same, get_ports_eq}

-- The same state in ar8216.c.
abbrev as_priv : Sw → Priv
as_priv s = record {
  chip = ar8216;
  vlan = s.vlan;
  vlan_id = s.vlan_id;
  vlan_table = s.vlan_table;
  vlan_tagged = s.vlan_tagged;
  pvid = s.pvid;
}

as_priv-Same : (s : Sw) → Same (as_priv s) s
as_priv-Same s = record {
  vlan = refl;
  vlan_id = λ v h. refl;
  vlan_table = λ v h. refl;
  vlan_tagged = refl;
  pvid = refl;
}

-- After `ar7240_set_ports` for a VLAN below 16 and ports of the switch, `ar7240_get_ports` lists the
-- ports that were named, in order and once each, tagged when the last entry for the port says so.
pub get_ports-set_ports_sw :
    (vlan : ℕ) (ps : List SwitchPort) (s : Sw)
    → vlan < max_vlans
    → AllBelow 6 ps
    → get_ports vlan (set_ports vlan ps s) ≡ listed ps num_ports 0
get_ports-set_ports_sw vlan ps s h below =
    sym (get_ports_eq vlan _ _ h (set_ports-Same vlan ps (as_priv s) s h (as_priv-Same s)))
    ∙ get_ports-set_ports vlan ps (as_priv s) (omega (arith, h)) below

-- A port that is not tagged is in at most one VLAN, and the PVIDs are numbers of VLANs.
pub record IsOnceSw (s : Sw) : Type 0 where
  pub once :
      (q u v : ℕ)
      → q < 6
      → u < max_vlans
      → v < max_vlans
      → has_bit s.vlan_tagged q ≡ false
      → has_bit (s.vlan_table u) q ≡ true
      → has_bit (s.vlan_table v) q ≡ true
      → u ≡ v
  pub pvid_in : (q : ℕ) → q < 6 → s.pvid q < max_vlans

-- A state of ar8216.c that agrees and has the invariant.
record Mirror (s : Sw) : Type 0 where
  priv : Priv
  same : Same priv s
  once : Once.IsOnce priv
  pvid_in : (q : ℕ) → q < 6 → s.pvid q < max_vlans

mirrored : (s : Sw) → Mirror s → IsOnceSw s
mirrored s m = record {
  once = λ q u v hq hu hv t a b.
      m.once.once q u v hq (omega (arith, hu)) (omega (arith, hv))
        (ap (λ (x : ℕ). has_bit x q) m.same.vlan_tagged ∙ t)
        (ap (λ (x : ℕ). has_bit x q) (m.same.vlan_table u hu) ∙ a)
        (ap (λ (x : ℕ). has_bit x q) (m.same.vlan_table v hv) ∙ b);
  pvid_in = m.pvid_in;
}

-- The states after `ar7240_probe` and calls of the handlers.
pub data SwCalls : Sw → Type 0 where
  probe : SwCalls probed
  mode : {s : Sw} (i : ℕ) → SwCalls s → SwCalls (set_vlan i s)
  vid : {s : Sw} (vlan i : ℕ) → SwCalls s → SwCalls (set_vid vlan i s)
  pvid : {s : Sw} (port vlan : ℕ) → port < 6 → SwCalls s → SwCalls (set_pvid port vlan s).1
  ports :
      {s : Sw} (vlan : ℕ) (ps : List SwitchPort)
      → vlan < max_vlans
      → AllBelow 6 ps
      → SwCalls s
      → SwCalls (set_ports vlan ps s)

probed-IsOnce : Once.IsOnce (as_priv probed)
probed-IsOnce = record {
  once = λ q u v hq hu hv t a b. first q u a ∙ sym (first q v b);
  pvid_in = λ q h. omega arith;
}
  where
    first : (q u : ℕ) → has_bit (if u == 0 then 0x3f else 0) q ≡ true → u ≡ 0
    first q u h = elim (Bool-cases (u == 0)) [
      | inl e ↦ (==_iff u 0).0 e
      | inr e ↦ absurd (cc (zero-has_bit q, (rw e at h)))
    ]

set_pvid-Mirror : (port vlan : ℕ) (s : Sw) → port < 6 → Mirror s → Mirror (set_pvid port vlan s).1
unfolding set_pvid Ar8216.set_pvid
set_pvid-Mirror port vlan s h m = elim (Bool-cases (leb max_vlans vlan)) [
  | inl e ↦ rw e m
  | inr e ↦ rw e (record {
    priv = record m.priv { pvid = update m.priv.pvid port vlan };
    same = record {
      vlan = m.same.vlan;
      vlan_id = m.same.vlan_id;
      vlan_table = m.same.vlan_table;
      vlan_tagged = m.same.vlan_tagged;
      pvid = ap (λ (f : ℕ → ℕ). update f port vlan) m.same.pvid;
    };
    once = record {
      once = m.once.once;
      pvid_in = λ q hq.
          update_at (λ j x. x < Ar8216.max_vlans) m.priv.pvid port q vlan (ground (arith, e))
            (λ ne. m.once.pvid_in q hq);
    };
    pvid_in = λ q hq.
        update_at (λ j x. x < max_vlans) s.pvid port q vlan (ground (arith, e))
          (λ ne. m.pvid_in q hq);
  })
]

set_ports-Mirror :
    (vlan : ℕ) (ps : List SwitchPort) (s : Sw)
    → vlan < max_vlans
    → AllBelow 6 ps
    → Mirror s
    → Mirror (set_ports vlan ps s)
set_ports-Mirror vlan ps s h below m =
    let hp : vlan < Ar8216.max_vlans = omega (arith, h) in
    let r = Ar8216.set_ports vlan ps m.priv in
    let same = set_ports-Same vlan ps m.priv s h m.same in
    record {
      priv = r;
      same = same;
      once = set_ports-IsOnce vlan ps m.priv hp below m.once;
      pvid_in = λ q hq.
          let a = (set_ports-Assigned vlan ps m.priv q hp hq below).pvids in
          let new : (set_ports vlan ps s).pvid q ≡ (if untagged ps q then vlan else m.priv.pvid q) =
            ap (λ (f : ℕ → ℕ). f q) (sym same.pvid) ∙ a in
          let old : m.priv.pvid q ≡ s.pvid q = ap (λ (f : ℕ → ℕ). f q) m.same.pvid in
          elim (Bool-cases (untagged ps q)) [
            | inl e ↦ rw (new, e) h
            | inr e ↦ rw (new, e, old) (m.pvid_in q hq)
          ];
    }

SwCalls-Mirror : (s : Sw) → SwCalls s → Mirror s
unfolding set_vlan set_vid
SwCalls-Mirror _ probe = record {
  priv = as_priv probed;
  same = as_priv-Same probed;
  once = probed-IsOnce;
  pvid_in = λ q h. omega arith;
}
SwCalls-Mirror _ (mode {s} i c) =
    let m = SwCalls-Mirror s c in
    record {
      priv = record m.priv { vlan = if i == 0 then false else true };
      same = record {
        vlan = refl;
        vlan_id = m.same.vlan_id;
        vlan_table = m.same.vlan_table;
        vlan_tagged = m.same.vlan_tagged;
        pvid = m.same.pvid;
      };
      once = record { once = m.once.once; pvid_in = m.once.pvid_in };
      pvid_in = m.pvid_in;
    }
SwCalls-Mirror _ (vid {s} vlan i c) =
    let m = SwCalls-Mirror s c in
    record {
      priv = record m.priv { vlan_id = update m.priv.vlan_id vlan (i % 2 ^ 16) };
      same = record {
        vlan = m.same.vlan;
        vlan_id = update_same m.priv.vlan_id s.vlan_id vlan _ _ m.same.vlan_id refl;
        vlan_table = m.same.vlan_table;
        vlan_tagged = m.same.vlan_tagged;
        pvid = m.same.pvid;
      };
      once = record { once = m.once.once; pvid_in = m.once.pvid_in };
      pvid_in = m.pvid_in;
    }
SwCalls-Mirror _ (pvid {s} port vlan h c) = set_pvid-Mirror port vlan s h (SwCalls-Mirror s c)
SwCalls-Mirror _ (ports {s} vlan ps h below c) =
    set_ports-Mirror vlan ps s h below (SwCalls-Mirror s c)

-- From the defaults of `ar7240_probe` on, whatever `ar7240_set_vlan`, `ar7240_set_vid`,
-- `ar7240_set_pvid` and `ar7240_set_ports` are called with, for ports of the switch and VLANs below
-- 16, a port that is not tagged is in at most one VLAN, and each PVID is the number of a VLAN.
pub SwCalls-IsOnceSw : (s : Sw) → SwCalls s → IsOnceSw s
SwCalls-IsOnceSw s c = mirrored s (SwCalls-Mirror s c)
