-- ===== src/Ar7240/Same.antt =====
-- The handlers of ag71xx_ar7240.c and those of ar8216.c side by side.
use wair_os.Base.{
  ℕ, zero, suc, ◌+◌, ◌<◌, ◌≡◌, refl, sym, ◌∙◌, ap, arith, bit_and, ◌==◌, if◌then◌else◌, Bool-cases,
  inl, inr, List, [], ◌∷◌, update, each-in,
}
use wair_os.Rtl8366.Handlers.{SwitchPort, tagged}
use wair_os.Ar8216
use wair_os.Ar8216.{Priv, cleared, marked}
use wair_os.Ar7240.{Sw, max_vlans, ports_from, get_ports, drop, place, join, place_all, set_ports}

-- The states of the two drivers agree on the first sixteen VLANs.
pub record Same (p : Priv) (s : Sw) : Type 0 where
  pub vlan : p.vlan ≡ s.vlan
  pub vlan_id : (v : ℕ) → v < max_vlans → p.vlan_id v ≡ s.vlan_id v
  pub vlan_table : (v : ℕ) → v < max_vlans → p.vlan_table v ≡ s.vlan_table v
  pub vlan_tagged : p.vlan_tagged ≡ s.vlan_tagged
  pub pvid : p.pvid ≡ s.pvid

-- The inner loops, on tables that agree.
drop_same :
    (vlan id : ℕ) (t u : ℕ → ℕ)
    → ((v : ℕ) → v < max_vlans → t v ≡ u v)
    → (v : ℕ) → v < max_vlans
    → Ar8216.drop vlan id t v ≡ drop vlan id u v
unfolding Ar8216.drop drop
drop_same vlan id t u h v hv =
    each-in _ Ar8216.max_vlans 0 t v (omega arith) (omega (arith, hv))
    ∙ ap (λ (x : ℕ). if v == vlan then x else cleared x id) (h v hv)
    ∙ sym (each-in _ max_vlans 0 u v (omega arith) (omega (arith, hv)))

pub update_same :
    (t u : ℕ → ℕ) (a x y : ℕ)
    → ((v : ℕ) → v < max_vlans → t v ≡ u v)
    → x ≡ y
    → (v : ℕ) → v < max_vlans
    → update t a x v ≡ update u a y v
update_same t u a x y h e v hv = elim (Bool-cases (v == a)) [
  | inl f ↦ rw f e
  | inr f ↦ rw f (h v hv)
]

place-Same :
    (vlan : ℕ) (port : SwitchPort) (p : Priv) (s : Sw)
    → Same p s
    → Same (Ar8216.place vlan port p) (place vlan port s)
unfolding Ar8216.place place
place-Same vlan port p s m = elim (Bool-cases (bit_and port.flags tagged == 0)) [
  | inl e ↦ rw e (record {
    vlan = m.vlan;
    vlan_id = m.vlan_id;
    vlan_table = drop_same vlan port.id p.vlan_table s.vlan_table m.vlan_table;
    vlan_tagged = ap (λ (x : ℕ). cleared x port.id) m.vlan_tagged;
    pvid = ap (λ (f : ℕ → ℕ). update f port.id vlan) m.pvid;
  })
  | inr e ↦ rw e (record {
    vlan = m.vlan;
    vlan_id = m.vlan_id;
    vlan_table = m.vlan_table;
    vlan_tagged = ap (λ (x : ℕ). marked x port.id) m.vlan_tagged;
    pvid = m.pvid;
  })
]

join-Same :
    (vlan id : ℕ) (p : Priv) (s : Sw)
    → vlan < max_vlans
    → Same p s
    → Same (Ar8216.join vlan id p) (join vlan id s)
unfolding Ar8216.join join
join-Same vlan id p s h m = record {
  vlan = m.vlan;
  vlan_id = m.vlan_id;
  vlan_table =
      update_same p.vlan_table s.vlan_table vlan _ _ m.vlan_table
        (ap (λ (x : ℕ). marked x id) (m.vlan_table vlan h));
  vlan_tagged = m.vlan_tagged;
  pvid = m.pvid;
}

place_all-Same :
    (vlan : ℕ) (ps : List SwitchPort) (p : Priv) (s : Sw)
    → vlan < max_vlans
    → Same p s
    → Same (Ar8216.place_all vlan ps p) (place_all vlan ps s)
unfolding Ar8216.place_all place_all
place_all-Same vlan [] p s h m = m
place_all-Same vlan (port ∷ rest) p s h m =
    place_all-Same vlan rest _ _ h (join-Same vlan port.id _ _ h (place-Same vlan port p s m))

pub set_ports-Same :
    (vlan : ℕ) (ps : List SwitchPort) (p : Priv) (s : Sw)
    → vlan < max_vlans
    → Same p s
    → Same (Ar8216.set_ports vlan ps p) (set_ports vlan ps s)
unfolding Ar8216.set_ports set_ports
set_ports-Same vlan ps p s h m = place_all-Same vlan ps _ _ h (record {
  vlan = m.vlan;
  vlan_id = m.vlan_id;
  vlan_table = update_same p.vlan_table s.vlan_table vlan 0 0 m.vlan_table refl;
  vlan_tagged = m.vlan_tagged;
  pvid = m.pvid;
})

ports_from_eq :
    (p : Priv) (s : Sw) (ports left i : ℕ)
    → Same p s
    → Ar8216.ports_from p ports left i ≡ ports_from s ports left i
unfolding Ar8216.ports_from ports_from
ports_from_eq p s ports zero i m = refl
ports_from_eq p s ports (suc left) i m =
    rw (m.vlan_tagged, ports_from_eq p s ports left (i + 1) m) refl

pub get_ports_eq :
    (vlan : ℕ) (p : Priv) (s : Sw)
    → vlan < max_vlans
    → Same p s
    → Ar8216.get_ports vlan p ≡ get_ports vlan s
unfolding Ar8216.get_ports get_ports
get_ports_eq vlan p s h m =
    ap (λ (x : ℕ). Ar8216.ports_from p x 6 0) (m.vlan_table vlan h)
    ∙ ports_from_eq p s (s.vlan_table vlan) 6 0 m
