-- ===== src/Vlan/Scan.antt =====
-- The searches of the VLAN code, on the tables themselves.
use wair_os.Base.{
  ℕ, zero, suc, ◌+◌, ◌≤◌, refl, Bool, true, false, Option, none, some, ◌==◌, ok, arith, Bool-cases,
  inl, inr,
}
use wair_os.Vlan.{Mc, Ops, find_mc, is_used_from, mc_is_used, find_unused}
use wair_os.Vlan.View.{Gives, Gives->>=, Tables}

unfoldable pub scan : (Mc → Bool) → (ℕ → Mc) → ℕ → ℕ → Mc → Option ℕ × Mc
scan test f zero i held = (none, held)
scan test f (suc left) i held = elim (test (f i)) [
  | true ↦ (some i, f i)
  | false ↦ scan test f left (i + 1) (f i)
]

unfoldable pub uses : (ℕ → ℕ) → ℕ → ℕ → ℕ → Bool
uses index i zero port = false
uses index i (suc left) port = elim (i == index port) [
  | true ↦ true
  | false ↦ uses index i left (port + 1)
]

unfoldable pub first_unused : (ℕ → ℕ) → ℕ → ℕ → ℕ → Option ℕ
first_unused index ports zero i = none
first_unused index ports (suc left) i = elim (uses index i ports 0) [
  | true ↦ first_unused index ports left (i + 1)
  | false ↦ some i
]

module _ {D : Type 0} (o : Ops D) (t : Tables o) where
  pub find_mc-Gives :
      (test : Mc → Bool) (left i : ℕ) (held : Mc) (d : D)
      → i + left ≤ o.num_vlan_mc
      → Gives t.view
          (ok (scan test (t.view d).mc left i held))
          (t.view d)
          (find_mc o test left i held d)
  unfolding find_mc scan
  find_mc-Gives test zero i held d h = record { outcome = refl; tables = refl }
  find_mc-Gives test (suc left) i held d h =
      let g = t.get_mc i d (omega arith) in
      let rest =
        find_mc-Gives test left (i + 1) ((t.view d).mc i) (o.get_vlan_mc i d).1 (omega arith) in
      Gives->>= (o.get_vlan_mc i) _ g (elim (Bool-cases (test ((t.view d).mc i))) [
        | inl e ↦ rw (e, scan) (record { outcome = refl; tables = g.tables })
        | inr e ↦ rw (e, scan) (rw g.tables at rest)
      ])

  is_used_from-Gives :
      (mc_index left port : ℕ) (d : D)
      → port + left ≤ o.num_ports
      → Gives t.view
          (ok (uses (t.view d).index mc_index left port))
          (t.view d)
          (is_used_from o mc_index left port d)
  unfolding is_used_from uses
  is_used_from-Gives mc_index zero port d h = record { outcome = refl; tables = refl }
  is_used_from-Gives mc_index (suc left) port d h =
      let g = t.get_index port d (omega arith) in
      let rest =
        is_used_from-Gives mc_index left (port + 1) (o.get_mc_index port d).1 (omega arith) in
      Gives->>= (o.get_mc_index port) _ g (elim (Bool-cases (mc_index == (t.view d).index port)) [
        | inl e ↦ rw (e, uses) (record { outcome = refl; tables = g.tables })
        | inr e ↦ rw (e, uses) (rw g.tables at rest)
      ])

  pub mc_is_used-Gives :
      (i : ℕ) (d : D)
      → Gives t.view (ok (uses (t.view d).index i o.num_ports 0)) (t.view d) (mc_is_used o i d)
  unfolding mc_is_used
  mc_is_used-Gives i d = is_used_from-Gives i o.num_ports 0 d (omega arith)

  pub find_unused-Gives :
      (left i : ℕ) (d : D)
      → Gives t.view
          (ok (first_unused (t.view d).index o.num_ports left i))
          (t.view d)
          (find_unused o left i d)
  unfolding find_unused first_unused
  find_unused-Gives zero i d = record { outcome = refl; tables = refl }
  find_unused-Gives (suc left) i d =
      let g = mc_is_used-Gives i d in
      let rest = find_unused-Gives left (i + 1) (mc_is_used o i d).1 in
      Gives->>= (mc_is_used o i) _ g (elim (Bool-cases (uses (t.view d).index i o.num_ports 0)) [
        | inl e ↦ rw (e, first_unused) (rw g.tables at rest)
        | inr e ↦ rw (e, first_unused) (record { outcome = refl; tables = g.tables })
      ])
