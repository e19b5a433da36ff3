-- ===== src/Rtl8366/Ports.antt =====
-- The handlers that set and list the ports of a VLAN.
use wair_os.Base.{
  ℕ, ◌<◌, ◌≡◌, refl, ◌∙◌, ap, ◌==◌, if◌then◌else◌, List, [], ◌∷◌, Outcome, ok, and_then-ok, bit,
  bit_and, bit_or,
}
use wair_os.Vlan.{Ops, set_pvid}
use wair_os.Vlan.View.{View, Tables}
use wair_os.Vlan.Pvid.{Assigned, set_pvid_lem}
use wair_os.Vlan.Coherent.{IsCoherent, assigned-IsCoherent}
use wair_os.Rtl8366.Handlers.{SwitchPort, tagged, add_ports}

-- The ports of the list are ports of the switch.
abbrev pub AllBelow : ℕ → List SwitchPort → Type 0
AllBelow n [] = Unit {0}
AllBelow n (p ∷ ps) = (p.id < n) × AllBelow n ps

-- The masks that the loop computes.
abbrev pub member_mask : List SwitchPort → ℕ → ℕ
member_mask [] m = m
member_mask (p ∷ ps) m = member_mask ps (bit_or m (bit p.id))

abbrev pub untag_mask : List SwitchPort → ℕ → ℕ
untag_mask [] u = u
untag_mask (p ∷ ps) u =
    untag_mask ps (if bit_and p.flags tagged == 0 then bit_or u (bit p.id) else u)

module _ {D : Type 0} (o : Ops D) (t : Tables o) (vlan : ℕ) (hv : vlan < 4096)
    (more : o.num_ports < o.num_vlan_mc) where
  -- What the loop leaves: the masks, an unchanged 4K table, and a coherent MC table.
  pub record Added (ps : List SwitchPort) (m u : ℕ) (d : D) (r : Outcome (ℕ × ℕ) × D) : Type 0 where
    pub outcome : r.0 ≡ ok (member_mask ps m, untag_mask ps u)
    pub same_vlan : (t.view r.1).vlan ≡ (t.view d).vlan
    pub coherent : IsCoherent o.num_vlan_mc (t.view r.1)

  pub add_ports_lem :
      (ps : List SwitchPort) (m u : ℕ) (d : D)
      → AllBelow o.num_ports ps
      → IsCoherent o.num_vlan_mc (t.view d)
      → Added ps m u d (add_ports o vlan ps m u d)
  unfolding add_ports
  add_ports_lem [] m u d h c = record { outcome = refl; same_vlan = refl; coherent = c }
  add_ports_lem (p ∷ ps) m u d h c =
      let rest =
        add_ports_lem ps (bit_or m (bit p.id))
          (if bit_and p.flags tagged == 0 then bit_or u (bit p.id) else u) d₁ (h.1) c₁ in
      rw
        (and_then-ok
          (λ _.
            add_ports o vlan ps (bit_or m (bit p.id))
              (if bit_and p.flags tagged == 0 then bit_or u (bit p.id) else u))
          (set_pvid o p.id vlan d) a.gives.outcome)
        (record {
          outcome = rest.outcome;
          same_vlan = rest.same_vlan ∙ ap (λ (v : View). v.vlan) a.gives.tables;
          coherent = rest.coherent;
        })
    where
      a : Assigned o t p.id vlan d (set_pvid o p.id vlan d)
      a = set_pvid_lem o t p.id vlan d (h.0) hv more

      d₁ : D
      d₁ = (set_pvid o p.id vlan d).1

      c₁ : IsCoherent o.num_vlan_mc (t.view d₁)
      c₁ =
          rw a.gives.tables
            (assigned-IsCoherent (t.view d) p.id vlan a.slot a.entry a.in_table c a.choice)
