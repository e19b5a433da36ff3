-- ===== src/Rtl8366/Roundtrip.antt =====
-- Setting the ports of a VLAN, and listing them.
use native.Mathlib.Nat.{mod-eq_of_lt}
use wair_os.Base.{
  ℕ, ◌^◌, ◌<◌, ◌≡◌, refl, ◌∙◌, arith, ap, true, false, List, ok, einval, err, and_then-ok,
  update_self,
}
use wair_os.Vlan.{Vlan4k, Ops, Smi, on_dev, set_vlan}
use wair_os.Vlan.View.{View, Gives, Tables}
use wair_os.Vlan.Coherent.{IsCoherent}
use wair_os.Vlan.SetVlan.{
  Setting, narrowed, set_4k_entry, vlan_set, vlan_set-IsCoherent, vlan-vlan_set, set_vlan_lem,
}
use wair_os.Rtl8366.Handlers.{
  SwitchPort, add_ports, ports_from, sw_set_vlan_ports, sw_get_vlan_ports,
}
use wair_os.Rtl8366.Ports.{AllBelow, member_mask, untag_mask, Added, add_ports_lem}
use wair_os.Rtl8366.Listing.{listing, member_mask-lt, untag_mask-lt, ports_from-listing}

module _ {D : Type 0} (o : Ops D) (t : Tables o) (vlan : ℕ) (ps : List SwitchPort) (s : Smi D) where
  -- A VLAN that the chip refuses gives -EINVAL, and nothing changes.
  pub sw_set_vlan_ports-einval :
      o.is_vlan_valid s.vlan4k_enabled vlan ≡ false
      → (sw_set_vlan_ports o vlan ps s ≡ (err einval, s))
        × (sw_get_vlan_ports o vlan s ≡ (err einval, s))
  unfolding sw_set_vlan_ports sw_get_vlan_ports
  sw_set_vlan_ports-einval h = (rw h, rw h)

  module _ (valid : o.is_vlan_valid s.vlan4k_enabled vlan ≡ true) (hv : vlan < 4096)
      (more : o.num_ports < o.num_vlan_mc) (below : AllBelow o.num_ports ps)
      (coherent : IsCoherent o.num_vlan_mc (t.view s.dev)) where
    a : Added o t vlan hv more ps 0 0 s.dev (add_ports o vlan ps 0 0 s.dev)
    a = add_ports_lem o t vlan hv more ps 0 0 s.dev below coherent

    abbrev d₁ : D
    d₁ = (add_ports o vlan ps 0 0 s.dev).1

    abbrev c : Setting
    c = record { member = member_mask ps 0; untag = untag_mask ps 0; fid = 0 }

    member_fits : member_mask ps 0 < 64
    member_fits = member_mask-lt o.num_ports ps 0 t.few_ports below (omega arith)

    untag_fits : untag_mask ps 0 < 64
    untag_fits = untag_mask-lt o.num_ports ps 0 t.few_ports below (omega arith)

    g :
        Gives t.view
          (ok tt)
          (vlan_set o.num_vlan_mc (t.view d₁) vlan (narrowed c))
          (set_vlan o vlan c.member c.untag c.fid d₁)
    g = set_vlan_lem o t vlan c d₁ hv (omega (arith, member_fits, untag_fits, t.masks_least))

    abbrev s₂ : Smi D
    s₂ = record s { dev = (set_vlan o vlan c.member c.untag c.fid d₁).1 }

    runs : sw_set_vlan_ports o vlan ps s ≡ (ok tt, s₂)
    unfolding sw_set_vlan_ports
    runs = rw (
      valid,
      and_then-ok (λ (masks : ℕ × ℕ). on_dev (set_vlan o vlan (masks.0) (masks.1) 0))
          (on_dev (add_ports o vlan ps 0 0) s) a.outcome,
      g.outcome,
    )

    entry : (t.view s₂.dev).vlan vlan ≡ set_4k_entry ((t.view d₁).vlan vlan) (narrowed c)
    entry =
        ap (λ (v : View). v.vlan vlan) g.tables
        ∙ ap (λ (f : ℕ → Vlan4k). f vlan)
            (vlan-vlan_set o.num_vlan_mc (t.view d₁) vlan (narrowed c))
        ∙ update_self (t.view d₁).vlan vlan (set_4k_entry ((t.view d₁).vlan vlan) (narrowed c))

    lists :
        (sw_get_vlan_ports o vlan s₂).0 ≡ ok (ports_from ((t.view s₂.dev).vlan vlan) o.num_ports 0)
    unfolding sw_get_vlan_ports
    lists = rw (valid, (t.get_4k vlan s₂.dev hv).outcome) refl

    -- For a VLAN that the chip accepts and ports of the switch, on coherent tables: setting the
    -- ports returns 0, the tables stay coherent, and listing the ports of the VLAN then gives the
    -- ports that were set, each once and in order, tagged unless some entry had it untagged.
    pub sw_get_vlan_ports-sw_set_vlan_ports :
        ((sw_set_vlan_ports o vlan ps s).0 ≡ ok tt)
        × IsCoherent o.num_vlan_mc (t.view (sw_set_vlan_ports o vlan ps s).1.dev)
        × ((sw_get_vlan_ports o vlan (sw_set_vlan_ports o vlan ps s).1).0
            ≡ ok (listing ps o.num_ports 0))
    sw_get_vlan_ports-sw_set_vlan_ports = rw runs (
      refl,
      rw g.tables (vlan_set-IsCoherent o.num_vlan_mc (t.view d₁) vlan (narrowed c) a.coherent),
      lists
          ∙ ap ok (
              ports_from-listing ps ((t.view s₂.dev).vlan vlan) o.num_ports 0
                (ap (λ (v : Vlan4k). v.member) entry
                  ∙ mod-eq_of_lt {n = member_mask ps 0} {m = 2 ^ 8} (omega (arith, member_fits)))
                (ap (λ (v : Vlan4k). v.untag) entry
                  ∙ mod-eq_of_lt {n = untag_mask ps 0} {m = 2 ^ 8} (omega (arith, untag_fits)))),
    )
