-- ===== src/Rtl8366/Fids.antt =====
-- The handlers of the filtering database of a VLAN.
use native.Mathlib.Nat.{mod-eq_of_lt}
use wair_os.Base.{
  ℕ, zero, suc, ◌+◌, ◌^◌, ◌<◌, ◌≤◌, ◌≡◌, refl, sym, ◌∙◌, arith, ap, ltb, true, false, ok,
  and_then-ok, pure, update_self,
}
use wair_os.Vlan.{Vlan4k, Ops, Smi, on_dev, set_vlan}
use wair_os.Vlan.View.{View, Gives, Tables}
use wair_os.Vlan.SetVlan.{
  Setting, SettingFits, narrowed, set_4k_entry, vlan_set, vlan-vlan_set, set_vlan_lem,
}
use wair_os.Rtl8366.Handlers.{Attr, ports_from, sw_get_vlan_fid, sw_set_vlan_fid, sw_get_vlan_ports}

-- The ports do not depend on the FID.
ports_from-fid :
    (v : Vlan4k) (i left k : ℕ) → ports_from (record v { fid = i }) left k ≡ ports_from v left k
unfolding ports_from
ports_from-fid v i zero k = refl
ports_from-fid v i (suc left) k = rw (ports_from-fid v i left (k + 1))

module _ {D : Type 0} (o : Ops D) (t : Tables o) (attr : Attr) (vlan i : ℕ) (s : Smi D)
    (valid : o.is_vlan_valid s.vlan4k_enabled vlan ≡ true) (hv : vlan < 4096) (few : attr.max < 8)
    (in_range : i ≤ attr.max) where
  abbrev old : Vlan4k
  old = (t.view s.dev).vlan vlan

  abbrev d₁ : D
  d₁ = (o.get_vlan_4k vlan s.dev).1

  abbrev c : Setting
  c = record { member = old.member; untag = old.untag; fid = i }

  fits : SettingFits t.masks (narrowed c)
  fits = omega (arith, t.vlan_fits vlan s.dev hv, t.masks_most)

  read : Gives t.view (ok old) (t.view s.dev) (o.get_vlan_4k vlan s.dev)
  read = t.get_4k vlan s.dev hv

  abbrev s₂ : Smi D
  s₂ = record s { dev = (set_vlan o vlan c.member c.untag c.fid d₁).1 }

  g :
      Gives t.view
        (ok tt)
        (vlan_set o.num_vlan_mc (t.view d₁) vlan (narrowed c))
        (set_vlan o vlan c.member c.untag c.fid d₁)
  g = set_vlan_lem o t vlan c d₁ hv fits

  within : ltb attr.max i ≡ false
  within = ground arith

  runs : sw_set_vlan_fid o attr vlan i s ≡ (ok tt, s₂)
  unfolding sw_set_vlan_fid
  runs = rw (
    valid,
    within,
    and_then-ok (λ (v : Vlan4k). on_dev (set_vlan o vlan v.member v.untag i))
        (on_dev (o.get_vlan_4k vlan) s) read.outcome,
    g.outcome,
  )

  entry : (t.view s₂.dev).vlan vlan ≡ set_4k_entry old (narrowed c)
  entry =
      ap (λ (v : View). v.vlan vlan) g.tables
      ∙ ap (λ (f : ℕ → Vlan4k). f vlan) (vlan-vlan_set o.num_vlan_mc (t.view d₁) vlan (narrowed c))
      ∙ update_self (t.view d₁).vlan vlan (set_4k_entry ((t.view d₁).vlan vlan) (narrowed c))
      ∙ ap (λ (v : View). set_4k_entry (v.vlan vlan) (narrowed c)) read.tables

  same : set_4k_entry old (narrowed c) ≡ record old { fid = i }
  same = rw (
    mod-eq_of_lt {n = old.member} {m = 2 ^ 8}
        (omega (arith, t.vlan_fits vlan s.dev hv, t.masks_most)),
    mod-eq_of_lt {n = old.untag} {m = 2 ^ 8}
        (omega (arith, t.vlan_fits vlan s.dev hv, t.masks_most)),
    mod-eq_of_lt {n = i} {m = 2 ^ 8} (omega arith),
  )

  answer :
      (d : D) (v : Vlan4k)
      → (t.view d).vlan vlan ≡ v
      → ((sw_get_vlan_fid o vlan (record s { dev = d })).0 ≡ ok v.fid)
        × ((sw_get_vlan_ports o vlan (record s { dev = d })).0 ≡ ok (ports_from v o.num_ports 0))
  unfolding sw_get_vlan_fid sw_get_vlan_ports
  answer d v h = (
    rw (
      valid,
      and_then-ok (λ (v : Vlan4k). pure v.fid) (on_dev (o.get_vlan_4k vlan) (record s { dev = d }))
          (t.get_4k vlan d hv).outcome,
      h,
    ),
    rw (valid, (t.get_4k vlan d hv).outcome, h),
  )

  -- For a VLAN that the chip accepts and a value up to the attribute's maximum, which is at most
  -- 7: setting the FID returns 0, reading the FID then gives the value, and listing the ports of
  -- the VLAN gives what it gave before.
  pub sw_get_vlan_fid-sw_set_vlan_fid :
      ((sw_set_vlan_fid o attr vlan i s).0 ≡ ok tt)
      × ((sw_get_vlan_fid o vlan (sw_set_vlan_fid o attr vlan i s).1).0 ≡ ok i)
      × ((sw_get_vlan_ports o vlan (sw_set_vlan_fid o attr vlan i s).1).0
          ≡ (sw_get_vlan_ports o vlan s).0)
  sw_get_vlan_fid-sw_set_vlan_fid =
      let after = answer s₂.dev (record old { fid = i }) (entry ∙ same) in
      rw runs (
        refl,
        after.0,
        after.1 ∙ ap ok (ports_from-fid old i o.num_ports 0) ∙ sym (answer s.dev old refl).1,
      )
