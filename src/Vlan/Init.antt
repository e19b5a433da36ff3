-- ===== src/Vlan/Init.antt =====
-- `rtl8366_init_vlan`: a VLAN of its own for each port, with the CPU port.
use native.Mathlib.Nat.{mod-eq_of_lt, add-zero}
use wair_os.Base.{
  ℕ, zero, suc, ◌+◌, ◌^◌, ◌<◌, ◌≤◌, ◌≡◌, refl, false, ◌==◌, ==_iff, ok, ◌>>◌, and_then-ok, arith,
  Bool-cases, inl, inr, ap, ◌∙◌, bit, bit_or-lt, pow_mono, update_self, update_ne,
}
use wair_os.Vlan.{Mc, Vlan4k, Ops, u8, set_vlan, set_pvid, port_mask, init_from}
use wair_os.Vlan.View.{View, Gives, Tables}
use wair_os.Vlan.Pvid.{Choice, is_blank, assigned, Assigned, set_pvid_lem}
use wair_os.Vlan.Effect.{pvid, Choice-vid, Choice-keeps, pvid-assigned_self, pvid-assigned_ne}
use wair_os.Vlan.Coherent.{IsCoherent, assigned-IsCoherent}
use wair_os.Vlan.SetVlan.{
  Setting, SettingFits, narrowed, set_4k_entry, vlan_set, vlan_set-IsCoherent, vlan-vlan_set,
  pvid-vlan_set, set_vlan_lem,
}

not_blank : (m : Mc) (k : ℕ) → m.vid ≡ k + 1 → is_blank m ≡ false
not_blank m k h = ground arith

module _ {D : Type 0} (o : Ops D) (t : Tables o) where
  -- The first `k` ports are set up: port `j` has PVID `j + 1`, and that VLAN has the ports of its
  -- mask, all untagged.
  pub record Setup (k : ℕ) (v : View) : Type 0 where
    pub pvids : (j : ℕ) → j < k → pvid v j ≡ j + 1
    pub members : (j : ℕ) → j < k → (v.vlan (j + 1)).member ≡ port_mask o j
    pub untags : (j : ℕ) → j < k → (v.vlan (j + 1)).untag ≡ port_mask o j
    pub coherent : IsCoherent o.num_vlan_mc v

  port_mask-lt : (p : ℕ) → p < o.num_ports → port_mask o p < 64
  port_mask-lt p h = elim (Bool-cases (p == o.cpu_port)) [
    | inl e ↦ rw e (omega (arith, pow_mono o.num_ports 6 t.few_ports))
    | inr e ↦
        rw e (bit_or-lt 6 (bit p) (bit o.cpu_port) (below_64 p h) (below_64 o.cpu_port t.cpu_in))
  ]
    where
      below_64 : (q : ℕ) → q < o.num_ports → 2 ^ q < 64
      below_64 q lt = omega (arith, pow_mono q 5 (omega (arith, t.few_ports)))

  abbrev own : ℕ → Setting
  own p = record { member = port_mask o p; untag = port_mask o p; fid = 0 }

  own_fits : (p : ℕ) → p < o.num_ports → SettingFits t.masks (narrowed (own p))
  own_fits p h = omega (arith, port_mask-lt p h, t.masks_least)

  module _ (p : ℕ) (v : View) (h : p < o.num_ports) (before : Setup p v) where
    abbrev v₁ : View
    v₁ = vlan_set o.num_vlan_mc v (p + 1) (narrowed (own p))

    entry_at : v₁.vlan (p + 1) ≡ set_4k_entry (v.vlan (p + 1)) (narrowed (own p))
    entry_at =
        ap (λ (f : ℕ → Vlan4k). f (p + 1))
          (vlan-vlan_set o.num_vlan_mc v (p + 1) (narrowed (own p)))
        ∙ update_self v.vlan (p + 1) (set_4k_entry (v.vlan (p + 1)) (narrowed (own p)))

    other_at : (j : ℕ) → j < p → v₁.vlan (j + 1) ≡ v.vlan (j + 1)
    other_at j lt =
        ap (λ (f : ℕ → Vlan4k). f (j + 1))
          (vlan-vlan_set o.num_vlan_mc v (p + 1) (narrowed (own p)))
        ∙ update_ne v.vlan (p + 1) (j + 1) (set_4k_entry (v.vlan (p + 1)) (narrowed (own p)))
            (λ e. absurd (omega (arith, e)))

    same_mask : u8 (port_mask o p) ≡ port_mask o p
    same_mask = mod-eq_of_lt {n = port_mask o p} {m = 2 ^ 8} (omega (arith, port_mask-lt p h))

    set_vlan-pvids : (j : ℕ) → j < p → pvid v₁ j ≡ j + 1
    set_vlan-pvids j lt =
        pvid-vlan_set o.num_vlan_mc v (p + 1) (narrowed (own p)) j ∙ before.pvids j lt

    set_vlan-IsCoherent : IsCoherent o.num_vlan_mc v₁
    set_vlan-IsCoherent =
        vlan_set-IsCoherent o.num_vlan_mc v (p + 1) (narrowed (own p)) before.coherent

    -- One more port: what holds of the earlier ports, and what was written for this one.
    and_port :
        (f : Vlan4k → ℕ)
        → f (v₁.vlan (p + 1)) ≡ port_mask o p
        → ((j : ℕ) → j < p → f (v.vlan (j + 1)) ≡ port_mask o j)
        → (j : ℕ) → j < p + 1
        → f (v₁.vlan (j + 1)) ≡ port_mask o j
    and_port f new old j lt = elim (Bool-cases (j == p)) [
      | inl e ↦ rw ((==_iff j p).0 e) new
      | inr e ↦ let lt' : j < p = ground arith in ap f (other_at j lt') ∙ old j lt'
    ]

    set_pvid-Setup :
        (i : ℕ) (e : Mc)
        → i < o.num_vlan_mc
        → Choice o.num_ports o.num_vlan_mc v₁ (p + 1) i e
        → Setup (p + 1) (assigned v₁ p i e)
    set_pvid-Setup i e lt c = record {
      pvids = λ j hj. elim (Bool-cases (j == p)) [
        | inl s ↦ rw ((==_iff j p).0 s) (pvid-assigned_self v₁ p i e ∙ Choice-vid c)
        | inr s ↦
            let lt' : j < p = ground arith in
            pvid-assigned_ne v₁ p i e j (λ x. absurd (omega (arith, x, lt')))
            ∙ Choice-keeps j (omega (arith, lt'))
                (not_blank (v₁.mc (v₁.index j)) j (set_vlan-pvids j lt')) c
            ∙ set_vlan-pvids j lt'
      ];
      members =
          and_port (λ w. w.member) (ap (λ (w : Vlan4k). w.member) entry_at ∙ same_mask)
            before.members;
      untags =
          and_port (λ w. w.untag) (ap (λ (w : Vlan4k). w.untag) entry_at ∙ same_mask) before.untags;
      coherent = assigned-IsCoherent v₁ p (p + 1) i e lt set_vlan-IsCoherent c;
    }

  -- The loop sets up the ports that are left, from any tables that cohere.
  pub init_from-Setup :
      (left p : ℕ) (d : D)
      → o.num_ports < o.num_vlan_mc
      → p + left ≤ o.num_ports
      → Setup p (t.view d)
      → ((init_from o left p d).0 ≡ ok tt) × Setup (p + left) (t.view (init_from o left p d).1)
  unfolding init_from
  init_from-Setup zero p d more h s = (refl, rw (add-zero p) s)
  init_from-Setup (suc left) p d more h s =
      rw
        (
          and_then-ok (λ _. set_pvid o p (p + 1) >> init_from o left (p + 1))
              (set_vlan o (p + 1) (port_mask o p) (port_mask o p) 0 d) a.outcome,
          and_then-ok (λ _. init_from o left (p + 1)) (set_pvid o p (p + 1) d₁) b.gives.outcome,
          one_more,
        )
        (init_from-Setup left (p + 1) d₂ more (omega arith) next)
    where
      a :
          Gives t.view
            (ok tt)
            (v₁ p (t.view d) (omega arith) s)
            (set_vlan o (p + 1) (port_mask o p) (port_mask o p) 0 d)
      a = set_vlan_lem o t (p + 1) (own p) d (omega (arith, t.few_ports)) (own_fits p (omega arith))

      d₁ : D
      d₁ = (set_vlan o (p + 1) (port_mask o p) (port_mask o p) 0 d).1

      b : Assigned o t p (p + 1) d₁ (set_pvid o p (p + 1) d₁)
      b = set_pvid_lem o t p (p + 1) d₁ (omega arith) (omega (arith, t.few_ports)) more

      d₂ : D
      d₂ = (set_pvid o p (p + 1) d₁).1

      next : Setup (p + 1) (t.view d₂)
      next =
          rw (b.gives.tables, a.tables)
            (set_pvid-Setup p (t.view d) (omega arith) s b.slot b.entry b.in_table
              (rw a.tables at b.choice))

      one_more : p + suc left ≡ p + 1 + left
      one_more = omega arith
