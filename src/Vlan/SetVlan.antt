-- ===== src/Vlan/SetVlan.antt =====
-- `rtl8366_set_vlan` against the tables, and the invariant under it.
use mathlib.Core.Path.{subst}
use wair_os.Base.{
  ℕ, ◌<◌, ◌≡◌, ◌≢◌, refl, Option, none, some, ==_iff, ok, arith, Option-cases, inl, inr, ap, sym,
  ◌∙◌, update, update_ne, update_at,
}
use wair_os.Vlan.{Mc, Vlan4k, Ops, u8, cleared, find_mc, set_vlan}
use wair_os.Vlan.View.{View, Gives, Gives->>=, Tables}
use wair_os.Vlan.Scan.{scan, find_mc-Gives}
use wair_os.Vlan.Search.{scan-Found, scan-none}
use wair_os.Vlan.Pvid.{has_vid}
use wair_os.Vlan.Effect.{pvid}
use wair_os.Vlan.Coherent.{Mirrors, Coherent-write, IsCoherent}

-- What `vid` gets: its ports, those that leave untagged, and its filtering database.
pub record Setting : Type 0 where
  pub member : ℕ
  pub untag : ℕ
  pub fid : ℕ

pub record SettingFits (w : ℕ) (c : Setting) : Type 0 where
  pub member_fits : c.member < w
  pub untag_fits : c.untag < w
  pub fid_fits : c.fid < 8

abbrev pub set_4k_entry : Vlan4k → Setting → Vlan4k
set_4k_entry v c = record v { member = c.member; untag = c.untag; fid = c.fid }

abbrev set_mc_entry : Mc → Setting → Mc
set_mc_entry m c = record m { member = c.member; untag = c.untag; fid = c.fid }

-- The 4K table takes the setting, and the MC entry of the VLAN, if it has one.
abbrev pub vlan_after : View → ℕ → Setting → ℕ → Vlan4k
vlan_after v vid c = update v.vlan vid (set_4k_entry (v.vlan vid) c)

abbrev hit : ℕ → View → ℕ → Option ℕ
hit mcs v vid = (scan (has_vid vid) v.mc mcs 0 cleared).0

unfoldable pub vlan_set : ℕ → View → ℕ → Setting → View
vlan_set mcs v vid c = elim (hit mcs v vid) [
  | some i ↦ record v { vlan = vlan_after v vid c; mc = update v.mc i (set_mc_entry (v.mc i) c) }
  | none ↦ record v { vlan = vlan_after v vid c }
]

module _ (mcs : ℕ) (v : View) (vid : ℕ) (c : Setting) where
  vlan_set-hit :
      (i : ℕ)
      → hit mcs v vid ≡ some i
      → vlan_set mcs v vid c
        ≡ record v { vlan = vlan_after v vid c; mc = update v.mc i (set_mc_entry (v.mc i) c) }
  unfolding vlan_set
  vlan_set-hit i e = rw (e, vlan_set)

  vlan_set-miss :
      hit mcs v vid ≡ none → vlan_set mcs v vid c ≡ record v { vlan = vlan_after v vid c }
  unfolding vlan_set
  vlan_set-miss e = rw (e, vlan_set)

  -- The 4K table takes the setting at `vid` alone, and no port's PVID changes.
  pub vlan-vlan_set : (vlan_set mcs v vid c).vlan ≡ vlan_after v vid c
  vlan-vlan_set = elim (Option-cases (hit mcs v vid)) [
    | inr (i, e) ↦ ap (λ (x : View). x.vlan) (vlan_set-hit i e)
    | inl e ↦ ap (λ (x : View). x.vlan) (vlan_set-miss e)
  ]

  pub pvid-vlan_set : (p : ℕ) → pvid (vlan_set mcs v vid c) p ≡ pvid v p
  pvid-vlan_set p = elim (Option-cases (hit mcs v vid)) [
    | inr (i, e) ↦
        ap (λ (x : View). pvid x p) (vlan_set-hit i e)
        ∙ update_at (λ j (m : Mc). m.vid ≡ (v.mc j).vid) v.mc i (v.index p)
            (set_mc_entry (v.mc i) c) refl (λ _. refl)
    | inl e ↦ ap (λ (x : View). pvid x p) (vlan_set-miss e)
  ]

  -- An entry of another VLAN still mirrors the 4K table.
  still-Mirrors :
      (j : ℕ)
      → (v.mc j).vid ≢ vid
      → Mirrors (v.mc j) (v.vlan (v.mc j).vid)
      → Mirrors (v.mc j) (vlan_after v vid c (v.mc j).vid)
  still-Mirrors j ne =
      subst (λ (w : Vlan4k). Mirrors (v.mc j) w)
        (sym (update_ne v.vlan vid (v.mc j).vid (set_4k_entry (v.vlan vid) c) ne))

  -- `rtl8366_set_vlan` keeps the invariant.
  pub vlan_set-IsCoherent : IsCoherent mcs v → IsCoherent mcs (vlan_set mcs v vid c)
  vlan_set-IsCoherent h = elim (Option-cases (hit mcs v vid)) [
    | inr (i, e) ↦
        let found = scan-Found (has_vid vid) v.mc mcs 0 cleared i e in
        let same = (==_iff vid (v.mc i).vid).0 found.passes in
        rw (vlan_set-hit i e) (
          Coherent-write mcs v.mc v.vlan (vlan_after v vid c) i (set_mc_entry (v.mc i) c) h
            (λ _.
              update_at (λ k (w : Vlan4k). Mirrors (set_mc_entry (v.mc i) c) w) v.vlan vid
                (v.mc i).vid (set_4k_entry (v.vlan vid) c)
                (record { same_member = refl; same_untag = refl; same_fid = refl })
                (λ ne. absurd (ne (sym same))))
            (λ j hj ne nz s. ne (h.single j i hj (omega (arith, found.below)) nz s))
            (λ j hj ne nz.
              still-Mirrors j (λ s. ne (h.single j i hj (omega (arith, found.below)) nz (s ∙ same)))
                (h.mirrored j hj nz)))
    | inl e ↦ rw (vlan_set-miss e) (record {
      mirrored = λ j hj nz.
          still-Mirrors j
            (λ s. cc (
              scan-none (has_vid vid) v.mc mcs 0 cleared e j (omega arith) (omega arith),
              (==_iff vid (v.mc j).vid).1 (sym s),
            ))
            (h.mirrored j hj nz);
      single = h.single;
    })
  ]

-- The fields are `u8`.
abbrev pub narrowed : Setting → Setting
narrowed c = record { member = u8 c.member; untag = u8 c.untag; fid = u8 c.fid }

module _ {D : Type 0} (o : Ops D) (t : Tables o) (vid : ℕ) (c : Setting) (d : D) where
  abbrev w : Vlan4k
  w = set_4k_entry ((t.view d).vlan vid) (narrowed c)

  abbrev v₁ : View
  v₁ = record (t.view d) { vlan = vlan_after (t.view d) vid (narrowed c) }

  abbrev d₁ : D
  d₁ = (o.get_vlan_4k vid d).1

  abbrev d₂ : D
  d₂ = (o.set_vlan_4k w d₁).1

  abbrev d₃ : D
  d₃ = (find_mc o (has_vid vid) o.num_vlan_mc 0 cleared d₂).1

  wrote :
      vid < 4096 → SettingFits t.masks (narrowed c) → Gives t.view (ok tt) v₁ (o.set_vlan_4k w d₁)
  wrote hv f =
      subst
        (λ (k : ℕ).
          Gives t.view (ok tt) (record (t.view d) { vlan = update (t.view d).vlan k w })
            (o.set_vlan_4k w d₁))
        (t.vlan_vid vid d hv)
        (rw (t.get_4k vid d hv).tables at (t.set_4k w d₁ (omega (arith, f, t.vlan_fits vid d hv))))

  looked :
      vid < 4096
      → SettingFits t.masks (narrowed c)
      → Gives t.view
          (ok (scan (has_vid vid) (t.view d).mc o.num_vlan_mc 0 cleared))
          v₁
          (find_mc o (has_vid vid) o.num_vlan_mc 0 cleared d₂)
  looked hv f =
      rw (wrote hv f).tables at
        (find_mc-Gives o t (has_vid vid) o.num_vlan_mc 0 cleared d₂ (omega arith))

  -- For a VLAN number below 4096, and ports and a FID that fit the chip after they are cut to eight
  -- bits: `rtl8366_set_vlan` returns 0 and changes the 4K entry of the VLAN, the first MC entry of
  -- the VLAN if there is one, and nothing else of the tables.
  pub set_vlan_lem :
      vid < 4096
      → SettingFits t.masks (narrowed c)
      → Gives t.view
          (ok tt)
          (vlan_set o.num_vlan_mc (t.view d) vid (narrowed c))
          (set_vlan o vid c.member c.untag c.fid d)
  unfolding set_vlan
  set_vlan_lem hv f = Gives->>= (o.get_vlan_4k vid) _ (t.get_4k vid d hv) (
      Gives->>= (o.set_vlan_4k w) _ (wrote hv f) (
        Gives->>= (find_mc o (has_vid vid) o.num_vlan_mc 0 cleared) _ (looked hv f)
          (elim (Option-cases (hit o.num_vlan_mc (t.view d) vid)) [
            | inr (i, e) ↦
                let found = scan-Found (has_vid vid) (t.view d).mc o.num_vlan_mc 0 cleared i e in
                rw (vlan_set-hit o.num_vlan_mc (t.view d) vid (narrowed c) i e, e, found.holds)
                  (rw (looked hv f).tables at (
                    t.set_mc i (set_mc_entry ((t.view d).mc i) (narrowed c)) d₃
                      (omega (arith, found.below)) (omega (arith, f, t.mc_fits i d))))
            | inl e ↦
                rw (vlan_set-miss o.num_vlan_mc (t.view d) vid (narrowed c) e, e)
                  (record { outcome = refl; tables = (looked hv f).tables })
          ])))
