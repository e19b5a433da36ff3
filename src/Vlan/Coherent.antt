-- ===== src/Vlan/Coherent.antt =====
-- The MC table mirrors the 4K table: the invariant of the VLAN code.
use wair_os.Base.{ℕ, ◌-◌, ◌<◌, ◌≡◌, ◌≢◌, refl, ap, sym, ◌∙◌, update, update_at}
use wair_os.Vlan.{Mc, Vlan4k}
use wair_os.Vlan.View.{View}
use wair_os.Vlan.Pvid.{Choice, kept, filled, replaced, assigned, loaded}

-- Entry `m` says of its VLAN what the 4K table says.
pub record Mirrors (m : Mc) (v : Vlan4k) : Type 0 where
  pub same_member : m.member ≡ v.member
  pub same_untag : m.untag ≡ v.untag
  pub same_fid : m.fid ≡ v.fid

-- Each entry that is in use mirrors the 4K table, and no VLAN has two entries.
pub record Coherent (mcs : ℕ) (mc : ℕ → Mc) (vlan : ℕ → Vlan4k) : Type 0 where
  pub mirrored : (j : ℕ) → j < mcs → (mc j).vid ≢ 0 → Mirrors (mc j) (vlan (mc j).vid)
  pub single : (j k : ℕ) → j < mcs → k < mcs → (mc j).vid ≢ 0 → (mc j).vid ≡ (mc k).vid → j ≡ k

-- Entry `i` is written, and the 4K table becomes `vlan'`.
module _ (mcs : ℕ) (mc : ℕ → Mc) (vlan vlan' : ℕ → Vlan4k) (i : ℕ) (e : Mc) where
  pub Coherent-write :
      Coherent mcs mc vlan
      → (e.vid ≢ 0 → Mirrors e (vlan' e.vid))
      → ((j : ℕ) → j < mcs → j ≢ i → (mc j).vid ≢ 0 → (mc j).vid ≢ e.vid)
      → ((j : ℕ) → j < mcs → j ≢ i → (mc j).vid ≢ 0 → Mirrors (mc j) (vlan' (mc j).vid))
      → Coherent mcs (update mc i e) vlan'
  Coherent-write c new apart old = record {
    mirrored = λ j lt.
        update_at (λ j (m : Mc). m.vid ≢ 0 → Mirrors m (vlan' m.vid)) mc i j e new
          (λ ne. old j lt ne);
    single = λ j k hj hk.
        update_at (λ j (m : Mc). m.vid ≢ 0 → m.vid ≡ (update mc i e k).vid → j ≡ k) mc i j e
          (update_at (λ k (m : Mc). e.vid ≢ 0 → e.vid ≡ m.vid → i ≡ k) mc i k e (λ _ _. refl)
            (λ ne nz s. absurd (apart k hk ne (λ z. nz (s ∙ z)) (sym s))))
          (λ ne.
            update_at (λ k (m : Mc). (mc j).vid ≢ 0 → (mc j).vid ≡ m.vid → j ≡ k) mc i k e
              (λ nz s. absurd (apart j hj ne nz s)) (λ _. c.single j k hj hk));
  }

abbrev pub IsCoherent : ℕ → View → Type 0
IsCoherent mcs v = Coherent mcs v.mc v.vlan

load-IsCoherent :
    {mcs : ℕ} (v : View) (vid i : ℕ) (e held : Mc)
    → IsCoherent mcs v
    → ((j : ℕ) → j < mcs → (v.mc j).vid ≢ vid)
    → e ≡ loaded v vid held
    → Coherent mcs (update v.mc i e) v.vlan
load-IsCoherent {mcs} v vid i e held c free eq =
    Coherent-write mcs v.mc v.vlan v.vlan i e c
      (λ _. rw eq (record { same_member = refl; same_untag = refl; same_fid = refl }))
      (λ j hj ne nz s. free j hj (s ∙ ap (λ (m : Mc). m.vid) eq)) (λ j hj ne. c.mirrored j hj)

-- `rtl8366_set_pvid` keeps the invariant, whichever entry it takes.
pub assigned-IsCoherent :
    {ports mcs : ℕ} (v : View) (port vid i : ℕ) (e : Mc)
    → i < mcs
    → IsCoherent mcs v
    → Choice ports mcs v vid i e
    → IsCoherent mcs (assigned v port i e)
assigned-IsCoherent {mcs} v port vid i e lt c (kept h eq) =
    Coherent-write mcs v.mc v.vlan v.vlan i e c (rw eq (c.mirrored i lt))
      (λ j hj ne nz s. ne (c.single j i hj lt nz (s ∙ ap (λ (m : Mc). m.vid) eq)))
      (λ j hj ne. c.mirrored j hj)
assigned-IsCoherent v port vid i e lt c (filled h b eq) = load-IsCoherent v vid i e (v.mc i) c h eq
assigned-IsCoherent {mcs} v port vid i e lt c (replaced h b u eq) =
    load-IsCoherent v vid i e (v.mc (mcs - 1)) c h eq
