-- ===== src/Rtl8366s/Readback.antt =====
-- What the get operations of rtl8366s.c return after the set operations.
use wair_os.Base.{
  ℕ, ◌<◌, ◌≡◌, inl, inr, sym, ◌∙◌, ap, ◌==◌, if◌then◌else◌, Bool-cases, ok, Op, update,
}
use wair_os.Vlan.{Mc, Vlan4k}
use wair_os.Vlan.View.{View, McFits, Vlan4kFits, Tables}
use wair_os.Rtl8366.{Bus}
use wair_os.Rtl8366s.{
  get_vlan_mc, set_vlan_mc, get_vlan_4k, set_vlan_4k, get_mc_index, set_mc_index, ops,
}
use wair_os.Rtl8366s.Asic.{Asic}
use wair_os.Rtl8366s.Implements.{implements, implements-masks}

-- A read of a table at `j`, after a write of `x` at `i`: the new value, or the old answer.
read_after :
    {D X : Type 0} (see : D → ℕ → X) (get : ℕ → Op D X) (i j : ℕ) (x : X) (d d' : D)
    → ((e : D) → (get j e).0 ≡ ok (see e j))
    → see d' ≡ update (see d) i x
    → (get j d').0 ≡ (if j == i then ok x else (get j d).0)
read_after see get i j x d d' reads wrote = elim (Bool-cases (j == i)) [
  | inl e ↦ rw e (reads d' ∙ ap ok (rw (wrote, e)))
  | inr e ↦ rw e (reads d' ∙ ap ok (rw (wrote, e)) ∙ sym (reads d))
]

module _ {D : Type 0} (b : Bus D) (k : Asic b) where
  abbrev t : Tables (ops b)
  t = implements b k

  -- After an MC entry that fits is set, each entry of the MC table reads back: the one that was
  -- set with all five fields, the others as before.
  pub get_vlan_mc-set_vlan_mc :
      (i j : ℕ) (m : Mc) (d : D)
      → i < 16
      → j < 16
      → McFits 64 m
      → ((set_vlan_mc b i m d).0 ≡ ok tt)
        × ((get_vlan_mc b j (set_vlan_mc b i m d).1).0
            ≡ (if j == i then ok m else (get_vlan_mc b j d).0))
  get_vlan_mc-set_vlan_mc i j m d hi hj f =
      let g = t.set_mc i m d hi (rw (implements-masks b k) f) in
      (
        g.outcome,
        read_after (λ e. (t.view e).mc) (get_vlan_mc b) i j m d (set_vlan_mc b i m d).1
            (λ e. (t.get_mc j e hj).outcome) (ap (λ (v : View). v.mc) g.tables),
      )

  -- After an entry of the 4K table that fits is set through the access windows, each entry of the
  -- 4K table reads back: the one that was set with all its fields, the others as before.
  pub get_vlan_4k-set_vlan_4k :
      (j : ℕ) (v : Vlan4k) (d : D)
      → j < 4096
      → Vlan4kFits 64 v
      → ((set_vlan_4k b v d).0 ≡ ok tt)
        × ((get_vlan_4k b j (set_vlan_4k b v d).1).0
            ≡ (if j == v.vid then ok v else (get_vlan_4k b j d).0))
  get_vlan_4k-set_vlan_4k j v d hj f =
      let g = t.set_4k v d (rw (implements-masks b k) f) in
      (
        g.outcome,
        read_after (λ e. (t.view e).vlan) (get_vlan_4k b) v.vid j v d (set_vlan_4k b v d).1
            (λ e. (t.get_4k j e hj).outcome) (ap (λ (w : View). w.vlan) g.tables),
      )

  -- After the MC index of a port is set, for one of six ports and one of sixteen entries, the MC
  -- index of each port reads back: the new one for that port, and for the others, also for those
  -- that share its register, what was read before.
  pub get_mc_index-set_mc_index :
      (p q i : ℕ) (d : D)
      → p < 6
      → q < 6
      → i < 16
      → ((set_mc_index b p i d).0 ≡ ok tt)
        × ((get_mc_index b q (set_mc_index b p i d).1).0
            ≡ (if q == p then ok i else (get_mc_index b q d).0))
  get_mc_index-set_mc_index p q i d hp hq hi =
      let g = t.set_index p i d hp hi in
      (
        g.outcome,
        read_after (λ e. (t.view e).index) (get_mc_index b) p q i d (set_mc_index b p i d).1
            (λ e. (t.get_index q e hq).outcome) (ap (λ (v : View). v.index) g.tables),
      )
