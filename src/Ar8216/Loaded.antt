-- ===== src/Ar8216/Loaded.antt =====
-- The VLANs that ar8216_hw_apply of ar8216.c loads into the translation unit of the chip.
use wair_os.Base.{
  ℕ, zero, suc, ◌+◌, ◌<◌, ◌≤◌, ◌≡◌, ◌≢◌, refl, sym, ◌∙◌, ap, arith, bit_or, true, ◌==◌, ==_iff,
  if◌then◌else◌, Bool-cases, inl, inr, ◌<<◌,
}
use wair_os.Ar8216.{Priv, max_vlans, num_ports}
use wair_os.Ar8216.Mii.{Regs}
use wair_os.Ar8216.Apply.{vtu_op_load, spread, vtu_op, load_vlans, hw_apply}
use wair_os.Ar8216.Asic.{Asic}
use wair_os.Ar8216.Vtu.{member_word, vtu_op-flush, vtu_op-load}
use wair_os.Ar8216.Settings.{apply_ports-Settled}
use wair_os.Ar8216.Apply.{spread}
use wair_os.Ar8216.Applied.{Fits, flushed, loaded, hw_apply-way}

module _ {D : Type 0} (b : Regs D) (k : Asic b) (p : Priv) (f : Fits p) (d : D) where
  -- The translation unit after one turn of the loop over the VLANs.
  abbrev turn : ℕ → (ℕ → ℕ) × D → (ℕ → ℕ) × D
  turn j s = if p.vlan_table j == 0 then s else (
    spread (p.vlan_table j) s.0,
    vtu_op b (bit_or vtu_op_load (p.vlan_id j << 16)) (p.vlan_table j) s.1,
  )

  turn-empty : (j : ℕ) (s : (ℕ → ℕ) × D) → p.vlan_table j ≡ 0 → turn j s ≡ s
  turn-empty j s e = rw ((==_iff (p.vlan_table j) 0).1 e) refl

  turn-vtu :
      (j vid : ℕ) (s : (ℕ → ℕ) × D)
      → j < max_vlans
      → p.vlan_table j ≢ 0
      → (k.store (turn j s).1).vtu vid
        ≡ (if vid == p.vlan_id j then member_word (p.vlan_table j) else (k.store s.1).vtu vid)
  turn-vtu j vid s hj ne = elim (Bool-cases (p.vlan_table j == 0)) [
    | inl e ↦ absurd (ne ((==_iff (p.vlan_table j) 0).0 e))
    | inr e ↦ rw e (
        ap (λ (g : ℕ → ℕ). g vid)
          (vtu_op-load b k (p.vlan_id j) (p.vlan_table j) s.1 (f.ids j hj)).1)
  ]

  turn-other :
      (j vid : ℕ) (s : (ℕ → ℕ) × D)
      → j < max_vlans
      → (p.vlan_table j ≢ 0 → p.vlan_id j ≢ vid)
      → (k.store (turn j s).1).vtu vid ≡ (k.store s.1).vtu vid
  turn-other j vid s hj away = elim (Bool-cases (p.vlan_table j == 0)) [
    | inl e ↦
        ap (λ (x : (ℕ → ℕ) × D). (k.store x.1).vtu vid)
          (turn-empty j s ((==_iff (p.vlan_table j) 0).0 e))
    | inr e ↦
        let ne : p.vlan_table j ≢ 0 = λ h. cc (e, (==_iff (p.vlan_table j) 0).1 h) in
        turn-vtu j vid s hj ne ∙ elim (Bool-cases (vid == p.vlan_id j)) [
          | inl same ↦ absurd (away ne (sym ((==_iff vid (p.vlan_id j)).0 same)))
          | inr other ↦ rw other refl
        ]
  ]

  pub load_vlans-other :
      (left j vid : ℕ) (s : (ℕ → ℕ) × D)
      → j + left ≤ max_vlans
      → ((v : ℕ) → j ≤ v → v < max_vlans → p.vlan_table v ≢ 0 → p.vlan_id v ≢ vid)
      → (k.store (load_vlans b p left j s).1).vtu vid ≡ (k.store s.1).vtu vid
  unfolding load_vlans
  load_vlans-other zero j vid s h away = refl
  load_vlans-other (suc left) j vid s h away =
      load_vlans-other left (j + 1) vid (turn j s) (omega (arith, h))
        (λ v le. away v (omega (arith, le)))
      ∙ turn-other j vid s (omega (arith, h)) (away j (omega arith) (omega (arith, h)))

  -- VLAN `u` is loaded when no other one has its id.
  pub load_vlans-own :
      (left j u : ℕ) (s : (ℕ → ℕ) × D)
      → j + left ≤ max_vlans
      → j ≤ u
      → u < j + left
      → p.vlan_table u ≢ 0
      → ((v : ℕ) → v < max_vlans → p.vlan_table v ≢ 0 → p.vlan_id v ≡ p.vlan_id u → v ≡ u)
      → (k.store (load_vlans b p left j s).1).vtu (p.vlan_id u) ≡ member_word (p.vlan_table u)
  unfolding load_vlans
  load_vlans-own zero j u s h le lt ne one = absurd (omega (arith, le, lt))
  load_vlans-own (suc left) j u s h le lt ne one = elim (Bool-cases (u == j)) [
    | inl e ↦
        let here : u ≡ j = (==_iff u j).0 e in
        load_vlans-other left (j + 1) (p.vlan_id u) (turn j s) (omega (arith, h))
          (λ v from hv full same. omega (arith, one v hv full same, here, from))
        ∙ rw (sym here) (
            turn-vtu u (p.vlan_id u) s (omega (arith, h, lt)) ne
            ∙ rw ((==_iff (p.vlan_id u) (p.vlan_id u)).1 refl) refl)
    | inr e ↦
        let other : u ≢ j = λ g. cc (e, (==_iff u j).1 g) in
        load_vlans-own left (j + 1) u (turn j s) (omega (arith, h)) (omega (arith, le, other))
          (omega (arith, lt)) ne one
  ]

  vtu-way :
      (vid : ℕ)
      → p.vlan ≡ true
      → (k.store (hw_apply b p d)).vtu vid ≡ (k.store (loaded b k p f d).1).vtu vid
  vtu-way vid on =
      ap (λ (r : D). (k.store r).vtu vid) (hw_apply-way b k p f d true on)
      ∙ ap (λ (g : ℕ → ℕ). g vid)
          (apply_ports-Settled b k p (loaded b k p f d).0 num_ports 0 (loaded b k p f d).1).vtu

  -- With VLANs on, after `ar8216_hw_apply` the translation unit has nothing for an id that no VLAN
  -- with members has.
  pub hw_apply-vtu_other :
      (vid : ℕ)
      → p.vlan ≡ true
      → ((v : ℕ) → v < max_vlans → p.vlan_table v ≢ 0 → p.vlan_id v ≢ vid)
      → (k.store (hw_apply b p d)).vtu vid ≡ 0
  hw_apply-vtu_other vid on away =
      vtu-way vid on
      ∙ load_vlans-other max_vlans 0 vid (λ n. 0, flushed b k p f d) (omega arith)
          (λ v from. away v)
      ∙ ap (λ (g : ℕ → ℕ). g vid) (vtu_op-flush b k d).1

  -- On a chip that behaves as `Asic` says, with VLANs on, VLAN ids below 4096 and PVIDs of the
  -- table: after `ar8216_hw_apply` the translation unit has for the id of a VLAN with members, when
  -- no other VLAN with members has that id, the members of that VLAN.
  pub hw_apply-vtu :
      (u : ℕ)
      → p.vlan ≡ true
      → u < max_vlans
      → p.vlan_table u ≢ 0
      → ((v : ℕ) → v < max_vlans → p.vlan_table v ≢ 0 → p.vlan_id v ≡ p.vlan_id u → v ≡ u)
      → (k.store (hw_apply b p d)).vtu (p.vlan_id u) ≡ member_word (p.vlan_table u)
  hw_apply-vtu u on hu ne one =
      vtu-way (p.vlan_id u) on
      ∙ load_vlans-own max_vlans 0 u (λ n. 0, flushed b k p f d) (omega arith) (omega arith)
          (omega (arith, hu)) ne one
