-- ===== src/Rtl8366s/Entries.antt =====
-- What a register write does to the tables that the registers hold.
use wair_os.Base.{
  ℕ, ◌+◌, ◌%◌, ◌^◌, ◌<◌, ◌≡◌, ◌≢◌, inl, inr, refl, sym, ◌∙◌, arith, fun_ext, ltb, ◌==◌, ==_iff,
  true, Bool-cases, update, update_self, update_ne,
}
use wair_os.Vlan.{Mc, Vlan4k}
use wair_os.Vlan.View.{View, McFits}
use wair_os.Rtl8366s.{
  num_vlans, num_ports, vlan_mc_base, port_vlan_ctrl_reg, first_word, second_word,
}
use wair_os.Rtl8366s.Asic.{Store, view_of}
use wair_os.Rtl8366s.Words.{decode_mc-encode}

-- Two views are equal when their tables are.
pub View-equal :
    (v : View) (mc : ℕ → Mc) (index : ℕ → ℕ) (vlan : ℕ → Vlan4k)
    → v.mc ≡ mc
    → v.index ≡ index
    → v.vlan ≡ vlan
    → v ≡ record { mc = mc; index = index; vlan = vlan }
View-equal v mc index vlan a b c = rw (sym a, sym b, sym c)

module _ (s : Store) where
  -- A register outside the MC table and the index registers.
  pub view_of-elsewhere :
      (a x : ℕ)
      → ((i : ℕ) → i < num_vlans → (vlan_mc_base i ≢ a) × (vlan_mc_base i + 1 ≢ a))
      → ((p : ℕ) → p < num_ports → port_vlan_ctrl_reg p ≢ a)
      → view_of (record s { regs = update s.regs a x }) ≡ view_of s
  view_of-elsewhere a x far_mc far_index =
      View-equal _ _ _ _
        (fun_ext (λ i. elim (Bool-cases (ltb i num_vlans)) [
          | inl e ↦
              let far = far_mc i (ground arith) in
              rw (
                e,
                update_ne s.regs a (vlan_mc_base i) x (far.0),
                update_ne s.regs a (vlan_mc_base i + 1) x (far.1),
              )
          | inr e ↦ rw e
        ]))
        (fun_ext (λ p. elim (Bool-cases (ltb p num_ports)) [
          | inl e ↦ rw (e, update_ne s.regs a (port_vlan_ctrl_reg p) x (far_index p (ground arith)))
          | inr e ↦ rw e
        ]))
        refl

  -- The two words of MC entry `i`.
  module _ (i : ℕ) (m : Mc) (below : i < num_vlans) (fits : McFits 64 m) where
    abbrev pub mc_regs : ℕ → ℕ
    mc_regs =
        update (update s.regs (vlan_mc_base i) (first_word m.vid m.priority % 2 ^ 16))
          (vlan_mc_base i + 1) (second_word m.member m.untag m.fid % 2 ^ 16)

    first_at : mc_regs (vlan_mc_base i) ≡ first_word m.vid m.priority % 2 ^ 16
    first_at =
        update_ne (update s.regs (vlan_mc_base i) (first_word m.vid m.priority % 2 ^ 16))
          (vlan_mc_base i + 1) (vlan_mc_base i) (second_word m.member m.untag m.fid % 2 ^ 16)
          (λ e. absurd (omega (arith, e)))
        ∙ update_self s.regs (vlan_mc_base i) (first_word m.vid m.priority % 2 ^ 16)

    second_at : mc_regs (vlan_mc_base i + 1) ≡ second_word m.member m.untag m.fid % 2 ^ 16
    second_at =
        update_self (update s.regs (vlan_mc_base i) (first_word m.vid m.priority % 2 ^ 16))
          (vlan_mc_base i + 1) (second_word m.member m.untag m.fid % 2 ^ 16)

    other_reg : (a : ℕ) → a ≢ vlan_mc_base i → a ≢ vlan_mc_base i + 1 → mc_regs a ≡ s.regs a
    other_reg a p q =
        update_ne (update s.regs (vlan_mc_base i) (first_word m.vid m.priority % 2 ^ 16))
          (vlan_mc_base i + 1) a (second_word m.member m.untag m.fid % 2 ^ 16) q
        ∙ update_ne s.regs (vlan_mc_base i) a (first_word m.vid m.priority % 2 ^ 16) p

    mc_entry : (j : ℕ) → (view_of (record s { regs = mc_regs })).mc j ≡ update (view_of s).mc i m j
    mc_entry j = elim (Bool-cases (j == i)) [
      | inl e ↦
          let same : j ≡ i = (==_iff j i).0 e in
          let small : ltb i num_vlans ≡ true = ground arith in
          rw (e, same, small, first_at, second_at) (decode_mc-encode m fits)
      | inr e ↦ rw e (elim (Bool-cases (ltb j num_vlans)) [
        | inl small ↦ rw (
          small,
          other_reg (vlan_mc_base j) (λ x. absurd (ground arith)) (λ x. absurd (omega (arith, x))),
          other_reg (vlan_mc_base j + 1) (λ x. absurd (omega (arith, x)))
              (λ x. absurd (ground arith)),
        )
        | inr big ↦ rw big
      ])
    ]

    -- They hold the entry, and nothing else of the tables changes.
    pub view_of-mc :
        view_of (record s { regs = mc_regs })
        ≡ record (view_of s) { mc = update (view_of s).mc i m }
    view_of-mc =
        View-equal _ _ _ _ (fun_ext mc_entry)
          (fun_ext (λ p. elim (Bool-cases (ltb p num_ports)) [
            | inl e ↦
                let small : p < 6 = ground arith in
                rw (
                  e,
                  other_reg (port_vlan_ctrl_reg p) (λ x. absurd (omega (arith, x)))
                      (λ x. absurd (omega (arith, x))),
                )
            | inr e ↦ rw e
          ]))
          refl
