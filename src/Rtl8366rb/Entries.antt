-- ===== src/Rtl8366rb/Entries.antt =====
-- What register writes and a save of the 4K table do to the tables that the registers hold.
use wair_os.Base.{
  ℕ, ◌+◌, ◌^◌, ◌<◌, ◌≤◌, ◌≡◌, ◌≢◌, inl, inr, refl, ◌∙◌, ap, arith, fun_ext, ltb, ◌==◌, ==_iff, true,
  Bool-cases, update, update_self, update_ne,
}
use wair_os.Vlan.{Mc, Vlan4k}
use wair_os.Vlan.View.{McFits, Vlan4kFits}
use wair_os.Rtl8366s.Entries.{View-equal}
use wair_os.Rtl8366s.Fields.{index_word, index_word_self, index_word_other}
use wair_os.Rtl8366rb.{
  num_vlans, num_ports, vlan_mc_base, port_vlan_ctrl_reg, Words, mc_of, mc_words, vlan_4k_words,
}
use wair_os.Rtl8366rb.Asic.{Store, view_of, put_words, words_at}
use wair_os.Rtl8366rb.Codec.{kept, mc_of-mc_words, vlan_4k_of-vlan_4k_words}

-- Three registers in a row read back, and the others stay.
module _ (f : ℕ → ℕ) (a : ℕ) (w : Words) where
  pub words_at-put_words : words_at (put_words f a w) a ≡ w
  words_at-put_words = rw (
    update_ne (update (update f a w.first) (a + 1) w.second) (a + 2) a w.third
        (λ e. absurd (omega (arith, e))),
    update_ne (update f a w.first) (a + 1) a w.second (λ e. absurd (omega (arith, e))),
    update_self f a w.first,
    update_ne (update (update f a w.first) (a + 1) w.second) (a + 2) (a + 1) w.third
        (λ e. absurd (omega (arith, e))),
    update_self (update f a w.first) (a + 1) w.second,
    update_self (update (update f a w.first) (a + 1) w.second) (a + 2) w.third,
  )

  pub put_words_other : (j : ℕ) → j ≢ a → j ≢ a + 1 → j ≢ a + 2 → put_words f a w j ≡ f j
  put_words_other j p q r =
      update_ne (update (update f a w.first) (a + 1) w.second) (a + 2) j w.third r
      ∙ update_ne (update f a w.first) (a + 1) j w.second q
      ∙ update_ne f a j w.first p

module _ (s : Store) where
  -- Registers that agree on the MC table and the index registers show the same tables.
  pub view_of-same :
      (regs : ℕ → ℕ)
      → ((a : ℕ) → 0x20 ≤ a → a ≤ 0x64 → regs a ≡ s.regs a)
      → view_of (record s { regs = regs }) ≡ view_of s
  view_of-same regs same =
      View-equal _ _ _ _
        (fun_ext (λ i. elim (Bool-cases (ltb i num_vlans)) [
          | inl e ↦
              let lt : i < 16 = ground arith in
              rw (
                e,
                same (vlan_mc_base i) (omega arith) (omega arith),
                same (vlan_mc_base i + 1) (omega arith) (omega arith),
                same (vlan_mc_base i + 2) (omega arith) (omega arith),
              )
          | inr e ↦ rw e
        ]))
        (fun_ext (λ p. elim (Bool-cases (ltb p num_ports)) [
          | inl e ↦
              let lt : p < 6 = ground arith in
              rw (e, same (port_vlan_ctrl_reg p) (omega arith) (omega arith))
          | inr e ↦ rw e
        ]))
        refl

  -- The three words of MC entry `i`.
  module _ (i : ℕ) (m : Mc) (below : i < num_vlans) (fits : McFits 256 m) where
    abbrev pub mc_regs : ℕ → ℕ
    mc_regs = put_words s.regs (vlan_mc_base i) (kept (mc_words m))

    -- The words of entry `j` are three registers away from those of entry `i`.
    other_words :
        (j : ℕ) → j ≢ i → words_at mc_regs (vlan_mc_base j) ≡ words_at s.regs (vlan_mc_base j)
    other_words j ne =
        let stays = put_words_other s.regs (vlan_mc_base i) (kept (mc_words m)) in
        rw
          (
            stays (vlan_mc_base j) (λ x. ne (omega (arith, x))) (λ x. absurd (omega (arith, x)))
                (λ x. absurd (omega (arith, x))),
            stays (vlan_mc_base j + 1) (λ x. absurd (omega (arith, x))) (λ x. ne (omega (arith, x)))
                (λ x. absurd (omega (arith, x))),
            stays (vlan_mc_base j + 2) (λ x. absurd (omega (arith, x)))
                (λ x. absurd (omega (arith, x))) (λ x. ne (omega (arith, x))),
          )
          refl

    mc_entry : (j : ℕ) → (view_of (record s { regs = mc_regs })).mc j ≡ update (view_of s).mc i m j
    mc_entry j = elim (Bool-cases (j == i)) [
      | inl e ↦
          let same : j ≡ i = (==_iff j i).0 e in
          let small : ltb i num_vlans ≡ true = ground arith in
          rw (e, same, small)
            (ap mc_of (words_at-put_words s.regs (vlan_mc_base i) (kept (mc_words m)))
              ∙ mc_of-mc_words m fits)
      | inr e ↦ rw e (elim (Bool-cases (ltb j num_vlans)) [
        | inl small ↦
            let ne : j ≢ i = λ x. cc (e, (==_iff j i).1 x) in rw small (ap mc_of (other_words j ne))
        | inr big ↦ rw big
      ])
    ]

    pub view_of-mc :
        view_of (record s { regs = mc_regs })
        ≡ record (view_of s) { mc = update (view_of s).mc i m }
    view_of-mc =
        View-equal _ _ _ _ (fun_ext mc_entry)
          (fun_ext (λ p. elim (Bool-cases (ltb p num_ports)) [
            | inl e ↦
                let lt : p < 6 = ground arith in
                rw (
                  e,
                  put_words_other s.regs (vlan_mc_base i) (kept (mc_words m)) (port_vlan_ctrl_reg p)
                      (λ x. absurd (omega (arith, x))) (λ x. absurd (omega (arith, x)))
                      (λ x. absurd (omega (arith, x))),
                )
            | inr e ↦ rw e
          ]))
          refl

  -- The MC index of port `p`.
  module _ (p index : ℕ) (below : p < num_ports) (fits : index < num_vlans)
      (old_fits : s.regs (port_vlan_ctrl_reg p) < 2 ^ 16) where
    abbrev word : ℕ
    word = index_word p (s.regs (port_vlan_ctrl_reg p)) index

    abbrev index_regs : ℕ → ℕ
    index_regs = update s.regs (port_vlan_ctrl_reg p) word

    index_entry :
        (q : ℕ)
        → (view_of (record s { regs = index_regs })).index q ≡ update (view_of s).index p index q
    index_entry q = elim (Bool-cases (q == p)) [
      | inl e ↦
          let same : q ≡ p = (==_iff q p).0 e in
          let small : ltb p num_ports ≡ true = ground arith in
          rw (e, same, small, update_self s.regs (port_vlan_ctrl_reg p) word)
            (index_word_self p (s.regs (port_vlan_ctrl_reg p)) index old_fits fits)
      | inr e ↦ rw e (elim (Bool-cases (ltb q num_ports)) [
        | inl small ↦ rw small (elim (Bool-cases (port_vlan_ctrl_reg q == port_vlan_ctrl_reg p)) [
          | inl shared ↦
              let reg : port_vlan_ctrl_reg q ≡ port_vlan_ctrl_reg p =
                (==_iff (port_vlan_ctrl_reg q) (port_vlan_ctrl_reg p)).0 shared in
              rw (reg, update_self s.regs (port_vlan_ctrl_reg p) word)
                (index_word_other p (s.regs (port_vlan_ctrl_reg p)) index old_fits fits q
                  (omega (arith, reg)) (λ x. absurd (ground arith)))
          | inr apart ↦ rw (
              update_ne s.regs (port_vlan_ctrl_reg p) (port_vlan_ctrl_reg q) word
                (λ x. absurd (ground arith)))
        ])
        | inr big ↦ rw big
      ])
    ]

    pub view_of-index :
        view_of (record s { regs = index_regs })
        ≡ record (view_of s) { index = update (view_of s).index p index }
    view_of-index =
        View-equal _ _ _ _
          (fun_ext (λ i. elim (Bool-cases (ltb i num_vlans)) [
            | inl e ↦
                let small : i < 16 = ground arith in
                rw (
                  e,
                  update_ne s.regs (port_vlan_ctrl_reg p) (vlan_mc_base i) word
                      (λ x. absurd (omega (arith, x))),
                  update_ne s.regs (port_vlan_ctrl_reg p) (vlan_mc_base i + 1) word
                      (λ x. absurd (omega (arith, x))),
                  update_ne s.regs (port_vlan_ctrl_reg p) (vlan_mc_base i + 2) word
                      (λ x. absurd (omega (arith, x))),
                )
            | inr e ↦ rw e
          ]))
          (fun_ext index_entry) refl

  -- An entry of the 4K table.
  pub view_of-4k :
      (v : Vlan4k)
      → Vlan4kFits 256 v
      → view_of (record s {
        masks = update s.masks v.vid (kept (vlan_4k_words v)).second;
        fids = update s.fids v.vid (kept (vlan_4k_words v)).third;
      })
        ≡ record (view_of s) { vlan = update (view_of s).vlan v.vid v }
  view_of-4k v f = View-equal _ _ _ _ refl refl (
      fun_ext (λ j. elim (Bool-cases (j == v.vid)) [
        | inl e ↦
            let same : j ≡ v.vid = (==_iff j v.vid).0 e in
            rw (e, same) (vlan_4k_of-vlan_4k_words v f)
        | inr e ↦ rw e
      ]))
