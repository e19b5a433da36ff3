-- ===== src/Rtl8366s/Slots.antt =====
-- What writing an index register, and saving an entry of the 4K table, do to the tables.
use wair_os.Base.{
  ℕ, ◌+◌, ◌%◌, ◌^◌, ◌<◌, ◌≡◌, inl, inr, refl, arith, fun_ext, ltb, ◌==◌, ==_iff, true, Bool-cases,
  update, update_self, update_ne,
}
use wair_os.Vlan.{Vlan4k}
use wair_os.Vlan.View.{Vlan4kFits}
use wair_os.Rtl8366s.{num_vlans, num_ports, vlan_mc_base, port_vlan_ctrl_reg, second_word}
use wair_os.Rtl8366s.Asic.{Store, view_of}
use wair_os.Rtl8366s.Words.{decode_4k-encode}
use wair_os.Rtl8366s.Fields.{index_word, index_word_self, index_word_other}
use wair_os.Rtl8366s.Entries.{View-equal}

module _ (s : Store) where
  module _ (p index : ℕ) (below : p < num_ports) (fits : index < num_vlans)
      (old_fits : s.regs (port_vlan_ctrl_reg p) < 2 ^ 16) where
    abbrev word : ℕ
    word = index_word p (s.regs (port_vlan_ctrl_reg p)) index

    abbrev index_regs : ℕ → ℕ
    index_regs = update s.regs (port_vlan_ctrl_reg p) word

    index_entry :
        (q : ℕ)
        → (view_of (record s { regs = index_regs })).index q ≡ update (view_of s).index p index q
    index_entry q = elim (Bool-cases (q == p)) [
      | inl e ↦
          let same : q ≡ p = (==_iff q p).0 e in
          let small : ltb p num_ports ≡ true = ground arith in
          rw (e, same, small, update_self s.regs (port_vlan_ctrl_reg p) word)
            (index_word_self p (s.regs (port_vlan_ctrl_reg p)) index old_fits fits)
      | inr e ↦ rw e (elim (Bool-cases (ltb q num_ports)) [
        | inl small ↦ rw small (elim (Bool-cases (port_vlan_ctrl_reg q == port_vlan_ctrl_reg p)) [
          | inl shared ↦
              let reg : port_vlan_ctrl_reg q ≡ port_vlan_ctrl_reg p =
                (==_iff (port_vlan_ctrl_reg q) (port_vlan_ctrl_reg p)).0 shared in
              rw (reg, update_self s.regs (port_vlan_ctrl_reg p) word)
                (index_word_other p (s.regs (port_vlan_ctrl_reg p)) index old_fits fits q
                  (omega (arith, reg)) (λ x. absurd (ground arith)))
          | inr apart ↦ rw (
              update_ne s.regs (port_vlan_ctrl_reg p) (port_vlan_ctrl_reg q) word
                (λ x. absurd (ground arith)))
        ])
        | inr big ↦ rw big
      ])
    ]

    -- The field of the port takes the index, and nothing else of the tables changes.
    pub view_of-index :
        view_of (record s { regs = index_regs })
        ≡ record (view_of s) { index = update (view_of s).index p index }
    view_of-index =
        View-equal _ _ _ _
          (fun_ext (λ i. elim (Bool-cases (ltb i num_vlans)) [
            | inl e ↦
                let small : i < 16 = ground arith in
                rw (
                  e,
                  update_ne s.regs (port_vlan_ctrl_reg p) (vlan_mc_base i) word
                      (λ x. absurd (omega (arith, x))),
                  update_ne s.regs (port_vlan_ctrl_reg p) (vlan_mc_base i + 1) word
                      (λ x. absurd (omega (arith, x))),
                )
            | inr e ↦ rw e
          ]))
          (fun_ext index_entry) refl

  -- An entry of the 4K table.
  pub view_of-4k :
      (v : Vlan4k)
      → Vlan4kFits 64 v
      → view_of
          (record s { table = update s.table v.vid (second_word v.member v.untag v.fid % 2 ^ 16) })
        ≡ record (view_of s) { vlan = update (view_of s).vlan v.vid v }
  view_of-4k v f = View-equal _ _ _ _ refl refl (
      fun_ext (λ j. elim (Bool-cases (j == v.vid)) [
        | inl e ↦ let same : j ≡ v.vid = (==_iff j v.vid).0 e in rw (e, same) (decode_4k-encode v f)
        | inr e ↦ rw e
      ]))
