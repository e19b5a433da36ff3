-- ===== src/Rtl8366s/Implements.antt =====
-- The operations of rtl8366s.c against what the VLAN code asks of a chip driver.
use native.Mathlib.Nat.{mod-eq_of_lt}
use wair_os.Base.{
  ℕ, ◌+◌, ◌-◌, ◌%◌, ◌^◌, ◌<◌, ◌≡◌, inl, inr, refl, sym, ◌∙◌, arith, ap, ltb, leb, ◌||◌, Bool-cases,
  ◌>>>◌, true, false, bit_and, bit_or, ok, update,
}
use wair_os.Vlan.{Mc}
use wair_os.Vlan.View.{McFits, Gives, Gives->>=, Tables}
use wair_os.Rtl8366.{Bus, rmwr}
use wair_os.Rtl8366s.{
  num_vlans, num_ports, vlan_mc_base, port_vlan_ctrl_reg, port_vlan_ctrl_shift, first_word,
  second_word, read_pair, get_vlan_mc, set_vlan_mc, get_mc_index, set_mc_index, enable_vlan,
  enable_vlan4k, ops, sgcr, sgcr_en_vlan, vlan_tb_ctrl,
}
use wair_os.Rtl8366s.Asic.{Store, Asic, is_storage, is_readable, view_of}
use wair_os.Rtl8366s.Words.{decode_mc-McFits, decode_4k-Vlan4kFits, low_4}
use wair_os.Rtl8366s.Fields.{index_word, index_word-lt}
use wair_os.Rtl8366s.Entries.{view_of-elsewhere, view_of-mc}
use wair_os.Rtl8366s.Slots.{view_of-index}
use wair_os.Rtl8366s.Access.{view, to_view, read_pair-Gives, write_pair-Gives, rmwr-Gives}
use wair_os.Rtl8366s.Window.{far, get_4k_lem, set_4k_lem}

module _ {D : Type 0} (b : Bus D) (k : Asic b) where
  get_mc_lem :
      (i : ℕ) (d : D)
      → i < 16
      → Gives (view b k) (ok ((view b k d).mc i)) (view b k d) (get_vlan_mc b i d)
  unfolding get_vlan_mc
  get_mc_lem i d h =
      rw (below, small)
        (Gives->>= (read_pair b (vlan_mc_base i)) _
          (to_view b k (read_pair-Gives b k (vlan_mc_base i) d (ground arith) (ground arith)))
          (record {
            outcome = refl;
            tables =
                ap view_of
                  (read_pair-Gives b k (vlan_mc_base i) d (ground arith) (ground arith)).tables;
          }))
    where
      below : leb 16 i ≡ false
      below = ground arith

      small : ltb i 16 ≡ true
      small = ground arith

  set_mc_lem :
      (i : ℕ) (m : Mc) (d : D)
      → i < 16
      → McFits 64 m
      → Gives
          (view b k)
          (ok tt)
          (record (view b k d) { mc = update (view b k d).mc i m })
          (set_vlan_mc b i m d)
  unfolding set_vlan_mc
  set_mc_lem i m d h f =
      rw (good, sym (view_of-mc (k.store d) i m h f))
        (to_view b k (
          write_pair-Gives b k (vlan_mc_base i) (first_word m.vid m.priority)
            (second_word m.member m.untag m.fid) d (ground arith) (ground arith)))
    where
      good :
          (leb 16 i
            || leb 4096 m.vid
            || ltb 7 m.priority
            || ltb 63 m.member
            || ltb 63 m.untag
            || ltb 7 m.fid)
          ≡ false
      good = ground (arith, f)

  get_index_lem :
      (p : ℕ) (d : D)
      → p < 6
      → Gives (view b k) (ok ((view b k d).index p)) (view b k d) (get_mc_index b p d)
  unfolding get_mc_index
  get_index_lem p d h =
      rw (below, small)
        (Gives->>= (b.read_reg (port_vlan_ctrl_reg p)) _
          (to_view b k (k.reads (port_vlan_ctrl_reg p) d (ground arith)))
          (record {
            outcome = refl;
            tables = ap view_of (k.reads (port_vlan_ctrl_reg p) d (ground arith)).tables;
          }))
    where
      below : leb 6 p ≡ false
      below = ground arith

      small : ltb p 6 ≡ true
      small = ground arith

  set_index_lem :
      (p i : ℕ) (d : D)
      → p < 6
      → i < 16
      → Gives
          (view b k)
          (ok tt)
          (record (view b k d) { index = update (view b k d).index p i })
          (set_mc_index b p i d)
  unfolding set_mc_index
  set_index_lem p i d h hi =
      rw
        (
          good,
          sym (view_of-index (k.store d) p i h hi (k.regs_fit (port_vlan_ctrl_reg p) d)),
          sym (
              mod-eq_of_lt {n = index_word p ((k.store d).regs (port_vlan_ctrl_reg p)) i}
                {m = 2 ^ 16} fits),
        )
        (to_view b k (rmwr-Gives b k (port_vlan_ctrl_reg p) _ _ d (ground arith) (ground arith)))
    where
      good : (leb 6 p || leb 16 i) ≡ false
      good = ground arith

      fits : index_word p ((k.store d).regs (port_vlan_ctrl_reg p)) i < 2 ^ 16
      fits =
          index_word-lt p ((k.store d).regs (port_vlan_ctrl_reg p)) i
            (k.regs_fit (port_vlan_ctrl_reg p) d) hi

  -- A change of a control register leaves the tables alone.
  control_lem :
      (a mask x : ℕ) (d : D)
      → is_storage a ≡ true
      → is_readable a ≡ true
      → ((s : Store) (y : ℕ) → view_of (record s { regs = update s.regs a y }) ≡ view_of s)
      → Gives (view b k) (ok tt) (view b k d) (rmwr b a mask x d)
  control_lem a mask x d p q away = record {
    outcome = g.outcome;
    tables = ap view_of g.tables ∙ away (k.store d) _;
  }
    where
      g :
          Gives k.store
            (ok tt)
            (record (k.store d) {
              regs =
                  update
                    (k.store d).regs
                    a
                    (bit_or (bit_and ((k.store d).regs a) (2 ^ 32 - 1 - mask)) x % 2 ^ 16);
            })
            (rmwr b a mask x d)
      g = rmwr-Gives b k a mask x d p q

  enable_vlan-Gives : (e : ℕ) (d : D) → Gives (view b k) (ok tt) (view b k d) (enable_vlan b e d)
  unfolding enable_vlan
  enable_vlan-Gives e d = control_lem sgcr sgcr_en_vlan _ d refl refl (λ s y.
      view_of-elsewhere s sgcr y
        (λ i lt. (λ h. absurd (omega (arith, h)), λ h. absurd (omega (arith, h))))
        (λ p lt h. absurd (omega (arith, h))))

  enable_vlan4k-Gives :
      (e : ℕ) (d : D) → Gives (view b k) (ok tt) (view b k d) (enable_vlan4k b e d)
  unfolding enable_vlan4k
  enable_vlan4k-Gives e d =
      control_lem vlan_tb_ctrl 1 _ d refl refl (λ s y. far s vlan_tb_ctrl y (omega arith))

  index_in : (p : ℕ) (d : D) → (view b k d).index p < num_vlans
  index_in p d = elim (Bool-cases (ltb p num_ports)) [
    | inl e ↦
        rw e (
          omega (arith, low_4 ((k.store d).regs (port_vlan_ctrl_reg p) >>> port_vlan_ctrl_shift p)))
    | inr e ↦ rw e (omega arith)
  ]

  mc_fits : (i : ℕ) (d : D) → McFits 64 ((view b k d).mc i)
  mc_fits i d = elim (Bool-cases (ltb i num_vlans)) [
    | inl e ↦ rw e (
        decode_mc-McFits ((k.store d).regs (vlan_mc_base i))
          ((k.store d).regs (vlan_mc_base i + 1)))
    | inr e ↦ rw e (omega arith)
  ]

  -- The operations of rtl8366s.c implement the tables of the VLAN code, on a chip whose registers
  -- and 4K table behave as `Asic` says.
  pub implements : Tables (ops b)
  implements = record {
    view = view b k;
    masks = 64;
    masks_least = omega arith;
    masks_most = omega arith;
    get_mc = get_mc_lem;
    set_mc = set_mc_lem;
    get_4k = get_4k_lem b k;
    set_4k = set_4k_lem b k;
    get_index = get_index_lem;
    set_index = set_index_lem;
    switch_vlan = enable_vlan-Gives;
    switch_vlan4k = enable_vlan4k-Gives;
    index_in = index_in;
    mc_fits = mc_fits;
    vlan_fits = λ v d h. decode_4k-Vlan4kFits v ((k.store d).table v) h;
    vlan_vid = λ v d h. refl;
    few_ports = omega arith;
    cpu_in = omega arith;
  }

  -- Its port masks have six bits.
  pub implements-masks : implements.masks ≡ 64
  unfolding implements
  implements-masks = refl
