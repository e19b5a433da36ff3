-- ===== src/Rtl8366rb/Implements.antt =====
-- The operations of rtl8366rb.c against what the VLAN code asks of a chip driver.
use native.Mathlib.Nat.{mod-eq_of_lt}
use wair_os.Base.{
  ℕ, ◌-◌, ◌%◌, ◌^◌, ◌<◌, ◌≡◌, inl, inr, refl, sym, ◌∙◌, arith, ap, ltb, leb, ◌||◌, Bool-cases,
  ◌>>>◌, true, false, bit_and, bit_or, ok, update, update_ne,
}
use wair_os.Vlan.{Mc, Vlan4k}
use wair_os.Vlan.View.{View, McFits, Vlan4kFits, Gives, Gives->>=, Tables}
use wair_os.Rtl8366.{Bus, rmwr}
use wair_os.Rtl8366s.Words.{low_12, low_4}
use wair_os.Rtl8366s.Fields.{index_word, index_word-lt}
use wair_os.Rtl8366rb.{
  num_vlans, num_ports, vlan_mc_base, port_vlan_ctrl_reg, port_vlan_ctrl_shift, Words, mc_words,
  vlan_4k_words, vlan_4k_of, table_read_base, table_write_base, read_words, write_words,
  get_vlan_mc, set_vlan_mc, get_vlan_4k, set_vlan_4k, get_mc_index, set_mc_index, enable_vlan,
  enable_vlan4k, ops, table_access_ctrl, table_vlan_read, sgcr, sgcr_en_vlan, sgcr_en_vlan_4ktb,
}
use wair_os.Rtl8366rb.Asic.{Store, Asic, row, view_of, put_words, words_at}
use wair_os.Rtl8366rb.Codec.{kept, mc_of-McFits, vlan_4k_of-Vlan4kFits}
use wair_os.Rtl8366rb.Entries.{put_words_other, view_of-same, view_of-mc, view_of-index, view_of-4k}
use wair_os.Rtl8366rb.Access.{view, to_view, read_words-Gives, write_words-Gives, rmwr-Gives}

module _ {D : Type 0} (b : Bus D) (k : Asic b) where
  get_mc_lem :
      (i : ℕ) (d : D)
      → i < 16
      → Gives (view b k) (ok ((view b k d).mc i)) (view b k d) (get_vlan_mc b i d)
  unfolding get_vlan_mc
  get_mc_lem i d h =
      let below : leb 16 i ≡ false = ground arith in
      let small : ltb i 16 ≡ true = ground arith in
      let g =
        read_words-Gives b k (vlan_mc_base i) d (ground arith) (ground arith) (ground arith) in
      rw (below, small)
        (Gives->>= (read_words b (vlan_mc_base i)) _ (to_view b k g)
          (record { outcome = refl; tables = ap view_of g.tables }))

  set_mc_lem :
      (i : ℕ) (m : Mc) (d : D)
      → i < 16
      → McFits 256 m
      → Gives
          (view b k)
          (ok tt)
          (record (view b k d) { mc = update (view b k d).mc i m })
          (set_vlan_mc b i m d)
  unfolding set_vlan_mc
  set_mc_lem i m d h f =
      let good : (leb 16 i
            || leb 4096 m.vid
            || ltb 7 m.priority
            || ltb 255 m.member
            || ltb 255 m.untag
            || ltb 7 m.fid)
          ≡ false =
        ground (arith, f) in
      rw (good, sym (view_of-mc (k.store d) i m h f))
        (to_view b k (
          write_words-Gives b k (vlan_mc_base i) (mc_words m) d (ground arith) (ground arith)
            (ground arith)))

  get_index_lem :
      (p : ℕ) (d : D)
      → p < 6
      → Gives (view b k) (ok ((view b k d).index p)) (view b k d) (get_mc_index b p d)
  unfolding get_mc_index
  get_index_lem p d h =
      let below : leb 6 p ≡ false = ground arith in
      let small : ltb p 6 ≡ true = ground arith in
      let g = k.reads (port_vlan_ctrl_reg p) d (ground arith) in
      rw (below, small)
        (Gives->>= (b.read_reg (port_vlan_ctrl_reg p)) _ (to_view b k g)
          (record { outcome = refl; tables = ap view_of g.tables }))

  set_index_lem :
      (p i : ℕ) (d : D)
      → p < 6
      → i < 16
      → Gives
          (view b k)
          (ok tt)
          (record (view b k d) { index = update (view b k d).index p i })
          (set_mc_index b p i d)
  unfolding set_mc_index
  set_index_lem p i d h hi =
      let good : (leb 6 p || leb 16 i) ≡ false = ground arith in
      let old = (k.store d).regs (port_vlan_ctrl_reg p) in
      let old_fits = k.regs_fit (port_vlan_ctrl_reg p) d in
      let fits : index_word p old i < 2 ^ 16 = index_word-lt p old i old_fits hi in
      rw
        (
          good,
          sym (view_of-index (k.store d) p i h hi old_fits),
          sym (mod-eq_of_lt {n = index_word p old i} {m = 2 ^ 16} fits),
        )
        (to_view b k (rmwr-Gives b k (port_vlan_ctrl_reg p) _ _ d (ground arith) (ground arith)))

  named : (v : ℕ) → v < 4096 → bit_and v 0xfff % 2 ^ 16 % 4096 ≡ v
  named v h = omega (arith, low_12 v)

  -- The windows of the 4K table are away from the registers of the other tables.
  module _ (s : Store) (x : ℕ) (w : Words) where
    abbrev asked : Store
    asked = record s { regs = update s.regs table_write_base x }

    abbrev loaded : Store
    loaded = record asked { regs = put_words asked.regs table_read_base w }

    abbrev written : Store
    written = record s { regs = put_words s.regs table_write_base w }

    view_of-asked : view_of asked ≡ view_of s
    view_of-asked =
        view_of-same s asked.regs (λ a low high.
          update_ne s.regs table_write_base a x (λ e. absurd (omega (arith, e, high))))

    view_of-loaded : view_of loaded ≡ view_of s
    view_of-loaded =
        view_of-same asked loaded.regs (λ a low high.
          put_words_other asked.regs table_read_base w a (λ e. absurd (omega (arith, e, high)))
            (λ e. absurd (omega (arith, e, high))) (λ e. absurd (omega (arith, e, high))))
        ∙ view_of-asked

    view_of-written : view_of written ≡ view_of s
    view_of-written = view_of-same s written.regs (λ a low high.
        put_words_other s.regs table_write_base w a (λ e. absurd (omega (arith, e, high)))
          (λ e. absurd (omega (arith, e, high))) (λ e. absurd (omega (arith, e, high))))

  get_4k_lem :
      (v : ℕ) (d : D)
      → v < 4096
      → Gives (view b k) (ok ((view b k d).vlan v)) (view b k d) (get_vlan_4k b v d)
  unfolding get_vlan_4k
  get_4k_lem v d h =
      let below : leb 4096 v ≡ false = ground arith in
      let s = k.store d in
      let x = bit_and v 0xfff % 2 ^ 16 in
      let w = row s (x % 4096) in
      let g₁ = k.writes table_write_base (bit_and v 0xfff) d refl in
      let d₁ = (b.write_reg table_write_base (bit_and v 0xfff) d).1 in
      let g₂ : Gives k.store (ok tt) (loaded s x w)
          (b.write_reg table_access_ctrl table_vlan_read d₁) =
        rw g₁.tables at (k.loads d₁) in
      let d₂ = (b.write_reg table_access_ctrl table_vlan_read d₁).1 in
      let g₃ : Gives k.store (ok w) (loaded s x w) (read_words b table_read_base d₂) =
        rw g₂.tables at (read_words-Gives b k table_read_base d₂ refl refl refl) in
      rw below (
        Gives->>= (b.write_reg table_write_base (bit_and v 0xfff)) _ (to_view b k g₁) (
          Gives->>= (b.write_reg table_access_ctrl table_vlan_read) _ (to_view b k g₂) (
            Gives->>= (read_words b table_read_base) _ (to_view b k g₃) (record {
              outcome = ap (λ (j : ℕ). ok (vlan_4k_of v (row s j))) (named v h);
              tables = ap view_of g₃.tables ∙ view_of-loaded s x w;
            }))))

  set_4k_lem :
      (v : Vlan4k) (d : D)
      → Vlan4kFits 256 v
      → Gives
          (view b k)
          (ok tt)
          (record (view b k d) { vlan = update (view b k d).vlan v.vid v })
          (set_vlan_4k b v d)
  unfolding set_vlan_4k
  set_4k_lem v d f =
      let good : (leb 4096 v.vid || ltb 255 v.member || ltb 255 v.untag || ltb 7 v.fid) ≡ false =
        ground (arith, f) in
      let w = vlan_4k_words v in
      let s₁ = written (k.store d) 0 (kept w) in
      let g₁ = write_words-Gives b k table_write_base w d refl refl refl in
      let d₁ = (write_words b table_write_base w d).1 in
      let g₂ = rw g₁.tables at (k.saves d₁) in
      rw good (
        Gives->>= (write_words b table_write_base w) _ (to_view b k g₁) (record {
          outcome = g₂.outcome;
          tables =
              ap view_of g₂.tables
              ∙ ap
                  (λ (n : ℕ). view_of (record s₁ {
                    masks = update s₁.masks n (kept w).second;
                    fids = update s₁.fids n (kept w).third;
                  }))
                  (named v.vid f.vid_fits)
              ∙ view_of-4k s₁ v f
              ∙ ap (λ (u : View). record u { vlan = update u.vlan v.vid v })
                  (view_of-written (k.store d) 0 (kept w));
        }))

  -- A change of the global control register leaves the tables alone.
  control_lem : (mask x : ℕ) (d : D) → Gives (view b k) (ok tt) (view b k d) (rmwr b sgcr mask x d)
  control_lem mask x d =
      let g = rmwr-Gives b k sgcr mask x d refl refl in
      let new = bit_or (bit_and ((k.store d).regs sgcr) (2 ^ 32 - 1 - mask)) x % 2 ^ 16 in
      record {
        outcome = g.outcome;
        tables =
            ap view_of g.tables
            ∙ view_of-same (k.store d) (update (k.store d).regs sgcr new) (λ a low high.
              update_ne (k.store d).regs sgcr a new (λ e. absurd (omega (arith, e, low))));
      }

  enable_vlan-Gives : (e : ℕ) (d : D) → Gives (view b k) (ok tt) (view b k d) (enable_vlan b e d)
  unfolding enable_vlan
  enable_vlan-Gives e d = control_lem sgcr_en_vlan _ d

  enable_vlan4k-Gives :
      (e : ℕ) (d : D) → Gives (view b k) (ok tt) (view b k d) (enable_vlan4k b e d)
  unfolding enable_vlan4k
  enable_vlan4k-Gives e d = control_lem sgcr_en_vlan_4ktb _ d

  index_in : (p : ℕ) (d : D) → (view b k d).index p < num_vlans
  index_in p d = elim (Bool-cases (ltb p num_ports)) [
    | inl e ↦
        rw e (
          omega (arith, low_4 ((k.store d).regs (port_vlan_ctrl_reg p) >>> port_vlan_ctrl_shift p)))
    | inr e ↦ rw e (omega arith)
  ]

  mc_fits : (i : ℕ) (d : D) → McFits 256 ((view b k d).mc i)
  mc_fits i d = elim (Bool-cases (ltb i num_vlans)) [
    | inl e ↦ rw e (mc_of-McFits (words_at (k.store d).regs (vlan_mc_base i)))
    | inr e ↦ rw e (omega arith)
  ]

  -- The operations of rtl8366rb.c implement the tables of the VLAN code, on a chip whose registers
  -- and 4K table behave as `Asic` says.
  pub implements : Tables (ops b)
  implements = record {
    view = view b k;
    masks = 256;
    masks_least = omega arith;
    masks_most = omega arith;
    get_mc = get_mc_lem;
    set_mc = set_mc_lem;
    get_4k = get_4k_lem;
    set_4k = set_4k_lem;
    get_index = get_index_lem;
    set_index = set_index_lem;
    switch_vlan = enable_vlan-Gives;
    switch_vlan4k = enable_vlan4k-Gives;
    index_in = index_in;
    mc_fits = mc_fits;
    vlan_fits = λ v d h. vlan_4k_of-Vlan4kFits v (row (k.store d) v) h;
    vlan_vid = λ v d h. refl;
    few_ports = omega arith;
    cpu_in = omega arith;
  }
