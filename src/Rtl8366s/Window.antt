-- ===== src/Rtl8366s/Window.antt =====
-- The 4K table of rtl8366s.c, which is read and written through two windows of registers.
use wair_os.Base.{
  ℕ, ◌+◌, ◌%◌, ◌^◌, ◌<◌, ◌≤◌, ◌≡◌, refl, ◌∙◌, arith, ap, ltb, leb, ◌||◌, false, bit_and, ok, update,
}
use wair_os.Vlan.{Vlan4k}
use wair_os.Vlan.View.{View, Vlan4kFits, Gives, Gives->>=}
use wair_os.Rtl8366.{Bus}
use wair_os.Rtl8366s.{
  second_word, table_read_base, table_write_base, read_pair, write_pair, get_vlan_4k, set_vlan_4k,
  table_access_ctrl, table_vlan_read, table_vlan_write,
}
use wair_os.Rtl8366s.Asic.{Store, Asic, selected, view_of, decode_4k}
use wair_os.Rtl8366s.Words.{low_12}
use wair_os.Rtl8366s.Entries.{view_of-elsewhere}
use wair_os.Rtl8366s.Slots.{view_of-4k}
use wair_os.Rtl8366s.Access.{view, to_view, read_pair-Gives, write_pair-Gives}

-- The windows of the 4K table are away from the registers of the other tables.
pub far :
    (s : Store) (a x : ℕ) → 0x5A ≤ a → view_of (record s { regs = update s.regs a x }) ≡ view_of s
far s a x h =
    view_of-elsewhere s a x
      (λ i lt. (λ e. absurd (omega (arith, e)), λ e. absurd (omega (arith, e))))
      (λ p lt e. absurd (omega (arith, e)))

named : (v : ℕ) → v < 4096 → bit_and v 0xfff % 2 ^ 16 % 4096 ≡ v
named v h = omega (arith, low_12 v)

module _ (s : Store) (v : ℕ) where
  abbrev asked : Store
  asked = record s { regs = update s.regs table_write_base (bit_and v 0xfff % 2 ^ 16) }

  abbrev loaded : Store
  loaded = record asked {
    regs =
        update (update asked.regs table_read_base (selected asked)) (table_read_base + 1)
          (asked.table (selected asked));
  }

  view_of-loaded : view_of loaded ≡ view_of s
  view_of-loaded =
      far (record asked { regs = update asked.regs table_read_base (selected asked) })
        (table_read_base + 1) (asked.table (selected asked)) (omega arith)
      ∙ far asked table_read_base (selected asked) (omega arith)
      ∙ far s table_write_base (bit_and v 0xfff % 2 ^ 16) (omega arith)

module _ (s : Store) (v : Vlan4k) where
  abbrev written : Store
  written = record s {
    regs =
        update (update s.regs table_write_base (bit_and v.vid 0xfff % 2 ^ 16))
          (table_write_base + 1) (second_word v.member v.untag v.fid % 2 ^ 16);
  }

  view_of-written : view_of written ≡ view_of s
  view_of-written =
      far (record s { regs = update s.regs table_write_base (bit_and v.vid 0xfff % 2 ^ 16) })
        (table_write_base + 1) (second_word v.member v.untag v.fid % 2 ^ 16) (omega arith)
      ∙ far s table_write_base (bit_and v.vid 0xfff % 2 ^ 16) (omega arith)

module _ {D : Type 0} (b : Bus D) (k : Asic b) where
  pub get_4k_lem :
      (v : ℕ) (d : D)
      → v < 4096
      → Gives (view b k) (ok ((view b k d).vlan v)) (view b k d) (get_vlan_4k b v d)
  unfolding get_vlan_4k
  get_4k_lem v d h = rw below (
      Gives->>= (b.write_reg table_write_base (bit_and v 0xfff)) _ (to_view b k g₁) (
        Gives->>= (b.write_reg table_access_ctrl table_vlan_read) _ (to_view b k g₂) (
          Gives->>= (read_pair b table_read_base) _ (to_view b k g₃) (record {
            outcome = answer;
            tables = ap view_of g₃.tables ∙ view_of-loaded (k.store d) v;
          }))))
    where
      below : leb 4096 v ≡ false
      below = ground arith

      g₁ :
          Gives k.store
            (ok tt)
            (asked (k.store d) v)
            (b.write_reg table_write_base (bit_and v 0xfff) d)
      g₁ = k.writes table_write_base (bit_and v 0xfff) d refl

      d₁ : D
      d₁ = (b.write_reg table_write_base (bit_and v 0xfff) d).1

      g₂ :
          Gives k.store
            (ok tt)
            (loaded (k.store d) v)
            (b.write_reg table_access_ctrl table_vlan_read d₁)
      g₂ = rw g₁.tables at (k.loads d₁)

      d₂ : D
      d₂ = (b.write_reg table_access_ctrl table_vlan_read d₁).1

      g₃ :
          Gives k.store
            (ok (
              (loaded (k.store d) v).regs table_read_base,
              (loaded (k.store d) v).regs (table_read_base + 1),
            ))
            (loaded (k.store d) v)
            (read_pair b table_read_base d₂)
      g₃ = rw g₂.tables at (read_pair-Gives b k table_read_base d₂ refl refl)

      answer :
          ok (decode_4k v ((k.store d).table (bit_and v 0xfff % 2 ^ 16 % 4096)))
          ≡ ok ((view b k d).vlan v)
      answer = rw (named v h)

  pub set_4k_lem :
      (v : Vlan4k) (d : D)
      → Vlan4kFits 64 v
      → Gives
          (view b k)
          (ok tt)
          (record (view b k d) { vlan = update (view b k d).vlan v.vid v })
          (set_vlan_4k b v d)
  unfolding set_vlan_4k
  set_4k_lem v d f = rw good (
      Gives->>=
        (write_pair b table_write_base (bit_and v.vid 0xfff) (second_word v.member v.untag v.fid)) _
        (to_view b k g₁) (record { outcome = g₂.outcome; tables = ap view_of g₂.tables ∙ seen }))
    where
      good : (leb 4096 v.vid || ltb 63 v.member || ltb 63 v.untag || ltb 7 v.fid) ≡ false
      good = ground (arith, f)

      s₁ : Store
      s₁ = written (k.store d) v

      g₁ : Gives k.store (ok tt) s₁ (
          write_pair b table_write_base
            (bit_and v.vid 0xfff)
            (second_word v.member v.untag v.fid)
            d)
      g₁ =
          write_pair-Gives b k table_write_base (bit_and v.vid 0xfff)
            (second_word v.member v.untag v.fid) d refl refl

      d₁ : D
      d₁ =
          (write_pair b table_write_base (bit_and v.vid 0xfff) (second_word v.member v.untag v.fid)
            d).1

      g₂ :
          Gives k.store
            (ok tt)
            (record s₁ { table = update s₁.table (selected s₁) (s₁.regs (table_write_base + 1)) })
            (b.write_reg table_access_ctrl table_vlan_write d₁)
      g₂ = rw g₁.tables at (k.saves d₁)

      seen :
          view_of
            (record s₁ { table = update s₁.table (selected s₁) (s₁.regs (table_write_base + 1)) })
          ≡ record (view b k d) { vlan = update (view b k d).vlan v.vid v }
      seen = rw (named v.vid f.vid_fits) (
          view_of-4k s₁ v f
          ∙ ap (λ (w : View). record w { vlan = update w.vlan v.vid v })
              (view_of-written (k.store d) v))
