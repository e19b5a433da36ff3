-- ===== src/Rtl8366rb/Access.antt =====
-- The register accesses of rtl8366rb.c on a chip that behaves as `Asic` says.
use wair_os.Base.{
  ℕ, ◌+◌, ◌-◌, ◌%◌, ◌^◌, ◌≡◌, refl, ap, true, bit_and, bit_or, Outcome, ok, ◌>>◌, update,
}
use wair_os.Vlan.View.{View, Gives, Gives->>=}
use wair_os.Rtl8366.{Bus, rmwr}
use wair_os.Rtl8366rb.{Words, read_words, write_words}
use wair_os.Rtl8366rb.Asic.{Store, Asic, is_storage, is_readable, view_of, put_words, words_at}
use wair_os.Rtl8366rb.Codec.{kept}

module _ {D : Type 0} (b : Bus D) (k : Asic b) where
  abbrev pub view : D → View
  view d = view_of (k.store d)

  pub to_view :
      {A : Type 0} {o : Outcome A} {s : Store} {r : Outcome A × D}
      → Gives k.store o s r
      → Gives view o (view_of s) r
  to_view g = record { outcome = g.outcome; tables = ap view_of g.tables }

  pub read_words-Gives :
      (a : ℕ) (d : D)
      → is_readable a ≡ true
      → is_readable (a + 1) ≡ true
      → is_readable (a + 2) ≡ true
      → Gives k.store (ok (words_at (k.store d).regs a)) (k.store d) (read_words b a d)
  read_words-Gives a d p q r =
      let g₁ = k.reads a d p in
      let d₁ = (b.read_reg a d).1 in
      let g₂ : Gives k.store (ok ((k.store d).regs (a + 1))) (k.store d) (b.read_reg (a + 1) d₁) =
        rw g₁.tables at (k.reads (a + 1) d₁ q) in
      let d₂ = (b.read_reg (a + 1) d₁).1 in
      let g₃ : Gives k.store (ok ((k.store d).regs (a + 2))) (k.store d) (b.read_reg (a + 2) d₂) =
        rw g₂.tables at (k.reads (a + 2) d₂ r) in
      Gives->>= (b.read_reg a) _ g₁ (
        Gives->>= (b.read_reg (a + 1)) _ g₂
          (Gives->>= (b.read_reg (a + 2)) _ g₃ (record { outcome = refl; tables = g₃.tables })))

  pub write_words-Gives :
      (a : ℕ) (w : Words) (d : D)
      → is_storage a ≡ true
      → is_storage (a + 1) ≡ true
      → is_storage (a + 2) ≡ true
      → Gives k.store
          (ok tt)
          (record (k.store d) { regs = put_words (k.store d).regs a (kept w) })
          (write_words b a w d)
  write_words-Gives a w d p q r =
      let g₁ = k.writes a w.first d p in
      let pair = b.write_reg a w.first >> b.write_reg (a + 1) w.second in
      let g₂ =
        Gives->>= (b.write_reg a w.first) (λ _. b.write_reg (a + 1) w.second) g₁
          (rw g₁.tables at (k.writes (a + 1) w.second (b.write_reg a w.first d).1 q)) in
      Gives->>= pair (λ _. b.write_reg (a + 2) w.third) g₂
        (rw g₂.tables at (k.writes (a + 2) w.third (pair d).1 r))

  pub rmwr-Gives :
      (a mask x : ℕ) (d : D)
      → is_storage a ≡ true
      → is_readable a ≡ true
      → Gives k.store
          (ok tt)
          (record (k.store d) {
            regs =
                update
                  (k.store d).regs
                  a
                  (bit_or (bit_and ((k.store d).regs a) (2 ^ 32 - 1 - mask)) x % 2 ^ 16);
          })
          (rmwr b a mask x d)
  unfolding rmwr
  rmwr-Gives a mask x d p q = Gives->>= (b.read_reg a) _ (k.reads a d q) (
      rw (k.reads a d q).tables at (
        k.writes a (bit_or (bit_and ((k.store d).regs a) (2 ^ 32 - 1 - mask)) x) (b.read_reg a d).1
          p))
