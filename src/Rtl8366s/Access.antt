-- ===== src/Rtl8366s/Access.antt =====
-- The register accesses of rtl8366s.c on a chip that behaves as `Asic` says.
use wair_os.Base.{
  ℕ, ◌+◌, ◌-◌, ◌%◌, ◌^◌, ◌≡◌, refl, ◌∙◌, ap, true, bit_and, bit_or, Outcome, ok, update,
}
use wair_os.Vlan.View.{View, Gives, Gives->>=}
use wair_os.Rtl8366.{Bus, rmwr}
use wair_os.Rtl8366s.{read_pair, write_pair}
use wair_os.Rtl8366s.Asic.{Store, Asic, is_storage, is_readable, view_of}

module _ {D : Type 0} (b : Bus D) (k : Asic b) where
  abbrev pub view : D → View
  view d = view_of (k.store d)

  pub to_view :
      {A : Type 0} {o : Outcome A} {s : Store} {r : Outcome A × D}
      → Gives k.store o s r
      → Gives view o (view_of s) r
  to_view g = record { outcome = g.outcome; tables = ap view_of g.tables }

  pub read_pair-Gives :
      (a : ℕ) (d : D)
      → is_readable a ≡ true
      → is_readable (a + 1) ≡ true
      → Gives k.store
          (ok ((k.store d).regs a, (k.store d).regs (a + 1)))
          (k.store d)
          (read_pair b a d)
  read_pair-Gives a d p q = Gives->>= (b.read_reg a) _ (k.reads a d p) (
      Gives->>= (b.read_reg (a + 1)) _
        (rw (k.reads a d p).tables at (k.reads (a + 1) (b.read_reg a d).1 q))
        (record {
          outcome = refl;
          tables = (k.reads (a + 1) (b.read_reg a d).1 q).tables ∙ (k.reads a d p).tables;
        }))

  pub write_pair-Gives :
      (a x y : ℕ) (d : D)
      → is_storage a ≡ true
      → is_storage (a + 1) ≡ true
      → Gives k.store
          (ok tt)
          (record (k.store d) {
            regs = update (update (k.store d).regs a (x % 2 ^ 16)) (a + 1) (y % 2 ^ 16);
          })
          (write_pair b a x y d)
  write_pair-Gives a x y d p q =
      Gives->>= (b.write_reg a x) _ (k.writes a x d p)
        (rw (k.writes a x d p).tables at (k.writes (a + 1) y (b.write_reg a x d).1 q))

  pub rmwr-Gives :
      (a mask x : ℕ) (d : D)
      → is_storage a ≡ true
      → is_readable a ≡ true
      → Gives k.store
          (ok tt)
          (record (k.store d) {
            regs =
                update
                  (k.store d).regs
                  a
                  (bit_or (bit_and ((k.store d).regs a) (2 ^ 32 - 1 - mask)) x % 2 ^ 16);
          })
          (rmwr b a mask x d)
  unfolding rmwr
  rmwr-Gives a mask x d p q = Gives->>= (b.read_reg a) _ (k.reads a d q) (
      rw (k.reads a d q).tables at (
        k.writes a (bit_or (bit_and ((k.store d).regs a) (2 ^ 32 - 1 - mask)) x) (b.read_reg a d).1
          p))
