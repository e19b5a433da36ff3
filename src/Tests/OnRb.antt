-- ===== src/Tests/OnRb.antt =====
-- An RTL8366RB that behaves, and the theorems of rtl8366rb.c on it.
use wair_os.Base.{
  ℕ, ◌+◌, ◌%◌, ◌^◌, ◌≡◌, refl, ap, ◌∙◌, ◌==◌, if◌then◌else◌, true, false, ok, arith, update,
}
use wair_os.Vlan.{Smi, init_vlan, get_pvid, port_mask}
use wair_os.Vlan.View.{Gives, Tables}
use wair_os.Rtl8366.{Bus}
use wair_os.Rtl8366rb.{
  ops, table_access_ctrl, table_vlan_read, table_vlan_write, table_read_base, table_write_base,
  Words,
}
use wair_os.Rtl8366rb.Asic.{Store, Asic, selected, is_storage, put_words}
use wair_os.Rtl8366rb.Implements.{implements}
use wair_os.Rtl8366rb.Boot.{get_pvid-init_vlan_rb}
use wair_os.Rtl8366rb.Control.{
  sw_set_port_rate_in, sw_get_port_rate_in, sw_set_port_rate_out, sw_get_port_rate_out,
}
use wair_os.Rtl8366rb.Rates.{get_port_rate-set_port_rate}
use wair_os.Tests.{reduce-update}

-- Sixteen bits of everything.
abbrev held : Store → Store
held s = record {
  regs = λ a. s.regs a % 2 ^ 16;
  masks = λ v. s.masks v % 2 ^ 16;
  fids = λ v. s.fids v % 2 ^ 16;
}

abbrev asked_row : Store → Words
asked_row s =
    let v = selected (held s) in
    record { first = v; second = (held s).masks v; third = (held s).fids v }

abbrev load : Store → Store
load s = record s { regs = put_words s.regs table_read_base (asked_row s) }

abbrev save : Store → Store
save s = record s {
  masks = update s.masks (selected (held s)) (s.regs (table_write_base + 1));
  fids = update s.fids (selected (held s)) (s.regs (table_write_base + 2));
}

abbrev chip : Bus Store
chip = record {
  read_reg = λ a s. (ok (s.regs a % 2 ^ 16), s);
  write_reg = λ a x s. (
    ok tt,
    if a == table_access_ctrl
        then (if x == table_vlan_read
            then load s
            else (if x == table_vlan_write then save s else s))
        else record s { regs = update s.regs a x },
  );
}

chip-writes :
    (a x : ℕ) (d : Store)
    → is_storage a ≡ true
    → Gives held
        (ok tt)
        (record (held d) { regs = update (held d).regs a (x % 2 ^ 16) })
        (chip.write_reg a x d)
chip-writes a x d h =
    let plain : (a == table_access_ctrl) ≡ false = ground arith in
    rw plain (record {
      outcome = refl;
      tables = ap (λ (f : ℕ → ℕ). record (held d) { regs = f }) (reduce-update d.regs a x);
    })

-- Sixteen bits of three registers in a row.
reduce-put_words :
    (f : ℕ → ℕ) (a : ℕ) (w : Words)
    → (λ j. put_words f a w j % 2 ^ 16)
      ≡ put_words
          (λ j. f j % 2 ^ 16)
          a
          (record {
            first = w.first % 2 ^ 16;
            second = w.second % 2 ^ 16;
            third = w.third % 2 ^ 16;
          })
reduce-put_words f a w =
    reduce-update (update (update f a w.first) (a + 1) w.second) (a + 2) w.third
    ∙ ap (λ (g : ℕ → ℕ). update g (a + 2) (w.third % 2 ^ 16))
        (reduce-update (update f a w.first) (a + 1) w.second
          ∙ ap (λ (g : ℕ → ℕ). update g (a + 1) (w.second % 2 ^ 16)) (reduce-update f a w.first))

asked_row-small :
    (s : Store)
    → record {
      first = (asked_row s).first % 2 ^ 16;
      second = (asked_row s).second % 2 ^ 16;
      third = (asked_row s).third % 2 ^ 16;
    }
      ≡ asked_row s
asked_row-small s =
    let v = selected (held s) in
    let first : v % 2 ^ 16 ≡ v = omega arith in
    let second : s.masks v % 2 ^ 16 % 2 ^ 16 ≡ s.masks v % 2 ^ 16 = omega arith in
    let third : s.fids v % 2 ^ 16 % 2 ^ 16 ≡ s.fids v % 2 ^ 16 = omega arith in
    rw (first, second, third) refl

held-load :
    (s : Store)
    → held (load s)
      ≡ record (held s) { regs = put_words (held s).regs table_read_base (asked_row s) }
held-load s =
    ap (λ (f : ℕ → ℕ). record (held s) { regs = f })
      (reduce-put_words s.regs table_read_base (asked_row s)
        ∙ ap (put_words (held s).regs table_read_base) (asked_row-small s))

held-save :
    (s : Store)
    → held (save s) ≡ record (held s) {
      masks = update (held s).masks (selected (held s)) ((held s).regs (table_write_base + 1));
      fids = update (held s).fids (selected (held s)) ((held s).regs (table_write_base + 2));
    }
held-save s =
    let v = selected (held s) in
    ap
      (λ (f : ℕ → ℕ). record (held s) {
        masks = f;
        fids = λ j. update s.fids v (s.regs (table_write_base + 2)) j % 2 ^ 16;
      })
      (reduce-update s.masks v (s.regs (table_write_base + 1)))
    ∙ ap
        (λ (f : ℕ → ℕ). record (held s) {
          masks = update (held s).masks v ((held s).regs (table_write_base + 1));
          fids = f;
        })
        (reduce-update s.fids v (s.regs (table_write_base + 2)))

chip-Asic : Asic chip
chip-Asic = record {
  store = held;
  regs_fit = λ a d. omega arith;
  reads = λ a d h. record { outcome = refl; tables = refl };
  writes = chip-writes;
  loads = λ d. record { outcome = refl; tables = held-load d };
  saves = λ d. record { outcome = refl; tables = held-save d };
}

abbrev fresh : Smi Store
fresh = record {
  dev = record { regs = λ a. 0; masks = λ v. 0; fids = λ v. 0 };
  vlan_enabled = 1;
  vlan4k_enabled = 0;
}

abbrev on_tables : Tables (ops chip)
on_tables = implements chip chip-Asic

get_pvid-init_vlan_rb_example :
    ((init_vlan (ops chip) fresh).0 ≡ ok tt)
    × ((get_pvid (ops chip) 3 (init_vlan (ops chip) fresh).1.dev).0 ≡ ok 4)
    × (((on_tables.view (init_vlan (ops chip) fresh).1.dev).vlan 4).member ≡ port_mask (ops chip) 3)
    × (((on_tables.view (init_vlan (ops chip) fresh).1.dev).vlan 4).untag ≡ port_mask (ops chip) 3)
get_pvid-init_vlan_rb_example = get_pvid-init_vlan_rb chip chip-Asic fresh 3 (omega arith)

get_port_rate-set_port_rate_example :
    ((sw_set_port_rate_in chip 2 1000 fresh.dev).0 ≡ ok tt)
    × ((sw_get_port_rate_in chip 0 2 (sw_set_port_rate_in chip 2 1000 fresh.dev).1).0 ≡ ok 1024)
    × ((sw_set_port_rate_out chip 2 1000 fresh.dev).0 ≡ ok tt)
    × ((sw_get_port_rate_out chip 0 2 (sw_set_port_rate_out chip 2 1000 fresh.dev).1).0 ≡ ok 1024)
get_port_rate-set_port_rate_example =
    get_port_rate-set_port_rate chip chip-Asic 2 (omega arith) 1000 0 fresh.dev
