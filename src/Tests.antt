-- ===== src/Tests.antt =====
-- An RTL8366S that behaves, as an executable chip, on which the theorems of the driver are applied.
mod OnSmi
mod OnVlan
mod OnChip
mod OnStart
mod OnEth
mod OnMemory
mod OnRb
mod OnAr8216
mod OnAr7240
use wair_os.Base.{
  ℕ, ◌+◌, ◌%◌, ◌^◌, ◌≡◌, inl, inr, refl, ap, ◌∙◌, fun_ext, ◌==◌, if◌then◌else◌, Bool, true, false,
  ◌&&◌, Bool-cases, Outcome, ok, Op, arith, update,
}
use native.Mathlib.Nat.{mod-eq_of_lt}
use wair_os.Vlan.{Smi, init_vlan}
use wair_os.Vlan.View.{Gives, Tables}
use wair_os.Vlan.Init.{Setup}
use wair_os.Vlan.Reset.{init_vlan-Setup}
use wair_os.Rtl8366.{Bus}
use wair_os.Rtl8366s.Implements.{implements, implements-masks}
use wair_os.Rtl8366s.{
  ops, table_access_ctrl, table_vlan_read, table_vlan_write, table_read_base, table_write_base,
}
use wair_os.Rtl8366s.Asic.{Store, Asic, selected, is_storage}

-- Registers and table entries of sixteen bits.
abbrev pub held : Store → Store
held s = record { regs = λ a. s.regs a % 2 ^ 16; table = λ v. s.table v % 2 ^ 16 }

abbrev pub load : Store → Store
load s = record s {
  regs =
      update (update s.regs table_read_base (selected (held s))) (table_read_base + 1)
        (s.table (selected (held s)));
}

abbrev pub save : Store → Store
save s = record s { table = update s.table (selected (held s)) (s.regs (table_write_base + 1)) }

abbrev pub sim : Bus Store
sim = record {
  read_reg = λ a s. (ok (s.regs a % 2 ^ 16), s);
  write_reg = λ a x s. (
    ok tt,
    if a == table_access_ctrl
        then (if x == table_vlan_read
            then load s
            else (if x == table_vlan_write then save s else s))
        else record s { regs = update s.regs a x },
  );
}

-- Reduction commutes with a change.
pub reduce-update :
    (f : ℕ → ℕ) (a x : ℕ)
    → (λ j. update f a x j % 2 ^ 16) ≡ update (λ j. f j % 2 ^ 16) a (x % 2 ^ 16)
reduce-update f a x = fun_ext (λ j. elim (Bool-cases (j == a)) [ inl e ↦ rw e | inr e ↦ rw e ])

sim-writes :
    (a x : ℕ) (d : Store)
    → is_storage a ≡ true
    → Gives held
        (ok tt)
        (record (held d) { regs = update (held d).regs a (x % 2 ^ 16) })
        (sim.write_reg a x d)
sim-writes a x d h = rw plain (record {
  outcome = refl;
  tables = ap (λ (f : ℕ → ℕ). record (held d) { regs = f }) (reduce-update d.regs a x);
})
  where
    plain : (a == table_access_ctrl) ≡ false
    plain = ground arith

held-load :
    (s : Store)
    → held (load s) ≡ record (held s) {
      regs =
          update
            (update (held s).regs table_read_base (selected (held s)))
            (table_read_base + 1)
            ((held s).table (selected (held s)));
    }
held-load s =
    ap (λ (f : ℕ → ℕ). record (held s) { regs = f })
      (reduce-update (update s.regs table_read_base k) (table_read_base + 1) (s.table k)
        ∙ ap (λ (f : ℕ → ℕ). update f (table_read_base + 1) (s.table k % 2 ^ 16))
            (reduce-update s.regs table_read_base k
              ∙ ap (update (held s).regs table_read_base) small))
  where
    k : ℕ
    k = selected (held s)

    small : k % 2 ^ 16 ≡ k
    small = omega arith

held-save :
    (s : Store)
    → held (save s) ≡ record (held s) {
      table = update (held s).table (selected (held s)) ((held s).regs (table_write_base + 1));
    }
held-save s =
    ap (λ (f : ℕ → ℕ). record (held s) { table = f })
      (reduce-update s.table (selected (held s)) (s.regs (table_write_base + 1)))

-- It keeps what the driver relies on.
pub sim-Asic : Asic sim
sim-Asic = record {
  store = held;
  regs_fit = λ a d. omega arith;
  reads = λ a d h. record { outcome = refl; tables = refl };
  writes = sim-writes;
  loads = λ d. record { outcome = refl; tables = held-load d };
  saves = λ d. record { outcome = refl; tables = held-save d };
}

-- A chip that has not been written, and the same after the VLANs are set up.
abbrev pub fresh : Smi Store
fresh = record {
  dev = record { regs = λ a. 0; table = λ v. 0 };
  vlan_enabled = 1;
  vlan4k_enabled = 0;
}

abbrev pub on_tables : Tables (ops sim)
on_tables = implements sim sim-Asic

pub on_tables-masks : on_tables.masks ≡ 64
on_tables-masks = implements-masks sim sim-Asic

abbrev pub booted : Smi Store
booted = (init_vlan (ops sim) fresh).1

pub booted-Setup : Setup (ops sim) on_tables 6 (on_tables.view booted.dev)
booted-Setup = (init_vlan-Setup (ops sim) on_tables fresh (omega arith)).3
