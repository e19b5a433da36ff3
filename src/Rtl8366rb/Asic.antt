-- ===== src/Rtl8366rb/Asic.antt =====
-- What the driver relies on of the RTL8366RB chip behind the bus: the registers that hold their
-- value, and the 4K VLAN table, which is read and written through a pair of windows.
use wair_os.Base.{
  ℕ, ◌+◌, ◌%◌, ◌^◌, ◌<◌, ◌≡◌, Bool, true, ◌||◌, ◌&&◌, leb, ltb, if◌then◌else◌, ok, update,
}
use wair_os.Vlan.{cleared}
use wair_os.Vlan.View.{View, Gives}
use wair_os.Rtl8366.{Bus}
use wair_os.Rtl8366s.Asic.{index_field}
use wair_os.Rtl8366rb.{
  num_ports, num_vlans, num_vids, table_access_ctrl, table_vlan_read, table_vlan_write,
  table_read_base, table_write_base, vlan_mc_base, port_vlan_ctrl_reg, Words, mc_of, vlan_4k_of,
}

-- The registers, and the second and third word of each entry of the 4K table.
pub record Store : Type 0 where
  pub regs : ℕ → ℕ
  pub masks : ℕ → ℕ
  pub fids : ℕ → ℕ

abbrev pub within : ℕ → ℕ → ℕ → Bool
within a low high = leb low a && leb a high

-- Control registers, the MC table, the MC index of the ports, the bandwidth limits, and the write
-- window.
abbrev pub is_storage : ℕ → Bool
is_storage a =
    leb a 0x4
    || within a 0x20 0x4F
    || within a 0x63 0x64
    || within a 0x200 0x205
    || within a 0x2d1 0x2d6
    || within a table_write_base (table_write_base + 2)

abbrev pub is_readable : ℕ → Bool
is_readable a = is_storage a || within a table_read_base (table_read_base + 2)

-- The entry that the write window names.
abbrev pub selected : Store → ℕ
selected s = s.regs table_write_base % num_vids

-- Three registers in a row.
abbrev pub put_words : (ℕ → ℕ) → ℕ → Words → ℕ → ℕ
put_words f a w = update (update (update f a w.first) (a + 1) w.second) (a + 2) w.third

abbrev pub words_at : (ℕ → ℕ) → ℕ → Words
words_at f a = record { first = f a; second = f (a + 1); third = f (a + 2) }

pub record Asic {D : Type 0} (b : Bus D) : Type 0 where
  pub store : D → Store
  pub regs_fit : (a : ℕ) (d : D) → (store d).regs a < 2 ^ 16
  pub reads :
      (a : ℕ) (d : D)
      → is_readable a ≡ true
      → Gives store (ok ((store d).regs a)) (store d) (b.read_reg a d)
  -- Sixteen bits of the value are sent.
  pub writes :
      (a x : ℕ) (d : D)
      → is_storage a ≡ true
      → Gives store
          (ok tt)
          (record (store d) { regs = update (store d).regs a (x % 2 ^ 16) })
          (b.write_reg a x d)
  pub loads :
      (d : D)
      → Gives store
          (ok tt)
          (record (store d) {
            regs = put_words (store d).regs table_read_base (record {
              first = selected (store d);
              second = (store d).masks (selected (store d));
              third = (store d).fids (selected (store d));
            });
          })
          (b.write_reg table_access_ctrl table_vlan_read d)
  pub saves :
      (d : D)
      → Gives store
          (ok tt)
          (record (store d) {
            masks =
                update (store d).masks (selected (store d)) ((store d).regs (table_write_base + 1));
            fids =
                update (store d).fids (selected (store d)) ((store d).regs (table_write_base + 2));
          })
          (b.write_reg table_access_ctrl table_vlan_write d)

-- The words of an entry of the 4K table. The first is the VLAN number.
abbrev pub row : Store → ℕ → Words
row s v = record { first = v; second = s.masks v; third = s.fids v }

-- The tables of the VLAN code in the registers.
abbrev pub view_of : Store → View
view_of s = record {
  mc = λ i. if ltb i num_vlans then mc_of (words_at s.regs (vlan_mc_base i)) else cleared;
  index = λ p. if ltb p num_ports then index_field p (s.regs (port_vlan_ctrl_reg p)) else 0;
  vlan = λ v. vlan_4k_of v (row s v);
}
