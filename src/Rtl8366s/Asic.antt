-- ===== src/Rtl8366s/Asic.antt =====
-- What the driver relies on of the RTL8366S chip behind the bus: the registers that hold their
-- value, and the 4K VLAN table, which is read and written through a pair of windows.
use wair_os.Base.{
  ℕ, ◌+◌, ◌%◌, ◌^◌, ◌<◌, ◌≡◌, Bool, true, ◌||◌, leb, ltb, ◌==◌, if◌then◌else◌, bit_and, ◌>>>◌, ok,
  update,
}
use wair_os.Vlan.{Mc, Vlan4k, cleared}
use wair_os.Vlan.View.{View, Gives}
use wair_os.Rtl8366.{Bus}
use wair_os.Rtl8366s.{
  num_ports, num_vlans, num_vids, table_access_ctrl, table_vlan_read, table_vlan_write,
  table_read_base, table_write_base, vlan_mc_base, port_vlan_ctrl_reg, port_vlan_ctrl_shift,
  word_vid, word_priority, word_untag, word_member, word_fid,
}

-- The registers, and the second word of each entry of the 4K table.
pub record Store : Type 0 where
  pub regs : ℕ → ℕ
  pub table : ℕ → ℕ

-- Control registers, the MC table, the MC index of the ports, and the write window.
abbrev pub is_storage : ℕ → Bool
is_storage a = leb a 0x59 || a == 0x10F || a == table_write_base || a == table_write_base + 1

abbrev pub is_readable : ℕ → Bool
is_readable a = is_storage a || a == table_read_base || a == table_read_base + 1

-- The entry that the write window names.
abbrev pub selected : Store → ℕ
selected s = s.regs table_write_base % num_vids

pub record Asic {D : Type 0} (b : Bus D) : Type 0 where
  pub store : D → Store
  pub regs_fit : (a : ℕ) (d : D) → (store d).regs a < 2 ^ 16
  pub reads :
      (a : ℕ) (d : D)
      → is_readable a ≡ true
      → Gives store (ok ((store d).regs a)) (store d) (b.read_reg a d)
  -- Sixteen bits of the value are sent.
  pub writes :
      (a x : ℕ) (d : D)
      → is_storage a ≡ true
      → Gives store
          (ok tt)
          (record (store d) { regs = update (store d).regs a (x % 2 ^ 16) })
          (b.write_reg a x d)
  pub loads :
      (d : D)
      → Gives store
          (ok tt)
          (record (store d) {
            regs =
                update
                  (update (store d).regs table_read_base (selected (store d)))
                  (table_read_base + 1)
                  ((store d).table (selected (store d)));
          })
          (b.write_reg table_access_ctrl table_vlan_read d)
  pub saves :
      (d : D)
      → Gives store
          (ok tt)
          (record (store d) {
            table =
                update (store d).table (selected (store d)) ((store d).regs (table_write_base + 1));
          })
          (b.write_reg table_access_ctrl table_vlan_write d)

-- How the driver reads the words of an entry.
abbrev pub decode_mc : ℕ → ℕ → Mc
decode_mc first second = record {
  vid = word_vid first;
  priority = word_priority first;
  untag = word_untag second;
  member = word_member second;
  fid = word_fid second;
}

abbrev pub decode_4k : ℕ → ℕ → Vlan4k
decode_4k vid second = record {
  vid = vid;
  untag = word_untag second;
  member = word_member second;
  fid = word_fid second;
}

abbrev pub index_field : ℕ → ℕ → ℕ
index_field port x = bit_and (x >>> port_vlan_ctrl_shift port) 0xf

-- The tables of the VLAN code in the registers.
abbrev pub view_of : Store → View
view_of s = record {
  mc = λ i.
      if ltb i num_vlans
      then decode_mc (s.regs (vlan_mc_base i)) (s.regs (vlan_mc_base i + 1))
      else cleared;
  index = λ p. if ltb p num_ports then index_field p (s.regs (port_vlan_ctrl_reg p)) else 0;
  vlan = λ v. decode_4k v (s.table v);
}
