-- ===== src/Rtl8366s.antt =====
-- The chip driver rtl8366s.c (target/linux/generic-2.6/files/drivers/net/phy) over a bus.
-- A port number is not negative. The 32-bit variables hold 16-bit register values here, so the
-- masks and shifts of the driver do not wrap. `msleep` and messages are left out.
pub mod Counters
pub mod Width
pub mod Control
pub mod Asic
pub mod Words
pub mod Fields
pub mod Entries
pub mod Slots
pub mod Access
pub mod Window
pub mod Implements
pub mod Readback
pub mod Boot
use wair_os.Base.{
  ℕ, ◌+◌, ◌-◌, ◌*◌, ◌/◌, ◌%◌, ◌^◌, bit_and, bit_or, Bool, true, false, not, ◌&&◌, ◌||◌, ltb, leb,
  ◌==◌, if◌then◌else◌, bit, ◌<<◌, ◌>>>◌, Outcome, ok, err, einval, Op, ◌>>=◌, ◌>>◌, pure, fail,
}
use wair_os.Vlan.{Mc, Vlan4k, Ops}
use wair_os.Rtl8366.{Bus, rmwr}

-- Registers and field widths
abbrev pub sgcr : ℕ
sgcr = 0x0000

abbrev pub sgcr_en_vlan : ℕ
sgcr_en_vlan = bit 13

abbrev pub pecr : ℕ
pecr = 0x0001

abbrev pub vlan_tb_ctrl : ℕ
vlan_tb_ctrl = 0x010F

abbrev pub table_access_ctrl : ℕ
table_access_ctrl = 0x0180

abbrev pub table_vlan_read : ℕ
table_vlan_read = 0x0E01

abbrev pub table_vlan_write : ℕ
table_vlan_write = 0x0F01

abbrev pub table_read_base : ℕ
table_read_base = 0x018B

abbrev pub table_write_base : ℕ
table_write_base = 0x0185

abbrev pub vlan_mc_base : ℕ → ℕ
vlan_mc_base x = 0x0016 + x * 2

abbrev pub port_vlan_ctrl_reg : ℕ → ℕ
port_vlan_ctrl_reg p = 0x0058 + p / 4

abbrev pub port_vlan_ctrl_shift : ℕ → ℕ
port_vlan_ctrl_shift p = 4 * (p % 4)

abbrev pub num_ports : ℕ
num_ports = 6

abbrev pub num_vlans : ℕ
num_vlans = 16

abbrev pub num_vids : ℕ
num_vids = 4096

-- The fields of the two words of an entry.
abbrev pub word_vid : ℕ → ℕ
word_vid x = bit_and x 0xfff

abbrev pub word_priority : ℕ → ℕ
word_priority x = bit_and (x >>> 12) 0x7

abbrev pub word_untag : ℕ → ℕ
word_untag x = bit_and (x >>> 6) 0x3f

abbrev pub word_member : ℕ → ℕ
word_member x = bit_and x 0x3f

abbrev pub word_fid : ℕ → ℕ
word_fid x = bit_and (x >>> 12) 0x7

abbrev pub first_word : ℕ → ℕ → ℕ
first_word vid priority = bit_or (bit_and vid 0xfff) (bit_and priority 0x7 << 12)

abbrev pub second_word : ℕ → ℕ → ℕ → ℕ
second_word member untag fid =
    bit_or (bit_or (bit_and member 0x3f) (bit_and untag 0x3f << 6)) (bit_and fid 0x7 << 12)

module _ {D : Type 0} (b : Bus D) where
  -- The loops over the two words of an entry.
  abbrev pub read_pair : ℕ → Op D (ℕ × ℕ)
  read_pair base = do first ← b.read_reg base; second ← b.read_reg (base + 1); pure (first, second)

  abbrev pub write_pair : ℕ → ℕ → ℕ → Op D (Unit {0})
  write_pair base first second = b.write_reg base first >> b.write_reg (base + 1) second

  unfoldable pub get_vlan_4k : ℕ → Op D Vlan4k
  get_vlan_4k vid = do
    if leb num_vids vid then fail einval else pure tt
    b.write_reg table_write_base (bit_and vid 0xfff)
    b.write_reg table_access_ctrl table_vlan_read
    pair ← read_pair table_read_base
    pure (record {
      vid = vid;
      untag = word_untag (pair.1);
      member = word_member (pair.1);
      fid = word_fid (pair.1);
    })

  unfoldable pub set_vlan_4k : Vlan4k → Op D (Unit {0})
  set_vlan_4k v = do
    if leb num_vids v.vid || ltb 0x3f v.member || ltb 0x3f v.untag || ltb 7 v.fid
        then fail einval
        else pure tt
    write_pair table_write_base (bit_and v.vid 0xfff) (second_word v.member v.untag v.fid)
    b.write_reg table_access_ctrl table_vlan_write

  unfoldable pub get_vlan_mc : ℕ → Op D Mc
  get_vlan_mc index = do
    if leb num_vlans index then fail einval else pure tt
    pair ← read_pair (vlan_mc_base index)
    pure (record {
      vid = word_vid (pair.0);
      priority = word_priority (pair.0);
      untag = word_untag (pair.1);
      member = word_member (pair.1);
      fid = word_fid (pair.1);
    })

  unfoldable pub set_vlan_mc : ℕ → Mc → Op D (Unit {0})
  set_vlan_mc index m = do
    if leb num_vlans index
          || leb num_vids m.vid
          || ltb 7 m.priority
          || ltb 0x3f m.member
          || ltb 0x3f m.untag
          || ltb 7 m.fid
        then fail einval
        else pure tt
    write_pair (vlan_mc_base index) (first_word m.vid m.priority)
        (second_word m.member m.untag m.fid)

  unfoldable pub get_mc_index : ℕ → Op D ℕ
  get_mc_index port = do
    if leb num_ports port then fail einval else pure tt
    data_word ← b.read_reg (port_vlan_ctrl_reg port)
    pure (bit_and (data_word >>> port_vlan_ctrl_shift port) 0xf)

  unfoldable pub set_mc_index : ℕ → ℕ → Op D (Unit {0})
  set_mc_index port index = do
    if leb num_ports port || leb num_vlans index then fail einval else pure tt
    rmwr b (port_vlan_ctrl_reg port) (0xf << port_vlan_ctrl_shift port)
        (bit_and index 0xf << port_vlan_ctrl_shift port)

  unfoldable pub enable_vlan : ℕ → Op D (Unit {0})
  enable_vlan enable = rmwr b sgcr sgcr_en_vlan (if enable == 0 then 0 else sgcr_en_vlan)

  unfoldable pub enable_vlan4k : ℕ → Op D (Unit {0})
  enable_vlan4k enable = rmwr b vlan_tb_ctrl 1 (if enable == 0 then 0 else 1)

  unfoldable pub enable_port : ℕ → ℕ → Op D (Unit {0})
  enable_port port enable = rmwr b pecr (bit port) (if enable == 0 then bit port else 0)

unfoldable pub is_vlan_valid : ℕ → ℕ → Bool
is_vlan_valid vlan4k_enabled vlan =
    let bound = (if vlan4k_enabled == 0 then num_vlans else num_vids - 1) in
    not (vlan == 0 || leb bound vlan)

-- `rtl8366s_smi_ops`, and the fields that the probe function sets
abbrev pub ops : {D : Type 0} → Bus D → Ops D
ops b = record {
  cpu_port = 5;
  num_ports = num_ports;
  num_vlan_mc = num_vlans;
  get_vlan_mc = get_vlan_mc b;
  set_vlan_mc = set_vlan_mc b;
  get_vlan_4k = get_vlan_4k b;
  set_vlan_4k = set_vlan_4k b;
  get_mc_index = get_mc_index b;
  set_mc_index = set_mc_index b;
  is_vlan_valid = is_vlan_valid;
  enable_vlan = enable_vlan b;
  enable_vlan4k = enable_vlan4k b;
  enable_port = enable_port b;
}
