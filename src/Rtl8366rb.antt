-- ===== src/Rtl8366rb.antt =====
-- The chip driver rtl8366rb.c (target/linux/generic-2.6/files/drivers/net/phy) over a bus: the same
-- operations as those of rtl8366s.c, with entries of three words, port masks of eight bits, and
-- both VLAN flags in one register. Port numbers and attribute values are not negative. The 32-bit
-- variables hold 16-bit register values here. `msleep` and messages are left out.
pub mod Control
pub mod Asic
pub mod Codec
pub mod Entries
pub mod Access
pub mod Implements
pub mod Boot
pub mod Rates
use wair_os.Base.{
  ℕ, ◌+◌, ◌-◌, ◌*◌, ◌/◌, ◌%◌, ◌^◌, bit_and, bit_or, Bool, true, false, not, ◌&&◌, ◌||◌, ltb, leb,
  ◌==◌, if◌then◌else◌, bit, ◌<<◌, ◌>>>◌, Outcome, ok, err, einval, Op, ◌>>=◌, ◌>>◌, pure, fail,
}
use wair_os.Vlan.{Mc, Vlan4k, Ops}
use wair_os.Rtl8366.{Bus, rmwr}

-- Registers and field widths
abbrev pub sgcr : ℕ
sgcr = 0x0000

abbrev pub sgcr_en_vlan : ℕ
sgcr_en_vlan = bit 13

abbrev pub sgcr_en_vlan_4ktb : ℕ
sgcr_en_vlan_4ktb = bit 14

abbrev pub pecr : ℕ
pecr = 0x0001

abbrev pub table_access_ctrl : ℕ
table_access_ctrl = 0x0180

abbrev pub table_vlan_read : ℕ
table_vlan_read = 0x0E01

abbrev pub table_vlan_write : ℕ
table_vlan_write = 0x0F01

abbrev pub table_read_base : ℕ
table_read_base = 0x018C

abbrev pub table_write_base : ℕ
table_write_base = 0x0185

abbrev pub vlan_mc_base : ℕ → ℕ
vlan_mc_base x = 0x0020 + x * 3

abbrev pub port_vlan_ctrl_reg : ℕ → ℕ
port_vlan_ctrl_reg p = 0x0063 + p / 4

abbrev pub port_vlan_ctrl_shift : ℕ → ℕ
port_vlan_ctrl_shift p = 4 * (p % 4)

abbrev pub num_ports : ℕ
num_ports = 6

abbrev pub num_vlans : ℕ
num_vlans = 16

abbrev pub num_vids : ℕ
num_vids = 4096

-- The three words of an entry.
pub record Words : Type 0 where
  pub first : ℕ
  pub second : ℕ
  pub third : ℕ

abbrev pub word_untag : ℕ → ℕ
word_untag x = bit_and (x >>> 8) 0xff

abbrev pub word_member : ℕ → ℕ
word_member x = bit_and x 0xff

abbrev pub word_fid : ℕ → ℕ
word_fid x = bit_and x 0x7

abbrev pub mc_of : Words → Mc
mc_of w = record {
  vid = bit_and w.first 0xfff;
  priority = bit_and (w.first >>> 12) 0x7;
  untag = word_untag w.second;
  member = word_member w.second;
  fid = word_fid w.third;
}

abbrev pub vlan_4k_of : ℕ → Words → Vlan4k
vlan_4k_of vid w = record {
  vid = vid;
  untag = word_untag w.second;
  member = word_member w.second;
  fid = word_fid w.third;
}

abbrev pub second_word : ℕ → ℕ → ℕ
second_word member untag = bit_or (bit_and member 0xff) (bit_and untag 0xff << 8)

abbrev pub mc_words : Mc → Words
mc_words m = record {
  first = bit_or (bit_and m.vid 0xfff) (bit_and m.priority 0x7 << 12);
  second = second_word m.member m.untag;
  third = bit_and m.fid 0x7;
}

abbrev pub vlan_4k_words : Vlan4k → Words
vlan_4k_words v = record {
  first = bit_and v.vid 0xfff;
  second = second_word v.member v.untag;
  third = bit_and v.fid 0x7;
}

module _ {D : Type 0} (b : Bus D) where
  -- The loops over the three words of an entry.
  abbrev pub read_words : ℕ → Op D Words
  read_words base = do
    first ← b.read_reg base
    second ← b.read_reg (base + 1)
    third ← b.read_reg (base + 2)
    pure (record { first = first; second = second; third = third })

  abbrev pub write_words : ℕ → Words → Op D (Unit {0})
  write_words base w =
      b.write_reg base w.first >> b.write_reg (base + 1) w.second >> b.write_reg (base + 2) w.third

  unfoldable pub get_vlan_4k : ℕ → Op D Vlan4k
  get_vlan_4k vid = do
    if leb num_vids vid then fail einval else pure tt
    b.write_reg table_write_base (bit_and vid 0xfff)
    b.write_reg table_access_ctrl table_vlan_read
    w ← read_words table_read_base
    pure (vlan_4k_of vid w)

  unfoldable pub set_vlan_4k : Vlan4k → Op D (Unit {0})
  set_vlan_4k v = do
    if leb num_vids v.vid || ltb 0xff v.member || ltb 0xff v.untag || ltb 7 v.fid
        then fail einval
        else pure tt
    write_words table_write_base (vlan_4k_words v)
    b.write_reg table_access_ctrl table_vlan_write

  unfoldable pub get_vlan_mc : ℕ → Op D Mc
  get_vlan_mc index = do
    if leb num_vlans index then fail einval else pure tt
    w ← read_words (vlan_mc_base index)
    pure (mc_of w)

  unfoldable pub set_vlan_mc : ℕ → Mc → Op D (Unit {0})
  set_vlan_mc index m = do
    if leb num_vlans index
          || leb num_vids m.vid
          || ltb 7 m.priority
          || ltb 0xff m.member
          || ltb 0xff m.untag
          || ltb 7 m.fid
        then fail einval
        else pure tt
    write_words (vlan_mc_base index) (mc_words m)

  unfoldable pub get_mc_index : ℕ → Op D ℕ
  get_mc_index port = do
    if leb num_ports port then fail einval else pure tt
    data_word ← b.read_reg (port_vlan_ctrl_reg port)
    pure (bit_and (data_word >>> port_vlan_ctrl_shift port) 0xf)

  unfoldable pub set_mc_index : ℕ → ℕ → Op D (Unit {0})
  set_mc_index port index = do
    if leb num_ports port || leb num_vlans index then fail einval else pure tt
    rmwr b (port_vlan_ctrl_reg port) (0xf << port_vlan_ctrl_shift port)
        (bit_and index 0xf << port_vlan_ctrl_shift port)

  unfoldable pub enable_vlan : ℕ → Op D (Unit {0})
  enable_vlan enable = rmwr b sgcr sgcr_en_vlan (if enable == 0 then 0 else sgcr_en_vlan)

  unfoldable pub enable_vlan4k : ℕ → Op D (Unit {0})
  enable_vlan4k enable =
      rmwr b sgcr sgcr_en_vlan_4ktb (if enable == 0 then 0 else sgcr_en_vlan_4ktb)

  unfoldable pub enable_port : ℕ → ℕ → Op D (Unit {0})
  enable_port port enable = rmwr b pecr (bit port) (if enable == 0 then bit port else 0)

unfoldable pub is_vlan_valid : ℕ → ℕ → Bool
is_vlan_valid vlan4k_enabled vlan =
    let bound = (if vlan4k_enabled == 0 then num_vlans else num_vids - 1) in
    not (vlan == 0 || leb bound vlan)

-- `rtl8366rb_smi_ops`, and the fields that the probe function sets
abbrev pub ops : {D : Type 0} → Bus D → Ops D
ops b = record {
  cpu_port = 5;
  num_ports = num_ports;
  num_vlan_mc = num_vlans;
  get_vlan_mc = get_vlan_mc b;
  set_vlan_mc = set_vlan_mc b;
  get_vlan_4k = get_vlan_4k b;
  set_vlan_4k = set_vlan_4k b;
  get_mc_index = get_mc_index b;
  set_mc_index = set_mc_index b;
  is_vlan_valid = is_vlan_valid;
  enable_vlan = enable_vlan b;
  enable_vlan4k = enable_vlan4k b;
  enable_port = enable_port b;
}
