-- ===== src/Rtl8366rb/Control.antt =====
-- Reset, set-up, detection, PHY access and counters of rtl8366rb.c, and its swconfig handlers.
use wair_os.Base.{
  ℕ, zero, suc, ◌+◌, ◌-◌, ◌*◌, ◌/◌, ◌%◌, ◌^◌, bit_and, bit_or, List, [], ◌∷◌, get_elem?, Option,
  some, none, Bool, true, false, not, ◌||◌, ◌&&◌, ltb, leb, ◌==◌, if◌then◌else◌, bit, ◌<<◌, ◌>>>◌,
  ok, on_err, einval, eio, ebusy, enodev, Op, ◌>>=◌, ◌>>◌, pure, fail,
}
use wair_os.Vlan
use wair_os.Vlan.{Smi, ignore, on_dev, reset_vlan, enable_all_ports}
use wair_os.Rtl8366.{Bus, rmwr, read_or, read_or_eio}
use wair_os.Rtl8366s.Control.{Link}
use wair_os.Rtl8366rb.{sgcr, pecr, num_ports, ops}

abbrev pub port_all : ℕ
port_all = 0x3f

-- `rtl8366rb_mib_counters` without the names: the offset of each counter and its words.
abbrev pub mib_counters : List (ℕ × ℕ)
mib_counters =
    (0, 4)
    ∷ (4, 4)
    ∷ (8, 2)
    ∷ (10, 2)
    ∷ (12, 2)
    ∷ (14, 2)
    ∷ (16, 2)
    ∷ (18, 2)
    ∷ (20, 2)
    ∷ (22, 2)
    ∷ (24, 2)
    ∷ (26, 2)
    ∷ (28, 2)
    ∷ (30, 2)
    ∷ (32, 2)
    ∷ (34, 2)
    ∷ (36, 2)
    ∷ (38, 2)
    ∷ (40, 2)
    ∷ (42, 2)
    ∷ (44, 4)
    ∷ (48, 2)
    ∷ (50, 2)
    ∷ (52, 2)
    ∷ (54, 2)
    ∷ (56, 2)
    ∷ (58, 2)
    ∷ (60, 2)
    ∷ (62, 2)
    ∷ (64, 2)
    ∷ (66, 2)
    ∷ (68, 2)
    ∷ (70, 2)
    ∷ []

abbrev pub bdth_sw_max : ℕ
bdth_sw_max = 1048512

abbrev pub bdth_unit : ℕ
bdth_unit = 64

abbrev pub bdth_reg_default : ℕ
bdth_reg_default = 16383

abbrev pub bdth_mask : ℕ
bdth_mask = 0x3fff

-- `val->value.i` becomes a register value
unfoldable pub rate_word : ℕ → ℕ
rate_word i = if ltb 0 i && ltb i bdth_sw_max then (i - 1) / bdth_unit else bdth_reg_default

-- and a register value becomes `val->value.i`.
unfoldable pub rate_value : ℕ → ℕ
rate_value data_word =
    let field = bit_and data_word bdth_mask in
    (if ltb field bdth_mask then field + 1 else field) * bdth_unit

module _ {D : Type 0} (b : Bus D) where
  -- `left` is the counter `timeout`.
  unfoldable pub reset_wait : ℕ → Op D (Unit {0})
  reset_wait zero = fail eio
  reset_wait (suc left) = do
    data_word ← read_or_eio b 0x0100
    elim (bit_and data_word 1 == 0) [ true ↦ pure tt | false ↦ reset_wait left ]

  unfoldable pub reset_chip : Op D (Unit {0})
  reset_chip = ignore (b.write_reg 0x0100 1) >> reset_wait 10

  unfoldable pub hw_init : Op D (Unit {0})
  hw_init = do
    rmwr b sgcr (0x3 << 4) (0x1 << 4)
    b.write_reg 0x0002 0
    b.write_reg 0x0003 0
    b.write_reg 0x037f port_all
    rmwr b 0x0004 (bit 0) 0

  unfoldable pub setup : Op D (Unit {0})
  setup = reset_chip >> hw_init

  unfoldable pub detect : Op D (Unit {0})
  detect = do
    chip_id ← b.read_reg 0x0509
    if chip_id == 0x5937 then pure tt else fail enodev
    chip_ver ← b.read_reg 0x050A
    pure tt

  abbrev pub phy_reg : ℕ → ℕ → ℕ → ℕ
  phy_reg phy_no page addr =
      bit_or (bit_or (bit_or 0x8000 (bit (phy_no + 9))) (bit_and (page << 5) (0xf << 5)))
        (bit_and addr 0x1f)

  abbrev pub phy_args_bad : ℕ → ℕ → ℕ → Bool
  phy_args_bad phy_no page addr = ltb 4 phy_no || ltb 7 page || ltb 31 addr

  unfoldable pub read_phy_reg : ℕ → ℕ → ℕ → Op D ℕ
  read_phy_reg phy_no page addr = do
    if phy_args_bad phy_no page addr then fail einval else pure tt
    b.write_reg 0x8000 1
    b.write_reg (phy_reg phy_no page addr) 0
    b.read_reg 0x8002

  unfoldable pub write_phy_reg : ℕ → ℕ → ℕ → ℕ → Op D (Unit {0})
  write_phy_reg phy_no page addr data_word = do
    if phy_args_bad phy_no page addr then fail einval else pure tt
    b.write_reg 0x8000 0
    b.write_reg (phy_reg phy_no page addr) data_word

  -- An error reads as all ones.
  unfoldable pub mii_read : ℕ → ℕ → Op D ℕ
  mii_read addr reg s = let (r, s₁) = read_phy_reg addr 0 reg s in (on_err (λ e. ok 0xffff) r, s₁)

  -- The outcome is that of the write; the read after it flushes it.
  unfoldable pub mii_write : ℕ → ℕ → ℕ → Op D (Unit {0})
  mii_write addr reg val s =
      let (r, s₁) = write_phy_reg addr 0 reg val s in (r, (read_phy_reg addr 0 reg s₁).1)

  -- The loop over the words of a counter, the highest first, into a 64-bit value.
  unfoldable pub read_counter_words : ℕ → ℕ → ℕ → Op D ℕ
  read_counter_words addr zero mibvalue = pure mibvalue
  read_counter_words addr (suc i) mibvalue = do
    data_word ← b.read_reg (addr + i)
    read_counter_words addr i (bit_or ((mibvalue << 16) % 2 ^ 64) (bit_and data_word 0xFFFF))

  unfoldable pub read_counter : ℕ → ℕ → Op D ℕ
  read_counter addr width = do
    b.write_reg addr 0
    control ← b.read_reg 0x13F0
    if bit_and control (bit 0) == 0 then pure tt else fail ebusy
    if bit_and control (bit 1) == 0 then pure tt else fail eio
    read_counter_words addr width 0

  unfoldable pub get_mib_counter : ℕ → ℕ → Op D ℕ
  get_mib_counter counter port =
      if ltb num_ports port || leb 33 counter
      then fail einval
      else (elim (get_elem? mib_counters counter) [
        | some c ↦ read_counter (0x1000 + 0x0050 * port + c.0) c.1
        | none ↦ fail einval
      ])

  unfoldable pub sw_reset_mibs : Op D (Unit {0})
  sw_reset_mibs = rmwr b 0x13F0 0 (bit 11)

  -- `held` is the uninitialised `data`.
  unfoldable pub sw_get_blinkrate : ℕ → Op D ℕ
  sw_get_blinkrate held = do data_word ← read_or b held 0x0430; pure (bit_and data_word 0x0007)

  unfoldable pub sw_set_blinkrate : ℕ → Op D (Unit {0})
  sw_set_blinkrate i = if leb 6 i then fail einval else rmwr b 0x0430 0x0007 i

  unfoldable pub sw_get_learning_enable : ℕ → Op D ℕ
  sw_get_learning_enable held = do
    data_word ← read_or b held 0x0002
    pure (if data_word == 0 then 1 else 0)

  unfoldable pub sw_set_learning_enable : ℕ → Op D (Unit {0})
  sw_set_learning_enable i =
      let portmask = (if i == 0 then port_all else 0) in
      b.write_reg 0x0002 portmask >> b.write_reg 0x0003 portmask

  unfoldable pub sw_get_port_link : ℕ → Op D (Option Link)
  sw_get_port_link port = do
    if leb num_ports port then fail einval else pure tt
    data_word ← read_or b 0 (0x0014 + port / 2)
    let status = (if port % 2 == 0 then data_word else data_word >>> 8)
    pure (
        if bit_and status 0x0010 == 0
        then none
        else some (record {
          speed = bit_and status 0x0003;
          full_duplex = not (bit_and status 0x0004 == 0);
          tx_pause = not (bit_and status 0x0020 == 0);
          rx_pause = not (bit_and status 0x0040 == 0);
          nway = not (bit_and status 0x0080 == 0);
        }))

  -- The value is shifted as an unsigned 32-bit word.
  unfoldable pub sw_set_port_led : ℕ → ℕ → Op D (Unit {0})
  sw_set_port_led port i = do
    if leb num_ports port then fail einval else pure tt
    if port == 5
        then rmwr b 0x0430 (0xF << 4) ((i << 4) % 2 ^ 32)
        else rmwr b 0x0431 (0xF << (port * 4)) ((i << (port * 4)) % 2 ^ 32)

  unfoldable pub sw_get_port_led : ℕ → Op D ℕ
  sw_get_port_led port = do
    if leb 4 port then fail einval else pure tt
    data_word ← read_or b 0 0x0431
    pure (bit_and (data_word >>> (port * 4)) 0x000F)

  unfoldable pub sw_set_port_disable : ℕ → ℕ → Op D (Unit {0})
  sw_set_port_disable port i = do
    if leb num_ports port then fail einval else pure tt
    rmwr b pecr (bit port) (if i == 0 then 0 else bit port)

  unfoldable pub sw_get_port_disable : ℕ → ℕ → Op D ℕ
  sw_get_port_disable held port = do
    if leb num_ports port then fail einval else pure tt
    data_word ← read_or b held pecr
    pure (if bit_and data_word (bit port) == 0 then 0 else 1)

  unfoldable pub sw_set_port_rate_in : ℕ → ℕ → Op D (Unit {0})
  sw_set_port_rate_in port i = do
    if leb num_ports port then fail einval else pure tt
    rmwr b (0x0200 + port) (bit_or bdth_mask (1 << 14)) (bit_or (rate_word i) (1 << 14))

  unfoldable pub sw_get_port_rate_in : ℕ → ℕ → Op D ℕ
  sw_get_port_rate_in held port = do
    if leb num_ports port then fail einval else pure tt
    data_word ← read_or b held (0x0200 + port)
    pure (rate_value data_word)

  unfoldable pub sw_set_port_rate_out : ℕ → ℕ → Op D (Unit {0})
  sw_set_port_rate_out port i = do
    if leb num_ports port then fail einval else pure tt
    ignore (rmwr b 0x02f8 (1 << 9) (1 << 9))
    rmwr b (0x02d1 + port) bdth_mask (rate_word i)

  unfoldable pub sw_get_port_rate_out : ℕ → ℕ → Op D ℕ
  sw_get_port_rate_out held port = do
    if leb num_ports port then fail einval else pure tt
    data_word ← read_or b held (0x02d1 + port)
    pure (rate_value data_word)

  unfoldable pub sw_set_qos_enable : ℕ → Op D (Unit {0})
  sw_set_qos_enable i = rmwr b sgcr (1 << 15) (if i == 0 then 0 else 1 << 15)

  unfoldable pub sw_get_qos_enable : ℕ → Op D ℕ
  sw_get_qos_enable held = do
    data_word ← read_or b held sgcr
    pure (if bit_and data_word (1 << 15) == 0 then 0 else 1)

  unfoldable pub sw_reset_port_mibs : ℕ → Op D (Unit {0})
  sw_reset_port_mibs port = do
    if leb num_ports port then fail einval else pure tt
    rmwr b 0x13F0 0 (bit (2 + port))

  unfoldable pub sw_reset_switch : Op (Smi D) (Unit {0})
  sw_reset_switch = do
    on_dev reset_chip
    on_dev hw_init
    reset_vlan (ops b)
    Vlan.enable_vlan (ops b) 1
    on_dev (enable_all_ports (ops b) 1)
