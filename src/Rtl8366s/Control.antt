-- ===== src/Rtl8366s/Control.antt =====
-- Reset, set-up and detection of rtl8366s.c, and its swconfig handlers.
use wair_os.Base.{
  ℕ, zero, suc, ◌+◌, ◌*◌, ◌/◌, ◌%◌, ◌^◌, bit_and, List, [], ◌∷◌, Option, some, none, Bool, true,
  false, not, ◌||◌, leb, ◌==◌, if◌then◌else◌, bit, ◌<<◌, ◌>>>◌, einval, eio, enodev, Op, ◌>>=◌,
  ◌>>◌, pure, fail,
}
use wair_os.Vlan
use wair_os.Vlan.{Smi, ignore, on_dev, reset_vlan, enable_all_ports}
use wair_os.Rtl8366.{Bus, rmwr, read_or, read_or_eio}
use wair_os.Rtl8366s.{sgcr, num_ports, ops}

abbrev pub port_all : ℕ
port_all = 0x3f

-- What `rtl8366s_sw_get_port_link` prints.
pub record Link : Type 0 where
  pub speed : ℕ
  pub full_duplex : Bool
  pub tx_pause : Bool
  pub rx_pause : Bool
  pub nway : Bool

module _ {D : Type 0} (b : Bus D) where
  -- `left` is the counter `timeout`.
  unfoldable pub reset_wait : ℕ → Op D (Unit {0})
  reset_wait zero = fail eio
  reset_wait (suc left) = do
    data_word ← read_or_eio b 0x0100
    elim (bit_and data_word 1 == 0) [ true ↦ pure tt | false ↦ reset_wait left ]

  unfoldable pub reset_chip : Op D (Unit {0})
  reset_chip = ignore (b.write_reg 0x0100 1) >> reset_wait 10

  -- The values that the platform data gives.
  unfoldable pub apply_initvals : List (ℕ × ℕ) → Op D (Unit {0})
  apply_initvals [] = pure tt
  apply_initvals ((reg, val) ∷ rest) = b.write_reg reg val >> apply_initvals rest

  unfoldable pub hw_init : List (ℕ × ℕ) → Op D (Unit {0})
  hw_init initvals = do
    apply_initvals initvals
    rmwr b sgcr (0x3 << 4) (0x1 << 4)
    b.write_reg 0x0002 0
    b.write_reg 0x0003 0
    b.write_reg 0x0379 port_all
    rmwr b 0x0004 (bit 0) 0

  unfoldable pub setup : List (ℕ × ℕ) → Op D (Unit {0})
  setup initvals = reset_chip >> hw_init initvals

  unfoldable pub detect : Op D (Unit {0})
  detect = do
    chip_id ← b.read_reg 0x0105
    if chip_id == 0x8366 then pure tt else fail enodev
    chip_ver ← b.read_reg 0x0104
    pure tt

  unfoldable pub sw_reset_mibs : Op D (Unit {0})
  sw_reset_mibs = rmwr b 0x11F0 0 (bit 2)

  -- `held` is the uninitialised `data`.
  unfoldable pub sw_get_blinkrate : ℕ → Op D ℕ
  sw_get_blinkrate held = do data_word ← read_or b held 0x0420; pure (bit_and data_word 0x0007)

  unfoldable pub sw_set_blinkrate : ℕ → Op D (Unit {0})
  sw_set_blinkrate i = if leb 6 i then fail einval else rmwr b 0x0420 0x0007 i

  unfoldable pub sw_get_learning_enable : ℕ → Op D ℕ
  sw_get_learning_enable held = do
    data_word ← read_or b held 0x0002
    pure (if data_word == 0 then 1 else 0)

  unfoldable pub sw_set_learning_enable : ℕ → Op D (Unit {0})
  sw_set_learning_enable i =
      let portmask = (if i == 0 then port_all else 0) in
      b.write_reg 0x0002 portmask >> b.write_reg 0x0003 portmask

  unfoldable pub sw_get_port_link : ℕ → Op D (Option Link)
  sw_get_port_link port = do
    if leb num_ports port then fail einval else pure tt
    data_word ← read_or b 0 (0x0060 + port / 2)
    let status = (if port % 2 == 0 then data_word else data_word >>> 8)
    pure (
        if bit_and status 0x0010 == 0
        then none
        else some (record {
          speed = bit_and status 0x0003;
          full_duplex = not (bit_and status 0x0004 == 0);
          tx_pause = not (bit_and status 0x0020 == 0);
          rx_pause = not (bit_and status 0x0040 == 0);
          nway = not (bit_and status 0x0080 == 0);
        }))

  -- The value is shifted as an unsigned 32-bit word.
  unfoldable pub sw_set_port_led : ℕ → ℕ → Op D (Unit {0})
  sw_set_port_led port i = do
    if leb num_ports port || bit port == bit 4 then fail einval else pure tt
    if port == 5
        then rmwr b 0x0420 (0xF << 4) ((i << 4) % 2 ^ 32)
        else rmwr b 0x0421 (0xF << (port * 4)) ((i << (port * 4)) % 2 ^ 32)

  unfoldable pub sw_get_port_led : ℕ → Op D ℕ
  sw_get_port_led port = do
    if leb 4 port then fail einval else pure tt
    data_word ← read_or b 0 0x0421
    pure (bit_and (data_word >>> (port * 4)) 0x000F)

  unfoldable pub sw_reset_port_mibs : ℕ → Op D (Unit {0})
  sw_reset_port_mibs port = do
    if leb num_ports port then fail einval else pure tt
    rmwr b 0x11F0 0 (bit (port + 3))

  unfoldable pub sw_reset_switch : List (ℕ × ℕ) → Op (Smi D) (Unit {0})
  sw_reset_switch initvals = do
    on_dev reset_chip
    on_dev (hw_init initvals)
    reset_vlan (ops b)
    Vlan.enable_vlan (ops b) 1
    on_dev (enable_all_ports (ops b) 1)
