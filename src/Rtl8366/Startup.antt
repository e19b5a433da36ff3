-- ===== src/Rtl8366/Startup.antt =====
-- The start-up of rtl8366_smi.c: `rtl8366_smi_detect`, `rtl8366_smi_init` and `rtl8366_smi_cleanup`.
-- What the GPIO library and the MDIO library answer is a parameter; which pins are claimed, and
-- whether the MDIO bus is allocated, stands in the state.
use wair_os.Base.{
  ℕ, ◌==◌, if◌then◌else◌, Bool, true, false, Outcome, ok, err, einval, enomem, Option, some, none,
  Op, ◌>>◌, fail,
}
use wair_os.Smi.{Pin, sda, sck}
use wair_os.Vlan.{Ops, Smi, on_dev, init_vlan, enable_all_ports}
use wair_os.Rtl8366.{Bus}

pub record Host (D : Type 0) : Type 0 where
  pub smi : Smi D
  pub sda_held : Bool
  pub sck_held : Bool
  pub mii_bus : Bool

-- The libraries: `gpio_request` of each pin, `mdiobus_alloc` and `mdiobus_register`.
pub record Libraries : Type 0 where
  pub gpio_request : Pin → Outcome (Unit {0})
  pub mdiobus_alloc : Bool
  pub mdiobus_register : Outcome (Unit {0})

-- The two operations of a chip driver that only the start-up calls.
pub record StartOps (D : Type 0) : Type 0 where
  pub detect : Op D (Unit {0})
  pub setup : Op D (Unit {0})

-- `enum rtl8366_type`
pub data ChipType : Type 0 where
  type_unknown type_s type_rb : ChipType

-- The `switch` on the identity of the chip, of what the read of it returns.
abbrev pub chip_type : Outcome ℕ → ChipType
chip_type (ok reg) =
    if reg == 0x6027 then type_s else (if reg == 0x5937 then type_rb else type_unknown)
chip_type (err e) = type_unknown

module _ {D : Type 0} where
  abbrev pub on_smi : Op (Smi D) (Unit {0}) → Op (Host D) (Unit {0})
  on_smi m h = let (r, x) = m h.smi in (r, record h { smi = x })

  -- `gpio_free`
  abbrev pub gpio_free : Pin → Host D → Host D
  gpio_free sda h = record h { sda_held = false }
  gpio_free sck h = record h { sck_held = false }

  abbrev pub grant : Pin → Outcome (Unit {0}) → Op (Host D) (Unit {0})
  grant sda (ok a) h = (ok tt, record h { sda_held = true })
  grant sck (ok a) h = (ok tt, record h { sck_held = true })
  grant pin (err e) h = (err e, h)

  abbrev pub gpio_claim : Libraries → Pin → Op (Host D) (Unit {0})
  gpio_claim l pin = grant pin (l.gpio_request pin)

  -- What `goto` an error label does: the clean-up runs when the call failed.
  abbrev pub on_error :
      (Host D → Host D) → Outcome (Unit {0}) × Host D → Outcome (Unit {0}) × Host D
  on_error undo (ok a, h) = (ok a, h)
  on_error undo (err e, h) = (err e, undo h)

  -- `__rtl8366_smi_init`
  unfoldable pub gpio_init : Libraries → Op (Host D) (Unit {0})
  gpio_init l = gpio_claim l sda >> λ h. on_error (gpio_free sda) (gpio_claim l sck h)

  -- `__rtl8366_smi_cleanup`
  unfoldable pub gpio_cleanup : Host D → Host D
  gpio_cleanup h = gpio_free sda (gpio_free sck h)

  abbrev pub mdiobus_free : Host D → Host D
  mdiobus_free h = record h { mii_bus = false }

  -- `rtl8366_smi_mii_init`
  unfoldable pub mii_init : Libraries → Op (Host D) (Unit {0})
  mii_init l h =
      if l.mdiobus_alloc
      then on_error mdiobus_free (l.mdiobus_register, record h { mii_bus = true })
      else (err enomem, h)

  -- The part of `rtl8366_smi_init` whose errors go to the label that frees the pins.
  unfoldable pub bring_up : Libraries → Ops D → StartOps D → Op (Host D) (Unit {0})
  bring_up l o start = do
    on_smi (on_dev start.detect)
    on_smi (on_dev start.setup)
    on_smi (init_vlan o)
    on_smi (on_dev (enable_all_ports o 1))
    mii_init l

  -- The operations are an optional pointer.
  unfoldable pub smi_init : Libraries → Option (Ops D × StartOps D) → Op (Host D) (Unit {0})
  smi_init l none = fail einval
  smi_init l (some (o, start)) = gpio_init l >> λ h. on_error gpio_cleanup (bring_up l o start h)

  -- `rtl8366_smi_cleanup`, without debugfs
  unfoldable pub smi_cleanup : Host D → Host D
  smi_cleanup h = gpio_free sda (gpio_free sck (mdiobus_free h))

  -- `rtl8366_smi_detect`
  abbrev pub read_id : Bus D → Host D → ChipType × Host D
  read_id b h =
      let (r, d) = b.read_reg 0x5c h.smi.dev in
      (chip_type r, gpio_cleanup (record h { smi = record h.smi { dev = d } }))

  abbrev pub detect_after : Bus D → Outcome (Unit {0}) × Host D → ChipType × Host D
  detect_after b (ok a, h) = read_id b h
  detect_after b (err e, h) = (type_unknown, h)

  unfoldable pub smi_detect : Libraries → Bus D → Host D → ChipType × Host D
  smi_detect l b h = detect_after b (gpio_init l h)
