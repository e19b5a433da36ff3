-- ===== src/Rtl8366/Claimed.antt =====
-- What the start-up holds when it returns.
use wair_os.Base.{
  ◌≡◌, refl, Bool, true, false, Bool-cases, inl, inr, and_then, Outcome, ok, err, some, Op, ◌>>◌,
}
use wair_os.Smi.{sda, sck}
use wair_os.Vlan.{Ops, Smi, on_dev, init_vlan, enable_all_ports}
use wair_os.Rtl8366.{Bus}
use wair_os.Rtl8366.Startup.{
  Host, Libraries, StartOps, on_smi, on_error, grant, gpio_free, detect_after, mdiobus_free,
  gpio_init, gpio_cleanup, mii_init, bring_up, smi_init, smi_detect,
}

abbrev pub succeeded : {A : Type 0} → Outcome A → Bool
succeeded (ok a) = true
succeeded (err e) = false

-- Both pins and the MDIO bus are held, or none of them is.
pub record Holds {D : Type 0} (b : Bool) (h : Host D) : Type 0 where
  pub sda_is : h.sda_held ≡ b
  pub sck_is : h.sck_held ≡ b
  pub bus_is : h.mii_bus ≡ b

-- The pins are held, and the MDIO bus if the flag says so.
record Pins {D : Type 0} (bus : Bool) (h : Host D) : Type 0 where
  pub sda_in : h.sda_held ≡ true
  pub sck_in : h.sck_held ≡ true
  pub bus_as : h.mii_bus ≡ bus

module _ {D : Type 0} where
  abbrev Kept : Outcome (Unit {0}) × Host D → Type 0
  Kept (ok a, h) = Pins true h
  Kept (err e, h) = Pins false h

  after_bus :
      (r : Outcome (Unit {0})) (h : Host D)
      → Pins false h
      → Kept (on_error mdiobus_free (r, record h { mii_bus = true }))
  after_bus (ok a) h p = record { sda_in = p.sda_in; sck_in = p.sck_in; bus_as = refl }
  after_bus (err e) h p = record { sda_in = p.sda_in; sck_in = p.sck_in; bus_as = refl }

  mii_init-Kept : (l : Libraries) (h : Host D) → Pins false h → Kept (mii_init l h)
  unfolding mii_init
  mii_init-Kept l h p = elim (Bool-cases l.mdiobus_alloc) [
    | inl e ↦ rw e (after_bus l.mdiobus_register h p)
    | inr e ↦ rw e p
  ]

  -- A step on the switch leaves what is held; when it fails, the rest is not run.
  step-Kept :
      (m : Op (Smi D) (Unit {0})) (next : Op (Host D) (Unit {0})) (h : Host D)
      → Pins false h
      → ((x : Host D) → Pins false x → Kept (next x))
      → Kept ((on_smi m >> next) h)
  step-Kept m next h p rest = go (m h.smi)
    where
      go :
          (r : Outcome (Unit {0}) × Smi D)
          → Kept (and_then (r.0, record h { smi = r.1 }) (λ _. next))
      go (ok a, x) =
          rest (record h { smi = x })
            (record { sda_in = p.sda_in; sck_in = p.sck_in; bus_as = p.bus_as })
      go (err e, x) = record { sda_in = p.sda_in; sck_in = p.sck_in; bus_as = p.bus_as }

  bring_up-Kept :
      (l : Libraries) (o : Ops D) (start : StartOps D) (h : Host D)
      → Pins false h
      → Kept (bring_up l o start h)
  unfolding bring_up
  bring_up-Kept l o start h p = step-Kept (on_dev start.detect) _ h p λ h₁ p₁.
      step-Kept (on_dev start.setup) _ h₁ p₁ λ h₂ p₂.
        step-Kept (init_vlan o) _ h₂ p₂
          λ h₃ p₃. step-Kept (on_dev (enable_all_ports o 1)) _ h₃ p₃ λ h₄ p₄. mii_init-Kept l h₄ p₄

  undone :
      (r : Outcome (Unit {0}) × Host D)
      → Kept r
      → Holds (succeeded (on_error gpio_cleanup r).0) (on_error gpio_cleanup r).1
  unfolding gpio_cleanup
  undone (ok a, h) p = record { sda_is = p.sda_in; sck_is = p.sck_in; bus_is = p.bus_as }
  undone (err e, h) p = record { sda_is = refl; sck_is = refl; bus_is = p.bus_as }

  -- After `__rtl8366_smi_init`.
  abbrev Inits : Outcome (Unit {0}) × Host D → Type 0
  Inits (ok a, h) = Pins false h
  Inits (err e, h) = Holds false h

  gpio_init-Inits : (l : Libraries) (h : Host D) → Holds false h → Inits (gpio_init l h)
  unfolding gpio_init
  gpio_init-Inits l h n = go (l.gpio_request sda) (l.gpio_request sck)
    where
      go :
          (a b : Outcome (Unit {0}))
          → Inits (and_then (grant sda a h) (λ _ x. on_error (gpio_free sda) (grant sck b x)))
      go (err e) b = n
      go (ok a) (err e) = record { sda_is = refl; sck_is = n.sck_is; bus_is = n.bus_is }
      go (ok a) (ok b) = record { sda_in = refl; sck_in = refl; bus_as = n.bus_is }

  -- With no pin and no MDIO bus held before, `rtl8366_smi_init` holds both pins and the bus when
  -- it returns 0, and none of them when it returns an error, whichever of its calls failed.
  pub smi_init-Holds :
      (l : Libraries) (o : Ops D) (start : StartOps D) (h : Host D)
      → Holds false h
      → Holds (succeeded (smi_init l (some (o, start)) h).0) (smi_init l (some (o, start)) h).1
  unfolding smi_init
  smi_init-Holds l o start h n = go (gpio_init l h) (gpio_init-Inits l h n)
    where
      after : Op (Host D) (Unit {0})
      after x = on_error gpio_cleanup (bring_up l o start x)

      go :
          (r : Outcome (Unit {0}) × Host D)
          → Inits r
          → Holds (succeeded (and_then r (λ _. after)).0) (and_then r (λ _. after)).1
      go (ok a, x) p = undone (bring_up l o start x) (bring_up-Kept l o start x p)
      go (err e, x) p = p

  -- With no pin and no MDIO bus held before, none is held after `rtl8366_smi_detect`, whether the
  -- pins were granted or not and whatever the chip answered.
  pub smi_detect-Holds :
      (l : Libraries) (b : Bus D) (h : Host D) → Holds false h → Holds false (smi_detect l b h).1
  unfolding smi_detect gpio_cleanup
  smi_detect-Holds l b h n = go (gpio_init l h) (gpio_init-Inits l h n)
    where
      go : (r : Outcome (Unit {0}) × Host D) → Inits r → Holds false (detect_after b r).1
      go (ok a, x) p = record { sda_is = refl; sck_is = refl; bus_is = p.bus_as }
      go (err e, x) p = p
