-- ===== src/Tests/OnStart.antt =====
-- The start-up on the executable chip: everything granted, and the second pin refused.
use wair_os.Base.{refl, true, false, [], Outcome, ok, err, ebusy, some}
use wair_os.Smi.{Pin, sda, sck}
use wair_os.Rtl8366.Startup.{Host, Libraries, StartOps, smi_init}
use wair_os.Rtl8366.Claimed.{Holds, succeeded, smi_init-Holds}
use wair_os.Rtl8366s.{ops}
use wair_os.Rtl8366s.Asic.{Store}
use wair_os.Rtl8366s.Control.{detect, setup}
use wair_os.Tests.{sim, fresh}

abbrev idle : Host Store
idle = record { smi = fresh; sda_held = false; sck_held = false; mii_bus = false }

abbrev only_sda : Pin → Outcome (Unit {0})
only_sda sda = ok tt
only_sda sck = err ebusy

abbrev refusing : Libraries
refusing = record { gpio_request = only_sda; mdiobus_alloc = true; mdiobus_register = ok tt }

abbrev granting : Libraries
granting = record { gpio_request = λ p. ok tt; mdiobus_alloc = true; mdiobus_register = ok tt }

abbrev start : StartOps Store
start = record { detect = detect sim; setup = setup sim [] }

smi_init-Holds_example :
    Holds
      (succeeded (smi_init granting (some (ops sim, start)) idle).0)
      (smi_init granting (some (ops sim, start)) idle).1
smi_init-Holds_example =
    smi_init-Holds granting (ops sim) start idle
      (record { sda_is = refl; sck_is = refl; bus_is = refl })
