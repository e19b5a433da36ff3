-- ===== src/Rtl8366s/Boot.antt =====
-- `rtl8366_init_vlan` and the PVID operations on an RTL8366S.
use wair_os.Base.{ℕ, ◌+◌, ◌<◌, ◌≡◌, ◌∙◌, arith, ap, ok}
use wair_os.Vlan.{Smi, get_pvid, init_vlan}
use wair_os.Vlan.View.{Tables}
use wair_os.Vlan.Effect.{get_pvid_lem}
use wair_os.Vlan.Reset.{init_vlan-Setup}
use wair_os.Vlan.Init.{Setup}
use wair_os.Rtl8366.{Bus}
use wair_os.Rtl8366s.{ops}
use wair_os.Rtl8366s.Asic.{Asic}
use wair_os.Rtl8366s.Implements.{implements}

module _ {D : Type 0} (b : Bus D) (k : Asic b) (s : Smi D) where
  abbrev t : Tables (ops b)
  t = implements b k

  booted : Setup (ops b) t 6 (t.view (init_vlan (ops b) s).1.dev)
  booted = (init_vlan-Setup (ops b) t s (omega arith)).3

  -- After `rtl8366_init_vlan` on an RTL8366S, which returns 0 from any state of the chip, the PVID
  -- that `rtl8366_get_pvid` reads from each of the six ports is one above the port's number.
  pub get_pvid-init_vlan :
      (p : ℕ)
      → p < 6
      → ((init_vlan (ops b) s).0 ≡ ok tt)
        × ((get_pvid (ops b) p (init_vlan (ops b) s).1.dev).0 ≡ ok (p + 1))
  get_pvid-init_vlan p h = (
    (init_vlan-Setup (ops b) t s (omega arith)).0,
    (get_pvid_lem (ops b) t p (init_vlan (ops b) s).1.dev h).outcome ∙ ap ok (booted.pvids p h),
  )
