-- ===== src/Rtl8366rb/Boot.antt =====
-- The VLAN code of rtl8366_smi.c on an RTL8366RB.
use wair_os.Base.{ℕ, ◌+◌, ◌<◌, ◌≡◌, ◌∙◌, arith, ap, ok}
use wair_os.Vlan.{Smi, get_pvid, init_vlan, port_mask}
use wair_os.Vlan.View.{Tables}
use wair_os.Vlan.Effect.{get_pvid_lem}
use wair_os.Vlan.Reset.{init_vlan-Setup}
use wair_os.Vlan.Init.{Setup}
use wair_os.Rtl8366.{Bus}
use wair_os.Rtl8366rb.{ops}
use wair_os.Rtl8366rb.Asic.{Asic}
use wair_os.Rtl8366rb.Implements.{implements}

module _ {D : Type 0} (b : Bus D) (k : Asic b) (s : Smi D) where
  abbrev t : Tables (ops b)
  t = implements b k

  after_init : Setup (ops b) t 6 (t.view (init_vlan (ops b) s).1.dev)
  after_init = (init_vlan-Setup (ops b) t s (omega arith)).3

  -- After `rtl8366_init_vlan` on an RTL8366RB whose registers and 4K table keep their values, which
  -- returns 0 from any state of the chip, the PVID that `rtl8366_get_pvid` reads from each of the
  -- six ports is one above the port's number, and the 4K entry of that VLAN has the ports of its
  -- mask, all of them untagged.
  pub get_pvid-init_vlan_rb :
      (p : ℕ)
      → p < 6
      → ((init_vlan (ops b) s).0 ≡ ok tt)
        × ((get_pvid (ops b) p (init_vlan (ops b) s).1.dev).0 ≡ ok (p + 1))
        × ((t.view (init_vlan (ops b) s).1.dev).vlan (p + 1)).member ≡ port_mask (ops b) p
        × ((t.view (init_vlan (ops b) s).1.dev).vlan (p + 1)).untag ≡ port_mask (ops b) p
  get_pvid-init_vlan_rb p h = (
    (init_vlan-Setup (ops b) t s (omega arith)).0,
    (get_pvid_lem (ops b) t p (init_vlan (ops b) s).1.dev h).outcome ∙ ap ok (after_init.pvids p h),
    after_init.members p h,
    after_init.untags p h,
  )
