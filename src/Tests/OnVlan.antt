-- ===== src/Tests/OnVlan.antt =====
-- The VLAN code on the tables of the executable chip.
use wair_os.Base.{◌≡◌, arith, false, ok}
use wair_os.Vlan.{get_pvid, set_pvid, set_vlan, init_vlan}
use wair_os.Vlan.View.{Gives}
use wair_os.Vlan.Pvid.{is_blank, Assigned, set_pvid_lem}
use wair_os.Vlan.Effect.{get_pvid-set_pvid, get_pvid-set_pvid_other}
use wair_os.Vlan.Coherent.{IsCoherent}
use wair_os.Vlan.SetVlan.{Setting, narrowed, vlan_set, set_vlan_lem}
use wair_os.Vlan.Invariant.{set_pvid-IsCoherent, set_vlan-IsCoherent}
use wair_os.Vlan.Init.{Setup}
use wair_os.Vlan.Reset.{init_vlan-Setup}
use wair_os.Rtl8366s.{ops}
use wair_os.Tests.{sim, fresh, on_tables, on_tables-masks, booted, booted-Setup}

abbrev setting : Setting
setting = record { member = 0x23; untag = 0x21; fid = 1 }

set_pvid_lem_example :
    Assigned (ops sim) on_tables 2 7 booted.dev (set_pvid (ops sim) 2 7 booted.dev)
set_pvid_lem_example =
    set_pvid_lem (ops sim) on_tables 2 7 booted.dev (omega arith) (omega arith) (omega arith)

get_pvid-set_pvid_example :
    ((set_pvid (ops sim) 2 7 booted.dev).0 ≡ ok tt)
    × ((get_pvid (ops sim) 2 (set_pvid (ops sim) 2 7 booted.dev).1).0 ≡ ok 7)
get_pvid-set_pvid_example =
    get_pvid-set_pvid (ops sim) on_tables 2 7 booted.dev (omega arith) (omega arith) (omega arith)

used_4 : is_blank ((on_tables.view booted.dev).mc ((on_tables.view booted.dev).index 4)) ≡ false
used_4 = ground (arith, booted-Setup.pvids 4 (omega arith))

get_pvid-set_pvid_other_example :
    (get_pvid (ops sim) 4 (set_pvid (ops sim) 2 7 booted.dev).1).0
    ≡ (get_pvid (ops sim) 4 booted.dev).0
get_pvid-set_pvid_other_example =
    get_pvid-set_pvid_other (ops sim) on_tables 2 7 booted.dev (omega arith) (omega arith)
      (omega arith) 4 (omega arith) (omega arith) used_4

set_pvid-IsCoherent_example : IsCoherent 16 (on_tables.view (set_pvid (ops sim) 2 7 booted.dev).1)
set_pvid-IsCoherent_example =
    set_pvid-IsCoherent (ops sim) on_tables 7 booted.dev (omega arith) booted-Setup.coherent 2
      (omega arith) (omega arith)

set_vlan-IsCoherent_example :
    IsCoherent 16 (on_tables.view (set_vlan (ops sim) 7 0x23 0x21 1 booted.dev).1)
set_vlan-IsCoherent_example =
    set_vlan-IsCoherent (ops sim) on_tables 7 booted.dev (omega arith) booted-Setup.coherent setting
      (omega (arith, on_tables-masks))

set_vlan_lem_example :
    Gives on_tables.view
      (ok tt)
      (vlan_set 16 (on_tables.view booted.dev) 7 (narrowed setting))
      (set_vlan (ops sim) 7 0x23 0x21 1 booted.dev)
set_vlan_lem_example =
    set_vlan_lem (ops sim) on_tables 7 setting booted.dev (omega arith)
      (omega (arith, on_tables-masks))

init_vlan-Setup_example :
    ((init_vlan (ops sim) fresh).0 ≡ ok tt)
    × ((init_vlan (ops sim) fresh).1.vlan_enabled ≡ 1)
    × ((init_vlan (ops sim) fresh).1.vlan4k_enabled ≡ 0)
    × Setup (ops sim) on_tables 6 (on_tables.view (init_vlan (ops sim) fresh).1.dev)
init_vlan-Setup_example = init_vlan-Setup (ops sim) on_tables fresh (omega arith)
