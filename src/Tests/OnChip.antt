-- ===== src/Tests/OnChip.antt =====
-- rtl8366s.c on the executable chip.
use wair_os.Base.{◌%◌, ◌^◌, ◌≡◌, refl, arith, List, [], ◌∷◌, true, false, ok}
use wair_os.Vlan.{Mc, Vlan4k}
use wair_os.Vlan.Coherent.{IsCoherent}
use wair_os.Vlan.Reset.{init_vlan-Setup}
use wair_os.Rtl8366.{Bus}
use wair_os.Rtl8366s.Width.{Frozen}
use wair_os.Rtl8366.Handlers.{Attr, SwitchPort, tagged, sw_set_vlan_ports, sw_get_vlan_ports}
use wair_os.Rtl8366.Listing.{listing}
use wair_os.Rtl8366.Roundtrip.{sw_get_vlan_ports-sw_set_vlan_ports}
use wair_os.Rtl8366s.{is_vlan_valid, get_vlan_4k, set_vlan_4k, get_mc_index, set_mc_index, ops}
use wair_os.Rtl8366s.Readback.{get_vlan_4k-set_vlan_4k, get_mc_index-set_mc_index}
use wair_os.Tests.{sim, sim-Asic, fresh, on_tables, booted, booted-Setup}

abbrev entry : Mc
entry = record { vid = 100; priority = 5; untag = 0x21; member = 0x23; fid = 6 }

abbrev row : Vlan4k
row = record { vid = 100; untag = 0x21; member = 0x23; fid = 6 }

get_vlan_4k-set_vlan_4k_example :
    ((set_vlan_4k sim row fresh.dev).0 ≡ ok tt)
    × ((get_vlan_4k sim 100 (set_vlan_4k sim row fresh.dev).1).0 ≡ ok row)
get_vlan_4k-set_vlan_4k_example =
    get_vlan_4k-set_vlan_4k sim sim-Asic 100 row fresh.dev (omega arith) (omega arith)

-- Ports 1 and 2 share a register.
get_mc_index-set_mc_index_example :
    ((set_mc_index sim 1 9 fresh.dev).0 ≡ ok tt)
    × ((get_mc_index sim 2 (set_mc_index sim 1 9 fresh.dev).1).0 ≡ (get_mc_index sim 2 fresh.dev).0)
get_mc_index-set_mc_index_example =
    get_mc_index-set_mc_index sim sim-Asic 1 2 9 fresh.dev (omega arith) (omega arith) (omega arith)

-- Port 0 tagged and port 5 untagged, in VLAN 3.
abbrev two_ports : List SwitchPort
two_ports = record { id = 0; flags = tagged } ∷ record { id = 5; flags = 0 } ∷ []

valid_3 : is_vlan_valid booted.vlan4k_enabled 3 ≡ true
unfolding is_vlan_valid
valid_3 = rw (init_vlan-Setup (ops sim) on_tables fresh (omega arith)).2 refl

roundtrip_example :
    ((sw_set_vlan_ports (ops sim) 3 two_ports booted).0 ≡ ok tt)
    × IsCoherent 16 (on_tables.view (sw_set_vlan_ports (ops sim) 3 two_ports booted).1.dev)
    × ((sw_get_vlan_ports (ops sim) 3 (sw_set_vlan_ports (ops sim) 3 two_ports booted).1).0
        ≡ ok (listing two_ports 6 0))
roundtrip_example =
    sw_get_vlan_ports-sw_set_vlan_ports (ops sim) on_tables 3 two_ports booted valid_3 (omega arith)
      (omega arith) (omega arith, (omega arith, tt)) booted-Setup.coherent

refused : is_vlan_valid 0 0 ≡ false
unfolding is_vlan_valid
refused = refl

abbrev fid_attr : Attr
fid_attr = record { max = 7; ofs = 0 }

-- A bus whose registers hold their own number.
abbrev counting : Bus (Unit {0})
counting = record { read_reg = λ a d. (ok (a % 2 ^ 16), d); write_reg = λ a x d. (ok tt, d) }

counting-Frozen : Frozen counting (λ a. a % 2 ^ 16)
counting-Frozen = record { answers = λ a d. refl; words = λ a. omega arith }
