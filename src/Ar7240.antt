-- ===== src/Ar7240.antt =====
-- The switch driver inside ag71xx, ag71xx_ar7240.c (target/linux/ar71xx/files/drivers/net/ag71xx).
-- Here are `struct ar7240sw` and the handlers of swconfig, which change nothing else; Same compares
-- them with those of ar8216.c. A port number from swconfig is one of the switch, and a VLAN number
-- is below 16; both are checked there. The byte arrays are functions.
pub mod Reg
pub mod Apply
pub mod Probe
pub mod Dest
pub mod Forwards
pub mod Loaded
pub mod Passes
pub mod Access
pub mod Same
pub mod Once
use wair_os.Base.{
  ℕ, zero, suc, ◌+◌, ◌-◌, ◌%◌, ◌^◌, bit_and, bit_or, bit, Bool, true, false, leb, ◌==◌,
  if◌then◌else◌, List, [], ◌∷◌, update, each, Outcome, ok, err, einval,
}
use wair_os.Rtl8366.Handlers.{SwitchPort, tagged}
use wair_os.Ar8216.{cleared, marked}

abbrev pub max_vlans : ℕ
max_vlans = 16

abbrev pub num_ports : ℕ
num_ports = 6

pub record Sw : Type 0 where
  pub vlan : Bool
  pub vlan_id : ℕ → ℕ
  pub vlan_table : ℕ → ℕ
  pub vlan_tagged : ℕ
  pub pvid : ℕ → ℕ

unfoldable pub set_vid : ℕ → ℕ → Sw → Sw
set_vid vlan i s = record s { vlan_id = update s.vlan_id vlan (i % 2 ^ 16) }

unfoldable pub get_vid : ℕ → Sw → ℕ
get_vid vlan s = s.vlan_id vlan

-- `dev->vlans` is `AR7240_MAX_VLANS`.
unfoldable pub set_pvid : ℕ → ℕ → Sw → Outcome (Unit {0}) × Sw
set_pvid port vlan s =
    if leb max_vlans vlan
    then (err einval, s)
    else (ok tt, record s { pvid = update s.pvid port vlan })

unfoldable pub get_pvid : ℕ → Sw → ℕ
get_pvid port s = s.pvid port

-- The loop over the ports, with `left` to go.
unfoldable pub ports_from : Sw → ℕ → ℕ → ℕ → List SwitchPort
ports_from s ports zero i = []
ports_from s ports (suc left) i =
    let rest = ports_from s ports left (i + 1) in
    if bit_and ports (bit i) == 0
    then rest
    else record { id = i; flags = if bit_and s.vlan_tagged (bit i) == 0 then 0 else tagged } ∷ rest

unfoldable pub get_ports : ℕ → Sw → List SwitchPort
get_ports vlan s = ports_from s (s.vlan_table vlan) num_ports 0

-- The inner loop: an untagged port leaves the other VLANs.
unfoldable pub drop : ℕ → ℕ → (ℕ → ℕ) → ℕ → ℕ
drop vlan id t = each (λ j x. if j == vlan then x else cleared x id) max_vlans 0 t

-- What the outer loop does with the tagged flag of a port.
unfoldable pub place : ℕ → SwitchPort → Sw → Sw
place vlan port s =
    if bit_and port.flags tagged == 0
    then record s {
      vlan_tagged = cleared s.vlan_tagged port.id;
      pvid = update s.pvid port.id vlan;
      vlan_table = drop vlan port.id s.vlan_table;
    }
    else record s { vlan_tagged = marked s.vlan_tagged port.id }

-- `*vt |= 1 << p->id;`
unfoldable pub join : ℕ → ℕ → Sw → Sw
join vlan id s = record s { vlan_table = update s.vlan_table vlan (marked (s.vlan_table vlan) id) }

-- The outer loop.
unfoldable pub place_all : ℕ → List SwitchPort → Sw → Sw
place_all vlan [] s = s
place_all vlan (port ∷ rest) s = place_all vlan rest (join vlan port.id (place vlan port s))

unfoldable pub set_ports : ℕ → List SwitchPort → Sw → Sw
set_ports vlan ports s = place_all vlan ports (record s { vlan_table = update s.vlan_table vlan 0 })

unfoldable pub set_vlan : ℕ → Sw → Sw
set_vlan i s = record s { vlan = if i == 0 then false else true }

unfoldable pub get_vlan : Sw → ℕ
get_vlan s = if s.vlan then 1 else 0

-- The defaults that ar7240_probe sets, on the fields that `kzalloc` has cleared.
abbrev pub probed : Sw
probed = record {
  vlan = false;
  vlan_id = λ i. if leb (i + 1) max_vlans then i else 0;
  vlan_table = λ i. if i == 0 then 0x3f else 0;
  vlan_tagged = 0;
  pvid = λ i. 0;
}
