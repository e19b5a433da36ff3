-- ===== src/Ar8216.antt =====
-- The switch driver ar8216.c (target/linux/generic-2.6/files/drivers/net/phy) and its registers,
-- ar8216.h. Here are the state that the driver keeps, `struct ar8216_priv`, and the handlers of
-- swconfig, which change nothing else; Mii is the access to the chip, Apply brings the state to the
-- chip and resets it, and Mangle changes the packets. A port number from swconfig is one of the
-- switch, and a VLAN number is below 128; both are checked there. The byte arrays are functions.
pub mod Mii
pub mod Apply
pub mod Asic
pub mod Vtu
pub mod Members
pub mod Forward
pub mod Settings
pub mod Applied
pub mod Loaded
pub mod Filter
pub mod Passes
pub mod Paged
pub mod Attach
pub mod Mangle
pub mod Headers
pub mod Once
pub mod Listing
use wair_os.Base.{
  ℕ, zero, suc, ◌+◌, ◌-◌, ◌%◌, ◌^◌, bit_and, bit_or, bit, Bool, true, false, ltb, leb, ◌==◌,
  if◌then◌else◌, List, [], ◌∷◌, update, each, Outcome, ok, err, einval,
}
use wair_os.Rtl8366.Handlers.{SwitchPort, tagged}

abbrev pub max_vlans : ℕ
max_vlans = 128

abbrev pub num_ports : ℕ
num_ports = 6

abbrev pub port_cpu : ℕ
port_cpu = 0

pub data Chip : Type 0 where
  unknown ar8216 ar8316 : Chip

-- The fields of `struct ar8216_priv` that the driver changes.
pub record Priv : Type 0 where
  pub chip : Chip
  pub vlan : Bool
  pub vlan_id : ℕ → ℕ
  pub vlan_table : ℕ → ℕ
  pub vlan_tagged : ℕ
  pub pvid : ℕ → ℕ

unfoldable pub set_vlan : ℕ → Priv → Priv
set_vlan i p = record p { vlan = if i == 0 then false else true }

unfoldable pub get_vlan : Priv → ℕ
get_vlan p = if p.vlan then 1 else 0

-- `vlans` is `dev->vlans`.
unfoldable pub set_pvid : ℕ → ℕ → ℕ → Priv → Outcome (Unit {0}) × Priv
set_pvid vlans port vlan p =
    if leb vlans vlan then (err einval, p) else (ok tt, record p { pvid = update p.pvid port vlan })

unfoldable pub get_pvid : ℕ → Priv → ℕ
get_pvid port p = p.pvid port

unfoldable pub set_vid : ℕ → ℕ → Priv → Priv
set_vid vlan i p = record p { vlan_id = update p.vlan_id vlan (i % 2 ^ 16) }

unfoldable pub get_vid : ℕ → Priv → ℕ
get_vid vlan p = p.vlan_id vlan

-- `x & ~(1 << i)`
abbrev pub cleared : ℕ → ℕ → ℕ
cleared x i = bit_and x (2 ^ 32 - 1 - bit i)

-- `x |= 1 << i` on a byte
abbrev pub marked : ℕ → ℕ → ℕ
marked x i = bit_or x (bit i) % 256

-- The loop over the ports, with `left` to go.
unfoldable pub ports_from : Priv → ℕ → ℕ → ℕ → List SwitchPort
ports_from p ports zero i = []
ports_from p ports (suc left) i =
    let rest = ports_from p ports left (i + 1) in
    if bit_and ports (bit i) == 0
    then rest
    else record { id = i; flags = if bit_and p.vlan_tagged (bit i) == 0 then 0 else tagged } ∷ rest

unfoldable pub get_ports : ℕ → Priv → List SwitchPort
get_ports vlan p = ports_from p (p.vlan_table vlan) num_ports 0

-- The inner loop: an untagged port leaves the other VLANs.
unfoldable pub drop : ℕ → ℕ → (ℕ → ℕ) → ℕ → ℕ
drop vlan id t = each (λ j x. if j == vlan then x else cleared x id) max_vlans 0 t

-- What the outer loop does with the tagged flag of a port.
unfoldable pub place : ℕ → SwitchPort → Priv → Priv
place vlan port p =
    if bit_and port.flags tagged == 0
    then record p {
      vlan_tagged = cleared p.vlan_tagged port.id;
      pvid = update p.pvid port.id vlan;
      vlan_table = drop vlan port.id p.vlan_table;
    }
    else record p { vlan_tagged = marked p.vlan_tagged port.id }

-- `*vt |= 1 << p->id;`
unfoldable pub join : ℕ → ℕ → Priv → Priv
join vlan id p = record p { vlan_table = update p.vlan_table vlan (marked (p.vlan_table vlan) id) }

-- The outer loop.
unfoldable pub place_all : ℕ → List SwitchPort → Priv → Priv
place_all vlan [] p = p
place_all vlan (port ∷ rest) p = place_all vlan rest (join vlan port.id (place vlan port p))

unfoldable pub set_ports : ℕ → List SwitchPort → Priv → Priv
set_ports vlan ports p = place_all vlan ports (record p { vlan_table = update p.vlan_table vlan 0 })
