-- ===== src/Vlan/Invariant.antt =====
-- The invariant of the two tables, and the two operations that write them.
use wair_os.Base.{ℕ, ◌<◌}
use wair_os.Vlan.{Ops, set_pvid, set_vlan}
use wair_os.Vlan.View.{Tables}
use wair_os.Vlan.Pvid.{Assigned, set_pvid_lem}
use wair_os.Vlan.Coherent.{IsCoherent, assigned-IsCoherent}
use wair_os.Vlan.SetVlan.{Setting, SettingFits, narrowed, vlan_set-IsCoherent, set_vlan_lem}

module _ {D : Type 0} (o : Ops D) (t : Tables o) (vid : ℕ) (d : D) (hv : vid < 4096)
    (c : IsCoherent o.num_vlan_mc (t.view d)) where
  -- From coherent tables (each MC entry in use has the ports and FID that the 4K table has for its
  -- VLAN, and no VLAN has two entries), `rtl8366_set_pvid` on a port of the switch leaves coherent
  -- tables, when there are more MC entries than ports.
  pub set_pvid-IsCoherent :
      (port : ℕ)
      → port < o.num_ports
      → o.num_ports < o.num_vlan_mc
      → IsCoherent o.num_vlan_mc (t.view (set_pvid o port vid d).1)
  set_pvid-IsCoherent port hp more =
      rw a.gives.tables
        (assigned-IsCoherent (t.view d) port vid a.slot a.entry a.in_table c a.choice)
    where
      a : Assigned o t port vid d (set_pvid o port vid d)
      a = set_pvid_lem o t port vid d hp hv more

  -- From coherent tables, `rtl8366_set_vlan` leaves coherent tables, when the ports and the FID
  -- that it is given fit the chip after they are cut to eight bits.
  pub set_vlan-IsCoherent :
      (x : Setting)
      → SettingFits t.masks (narrowed x)
      → IsCoherent o.num_vlan_mc (t.view (set_vlan o vid x.member x.untag x.fid d).1)
  set_vlan-IsCoherent x f =
      rw (set_vlan_lem o t vid x d hv f).tables
        (vlan_set-IsCoherent o.num_vlan_mc (t.view d) vid (narrowed x) c)
