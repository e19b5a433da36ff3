-- ===== src/Tests/OnAr7240.antt =====
-- The theorems of ag71xx_ar7240.c and ag71xx_mdio.c on concrete chips.
use wair_os.Base.{ℕ, ◌+◌, ◌/◌, ◌%◌, ◌≡◌, ◌↔◌, refl, arith, true, not, ◌&&◌, ◌==◌, if◌then◌else◌, ok}
use wair_os.Ar8216.Mii.{Regs, MiiBus, mii_read, mii_write}
use wair_os.Ar8216.Filter.{Carries}
use wair_os.Ar7240.{Sw, set_vlan, set_pvid, set_ports, probed}
use wair_os.Ar7240.Reg.{reg_read, reg_write}
use wair_os.Ar7240.Access.{repaged, reg_access-mii_access}
use wair_os.Ar7240.Apply.{hw_apply}
use wair_os.Ar7240.Forwards.{FitsSw}
use wair_os.Ar7240.Loaded.{IsQuick}
use wair_os.Ar7240.Passes.{hw_apply-passes_sw}
use wair_os.Ar7240.Once.{IsOnceSw, SwCalls-IsOnceSw, probe, mode, pvid, ports}
use wair_os.Ar7240.Probe
use wair_os.Ar7240.Probe.{probe_leaks, is_some}
use wair_os.Ag71xx.Mdio.{
  reg_mii_cmd, reg_mii_addr, reg_mii_ctrl, reg_mii_status, mdio_mii_read, mdio_bus,
}
use wair_os.Ag71xx.Controller.{Controller, Answered, mdio_mii_read-Answered}
use wair_os.Tests.OnAr8216.{
  ar, ar-Asic, ar-idle, ar-Forwarding, blank_cells, first_ports, below_first,
}

abbrev configured_sw : Sw
configured_sw = (set_pvid 3 9 (set_ports 1 first_ports (set_vlan 1 probed))).1

SwCalls-IsOnceSw_example : IsOnceSw configured_sw
SwCalls-IsOnceSw_example =
    SwCalls-IsOnceSw configured_sw
      (pvid 3 9 (omega arith) (ports 1 first_ports (omega arith) below_first (mode 1 probe)))

-- VLAN 1 has the ports 0 and 1, VLAN 2 the ports 0 and 2.
abbrev two_vlans : Sw
two_vlans = record {
  vlan = true;
  vlan_id = λ j. j;
  vlan_table = λ j. if j == 1 then 3 else if j == 2 then 5 else 0;
  vlan_tagged = 1;
  pvid = λ j. if j == 1 then 1 else 2;
}

two_vlans-FitsSw : FitsSw two_vlans
two_vlans-FitsSw = record { ids = λ j h. omega (arith, h); pvid_in = λ q h. ground arith }

ar-IsQuick : IsQuick ar ar-Asic
ar-IsQuick d = omega (arith, ar-idle d)

hw_apply-passes_sw_example :
    (ar-Forwarding.passes (hw_apply ar two_vlans blank_cells) 2 0 2 ≡ true)
    ↔ Carries two_vlans.vlan_id two_vlans.vlan_table 16 2 0 2
hw_apply-passes_sw_example =
    hw_apply-passes_sw ar ar-Asic ar-IsQuick two_vlans two_vlans-FitsSw blank_cells ar-Forwarding 2
      0 2 (λ u v hu hv fu fv e. e) refl (omega arith) (omega arith)

-- A chip that answers every read with all ones.
probe_leaks_example :
    let b : Regs Unit = record { read = λ a d. (0xffff, d); write = λ a x d. d } in
    let p = Probe.probe b true (ok tt) tt in
    (p.allocated && not (is_some p.switch) ≡ true && not (Probe.is_known b tt))
    × (p.registered ≡ is_some p.switch)
probe_leaks_example =
    probe_leaks (record { read = λ a d. (0xffff, d); write = λ a x d. d }) true (ok tt) tt

-- A bus that counts the writes.
abbrev counting : MiiBus ℕ
counting = record { read = λ a r d. (d + a, d); write = λ a r x d. d + 1 }

-- A controller whose operations are over at once.
record Mac : Type 0 where
  addr : ℕ
  status : ℕ
  dev : ℕ

abbrev command : ℕ → Mac → Mac
command x d =
    let r = counting.read (d.addr / 256) (d.addr % 256) d.dev in
    if x == 1 then record d { status = r.0; dev = r.1 } else d

abbrev mac : Regs Mac
mac = record {
  read = λ a d. (if a == reg_mii_status then d.status else 0, d);
  write = λ a x d.
      if a == reg_mii_addr
      then record d { addr = x }
      else if a == reg_mii_cmd
      then command x d
      else if a == reg_mii_ctrl
      then record d { dev = counting.write (d.addr / 256) (d.addr % 256) x d.dev }
      else d;
}

abbrev idle_mac : Mac
idle_mac = record { addr = 0; status = 0; dev = 7 }

reg_access-mii_access_example :
    (reg_read (mdio_bus mac) 0x104 idle_mac ≡ mii_read (repaged (mdio_bus mac)) 0x104 idle_mac)
    × (reg_write (mdio_bus mac) 0x104 7 idle_mac
        ≡ mii_write (repaged (mdio_bus mac)) 0x104 7 idle_mac)
reg_access-mii_access_example = reg_access-mii_access mac 0x104 7 idle_mac (omega arith)

mac-Controller : Controller mac counting
mac-Controller = record {
  view = λ d. record { addr = d.addr; status = d.status; busy = 0; dev = d.dev };
  busy_most = λ d. omega arith;
  polls = λ d. (refl, refl);
  keeps = λ reg d h. refl;
  gives = λ d. refl;
  stops = λ d. refl;
  selects = λ x d h. refl;
  starts_read = λ d h. (refl, refl);
  starts_write = λ x d h. refl;
}

mdio_mii_read-Answered_example :
    Answered mac counting mac-Controller 12 7 (mdio_mii_read mac 5 1 idle_mac)
unfolding mac-Controller
mdio_mii_read-Answered_example =
    mdio_mii_read-Answered mac counting mac-Controller 5 1 idle_mac (omega arith) (omega arith) refl
