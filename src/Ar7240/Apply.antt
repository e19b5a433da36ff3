-- ===== src/Ar7240/Apply.antt =====
-- ar7240sw_capture_stats to ar7240_set_addr, ar7240_vtu_op, ar7240_hw_apply and ar7240_reset_switch
-- of ag71xx_ar7240.c, over the registers of the switch. Delays are left out.
use wair_os.Base.{
  ℕ, zero, suc, ◌+◌, ◌-◌, ◌*◌, ◌^◌, bit, bit_and, bit_or, ◌<<◌, true, false, ◌&&◌, ◌==◌,
  if◌then◌else◌, update, each, Outcome, ok, err,
}
use wair_os.Ar8216.{cleared}
use wair_os.Ar8216.Mii.{Regs}
use wair_os.Ar7240.{Sw, max_vlans, num_ports}
use wair_os.Ar7240.Reg.{reg_rmw, reg_set, reg_wait}

abbrev pub port_cpu : ℕ
port_cpu = 0

abbrev pub reg_vtu : ℕ
reg_vtu = 0x0040

abbrev pub reg_vtu_data : ℕ
reg_vtu_data = 0x0044

abbrev pub reg_mask_ctrl : ℕ
reg_mask_ctrl = 0x00

abbrev pub reg_mib_function : ℕ
reg_mib_function = 0x80

abbrev pub vtu_active : ℕ
vtu_active = bit 3

abbrev pub soft_reset : ℕ
soft_reset = bit 31

abbrev pub reg_port_base : ℕ → ℕ
reg_port_base port = 0x100 + port * 0x100

abbrev pub reg_port_status : ℕ → ℕ
reg_port_status port = reg_port_base port + 0x00

abbrev pub reg_port_ctrl : ℕ → ℕ
reg_port_ctrl port = reg_port_base port + 0x04

abbrev pub reg_port_vlan : ℕ → ℕ
reg_port_vlan port = reg_port_base port + 0x08

-- `AR7240_PORT_MASK_BUT`
abbrev pub port_mask_but : ℕ → ℕ
port_mask_but port = bit_and (2 ^ 6 - 1) (2 ^ 32 - 1 - bit port)

-- `ctrl` of ar7240sw_setup_port.
abbrev pub port_ctrl_word : Sw → ℕ → ℕ
port_ctrl_word s port =
    let mode =
      (if s.vlan && (if bit_and s.vlan_tagged (bit port) == 0 then false else true)
        then 2
        else 1) in
    bit_or (bit_or (bit_or 4 (bit 14)) (bit 13)) (mode << 8)

-- The ports that a port may send to, from the mask that ar7240_hw_apply has computed.
abbrev pub dest_mask : ℕ → ℕ → ℕ
dest_mask port portmask =
    let m =
      (if portmask == 0
        then (if port == port_cpu then port_mask_but port_cpu else bit port_cpu)
        else portmask) in
    bit_and m (port_mask_but port)

-- `vlan` of ar7240sw_setup_port.
abbrev pub port_vlan_word : Sw → ℕ → ℕ → ℕ
port_vlan_word s port portmask =
    let vid =
      (if s.vlan then bit_or (s.vlan_id (s.pvid port)) (3 << 30) else bit_or port (0 << 30)) in
    bit_or vid (dest_mask port portmask << 16)

-- `AR7240_PORT_STATUS_SPEED_1000` to `_DUPLEX`, and `_LINK_AUTO`.
abbrev port_status_word : ℕ → ℕ
port_status_word port =
    if port == port_cpu
    then bit_or (bit_or (bit_or (bit_or (bit_or 2 (bit 4)) (bit 5)) (bit 2)) (bit 3)) (bit 6)
    else bit 9

-- The loop over the ports in one VLAN: the other members are destinations.
unfoldable pub spread : ℕ → (ℕ → ℕ) → ℕ → ℕ
spread vp portmask =
    each (λ i m. if bit_and vp (bit i) == 0 then m else bit_or m (cleared vp i)) num_ports 0
      portmask

-- The loop that isolates the ports from each other.
unfoldable pub isolate : ℕ → ℕ → (ℕ → ℕ) → ℕ → ℕ
isolate zero i portmask = portmask
isolate (suc left) i portmask = isolate left (i + 1) (
    if i == port_cpu
    then portmask
    else (let m = update portmask i (bit port_cpu) in
        update m port_cpu (bit_or (m port_cpu) (bit i))))

module _ {D : Type 0} (b : Regs D) where
  unfoldable pub capture_stats : D → Outcome (Unit {0}) × D
  capture_stats d = reg_wait b reg_mib_function (bit 17) 0 10 (b.write reg_mib_function (3 << 24) d)

  unfoldable pub disable_port : ℕ → D → D
  disable_port port d = b.write (reg_port_ctrl port) 0 d

  unfoldable pub disable_ports : ℕ → ℕ → D → D
  disable_ports zero i d = d
  disable_ports (suc left) i d = disable_ports left (i + 1) (disable_port i d)

  unfoldable pub setup : D → D
  setup d =
      let d₁ = b.write 0x78 (bit_or (bit 8) (15 << 4)) d in
      let d₂ = b.write 0x70 0xfa50 d₁ in
      let d₃ = b.write 0x5c (bit_or (bit_or (bit_or 0x2b (bit 17)) (bit 20)) (bit 18)) d₂ in
      let d₄ = reg_set b 0x2c (bit 26) d₃ in
      let d₅ = reg_rmw b 0x30 (2 ^ 12 - 1) 1536 d₄ in reg_rmw b 0x74 (2 ^ 16 - 1) 0 d₅

  unfoldable pub reset : D → Outcome (Unit {0}) × D
  reset d =
      let d₁ = b.write reg_mask_ctrl soft_reset (disable_ports num_ports 0 d) in
      let r = reg_wait b reg_mask_ctrl soft_reset 0 1000 d₁ in (r.0, setup r.1)

  unfoldable pub setup_port : Sw → ℕ → ℕ → D → D
  setup_port s port portmask d =
      let d₁ = b.write (reg_port_status port) (port_status_word port) d in
      let d₂ = b.write (reg_port_ctrl port) (port_ctrl_word s port) d₁ in
      b.write (reg_port_vlan port) (port_vlan_word s port portmask) d₂

  -- `addr` is the six bytes of the MAC address.
  unfoldable pub set_addr : (ℕ → ℕ) → D → D
  set_addr addr d =
      let t = bit_or (addr 4 << 8) (addr 5) in
      let u = bit_or (bit_or (bit_or (addr 0 << 24) (addr 1 << 16)) (addr 2 << 8)) (addr 3) in
      b.write 0x24 u (b.write 0x20 t d)

  -- The part of ar7240_vtu_op after the wait.
  unfoldable pub vtu_start : ℕ → ℕ → D → D
  vtu_start op val d =
      let d₁ =
        (if bit_and op 0x7 == 2
          then b.write reg_vtu_data (bit_or (bit_and val 0x3ff) (bit 11)) d
          else d) in
      b.write reg_vtu (bit_or op vtu_active) d₁

  unfoldable pub vtu_after : ℕ → ℕ → Outcome (Unit {0}) × D → D
  vtu_after op val (ok u, d) = vtu_start op val d
  vtu_after op val (err e, d) = d

  unfoldable pub vtu_op : ℕ → ℕ → D → D
  vtu_op op val d = vtu_after op val (reg_wait b reg_vtu vtu_active 0 5 d)

  -- The loop over the VLANs, with the destination masks so far.
  unfoldable pub load_vlans : Sw → ℕ → ℕ → (ℕ → ℕ) × D → (ℕ → ℕ) × D
  load_vlans s zero j r = r
  load_vlans s (suc left) j (portmask, d) =
      let vp = s.vlan_table j in
      load_vlans s left (j + 1) (
        if vp == 0
        then (portmask, d)
        else (spread vp portmask, vtu_op (bit_or 2 (s.vlan_id j << 16)) vp d))

  unfoldable pub setup_ports : Sw → (ℕ → ℕ) → ℕ → ℕ → D → D
  setup_ports s portmask zero i d = d
  setup_ports s portmask (suc left) i d =
      setup_ports s portmask left (i + 1) (setup_port s i (portmask i) d)

  unfoldable pub hw_apply : Sw → D → D
  hw_apply s d =
      let d₁ = vtu_op 1 0 d in
      let r =
        (if s.vlan
          then load_vlans s max_vlans 0 (λ i. 0, d₁)
          else (isolate num_ports 0 (λ i. 0), d₁)) in
      setup_ports s r.0 num_ports 0 r.1

  -- The outcome of ar7240sw_reset is not looked at.
  unfoldable pub reset_switch : D → D
  reset_switch d = (reset d).1
