-- ===== src/Ar8216/Apply.antt =====
-- ar8216_wait_bit, ar8216_vtu_op, ar8216_hw_apply and ar8216_reset_switch of ar8216.c, over the
-- registers of the chip. Locks and messages are left out.
use wair_os.Base.{
  ℕ, zero, suc, ◌+◌, ◌*◌, bit_and, bit_or, bit, ◌<<◌, Bool, true, false, ◌&&◌, ◌==◌, if◌then◌else◌,
  update, each,
}
use wair_os.Ar8216.{Chip, Priv, ar8216, ar8316, unknown, max_vlans, num_ports, port_cpu, cleared}
use wair_os.Ar8216.Mii.{Regs, rmw}

abbrev pub reg_flood_mask : ℕ
reg_flood_mask = 0x002c

abbrev pub reg_global_ctrl : ℕ
reg_global_ctrl = 0x0030

abbrev pub reg_vtu : ℕ
reg_vtu = 0x0040

abbrev pub reg_vtu_data : ℕ
reg_vtu_data = 0x0044

abbrev pub reg_atu : ℕ
reg_atu = 0x0050

abbrev pub vtu_op_flush : ℕ
vtu_op_flush = 0x1

abbrev pub vtu_op_load : ℕ
vtu_op_load = 0x2

abbrev pub vtu_active : ℕ
vtu_active = bit 3

abbrev pub vtudata_member : ℕ
vtudata_member = 0x3ff

abbrev pub vtudata_valid : ℕ
vtudata_valid = bit 11

abbrev pub port_offset : ℕ → ℕ
port_offset i = 0x0100 * (i + 1)

abbrev pub reg_port_status : ℕ → ℕ
reg_port_status i = port_offset i + 0x0000

abbrev pub reg_port_ctrl : ℕ → ℕ
reg_port_ctrl i = port_offset i + 0x0004

abbrev pub reg_port_vlan : ℕ → ℕ
reg_port_vlan i = port_offset i + 0x0008

abbrev pub port_ctrl_learn : ℕ
port_ctrl_learn = bit 14

abbrev pub port_ctrl_header : ℕ
port_ctrl_header = bit 11

-- The bits that ar8216_hw_apply sets in `AR8216_REG_PORT_CTRL`: `AR8216_PORT_CTRL_LEARN`,
-- `_VLAN_MODE`, `_SINGLE_VLAN`, `_STATE`, `_HEADER` and `_LEARN_LOCK`.
abbrev pub port_ctrl_mask : ℕ
port_ctrl_mask =
    bit_or (bit_or (bit_or (bit_or (bit_or (bit 14) (0x3 << 8)) (bit 13)) 0x7) (bit 11)) (bit 7)

-- and in `AR8216_REG_PORT_VLAN`: `AR8216_PORT_VLAN_DEST_PORTS`, `_MODE` and `_DEFAULT_ID`.
abbrev pub port_vlan_mask : ℕ
port_vlan_mask = bit_or (bit_or (0x1ff << 16) (0x3 << 30)) 0xfff

abbrev pub is_ar8216 : Chip → Bool
is_ar8216 unknown = false
is_ar8216 ar8216 = true
is_ar8216 ar8316 = false

abbrev pub is_ar8316 : Chip → Bool
is_ar8316 unknown = false
is_ar8316 ar8216 = false
is_ar8316 ar8316 = true

-- The loop over the ports in one VLAN: the other members are destinations.
unfoldable pub spread : ℕ → (ℕ → ℕ) → ℕ → ℕ
spread vp portmask =
    each (λ i m. if bit_and vp (bit i) == 0 then m else bit_or m (cleared vp i)) num_ports 0
      portmask

-- The loop that isolates the ports from each other.
unfoldable pub isolate : ℕ → ℕ → (ℕ → ℕ) → ℕ → ℕ
isolate zero i portmask = portmask
isolate (suc left) i portmask = isolate left (i + 1) (
    if i == port_cpu
    then portmask
    else (let m = update portmask i (bit port_cpu) in
        update m port_cpu (bit_or (m port_cpu) (bit i))))

-- The fields after `memset` and the loop over `vlan_id`.
abbrev pub reset_priv : Priv → Priv
reset_priv p = record p {
  vlan = false;
  vlan_id = λ i. i;
  vlan_table = λ i. 0;
  vlan_tagged = 0;
  pvid = λ i. 0;
}

-- The values for `AR8216_REG_PORT_CTRL` and `AR8216_REG_PORT_VLAN`.
abbrev pub port_ctrl_value : Priv → ℕ → ℕ
port_ctrl_value p i =
    let egress =
      (if p.vlan && (if bit_and p.vlan_tagged (bit i) == 0 then false else true) then 2 else 1) in
    bit_or
      (bit_or
        (bit_or port_ctrl_learn
          (if p.vlan && (i == port_cpu) && is_ar8216 p.chip then port_ctrl_header else 0))
        (egress << 8))
      4

abbrev pub port_vlan_value : Priv → (ℕ → ℕ) → ℕ → ℕ
port_vlan_value p portmask i =
    let pvid = (if p.vlan then p.vlan_id (p.pvid i) else i) in
    let ingress = (if p.vlan then 3 else 0) in
    bit_or (bit_or (portmask i << 16) (ingress << 30)) pvid

module _ {D : Type 0} (b : Regs D) where
  -- The loop of ar8216_wait_bit; `left` is `timeout`. It returns whether the time is over.
  unfoldable pub wait_loop : ℕ → ℕ → ℕ → ℕ → D → Bool × D
  wait_loop reg mask val zero d =
      let r = b.read reg d in (if bit_and r.0 mask == val then false else true, r.1)
  wait_loop reg mask val (suc left) d =
      let r = b.read reg d in
      let rest = wait_loop reg mask val left r.1 in
      if bit_and r.0 mask == val then (false, r.1) else rest

  unfoldable pub wait_bit : ℕ → ℕ → ℕ → D → Bool × D
  wait_bit reg mask val d = wait_loop reg mask val 20 d

  -- The part of ar8216_vtu_op after the wait.
  unfoldable pub vtu_start : ℕ → ℕ → D → D
  vtu_start op val d =
      let d₁ =
        (if bit_and op 0x7 == vtu_op_load
          then b.write reg_vtu_data (bit_or (bit_and val vtudata_member) vtudata_valid) d
          else d) in
      b.write reg_vtu (bit_or op vtu_active) d₁

  unfoldable pub vtu_op : ℕ → ℕ → D → D
  vtu_op op val d =
      let w = wait_bit reg_vtu vtu_active 0 d in if w.0 then w.1 else vtu_start op val w.1

  -- The loop over the VLANs, with the destination masks so far.
  unfoldable pub load_vlans : Priv → ℕ → ℕ → (ℕ → ℕ) × D → (ℕ → ℕ) × D
  load_vlans p zero j s = s
  load_vlans p (suc left) j (portmask, d) =
      let vp = p.vlan_table j in
      load_vlans p left (j + 1) (
        if vp == 0
        then (portmask, d)
        else (spread vp portmask, vtu_op (bit_or vtu_op_load (p.vlan_id j << 16)) vp d))

  -- The loop that brings the masks and the tag settings to the ports.
  unfoldable pub apply_ports : Priv → (ℕ → ℕ) → ℕ → ℕ → D → D
  apply_ports p portmask zero i d = d
  apply_ports p portmask (suc left) i d = apply_ports p portmask left (i + 1) (
      rmw b (reg_port_vlan i) port_vlan_mask (port_vlan_value p portmask i)
        (rmw b (reg_port_ctrl i) port_ctrl_mask (port_ctrl_value p i) d))

  unfoldable pub hw_apply : Priv → D → D
  hw_apply p d =
      let d₁ = vtu_op vtu_op_flush 0 d in
      let s =
        (if p.vlan
          then load_vlans p max_vlans 0 (λ i. 0, d₁)
          else (isolate num_ports 0 (λ i. 0), d₁)) in
      apply_ports p s.0 num_ports 0 s.1

  -- The value for `AR8216_REG_PORT_STATUS` of the CPU port.
  abbrev cpu_status : Chip → ℕ
  cpu_status chip =
      bit_or
        (bit_or
          (bit_or
            (bit_or (bit_or (bit_or (bit 8) (if is_ar8316 chip then 2 else 1)) (bit 2)) (bit 3))
            (if is_ar8316 chip then bit 5 else 0))
          (if is_ar8316 chip then bit 4 else 0))
        (bit 6)

  -- The loop of ar8216_reset_switch over the ports.
  unfoldable pub reset_ports : Chip → ℕ → ℕ → D → D
  reset_ports chip zero i d = d
  reset_ports chip (suc left) i d =
      let d₁ = b.write (reg_port_ctrl i) (bit_or port_ctrl_learn (4 << 0)) d in
      let d₂ = b.write (reg_port_vlan i) 0 d₁ in
      reset_ports chip left (i + 1)
        (b.write (reg_port_status i) (if i == port_cpu then cpu_status chip else bit 9) d₂)

  -- The writes of ar8216_reset_switch after that loop.
  unfoldable pub reset_globals : Chip → D → D
  reset_globals chip d =
      let d₁ = b.write 0x38 0xc000050e d in
      if is_ar8216 chip
      then rmw b reg_global_ctrl 0x7ff (1518 + 8 + 2) d₁
      else if is_ar8316 chip
      then b.write reg_flood_mask 0x003f003f (rmw b reg_global_ctrl 0x3fff (9018 + 8 + 2) d₁)
      else d₁

  unfoldable pub reset_switch : Priv → D → Priv × D
  reset_switch p d =
      let p₁ = reset_priv p in
      (p₁, hw_apply p₁ (reset_globals p.chip (reset_ports p.chip num_ports 0 d)))
