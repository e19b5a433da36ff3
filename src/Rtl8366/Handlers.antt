-- ===== src/Rtl8366/Handlers.antt =====
-- The handlers of swconfig in rtl8366_smi.c, `rtl8366_sw_*`, over the operations of a chip.
use wair_os.Base.{
  ℕ, zero, suc, ◌+◌, List, [], ◌∷◌, ltb, ◌==◌, if◌then◌else◌, bit, bit_and, bit_or, Outcome, ok,
  err, einval, Op, ◌>>=◌, ◌>>◌, pure, fail,
}
use wair_os.Vlan.{
  Ops, Smi, Vlan4k, on_dev, set_vlan, get_pvid, set_pvid, enable_vlan, enable_vlan4k,
}

-- `struct switch_port`
pub record SwitchPort : Type 0 where
  pub id : ℕ
  pub flags : ℕ

-- `BIT(SWITCH_PORT_FLAG_TAGGED)` of include/linux/switch.h
abbrev pub tagged : ℕ
tagged = bit 2

-- The `max` and `ofs` of `struct switch_attr`
pub record Attr : Type 0 where
  pub max : ℕ
  pub ofs : ℕ

-- The ports from `i` on that the VLAN has, in order.
unfoldable pub ports_from : Vlan4k → ℕ → ℕ → List SwitchPort
ports_from vlan4k zero i = []
ports_from vlan4k (suc left) i =
    let rest = ports_from vlan4k left (i + 1) in
    if bit_and vlan4k.member (bit i) == 0
    then rest
    else record { id = i; flags = if bit_and vlan4k.untag (bit i) == 0 then tagged else 0 } ∷ rest

-- What is in `vlan4k` after a call of `get_vlan_4k`. The chip drivers clear it before they read.
abbrev pub entry_read : Outcome Vlan4k → Vlan4k
entry_read (ok v) = v
entry_read (err e) = record { vid = 0; untag = 0; member = 0; fid = 0 }

module _ {D : Type 0} (o : Ops D) where
  abbrev pub sw_get_port_pvid : ℕ → Op (Smi D) ℕ
  sw_get_port_pvid port = on_dev (get_pvid o port)

  abbrev pub sw_set_port_pvid : ℕ → ℕ → Op (Smi D) (Unit {0})
  sw_set_port_pvid port val = on_dev (set_pvid o port val)

  -- The check that the handlers of a VLAN start with.
  abbrev pub check_vlan : ℕ → Op (Smi D) (Unit {0})
  check_vlan vlan s = if o.is_vlan_valid s.vlan4k_enabled vlan then (ok tt, s) else (err einval, s)

  -- The outcome of `get_vlan_4k` is not looked at.
  unfoldable pub sw_get_vlan_ports : ℕ → Op (Smi D) (List SwitchPort)
  sw_get_vlan_ports vlan = do
    check_vlan vlan
    vlan4k ← on_dev (λ d. let r = o.get_vlan_4k vlan d in (ok (entry_read r.0), r.1))
    pure (ports_from vlan4k o.num_ports 0)

  -- The loop over the ports: their masks, and a PVID for each.
  unfoldable pub add_ports : ℕ → List SwitchPort → ℕ → ℕ → Op D (ℕ × ℕ)
  add_ports vlan [] member untag = pure (member, untag)
  add_ports vlan (port ∷ rest) member untag = do
    set_pvid o (port.id) vlan
    add_ports vlan rest (bit_or member (bit port.id))
        (if bit_and port.flags tagged == 0 then bit_or untag (bit port.id) else untag)

  unfoldable pub sw_set_vlan_ports : ℕ → List SwitchPort → Op (Smi D) (Unit {0})
  sw_set_vlan_ports vlan ports = do
    check_vlan vlan
    masks ← on_dev (add_ports vlan ports 0 0)
    on_dev (set_vlan o vlan (masks.0) (masks.1) 0)

  unfoldable pub sw_get_vlan_fid : ℕ → Op (Smi D) ℕ
  sw_get_vlan_fid vlan = do check_vlan vlan; vlan4k ← on_dev (o.get_vlan_4k vlan); pure vlan4k.fid

  -- `val->value.i` is unsigned, so only its upper bound is tested.
  unfoldable pub sw_set_vlan_fid : Attr → ℕ → ℕ → Op (Smi D) (Unit {0})
  sw_set_vlan_fid attr vlan i = do
    check_vlan vlan
    if ltb attr.max i then fail einval else pure tt
    vlan4k ← on_dev (o.get_vlan_4k vlan)
    on_dev (set_vlan o vlan vlan4k.member vlan4k.untag i)

  unfoldable pub sw_get_vlan_enable : Attr → Op (Smi D) ℕ
  sw_get_vlan_enable attr s =
      if ltb 2 attr.ofs
      then (err einval, s)
      else (ok (if attr.ofs == 1 then s.vlan_enabled else s.vlan4k_enabled), s)

  unfoldable pub sw_set_vlan_enable : Attr → ℕ → Op (Smi D) (Unit {0})
  sw_set_vlan_enable attr i =
      if ltb 2 attr.ofs
      then fail einval
      else (if attr.ofs == 1 then enable_vlan o i else enable_vlan4k o i)
