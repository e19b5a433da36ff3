-- ===== src/Vlan.antt =====
-- The VLAN half of rtl8366_smi.c (target/linux/generic-2.6/files/drivers/net/phy), written over
-- the table of operations `struct rtl8366_smi_ops` of rtl8366_smi.h that a chip driver fills.
-- The device is a state of any type; the flags of `struct rtl8366_smi` stand beside it in `Smi`.
pub mod View
pub mod Scan
pub mod Search
pub mod Pigeonhole
pub mod Pvid
pub mod Effect
pub mod Coherent
pub mod SetVlan
pub mod Invariant
pub mod Init
pub mod Reset
use wair_os.Base.{
  ℕ, zero, suc, ◌+◌, ◌-◌, ◌%◌, ◌^◌, bit_and, bit_or, List, [], ◌∷◌, Bool, true, false, not, ◌&&◌,
  ◌||◌, Option, none, some, ltb, ◌==◌, if◌then◌else◌, bit, Outcome, ok, err, einval, enospc, Op,
  and_then, ◌>>=◌, ◌>>◌, pure, fail,
}

-- `struct rtl8366_vlan_mc` and `struct rtl8366_vlan_4k`
pub record Mc : Type 0 where
  pub vid : ℕ
  pub priority : ℕ
  pub untag : ℕ
  pub member : ℕ
  pub fid : ℕ

pub record Vlan4k : Type 0 where
  pub vid : ℕ
  pub untag : ℕ
  pub member : ℕ
  pub fid : ℕ

-- The fields of `struct rtl8366_smi` that the probe function sets, with `ops`.
pub record Ops (D : Type 0) : Type 0 where
  pub cpu_port : ℕ
  pub num_ports : ℕ
  pub num_vlan_mc : ℕ
  pub get_vlan_mc : ℕ → Op D Mc
  pub set_vlan_mc : ℕ → Mc → Op D (Unit {0})
  pub get_vlan_4k : ℕ → Op D Vlan4k
  pub set_vlan_4k : Vlan4k → Op D (Unit {0})
  pub get_mc_index : ℕ → Op D ℕ
  pub set_mc_index : ℕ → ℕ → Op D (Unit {0})
  -- its first argument is `smi->vlan4k_enabled`
  pub is_vlan_valid : ℕ → ℕ → Bool
  pub enable_vlan : ℕ → Op D (Unit {0})
  pub enable_vlan4k : ℕ → Op D (Unit {0})
  pub enable_port : ℕ → ℕ → Op D (Unit {0})

pub record Smi (D : Type 0) : Type 0 where
  pub dev : D
  pub vlan_enabled : ℕ
  pub vlan4k_enabled : ℕ

-- An operation that leaves the flags alone.
abbrev pub on_dev : {D A : Type 0} → Op D A → Op (Smi D) A
on_dev m s = let (r, d) = m s.dev in (r, record s { dev = d })

abbrev pub set_vlan_flag : {D : Type 0} → ℕ → Op (Smi D) (Unit {0})
set_vlan_flag v s = (ok tt, record s { vlan_enabled = v })

abbrev pub set_vlan4k_flag : {D : Type 0} → ℕ → Op (Smi D) (Unit {0})
set_vlan4k_flag v s = (ok tt, record s { vlan4k_enabled = v })

-- Assignment to a `u8` and to a `u16` field.
abbrev pub u8 : ℕ → ℕ
u8 x = x % 2 ^ 8

abbrev pub u16 : ℕ → ℕ
u16 x = x % 2 ^ 16

abbrev pub cleared : Mc
cleared = record { vid = 0; priority = 0; untag = 0; member = 0; fid = 0 }

-- A call whose error is not looked at.
abbrev pub ignore : {S : Type 0} → Op S (Unit {0}) → Op S (Unit {0})
ignore m s = (ok tt, (m s).1)

module _ {D : Type 0} (o : Ops D) where
  -- The loops that look for an entry of the MC table from index `i` on: the index of the first
  -- one that passes the test, and what `vlanmc` holds then. `left` entries are left.
  unfoldable pub find_mc : (Mc → Bool) → ℕ → ℕ → Mc → Op D (Option ℕ × Mc)
  find_mc test zero i held = pure (none, held)
  find_mc test (suc left) i held = do
    m ← o.get_vlan_mc i
    elim (test m) [ true ↦ pure (some i, m) | false ↦ find_mc test left (i + 1) m ]

  -- `rtl8366_mc_is_used`, from `port` on.
  unfoldable pub is_used_from : ℕ → ℕ → ℕ → Op D Bool
  is_used_from mc_index zero port = pure false
  is_used_from mc_index (suc left) port = do
    index ← o.get_mc_index port
    elim (mc_index == index) [ true ↦ pure true | false ↦ is_used_from mc_index left (port + 1) ]

  unfoldable pub mc_is_used : ℕ → Op D Bool
  mc_is_used mc_index = is_used_from mc_index o.num_ports 0

  -- The last loop of `rtl8366_set_pvid`: the first entry that no port uses.
  unfoldable pub find_unused : ℕ → ℕ → Op D (Option ℕ)
  find_unused zero i = pure none
  find_unused (suc left) i = do
    used ← mc_is_used i
    elim used [ true ↦ find_unused left (i + 1) | false ↦ pure (some i) ]

  unfoldable pub set_vlan : ℕ → ℕ → ℕ → ℕ → Op D (Unit {0})
  set_vlan vid member untag fid = do
    vlan4k ← o.get_vlan_4k vid
    o.set_vlan_4k (record vlan4k { member = u8 member; untag = u8 untag; fid = u8 fid })
    found ← find_mc (λ m. vid == m.vid) o.num_vlan_mc 0 cleared
    elim (found.0) [
      | some i ↦
          o.set_vlan_mc i (record (found.1) { member = u8 member; untag = u8 untag; fid = u8 fid })
      | none ↦ pure tt
    ]

  unfoldable pub get_pvid : ℕ → Op D ℕ
  get_pvid port = do index ← o.get_mc_index port; vlanmc ← o.get_vlan_mc index; pure vlanmc.vid

  -- Both places that fill entry `i` from the 4K table; `vlanmc` keeps its priority.
  unfoldable pub load_mc : ℕ → ℕ → ℕ → Mc → Op D (Unit {0})
  load_mc port vid i vlanmc = do
    vlan4k ← o.get_vlan_4k vid
    o.set_vlan_mc i (record vlanmc {
      vid = u16 vid;
      member = vlan4k.member;
      untag = vlan4k.untag;
      fid = vlan4k.fid;
    })
    o.set_mc_index port i

  -- `held` is the uninitialised `vlanmc`.
  unfoldable pub set_pvid_from : Mc → ℕ → ℕ → Op D (Unit {0})
  set_pvid_from held port vid = do
    same ← find_mc (λ m. vid == m.vid) o.num_vlan_mc 0 held
    elim (same.0) [
      | some i ↦ o.set_vlan_mc i (same.1) >> o.set_mc_index port i
      | none ↦ do
        blank ← find_mc (λ m. m.vid == 0 && m.member == 0) o.num_vlan_mc 0 (same.1)
        elim (blank.0) [
          | some i ↦ load_mc port vid i (blank.1)
          | none ↦ do
            unused ← find_unused o.num_vlan_mc 0
            elim unused [ some i ↦ load_mc port vid i (blank.1) | none ↦ fail enospc ]
        ]
    ]

  -- With an MC table that has an entry, `vlanmc` is read before it is used.
  unfoldable pub set_pvid : ℕ → ℕ → Op D (Unit {0})
  set_pvid = set_pvid_from cleared

  unfoldable pub enable_vlan : ℕ → Op (Smi D) (Unit {0})
  enable_vlan enable = do
    on_dev (o.enable_vlan enable)
    set_vlan_flag enable
    if enable == 0 then set_vlan4k_flag 0 >> on_dev (o.enable_vlan4k enable) else pure tt

  unfoldable pub enable_vlan4k : ℕ → Op (Smi D) (Unit {0})
  enable_vlan4k enable = do
    if enable == 0 then pure tt else on_dev (o.enable_vlan enable) >> set_vlan_flag enable
    on_dev (o.enable_vlan4k enable)
    set_vlan4k_flag enable

  unfoldable pub enable_ports_from : ℕ → ℕ → ℕ → Op D (Unit {0})
  enable_ports_from enable zero port = pure tt
  enable_ports_from enable (suc left) port =
      o.enable_port port enable >> enable_ports_from enable left (port + 1)

  unfoldable pub enable_all_ports : ℕ → Op D (Unit {0})
  enable_all_ports enable = enable_ports_from enable o.num_ports 0

  unfoldable pub clear_from : ℕ → ℕ → Op D (Unit {0})
  clear_from zero i = pure tt
  clear_from (suc left) i = o.set_vlan_mc i cleared >> clear_from left (i + 1)

  unfoldable pub reset_vlan : Op (Smi D) (Unit {0})
  reset_vlan = do
    ignore (enable_vlan 0)
    ignore (enable_vlan4k 0)
    on_dev (clear_from o.num_vlan_mc 0)

  abbrev pub port_mask : ℕ → ℕ
  port_mask port =
      if port == o.cpu_port then bit o.num_ports - 1 else bit_or (bit port) (bit o.cpu_port)

  unfoldable pub init_from : ℕ → ℕ → Op D (Unit {0})
  init_from zero port = pure tt
  init_from (suc left) port = do
    set_vlan (port + 1) (port_mask port) (port_mask port) 0
    set_pvid port (port + 1)
    init_from left (port + 1)

  unfoldable pub init_vlan : Op (Smi D) (Unit {0})
  init_vlan = do reset_vlan; on_dev (init_from o.num_ports 0); enable_vlan 1
