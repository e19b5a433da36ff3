-- ===== src/Ar8216/Mangle.antt =====
-- ar8216_mangle_tx and ar8216_mangle_rx of ar8216.c: the header of two bytes between the processor
-- and an AR8216. The bytes of a packet are those from `skb->data` on. What the driver's PVID table
-- gives for a port number of 6 or more is what stands behind it in memory.
use wair_os.Base.{
  ℕ, ◌+◌, ◌-◌, ◌%◌, bit_and, bit_or, bit, ◌>>>◌, Bool, not, ◌||◌, ◌==◌, if◌then◌else◌, Option, none,
  some, ltb, update,
}
use wair_os.Ag71xx.{Skb, skb_pull}
use wair_os.Ar8216.{Priv}

-- `ndo_start_xmit` or `netif_receive_skb` gets the packet, or it goes back to the kernel.
pub data Fate : Type 0 where
  passed : Skb → Fate
  eaten : Skb → Fate

-- `skb_push` by two bytes, and the header.
abbrev pub with_header : Skb → Skb
with_header s = record {
  bytes = λ k. if k == 0 then 0x10 else if k == 1 then 0x80 else s.bytes (k - 2);
  len = s.len + 2;
}

-- `priv` is `dev->phy_ptr`, and `expanded` whether `pskb_expand_head` finds memory.
unfoldable pub mangle_tx : Option Priv → ℕ → Bool → Skb → Fate
mangle_tx none headroom expanded s = eaten s
mangle_tx (some p) headroom expanded s =
    if not p.vlan
    then passed s
    else if ltb headroom 2
    then (if expanded then passed (with_header s) else eaten s)
    else passed (with_header s)

-- The bytes with the VID `vlan` in the VLAN tag, which stands behind the header and two addresses.
abbrev pub retagged : ℕ → (ℕ → ℕ) → ℕ → ℕ
retagged vlan buf =
    update (update buf 16 (bit_or (bit_and (buf 16) 0xf0) ((vlan >>> 8) % 256) % 256)) 17
      (bit_and vlan 0xff)

unfoldable pub mangle_rx : Option Priv → Skb → Fate
mangle_rx none s = eaten s
mangle_rx (some p) s =
    let buf = s.bytes in
    let port = bit_and (buf 0) 0xf in
    if not p.vlan
    then passed s
    else if not (buf 14 == 0x81) || not (buf 15 == 0x00)
    then passed (skb_pull 2 s)
    else if not (bit_and p.vlan_tagged (bit port) == 0)
    then passed (skb_pull 2 s)
    else passed (skb_pull 2 (record s { bytes = retagged (p.vlan_id (p.pvid port)) buf }))
