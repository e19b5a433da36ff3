-- ===== src/Ag71xx/Rx.antt =====
-- The receive ring of ag71xx_main.c: ag71xx_ring_rx_clean, ag71xx_rx_reserve,
-- ag71xx_ring_rx_init, ag71xx_ring_rx_refill and ag71xx_rx_packets.
-- `dev_alloc_skb` and the mapping for the device are parameters. The bytes of a buffer in the ring
-- are what the device has written there. `BUG()` and a NULL pointer end the kernel, and are
-- results of their own.
use wair_os.Base.{
  ℕ, zero, suc, ◌+◌, ◌-◌, ◌*◌, ◌%◌, ◌^◌, ◌==◌, if◌then◌else◌, bit, Bool, true, false, Option, none,
  some, List, ◌∷◌, [], ◌++◌, update, Outcome, ok, err,
}
use wair_os.Ag71xx.{
  Skb, Buf, Ring, desc_empty, desc_pktlen, desc_empty_flag, rx_ring_size, next_count, in_flight,
  set_buf, remove_ar8216_header,
}

pub data Result (A : Type 0) : Type 0 where
  returned : A → Result A
  bug null_pointer out_of_fuel : Result A

abbrev pub and_next : {A B : Type 0} → Result A → (A → Result B) → Result B
and_next (returned a) f = f a
and_next bug f = bug
and_next null_pointer f = null_pointer
and_next out_of_fuel f = out_of_fuel

pub record Rx : Type 0 where
  pub ring : Ring
  -- the calls of `dev_alloc_skb` so far
  pub allocs : ℕ
  pub rx_packets : ℕ
  pub rx_bytes : ℕ
  pub rx_dropped : ℕ
  -- given to `netif_receive_skb`, oldest first
  pub delivered : List Skb
  pub freed : List Skb
  -- `ag71xx_wr`, newest first
  pub writes : List (ℕ × ℕ)

-- The board and the kernel.
pub record RxHost : Type 0 where
  pub has_ar8216 : Bool
  pub is_ar724x : Bool
  -- `ag->phy_dev->pkt_align`, if there is a PHY
  pub pkt_align : Option ℕ
  -- the n-th answer of `dev_alloc_skb`, for a size
  pub alloc_skb : ℕ → ℕ → Option Skb
  pub dma_map : Skb → ℕ

abbrev pub rx_pkt_reserve : ℕ
rx_pkt_reserve = 64

-- `ETH_FRAME_LEN`, `ETH_FCS_LEN` and `VLAN_HLEN` are 1514, 4 and 4
abbrev pub rx_pkt_size : ℕ
rx_pkt_size = rx_pkt_reserve + 1514 + 4 + 4

abbrev pub eth_fcs_len : ℕ
eth_fcs_len = 4

abbrev pub reg_rx_status : ℕ
reg_rx_status = 0x194

abbrev pub rx_status_pr : ℕ
rx_status_pr = bit 0

unfoldable pub rx_reserve : RxHost → ℕ
rx_reserve h =
    let reserve = if h.has_ar8216 then 0 else 2 in
    let aligned : ℕ = elim h.pkt_align [ none ↦ reserve | some a ↦ reserve + (4 - a % 4) ] in
    (if h.is_ar724x then aligned % 4 else 0) + rx_pkt_reserve

-- A packet from `dev_alloc_skb` in slot `i`, before its descriptor goes to the device.
abbrev pub attach : RxHost → ℕ → Skb → Ring → Ring
attach h i s r =
    let b = r.buf i in
    set_buf i
      (record b {
        skb = some s;
        dma_addr = h.dma_map s;
        desc = record b.desc { addr = h.dma_map s % 2 ^ 32 };
      })
      r

-- `ring->buf[i].desc->ctrl = DESC_EMPTY;`
abbrev pub give : ℕ → Ring → Ring
give i r =
    let b = r.buf i in set_buf i (record b { desc = record b.desc { ctrl = desc_empty_flag } }) r

-- The first loop of ag71xx_ring_rx_init, with `left` to go.
unfoldable pub link_rx : ℕ → ℕ → ℕ → ℕ → (ℕ → Buf) → ℕ → Buf
link_rx zero i size dma f = f
link_rx (suc left) i size dma f = link_rx left (i + 1) size dma (
    update f i (record (f i) {
      desc = record (f i).desc { next = (dma + size * ((i + 1) % rx_ring_size)) % 2 ^ 32 };
    }))

-- The second loop: whether it came to the end, and what it left.
unfoldable pub fill_rx : RxHost → ℕ → ℕ → Rx → Bool × Rx
fill_rx h zero i x = (true, x)
fill_rx h (suc left) i x =
    let x' = record x { allocs = x.allocs + 1 } in
    elim (h.alloc_skb x.allocs (rx_pkt_size + rx_reserve h)) [
      | none ↦ (false, x')
      | some s ↦ fill_rx h left (i + 1) (record x' { ring = give i (attach h i s x.ring) })
    ]

-- Whether it returns 0, or -ENOMEM.
unfoldable pub ring_rx_init : RxHost → Rx → Bool × Rx
ring_rx_init h x =
    let r = x.ring in
    let linked = record r { buf = link_rx rx_ring_size 0 r.desc_size r.descs_dma r.buf } in
    let filled = fill_rx h rx_ring_size 0 (record x { ring = linked }) in
    (filled.0, record filled.1 { ring = record filled.1.ring { curr = 0; dirty = 0 } })

-- The loop of ag71xx_ring_rx_clean: the packets that go back, from slot `i` on.
unfoldable pub clean_rx : ℕ → ℕ → (ℕ → Buf) → List Skb
clean_rx zero i f = []
clean_rx (suc left) i f =
    let rest = clean_rx left (i + 1) f in elim (f i).skb [ none ↦ rest | some s ↦ s ∷ rest ]

unfoldable pub ring_rx_clean : Rx → Rx
ring_rx_clean x = record x { freed = x.freed ++ clean_rx rx_ring_size 0 x.ring.buf }

-- The end of a turn of ag71xx_ring_rx_refill: the slot goes to the device.
unfoldable pub refilled : Rx → Rx
refilled x =
    let r = x.ring in
    record x { ring = record (give (r.dirty % rx_ring_size) r) { dirty = next_count r.dirty } }

unfoldable pub attached : RxHost → Skb → Rx → Rx
attached h s x = record x {
  allocs = x.allocs + 1;
  ring = attach h (x.ring.dirty % rx_ring_size) s x.ring;
}

-- The loop, with at most `left` turns; `count` counts the descriptors.
unfoldable pub refill_from : RxHost → ℕ → ℕ → Rx → Result (ℕ × Rx)
refill_from h zero count x = if in_flight x.ring == 0 then returned (count, x) else out_of_fuel
refill_from h (suc left) count x =
    if in_flight x.ring == 0
    then returned (count, x)
    else elim (x.ring.buf (x.ring.dirty % rx_ring_size)).skb [
      | some held ↦ refill_from h left (count + 1) (refilled x)
      | none ↦ elim (h.alloc_skb x.allocs (rx_pkt_size + rx_reserve h)) [
        | none ↦ returned (count, record x { allocs = x.allocs + 1 })
        | some s ↦ refill_from h left (count + 1) (refilled (attached h s x))
      ]
    ]

unfoldable pub ring_rx_refill : RxHost → Rx → Result (ℕ × Rx)
ring_rx_refill h x = refill_from h (in_flight x.ring) 0 x

-- `skb_put(skb, pktlen)`, where the length is what the device says less the check sum. It may be
-- negative, and wraps.
abbrev pub put_packet : ℕ → Skb → Skb
put_packet pktlen s = record s { len = (s.len + (2 ^ 32 + pktlen - eth_fcs_len)) % 2 ^ 32 }

-- The packet as it leaves the driver, or as it is dropped.
unfoldable pub unframed : RxHost → Buf → Skb → Outcome (Unit {0}) × Skb
unframed h b s =
    let whole = put_packet (desc_pktlen b.desc) s in
    if h.has_ar8216 then remove_ar8216_header whole else (ok tt, whole)

-- Up or down.
abbrev pub hand_over : Outcome (Unit {0}) × Skb → Rx → Rx
hand_over (ok u, s) x = record x { delivered = x.delivered ++ s ∷ [] }
hand_over (err e, s) x = record x {
  rx_dropped = (x.rx_dropped + 1) % 2 ^ 32;
  freed = x.freed ++ s ∷ [];
}

-- A turn of the loop of ag71xx_rx_packets, after its tests.
unfoldable pub receive_one : RxHost → Skb → Rx → Rx
receive_one h s x =
    let r = x.ring in
    let i = r.curr % rx_ring_size in
    let b = r.buf i in
    let y = hand_over (unframed h b s) x in
    record y {
      ring = record (set_buf i (record b { skb = none }) r) { curr = next_count r.curr };
      rx_packets = (x.rx_packets + 1) % 2 ^ 32;
      rx_bytes = (x.rx_bytes + (2 ^ 32 + desc_pktlen b.desc - eth_fcs_len)) % 2 ^ 32;
      writes = (reg_rx_status, rx_status_pr) ∷ x.writes;
    }

-- The loop, where `left` is `limit - done`.
unfoldable pub receive : RxHost → ℕ → ℕ → Rx → Result (ℕ × Rx)
receive h zero done x = returned (done, x)
receive h (suc left) done x =
    let r = x.ring in
    let b = r.buf (r.curr % rx_ring_size) in
    if desc_empty b.desc
    then returned (done, x)
    else if (r.dirty + rx_ring_size) % 2 ^ 32 == r.curr
    then bug
    else elim b.skb [ none ↦ null_pointer | some s ↦ receive h left (done + 1) (receive_one h s x) ]

unfoldable pub rx_packets : RxHost → ℕ → Rx → Result (ℕ × Rx)
rx_packets h limit x =
    and_next (receive h limit 0 x)
      (λ got. and_next (ring_rx_refill h got.1) (λ filled. returned (got.0, filled.1)))
