-- ===== src/Ag71xx/Tx.antt =====
-- The transmit ring of ag71xx_main.c: ag71xx_ring_tx_init, ag71xx_ring_tx_clean,
-- ag71xx_hard_start_xmit, ag71xx_check_dma_stuck and ag71xx_tx_packets.
-- The transmit path and the poll function run with soft interrupts off, so each is one step. The
-- buffers that go back to the kernel and the register writes are recorded, the buffers oldest
-- first, the writes newest first. A read
-- of `skb->len` through a NULL pointer has no result.
use wair_os.Base.{
  ℕ, zero, suc, ◌+◌, ◌-◌, ◌*◌, ◌/◌, ◌%◌, ◌^◌, bit_and, ◌==◌, ltb, if◌then◌else◌, bit, ◌>>>◌, Bool,
  true, false, not, ◌&&◌, Option, none, some, List, [], ◌∷◌, ◌++◌, update,
}
use wair_os.Ag71xx.{
  Skb, Buf, Ring, desc_empty, desc_empty_flag, desc_pktlen_mask, tx_ring_size, tx_thres_stop,
  tx_thres_wakeup, next_count, in_flight, set_buf, add_ar8216_header,
}

pub record Tx : Type 0 where
  pub ring : Ring
  -- `netif_stop_queue` was called, and `netif_wake_queue` not since
  pub stopped : Bool
  pub tx_dropped : ℕ
  pub tx_bytes : ℕ
  pub tx_packets : ℕ
  pub tx_errors : ℕ
  pub freed : List Skb
  -- `ag71xx_wr`: the register and the value
  pub writes : List (ℕ × ℕ)
  -- `schedule_work(&ag->restart_work)`
  pub restart : Bool

-- The board, and what the driver reads of the kernel and of the chip while it runs.
pub record TxHost : Type 0 where
  pub has_ar8216 : Bool
  pub is_ar7240 : Bool
  pub dma_map : Skb → ℕ
  pub hz : ℕ
  pub jiffies : ℕ
  pub carrier_ok : Bool
  pub rx_sm : ℕ
  pub tx_sm : ℕ
  pub fifo_depth : ℕ

abbrev pub reg_tx_ctrl : ℕ
reg_tx_ctrl = 0x180

abbrev pub reg_tx_status : ℕ
reg_tx_status = 0x188

abbrev pub tx_ctrl_txe : ℕ
tx_ctrl_txe = bit 0

abbrev pub tx_status_ps : ℕ
tx_status_ps = bit 0

abbrev pub count : ℕ → ℕ → ℕ
count n k = (n + k) % 2 ^ 32

-- `for (i = 0; i < size; i++)` over the descriptors, with `left` to go
unfoldable pub init_bufs : ℕ → ℕ → ℕ → ℕ → (ℕ → Buf) → ℕ → Buf
init_bufs zero i size descs_dma f = f
init_bufs (suc left) i desc_size descs_dma f = init_bufs left (i + 1) desc_size descs_dma (
    update f i (record (f i) {
      desc = record (f i).desc {
        next = (descs_dma + desc_size * ((i + 1) % tx_ring_size)) % 2 ^ 32;
        ctrl = desc_empty_flag;
      };
      skb = none;
    }))

unfoldable pub ring_tx_init : Tx → Tx
ring_tx_init t =
    let r = t.ring in
    record t {
      ring = record r {
        buf = init_bufs tx_ring_size 0 r.desc_size r.descs_dma r.buf;
        curr = 0;
        dirty = 0;
      };
    }

-- `if (skb) dev_kfree_skb_any(skb);`
abbrev free_if : Option Skb → List Skb → List Skb
free_if none l = l
free_if (some s) l = l ++ s ∷ []

-- One turn of the loop of ag71xx_ring_tx_clean.
unfoldable pub clean_one : Tx → Tx
clean_one t =
    let i = t.ring.dirty % tx_ring_size in
    let b = t.ring.buf i in
    let busy = not (desc_empty b.desc) in
    record t {
      ring =
          record (set_buf i
            (record b { desc = if busy then record b.desc { ctrl = 0 } else b.desc; skb = none })
            t.ring) { dirty = next_count t.ring.dirty };
      tx_errors = if busy then count t.tx_errors 1 else t.tx_errors;
      freed = free_if b.skb t.freed;
    }

-- The loop, with at most `left` turns.
unfoldable pub clean_from : ℕ → Tx → Option Tx
clean_from zero t = if t.ring.curr == t.ring.dirty then some t else none
clean_from (suc left) t =
    let rest = clean_from left (clean_one t) in if t.ring.curr == t.ring.dirty then some t else rest

unfoldable pub ring_tx_clean : Tx → Option Tx
ring_tx_clean t = clean_from (in_flight t.ring) t

-- `err_drop`
unfoldable pub drop : Skb → Tx → Tx
drop s t = record t { tx_dropped = count t.tx_dropped 1; freed = t.freed ++ s ∷ [] }

-- The rest of ag71xx_hard_start_xmit, once the packet has its header and is not empty.
unfoldable pub inject : TxHost → Skb → Tx → Tx
inject h s t =
    let i = t.ring.curr % tx_ring_size in
    let b = t.ring.buf i in
    let curr = next_count t.ring.curr in
    record t {
      ring =
          record (set_buf i
            (record b {
              skb = some s;
              timestamp = h.jiffies;
              desc = record b.desc {
                addr = h.dma_map s % 2 ^ 32;
                ctrl = bit_and s.len desc_pktlen_mask;
              };
            })
            t.ring) { curr = curr };
      stopped = if curr == count t.ring.dirty tx_thres_stop then true else t.stopped;
      writes = (reg_tx_ctrl, tx_ctrl_txe) ∷ t.writes;
    }

-- The packet as the device gets it.
unfoldable pub framed : TxHost → Skb → Skb
framed h s = if h.has_ar8216 then add_ar8216_header s else s

unfoldable pub hard_start_xmit : TxHost → Skb → Tx → Tx
hard_start_xmit h s t =
    if not (desc_empty (t.ring.buf (t.ring.curr % tx_ring_size)).desc)
    then drop s t
    else let s = framed h s in if s.len == 0 then drop s t else inject h s t

-- `time_before(a, b)`: the difference is negative as a 32 bit number
abbrev pub time_before : ℕ → ℕ → Bool
time_before a b = not (ltb ((a + 2 ^ 32 - b) % 2 ^ 32) (2 ^ 31))

unfoldable pub check_dma_stuck : TxHost → ℕ → Bool
check_dma_stuck h timestamp =
    let low = bit_and h.rx_sm 0x7 in
    let high = bit_and (h.rx_sm >>> 4) 0x7 in
    if time_before h.jiffies (count timestamp (h.hz / 10))
    then false
    else if not h.carrier_ok
    then false
    else if (low == 0x3) && (high == 0x6)
    then true
    else ((bit_and (h.tx_sm >>> 4) 0x7 == 0) && (low == 0)) && ((high == 0) && (h.fifo_depth == 0))

-- The turn of the loop of ag71xx_tx_packets that takes a packet off the ring.
unfoldable pub reap_one : Skb → Tx → Tx
reap_one s t =
    let i = t.ring.dirty % tx_ring_size in
    record t {
      ring = record (set_buf i (record (t.ring.buf i) { skb = none }) t.ring) {
        dirty = next_count t.ring.dirty;
      };
      tx_bytes = count t.tx_bytes s.len;
      tx_packets = count t.tx_packets 1;
      freed = t.freed ++ s ∷ [];
      writes = (reg_tx_status, tx_status_ps) ∷ t.writes;
    }

unfoldable pub blocked : TxHost → Tx → Tx
blocked h t =
    let stuck = check_dma_stuck h (t.ring.buf (t.ring.dirty % tx_ring_size)).timestamp in
    record t { restart = if h.is_ar7240 && stuck then true else t.restart }

-- The loop of ag71xx_tx_packets, with at most `left` turns; `sent` counts the packets.
unfoldable pub reap : TxHost → ℕ → ℕ → Tx → Option (ℕ × Tx)
reap h zero sent t = if t.ring.dirty == t.ring.curr then some (sent, t) else none
reap h (suc left) sent t =
    let b = t.ring.buf (t.ring.dirty % tx_ring_size) in
    if t.ring.dirty == t.ring.curr
    then some (sent, t)
    else if not (desc_empty b.desc)
    then some (sent, blocked h t)
    else elim b.skb [ none ↦ none | some s ↦ reap h left (sent + 1) (reap_one s t) ]

-- `if ((ring->curr - ring->dirty) < AG71XX_TX_THRES_WAKEUP) netif_wake_queue(ag->dev);`
unfoldable pub wake : Tx → Tx
wake t = record t { stopped = if ltb (in_flight t.ring) tx_thres_wakeup then false else t.stopped }

abbrev pub after_reap : Option (ℕ × Tx) → Option (ℕ × Tx)
after_reap none = none
after_reap (some r) = some (r.0, wake r.1)

unfoldable pub tx_packets : TxHost → Tx → Option (ℕ × Tx)
tx_packets h t = after_reap (reap h (in_flight t.ring) 0 t)
