-- ===== src/Tests/OnEth.antt =====
-- The ag71xx driver on concrete packets.
use wair_os.Base.{
  ℕ, zero, suc, ◌<◌, ◌≡◌, ◌≢◌, ◌%◌, ◌+◌, refl, arith, bit, true, false, none, some, [], ◌∷◌, ◌++◌,
  inl, inr, update_self, ◌==◌, if◌then◌else◌,
}
use wair_os.Ag71xx.{Skb, Desc, Buf, Ring, desc_empty, tx_ring_size}
use wair_os.Ag71xx.Tx.{Tx, TxHost, framed, ring_tx_init, hard_start_xmit, tx_packets}
use wair_os.Ag71xx.Slots.{nth_buf, Pending}
use wair_os.Ag71xx.Xmit.{hard_start_xmit-Pending}
use wair_os.Ag71xx.Sent.{Sent, tx_packets-Sent, tx_packets-drains}
use wair_os.Ag71xx.Empty.{ring_tx_init-Pending}
use wair_os.Ag71xx.Traffic.{
  device_writes, device_writes-Pending, Run, InOrder, ring_tx_init-InOrder,
}
use wair_os.Ag71xx.Rx.{Rx, RxHost, rx_packets, bug}
use wair_os.Ag71xx.Window.{Window}
use wair_os.Ag71xx.Received.{Received, rx_packets-Received, rx_packets-bug}
use wair_os.Ag71xx.Poll.{Eth, Status, poll, interrupt}
use wair_os.Ag71xx.Polled.{Polled, poll-Polled}
use wair_os.Ag71xx.Awake.{IsAwake, Calls, Calls-IsAwake}

abbrev blank_buf : Buf
blank_buf = record {
  skb = none;
  desc = record { addr = 0; ctrl = 0; next = 0 };
  dma_addr = 0;
  timestamp = 0;
}

abbrev pub new_ring : Ring
new_ring = record { buf = λ i. blank_buf; descs_dma = 0x1000; desc_size = 32; curr = 0; dirty = 0 }

abbrev pub new_tx : Tx
new_tx = record {
  ring = new_ring;
  stopped = false;
  tx_dropped = 0;
  tx_bytes = 0;
  tx_packets = 0;
  tx_errors = 0;
  freed = [];
  writes = [];
  restart = false;
}

abbrev host : TxHost
host = record {
  has_ar8216 = true;
  is_ar7240 = false;
  dma_map = λ s. 0x80000;
  hz = 100;
  jiffies = 5;
  carrier_ok = true;
  rx_sm = 0;
  tx_sm = 0;
  fifo_depth = 0;
}

abbrev packet : Skb
packet = record { bytes = λ k. k % 256; len = 60 }

abbrev started : Tx
started = ring_tx_init new_tx

started-Pending : Pending started []
started-Pending = (ring_tx_init-Pending new_tx refl).0

started_runs : started.stopped ≡ false
unfolding ring_tx_init
started_runs = refl

packet_sendable : (framed host packet).len ≢ 0
unfolding framed wair_os.Ag71xx.add_ar8216_header
packet_sendable e = absurd (omega (arith, e))

abbrev pub one_sent : Tx
one_sent = hard_start_xmit host packet started

abbrev pub on_wire : Skb
on_wire = framed host packet

hard_start_xmit-Pending_example :
    Pending one_sent ([] ++ on_wire ∷ [])
    × (one_sent.freed ≡ started.freed)
    × (one_sent.tx_dropped ≡ started.tx_dropped)
hard_start_xmit-Pending_example =
    hard_start_xmit-Pending host packet started [] started-Pending started_runs packet_sendable

pub one_sent-Pending : Pending one_sent (on_wire ∷ [])
one_sent-Pending =
    (hard_start_xmit-Pending host packet started [] started-Pending started_runs packet_sendable).0

tx_packets-Sent_example : Sent one_sent (on_wire ∷ []) (tx_packets host one_sent)
tx_packets-Sent_example = tx_packets-Sent host one_sent (on_wire ∷ []) one_sent-Pending

abbrev one_done : Tx
one_done = device_writes 0 (bit 31) one_sent

one_done-Pending : Pending one_done (on_wire ∷ [])
one_done-Pending =
    device_writes-Pending one_sent (on_wire ∷ []) one_sent-Pending 0 (bit 31) (omega arith)

emptied : (k : ℕ) → k < 1 → desc_empty (nth_buf one_done.ring k).desc ≡ true
unfolding desc_empty
emptied zero lt = rw (update_self one_sent.ring.buf ((one_sent.ring.dirty + 0) % tx_ring_size)) refl
emptied (suc k) lt = absurd (omega (arith, lt))

tx_packets-drains_example :
    (u : Tx) × (tx_packets host one_done ≡ some (1, u))
    × Pending u []
    × (u.stopped ≡ false)
    × (u.freed ≡ one_done.freed ++ on_wire ∷ [])
tx_packets-drains_example = tx_packets-drains host one_done (on_wire ∷ []) one_done-Pending emptied

ring_tx_init-InOrder_example : InOrder (on_wire ∷ []) one_sent
ring_tx_init-InOrder_example =
    ring_tx_init-InOrder new_tx one_sent (on_wire ∷ []) refl refl
      (Run.xmit host packet Run.start started_runs)

abbrev pub switch : RxHost
switch = record {
  has_ar8216 = true;
  is_ar724x = true;
  pkt_align = some 2;
  alloc_skb = λ n size. some (record { bytes = λ k. k; len = 0 });
  dma_map = λ s. 0x90000;
}

abbrev pub rx_on : Ring → Rx
rx_on r = record {
  ring = r;
  allocs = 0;
  rx_packets = 0;
  rx_bytes = 0;
  rx_dropped = 0;
  delivered = [];
  freed = [];
  writes = [];
}

-- The device has put a packet of 64 bytes in slot 0.
abbrev busy_ring : Ring
busy_ring = record new_ring {
  buf = λ i. record {
    skb = some (record { bytes = λ k. 0; len = 0 });
    desc = record { addr = 0x90000; ctrl = if i == 0 then 64 else bit 31; next = 0 };
    dma_addr = 0x90000;
    timestamp = 0;
  };
}

busy_ring-Window : Window busy_ring 0
busy_ring-Window = record {
  taken = λ k lt. absurd (omega (arith, lt));
  stale = λ k lt. absurd (omega (arith, lt));
  filled = λ k from lt. (record { bytes = λ k. 0; len = 0 }, refl);
  curr_at = refl;
  dirty_in = omega arith;
  few = omega arith;
}

rx_packets-Received_example :
    Received switch (rx_on busy_ring) 0 64 (rx_packets switch 64 (rx_on busy_ring))
rx_packets-Received_example =
    rx_packets-Received switch 64 (rx_on busy_ring) 0 busy_ring-Window (omega arith)

-- 128 packets were taken and no allocation succeeded.
abbrev starved_ring : Ring
starved_ring = record new_ring { curr = 128 }

starved_ring-Window : Window starved_ring 128
unfolding desc_empty
starved_ring-Window = record {
  taken = λ k lt. refl;
  stale = λ k lt. refl;
  filled = λ k from lt. absurd (omega (arith, from, lt));
  curr_at = refl;
  dirty_in = omega arith;
  few = omega arith;
}

rx_packets-bug_example : rx_packets switch 64 (rx_on starved_ring) ≡ bug
rx_packets-bug_example =
    rx_packets-bug switch 64 (rx_on starved_ring) 128 starved_ring-Window refl (omega arith)

abbrev pub eth : Eth
eth = record {
  tx = one_sent;
  rx = rx_on busy_ring;
  polling = false;
  int_enabled = true;
  oom_timer = false;
  rx_fifo_errors = 0;
  bus_errors = [];
}

abbrev quiet : Status
quiet = record { rx_status = 0; tx_status = 0 }

poll-Polled_example : Polled eth (on_wire ∷ []) 0 64 (poll host switch quiet 64 eth)
poll-Polled_example =
    poll-Polled host switch quiet 64 eth (on_wire ∷ []) 0 one_sent-Pending busy_ring-Window
      (omega arith)

Calls-IsAwake_example : IsAwake (interrupt 1 eth).1
Calls-IsAwake_example = Calls-IsAwake (inr (inl refl)) (Calls.irq 1 Calls.none_yet)
