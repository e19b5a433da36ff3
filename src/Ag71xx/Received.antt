-- ===== src/Ag71xx/Received.antt =====
-- ag71xx_rx_packets of ag71xx_main.c as a whole.
use wair_os.Base.{
  ℕ, suc, ◌+◌, ◌%◌, ◌^◌, ◌≤◌, ◌<◌, ◌≡◌, ap, refl, ◌∙◌, arith, none, List, ◌++◌, length, get_elem?,
  Outcome, true, ◌-◌,
}
use wair_os.Ag71xx.{Skb, desc_empty, rx_ring_size}
use wair_os.Ag71xx.Rx.{
  Result, returned, bug, Rx, RxHost, rx_reserve, rx_pkt_size, receive, rx_packets,
}
use wair_os.Ag71xx.Window.{rx_nth, Window}
use wair_os.Ag71xx.Receive.{Arrived, ups, downs, receive-Got, receive-bug}
use wair_os.Ag71xx.Refill.{ring_rx_refill-Refilled}

-- What a call does to a ring with `n` slots to refill.
pub record Received (h : RxHost) (x : Rx) (n limit : ℕ) (r : Result (ℕ × Rx)) : Type 0 where
  pub got : List (Outcome (Unit {0}) × Skb)
  pub left : ℕ
  pub after : Rx
  pub returns : r ≡ returned (length got, after)
  pub bounded : length got ≤ limit
  pub each : (k : ℕ) → k < length got → Arrived h (rx_nth x.ring (n + k)) (get_elem? got k)
  pub stops : length got < limit → desc_empty (rx_nth x.ring (n + length got)).desc ≡ true
  pub up : after.delivered ≡ x.delivered ++ ups got
  pub down : after.freed ≡ x.freed ++ downs got
  pub counts : after.rx_packets % 2 ^ 32 ≡ (x.rx_packets + length got) % 2 ^ 32
  pub dropped : after.rx_dropped % 2 ^ 32 ≡ (x.rx_dropped + length (downs got)) % 2 ^ 32
  pub window : Window after.ring left
  pub no_more : left ≤ n + length got
  pub failed : 0 < left → (j : ℕ) × (h.alloc_skb j (rx_pkt_size + rx_reserve h) ≡ none)

module _ (h : RxHost) (limit : ℕ) (x : Rx) (n : ℕ) (w : Window x.ring n) where
  -- On a ring with `n` slots to refill and `n + limit` at most 128, `ag71xx_rx_packets` returns,
  -- meets no NULL packet and no assertion. It takes at most `limit` packets, in order, up to the
  -- first descriptor that is empty, gives each to the network or, when the switch header is bad,
  -- back to the kernel, and counts them modulo 2 ^ 32. A slot is left to refill only if
  -- an allocation has failed.
  pub rx_packets-Received : n + limit ≤ rx_ring_size → Received h x n limit (rx_packets h limit x)
  unfolding rx_packets
  rx_packets-Received room =
      let a = receive-Got h limit 0 x n w room in
      let b = ring_rx_refill-Refilled h (n + length a.got) a.after a.window in
      record {
        got = a.got;
        left = b.left;
        after = b.after;
        returns = rw (a.returns, b.returns) (ap (λ (m : ℕ). returned (m, b.after)) (omega arith));
        bounded = a.bounded;
        each = a.each;
        stops = a.stops;
        up = b.delivered ∙ a.up;
        down = b.freed ∙ a.down;
        counts = rw b.packets a.counts;
        dropped = rw b.dropped a.dropped;
        window = b.window;
        no_more = omega (arith, b.split);
        failed = λ lt. (a.after.allocs + b.given, b.failed lt);
      }

  -- On a ring all of whose 128 slots wait for a new packet, `ag71xx_rx_packets` ends in `BUG()`,
  -- whatever the device does, when it may take a packet at all.
  pub rx_packets-bug : n ≡ rx_ring_size → 0 < limit → rx_packets h limit x ≡ bug
  unfolding rx_packets
  rx_packets-bug full some_limit =
      let e : suc (limit - 1) ≡ limit = omega (arith, some_limit) in
      let ends : receive h limit 0 x ≡ bug = rw e at (receive-bug h (limit - 1) 0 x n w full) in
      rw ends refl
