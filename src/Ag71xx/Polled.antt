-- ===== src/Ag71xx/Polled.antt =====
-- ag71xx_poll of ag71xx_main.c on rings in order: what it leaves of both, and what it tells the
-- kernel.
use wair_os.Base.{
  ℕ, ◌+◌, ◌%◌, ◌≤◌, ◌<◌, ◌≡◌, inl, inr, refl, ◌∙◌, arith, true, false, Bool-cases, ==_iff, ◌==◌,
  List, ◌++◌, length,
}
use wair_os.Ag71xx.{Skb, rx_ring_size}
use wair_os.Ag71xx.Tx.{TxHost, tx_packets}
use wair_os.Ag71xx.Rx.{Result, returned, Rx, RxHost, rx_packets}
use wair_os.Ag71xx.Slots.{Pending}
use wair_os.Ag71xx.Sent.{Sent, tx_packets-Sent}
use wair_os.Ag71xx.Window.{Window, dirty_buf}
use wair_os.Ag71xx.Received.{Received, rx_packets-Received}
use wair_os.Ag71xx.Poll.{Eth, Status, poll_end, poll_oom, after_rx, poll, is_none}
use wair_os.Ag71xx.Awake.{IsAwake, Ends, poll_end-Ends}

-- What a call of `ag71xx_poll` leaves, when the receive ring is left with `left` slots to refill.
pub record Polled (e : Eth) (ps : List Skb) (n limit : ℕ) (r : Result (ℕ × Eth)) : Type 0 where
  pub done : List Skb
  pub rest : List Skb
  pub left : ℕ
  pub received : ℕ
  pub after : Eth
  pub split : ps ≡ done ++ rest
  pub frees : after.tx.freed ≡ e.tx.freed ++ done
  pub queue : Pending after.tx rest
  pub window : Window after.rx.ring left
  pub bounded : received ≤ limit
  pub no_more : left ≤ n + received
  pub short :
      0 < left → (r ≡ returned (0, after)) × (after.oom_timer ≡ true) × (after.polling ≡ false)
  pub enough : left ≡ 0 → (r ≡ returned (received, after)) × (after.oom_timer ≡ e.oom_timer)
  pub awake : e.polling ≡ true → IsAwake after

module _ (y : Rx) (left : ℕ) (w : Window y.ring left) where
  short_test : 0 < left → is_none (y.ring.buf (y.ring.dirty % rx_ring_size)).skb ≡ true
  short_test lt = rw (dirty_buf y.ring, w.taken 0 lt) refl

  enough_test : left ≡ 0 → is_none (y.ring.buf (y.ring.dirty % rx_ring_size)).skb ≡ false
  enough_test e =
      let p = w.filled 0 (omega (arith, e)) (omega arith) in rw (dirty_buf y.ring, p.1) refl

module _ (h : TxHost) (g : RxHost) (s : Status) (limit : ℕ) (e : Eth) (ps : List Skb) (n : ℕ)
    (a : Sent e.tx ps (tx_packets h e.tx))
    (b : Received g e.rx n limit (rx_packets g limit e.rx)) where
  both : Eth
  both = record e { tx = a.after; rx = b.after }

  on_short : 0 < b.left → poll h g s limit e ≡ returned (0, poll_oom both)
  unfolding poll after_rx both
  on_short lt = rw (poll, a.returns, b.returns, short_test b.after b.left b.window lt) refl

  on_enough :
      b.left ≡ 0
      → poll h g s limit e ≡ returned (length b.got, poll_end s (length b.got) limit both)
  unfolding poll after_rx both
  on_enough z = rw (poll, a.returns, b.returns, enough_test b.after b.left b.window z) refl

  Polled-short : 0 < b.left → Polled e ps n limit (poll h g s limit e)
  unfolding poll_oom both
  Polled-short lt = record {
    done = a.done;
    rest = a.rest;
    left = b.left;
    received = length b.got;
    after = poll_oom both;
    split = a.split;
    frees = a.frees;
    queue = a.keeps;
    window = b.window;
    bounded = b.bounded;
    no_more = b.no_more;
    short = λ _. (on_short lt, refl, refl);
    enough = λ z. absurd (omega (arith, z, lt));
    awake = λ _. inr (inr refl);
  }

  ends : Ends both (poll_end s (length b.got) limit both)
  ends = poll_end-Ends s (length b.got) limit both

  poll_end-IsAwake : e.polling ≡ true → IsAwake (poll_end s (length b.got) limit both)
  unfolding both
  poll_end-IsAwake on = elim ends.goes_on [ inl same ↦ inl (same ∙ on) | inr i ↦ inr (inl i) ]

  Polled-enough : b.left ≡ 0 → Polled e ps n limit (poll h g s limit e)
  unfolding both
  Polled-enough z = record {
    done = a.done;
    rest = a.rest;
    left = b.left;
    received = length b.got;
    after = poll_end s (length b.got) limit both;
    split = a.split;
    frees = rw ends.tx a.frees;
    queue = rw ends.tx a.keeps;
    window = rw ends.ring b.window;
    bounded = b.bounded;
    no_more = b.no_more;
    short = λ lt. absurd (omega (arith, z, lt));
    enough = λ _. (on_enough z, ends.oom_timer);
    awake = poll_end-IsAwake;
  }

module _ (h : TxHost) (g : RxHost) (s : Status) (limit : ℕ) (e : Eth) (ps : List Skb) (n : ℕ)
    (p : Pending e.tx ps) (w : Window e.rx.ring n) where
  -- On a transmit ring that holds `ps` and a receive ring with `n` slots to refill, where
  -- `n + limit` is at most 128, `ag71xx_poll` returns. It frees a prefix of `ps` and takes at most
  -- `limit` packets. It returns 0, arms the timer and leaves the polling mode if a slot is left to
  -- refill, else returns the number of packets and leaves the timer. If the poll function was
  -- scheduled, then afterwards it still is, or the interrupts are on, or the timer runs.
  pub poll-Polled : n + limit ≤ rx_ring_size → Polled e ps n limit (poll h g s limit e)
  poll-Polled room =
      let a = tx_packets-Sent h e.tx ps p in
      let b = rx_packets-Received g limit e.rx n w room in
      elim (Bool-cases (b.left == 0)) [
        | inl z ↦ Polled-enough h g s limit e ps n a b ((==_iff b.left 0).0 z)
        | inr z ↦ Polled-short h g s limit e ps n a b (ground (arith, z))
      ]
