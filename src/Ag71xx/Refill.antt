-- ===== src/Ag71xx/Refill.antt =====
-- ag71xx_ring_rx_refill and ag71xx_rx_packets of ag71xx_main.c: new packets for the slots that lost
-- theirs, and what stands in the ring after a failed allocation.
use wair_os.Base.{
  ℕ, zero, suc, ◌+◌, ◌%◌, ◌<◌, ◌≡◌, ap, refl, ◌∙◌, arith, ◌==◌, true, false, Option-cases, inl, inr,
  none, some, update_self, update_twice,
}
use wair_os.Ag71xx.{Skb, Buf, rx_ring_size, in_flight}
use wair_os.Ag71xx.Rx.{
  Result, returned, Rx, RxHost, rx_reserve, rx_pkt_size, refilled, attached, refill_from,
  ring_rx_refill,
}
use wair_os.Ag71xx.Window.{Window, in_flight-Window, dirty_buf, shrunk-Window}

-- What the loop does to a ring whose window has `n` slots.
pub record Refilled (h : RxHost) (x : Rx) (n count : ℕ) (r : Result (ℕ × Rx)) : Type 0 where
  pub given : ℕ
  pub left : ℕ
  pub after : Rx
  pub returns : r ≡ returned (count + given, after)
  pub split : n ≡ given + left
  pub window : Window after.ring left
  pub delivered : after.delivered ≡ x.delivered
  pub freed : after.freed ≡ x.freed
  pub packets : after.rx_packets ≡ x.rx_packets
  pub dropped : after.rx_dropped ≡ x.rx_dropped
  pub failed : 0 < left → h.alloc_skb (x.allocs + given) (rx_pkt_size + rx_reserve h) ≡ none

module _ (h : RxHost) (left count : ℕ) (x : Rx) (n : ℕ) (w : Window x.ring (suc n)) where
  nonempty : (in_flight x.ring == 0) ≡ false
  nonempty = rw (in_flight-Window x.ring (suc n) w) (ground arith)

  refill-fails :
      h.alloc_skb x.allocs (rx_pkt_size + rx_reserve h) ≡ none
      → refill_from h (suc left) count x ≡ returned (count, record x { allocs = x.allocs + 1 })
  unfolding refill_from
  refill-fails none_left = rw (nonempty, dirty_buf x.ring, w.taken 0 (omega arith), none_left) refl

  refill-next :
      (s : Skb)
      → h.alloc_skb x.allocs (rx_pkt_size + rx_reserve h) ≡ some s
      → refill_from h (suc left) count x
        ≡ refill_from h left (count + 1) (refilled (attached h s x))
  unfolding refill_from
  refill-next s got = rw (nonempty, dirty_buf x.ring, w.taken 0 (omega arith), got) refl

  refilled-Window : (s : Skb) → Window (refilled (attached h s x)).ring n
  unfolding refilled attached
  refilled-Window s =
      let i = x.ring.dirty % rx_ring_size in
      rw (update_twice x.ring.buf i)
        (shrunk-Window x.ring n w _ s (ap (λ (b : Buf). b.skb) (update_self x.ring.buf i _)))

  Refilled-fails :
      h.alloc_skb x.allocs (rx_pkt_size + rx_reserve h) ≡ none
      → Refilled h x (suc n) count (returned (count, record x { allocs = x.allocs + 1 }))
  Refilled-fails none_left = record {
    given = 0;
    left = suc n;
    after = record x { allocs = x.allocs + 1 };
    returns = ap (λ (m : ℕ). returned (m, record x { allocs = x.allocs + 1 })) (omega arith);
    split = omega arith;
    window = w;
    delivered = refl;
    freed = refl;
    packets = refl;
    dropped = refl;
    failed = λ lt. (let same : x.allocs + 0 ≡ x.allocs = omega arith in rw same none_left);
  }

  Refilled-next :
      (s : Skb) (r : Result (ℕ × Rx))
      → Refilled h (refilled (attached h s x)) n (count + 1) r
      → Refilled h x (suc n) count r
  unfolding refilled attached
  Refilled-next s r a = record {
    given = suc a.given;
    left = a.left;
    after = a.after;
    returns = a.returns ∙ ap (λ (m : ℕ). returned (m, a.after)) (omega arith);
    split = omega (arith, a.split);
    window = a.window;
    delivered = a.delivered;
    freed = a.freed;
    packets = a.packets;
    dropped = a.dropped;
    failed = λ lt.
        (let next : x.allocs + 1 + a.given ≡ x.allocs + suc a.given = omega arith in
          rw next at (a.failed lt));
  }

refill_from-Refilled :
    (h : RxHost) (n count : ℕ) (x : Rx)
    → Window x.ring n
    → Refilled h x n count (refill_from h n count x)
unfolding refill_from
refill_from-Refilled h zero count x w =
    let done : (in_flight x.ring == 0) ≡ true = rw (in_flight-Window x.ring 0 w) refl in
    record {
      given = 0;
      left = 0;
      after = x;
      returns = rw done (ap (λ (m : ℕ). returned (m, x)) (omega arith));
      split = refl;
      window = w;
      delivered = refl;
      freed = refl;
      packets = refl;
      dropped = refl;
      failed = λ lt. absurd (omega (arith, lt));
    }
refill_from-Refilled h (suc n) count x w =
    elim (Option-cases (h.alloc_skb x.allocs (rx_pkt_size + rx_reserve h))) [
      | inl e ↦ rw (refill-fails h n count x n w e) (Refilled-fails h n count x n w e)
      | inr p ↦ rw (refill-next h n count x n w p.0 p.1) (
          Refilled-next h n count x n w p.0 _ (
            refill_from-Refilled h n (count + 1) (refilled (attached h p.0 x))
              (refilled-Window h n count x n w p.0)))
    ]

pub ring_rx_refill-Refilled :
    (h : RxHost) (n : ℕ) (x : Rx) → Window x.ring n → Refilled h x n 0 (ring_rx_refill h x)
unfolding ring_rx_refill
ring_rx_refill-Refilled h n x w = rw (in_flight-Window x.ring n w) (refill_from-Refilled h n 0 x w)
