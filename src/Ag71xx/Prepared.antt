-- ===== src/Ag71xx/Prepared.antt =====
-- ag71xx_ring_rx_init and ag71xx_ring_rx_clean of ag71xx_main.c: the receive ring at the start and
-- at the end.
use wair_os.Base.{
  ℕ, zero, suc, ◌+◌, ◌%◌, ◌<◌, ◌≡◌, ◌≢◌, refl, ◌∙◌, arith, true, false, Option-cases, Bool-cases,
  ==_iff, ◌==◌, inl, inr, none, some, update, update_self, update_ne,
}
use wair_os.Ag71xx.{Skb, Buf, Ring, desc_empty, rx_ring_size}
use wair_os.Ag71xx.Rx.{Rx, RxHost, rx_reserve, rx_pkt_size, fill_rx, ring_rx_init, attach, give}
use wair_os.Ag71xx.Window.{Window}

-- A slot that is ready for the device.
pub record Ready (b : Buf) : Type 0 where
  pub packet : Skb
  pub holds : b.skb ≡ some packet
  pub empty : desc_empty b.desc ≡ true

module _ (h : RxHost) where
  -- A slot after its turn.
  pub attach-Ready : (i : ℕ) (s : Skb) (r : Ring) → Ready ((give i (attach h i s r)).buf i)
  unfolding desc_empty
  attach-Ready i s r =
      rw (update_self (update r.buf i _) i, update_self r.buf i)
        (record { packet = s; holds = refl; empty = refl })

  pub attach-other :
      (i : ℕ) (s : Skb) (r : Ring) (j : ℕ) → j ≢ i → (give i (attach h i s r)).buf j ≡ r.buf j
  attach-other i s r j ne = update_ne (attach h i s r).buf i j _ ne ∙ update_ne r.buf i j _ ne

  unfoldable pub filled : ℕ → Skb → Rx → Rx
  filled i s x = record x { allocs = x.allocs + 1; ring = give i (attach h i s x.ring) }

  pub fill_rx-fails :
      (left i : ℕ) (x : Rx)
      → h.alloc_skb x.allocs (rx_pkt_size + rx_reserve h) ≡ none
      → (fill_rx h (suc left) i x).0 ≡ false
  unfolding fill_rx
  fill_rx-fails left i x e = rw (fill_rx, e) refl

  pub fill_rx-next :
      (left i : ℕ) (x : Rx) (s : Skb)
      → h.alloc_skb x.allocs (rx_pkt_size + rx_reserve h) ≡ some s
      → fill_rx h (suc left) i x ≡ fill_rx h left (i + 1) (filled i s x)
  unfolding fill_rx filled
  fill_rx-next left i x s e = rw (fill_rx, e) refl

  filled-Ready :
      (i : ℕ) (s : Skb) (x : Rx)
      → ((j : ℕ) → j < i → Ready (x.ring.buf j))
      → (j : ℕ) → j < i + 1
      → Ready ((filled i s x).ring.buf j)
  unfolding filled
  filled-Ready i s x before j lt = elim (Bool-cases (j == i)) [
    | inl e ↦ rw ((==_iff j i).0 e) (attach-Ready i s x.ring)
    | inr e ↦
        let ne : j ≢ i = λ f. cc (e, (==_iff j i).1 f) in
        rw (attach-other i s x.ring j ne) (before j (omega (arith, lt, ne)))
  ]

  fill_rx-Ready :
      (left i : ℕ) (x : Rx)
      → ((j : ℕ) → j < i → Ready (x.ring.buf j))
      → (fill_rx h left i x).0 ≡ true
      → (j : ℕ) → j < i + left
      → Ready ((fill_rx h left i x).1.ring.buf j)
  unfolding fill_rx
  fill_rx-Ready zero i x before all j lt = before j (omega (arith, lt))
  fill_rx-Ready (suc left) i x before all j lt =
      elim (Option-cases (h.alloc_skb x.allocs (rx_pkt_size + rx_reserve h))) [
        | inl e ↦ absurd (cc (all, fill_rx-fails left i x e))
        | inr p ↦
            let next = fill_rx-next left i x p.0 p.1 in
            rw next (
              fill_rx-Ready left (i + 1) (filled i p.0 x) (filled-Ready i p.0 x before)
                (rw next at all) j (omega (arith, lt)))
      ]

  fill_rx-short :
      (left i : ℕ) (x : Rx)
      → (fill_rx h left i x).0 ≡ false
      → (n : ℕ) × (h.alloc_skb n (rx_pkt_size + rx_reserve h) ≡ none)
  unfolding fill_rx
  fill_rx-short zero i x short = absurd (cc short)
  fill_rx-short (suc left) i x short =
      elim (Option-cases (h.alloc_skb x.allocs (rx_pkt_size + rx_reserve h))) [
        | inl e ↦ (x.allocs, e)
        | inr p ↦
            let next = fill_rx-next left i x p.0 p.1 in
            fill_rx-short left (i + 1) (filled i p.0 x) (rw next at short)
      ]

  -- An error of ag71xx_ring_rx_init is a refusal of dev_alloc_skb.
  pub ring_rx_init-short :
      (x : Rx)
      → (ring_rx_init h x).0 ≡ false
      → (n : ℕ) × (h.alloc_skb n (rx_pkt_size + rx_reserve h) ≡ none)
  unfolding ring_rx_init
  ring_rx_init-short x short = fill_rx-short rx_ring_size 0 _ short

  -- When `ag71xx_ring_rx_init` returns 0, no slot of the receive ring waits for a packet, and each
  -- of the 128 slots has a packet and an empty descriptor.
  pub ring_rx_init-Window :
      (x : Rx)
      → (ring_rx_init h x).0 ≡ true
      → Window (ring_rx_init h x).1.ring 0
        × ((j : ℕ) → j < rx_ring_size → Ready ((ring_rx_init h x).1.ring.buf j))
  unfolding ring_rx_init
  ring_rx_init-Window x all =
      let ready : (j : ℕ) → j < rx_ring_size → Ready ((ring_rx_init h x).1.ring.buf j) =
        fill_rx-Ready rx_ring_size 0 _ (λ j lt. absurd (omega (arith, lt))) all in
      (
        record {
          taken = λ k lt. absurd (omega (arith, lt));
          stale = λ k lt. absurd (omega (arith, lt));
          filled = λ k from lt.
              (let b = ready ((0 + k) % rx_ring_size) (omega arith) in (b.packet, b.holds));
          curr_at = omega arith;
          dirty_in = omega arith;
          few = omega arith;
        },
        ready,
      )
