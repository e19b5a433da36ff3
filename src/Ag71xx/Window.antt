-- ===== src/Ag71xx/Window.antt =====
-- The receive ring of ag71xx_main.c between `ring->dirty` and `ring->curr`.
use wair_os.Base.{
  ℕ, suc, ◌+◌, ◌%◌, ◌^◌, ◌≤◌, ◌<◌, ◌≡◌, ◌≢◌, ◌⊎◌, ap, arith, ◌==◌, ==_iff, true, false, Bool-cases,
  inl, inr, none, some, update_ne, update_at_eq,
}
use wair_os.Ag71xx.{Skb, Buf, Ring, desc_empty, rx_ring_size, next_count, in_flight, set_buf}

-- The buffer `k` places after `ring->dirty`.
abbrev pub rx_nth : Ring → ℕ → Buf
rx_nth r k = r.buf ((r.dirty + k) % rx_ring_size)

-- The `n` slots from `ring->dirty` up to `ring->curr` have lost their packet, and their
-- descriptors are as the device left them. The other slots have a packet.
pub record Window (r : Ring) (n : ℕ) : Type 0 where
  pub taken : (k : ℕ) → k < n → (rx_nth r k).skb ≡ none
  pub stale : (k : ℕ) → k < n → desc_empty (rx_nth r k).desc ≡ false
  pub filled : (k : ℕ) → n ≤ k → k < rx_ring_size → (s : Skb) × ((rx_nth r k).skb ≡ some s)
  pub curr_at : r.curr ≡ (r.dirty + n) % 2 ^ 32
  pub dirty_in : r.dirty < 2 ^ 32
  pub few : n ≤ rx_ring_size

pub in_flight-Window : (r : Ring) (n : ℕ) → Window r n → in_flight r ≡ n
in_flight-Window r n w = omega (arith, w.curr_at, w.dirty_in, w.few)

-- `ring->buf[ring->curr % AG71XX_RX_RING_SIZE]`
pub curr_buf : (r : Ring) (n : ℕ) → Window r n → r.buf (r.curr % rx_ring_size) ≡ rx_nth r n
curr_buf r n w = ap r.buf (omega (arith, w.curr_at))

pub dirty_buf : (r : Ring) → r.buf (r.dirty % rx_ring_size) ≡ rx_nth r 0
dirty_buf r = ap r.buf (omega arith)

-- The test for a full ring of ag71xx_rx_packets.
module _ (r : Ring) (n : ℕ) (w : Window r n) where
  pub full_yes : n ≡ rx_ring_size → ((r.dirty + rx_ring_size) % 2 ^ 32 == r.curr) ≡ true
  full_yes e = (==_iff _ _).1 (omega (arith, e, w.curr_at))

  pub full_no : n < rx_ring_size → ((r.dirty + rx_ring_size) % 2 ^ 32 == r.curr) ≡ false
  full_no lt = elim (Bool-cases ((r.dirty + rx_ring_size) % 2 ^ 32 == r.curr)) [
    | inl e ↦
        absurd
          (omega (arith, w.curr_at, lt, (==_iff ((r.dirty + rx_ring_size) % 2 ^ 32) r.curr).0 e))
    | inr e ↦ e
  ]

module _ (r : Ring) (n : ℕ) (w : Window r n) (b : Buf) (none_in : b.skb ≡ none)
    (stale_in : desc_empty b.desc ≡ false) (room : n < rx_ring_size) where
  abbrev grown : Ring
  grown = record (set_buf (r.curr % rx_ring_size) b r) { curr = next_count r.curr }

  grown_at : rx_nth grown n ≡ b
  grown_at = update_at_eq r.buf (r.curr % rx_ring_size) _ _ (omega (arith, w.curr_at))

  pub grown_other : (k : ℕ) → k < rx_ring_size → k ≢ n → rx_nth grown k ≡ rx_nth r k
  grown_other k lt ne = update_ne r.buf _ _ _ (λ e. ne (omega (arith, e, w.curr_at)))

  -- A slot of the window after the turn: the new one, or an old one.
  new_or_old : (k : ℕ) → k < n + 1 → (k ≡ n) ⊎ ((k < n) × (k ≢ n))
  new_or_old k lt = elim (Bool-cases (k == n)) [
    | inl e ↦ inl ((==_iff k n).0 e)
    | inr e ↦ let ne : k ≢ n = λ f. cc (e, (==_iff k n).1 f) in inr (omega (arith, lt, ne), ne)
  ]

  pub grown-Window : Window grown (n + 1)
  grown-Window = record {
    taken = λ k lt. elim (new_or_old k lt) [
      | inl e ↦ rw (e, grown_at) none_in
      | inr o ↦ rw (grown_other k (omega (arith, o.0)) o.1) (w.taken k o.0)
    ];
    stale = λ k lt. elim (new_or_old k lt) [
      | inl e ↦ rw (e, grown_at) stale_in
      | inr o ↦ rw (grown_other k (omega (arith, o.0)) o.1) (w.stale k o.0)
    ];
    filled = λ k from lt.
        rw (grown_other k lt (λ e. omega (arith, e, from))) (w.filled k (omega (arith, from)) lt);
    curr_at = omega (arith, w.curr_at);
    dirty_in = w.dirty_in;
    few = omega (arith, room);
  }

module _ (r : Ring) (n : ℕ) (w : Window r (suc n)) (b : Buf) (s : Skb) (full : b.skb ≡ some s) where
  abbrev shrunk : Ring
  shrunk = record (set_buf (r.dirty % rx_ring_size) b r) { dirty = next_count r.dirty }

  shrunk_last : rx_nth shrunk 127 ≡ b
  shrunk_last = update_at_eq r.buf (r.dirty % rx_ring_size) _ _ (omega (arith, w.dirty_in))

  shrunk_other : (k : ℕ) → k < 127 → rx_nth shrunk k ≡ rx_nth r (suc k)
  shrunk_other k lt =
      let place : (next_count r.dirty + k) % rx_ring_size ≡ (r.dirty + suc k) % rx_ring_size =
        omega (arith, w.dirty_in) in
      rw place (update_ne r.buf _ _ _ (λ e. omega (arith, e)))

  pub shrunk-Window : Window shrunk n
  shrunk-Window = record {
    taken = λ k lt.
        rw (shrunk_other k (omega (arith, lt, w.few))) (w.taken (suc k) (omega (arith, lt)));
    stale = λ k lt.
        rw (shrunk_other k (omega (arith, lt, w.few))) (w.stale (suc k) (omega (arith, lt)));
    filled = λ k from lt. elim (Bool-cases (k == 127)) [
      | inl e ↦ rw ((==_iff k 127).0 e, shrunk_last) (s, full)
      | inr e ↦
          let ne : k ≢ 127 = λ f. cc (e, (==_iff k 127).1 f) in
          rw (shrunk_other k (omega (arith, lt, ne)))
            (w.filled (suc k) (omega (arith, from)) (omega (arith, lt, ne)))
    ];
    curr_at = omega (arith, w.curr_at, w.dirty_in);
    dirty_in = omega arith;
    few = omega (arith, w.few);
  }
