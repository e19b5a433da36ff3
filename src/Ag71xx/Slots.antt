-- ===== src/Ag71xx/Slots.antt =====
-- The transmit ring of ag71xx_main.c as a queue of the packets that wait for the device.
use wair_os.Base.{
  ℕ, suc, ◌+◌, ◌%◌, ◌^◌, ◌≤◌, ◌<◌, ◌≡◌, ◌≢◌, ◌⊎◌, sym, ap, arith, ◌==◌, ==_iff, true, false,
  Bool-cases, inl, inr, none, List, [], ◌∷◌, length, get_elem?, get_elem?-beyond, update_ne,
  update_at_eq,
}
use wair_os.Ag71xx.{
  Skb, Buf, Ring, desc_empty, tx_ring_size, tx_thres_stop, tx_thres_wakeup, set_buf, next_count,
  in_flight,
}
use wair_os.Ag71xx.Tx.{Tx}

-- The buffer `k` places after `ring->dirty`.
abbrev pub nth_buf : Ring → ℕ → Buf
nth_buf r k = r.buf ((r.dirty + k) % tx_ring_size)

-- The slots from `ring->dirty` on hold the packets `ps`, oldest first, whatever their descriptors
-- say. The other slots hold no packet.
pub record Keeps (r : Ring) (ps : List Skb) : Type 0 where
  pub held : (k : ℕ) → k < tx_ring_size → (nth_buf r k).skb ≡ get_elem? ps k
  pub curr_at : r.curr ≡ (r.dirty + length ps) % 2 ^ 32
  pub dirty_in : r.dirty < 2 ^ 32
  pub few : length ps ≤ tx_thres_stop

-- The descriptors of the other slots are empty too.
pub record Holds (r : Ring) (ps : List Skb) : Type 0 where
  pub keeps : Keeps r ps
  pub idle : (k : ℕ) → length ps ≤ k → k < tx_ring_size → desc_empty (nth_buf r k).desc ≡ true

-- The queue is stopped at 60 packets, and a stopped queue has at least 48.
pub record Pending (t : Tx) (ps : List Skb) : Type 0 where
  pub holds : Holds t.ring ps
  pub full : length ps ≡ tx_thres_stop → t.stopped ≡ true
  pub waiting : t.stopped ≡ true → tx_thres_wakeup ≤ length ps

-- The number of turns of a loop over the ring.
pub in_flight_lem : (r : Ring) (ps : List Skb) → Keeps r ps → in_flight r ≡ length ps
in_flight_lem r ps q = omega (arith, q.curr_at, q.dirty_in, q.few)

-- The test of these loops.
pub ring_done : (r : Ring) → Keeps r [] → (r.dirty == r.curr) ≡ true
ring_done r q = (==_iff r.dirty r.curr).1 (omega (arith, q.curr_at, q.dirty_in))

pub ring_busy :
    (r : Ring) (s : Skb) (ps : List Skb) → Keeps r (s ∷ ps) → (r.dirty == r.curr) ≡ false
ring_busy r s ps q = elim (Bool-cases (r.dirty == r.curr)) [
  | inl e ↦ absurd (omega (arith, q.curr_at, q.dirty_in, q.few, (==_iff r.dirty r.curr).0 e))
  | inr e ↦ e
]

-- The ring when the loop has put `b` in the slot of `ring->dirty` and counted it.
abbrev pub advance : Buf → Ring → Ring
advance b r = record (set_buf (r.dirty % tx_ring_size) b r) { dirty = next_count r.dirty }

module _ (r : Ring) (b : Buf) (s : Skb) (ps : List Skb) (q : Keeps r (s ∷ ps)) where
  pub first_buf : r.buf (r.dirty % tx_ring_size) ≡ nth_buf r 0
  first_buf = ap r.buf (omega arith)

  pub moved : (k : ℕ) → k < 63 → nth_buf (advance b r) k ≡ nth_buf r (suc k)
  moved k lt =
      let place : (next_count r.dirty + k) % tx_ring_size ≡ (r.dirty + suc k) % tx_ring_size =
        omega (arith, q.dirty_in) in
      rw place (update_ne r.buf _ _ _ (λ e. omega (arith, e)))

  pub moved_last : nth_buf (advance b r) 63 ≡ b
  moved_last = update_at_eq r.buf (r.dirty % tx_ring_size) _ _ (omega (arith, q.dirty_in))

  pub last_or_not : (k : ℕ) → k < tx_ring_size → (k ≡ 63) ⊎ (k < 63)
  last_or_not k lt = elim (Bool-cases (k == 63)) [
    | inl e ↦ inl ((==_iff k 63).0 e)
    | inr e ↦ let ne : k ≢ 63 = λ f. cc (e, (==_iff k 63).1 f) in inr (omega (arith, lt, ne))
  ]

  advance_held :
      b.skb ≡ none → (k : ℕ) → k < tx_ring_size → (nth_buf (advance b r) k).skb ≡ get_elem? ps k
  advance_held taken k lt = elim (last_or_not k lt) [
    | inl e ↦ rw (e, moved_last, taken) (sym (get_elem?-beyond ps 63 (omega (arith, q.few))))
    | inr small ↦ rw (moved k small) (q.held (suc k) (omega arith))
  ]

  pub advance-Keeps : b.skb ≡ none → Keeps (advance b r) ps
  advance-Keeps taken = record {
    held = advance_held taken;
    curr_at = omega (arith, q.curr_at, q.dirty_in);
    dirty_in = omega arith;
    few = omega (arith, q.few);
  }
