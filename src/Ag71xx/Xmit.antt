-- ===== src/Ag71xx/Xmit.antt =====
-- ag71xx_hard_start_xmit of ag71xx_main.c as the operation that adds a packet to the queue.
use wair_os.Base.{
  ℕ, ◌+◌, ◌%◌, ◌^◌, ◌≤◌, ◌<◌, ◌≡◌, ◌≢◌, sym, ap, refl, arith, ◌==◌, ==_iff, true, false, Bool-cases,
  inl, inr, some, List, [], ◌∷◌, ◌++◌, length, get_elem?, length-snoc, get_elem?-snoc,
  get_elem?-snoc_other, ◌⊎◌, update_self, update_ne,
}
use wair_os.Ag71xx.{Skb, Buf, desc_empty, tx_ring_size, tx_thres_stop, next_count}
use wair_os.Ag71xx.Tx.{Tx, TxHost, count, hard_start_xmit, inject, framed, drop}
use wair_os.Ag71xx.Slots.{nth_buf, Pending}

module _ (h : TxHost) (s : Skb) (t : Tx) (ps : List Skb) (p : Pending t ps) where
  -- The slot that `ring->curr` names is the first free one.
  curr_slot : t.ring.curr % tx_ring_size ≡ (t.ring.dirty + length ps) % tx_ring_size
  curr_slot = omega (arith, p.holds.keeps.curr_at)

  slot_ne :
      (k : ℕ)
      → k < tx_ring_size
      → k ≢ length ps
      → (t.ring.dirty + k) % tx_ring_size ≢ t.ring.curr % tx_ring_size
  slot_ne k lt ne e = ne (omega (arith, curr_slot, p.holds.keeps.few))

  new_buf : Buf
  new_buf = (inject h s t).ring.buf (t.ring.curr % tx_ring_size)

  new_skb : new_buf.skb ≡ some s
  unfolding new_buf inject
  new_skb = ap (λ (b : Buf). b.skb) (update_self t.ring.buf (t.ring.curr % tx_ring_size) _)

  inject_here : (k : ℕ) → k ≡ length ps → nth_buf (inject h s t).ring k ≡ new_buf
  unfolding inject new_buf
  inject_here k e = rw (e, sym curr_slot)

  inject_there :
      (k : ℕ) → k < tx_ring_size → k ≢ length ps → nth_buf (inject h s t).ring k ≡ nth_buf t.ring k
  unfolding inject
  inject_there k lt ne = update_ne t.ring.buf _ _ _ (slot_ne k lt ne)

  inject_held :
      (k : ℕ) → k < tx_ring_size → (nth_buf (inject h s t).ring k).skb ≡ get_elem? (ps ++ s ∷ []) k
  inject_held k lt = elim (Bool-cases (k == length ps)) [
    | inl same ↦
        let e = (==_iff k (length ps)).0 same in
        rw (inject_here k e, new_skb, e) (sym (get_elem?-snoc ps s))
    | inr other ↦
        let ne : k ≢ length ps = λ e. cc (other, (==_iff k (length ps)).1 e) in
        rw (inject_there k lt ne, get_elem?-snoc_other ps s k ne) (p.holds.keeps.held k lt)
  ]

  inject_idle :
      (k : ℕ)
      → length (ps ++ s ∷ []) ≤ k
      → k < tx_ring_size
      → desc_empty (nth_buf (inject h s t).ring k).desc ≡ true
  inject_idle k from lt =
      let longer = length-snoc ps s in
      rw (inject_there k lt (λ e. omega (arith, longer, from, e)))
        (p.holds.idle k (omega (arith, longer, from)) lt)

  inject_curr : (inject h s t).ring.curr ≡ (t.ring.dirty + length (ps ++ s ∷ [])) % 2 ^ 32
  unfolding inject
  inject_curr = omega (arith, length-snoc ps s, p.holds.keeps.curr_at)

  -- The two ways out of the test for a full ring.
  inject_stops :
      ((inject h s t).stopped ≡ true) × (length ps + 1 ≡ tx_thres_stop)
      ⊎ ((inject h s t).stopped ≡ t.stopped) × (length ps + 1 ≢ tx_thres_stop)
  unfolding inject
  inject_stops =
      let curr = next_count t.ring.curr in
      let limit = count t.ring.dirty tx_thres_stop in
      elim (Bool-cases (curr == limit)) [
        | inl e ↦ inl (
          rw e refl,
          omega (arith, (==_iff curr limit).0 e, p.holds.keeps.curr_at, p.holds.keeps.few),
        )
        | inr ne ↦ inr (
          rw ne refl,
          λ full. cc (ne, (==_iff curr limit).1 (omega (arith, full, p.holds.keeps.curr_at))),
        )
      ]

  not_full : t.stopped ≡ false → length ps ≢ tx_thres_stop
  not_full running e = cc (running, p.full e)

  pub inject-Pending : t.stopped ≡ false → Pending (inject h s t) (ps ++ s ∷ [])
  unfolding inject
  inject-Pending running =
      let longer = length-snoc ps s in
      let room : length ps ≢ tx_thres_stop = not_full running in
      record {
        holds = record {
          keeps = record {
            held = inject_held;
            curr_at = inject_curr;
            dirty_in = p.holds.keeps.dirty_in;
            few = omega (arith, longer, room, p.holds.keeps.few);
          };
          idle = inject_idle;
        };
        full = λ e. elim inject_stops [
          | inl r ↦ r.0
          | inr r ↦ absurd (r.1 (omega (arith, longer, e)))
        ];
        waiting = λ e. elim inject_stops [
          | inl r ↦ omega (arith, longer, r.1)
          | inr r ↦ absurd (cc (e, r.0, running))
        ];
      }

  pub curr_idle :
      t.stopped ≡ false → desc_empty (t.ring.buf (t.ring.curr % tx_ring_size)).desc ≡ true
  curr_idle running =
      rw curr_slot (
        p.holds.idle (length ps) (omega arith) (omega (arith, not_full running, p.holds.keeps.few)))

module _ (h : TxHost) (s : Skb) (t : Tx) (ps : List Skb) (p : Pending t ps) where
  pub accepts :
      t.stopped ≡ false → (framed h s).len ≢ 0 → hard_start_xmit h s t ≡ inject h (framed h s) t
  unfolding hard_start_xmit
  accepts running some_len = elim (Bool-cases ((framed h s).len == 0)) [
    | inl e ↦ absurd (some_len ((==_iff _ _).0 e))
    | inr e ↦ rw (curr_idle h s t ps p running, e) refl
  ]

  pub refuses :
      t.stopped ≡ false → (framed h s).len ≡ 0 → hard_start_xmit h s t ≡ drop (framed h s) t
  unfolding hard_start_xmit
  refuses running no_len = rw (curr_idle h s t ps p running, (==_iff _ _).1 no_len) refl

  pub drop-Pending : Pending (drop s t) ps
  unfolding drop
  drop-Pending = record { holds = p.holds; full = p.full; waiting = p.waiting }

  -- On a queue that runs, whose ring holds the packets `ps`, `ag71xx_hard_start_xmit` never drops
  -- a packet that is not empty once it has its header: the ring then holds `ps` and that packet
  -- last, the queue is stopped if that makes 60, and nothing is freed or counted as dropped.
  pub hard_start_xmit-Pending :
      t.stopped ≡ false
      → (framed h s).len ≢ 0
      → Pending (hard_start_xmit h s t) (ps ++ framed h s ∷ [])
        × ((hard_start_xmit h s t).freed ≡ t.freed)
        × ((hard_start_xmit h s t).tx_dropped ≡ t.tx_dropped)
  unfolding inject
  hard_start_xmit-Pending running some_len =
      rw (accepts running some_len) (inject-Pending h (framed h s) t ps p running, refl, refl)
