-- ===== src/Ag71xx/Reap.antt =====
-- ag71xx_tx_packets of ag71xx_main.c as the operation that takes the sent packets off the queue.
use wair_os.Base.{
  ℕ, zero, suc, ◌+◌, ◌%◌, ◌^◌, ◌≤◌, ◌<◌, ◌≡◌, sym, ap, refl, ◌∙◌, arith, ◌==◌, true, false,
  Bool-cases, inl, inr, Option, none, some, List, [], ◌∷◌, ◌++◌, length, length-append, append-nil,
  append_assoc,
}
use wair_os.Ag71xx.{Skb, Buf, Ring, desc_empty, tx_ring_size}
use wair_os.Ag71xx.Tx.{Tx, TxHost, reap, reap_one, blocked}
use wair_os.Ag71xx.Slots.{
  nth_buf, Holds, ring_done, ring_busy, moved, moved_last, first_buf, last_or_not, advance-Keeps,
}

-- The buffer of the packet that the loop has freed.
abbrev freed_buf : Ring → Buf
freed_buf r = record (r.buf (r.dirty % tx_ring_size)) { skb = none }

module _ (t : Tx) (s : Skb) (ps : List Skb) (q : Holds t.ring (s ∷ ps)) where
  reap_one_moved : (k : ℕ) → k < 63 → nth_buf (reap_one s t).ring k ≡ nth_buf t.ring (suc k)
  unfolding reap_one
  reap_one_moved k lt = moved t.ring (freed_buf t.ring) s ps q.keeps k lt

  reap_one_idle :
      desc_empty (nth_buf t.ring 0).desc ≡ true
      → (k : ℕ) → length ps ≤ k
      → k < tx_ring_size
      → desc_empty (nth_buf (reap_one s t).ring k).desc ≡ true
  unfolding reap_one
  reap_one_idle sent k from lt =
      let r = t.ring in
      elim (last_or_not r (freed_buf r) s ps q.keeps k lt) [
        | inl e ↦
            rw (e, moved_last r (freed_buf r) s ps q.keeps, first_buf r (freed_buf r) s ps q.keeps)
              sent
        | inr small ↦
            rw (moved r (freed_buf r) s ps q.keeps k small)
              (q.idle (suc k) (omega (arith, from)) (omega arith))
      ]

  reap_one-Holds : desc_empty (nth_buf t.ring 0).desc ≡ true → Holds (reap_one s t).ring ps
  unfolding reap_one
  reap_one-Holds sent = record {
    keeps = advance-Keeps t.ring (freed_buf t.ring) s ps q.keeps refl;
    idle = reap_one_idle sent;
  }

-- The bytes of some packets.
abbrev pub total : List Skb → ℕ
total [] = 0
total (s ∷ l) = s.len + total l

-- What the loop does to a ring that holds `ps`: it frees the packets before the first whose
-- descriptor is not empty, and counts them.
pub record Reaped (t : Tx) (ps : List Skb) (sent : ℕ) (r : Option (ℕ × Tx)) : Type 0 where
  pub done : List Skb
  pub rest : List Skb
  pub after : Tx
  pub returns : r ≡ some (sent + length done, after)
  pub split : ps ≡ done ++ rest
  pub keeps : Holds after.ring rest
  pub frees : after.freed ≡ t.freed ++ done
  pub counts : after.tx_packets % 2 ^ 32 ≡ (t.tx_packets + length done) % 2 ^ 32
  pub bytes : after.tx_bytes % 2 ^ 32 ≡ (t.tx_bytes + total done) % 2 ^ 32
  pub same_stop : after.stopped ≡ t.stopped
  pub sent_by_device : (k : ℕ) → k < length done → desc_empty (nth_buf t.ring k).desc ≡ true
  pub busy : 0 < length rest → desc_empty (nth_buf t.ring (length done)).desc ≡ false

module _ (h : TxHost) (left sent : ℕ) (t : Tx) where
  reap-blocked :
      (t.ring.dirty == t.ring.curr) ≡ false
      → desc_empty (t.ring.buf (t.ring.dirty % tx_ring_size)).desc ≡ false
      → reap h (suc left) sent t ≡ some (sent, blocked h t)
  unfolding reap
  reap-blocked more busy = rw (more, busy) refl

  reap-next :
      (s : Skb)
      → (t.ring.dirty == t.ring.curr) ≡ false
      → desc_empty (t.ring.buf (t.ring.dirty % tx_ring_size)).desc ≡ true
      → (t.ring.buf (t.ring.dirty % tx_ring_size)).skb ≡ some s
      → reap h (suc left) sent t ≡ reap h left (sent + 1) (reap_one s t)
  unfolding reap
  reap-next s more empty full = rw (more, empty, full) refl

Reaped-none :
    (h : TxHost) (sent : ℕ) (t : Tx) → Holds t.ring [] → Reaped t [] sent (reap h 0 sent t)
unfolding reap
Reaped-none h sent t q = record {
  done = [];
  rest = [];
  after = t;
  returns = rw (ring_done t.ring q.keeps) (ap (λ (n : ℕ). some (n, t)) (omega arith));
  split = refl;
  keeps = q;
  frees = sym (append-nil t.freed);
  counts = omega arith;
  bytes = omega arith;
  same_stop = refl;
  sent_by_device = λ k lt. absurd (omega (arith, lt));
  busy = λ lt. absurd (omega (arith, lt));
}

module _ (h : TxHost) (s : Skb) (ps : List Skb) (t : Tx) (sent : ℕ)
    (q : Holds t.ring (s ∷ ps)) where
  Reaped-blocked :
      desc_empty (nth_buf t.ring 0).desc ≡ false → Reaped t (s ∷ ps) sent (some (sent, blocked h t))
  unfolding blocked
  Reaped-blocked e = record {
    done = [];
    rest = s ∷ ps;
    after = blocked h t;
    returns = ap (λ (n : ℕ). some (n, blocked h t)) (omega arith);
    split = refl;
    keeps = q;
    frees = sym (append-nil t.freed);
    counts = omega arith;
    bytes = omega arith;
    same_stop = refl;
    sent_by_device = λ k lt. absurd (omega (arith, lt));
    busy = λ lt. e;
  }

  module _ (r : Option (ℕ × Tx)) (a : Reaped (reap_one s t) ps (sent + 1) r) where
    done_few : length a.done + length a.rest < 63
    done_few = omega (arith, q.keeps.few, ap length a.split, length-append a.done a.rest)

    next_sent :
        desc_empty (nth_buf t.ring 0).desc ≡ true
        → (k : ℕ) → k < suc (length a.done)
        → desc_empty (nth_buf t.ring k).desc ≡ true
    next_sent e zero lt = e
    next_sent e (suc k) lt =
        rw (sym (reap_one_moved t s ps q k (omega (arith, done_few, lt))))
          (a.sent_by_device k (omega (arith, lt)))

    next_busy : 0 < length a.rest → desc_empty (nth_buf t.ring (suc (length a.done))).desc ≡ false
    next_busy lt =
        rw (sym (reap_one_moved t s ps q (length a.done) (omega (arith, done_few, lt)))) (a.busy lt)

  Reaped-next :
      desc_empty (nth_buf t.ring 0).desc ≡ true
      → (r : Option (ℕ × Tx)) → Reaped (reap_one s t) ps (sent + 1) r
      → Reaped t (s ∷ ps) sent r
  unfolding reap_one
  Reaped-next e r a = record {
    done = s ∷ a.done;
    rest = a.rest;
    after = a.after;
    returns = a.returns ∙ ap (λ (n : ℕ). some (n, a.after)) (omega arith);
    split = ap (λ (l : List Skb). s ∷ l) a.split;
    keeps = a.keeps;
    frees = a.frees ∙ append_assoc t.freed (s ∷ []) a.done;
    counts = omega (arith, a.counts);
    bytes = omega (arith, a.bytes);
    same_stop = a.same_stop;
    sent_by_device = next_sent r a e;
    busy = next_busy r a;
  }

pub reap-Reaped :
    (h : TxHost) (ps : List Skb) (t : Tx) (sent : ℕ)
    → Holds t.ring ps
    → Reaped t ps sent (reap h (length ps) sent t)
reap-Reaped h [] t sent q = Reaped-none h sent t q
reap-Reaped h (s ∷ ps) t sent q =
    let more = ring_busy t.ring s ps q.keeps in
    let first = first_buf t.ring (freed_buf t.ring) s ps q.keeps in
    elim (Bool-cases (desc_empty (nth_buf t.ring 0).desc)) [
      | inl e ↦
          rw
            (reap-next h (length ps) sent t s more (rw first e)
              (rw first (q.keeps.held 0 (omega arith))))
            (Reaped-next h s ps t sent q e _
              (reap-Reaped h ps (reap_one s t) (sent + 1) (reap_one-Holds t s ps q e)))
      | inr e ↦
          rw (reap-blocked h (length ps) sent t more (rw first e))
            (Reaped-blocked h s ps t sent q e)
    ]
