-- ===== src/Ag71xx/Sent.antt =====
-- ag71xx_tx_packets of ag71xx_main.c as a whole: what a call leaves of the queue, and when it runs
-- again.
use wair_os.Base.{
  ℕ, ◌+◌, ◌%◌, ◌^◌, ◌≤◌, ◌<◌, ◌≡◌, sym, ap, ◌∙◌, arith, ltb, true, false, Bool-cases, inl, inr,
  Option, some, List, [], ◌++◌, length, length-append, append-nil, List-cases,
}
use wair_os.Ag71xx.{Skb, desc_empty, tx_thres_stop, tx_thres_wakeup, in_flight}
use wair_os.Ag71xx.Tx.{Tx, TxHost, wake, after_reap, tx_packets}
use wair_os.Ag71xx.Slots.{nth_buf, Holds, Pending, in_flight_lem}
use wair_os.Ag71xx.Reap.{Reaped, reap-Reaped, total}

wake-off : (t : Tx) → in_flight t.ring < tx_thres_wakeup → (wake t).stopped ≡ false
unfolding wake
wake-off t few = ground (arith, few)

wake-kept : (t : Tx) → tx_thres_wakeup ≤ in_flight t.ring → (wake t).stopped ≡ t.stopped
unfolding wake
wake-kept t many = ground (arith, many)

module _ (t u : Tx) (ps done rest : List Skb) (p : Pending t ps) (split : ps ≡ done ++ rest)
    (q : Holds u.ring rest) (same : u.stopped ≡ t.stopped) where
  shorter : length ps ≡ length done + length rest
  shorter = ap length split ∙ length-append done rest

  wake_full : length rest ≡ tx_thres_stop → (wake u).stopped ≡ true
  wake_full e =
      let left = in_flight_lem u.ring rest q.keeps in
      wake-kept u (omega (arith, left, e))
      ∙ same
      ∙ p.full (omega (arith, shorter, e, p.holds.keeps.few))

  wake_waiting : (wake u).stopped ≡ true → tx_thres_wakeup ≤ length rest
  wake_waiting e = elim (Bool-cases (ltb (length rest) tx_thres_wakeup)) [
    | inl few ↦
        let left = in_flight_lem u.ring rest q.keeps in
        let lt : length rest < tx_thres_wakeup = ground (arith, few) in
        absurd (cc (e, wake-off u (omega (arith, left, lt))))
    | inr many ↦ ground (arith, many)
  ]

  wake-Pending : Pending (wake u) rest
  unfolding wake
  wake-Pending = record { holds = q; full = wake_full; waiting = wake_waiting }

-- A call of `ag71xx_tx_packets` on a ring that held `ps`.
pub record Sent (t : Tx) (ps : List Skb) (r : Option (ℕ × Tx)) : Type 0 where
  pub done : List Skb
  pub rest : List Skb
  pub after : Tx
  pub returns : r ≡ some (length done, after)
  pub split : ps ≡ done ++ rest
  pub keeps : Pending after rest
  pub frees : after.freed ≡ t.freed ++ done
  pub counts : after.tx_packets % 2 ^ 32 ≡ (t.tx_packets + length done) % 2 ^ 32
  pub bytes : after.tx_bytes % 2 ^ 32 ≡ (t.tx_bytes + total done) % 2 ^ 32
  pub sent_by_device : (k : ℕ) → k < length done → desc_empty (nth_buf t.ring k).desc ≡ true
  pub busy : 0 < length rest → desc_empty (nth_buf t.ring (length done)).desc ≡ false

Sent-wake :
    (t : Tx) (ps : List Skb) (r : Option (ℕ × Tx))
    → Pending t ps
    → Reaped t ps 0 r
    → Sent t ps (after_reap r)
unfolding wake
Sent-wake t ps r p a = record {
  done = a.done;
  rest = a.rest;
  after = wake a.after;
  returns = ap after_reap a.returns ∙ ap (λ (n : ℕ). some (n, wake a.after)) (omega arith);
  split = a.split;
  keeps = wake-Pending t a.after ps a.done a.rest p a.split a.keeps a.same_stop;
  frees = a.frees;
  counts = a.counts;
  bytes = a.bytes;
  sent_by_device = a.sent_by_device;
  busy = a.busy;
}

module _ (h : TxHost) (t : Tx) (ps : List Skb) (p : Pending t ps) where
  -- On a ring that holds the packets `ps`, `ag71xx_tx_packets` meets no NULL packet and ends. It
  -- frees in order the longest run of oldest packets whose descriptors the device has emptied,
  -- returns their number and adds them to the statistics modulo 2 ^ 32. The ring then holds the
  -- other packets, with a queue that is stopped at 60 of them and only at 48 of them or more.
  pub tx_packets-Sent : Sent t ps (tx_packets h t)
  unfolding tx_packets
  tx_packets-Sent =
      rw (in_flight_lem t.ring ps p.holds.keeps) (Sent-wake t ps _ p (reap-Reaped h ps t 0 p.holds))

  all_done :
      ((k : ℕ) → k < length ps → desc_empty (nth_buf t.ring k).desc ≡ true)
      → (a : Sent t ps (tx_packets h t)) → a.rest ≡ []
  all_done emptied a = elim (List-cases a.rest) [
    | inl e ↦ e
    | inr more ↦
        let longer : length ps ≡ length a.done + length a.rest =
          ap length a.split ∙ length-append a.done a.rest in
        absurd (cc (a.busy more, emptied (length a.done) (omega (arith, longer, more))))
  ]

  -- On a ring that holds the packets `ps`, once the device has emptied the descriptors of all of
  -- them, one call of `ag71xx_tx_packets` frees them all in order, returns their number, leaves
  -- no packet in the ring and a queue that runs, also when it was stopped before.
  pub tx_packets-drains :
      ((k : ℕ) → k < length ps → desc_empty (nth_buf t.ring k).desc ≡ true)
      → (u : Tx) × (tx_packets h t ≡ some (length ps, u))
        × Pending u []
        × (u.stopped ≡ false)
        × (u.freed ≡ t.freed ++ ps)
  tx_packets-drains emptied =
      let a = tx_packets-Sent in
      let none_left : a.rest ≡ [] = all_done emptied a in
      let all : a.done ≡ ps =
        sym (a.split ∙ ap (λ (l : List Skb). a.done ++ l) none_left ∙ append-nil a.done) in
      let queue : Pending a.after [] = rw none_left at a.keeps in
      let runs : a.after.stopped ≡ false = elim (Bool-cases a.after.stopped) [
        | inl e ↦ absurd (omega (arith, queue.waiting e))
        | inr e ↦ e
      ] in
      (
        a.after,
        a.returns ∙ ap (λ (l : List Skb). some (length l, a.after)) all,
        queue,
        runs,
        a.frees ∙ ap (λ (l : List Skb). t.freed ++ l) all,
      )
