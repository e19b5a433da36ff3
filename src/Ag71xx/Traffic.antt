-- ===== src/Ag71xx/Traffic.antt =====
-- The life of the transmit ring of ag71xx_main.c: packets handed over while the queue runs, polls,
-- and the device, which may write any control word to a descriptor of a packet in flight.
use wair_os.Base.{
  ℕ, ◌+◌, ◌%◌, ◌<◌, ◌≡◌, ◌≢◌, sym, ap, refl, ◌∙◌, arith, false, Bool-cases, inl, inr, Option, none,
  some, List, [], ◌∷◌, ◌++◌, length, append-nil, append_assoc, update_ne, ==_iff, ◌==◌,
  if◌then◌else◌,
}
use wair_os.Ag71xx.{Skb, set_buf, tx_ring_size, in_flight}
use wair_os.Ag71xx.Tx.{Tx, TxHost, framed, drop, hard_start_xmit, tx_packets, ring_tx_init}
use wair_os.Ag71xx.Slots.{nth_buf, Pending}
use wair_os.Ag71xx.Xmit.{hard_start_xmit-Pending, drop-Pending, refuses}
use wair_os.Ag71xx.Slots.{in_flight_lem}
use wair_os.Ag71xx.Empty.{ring_tx_init-Pending}
use wair_os.Ag71xx.Sent.{tx_packets-Sent}

-- The device writes `c` to the control word of the descriptor `k` places after `ring->dirty`.
abbrev pub device_writes : ℕ → ℕ → Tx → Tx
device_writes k c t =
    let b = nth_buf t.ring k in
    record t {
      ring =
          set_buf ((t.ring.dirty + k) % tx_ring_size)
            (record b { desc = record b.desc { ctrl = c } }) t.ring;
    }

-- What happens between two states, with the packets that the kernel hands over meanwhile.
pub data Run : Tx → List Skb → Tx → Type 0 where
  start : {t : Tx} → Run t [] t
  xmit :
      {t u : Tx} {l : List Skb} (h : TxHost) (s : Skb)
      → Run t l u
      → u.stopped ≡ false
      → Run t (l ++ framed h s ∷ []) (hard_start_xmit h s u)
  poll :
      {t u v : Tx} {l : List Skb} (h : TxHost) (n : ℕ)
      → Run t l u
      → tx_packets h u ≡ some (n, v)
      → Run t l v
  device :
      {t u : Tx} {l : List Skb} (k c : ℕ)
      → Run t l u
      → k < in_flight u.ring
      → Run t l (device_writes k c u)

-- The packets that are not empty.
abbrev pub sendable : List Skb → List Skb
sendable [] = []
sendable (s ∷ l) = let rest = sendable l in if s.len == 0 then rest else s ∷ rest

sendable-append : (l r : List Skb) → sendable (l ++ r) ≡ sendable l ++ sendable r
sendable-append [] r = refl
sendable-append (s ∷ l) r = elim (Bool-cases (s.len == 0)) [
  | inl e ↦ rw (e, sendable-append l r) refl
  | inr e ↦ rw (e, sendable-append l r) refl
]

sendable-none : (s : Skb) → s.len ≡ 0 → sendable (s ∷ []) ≡ []
sendable-none s e = rw ((==_iff s.len 0).1 e) refl

module _ (t : Tx) (ps : List Skb) (p : Pending t ps) where
  device_kept : (k c j : ℕ) → (nth_buf (device_writes k c t).ring j).skb ≡ (nth_buf t.ring j).skb
  device_kept k c j =
      elim (Bool-cases ((t.ring.dirty + j) % tx_ring_size == (t.ring.dirty + k) % tx_ring_size)) [
        | inl e ↦ rw e (ap (λ (i : ℕ). (t.ring.buf i).skb) (sym ((==_iff _ _).0 e)))
        | inr e ↦ rw e refl
      ]

  device_elsewhere :
      (k c j : ℕ)
      → (t.ring.dirty + j) % tx_ring_size ≢ (t.ring.dirty + k) % tx_ring_size
      → nth_buf (device_writes k c t).ring j ≡ nth_buf t.ring j
  device_elsewhere k c j ne = update_ne t.ring.buf _ _ _ ne

  pub device_writes-Pending : (k c : ℕ) → k < length ps → Pending (device_writes k c t) ps
  device_writes-Pending k c lt = record {
    holds = record {
      keeps = record {
        held = λ j below. device_kept k c j ∙ p.holds.keeps.held j below;
        curr_at = p.holds.keeps.curr_at;
        dirty_in = p.holds.keeps.dirty_in;
        few = p.holds.keeps.few;
      };
      idle = λ j from below.
          rw (device_elsewhere k c j (λ e. omega (arith, e, p.holds.keeps.few, from, below, lt)))
            (p.holds.idle j from below);
    };
    full = p.full;
    waiting = p.waiting;
  }

-- The ring holds `ps`, and the packets handed over are the freed ones and these, in order.
pub record InOrder (l : List Skb) (u : Tx) : Type 0 where
  pub ps : List Skb
  pub queue : Pending u ps
  pub order : sendable l ≡ sendable (u.freed ++ ps)

module _ (h : TxHost) (s : Skb) (l : List Skb) (u : Tx) (i : InOrder l u)
    (running : u.stopped ≡ false) where
  one_more : sendable (l ++ framed h s ∷ []) ≡ sendable ((u.freed ++ i.ps) ++ framed h s ∷ [])
  one_more =
      sendable-append l (framed h s ∷ [])
      ∙ ap (λ (k : List Skb). k ++ sendable (framed h s ∷ [])) i.order
      ∙ sym (sendable-append (u.freed ++ i.ps) (framed h s ∷ []))

  added : (framed h s).len ≢ 0 → InOrder (l ++ framed h s ∷ []) (hard_start_xmit h s u)
  added some_len =
      let r = hard_start_xmit-Pending h s u i.ps i.queue running some_len in
      record {
        ps = i.ps ++ framed h s ∷ [];
        queue = r.0;
        order = rw r.1 (one_more ∙ ap sendable (append_assoc u.freed i.ps (framed h s ∷ [])));
      }

  no_packet :
      (a b : List Skb)
      → (framed h s).len ≡ 0
      → sendable ((a ++ b) ++ framed h s ∷ []) ≡ sendable ((a ++ framed h s ∷ []) ++ b)
  no_packet a b e =
      let nothing : sendable (framed h s ∷ []) ≡ [] = sendable-none (framed h s) e in
      sendable-append (a ++ b) (framed h s ∷ [])
      ∙ ap (λ (k : List Skb). sendable (a ++ b) ++ k) nothing
      ∙ append-nil (sendable (a ++ b))
      ∙ sendable-append a b
      ∙ ap (λ (k : List Skb). k ++ sendable b)
          (sym (append-nil (sendable a))
            ∙ ap (λ (k : List Skb). sendable a ++ k) (sym nothing)
            ∙ sym (sendable-append a (framed h s ∷ [])))
      ∙ sym (sendable-append (a ++ framed h s ∷ []) b)

  left_out : (framed h s).len ≡ 0 → InOrder (l ++ framed h s ∷ []) (hard_start_xmit h s u)
  unfolding drop
  left_out no_len = rw (refuses h s u i.ps i.queue running no_len) (record {
    ps = i.ps;
    queue = drop-Pending h (framed h s) u i.ps i.queue;
    order = one_more ∙ no_packet u.freed i.ps no_len;
  })

  xmit-InOrder : InOrder (l ++ framed h s ∷ []) (hard_start_xmit h s u)
  xmit-InOrder = elim (Bool-cases ((framed h s).len == 0)) [
    | inl e ↦ left_out ((==_iff (framed h s).len 0).0 e)
    | inr e ↦ added (λ z. cc (e, (==_iff (framed h s).len 0).1 z))
  ]

abbrev after_or : Tx → Option (ℕ × Tx) → Tx
after_or t none = t
after_or t (some r) = r.1

poll-InOrder :
    (h : TxHost) (n : ℕ) (l : List Skb) (u v : Tx)
    → InOrder l u
    → tx_packets h u ≡ some (n, v)
    → InOrder l v
poll-InOrder h n l u v i e =
    let a = tx_packets-Sent h u i.ps i.queue in
    let same : a.after ≡ v = ap (after_or u) (sym a.returns ∙ e) in
    rw (sym same) (record {
      ps = a.rest;
      queue = a.keeps;
      order =
          i.order
          ∙ ap (λ (k : List Skb). sendable (u.freed ++ k)) a.split
          ∙ ap sendable (sym (append_assoc u.freed a.done a.rest))
          ∙ ap (λ (k : List Skb). sendable (k ++ a.rest)) (sym a.frees);
    })

Run-InOrder : {t u : Tx} {l : List Skb} → Pending t [] → t.freed ≡ [] → Run t l u → InOrder l u
Run-InOrder {t} p fresh start = record {
  ps = [];
  queue = p;
  order = ap (λ (k : List Skb). sendable (k ++ [])) (sym fresh);
}
Run-InOrder p fresh (xmit {t} {u} {l} h s r running) =
    xmit-InOrder h s l u (Run-InOrder p fresh r) running
Run-InOrder p fresh (poll {t} {u} {v} {l} h n r e) =
    poll-InOrder h n l u v (Run-InOrder p fresh r) e
Run-InOrder p fresh (device {t} {u} {l} k c r lt) =
    let i = Run-InOrder p fresh r in
    let flying = in_flight_lem u.ring i.ps i.queue.holds.keeps in
    record {
      ps = i.ps;
      queue = device_writes-Pending u i.ps i.queue k c (omega (arith, flying, lt));
      order = i.order;
    }

-- From `ag71xx_ring_tx_init` on, on a queue that is not stopped and with nothing freed, any run
-- of transmissions, polls and writes of the device leaves a queue of packets `ps` in the ring, at
-- most 60. The packets handed over that are not empty are, in order, the freed ones that are not
-- empty, followed by those of `ps`: none is lost, doubled or overtaken.
pub ring_tx_init-InOrder :
    (t u : Tx) (l : List Skb)
    → t.stopped ≡ false
    → t.freed ≡ []
    → Run (ring_tx_init t) l u
    → InOrder l u
unfolding ring_tx_init
ring_tx_init-InOrder t u l running fresh r = Run-InOrder (ring_tx_init-Pending t running).0 fresh r
