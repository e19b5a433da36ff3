-- ===== src/Ag71xx/Receive.antt =====
-- The receive loop of ag71xx_rx_packets in ag71xx_main.c: the packets that leave the ring.
use wair_os.Base.{
  ℕ, zero, suc, ◌+◌, ◌%◌, ◌^◌, ◌≤◌, ◌<◌, ◌≡◌, ◌≢◌, ◌⊎◌, sym, ap, refl, ◌∙◌, arith, true, false,
  Bool-cases, inl, inr, Option, some, List, [], ◌∷◌, ◌++◌, length, get_elem?, append-nil, update_ne,
  append_assoc, length-append, Outcome, ok, err,
}
use wair_os.Ag71xx.{Skb, Buf, desc_empty, rx_ring_size}
use wair_os.Ag71xx.Rx.{Result, returned, bug, Rx, RxHost, hand_over, unframed, receive_one, receive}
use wair_os.Ag71xx.Window.{rx_nth, Window, curr_buf, full_no, full_yes, grown-Window}

-- The packets that go up, and those that go back.
abbrev pub ups : List (Outcome (Unit {0}) × Skb) → List Skb
ups [] = []
ups ((ok u, s) ∷ l) = s ∷ ups l
ups ((err e, s) ∷ l) = ups l

abbrev pub downs : List (Outcome (Unit {0}) × Skb) → List Skb
downs [] = []
downs ((ok u, s) ∷ l) = downs l
downs ((err e, s) ∷ l) = s ∷ downs l

-- Outcome `o` comes of buffer `b`, which has a packet and a descriptor that is not empty.
pub record Arrived (h : RxHost) (b : Buf) (o : Option (Outcome (Unit {0}) × Skb)) : Type 0 where
  pub packet : Skb
  pub holds : b.skb ≡ some packet
  pub busy : desc_empty b.desc ≡ false
  pub result : o ≡ some (unframed h b packet)

-- What the loop does to a ring whose window has `n` slots.
pub record Got (h : RxHost) (x : Rx) (n limit done : ℕ) (r : Result (ℕ × Rx)) : Type 0 where
  pub got : List (Outcome (Unit {0}) × Skb)
  pub after : Rx
  pub returns : r ≡ returned (done + length got, after)
  pub bounded : length got ≤ limit
  pub window : Window after.ring (n + length got)
  pub up : after.delivered ≡ x.delivered ++ ups got
  pub down : after.freed ≡ x.freed ++ downs got
  pub counts : after.rx_packets % 2 ^ 32 ≡ (x.rx_packets + length got) % 2 ^ 32
  pub dropped : after.rx_dropped % 2 ^ 32 ≡ (x.rx_dropped + length (downs got)) % 2 ^ 32
  pub each : (k : ℕ) → k < length got → Arrived h (rx_nth x.ring (n + k)) (get_elem? got k)
  pub stops : length got < limit → desc_empty (rx_nth x.ring (n + length got)).desc ≡ true

ups-cons :
    (o : Outcome (Unit {0}) × Skb) (l : List (Outcome (Unit {0}) × Skb))
    → ups (o ∷ l) ≡ ups (o ∷ []) ++ ups l
ups-cons (ok u, s) l = refl
ups-cons (err e, s) l = refl

downs-cons :
    (o : Outcome (Unit {0}) × Skb) (l : List (Outcome (Unit {0}) × Skb))
    → downs (o ∷ l) ≡ downs (o ∷ []) ++ downs l
downs-cons (ok u, s) l = refl
downs-cons (err e, s) l = refl

hand_over-up :
    (o : Outcome (Unit {0}) × Skb) (x : Rx)
    → (hand_over o x).delivered ≡ x.delivered ++ ups (o ∷ [])
hand_over-up (ok u, s) x = refl
hand_over-up (err e, s) x = sym (append-nil x.delivered)

hand_over-down :
    (o : Outcome (Unit {0}) × Skb) (x : Rx) → (hand_over o x).freed ≡ x.freed ++ downs (o ∷ [])
hand_over-down (ok u, s) x = sym (append-nil x.freed)
hand_over-down (err e, s) x = refl

hand_over-dropped :
    (o : Outcome (Unit {0}) × Skb) (x : Rx)
    → (hand_over o x).rx_dropped % 2 ^ 32 ≡ (x.rx_dropped + length (downs (o ∷ []))) % 2 ^ 32
hand_over-dropped (ok u, s) x = omega arith
hand_over-dropped (err e, s) x = omega arith

module _ (h : RxHost) (s : Skb) (x : Rx) (n : ℕ) (w : Window x.ring n) where
  receive_one-up :
      (receive_one h s x).delivered ≡ x.delivered ++ ups (unframed h (rx_nth x.ring n) s ∷ [])
  unfolding receive_one
  receive_one-up = rw (curr_buf x.ring n w) (hand_over-up (unframed h (rx_nth x.ring n) s) x)

  receive_one-down :
      (receive_one h s x).freed ≡ x.freed ++ downs (unframed h (rx_nth x.ring n) s ∷ [])
  unfolding receive_one
  receive_one-down = rw (curr_buf x.ring n w) (hand_over-down (unframed h (rx_nth x.ring n) s) x)

  receive_one-dropped :
      (receive_one h s x).rx_dropped % 2 ^ 32
      ≡ (x.rx_dropped + length (downs (unframed h (rx_nth x.ring n) s ∷ []))) % 2 ^ 32
  unfolding receive_one
  receive_one-dropped =
      rw (curr_buf x.ring n w) (hand_over-dropped (unframed h (rx_nth x.ring n) s) x)

  receive_one-packets : (receive_one h s x).rx_packets ≡ (x.rx_packets + 1) % 2 ^ 32
  unfolding receive_one
  receive_one-packets = refl

  receive_one-Window :
      desc_empty (rx_nth x.ring n).desc ≡ false
      → n < rx_ring_size
      → Window (receive_one h s x).ring (n + 1)
  unfolding receive_one
  receive_one-Window busy room = grown-Window x.ring n w _ refl (rw (curr_buf x.ring n w) busy) room

  receive_one-other :
      n < rx_ring_size
      → (k : ℕ) → k < rx_ring_size
      → k ≢ n
      → rx_nth (receive_one h s x).ring k ≡ rx_nth x.ring k
  unfolding receive_one
  receive_one-other room k lt ne =
      update_ne x.ring.buf _ _ _ (λ e. ne (omega (arith, e, w.curr_at, lt)))

module _ (h : RxHost) (x : Rx) (n limit done : ℕ) (w : Window x.ring n) where
  Got-none :
      (limit ≡ 0) ⊎ (desc_empty (rx_nth x.ring n).desc ≡ true)
      → Got h x n limit done (returned (done, x))
  Got-none why =
      let same : n + 0 ≡ n = omega arith in
      record {
        got = [];
        after = x;
        returns = ap (λ (m : ℕ). returned (m, x)) (omega arith);
        bounded = omega arith;
        window = rw same w;
        up = sym (append-nil x.delivered);
        down = sym (append-nil x.freed);
        counts = omega arith;
        dropped = omega arith;
        each = λ k lt. absurd (omega (arith, lt));
        stops = λ lt. elim why [ inl e ↦ absurd (omega (arith, e, lt)) | inr e ↦ rw same e ];
      }

module _ (h : RxHost) (x : Rx) (n limit done : ℕ) (w : Window x.ring n) (s : Skb)
    (full : (rx_nth x.ring n).skb ≡ some s) (busy : desc_empty (rx_nth x.ring n).desc ≡ false)
    (room : n + suc limit ≤ rx_ring_size) (r : Result (ℕ × Rx))
    (a : Got h (receive_one h s x) (n + 1) limit (done + 1) r) where
  first : Outcome (Unit {0}) × Skb
  first = unframed h (rx_nth x.ring n) s

  total_up : a.after.delivered ≡ x.delivered ++ ups (first ∷ a.got)
  unfolding first
  total_up =
      a.up
      ∙ ap (λ (l : List Skb). l ++ ups a.got) (receive_one-up h s x n w)
      ∙ append_assoc x.delivered (ups (first ∷ [])) (ups a.got)
      ∙ ap (λ (l : List Skb). x.delivered ++ l) (sym (ups-cons first a.got))

  total_down : a.after.freed ≡ x.freed ++ downs (first ∷ a.got)
  unfolding first
  total_down =
      a.down
      ∙ ap (λ (l : List Skb). l ++ downs a.got) (receive_one-down h s x n w)
      ∙ append_assoc x.freed (downs (first ∷ [])) (downs a.got)
      ∙ ap (λ (l : List Skb). x.freed ++ l) (sym (downs-cons first a.got))

  total_dropped :
      a.after.rx_dropped % 2 ^ 32 ≡ (x.rx_dropped + length (downs (first ∷ a.got))) % 2 ^ 32
  unfolding first
  total_dropped =
      let one = receive_one-dropped h s x n w in
      let more : length (downs (first ∷ a.got))
          ≡ length (downs (first ∷ [])) + length (downs a.got) =
        ap length (downs-cons first a.got) ∙ length-append (downs (first ∷ [])) (downs a.got) in
      omega (arith, a.dropped, one, more)

  -- The turn leaves the later buffers.
  later_buf :
      (k : ℕ) → k < limit → rx_nth (receive_one h s x).ring (n + 1 + k) ≡ rx_nth x.ring (n + suc k)
  later_buf k lt =
      let next : n + 1 + k ≡ n + suc k = omega arith in
      rw next (
        receive_one-other h s x n w (omega (arith, room)) (n + suc k) (omega (arith, lt, room))
          (λ e. omega (arith, e)))

  later_each :
      (k : ℕ)
      → k < suc (length a.got)
      → Arrived h (rx_nth x.ring (n + k)) (get_elem? (first ∷ a.got) k)
  unfolding first
  later_each zero lt =
      let same : n + 0 ≡ n = omega arith in
      rw same (record { packet = s; holds = full; busy = busy; result = refl })
  later_each (suc k) lt =
      rw (later_buf k (omega (arith, lt, a.bounded))) at (a.each k (omega (arith, lt)))

  later_stops :
      suc (length a.got) < suc limit
      → desc_empty (rx_nth x.ring (n + suc (length a.got))).desc ≡ true
  later_stops lt =
      rw (later_buf (length a.got) (omega (arith, lt))) at (a.stops (omega (arith, lt)))

  Got-next : Got h x n (suc limit) done r
  unfolding first
  Got-next =
      let next : n + 1 + length a.got ≡ n + suc (length a.got) = omega arith in
      let one = receive_one-packets h s x n w in
      record {
        got = first ∷ a.got;
        after = a.after;
        returns = a.returns ∙ ap (λ (m : ℕ). returned (m, a.after)) (omega arith);
        bounded = omega (arith, a.bounded);
        window = rw next at a.window;
        up = total_up;
        down = total_down;
        counts = omega (arith, a.counts, one);
        dropped = total_dropped;
        each = later_each;
        stops = later_stops;
      }

module _ (h : RxHost) (limit done : ℕ) (x : Rx) (n : ℕ) (w : Window x.ring n) where
  receive-stops :
      desc_empty (rx_nth x.ring n).desc ≡ true → receive h (suc limit) done x ≡ returned (done, x)
  unfolding receive
  receive-stops e = rw (curr_buf x.ring n w, e) refl

  receive-next :
      (s : Skb)
      → desc_empty (rx_nth x.ring n).desc ≡ false
      → n < rx_ring_size
      → (rx_nth x.ring n).skb ≡ some s
      → receive h (suc limit) done x ≡ receive h limit (done + 1) (receive_one h s x)
  unfolding receive
  receive-next s busy room full = rw (curr_buf x.ring n w, busy, full_no x.ring n w room, full) refl

  -- On a ring whose 128 packets have all been taken and not one replaced, any call that may take
  -- a packet ends in `BUG()`.
  pub receive-bug : n ≡ rx_ring_size → receive h (suc limit) done x ≡ bug
  unfolding receive
  receive-bug all =
      let slot : x.ring.buf (x.ring.curr % rx_ring_size) ≡ rx_nth x.ring 0 =
        ap x.ring.buf (omega (arith, w.curr_at, all)) in
      rw (slot, w.stale 0 (omega (arith, all)), full_yes x.ring n w all) refl

pub receive-Got :
    (h : RxHost) (limit done : ℕ) (x : Rx) (n : ℕ)
    → Window x.ring n
    → n + limit ≤ rx_ring_size
    → Got h x n limit done (receive h limit done x)
unfolding receive
receive-Got h zero done x n w room = Got-none h x n 0 done w (inl refl)
receive-Got h (suc limit) done x n w room = elim (Bool-cases (desc_empty (rx_nth x.ring n).desc)) [
  | inl e ↦ rw (receive-stops h limit done x n w e) (Got-none h x n (suc limit) done w (inr e))
  | inr busy ↦
      let lt : n < rx_ring_size = omega (arith, room) in
      let p = w.filled n (omega arith) lt in
      rw (receive-next h limit done x n w p.0 busy lt p.1) (
        Got-next h x n limit done w p.0 p.1 busy room _ (
          receive-Got h limit (done + 1) (receive_one h p.0 x) (n + 1)
            (receive_one-Window h p.0 x n w busy lt) (omega (arith, room))))
]
