-- ===== src/Ag71xx/Awake.antt =====
-- What keeps the ag71xx driver going: after each call of ag71xx_main.c the poll function is
-- scheduled, or the interrupts are on, or the timer for a new try runs.
use wair_os.Base.{
  ℕ, ◌%◌, ◌≡◌, ◌⊎◌, inl, inr, refl, sym, ap, ◌∙◌, Bool, true, false, Option-cases, ltb, if-both,
  ◌==◌,
}
use wair_os.Ag71xx.{rx_ring_size}
use wair_os.Ag71xx.Tx.{TxHost, tx_packets}
use wair_os.Ag71xx.Rx.{
  Result, returned, bug, null_pointer, out_of_fuel, and_next, Rx, RxHost, rx_packets, rx_status_pr,
}
use wair_os.Ag71xx.Poll.{
  Eth, Status, int_poll, any_of, restart_rx, poll_end, poll_oom, after_rx, poll, bus_error,
  interrupt, oom_timer_handler, is_none,
}

abbrev pub IsAwake : Eth → Type 0
IsAwake e = (e.polling ≡ true) ⊎ (e.int_enabled ≡ true) ⊎ (e.oom_timer ≡ true)

-- A call that leaves the rings, the scheduling and the timer.
pub record Leaves (e u : Eth) : Type 0 where
  pub tx : u.tx ≡ e.tx
  pub ring : u.rx.ring ≡ e.rx.ring
  pub polling : u.polling ≡ e.polling
  pub int_enabled : u.int_enabled ≡ e.int_enabled
  pub oom_timer : u.oom_timer ≡ e.oom_timer

unchanged : (e : Eth) → Leaves e e
unchanged e = record {
  tx = refl;
  ring = refl;
  polling = refl;
  int_enabled = refl;
  oom_timer = refl;
}

restart_rx-Leaves : (s : ℕ) (e : Eth) → Leaves e (restart_rx s e)
unfolding restart_rx
restart_rx-Leaves s e =
    if-both (Leaves e) (any_of s 4) _ e
      (record { tx = refl; ring = refl; polling = refl; int_enabled = refl; oom_timer = refl })
      (unchanged e)

-- The end of a poll leaves the poll function scheduled, or turns the interrupts on.
pub record Ends (e u : Eth) : Type 0 where
  pub tx : u.tx ≡ e.tx
  pub ring : u.rx.ring ≡ e.rx.ring
  pub oom_timer : u.oom_timer ≡ e.oom_timer
  pub goes_on : (u.polling ≡ e.polling) ⊎ (u.int_enabled ≡ true)

pub poll_end-Ends : (s : Status) (m limit : ℕ) (e : Eth) → Ends e (poll_end s m limit e)
unfolding poll_end
poll_end-Ends s m limit e =
    let a = restart_rx-Leaves s.rx_status e in
    let u = restart_rx s.rx_status e in
    let more : Ends e u = record {
      tx = a.tx;
      ring = a.ring;
      oom_timer = a.oom_timer;
      goes_on = inl a.polling;
    } in
    let over : Ends e (record u { polling = false; int_enabled = true }) = record {
      tx = a.tx;
      ring = a.ring;
      oom_timer = a.oom_timer;
      goes_on = inr refl;
    } in
    if-both (Ends e) (ltb m limit) _ u
      (if-both (Ends e) (any_of s.rx_status rx_status_pr) u _ more
        (if-both (Ends e) (any_of s.tx_status 1) u _ more over))
      more

module _ (status flag r v : ℕ) (e u : Eth) (a : Leaves e u) where
  bus_error-Leaves : Leaves e (bus_error status flag r v u)
  unfolding bus_error
  bus_error-Leaves =
      if-both (Leaves e) (any_of status flag) _ u
        (record {
          tx = a.tx;
          ring = a.ring;
          polling = a.polling;
          int_enabled = a.int_enabled;
          oom_timer = a.oom_timer;
        })
        a

Leaves-IsAwake : (e u : Eth) → Leaves e u → IsAwake e → IsAwake u
Leaves-IsAwake e u a (inl p) = inl (a.polling ∙ p)
Leaves-IsAwake e u a (inr (inl p)) = inr (inl (a.int_enabled ∙ p))
Leaves-IsAwake e u a (inr (inr p)) = inr (inr (a.oom_timer ∙ p))

interrupt-IsAwake : (status : ℕ) (e : Eth) → IsAwake e → IsAwake (interrupt status e).1
unfolding interrupt
interrupt-IsAwake status e on =
    let tx_side = bus_error-Leaves status 8 0x188 8 e e (unchanged e) in
    let both = bus_error-Leaves status 128 0x194 8 e _ tx_side in
    let left = if-both (Leaves e) (any_of status 136) _ e both (unchanged e) in
    if-both (λ (r : Bool × Eth). IsAwake r.1) (status == 0) _ _ on
      (if-both IsAwake (any_of status int_poll) _ _ (inl refl) (Leaves-IsAwake e _ left on))

after_rx-IsAwake :
    (s : Status) (limit : ℕ) (e : Eth) (r : ℕ × Rx)
    → e.polling ≡ true
    → IsAwake (after_rx s limit e r).1
unfolding after_rx poll_oom
after_rx-IsAwake s limit e r on =
    let u : Eth = record e { rx = r.1 } in
    let ends = poll_end-Ends s r.0 limit u in
    let awake : IsAwake (poll_end s r.0 limit u) = elim ends.goes_on [
      | inl same ↦ inl (same ∙ on)
      | inr i ↦ inr (inl i)
    ] in
    if-both (λ (q : ℕ × Eth). IsAwake q.1)
      (is_none (r.1.ring.buf (r.1.ring.dirty % rx_ring_size)).skb) _ _ (inr (inr refl)) awake

-- What a chain of calls returned came from what its first part returned.
and_next-returned :
    {A B : Type 0} (r : Result A) (f : A → Result B) (b : B)
    → and_next r f ≡ returned b
    → (a : A) × (r ≡ returned a) × (f a ≡ returned b)
and_next-returned (returned a) f b e = (a, refl, e)
and_next-returned bug f b e = absurd (cc e)
and_next-returned null_pointer f b e = absurd (cc e)
and_next-returned out_of_fuel f b e = absurd (cc e)

poll-IsAwake :
    (h : TxHost) (g : RxHost) (s : Status) (limit m : ℕ) (e u : Eth)
    → e.polling ≡ true
    → poll h g s limit e ≡ returned (m, u)
    → IsAwake u
unfolding poll
poll-IsAwake h g s limit m e u on run = elim (Option-cases (tx_packets h e.tx)) [
  | inl z ↦
      let crashed : poll h g s limit e ≡ null_pointer = rw (poll, z) refl in
      absurd (cc (run, crashed))
  | inr t ↦
      let mid : Eth = record e { tx = t.0.1 } in
      let same : poll h g s limit e
          ≡ and_next (rx_packets g limit e.rx) (λ r. returned (after_rx s limit mid r)) =
        rw (poll, t.1) refl in
      let back =
        and_next-returned (rx_packets g limit e.rx) (λ r. returned (after_rx s limit mid r)) (m, u)
          (sym same ∙ run) in
      let last : after_rx s limit mid back.0 ≡ (m, u) = cc (back.2) in
      rw (ap (λ (q : ℕ × Eth). q.1) last) at (after_rx-IsAwake s limit mid back.0 on)
]

-- The calls of the kernel: an interrupt with any status, the end of the timer when it runs, a poll
-- that returns when it is scheduled.
pub data Calls (e : Eth) : Eth → Type 0 where
  none_yet : Calls e e
  irq : {u : Eth} (status : ℕ) → Calls e u → Calls e (interrupt status u).1
  timer : {u : Eth} → Calls e u → u.oom_timer ≡ true → Calls e (oom_timer_handler u)
  polled :
      {u v : Eth} (h : TxHost) (g : RxHost) (s : Status) (limit m : ℕ)
      → Calls e u
      → u.polling ≡ true
      → poll h g s limit u ≡ returned (m, v)
      → Calls e v

-- After any sequence of interrupts, polls that return and ends of the timer, from a state where
-- the poll function is scheduled, the interrupts are on or the timer runs, one of the three holds
-- again: the driver never waits for an event that cannot come.
pub Calls-IsAwake : {e u : Eth} → IsAwake e → Calls e u → IsAwake u
unfolding oom_timer_handler
Calls-IsAwake on none_yet = on
Calls-IsAwake on (irq {u} status c) = interrupt-IsAwake status u (Calls-IsAwake on c)
Calls-IsAwake on (timer c run) = inl refl
Calls-IsAwake on (polled {u} {v} h g s limit m c sched run) =
    poll-IsAwake h g s limit m u v sched run
