-- ===== src/Ag71xx/Poll.antt =====
-- ag71xx_poll, ag71xx_interrupt and ag71xx_oom_timer_handler of ag71xx_main.c, over both rings.
-- `napi_schedule`, `napi_complete`, `mod_timer` and the interrupt mask are recorded. The values of
-- the registers read are parameters. The counters of the debugfs files are left out.
use wair_os.Base.{
  ℕ, ◌+◌, ◌%◌, ◌^◌, ◌==◌, bit_and, bit_or, bit, if◌then◌else◌, Bool, true, false, not, ltb, Option,
  none, some, List, ◌∷◌,
}
use wair_os.Ag71xx.{rx_ring_size}
use wair_os.Ag71xx.Tx.{Tx, TxHost, tx_packets, reg_tx_status}
use wair_os.Ag71xx.Rx.{
  Result, returned, null_pointer, and_next, Rx, RxHost, rx_packets, reg_rx_status, rx_status_pr,
}

pub record Eth : Type 0 where
  pub tx : Tx
  pub rx : Rx
  -- the poll function is scheduled
  pub polling : Bool
  -- the interrupts of `AG71XX_INT_POLL` are on
  pub int_enabled : Bool
  pub oom_timer : Bool
  pub rx_fifo_errors : ℕ
  pub bus_errors : List ℕ

-- What the chip answers during a call.
pub record Status : Type 0 where
  pub rx_status : ℕ
  pub tx_status : ℕ

abbrev pub reg_rx_ctrl : ℕ
reg_rx_ctrl = 0x18c

abbrev rx_ctrl_rxe : ℕ
rx_ctrl_rxe = bit 0

abbrev rx_status_of : ℕ
rx_status_of = bit 2

abbrev tx_status_ps : ℕ
tx_status_ps = bit 0

abbrev int_tx_ps : ℕ
int_tx_ps = bit 0

abbrev int_tx_be : ℕ
int_tx_be = bit 3

abbrev int_rx_pr : ℕ
int_rx_pr = bit 4

abbrev int_rx_of : ℕ
int_rx_of = bit 6

abbrev int_rx_be : ℕ
int_rx_be = bit 7

-- `AG71XX_INT_ERR`
abbrev int_err : ℕ
int_err = bit_or int_rx_be int_tx_be

-- `AG71XX_INT_POLL`
abbrev pub int_poll : ℕ
int_poll = bit_or (bit_or int_rx_pr int_rx_of) int_tx_ps

-- `x & m`, as a condition
abbrev pub any_of : ℕ → ℕ → Bool
any_of x m = not (bit_and x m == 0)

abbrev write : ℕ → ℕ → Eth → Eth
write r v e = record e { rx = record e.rx { writes = (r, v) ∷ e.rx.writes } }

-- The part of ag71xx_poll that restarts the receiver after an overflow.
unfoldable pub restart_rx : ℕ → Eth → Eth
restart_rx status e =
    if any_of status rx_status_of
    then (let e = write reg_rx_status rx_status_of e in
        write reg_rx_ctrl rx_ctrl_rxe
          (record e { rx_fifo_errors = (e.rx_fifo_errors + 1) % 2 ^ 32 }))
    else e

-- `napi_complete`, and the interrupts on again
abbrev complete : Eth → Eth
complete e = record e { polling = false; int_enabled = true }

-- What follows when there is no shortage of memory.
unfoldable pub poll_end : Status → ℕ → ℕ → Eth → Eth
poll_end s rx_done limit e =
    let e = restart_rx s.rx_status e in
    if ltb rx_done limit
    then (if any_of s.rx_status rx_status_pr
        then e
        else if any_of s.tx_status tx_status_ps
        then e
        else complete e)
    else e

-- `oom`: a new try when the timer ends
unfoldable pub poll_oom : Eth → Eth
poll_oom e = record e { oom_timer = true; polling = false }

-- `skb == NULL`
abbrev pub is_none : {A : Type 0} → Option A → Bool
is_none none = true
is_none (some a) = false

unfoldable pub after_rx : Status → ℕ → Eth → ℕ × Rx → ℕ × Eth
after_rx s limit e r =
    let e = record e { rx = r.1 } in
    if is_none (r.1.ring.buf (r.1.ring.dirty % rx_ring_size)).skb
    then (0, poll_oom e)
    else (r.0, poll_end s r.0 limit e)

unfoldable pub poll : TxHost → RxHost → Status → ℕ → Eth → Result (ℕ × Eth)
poll h g s limit e = elim (tx_packets h e.tx) [
  | none ↦ null_pointer
  | some t ↦
      let e = record e { tx = t.1 } in
      and_next (rx_packets g limit e.rx) (λ r. returned (after_rx s limit e r))
]

-- The messages of the two bus errors.
unfoldable pub bus_error : ℕ → ℕ → ℕ → ℕ → Eth → Eth
bus_error status flag r v e =
    if any_of status flag
    then (let e = write r v e in record e { bus_errors = flag ∷ e.bus_errors })
    else e

-- Whether it returns IRQ_HANDLED, for a value of the interrupt status register.
unfoldable pub interrupt : ℕ → Eth → Bool × Eth
interrupt status e =
    if status == 0
    then (false, e)
    else let e =
        if any_of status int_err
        then (bus_error status int_rx_be reg_rx_status (bit 3)
            (bus_error status int_tx_be reg_tx_status (bit 3) e))
        else e in
      (true, if any_of status int_poll then record e { int_enabled = false; polling = true } else e)

unfoldable pub oom_timer_handler : Eth → Eth
oom_timer_handler e = record e { oom_timer = false; polling = true }
