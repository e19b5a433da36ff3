-- ===== src/Ag71xx/Ending.antt =====
-- ag71xx_open of ag71xx_main.c: the two ways in which it ends, and its last step, the start of the
-- receive ring.
use wair_os.Base.{
  ℕ, ◌+◌, ◌≡◌, Bool-cases, inl, inr, refl, arith, true, false, none, List, [], ◌++◌, append-nil, ap,
  ◌∙◌, sym, Outcome, ok, err, enomem,
}
use wair_os.Ag71xx.{Skb, rx_ring_size}
use wair_os.Ag71xx.Tx.{Tx}
use wair_os.Ag71xx.Rx.{ring_rx_init, rx_pkt_size, rx_reserve, ring_rx_clean, clean_rx}
use wair_os.Ag71xx.Packets.{answers, ring_rx_init-Accounts}
use wair_os.Ag71xx.Slots.{Pending}
use wair_os.Ag71xx.Window.{Window}
use wair_os.Ag71xx.Memory.{
  Pointer, null, valid, dangling, Checked, safe, and_also, Device, OpenHost, start_rx, open_end,
  started,
}
use wair_os.Ag71xx.Prepared.{ring_rx_init-Window, ring_rx_init-short}
use wair_os.Ag71xx.Release.{
  is_valid, given_back, IsSound, rings_cleanup_lem, level-Empties, cleaned_up, Pointers, NoLoss,
  rx_after, valid-IsSound,
}

-- A device `e` that was opened from `d`: all memory is there, no packet waits to be sent, and each
-- receive slot has a packet.
pub record Opened (d e : Device) : Type 0 where
  pub pointers : Pointers valid e
  pub no_loss : NoLoss d e
  pub empty : Pending e.eth.tx []
  pub filled : Window e.eth.rx.ring 0

-- An allocator has refused memory.
pub data Shortage (h : OpenHost) : Type 0 where
  tx_descs : h.tx_grant.dma ≡ none → Shortage h
  tx_buf : h.tx_grant.zalloc ≡ false → Shortage h
  rx_descs : h.rx_grant.dma ≡ none → Shortage h
  rx_buf : h.rx_grant.zalloc ≡ false → Shortage h
  packet : (n : ℕ) → h.kernel.alloc_skb n (rx_pkt_size + rx_reserve h.kernel) ≡ none → Shortage h

-- A device `e` that was not opened from `d`: memory was short, no block is left, and no packet.
pub record Refused (h : OpenHost) (d e : Device) : Type 0 where
  pub short : Shortage h
  pub tx_buf : is_valid e.tx_mem.buf ≡ false
  pub tx_descs : is_valid e.tx_mem.descs ≡ false
  pub rx_buf : is_valid e.rx_mem.buf ≡ false
  pub rx_descs : is_valid e.rx_mem.descs ≡ false
  pub no_loss : NoLoss d e
  -- the packets that `dev_alloc_skb` gave in the meantime were freed, each once and in order
  pub calls : ℕ
  pub allocs : e.eth.rx.allocs ≡ d.eth.rx.allocs + calls
  pub packets : e.eth.rx.freed ≡ d.eth.rx.freed ++ answers h.kernel d.eth.rx.allocs calls

-- The two ends of `ag71xx_open`.
pub data OpenEnds (h : OpenHost) (d : Device) : Checked (Outcome (Unit {0}) × Device) → Type 0 where
  opened : (e : Device) → Opened d e → OpenEnds h d (safe (ok tt, e))
  refused : (e : Device) → Refused h d e → OpenEnds h d (safe (err enomem, e))

given_back_lem : (p : Pointer) → is_valid (given_back p) ≡ false
given_back_lem null = refl
given_back_lem valid = refl
given_back_lem dangling = refl

-- The packets of the receive ring, from `d` to what ag71xx_ring_rx_clean will leave of `e`.
pub record Frees (h : OpenHost) (d e : Device) : Type 0 where
  calls : ℕ
  allocs : (rx_after e.rx_mem.buf e.eth.rx).allocs ≡ d.eth.rx.allocs + calls
  packets :
      (rx_after e.rx_mem.buf e.eth.rx).freed
      ≡ d.eth.rx.freed ++ answers h.kernel d.eth.rx.allocs calls

-- No packet was allocated or freed for the receive ring.
pub record Untouched (d e : Device) : Type 0 where
  pub allocs : e.eth.rx.allocs ≡ d.eth.rx.allocs
  pub freed : e.eth.rx.freed ≡ d.eth.rx.freed

pub Untouched-Frees :
    (h : OpenHost) (d e : Device) → e.rx_mem.buf ≡ null → Untouched d e → Frees h d e
unfolding answers
Untouched-Frees h d e none_there u = record {
  calls = 0;
  allocs = ap (λ (p : Pointer). (rx_after p e.eth.rx).allocs) none_there ∙ u.allocs ∙ omega arith;
  packets =
      ap (λ (p : Pointer). (rx_after p e.eth.rx).freed) none_there
      ∙ u.freed
      ∙ sym (append-nil d.eth.rx.freed);
}

module _ (h : OpenHost) (d : Device) where
  pub refuse :
      Shortage h
      → (e : Device) → IsSound e.rx_mem
      → IsSound e.tx_mem
      → e.eth.tx.ring.curr ≡ e.eth.tx.ring.dirty
      → NoLoss d e
      → Frees h d e
      → OpenEnds h d (open_end h (err enomem, e))
  refuse short e r t level n g =
      rw (rings_cleanup_lem e e.eth.tx r t (level-Empties e.eth.tx e.tx_mem level)) (
        refused (cleaned_up e.eth.tx e) (record {
          short = short;
          tx_buf = given_back_lem e.tx_mem.buf;
          tx_descs = given_back_lem e.tx_mem.descs;
          rx_buf = given_back_lem e.rx_mem.buf;
          rx_descs = given_back_lem e.rx_mem.descs;
          no_loss = record { tx_lost = n.tx_lost; rx_lost = n.rx_lost };
          calls = g.calls;
          allocs = g.allocs;
          packets = g.packets;
        }))

  abbrev pub running : Tx → Tx
  running t = record t { stopped = false }

  pub level_of : (t : Tx) → Pending (running t) [] → t.ring.curr ≡ t.ring.dirty
  level_of t p = omega (arith, p.holds.keeps.curr_at, p.holds.keeps.dirty_in)

  -- The device after the call of ag71xx_ring_rx_init.
  abbrev with_packets : Device → Device
  with_packets e = record e { eth = record e.eth { rx = (ring_rx_init h.kernel e.eth.rx).1 } }

  start_rx-all :
      (e : Device)
      → e.rx_mem.buf ≡ valid
      → (ring_rx_init h.kernel e.eth.rx).0 ≡ true
      → start_rx h e ≡ safe (ok tt, with_packets e)
  unfolding start_rx
  start_rx-all e v all = simp (v, all)

  start_rx-short :
      (e : Device)
      → e.rx_mem.buf ≡ valid
      → (ring_rx_init h.kernel e.eth.rx).0 ≡ false
      → start_rx h e ≡ safe (err enomem, with_packets e)
  unfolding start_rx
  start_rx-short e v all = simp (v, all)

  with_packets-Frees :
      (e : Device)
      → e.rx_mem.buf ≡ valid
      → Untouched d e
      → ((j : ℕ) → (e.eth.rx.ring.buf j).skb ≡ none)
      → Frees h d (with_packets e)
  unfolding ring_rx_clean
  with_packets-Frees e v u free =
      let a = ring_rx_init-Accounts h.kernel e.eth.rx free in
      record {
        calls = a.calls;
        allocs =
            ap (λ (p : Pointer). (rx_after p (with_packets e).eth.rx).allocs) v
            ∙ a.allocs
            ∙ ap (λ (n : ℕ). n + a.calls) u.allocs;
        packets =
            ap (λ (p : Pointer). (rx_after p (with_packets e).eth.rx).freed) v
            ∙ ap (λ (l : List Skb). l ++ clean_rx rx_ring_size 0 (with_packets e).eth.rx.ring.buf)
                (a.freed ∙ u.freed)
            ∙ ap (λ (l : List Skb). d.eth.rx.freed ++ l) a.packets
            ∙ ap (λ (n : ℕ). d.eth.rx.freed ++ answers h.kernel n a.calls) u.allocs;
      }

  pub start_rx-Ends :
      (e : Device)
      → Pointers valid e
      → Pending (running e.eth.tx) []
      → NoLoss d e
      → Untouched d e
      → ((j : ℕ) → (e.eth.rx.ring.buf j).skb ≡ none)
      → OpenEnds h d (and_also (start_rx h e) (open_end h))
  start_rx-Ends e v p n u free = elim (Bool-cases (ring_rx_init h.kernel e.eth.rx).0) [
    | inl all ↦ rw (start_rx-all e v.rx_buf all) (
        opened (started h (with_packets e)) (record {
          pointers = record {
            tx_buf = v.tx_buf;
            tx_descs = v.tx_descs;
            rx_buf = v.rx_buf;
            rx_descs = v.rx_descs;
          };
          no_loss = record { tx_lost = n.tx_lost; rx_lost = n.rx_lost };
          empty = p;
          filled = (ring_rx_init-Window h.kernel e.eth.rx all).0;
        }))
    | inr few ↦ rw (start_rx-short e v.rx_buf few) (
        let n' = ring_rx_init-short h.kernel e.eth.rx few in
        refuse (packet n'.0 n'.1) (with_packets e) (valid-IsSound e.rx_mem v.rx_buf v.rx_descs)
          (valid-IsSound e.tx_mem v.tx_buf v.tx_descs) (level_of e.eth.tx p)
          (record { tx_lost = n.tx_lost; rx_lost = n.rx_lost })
          (with_packets-Frees e v.rx_buf u free))
  ]
