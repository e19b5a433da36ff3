-- ===== src/Ag71xx/Opened.antt =====
-- ag71xx_open of ag71xx_main.c: what it leaves of the memory of the rings, whatever the allocators
-- answer, and what it does after ag71xx_stop.
use wair_os.Base.{ℕ, ◌≡◌, Option-cases, Bool-cases, inl, inr, refl, none, List, [], ok, err, enomem}
use wair_os.Ag71xx.{Skb, tx_ring_size, rx_ring_size, Ring}
use wair_os.Ag71xx.Tx.{Tx, ring_tx_init}
use wair_os.Ag71xx.Slots.{Keeps, Pending}
use wair_os.Ag71xx.Empty.{ring_tx_init-Pending}
use wair_os.Ag71xx.Memory.{
  Memory, Grant, desc_size_for, put_tx, after_tx_alloc, overwritten, null, valid, dangling,
  use_after_free, and_also, Device, OpenHost, ring_alloc, rx_ring_start, rings_init, rx_clean,
  rings_cleanup, open_end, dev_open, dev_stop,
}
use wair_os.Ag71xx.Release.{Pointers, NoLoss, dev_stop-Stopped, valid-IsSound}
use wair_os.Ag71xx.Granted.{refused_descs, refused_buf, granted}
use wair_os.Ag71xx.Ending.{
  OpenEnds, tx_descs, tx_buf, rx_descs, rx_buf, Untouched, Untouched-Frees, refuse, running,
  level_of, start_rx-Ends,
}

module _ (h : OpenHost) (d : Device) where
  rx_ring_start-Ends :
      (e : Device)
      → e.tx_mem.buf ≡ valid
      → e.tx_mem.descs ≡ valid
      → e.rx_mem.buf ≡ null
      → e.rx_mem.descs ≡ null
      → Pending (running h d e.eth.tx) []
      → NoLoss d e
      → Untouched d e
      → OpenEnds h d (and_also (rx_ring_start h e) (open_end h))
  unfolding rx_ring_start
  rx_ring_start-Ends e tb td rb rd p n u =
      let line = h.cache_line_size in
      let g = h.rx_grant in
      elim (Option-cases g.dma) [
        | inl out ↦
            rw (rx_ring_start, refused_descs line rx_ring_size g e.eth.rx.ring e.rx_mem out rd)
              (refuse h d (rx_descs out) _ (record { buf = simp rb; descs = refl })
                (valid-IsSound e.tx_mem tb td) (level_of h d e.eth.tx p)
                (record { tx_lost = n.tx_lost; rx_lost = n.rx_lost })
                (Untouched-Frees h d _ (simp rb) (record { allocs = u.allocs; freed = u.freed })))
        | inr a ↦ elim (Bool-cases g.zalloc) [
          | inr out ↦
              rw
                (
                  rx_ring_start,
                  refused_buf line rx_ring_size g e.eth.rx.ring e.rx_mem a.0.0 a.0.1 a.1 out rd rb,
                )
                (refuse h d (rx_buf out) _ (record { buf = refl; descs = refl })
                  (valid-IsSound e.tx_mem tb td) (level_of h d e.eth.tx p)
                  (record { tx_lost = n.tx_lost; rx_lost = n.rx_lost })
                  (Untouched-Frees h d _ refl (record { allocs = u.allocs; freed = u.freed })))
          | inl got ↦
              rw
                (
                  rx_ring_start,
                  granted line rx_ring_size g e.eth.rx.ring e.rx_mem a.0.0 a.0.1 a.1 got rd rb,
                )
                (start_rx-Ends h d _
                  (record { tx_buf = tb; tx_descs = td; rx_buf = refl; rx_descs = refl }) p
                  (record { tx_lost = n.tx_lost; rx_lost = n.rx_lost })
                  (record { allocs = u.allocs; freed = u.freed }) (λ j. refl))
        ]
      ]

  fresh-Pending : (t : Tx) → Pending (running h d (ring_tx_init t)) []
  unfolding ring_tx_init
  fresh-Pending t = (ring_tx_init-Pending (running h d t) refl).0

  -- The transmit ring when its memory is there.
  abbrev tx_ready : Ring → Memory → Device
  tx_ready r m =
      let e = put_tx (r, m) d in record e { eth = record e.eth { tx = ring_tx_init e.eth.tx } }

  after_tx-Ends :
      (r : Ring) (m : Memory)
      → m.buf ≡ valid
      → m.descs ≡ valid
      → m.lost ≡ d.tx_mem.lost
      → d.rx_mem.buf ≡ null
      → d.rx_mem.descs ≡ null
      → OpenEnds h d (and_also (after_tx_alloc h d (ok tt, (r, m))) (open_end h))
  after_tx-Ends r m tb td tl rb rd =
      let next : after_tx_alloc h d (ok tt, (r, m)) ≡ rx_ring_start h (tx_ready r m) = simp tb in
      rw next (
        rx_ring_start-Ends (tx_ready r m) tb td rb rd (fresh-Pending (put_tx (r, m) d).eth.tx)
          (record { tx_lost = tl; rx_lost = refl }) (record { allocs = refl; freed = refl }))

-- A device that was never opened: it has no memory, and its counters are equal.
pub record IsUnused (d : Device) : Type 0 where
  pub pointers : Pointers null d
  pub level : d.eth.tx.ring.curr ≡ d.eth.tx.ring.dirty

-- On a device that was never opened `ag71xx_open` makes no bad access, whatever the allocators
-- answer. Either it returns 0, and then the memory of both rings is there, no packet waits to be
-- sent and each receive slot has a packet; or it returns -ENOMEM, and then an allocator has refused
-- memory, no block is left, and the packets that `dev_alloc_skb` has given were freed, each once and
-- in order. No block is lost.
pub dev_open-OpenEnds : (h : OpenHost) (d : Device) → IsUnused d → OpenEnds h d (dev_open h d)
unfolding dev_open rings_init
dev_open-OpenEnds h d u =
    let v = u.pointers in
    let line = h.cache_line_size in
    let g = h.tx_grant in
    elim (Option-cases g.dma) [
      | inl out ↦
          rw (rings_init, refused_descs line tx_ring_size g d.eth.tx.ring d.tx_mem out v.tx_descs)
            (refuse h d (tx_descs out) _ (record { buf = simp v.rx_buf; descs = simp v.rx_descs })
              (record { buf = simp v.tx_buf; descs = refl }) u.level
              (record { tx_lost = refl; rx_lost = refl })
              (Untouched-Frees h d _ (simp v.rx_buf) (record { allocs = refl; freed = refl })))
      | inr a ↦ elim (Bool-cases g.zalloc) [
        | inr out ↦
            rw
              (
                rings_init,
                refused_buf line tx_ring_size g d.eth.tx.ring d.tx_mem a.0.0 a.0.1 a.1 out
                    v.tx_descs v.tx_buf,
              )
              (refuse h d (tx_buf out) _ (record { buf = simp v.rx_buf; descs = simp v.rx_descs })
                (record { buf = refl; descs = refl }) u.level
                (record { tx_lost = refl; rx_lost = refl })
                (Untouched-Frees h d _ (simp v.rx_buf) (record { allocs = refl; freed = refl })))
        | inl got ↦
            rw
              (
                rings_init,
                granted line tx_ring_size g d.eth.tx.ring d.tx_mem a.0.0 a.0.1 a.1 got v.tx_descs
                    v.tx_buf,
              )
              (after_tx-Ends h d _ _ refl refl refl v.rx_buf v.rx_descs)
      ]
    ]

dangling_cleanup : (d : Device) → d.rx_mem.buf ≡ dangling → rings_cleanup d ≡ use_after_free
unfolding rings_cleanup rx_clean
dangling_cleanup d e = simp (rx_clean, e)

refused_any :
    (line size : ℕ) (g : Grant) (r : Ring) (m : Memory)
    → g.dma ≡ none
    → ring_alloc line size g (r, m) ≡ (
      err enomem,
      (
        record r { desc_size = desc_size_for line },
        record m { descs = null; lost = overwritten m.descs m.lost },
      ),
    )
unfolding ring_alloc
refused_any line size g r m e = simp (ring_alloc, e)

-- After `ag71xx_stop` on an open device, `ag71xx_open` reads memory that was given back when
-- `dma_alloc_coherent` refuses the descriptors of the transmit ring.
pub dev_open-dev_stop :
    (h g : OpenHost) (d : Device) (ps : List Skb)
    → Pointers valid d
    → Keeps d.eth.tx.ring ps
    → g.tx_grant.dma ≡ none
    → and_also (dev_stop h d) (dev_open g) ≡ use_after_free
unfolding dev_open rings_init
dev_open-dev_stop h g d ps v q out =
    let s = dev_stop-Stopped h d ps v q in
    let t = s.after.eth.tx.ring in
    let m = s.after.tx_mem in
    let refusal = refused_any g.cache_line_size tx_ring_size g.tx_grant t m out in
    let left : Device =
      put_tx
        (
          record t { desc_size = desc_size_for g.cache_line_size },
          record m { descs = null; lost = overwritten m.descs m.lost },
        )
        s.after in
    rw (s.returns, rings_init, refusal, dangling_cleanup left s.pointers.rx_buf) refl
