-- ===== src/Ag71xx/Empty.antt =====
-- ag71xx_ring_tx_init and ag71xx_ring_tx_clean of ag71xx_main.c: the transmit ring at the start and
-- at the end.
use wair_os.Base.{
  ℕ, zero, suc, ◌+◌, ◌-◌, ◌*◌, ◌%◌, ◌^◌, ◌<◌, ◌≡◌, sym, ap, refl, ◌∙◌, arith, ==_iff, ==_comm, true,
  false, Option, none, some, List, [], ◌∷◌, ◌++◌, length, append-nil, append_assoc, update_at,
}
use wair_os.Ag71xx.{Skb, Buf, Ring, desc_empty, tx_ring_size}
use wair_os.Ag71xx.Tx.{Tx, init_bufs, ring_tx_init, clean_one, clean_from, ring_tx_clean}
use wair_os.Ag71xx.Slots.{
  Keeps, Holds, Pending, in_flight_lem, advance-Keeps, ring_busy, ring_done, first_buf,
}

-- A buffer without a packet, whose descriptor is the device's to skip and links to the next.
pub record Blank (size dma j : ℕ) (b : Buf) : Type 0 where
  pub no_skb : b.skb ≡ none
  pub empty : desc_empty b.desc ≡ true
  pub link : b.desc.next ≡ (dma + size * ((j + 1) % tx_ring_size)) % 2 ^ 32

module _ (size dma : ℕ) where
  init_bufs-Blank :
      (left i : ℕ) (f : ℕ → Buf)
      → ((j : ℕ) → j < i → Blank size dma j (f j))
      → (j : ℕ) → j < i + left
      → Blank size dma j (init_bufs left i size dma f j)
  unfolding init_bufs desc_empty
  init_bufs-Blank zero i f before j lt = before j (omega (arith, lt))
  init_bufs-Blank (suc left) i f before j lt =
      init_bufs-Blank left (i + 1) _
        (λ k below.
          update_at (Blank size dma) f i k _ (record { no_skb = refl; empty = refl; link = refl })
            (λ ne. before k (omega (arith, below, ne))))
        j (omega (arith, lt))

module _ (t : Tx) where
  blank :
      (j : ℕ)
      → j < tx_ring_size
      → Blank t.ring.desc_size t.ring.descs_dma j ((ring_tx_init t).ring.buf j)
  unfolding ring_tx_init
  blank =
      init_bufs-Blank t.ring.desc_size t.ring.descs_dma tx_ring_size 0 t.ring.buf
        (λ j lt. absurd (omega (arith, lt)))

  init-Holds : Holds (ring_tx_init t).ring []
  unfolding ring_tx_init
  init-Holds = record {
    keeps = record {
      held = λ k lt. (blank ((0 + k) % tx_ring_size) (omega arith)).no_skb;
      curr_at = omega arith;
      dirty_in = omega arith;
      few = omega arith;
    };
    idle = λ k from lt. (blank ((0 + k) % tx_ring_size) (omega arith)).empty;
  }

  -- The ring is a circle of descriptors without a packet.
  pub ring_tx_init-Pending :
      t.stopped ≡ false
      → Pending (ring_tx_init t) []
        × ((j : ℕ)
            → j < tx_ring_size
            → Blank t.ring.desc_size t.ring.descs_dma j ((ring_tx_init t).ring.buf j))
  unfolding ring_tx_init
  ring_tx_init-Pending running = (
    record {
      holds = init-Holds;
      full = λ e. absurd (omega (arith, e));
      waiting = λ e. absurd (cc (e, running));
    },
    blank,
  )

-- What `ag71xx_ring_tx_clean` leaves.
pub record Cleaned (t : Tx) (ps : List Skb) (r : Option Tx) : Type 0 where
  pub after : Tx
  pub returns : r ≡ some after
  pub frees : after.freed ≡ t.freed ++ ps
  pub no_skb : (i : ℕ) → i < tx_ring_size → (after.ring.buf i).skb ≡ none
  pub level : after.ring.curr ≡ after.ring.dirty

slot_free : (r : Ring) → Keeps r [] → (i : ℕ) → i < tx_ring_size → (r.buf i).skb ≡ none
slot_free r q i lt =
    let k = (i + tx_ring_size - r.dirty % tx_ring_size) % tx_ring_size in
    let place : (r.dirty + k) % tx_ring_size ≡ i = omega (arith, lt) in
    rw (sym place) (q.held k (omega arith))

module _ (t : Tx) where
  Cleaned-none : Keeps t.ring [] → Cleaned t [] (clean_from 0 t)
  unfolding clean_from
  Cleaned-none q = record {
    after = t;
    returns = rw (==_comm t.ring.curr t.ring.dirty, ring_done t.ring q) refl;
    frees = sym (append-nil t.freed);
    no_skb = slot_free t.ring q;
    level = sym ((==_iff _ _).0 (ring_done t.ring q));
  }

  clean_one-Keeps : (s : Skb) (ps : List Skb) → Keeps t.ring (s ∷ ps) → Keeps (clean_one t).ring ps
  unfolding clean_one
  clean_one-Keeps s ps q = advance-Keeps t.ring _ s ps q refl

  clean_one-freed :
      (s : Skb) (ps : List Skb) → Keeps t.ring (s ∷ ps) → (clean_one t).freed ≡ t.freed ++ s ∷ []
  unfolding clean_one
  clean_one-freed s ps q = rw (first_buf t.ring (t.ring.buf 0) s ps q, q.held 0 (omega arith)) refl

clean_from-Cleaned :
    (ps : List Skb) (t : Tx) → Keeps t.ring ps → Cleaned t ps (clean_from (length ps) t)
unfolding clean_from
clean_from-Cleaned [] t q = Cleaned-none t q
clean_from-Cleaned (s ∷ ps) t q =
    let a = clean_from-Cleaned ps (clean_one t) (clean_one-Keeps t s ps q) in
    record {
      after = a.after;
      returns = rw (==_comm t.ring.curr t.ring.dirty, ring_busy t.ring s ps q) a.returns;
      frees =
          a.frees
          ∙ ap (λ (l : List Skb). l ++ ps) (clean_one-freed t s ps q)
          ∙ append_assoc t.freed (s ∷ []) ps;
      no_skb = a.no_skb;
      level = a.level;
    }

pub ring_tx_clean-Keeps :
    (t : Tx) (ps : List Skb) → Keeps t.ring ps → Cleaned t ps (ring_tx_clean t)
unfolding ring_tx_clean
ring_tx_clean-Keeps t ps q = rw (in_flight_lem t.ring ps q) (clean_from-Cleaned ps t q)

-- On a ring that holds the packets `ps`, whatever the device made of their descriptors,
-- `ag71xx_ring_tx_clean` ends, frees exactly these packets in order, and leaves no packet in any
-- slot and both counters equal.
pub ring_tx_clean-Cleaned : (t : Tx) (ps : List Skb) → Pending t ps → Cleaned t ps (ring_tx_clean t)
ring_tx_clean-Cleaned t ps p = ring_tx_clean-Keeps t ps p.holds.keeps
