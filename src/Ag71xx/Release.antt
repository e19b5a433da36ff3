-- ===== src/Ag71xx/Release.antt =====
-- ag71xx_rings_cleanup and ag71xx_stop of ag71xx_main.c: what they make of the memory of the rings.
use wair_os.Base.{
  ◌≡◌, ◌==◌, ==_iff, ==_comm, refl, sym, ◌∙◌, ap, Bool, true, false, List, ◌++◌, [], append-nil,
  arith, ◌∷◌,
}
use wair_os.Ag71xx.{Skb, rx_ring_size}
use wair_os.Ag71xx.Tx.{Tx, ring_tx_clean}
use wair_os.Ag71xx.Rx.{Rx, ring_rx_clean}
use wair_os.Ag71xx.Packets.{packets_in, clean_rx-packets_in}
use wair_os.Ag71xx.Slots.{Keeps, ring_busy}
use wair_os.Ag71xx.Empty.{ring_tx_clean-Keeps}
use wair_os.Ag71xx.Memory.{
  Pointer, null, valid, dangling, Checked, safe, Memory, Device, OpenHost, free, ring_free,
  rx_clean, tx_clean, rings_cleanup, halted, dev_stop,
}

abbrev pub is_valid : Pointer → Bool
is_valid null = false
is_valid valid = true
is_valid dangling = false

-- The pointer when its memory is given back
abbrev pub given_back : Pointer → Pointer
given_back null = null
given_back valid = dangling
given_back dangling = dangling

abbrev is_dangling : Pointer → Bool
is_dangling null = false
is_dangling valid = false
is_dangling dangling = true

-- No pointer dangles.
pub record IsSound (m : Memory) : Type 0 where
  pub buf : is_dangling m.buf ≡ false
  pub descs : is_dangling m.descs ≡ false

-- The memory after ag71xx_ring_free.
abbrev pub returned_mem : Memory → Memory
returned_mem m = record m { buf = given_back m.buf; descs = given_back m.descs }

free_lem : (p : Pointer) → is_dangling p ≡ false → free p ≡ safe (given_back p)
free_lem null h = refl
free_lem valid h = refl
free_lem dangling h = absurd (cc h)

ring_free_lem : (m : Memory) → IsSound m → ring_free m ≡ safe (returned_mem m)
unfolding ring_free
ring_free_lem m q = rw (free_lem m.buf q.buf, free_lem m.descs q.descs) refl

-- The receive ring after ag71xx_ring_rx_clean.
abbrev pub rx_after : Pointer → Rx → Rx
rx_after null x = x
rx_after valid x = ring_rx_clean x
rx_after dangling x = x

abbrev with_rx : Rx → Device → Device
with_rx x d = record d { eth = record d.eth { rx = x } }

abbrev with_tx : Tx → Device → Device
with_tx t d = record d { eth = record d.eth { tx = t } }

rx_cleaned :
    (p : Pointer) (d : Device)
    → d.rx_mem.buf ≡ p
    → is_dangling p ≡ false
    → rx_clean d ≡ safe (with_rx (rx_after p d.eth.rx) d)
unfolding rx_clean
rx_cleaned null d e h = rw e refl
rx_cleaned valid d e h = rw e refl
rx_cleaned dangling d e h = absurd (cc h)

-- The device after ag71xx_rings_cleanup, which has left `t` of the transmit ring.
abbrev pub cleaned_up : Tx → Device → Device
cleaned_up t d = record d {
  eth = record d.eth { tx = t; rx = rx_after d.rx_mem.buf d.eth.rx };
  tx_mem = returned_mem d.tx_mem;
  rx_mem = returned_mem d.rx_mem;
}

-- `t` is what ag71xx_ring_tx_clean leaves of the transmit ring.
pub record Empties (t : Tx) (u : Tx) (m : Memory) : Type 0 where
  pub runs : (d : Device) → d.eth.tx ≡ u → d.tx_mem ≡ m → tx_clean d ≡ safe (with_tx t d)

pub rings_cleanup_lem :
    (d : Device) (t : Tx)
    → IsSound d.rx_mem
    → IsSound d.tx_mem
    → Empties t d.eth.tx d.tx_mem
    → rings_cleanup d ≡ safe (cleaned_up t d)
unfolding rings_cleanup
rings_cleanup_lem d t r s q =
    let d₁ = record (with_rx (rx_after d.rx_mem.buf d.eth.rx) d) {
      rx_mem = returned_mem d.rx_mem;
    } in
    rw
      (
        rx_cleaned d.rx_mem.buf d refl r.buf,
        ring_free_lem d.rx_mem r,
        q.runs d₁ refl refl,
        ring_free_lem d.tx_mem s,
      )
      refl

-- An empty transmit ring stays as it is.
pub level-Empties : (t : Tx) (m : Memory) → t.ring.curr ≡ t.ring.dirty → Empties t t m
unfolding tx_clean
level-Empties t m level = record { runs = λ d e f. rw (e, (==_iff _ _).1 level) (rw (sym e) refl) }

-- The transmit ring when its packets `ps` have gone back.
record Emptied (t : Tx) (ps : List Skb) (m : Memory) : Type 0 where
  after : Tx
  empties : Empties after t m
  frees : after.freed ≡ t.freed ++ ps
  level : after.ring.curr ≡ after.ring.dirty

Keeps-Emptied :
    (t : Tx) (ps : List Skb) (m : Memory) → Keeps t.ring ps → m.buf ≡ valid → Emptied t ps m
unfolding tx_clean
Keeps-Emptied t [] m q v =
    let level : t.ring.curr ≡ t.ring.dirty = omega (arith, q.curr_at, q.dirty_in) in
    record {
      after = t;
      empties = level-Empties t m level;
      frees = sym (append-nil t.freed);
      level = level;
    }
Keeps-Emptied t (s ∷ ps) m q v =
    let c = ring_tx_clean-Keeps t (s ∷ ps) q in
    record {
      after = c.after;
      empties = record {
        runs = λ d e f.
            let busy = ==_comm t.ring.curr t.ring.dirty ∙ ring_busy t.ring s ps q in
            let idle = ap (λ (u : Tx). u.ring.curr == u.ring.dirty) e ∙ busy in
            let there = ap (λ (k : Memory). k.buf) f ∙ v in
            let cleaned = ap ring_tx_clean e ∙ c.returns in simp (idle, there, cleaned);
      };
      frees = c.frees;
      level = c.level;
    }

-- All pointers of both rings are `p`.
pub record Pointers (p : Pointer) (d : Device) : Type 0 where
  pub tx_buf : d.tx_mem.buf ≡ p
  pub tx_descs : d.tx_mem.descs ≡ p
  pub rx_buf : d.rx_mem.buf ≡ p
  pub rx_descs : d.rx_mem.descs ≡ p

-- No block was lost between `d` and `e`.
pub record NoLoss (d e : Device) : Type 0 where
  pub tx_lost : e.tx_mem.lost ≡ d.tx_mem.lost
  pub rx_lost : e.rx_mem.lost ≡ d.rx_mem.lost

-- What `ag71xx_stop` leaves of a device with the packets `ps` in its transmit ring.
pub record Stopped (d : Device) (ps : List Skb) (r : Checked Device) : Type 0 where
  pub after : Device
  pub returns : r ≡ safe after
  pub pointers : Pointers dangling after
  pub no_loss : NoLoss d after
  pub tx_frees : after.eth.tx.freed ≡ d.eth.tx.freed ++ ps
  pub rx_frees : after.eth.rx.freed ≡ d.eth.rx.freed ++ packets_in d.eth.rx.ring.buf rx_ring_size
  pub level : after.eth.tx.ring.curr ≡ after.eth.tx.ring.dirty

pub valid-IsSound : (m : Memory) → m.buf ≡ valid → m.descs ≡ valid → IsSound m
valid-IsSound m e f = record { buf = ap is_dangling e; descs = ap is_dangling f }

-- `ag71xx_stop` on a device with the memory of both rings and the packets `ps` in its transmit ring
-- returns without a bad access: it gives back each block once, so that all four pointers dangle, it
-- loses none, and it frees the packets `ps` and then, in the order of the 128 slots, each packet that
-- a slot of the receive ring holds.
pub dev_stop-Stopped :
    (h : OpenHost) (d : Device) (ps : List Skb)
    → Pointers valid d
    → Keeps d.eth.tx.ring ps
    → Stopped d ps (dev_stop h d)
unfolding dev_stop ring_rx_clean
dev_stop-Stopped h d ps v q =
    let e = Keeps-Emptied (halted h d).eth.tx ps d.tx_mem q v.tx_buf in
    record {
      after = cleaned_up e.after (halted h d);
      returns =
          rings_cleanup_lem (halted h d) e.after (valid-IsSound d.rx_mem v.rx_buf v.rx_descs)
            (valid-IsSound d.tx_mem v.tx_buf v.tx_descs) e.empties;
      pointers = record {
        tx_buf = ap given_back v.tx_buf;
        tx_descs = ap given_back v.tx_descs;
        rx_buf = ap given_back v.rx_buf;
        rx_descs = ap given_back v.rx_descs;
      };
      no_loss = record { tx_lost = refl; rx_lost = refl };
      tx_frees = e.frees;
      rx_frees =
          rw v.rx_buf
            (ap (λ (l : List Skb). d.eth.rx.freed ++ l) (clean_rx-packets_in d.eth.rx.ring.buf));
      level = e.level;
    }
