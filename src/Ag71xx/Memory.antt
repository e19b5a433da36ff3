-- ===== src/Ag71xx/Memory.antt =====
-- The memory of the rings of ag71xx_main.c: ag71xx_ring_alloc, ag71xx_ring_free,
-- ag71xx_rings_init, ag71xx_rings_cleanup, ag71xx_open and ag71xx_stop, with ag71xx_hw_stop,
-- ag71xx_dma_reset and ag71xx_hw_set_macaddr.
-- What the allocators answer is a parameter. A ring has the only pointers to its memory, so
-- whether the memory is still allocated stands with the pointer. The PHY code is left out, and the
-- registers that ag71xx_dma_reset reads for its messages.
use wair_os.Base.{
  ℕ, zero, suc, ◌+◌, ◌-◌, ◌*◌, ◌/◌, ◌%◌, ◌==◌, bit_or, bit, if◌then◌else◌, ◌<<◌, Bool, true, false,
  Option, none, some, List, ◌∷◌, Outcome, ok, err, enomem,
}
use wair_os.Ag71xx.{Desc, Buf, Ring, tx_ring_size, rx_ring_size}
use wair_os.Ag71xx.Tx.{ring_tx_init, ring_tx_clean, reg_tx_ctrl, reg_tx_status, tx_status_ps}
use wair_os.Ag71xx.Rx.{Rx, RxHost, ring_rx_init, ring_rx_clean, reg_rx_status, rx_status_pr}
use wair_os.Ag71xx.Poll.{Eth, reg_rx_ctrl}

pub data Pointer : Type 0 where
  null valid dangling : Pointer

-- What a call returns, or how it breaks the memory. In `endless` a loop has not come to its end.
pub data Checked (A : Type 0) : Type 0 where
  safe : A → Checked A
  null_access use_after_free double_free endless : Checked A

abbrev pub and_also : {A B : Type 0} → Checked A → (A → Checked B) → Checked B
and_also (safe a) f = f a
and_also null_access f = null_access
and_also use_after_free f = use_after_free
and_also double_free f = double_free
and_also endless f = endless

-- What is done through a pointer.
abbrev pub access : {A : Type 0} → Pointer → Checked A → Checked A
access null c = null_access
access valid c = c
access dangling c = use_after_free

-- `ring->buf`, `ring->descs_cpu` and `ring->size`
pub record Memory : Type 0 where
  pub buf : Pointer
  pub descs : Pointer
  pub size : ℕ
  -- the blocks whose last pointer was overwritten
  pub lost : ℕ

pub record Device : Type 0 where
  pub eth : Eth
  pub tx_mem : Memory
  pub rx_mem : Memory
  -- `napi_enable` was called, and `napi_disable` not since
  pub napi : Bool
  pub carrier : Bool

-- What `dma_alloc_coherent` answers, an address and what the memory holds, and whether `kzalloc`
-- has memory.
pub record Grant : Type 0 where
  pub dma : Option (ℕ × (ℕ → Desc))
  pub zalloc : Bool

pub record OpenHost : Type 0 where
  pub cache_line_size : ℕ
  pub tx_grant : Grant
  pub rx_grant : Grant
  pub kernel : RxHost
  -- `dev->dev_addr`
  pub mac : ℕ → ℕ
  -- `ag->stop_desc_dma`
  pub stop_desc_dma : ℕ

-- `kfree`, and `dma_free_coherent` under the test for NULL
abbrev pub free : Pointer → Checked Pointer
free null = safe null
free valid = safe dangling
free dangling = double_free

unfoldable pub ring_free : Memory → Checked Memory
ring_free m =
    and_also (free m.buf)
      (λ b. and_also (free m.descs) (λ c. safe (record m { buf = b; descs = c })))

-- `lost` when a pointer gets another value
abbrev pub overwritten : Pointer → ℕ → ℕ
overwritten null n = n
overwritten valid n = n + 1
overwritten dangling n = n

-- `sizeof(struct ag71xx_desc)` is 16.
abbrev pub desc_size_for : ℕ → ℕ
desc_size_for line = if 16 % line == 0 then 16 else (16 + (line - 1)) / line * line

-- The buffers that `kzalloc` clears, with their descriptors.
abbrev pub zeroed : (ℕ → Desc) → ℕ → Buf
zeroed descs i = record { skb = none; desc = descs i; dma_addr = 0; timestamp = 0 }

-- The second half of ag71xx_ring_alloc.
abbrev pub alloc_buf : Bool → (ℕ → Desc) → Ring × Memory → Outcome (Unit {0}) × (Ring × Memory)
alloc_buf zalloc descs (r, m) =
    let m = record m { lost = overwritten m.buf m.lost } in
    if zalloc
    then (ok tt, (record r { buf = zeroed descs }, record m { buf = valid }))
    else (err enomem, (r, record m { buf = null }))

unfoldable pub ring_alloc : ℕ → ℕ → Grant → Ring × Memory → Outcome (Unit {0}) × (Ring × Memory)
ring_alloc line size g (r, m) =
    let r = record r { desc_size = desc_size_for line } in
    let m = record m { lost = overwritten m.descs m.lost } in
    elim g.dma [
      | none ↦ (err enomem, (r, record m { descs = null }))
      | some a ↦
          alloc_buf g.zalloc a.1
            (record r { descs_dma = a.0 }, record m { descs = valid; size = size })
    ]

abbrev pub put_tx : Ring × Memory → Device → Device
put_tx p d = record d { eth = record d.eth { tx = record d.eth.tx { ring = p.0 } }; tx_mem = p.1 }

abbrev pub put_rx : Ring × Memory → Device → Device
put_rx p d = record d { eth = record d.eth { rx = record d.eth.rx { ring = p.0 } }; rx_mem = p.1 }

-- The call of ag71xx_ring_rx_init.
unfoldable pub start_rx : OpenHost → Device → Checked (Outcome (Unit {0}) × Device)
start_rx h d = access d.rx_mem.buf (
    let x = ring_rx_init h.kernel d.eth.rx in
    safe (if x.0 then ok tt else err enomem, record d { eth = record d.eth { rx = x.1 } }))

-- What ag71xx_rings_init makes of the memory for the receive ring, and of that for the transmit
-- ring.
abbrev pub after_rx_alloc :
    OpenHost → Device → Outcome (Unit {0}) × (Ring × Memory) → Checked (Outcome (Unit {0}) × Device)
after_rx_alloc h d (err e, p) = safe (err e, put_rx p d)
after_rx_alloc h d (ok u, p) = start_rx h (put_rx p d)

unfoldable pub rx_ring_start : OpenHost → Device → Checked (Outcome (Unit {0}) × Device)
rx_ring_start h d =
    after_rx_alloc h d
      (ring_alloc h.cache_line_size rx_ring_size h.rx_grant (d.eth.rx.ring, d.rx_mem))

abbrev pub after_tx_alloc :
    OpenHost → Device → Outcome (Unit {0}) × (Ring × Memory) → Checked (Outcome (Unit {0}) × Device)
after_tx_alloc h d (err e, p) = safe (err e, put_tx p d)
after_tx_alloc h d (ok u, p) =
    let d = put_tx p d in
    access d.tx_mem.buf
      (rx_ring_start h (record d { eth = record d.eth { tx = ring_tx_init d.eth.tx } }))

unfoldable pub rings_init : OpenHost → Device → Checked (Outcome (Unit {0}) × Device)
rings_init h d =
    after_tx_alloc h d
      (ring_alloc h.cache_line_size tx_ring_size h.tx_grant (d.eth.tx.ring, d.tx_mem))

-- ag71xx_ring_rx_clean
unfoldable pub rx_clean : Device → Checked Device
rx_clean d = elim d.rx_mem.buf [
  | null ↦ safe d
  | valid ↦ safe (record d { eth = record d.eth { rx = ring_rx_clean d.eth.rx } })
  | dangling ↦ use_after_free
]

-- ag71xx_ring_tx_clean, which reads the buffers when the ring is not empty
unfoldable pub tx_clean : Device → Checked Device
tx_clean d =
    if d.eth.tx.ring.curr == d.eth.tx.ring.dirty
    then safe d
    else access d.tx_mem.buf (elim (ring_tx_clean d.eth.tx) [
      | none ↦ endless
      | some t ↦ safe (record d { eth = record d.eth { tx = t } })
    ])

abbrev pub free_rx : Device → Checked Device
free_rx d = and_also (ring_free d.rx_mem) (λ m. safe (record d { rx_mem = m }))

abbrev pub free_tx : Device → Checked Device
free_tx d = and_also (ring_free d.tx_mem) (λ m. safe (record d { tx_mem = m }))

unfoldable pub rings_cleanup : Device → Checked Device
rings_cleanup d = and_also (and_also (and_also (rx_clean d) free_rx) tx_clean) free_tx

-- The register writes of ag71xx_hw_set_macaddr.
abbrev macaddr_writes : (ℕ → ℕ) → List (ℕ × ℕ) → List (ℕ × ℕ)
macaddr_writes mac l =
    (0x44, bit_or (mac 1 << 24) (mac 0 << 16))
    ∷ (0x40, bit_or (bit_or (bit_or (mac 5 << 24) (mac 4 << 16)) (mac 3 << 8)) (mac 2))
    ∷ l

-- The loop of ag71xx_dma_reset.
unfoldable pub clear_pending : ℕ → List (ℕ × ℕ) → List (ℕ × ℕ)
clear_pending zero l = l
clear_pending (suc left) l =
    clear_pending left ((reg_tx_status, tx_status_ps) ∷ (reg_rx_status, rx_status_pr) ∷ l)

-- The register writes of ag71xx_dma_reset.
abbrev dma_reset_writes : ℕ → List (ℕ × ℕ) → List (ℕ × ℕ)
dma_reset_writes stop_desc l =
    (reg_tx_status, bit_or (bit 3) (bit 1))
    ∷ (reg_rx_status, bit_or (bit 3) (bit 2))
    ∷ clear_pending 256
        ((0x190, stop_desc) ∷ (0x184, stop_desc) ∷ (reg_tx_ctrl, 0) ∷ (reg_rx_ctrl, 0) ∷ l)

-- The register writes of ag71xx_hw_stop.
abbrev hw_stop_writes : List (ℕ × ℕ) → List (ℕ × ℕ)
hw_stop_writes l = (reg_tx_ctrl, 0) ∷ (reg_rx_ctrl, 0) ∷ (0x198, 0) ∷ l

abbrev after_writes : (List (ℕ × ℕ) → List (ℕ × ℕ)) → Rx → Rx
after_writes f x = record x { writes = f x.writes }

-- The end of ag71xx_open.
abbrev pub started : OpenHost → Device → Device
started h d = record d {
  napi = true;
  carrier = false;
  eth = record d.eth {
    tx = record d.eth.tx { stopped = false };
    rx =
        after_writes
          (λ l.
            macaddr_writes h.mac
              ((0x190, d.eth.rx.ring.descs_dma) ∷ (0x184, d.eth.tx.ring.descs_dma) ∷ l))
          d.eth.rx;
  };
}

-- The start of ag71xx_stop.
abbrev pub halted : OpenHost → Device → Device
halted h d = record d {
  napi = false;
  carrier = false;
  eth = record d.eth {
    tx = record d.eth.tx { stopped = true };
    rx = after_writes (λ l. dma_reset_writes h.stop_desc_dma (hw_stop_writes l)) d.eth.rx;
    int_enabled = false;
    oom_timer = false;
  };
}

-- What ag71xx_open makes of the result of ag71xx_rings_init.
abbrev pub open_end : OpenHost → Outcome (Unit {0}) × Device → Checked (Outcome (Unit {0}) × Device)
open_end h (err e, d) = and_also (rings_cleanup d) (λ d. safe (err e, d))
open_end h (ok u, d) = safe (ok tt, started h d)

unfoldable pub dev_open : OpenHost → Device → Checked (Outcome (Unit {0}) × Device)
dev_open h d = and_also (rings_init h d) (open_end h)

unfoldable pub dev_stop : OpenHost → Device → Checked Device
dev_stop h d = rings_cleanup (halted h d)
