-- ===== src/Ag71xx.antt =====
-- The descriptor rings of the ag71xx Ethernet driver (target/linux/ar71xx/files/drivers/net/ag71xx):
-- the structs of ag71xx.h, lines 79 to 104, the tests on a descriptor, lines 192 to 200, and the
-- switch header of ag71xx_ar8216.c.
-- A ring is a map from the slot to its buffer, with the two free running counters, which wrap at
-- 2 ^ 32. The mapping of a buffer for the device is a parameter.
pub mod Mdio
pub mod Controller
pub mod Tx
pub mod Slots
pub mod Xmit
pub mod Reap
pub mod Sent
pub mod Traffic
pub mod Empty
pub mod Rx
pub mod Window
pub mod Receive
pub mod Refill
pub mod Received
pub mod Poll
pub mod Awake
pub mod Polled
pub mod Packets
pub mod Prepared
pub mod Memory
pub mod Release
pub mod Granted
pub mod Ending
pub mod Opened
use wair_os.Base.{
  ℕ, zero, suc, ◌+◌, ◌-◌, ◌*◌, ◌/◌, ◌%◌, ◌^◌, bit_and, ◌==◌, if◌then◌else◌, bit, Bool, not, Option,
  none, some, ltb, update, Outcome, ok, err, einval,
}

-- `struct sk_buff`: the bytes from `data` on, of which the first `len` belong to the packet
pub record Skb : Type 0 where
  pub bytes : ℕ → ℕ
  pub len : ℕ

pub record Desc : Type 0 where
  pub addr : ℕ
  pub ctrl : ℕ
  pub next : ℕ

pub record Buf : Type 0 where
  pub skb : Option Skb
  pub desc : Desc
  pub dma_addr : ℕ
  pub timestamp : ℕ

pub record Ring : Type 0 where
  pub buf : ℕ → Buf
  pub descs_dma : ℕ
  pub desc_size : ℕ
  pub curr : ℕ
  pub dirty : ℕ

abbrev pub tx_ring_size : ℕ
tx_ring_size = 64

abbrev pub tx_thres_stop : ℕ
tx_thres_stop = tx_ring_size - 4

abbrev pub tx_thres_wakeup : ℕ
tx_thres_wakeup = tx_ring_size - tx_ring_size / 4

abbrev pub rx_ring_size : ℕ
rx_ring_size = 128

-- `DESC_EMPTY`
abbrev pub desc_empty_flag : ℕ
desc_empty_flag = bit 31

-- `DESC_PKTLEN_M`
abbrev pub desc_pktlen_mask : ℕ
desc_pktlen_mask = 0xfff

unfoldable pub desc_empty : Desc → Bool
desc_empty d = not (bit_and d.ctrl desc_empty_flag == 0)

unfoldable pub desc_pktlen : Desc → ℕ
desc_pktlen d = bit_and d.ctrl desc_pktlen_mask

-- The wrap-around of a free running counter.
abbrev pub next_count : ℕ → ℕ
next_count n = (n + 1) % 2 ^ 32

-- `ring->curr - ring->dirty`
abbrev pub in_flight : Ring → ℕ
in_flight r = (r.curr + 2 ^ 32 - r.dirty) % 2 ^ 32

abbrev pub set_buf : ℕ → Buf → Ring → Ring
set_buf i b r = record r { buf = update r.buf i b }

unfoldable pub add_ar8216_header : Skb → Skb
add_ar8216_header s = record {
  bytes = λ k. if k == 0 then 0x10 else if k == 1 then 0x80 else s.bytes (k - 2);
  len = s.len + 2;
}

-- `skb_pull`, which does nothing when the packet is shorter
abbrev pub skb_pull : ℕ → Skb → Skb
skb_pull n s = if ltb s.len n then s else record { bytes = λ k. s.bytes (k + n); len = s.len - n }

unfoldable pub remove_ar8216_header : Skb → Outcome (Unit {0}) × Skb
remove_ar8216_header s =
    if bit_and (s.bytes 1) 0xf == 0 then (ok tt, skb_pull 2 s) else (err einval, s)
