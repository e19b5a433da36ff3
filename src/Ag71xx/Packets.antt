-- ===== src/Ag71xx/Packets.antt =====
-- The packets in the receive ring of ag71xx_main.c: which ones ag71xx_ring_rx_clean frees, and which
-- ones a call of ag71xx_ring_rx_init that fails has left there.
use wair_os.Base.{
  ℕ, zero, suc, ◌+◌, ◌<◌, ◌≤◌, ◌≡◌, refl, sym, ◌∙◌, ap, arith, false, Option, none, some,
  Option-cases, Bool-cases, inl, inr, ==_iff, ◌==◌, List, [], ◌∷◌, ◌++◌, append-nil, append_assoc,
  update, update_self,
}
use wair_os.Ag71xx.{Skb, Buf, Ring, rx_ring_size}
use wair_os.Ag71xx.Rx.{
  Rx, RxHost, rx_reserve, rx_pkt_size, attach, give, link_rx, fill_rx, ring_rx_init, clean_rx,
}
use wair_os.Ag71xx.Prepared.{attach-other, fill_rx-next, filled}

abbrev pub in_slot : Option Skb → List Skb
in_slot none = []
in_slot (some s) = s ∷ []

-- The packets in the slots below `n`, in the order of the slots.
unfoldable pub packets_in : (ℕ → Buf) → ℕ → List Skb
packets_in f zero = []
packets_in f (suc n) = packets_in f n ++ in_slot (f n).skb

-- The packets that `dev_alloc_skb` gives in `calls` calls, from the n-th on.
unfoldable pub answers : RxHost → ℕ → ℕ → List Skb
answers h n zero = []
answers h n (suc calls) =
    in_slot (h.alloc_skb n (rx_pkt_size + rx_reserve h)) ++ answers h (n + 1) calls

clean_rx-next :
    (left i : ℕ) (f : ℕ → Buf)
    → clean_rx (suc left) i f ≡ in_slot (f i).skb ++ clean_rx left (i + 1) f
unfolding clean_rx
clean_rx-next left i f = elim (Option-cases (f i).skb) [
  | inl e ↦ rw (clean_rx, e) refl
  | inr p ↦ rw (clean_rx, p.1) refl
]

clean_rx-from :
    (left i : ℕ) (f : ℕ → Buf) → packets_in f i ++ clean_rx left i f ≡ packets_in f (i + left)
unfolding clean_rx packets_in
clean_rx-from zero i f = append-nil (packets_in f i) ∙ ap (packets_in f) (still i)
  where
    still : (i : ℕ) → i ≡ i + 0
    still i = omega arith
clean_rx-from (suc left) i f =
    ap (λ (l : List Skb). packets_in f i ++ l) (clean_rx-next left i f)
    ∙ sym (append_assoc (packets_in f i) (in_slot (f i).skb) (clean_rx left (i + 1) f))
    ∙ ap (λ (n : ℕ). packets_in f n ++ clean_rx left (i + 1) f) (next i)
    ∙ clean_rx-from left (i + 1) f
    ∙ ap (packets_in f) (along i left)
  where
    next : (i : ℕ) → suc i ≡ i + 1
    next i = omega arith

    along : (i left : ℕ) → i + 1 + left ≡ i + suc left
    along i left = omega arith

-- `ag71xx_ring_rx_clean` frees the packets of all slots.
pub clean_rx-packets_in : (f : ℕ → Buf) → clean_rx rx_ring_size 0 f ≡ packets_in f rx_ring_size
unfolding packets_in
clean_rx-packets_in f = clean_rx-from rx_ring_size 0 f

-- Slots without packets
clean_rx-none :
    (left i : ℕ) (f : ℕ → Buf) → ((j : ℕ) → i ≤ j → (f j).skb ≡ none) → clean_rx left i f ≡ []
unfolding clean_rx
clean_rx-none zero i f h = refl
clean_rx-none (suc left) i f h =
    clean_rx-next left i f
    ∙ rw (h i (omega arith)) (clean_rx-none left (i + 1) f (λ j from. h j (omega (arith, from))))

link_rx-skb :
    (left i size dma : ℕ) (f : ℕ → Buf) (j : ℕ) → (link_rx left i size dma f j).skb ≡ (f j).skb
unfolding link_rx
link_rx-skb zero i size dma f j = refl
link_rx-skb (suc left) i size dma f j =
    link_rx-skb left (i + 1) size dma _ j
    ∙ elim (Bool-cases (j == i)) [ inl e ↦ rw (e, (==_iff j i).0 e) refl | inr e ↦ rw e refl ]

-- What the second loop of ag71xx_ring_rx_init leaves in the slots from `i` on, and of the rest.
record Fills (h : RxHost) (left i : ℕ) (x y : Rx) : Type 0 where
  calls : ℕ
  allocs : y.allocs ≡ x.allocs + calls
  packets : clean_rx left i y.ring.buf ≡ answers h x.allocs calls
  freed : y.freed ≡ x.freed
  below : (j : ℕ) → j < i → y.ring.buf j ≡ x.ring.buf j

fill_rx-stops :
    (h : RxHost) (left i : ℕ) (x : Rx)
    → h.alloc_skb x.allocs (rx_pkt_size + rx_reserve h) ≡ none
    → fill_rx h (suc left) i x ≡ (false, record x { allocs = x.allocs + 1 })
unfolding fill_rx
fill_rx-stops h left i x e = rw (fill_rx, e) refl

attach-skb :
    (h : RxHost) (i : ℕ) (s : Skb) (r : Ring) → ((give i (attach h i s r)).buf i).skb ≡ some s
attach-skb h i s r = rw (update_self (update r.buf i _) i, update_self r.buf i) refl

filled-free :
    (h : RxHost) (i : ℕ) (s : Skb) (x : Rx)
    → ((j : ℕ) → i ≤ j → (x.ring.buf j).skb ≡ none)
    → (j : ℕ) → i + 1 ≤ j
    → ((filled h i s x).ring.buf j).skb ≡ none
unfolding filled
filled-free h i s x free j from =
    ap (λ (b : Buf). b.skb) (attach-other h i s x.ring j (λ e. omega (arith, e, from)))
    ∙ free j (omega (arith, from))

-- A turn that gets a packet, and the turns after it.
fill_rx-turn :
    (h : RxHost) (left i : ℕ) (x : Rx) (s : Skb) (y : Rx)
    → h.alloc_skb x.allocs (rx_pkt_size + rx_reserve h) ≡ some s
    → Fills h left (i + 1) (filled h i s x) y
    → Fills h (suc left) i x y
unfolding filled answers
fill_rx-turn h left i x s y e q =
    let here : (y.ring.buf i).skb ≡ some s =
      ap (λ (b : Buf). b.skb) (q.below i (omega arith)) ∙ attach-skb h i s x.ring in
    record {
      calls = suc q.calls;
      allocs = omega (arith, q.allocs);
      packets =
          clean_rx-next left i y.ring.buf ∙ rw (here, e) (ap (λ (l : List Skb). s ∷ l) q.packets);
      freed = q.freed;
      below = λ j lt.
          q.below j (omega (arith, lt)) ∙ attach-other h i s x.ring j (λ g. omega (arith, g, lt));
    }

fill_rx-Fills :
    (h : RxHost) (left i : ℕ) (x : Rx)
    → ((j : ℕ) → i ≤ j → (x.ring.buf j).skb ≡ none)
    → Fills h left i x (fill_rx h left i x).1
unfolding fill_rx clean_rx answers
fill_rx-Fills h zero i x free = record {
  calls = 0;
  allocs = omega arith;
  packets = refl;
  freed = refl;
  below = λ j lt. refl;
}
fill_rx-Fills h (suc left) i x free =
    elim (Option-cases (h.alloc_skb x.allocs (rx_pkt_size + rx_reserve h))) [
      | inl e ↦ rw (fill_rx-stops h left i x e) (record {
        calls = 1;
        allocs = refl;
        packets = clean_rx-none (suc left) i x.ring.buf free ∙ rw e refl;
        freed = refl;
        below = λ j lt. refl;
      })
      | inr p ↦ rw (fill_rx-next h left i x p.0 p.1) (
          fill_rx-turn h left i x p.0 _ p.1
            (fill_rx-Fills h left (i + 1) (filled h i p.0 x) (filled-free h i p.0 x free)))
    ]

-- After `ag71xx_ring_rx_init` on slots without packets, `ag71xx_ring_rx_clean` frees the packets
-- that `dev_alloc_skb` has given.
pub record Accounts (h : RxHost) (x y : Rx) : Type 0 where
  pub calls : ℕ
  pub allocs : y.allocs ≡ x.allocs + calls
  pub packets : clean_rx rx_ring_size 0 y.ring.buf ≡ answers h x.allocs calls
  pub freed : y.freed ≡ x.freed

pub ring_rx_init-Accounts :
    (h : RxHost) (x : Rx)
    → ((j : ℕ) → (x.ring.buf j).skb ≡ none)
    → Accounts h x (ring_rx_init h x).1
unfolding ring_rx_init
ring_rx_init-Accounts h x free =
    let r = x.ring in
    let q =
      fill_rx-Fills h rx_ring_size 0
        (record x {
          ring = record r { buf = link_rx rx_ring_size 0 r.desc_size r.descs_dma r.buf };
        })
        (λ j from. link_rx-skb rx_ring_size 0 r.desc_size r.descs_dma r.buf j ∙ free j) in
    record { calls = q.calls; allocs = q.allocs; packets = q.packets; freed = q.freed }
