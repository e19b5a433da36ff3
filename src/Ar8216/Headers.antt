-- ===== src/Ar8216/Headers.antt =====
-- What the switch header of ar8216.c does to a packet.
use wair_os.Base.{
  ℕ, ◌+◌, ◌*◌, ◌/◌, ◌%◌, ◌<◌, ◌≤◌, ◌≡◌, ◌≢◌, refl, ◌∙◌, ap, arith, bit_and, bit_or, ◌>>>◌, Bool,
  true, false, ◌==◌, ==_iff, some, ltb, update, update_self, update_ne, has_bit, all_below,
  all_below_sound, bit_and_mask, bit_or_below,
}
use wair_os.Ag71xx.{Skb, skb_pull}
use wair_os.Ar8216.{Priv}
use wair_os.Ar8216.Mangle.{passed, retagged, mangle_rx}

top_fits : ℕ → Bool
top_fits b = bit_and b 0xf0 == b / 16 * 16

top_table : all_below 256 top_fits ≡ true
unfolding all_below top_fits
top_table = refl

top_nibble : (b : ℕ) → b < 256 → bit_and b 0xf0 ≡ b / 16 * 16
unfolding top_fits
top_nibble b h = (==_iff _ _).0 (all_below_sound 256 top_fits b top_table h)

-- The tag of a packet: its priority bits, and its VID.
abbrev pub priority_of : Skb → ℕ
priority_of s = s.bytes 14 / 16

abbrev pub vid_of : Skb → ℕ
vid_of s = s.bytes 14 % 16 * 256 + s.bytes 15

-- The packet `r` is `s` without the header and with another VID.
pub record Revlaned (vid : ℕ) (s r : Skb) : Type 0 where
  pub length : r.len + 2 ≡ s.len
  pub vid_is : vid_of r ≡ vid
  pub priority : priority_of r ≡ s.bytes 16 / 16
  pub others : (k : ℕ) → k ≢ 14 → k ≢ 15 → r.bytes k ≡ s.bytes (k + 2)

revlaned_lem :
    (vid : ℕ) (s : Skb)
    → vid < 4096
    → s.bytes 16 < 256
    → 2 ≤ s.len
    → Revlaned vid s (skb_pull 2 (record s { bytes = retagged vid s.bytes }))
revlaned_lem vid s fits byte long =
    let short : ltb s.len 2 ≡ false = ground arith in
    let buf = s.bytes in
    let high = bit_or (bit_and (buf 16) 0xf0) ((vid >>> 8) % 256) % 256 in
    let at_16 : retagged vid buf 16 ≡ high =
      update_ne (update buf 16 high) 17 16 (bit_and vid 0xff) (λ e. omega (arith, e))
      ∙ update_self buf 16 high in
    let at_17 : retagged vid buf 17 ≡ bit_and vid 0xff =
      update_self (update buf 16 high) 17 (bit_and vid 0xff) in
    let joined : high ≡ buf 16 / 16 * 16 + vid / 256 = rw (top_nibble (buf 16) byte) (
      ap (λ (x : ℕ). x % 256)
        (bit_or_below 4 (buf 16 / 16) ((vid >>> 8) % 256) (omega (arith, fits)))
      ∙ omega (arith, fits, byte)) in
    let low : bit_and vid 0xff ≡ vid % 256 = bit_and_mask 8 vid in
    rw short (record {
      length = omega (arith, long);
      vid_is = omega (arith, at_16, at_17, joined, low, fits);
      priority = omega (arith, at_16, joined, fits);
      others = λ k n m.
          update_ne (update buf 16 high) 17 (k + 2) (bit_and vid 0xff) (λ e. omega (arith, e, m))
          ∙ update_ne buf 16 (k + 2) high (λ e. omega (arith, e, n));
    })

-- With VLANs on, `ar8216_mangle_rx` passes a packet with the header and an 802.1Q tag on without
-- the header. When the tag flag of its port is off, the packet gets the VID of the PVID of that
-- port, and keeps its priority bits and all other bytes.
pub mangle_rx-Revlaned :
    (p : Priv) (s : Skb)
    → p.vlan ≡ true
    → s.bytes 14 ≡ 0x81
    → s.bytes 15 ≡ 0
    → has_bit p.vlan_tagged (bit_and (s.bytes 0) 0xf) ≡ false
    → p.vlan_id (p.pvid (bit_and (s.bytes 0) 0xf)) < 4096
    → s.bytes 16 < 256
    → 2 ≤ s.len
    → (r : Skb) × (mangle_rx (some p) s ≡ passed r)
      × Revlaned (p.vlan_id (p.pvid (bit_and (s.bytes 0) 0xf))) s r
unfolding mangle_rx
mangle_rx-Revlaned p s on first second free fits byte long =
    let vid = p.vlan_id (p.pvid (bit_and (s.bytes 0) 0xf)) in
    (
      skb_pull 2 (record s { bytes = retagged vid s.bytes }),
      simp (on, first, second, free),
      revlaned_lem vid s fits byte long,
    )
