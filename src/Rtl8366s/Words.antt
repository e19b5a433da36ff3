-- ===== src/Rtl8366s/Words.antt =====
-- The two words of an entry, and their fields.
use native.Mathlib.Nat.{mod-eq_of_lt}
use wair_os.Base.{
  ℕ, ◌+◌, ◌*◌, ◌%◌, ◌^◌, ◌<◌, ◌≡◌, arith, bit_and, ◌>>>◌, bit_and_mask, bit_or_above,
}
use wair_os.Vlan.{Mc, Vlan4k}
use wair_os.Vlan.View.{McFits, Vlan4kFits}
use wair_os.Rtl8366s.{
  first_word, second_word, word_vid, word_priority, word_untag, word_member, word_fid,
}
use wair_os.Rtl8366s.Asic.{decode_mc, decode_4k}

pub low_12 : (x : ℕ) → bit_and x 0xfff ≡ x % 4096
low_12 x = bit_and_mask 12 x

pub low_6 : (x : ℕ) → bit_and x 0x3f ≡ x % 64
low_6 x = bit_and_mask 6 x

pub low_4 : (x : ℕ) → bit_and x 0xf ≡ x % 16
low_4 x = bit_and_mask 4 x

pub low_3 : (x : ℕ) → bit_and x 0x7 ≡ x % 8
low_3 x = bit_and_mask 3 x

pub first_word_sum :
    (vid priority : ℕ) → vid < 4096 → priority < 8 → first_word vid priority ≡ priority * 4096 + vid
first_word_sum vid priority hv hp =
    rw
      (
        low_12 vid,
        low_3 priority,
        mod-eq_of_lt {n = vid} {m = 4096} hv,
        mod-eq_of_lt {n = priority} {m = 8} hp,
      )
      (bit_or_above 12 priority vid hv)

pub second_word_sum :
    (member untag fid : ℕ)
    → member < 64
    → untag < 64
    → fid < 8
    → second_word member untag fid ≡ fid * 4096 + untag * 64 + member
second_word_sum member untag fid hm hu hf =
    rw
      (
        low_6 member,
        low_6 untag,
        low_3 fid,
        mod-eq_of_lt {n = member} {m = 64} hm,
        mod-eq_of_lt {n = untag} {m = 64} hu,
        mod-eq_of_lt {n = fid} {m = 8} hf,
        bit_or_above 6 untag member hm,
      )
      (omega (arith, bit_or_above 12 fid (untag * 64 + member) (omega arith)))

-- The fields of a first word, and of a second word.
module _ (vid priority x : ℕ) (hv : vid < 4096) (hp : priority < 8)
    (e : x ≡ priority * 4096 + vid) where
  vid_back : word_vid x ≡ vid
  vid_back = omega (arith, low_12 x)

  priority_back : word_priority x ≡ priority
  priority_back = omega (arith, low_3 (x >>> 12))

module _ (member untag fid x : ℕ) (hm : member < 64) (hu : untag < 64) (hf : fid < 8)
    (e : x ≡ fid * 4096 + untag * 64 + member) where
  member_back : word_member x ≡ member
  member_back = omega (arith, low_6 x)

  untag_back : word_untag x ≡ untag
  untag_back = omega (arith, low_6 (x >>> 6))

  fid_back : word_fid x ≡ fid
  fid_back = omega (arith, low_3 (x >>> 12))

first_word_kept :
    (vid priority : ℕ)
    → vid < 4096
    → priority < 8
    → first_word vid priority % 2 ^ 16 ≡ priority * 4096 + vid
first_word_kept vid priority hv hp = omega (arith, first_word_sum vid priority hv hp)

second_word_kept :
    (member untag fid : ℕ)
    → member < 64
    → untag < 64
    → fid < 8
    → second_word member untag fid % 2 ^ 16 ≡ fid * 4096 + untag * 64 + member
second_word_kept member untag fid hm hu hf =
    omega (arith, second_word_sum member untag fid hm hu hf)

-- The five fields of an MC entry that fit come back from the two words that the driver writes.
pub decode_mc-encode :
    (m : Mc)
    → McFits 64 m
    → decode_mc (first_word m.vid m.priority % 2 ^ 16) (second_word m.member m.untag m.fid % 2 ^ 16)
      ≡ m
decode_mc-encode m f = rw (
  vid_back m.vid m.priority x f.vid_fits f.priority_fits hx,
  priority_back m.vid m.priority x f.vid_fits f.priority_fits hx,
  untag_back m.member m.untag m.fid y f.member_fits f.untag_fits f.fid_fits hy,
  member_back m.member m.untag m.fid y f.member_fits f.untag_fits f.fid_fits hy,
  fid_back m.member m.untag m.fid y f.member_fits f.untag_fits f.fid_fits hy,
)
  where
    x : ℕ
    x = first_word m.vid m.priority % 2 ^ 16

    y : ℕ
    y = second_word m.member m.untag m.fid % 2 ^ 16

    hx : x ≡ m.priority * 4096 + m.vid
    hx = first_word_kept m.vid m.priority f.vid_fits f.priority_fits

    hy : y ≡ m.fid * 4096 + m.untag * 64 + m.member
    hy = second_word_kept m.member m.untag m.fid f.member_fits f.untag_fits f.fid_fits

-- So do the fields of an entry of the 4K table from its second word.
pub decode_4k-encode :
    (v : Vlan4k)
    → Vlan4kFits 64 v
    → decode_4k v.vid (second_word v.member v.untag v.fid % 2 ^ 16) ≡ v
decode_4k-encode v f = rw (
  untag_back v.member v.untag v.fid y f.member_fits f.untag_fits f.fid_fits hy,
  member_back v.member v.untag v.fid y f.member_fits f.untag_fits f.fid_fits hy,
  fid_back v.member v.untag v.fid y f.member_fits f.untag_fits f.fid_fits hy,
)
  where
    y : ℕ
    y = second_word v.member v.untag v.fid % 2 ^ 16

    hy : y ≡ v.fid * 4096 + v.untag * 64 + v.member
    hy = second_word_kept v.member v.untag v.fid f.member_fits f.untag_fits f.fid_fits

-- What is read fits the fields.
pub decode_mc-McFits : (x y : ℕ) → McFits 64 (decode_mc x y)
decode_mc-McFits x y =
    omega (arith, low_12 x, low_3 (x >>> 12), low_6 (y >>> 6), low_6 y, low_3 (y >>> 12))

pub decode_4k-Vlan4kFits : (v y : ℕ) → v < 4096 → Vlan4kFits 64 (decode_4k v y)
decode_4k-Vlan4kFits v y h = omega (arith, low_6 (y >>> 6), low_6 y, low_3 (y >>> 12))
