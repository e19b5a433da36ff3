-- ===== src/Rtl8366rb/Codec.antt =====
-- The three words of an entry, and their fields.
use native.Mathlib.Nat.{mod-eq_of_lt}
use wair_os.Base.{
  ℕ, ◌+◌, ◌*◌, ◌%◌, ◌^◌, ◌<◌, ◌≡◌, arith, bit_and, ◌>>>◌, bit_and_mask, bit_or_above,
}
use wair_os.Vlan.{Mc, Vlan4k}
use wair_os.Vlan.View.{McFits, Vlan4kFits}
use wair_os.Rtl8366s.Words.{low_12, low_3, first_word_sum}
use wair_os.Rtl8366rb.{
  Words, mc_of, vlan_4k_of, mc_words, vlan_4k_words, second_word, word_untag, word_member,
}

low_8 : (x : ℕ) → bit_and x 0xff ≡ x % 256
low_8 x = bit_and_mask 8 x

-- The sixteen bits of each word.
abbrev pub kept : Words → Words
kept w = record { first = w.first % 2 ^ 16; second = w.second % 2 ^ 16; third = w.third % 2 ^ 16 }

module _ (member untag : ℕ) (hm : member < 256) (hu : untag < 256) where
  second_word_sum : second_word member untag ≡ untag * 256 + member
  second_word_sum =
      rw
        (
          low_8 member,
          low_8 untag,
          mod-eq_of_lt {n = member} {m = 256} hm,
          mod-eq_of_lt {n = untag} {m = 256} hu,
        )
        (bit_or_above 8 untag member hm)

  member_back : word_member (second_word member untag % 2 ^ 16) ≡ member
  member_back = omega (arith, second_word_sum, low_8 (second_word member untag % 2 ^ 16))

  untag_back : word_untag (second_word member untag % 2 ^ 16) ≡ untag
  untag_back = omega (arith, second_word_sum, low_8 ((second_word member untag % 2 ^ 16) >>> 8))

fid_back : (fid : ℕ) → fid < 8 → bit_and (bit_and fid 0x7 % 2 ^ 16) 0x7 ≡ fid
fid_back fid h = omega (arith, low_3 fid, low_3 (bit_and fid 0x7 % 2 ^ 16))

-- The five fields of an MC entry that fit come back from the three words that the driver writes.
pub mc_of-mc_words : (m : Mc) → McFits 256 m → mc_of (kept (mc_words m)) ≡ m
mc_of-mc_words m f = rw (
  vid_back,
  priority_back,
  untag_back m.member m.untag f.member_fits f.untag_fits,
  member_back m.member m.untag f.member_fits f.untag_fits,
  fid_back m.fid f.fid_fits,
)
  where
    x : ℕ
    x = (mc_words m).first % 2 ^ 16

    vid_back : bit_and x 0xfff ≡ m.vid
    vid_back = omega (arith, low_12 x, first_word_sum m.vid m.priority f.vid_fits f.priority_fits)

    priority_back : bit_and (x >>> 12) 0x7 ≡ m.priority
    priority_back =
        omega (arith, low_3 (x >>> 12), first_word_sum m.vid m.priority f.vid_fits f.priority_fits)

-- So do the fields of an entry of the 4K table.
pub vlan_4k_of-vlan_4k_words :
    (v : Vlan4k) → Vlan4kFits 256 v → vlan_4k_of v.vid (kept (vlan_4k_words v)) ≡ v
vlan_4k_of-vlan_4k_words v f = rw (
  untag_back v.member v.untag f.member_fits f.untag_fits,
  member_back v.member v.untag f.member_fits f.untag_fits,
  fid_back v.fid f.fid_fits,
)

-- What is read fits the fields.
pub mc_of-McFits : (w : Words) → McFits 256 (mc_of w)
mc_of-McFits w = omega (
  arith,
  low_12 w.first,
  low_3 (w.first >>> 12),
  low_8 (w.second >>> 8),
  low_8 w.second,
  low_3 w.third,
)

pub vlan_4k_of-Vlan4kFits : (v : ℕ) (w : Words) → v < 4096 → Vlan4kFits 256 (vlan_4k_of v w)
vlan_4k_of-Vlan4kFits v w h = omega (arith, low_8 (w.second >>> 8), low_8 w.second, low_3 w.third)
