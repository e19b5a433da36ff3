-- ===== src/Rtl8366/Listing.antt =====
-- The masks of a VLAN's ports against the list of ports that they stand for.
use wair_os.Base.{
  ℕ, zero, suc, ◌+◌, ◌<◌, ◌≤◌, ◌≡◌, refl, ◌∙◌, arith, ap, ◌==◌, if◌then◌else◌, Bool, true, false,
  not, ◌&&◌, List, [], ◌∷◌, bit, bit_and, bit_or, bit_or-lt, pow_mono, has_bit, has_bit-set,
  zero-has_bit,
}
use wair_os.Vlan.{Vlan4k}
use wair_os.Rtl8366.Handlers.{SwitchPort, tagged, ports_from}
use wair_os.Rtl8366.Ports.{AllBelow, member_mask, untag_mask}

-- Whether the list names port `q`, and whether it names it without the tagged flag.
abbrev pub named : List SwitchPort → ℕ → Bool
named [] q = false
named (p ∷ ps) q = if q == p.id then true else named ps q

abbrev pub untagged : List SwitchPort → ℕ → Bool
untagged [] q = false
untagged (p ∷ ps) q = if (q == p.id) && (bit_and p.flags tagged == 0) then true else untagged ps q

-- The named ports among the next `left` ones from `i` on, in order, once each, with their flags.
unfoldable pub listing : List SwitchPort → ℕ → ℕ → List SwitchPort
listing ps zero i = []
listing ps (suc left) i =
    let rest = listing ps left (i + 1) in
    if named ps i
    then record { id = i; flags = if untagged ps i then 0 else tagged } ∷ rest
    else rest

has_bit-member_mask :
    (ps : List SwitchPort) (m q : ℕ)
    → has_bit (member_mask ps m) q ≡ (if named ps q then true else has_bit m q)
has_bit-member_mask [] m q = refl
has_bit-member_mask (p ∷ ps) m q =
    has_bit-member_mask ps (bit_or m (bit p.id)) q
    ∙ ap (λ (x : Bool). if named ps q then true else x) (has_bit-set m p.id q)
    ∙ merge (q == p.id) (named ps q)
  where
    merge :
        (e n : Bool)
        → (if n then true else (if e then true else has_bit m q))
          ≡ (if (if e then true else n) then true else has_bit m q)
    merge true true = refl
    merge true false = refl
    merge false true = refl
    merge false false = refl

has_bit-untag_mask :
    (ps : List SwitchPort) (u q : ℕ)
    → has_bit (untag_mask ps u) q ≡ (if untagged ps q then true else has_bit u q)
has_bit-untag_mask [] u q = refl
has_bit-untag_mask (p ∷ ps) u q =
    has_bit-untag_mask ps (if bit_and p.flags tagged == 0 then bit_or u (bit p.id) else u) q
    ∙ merge (q == p.id) (bit_and p.flags tagged == 0) (untagged ps q) (has_bit-set u p.id q)
  where
    merge :
        (e f n : Bool)
        → has_bit (bit_or u (bit p.id)) q ≡ (if e then true else has_bit u q)
        → (if n then true else has_bit (if f then bit_or u (bit p.id) else u) q)
          ≡ (if (if e && f then true else n) then true else has_bit u q)
    merge true true true h = refl
    merge true true false h = h
    merge true false n h = refl
    merge false true true h = refl
    merge false true false h = h
    merge false false n h = refl

pub member_mask-lt :
    (n : ℕ) (ps : List SwitchPort) (m : ℕ) → n ≤ 6 → AllBelow n ps → m < 64 → member_mask ps m < 64
member_mask-lt n [] m h a lt = lt
member_mask-lt n (p ∷ ps) m h a lt =
    member_mask-lt n ps (bit_or m (bit p.id)) h (a.1)
      (bit_or-lt 6 m (bit p.id) lt (omega (arith, pow_mono p.id 5 (omega (arith, a.0)))))

pub untag_mask-lt :
    (n : ℕ) (ps : List SwitchPort) (u : ℕ) → n ≤ 6 → AllBelow n ps → u < 64 → untag_mask ps u < 64
untag_mask-lt n [] u h a lt = lt
untag_mask-lt n (p ∷ ps) u h a lt =
    untag_mask-lt n ps (if bit_and p.flags tagged == 0 then bit_or u (bit p.id) else u) h (a.1)
      (either (bit_and p.flags tagged == 0))
  where
    either : (f : Bool) → (if f then bit_or u (bit p.id) else u) < 64
    either true = bit_or-lt 6 u (bit p.id) lt (omega (arith, pow_mono p.id 5 (omega (arith, a.0))))
    either false = lt

-- The handler lists what the masks stand for.
pub ports_from-listing :
    (ps : List SwitchPort) (v : Vlan4k) (left i : ℕ)
    → v.member ≡ member_mask ps 0
    → v.untag ≡ untag_mask ps 0
    → ports_from v left i ≡ listing ps left i
unfolding ports_from listing
ports_from-listing ps v zero i hm hu = refl
ports_from-listing ps v (suc left) i hm hu =
    choose (bit_and v.member (bit i) == 0) (bit_and v.untag (bit i) == 0) (named ps i)
      (untagged ps i) is_member is_untagged (ports_from-listing ps v left (i + 1) hm hu)
  where
    no_more : (b : Bool) → (if b then true else has_bit 0 i) ≡ b
    no_more true = refl
    no_more false = zero-has_bit i

    is_member : not (bit_and v.member (bit i) == 0) ≡ named ps i
    is_member = ap (λ (m : ℕ). has_bit m i) hm ∙ has_bit-member_mask ps 0 i ∙ no_more (named ps i)

    is_untagged : not (bit_and v.untag (bit i) == 0) ≡ untagged ps i
    is_untagged =
        ap (λ (m : ℕ). has_bit m i) hu ∙ has_bit-untag_mask ps 0 i ∙ no_more (untagged ps i)

    choose :
        (m u n t : Bool) {xs ys : List SwitchPort}
        → not m ≡ n
        → not u ≡ t
        → xs ≡ ys
        → (if m then xs else (record { id = i; flags = if u then tagged else 0 } ∷ xs))
          ≡ (if n then (record { id = i; flags = if t then 0 else tagged } ∷ ys) else ys)
    choose true u true t a b c = cc
    choose true u false t a b c = c
    choose false true true true a b c = cc
    choose false true true false a b c = rw c
    choose false false true true a b c = rw c
    choose false false true false a b c = cc
    choose false u false t a b c = cc
