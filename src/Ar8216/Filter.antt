-- ===== src/Ar8216/Filter.antt =====
-- When the destination bits of the ports and the words of the translation unit together let a packet
-- through, over any table of VLANs.
use wair_os.Base.{
  ℕ, zero, suc, ◌<◌, ◌≡◌, ◌≢◌, ◌⊎◌, ◌↔◌, refl, ◌∙◌, ap, arith, bit_and, Bool, true, false, not,
  ◌&&◌, ◌||◌, ◌==◌, ==_iff, Bool-cases, inl, inr, has_bit, has_bit-or, has_bit-and, has_bit-word,
  zero-has_bit, all_below, all_below_sound,
}
use wair_os.Ar8216.Apply.{vtudata_member, vtudata_valid}
use wair_os.Ar8216.Vtu.{member_word}
use wair_os.Ar8216.Forward.{share}

-- No two VLANs with members have one id.
abbrev pub IsDistinct : (ℕ → ℕ) → (ℕ → ℕ) → ℕ → Type 0
IsDistinct ids t n = (u v : ℕ) → u < n → v < n → t u ≢ 0 → t v ≢ 0 → ids u ≡ ids v → u ≡ v

-- Of `n` VLANs with the ids `ids` and the members `t`, one with the id `vid` has both ports, which
-- differ, as members.
pub record Carries (ids t : ℕ → ℕ) (n vid i q : ℕ) : Type 0 where
  pub at : ℕ
  pub below : at < n
  pub id : ids at ≡ vid
  pub members : share (t at) i q ≡ true

-- The digits of the ports in the word of a VLAN.
plain : ℕ → Bool
plain q = has_bit vtudata_member q && not (has_bit vtudata_valid q)

plain_table : all_below 6 plain ≡ true
unfolding all_below plain
plain_table = refl

word-member : (val q : ℕ) → q < 6 → has_bit (member_word val) q ≡ has_bit val q
unfolding plain
word-member val q hq =
    let h = all_below_sound 6 plain q plain_table hq in
    has_bit-word _ q (omega (arith, hq))
    ∙ has_bit-or (bit_and val vtudata_member) vtudata_valid q
    ∙ ap (λ (x : Bool). x || has_bit vtudata_valid q) (has_bit-and val vtudata_member q)
    ∙ ground (arith, h)

word-valid : (val : ℕ) → has_bit (member_word val) 11 ≡ true
word-valid val =
    has_bit-word _ 11 (omega arith)
    ∙ has_bit-or (bit_and val vtudata_member) vtudata_valid 11
    ∙ last (has_bit (bit_and val vtudata_member) 11)
  where
    last : (x : Bool) → x || has_bit vtudata_valid 11 ≡ true
    last true = refl
    last false = refl

share-some : (vp i q : ℕ) → share vp i q ≡ true → vp ≢ 0
share-some vp i q h e =
    let empty : share 0 i q ≡ false = rw (zero-has_bit i) refl in
    cc (h, empty, ap (λ (x : ℕ). share x i q) e)

module _ (ids t : ℕ → ℕ) (vid : ℕ) where
  -- A VLAN with members that has the id.
  record Named (n : ℕ) : Type 0 where
    at : ℕ
    below : at < n
    full : t at ≢ 0
    id : ids at ≡ vid

  abbrev Nameless : ℕ → Type 0
  Nameless n = (u : ℕ) → u < n → t u ≢ 0 → ids u ≢ vid

  wider : (n : ℕ) → Named n → Named (suc n)
  wider n f = record { at = f.at; below = omega (arith, f.below); full = f.full; id = f.id }

  find : (n : ℕ) → Named n ⊎ Nameless n
  find zero = inr (λ u lt. absurd (omega (arith, lt)))
  find (suc n) = elim (find n) [
    | inl f ↦ inl (wider n f)
    | inr none ↦ elim (Bool-cases (not (t n == 0) && (ids n == vid))) [
      | inl e ↦ inl (record {
        at = n;
        below = omega arith;
        full = λ g. ground (arith, e, g);
        id = ground (arith, e);
      })
      | inr e ↦ inr (λ u lt full same. elim (Bool-cases (u == n)) [
        | inl g ↦
            let here : u ≡ n = (==_iff u n).0 g in
            let same' : ids n ≡ vid = rw here at same in full (ap t here ∙ ground (arith, e, same'))
        | inr g ↦
            let away : u ≢ n = λ f. cc (g, (==_iff u n).1 f) in
            none u (omega (arith, lt, away)) full same
      ])
    ]
  ]

-- What the destination bit and the word of the VLAN in the translation unit have to be.
pub record Programmed (ids t : ℕ → ℕ) (n vid i q : ℕ) (dest : Bool) (word : ℕ) : Type 0 where
  pub own : (u : ℕ) → u < n → t u ≢ 0 → ids u ≡ vid → word ≡ member_word (t u)
  pub other : ((u : ℕ) → u < n → t u ≢ 0 → ids u ≢ vid) → word ≡ 0
  pub apart : dest ≡ true → (q == i) ≡ false
  pub met : (u : ℕ) → u < n → share (t u) i q ≡ true → dest ≡ true

module _ (ids t : ℕ → ℕ) (n vid i q : ℕ) (hi : i < 6) (hq : q < 6) (dest : Bool) (word : ℕ) where
  abbrev through : Bool
  through = dest && (has_bit word 11 && (has_bit word i && has_bit word q))

  through_sound : Programmed ids t n vid i q dest word → through ≡ true → Carries ids t n vid i q
  through_sound p h = elim (find ids t vid n) [
    | inl f ↦
        let same : word ≡ member_word (t f.at) = p.own f.at f.below f.full f.id in
        let one : has_bit word i ≡ has_bit (t f.at) i =
          ap (λ (x : ℕ). has_bit x i) same ∙ word-member (t f.at) i hi in
        let two : has_bit word q ≡ has_bit (t f.at) q =
          ap (λ (x : ℕ). has_bit x q) same ∙ word-member (t f.at) q hq in
        let to : dest ≡ true = ground (arith, h) in
        let apart = p.apart to in
        record {
          at = f.at;
          below = f.below;
          id = f.id;
          members = ground (arith, h, one, two, apart);
        }
    | inr none ↦
        let empty : has_bit word 11 ≡ false =
          ap (λ (x : ℕ). has_bit x 11) (p.other none) ∙ zero-has_bit 11 in
        absurd (ground (arith, h, empty))
  ]

  through_complete : Programmed ids t n vid i q dest word → Carries ids t n vid i q → through ≡ true
  through_complete p c =
      let same = p.own c.at c.below (share-some (t c.at) i q c.members) c.id in
      let to = p.met c.at c.below c.members in
      let valid : has_bit word 11 ≡ true =
        ap (λ (x : ℕ). has_bit x 11) same ∙ word-valid (t c.at) in
      let one : has_bit word i ≡ has_bit (t c.at) i =
        ap (λ (x : ℕ). has_bit x i) same ∙ word-member (t c.at) i hi in
      let two : has_bit word q ≡ has_bit (t c.at) q =
        ap (λ (x : ℕ). has_bit x q) same ∙ word-member (t c.at) q hq in
      let both = c.members in ground (arith, to, valid, one, two, both)

  pub through_iff :
      Programmed ids t n vid i q dest word → (through ≡ true) ↔ Carries ids t n vid i q
  through_iff p = (through_sound p, through_complete p)
