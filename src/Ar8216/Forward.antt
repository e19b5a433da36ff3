-- ===== src/Ar8216/Forward.antt =====
-- The destination masks that ar8216_hw_apply of ar8216.c computes.
use wair_os.Base.{
  ℕ, zero, suc, ◌+◌, ◌<◌, ◌≤◌, ◌≡◌, ◌≢◌, ◌⊎◌, ◌↔◌, refl, sym, ◌∙◌, ap, arith, bit_and, bit, Bool,
  true, false, not, ◌&&◌, ◌||◌, ◌==◌, ==_iff, if◌then◌else◌, Bool-cases, inl, inr, each-in, has_bit,
  has_bit-or, zero-has_bit, all_below, all_below_sound, agree, agree_sound,
}
use wair_os.Ar8216.{Priv, max_vlans, num_ports, port_cpu, cleared}
use wair_os.Ar8216.Mii.{Regs}
use wair_os.Ar8216.Apply.{spread, isolate, load_vlans}
use wair_os.Ar8216.Members.{has_bit-cleared}

-- Ports `i` and `k` are members of the VLAN with the ports `vp`.
abbrev pub share : ℕ → ℕ → ℕ → Bool
share vp i k = has_bit vp i && has_bit vp k && not (k == i)

spread_lem :
    (vp : ℕ) (m : ℕ → ℕ) (i k : ℕ)
    → i < 6
    → k < 6
    → has_bit (spread vp m i) k ≡ has_bit (m i) k || share vp i k
unfolding spread
spread_lem vp m i k hi hk =
    ap (λ (x : ℕ). has_bit x k) (each-in _ num_ports 0 m i (omega arith) (omega (arith, hi)))
    ∙ elim (Bool-cases (bit_and vp (bit i) == 0)) [
      | inl e ↦ rw e (no_more (has_bit (m i) k))
      | inr e ↦ rw e (
          has_bit-or (m i) (cleared vp i) k
          ∙ ap (λ (b : Bool). has_bit (m i) k || b) (has_bit-cleared vp i k hi hk))
    ]
  where
    no_more : (b : Bool) → b ≡ b || false
    no_more true = refl
    no_more false = refl

-- The masks after one turn of the loop over the VLANs, and after `left` turns from `j` on.
abbrev pub next_mask : ℕ → (ℕ → ℕ) → ℕ → ℕ
next_mask vp m = if vp == 0 then m else spread vp m

unfoldable pub masks : (ℕ → ℕ) → ℕ → ℕ → (ℕ → ℕ) → ℕ → ℕ
masks t zero j m = m
masks t (suc left) j m = masks t left (j + 1) (next_mask (t j) m)

pub load_vlans-masks :
    {D : Type 0} (b : Regs D) (p : Priv) (left j : ℕ) (s : (ℕ → ℕ) × D)
    → (load_vlans b p left j s).0 ≡ masks p.vlan_table left j s.0
unfolding load_vlans masks
load_vlans-masks {D} b p zero j s = refl
load_vlans-masks {D} b p (suc left) j s =
    load_vlans-masks b p left (j + 1) _
    ∙ ap (masks p.vlan_table left (j + 1)) (both (p.vlan_table j == 0) _ _)
  where
    both : (e : Bool) (x y : (ℕ → ℕ) × D) → (if e then x else y).0 ≡ (if e then x.0 else y.0)
    both true x y = refl
    both false x y = refl

-- Ports `i` and `k` are members of one VLAN of the table `t`, of `left` VLANs from `j` on.
pub record Joined (t : ℕ → ℕ) (left j i k : ℕ) : Type 0 where
  pub at : ℕ
  pub from : j ≤ at
  pub below : at < j + left
  pub members : share (t at) i k ≡ true

module _ (t : ℕ → ℕ) (i k : ℕ) (hi : i < 6) (hk : k < 6) where
  next_mask_lem :
      (vp : ℕ) (m : ℕ → ℕ) → has_bit (next_mask vp m i) k ≡ has_bit (m i) k || share vp i k
  next_mask_lem vp m = elim (Bool-cases (vp == 0)) [
    | inl e ↦
        let unshared : share vp i k ≡ false = rw ((==_iff vp 0).0 e, zero-has_bit i) refl in
        rw (e, unshared) (no_more (has_bit (m i) k))
    | inr e ↦ rw e (spread_lem vp m i k hi hk)
  ]
    where
      no_more : (b : Bool) → b ≡ b || false
      no_more true = refl
      no_more false = refl

  pub masks_sound :
      (left j : ℕ) (m : ℕ → ℕ)
      → has_bit (masks t left j m i) k ≡ true
      → (has_bit (m i) k ≡ true) ⊎ Joined t left j i k
  unfolding masks
  masks_sound zero j m h = inl h
  masks_sound (suc left) j m h = elim (masks_sound left (j + 1) (next_mask (t j) m) h) [
    | inr q ↦ inr (record {
      at = q.at;
      from = omega (arith, q.from);
      below = omega (arith, q.below);
      members = q.members;
    })
    | inl q ↦ elim (Bool-cases (share (t j) i k)) [
      | inl e ↦ inr (record { at = j; from = omega arith; below = omega arith; members = e })
      | inr e ↦
          let now : has_bit (m i) k || share (t j) i k ≡ true = sym (next_mask_lem (t j) m) ∙ q in
          inl (ground (arith, now, e))
    ]
  ]

  masks-kept :
      (left j : ℕ) (m : ℕ → ℕ) → has_bit (m i) k ≡ true → has_bit (masks t left j m i) k ≡ true
  unfolding masks
  masks-kept zero j m h = h
  masks-kept (suc left) j m h =
      masks-kept left (j + 1) (next_mask (t j) m) (next_mask_lem (t j) m ∙ rw h refl)

  pub masks_complete :
      (left j : ℕ) (m : ℕ → ℕ) → Joined t left j i k → has_bit (masks t left j m i) k ≡ true
  unfolding masks
  masks_complete zero j m q = absurd (omega (arith, q.from, q.below))
  masks_complete (suc left) j m q = elim (Bool-cases (q.at == j)) [
    | inl e ↦
        let here : share (t j) i k ≡ true = rw (sym ((==_iff q.at j).0 e)) q.members in
        masks-kept left (j + 1) (next_mask (t j) m) (next_mask_lem (t j) m ∙ ground (arith, here))
    | inr e ↦
        let other : q.at ≢ j = λ f. cc (e, (==_iff q.at j).1 f) in
        masks_complete left (j + 1) (next_mask (t j) m) (record {
          at = q.at;
          from = omega (arith, q.from, other);
          below = omega (arith, q.below);
          members = q.members;
        })
  ]

  -- Port `k` is a destination of port `i` when the ports are members of one VLAN.
  pub masks_iff : (has_bit (masks t max_vlans 0 (λ n. 0) i) k ≡ true) ↔ Joined t max_vlans 0 i k
  masks_iff = (
    λ h. elim (masks_sound max_vlans 0 (λ n. 0) h) [
      | inl e ↦ absurd (cc (e, zero-has_bit k))
      | inr q ↦ q
    ],
    masks_complete max_vlans 0 (λ n. 0),
  )

-- Without VLANs every port is joined to the CPU port, and to no other.
abbrev pub star : ℕ → ℕ → Bool
star i k = not (i == k) && ((i == port_cpu) || (k == port_cpu))

star_fits : ℕ → ℕ → Bool
star_fits i k = agree (has_bit (isolate num_ports 0 (λ n. 0) i) k) (star i k)

star_table : all_below 6 (λ i. all_below 6 (star_fits i)) ≡ true
unfolding all_below star_fits agree isolate
star_table = refl

pub isolate_lem : (i k : ℕ) → i < 6 → k < 6 → has_bit (isolate num_ports 0 (λ n. 0) i) k ≡ star i k
unfolding star_fits
isolate_lem i k hi hk =
    let row = all_below_sound 6 (λ i. all_below 6 (star_fits i)) i star_table hi in
    agree_sound _ _ (all_below_sound 6 (star_fits i) k row hk)
