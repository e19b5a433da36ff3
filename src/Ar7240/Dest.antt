-- ===== src/Ar7240/Dest.antt =====
-- The destination masks of ar7240_hw_apply in ag71xx_ar7240.c, and their bits in the word that
-- ar7240sw_setup_port writes.
use wair_os.Base.{
  ℕ, zero, suc, ◌+◌, ◌%◌, ◌^◌, ◌<◌, ◌≤◌, ◌≡◌, ◌≢◌, refl, ◌∙◌, ap, arith, bit, bit_and, bit_or,
  bit_or-zero, ◌<<◌, Bool, true, false, not, ◌&&◌, ◌||◌, ◌==◌, ==_iff, if◌then◌else◌, Bool-cases,
  inl, inr, has_bit, has_bit-or, has_bit-and, has_bit-above, has_bit-shift, has_bit-word, all_below,
  all_below_sound, agree, agree_sound, pow_mono, each-in,
}
use wair_os.Ar8216.{cleared}
use wair_os.Ar8216.Mii.{Regs}
use wair_os.Ar8216.Forward.{masks, next_mask, star}
use wair_os.Ar8216.Apply
use wair_os.Ar7240.{Sw, max_vlans, num_ports}
use wair_os.Ar7240.Apply.{port_mask_but, dest_mask, port_vlan_word, spread, isolate, load_vlans}

-- The masks are those of ar8216.c.
pub load_vlans-masks :
    {D : Type 0} (b : Regs D) (s : Sw) (left j : ℕ) (r : (ℕ → ℕ) × D)
    → (load_vlans b s left j r).0 ≡ masks s.vlan_table left j r.0
unfolding load_vlans masks spread Apply.spread
load_vlans-masks {D} b s zero j r = refl
load_vlans-masks {D} b s (suc left) j r =
    load_vlans-masks b s left (j + 1) _
    ∙ ap (masks s.vlan_table left (j + 1)) (both (s.vlan_table j == 0) _ _)
  where
    both : (c : Bool) (x y : (ℕ → ℕ) × D) → (if c then x else y).0 ≡ (if c then x.0 else y.0)
    both true x y = refl
    both false x y = refl

-- The bits of the destination word.
but_fits : ℕ → ℕ → Bool
but_fits i q = agree (has_bit (port_mask_but i) q) (not (q == i))

but_table : all_below 6 (λ i. all_below 6 (but_fits i)) ≡ true
unfolding all_below but_fits agree
but_table = refl

star_fits : ℕ → ℕ → Bool
star_fits i q = agree (has_bit (dest_mask i 0) q) (star i q)

star_table : all_below 6 (λ i. all_below 6 (star_fits i)) ≡ true
unfolding all_below star_fits agree
star_table = refl

apart_fits : ℕ → ℕ → Bool
apart_fits i q = agree (has_bit (dest_mask i (isolate num_ports 0 (λ n. 0) i)) q) (star i q)

apart_table : all_below 6 (λ i. all_below 6 (apart_fits i)) ≡ true
unfolding all_below apart_fits agree isolate
apart_table = refl

mode_away : ℕ → Bool
mode_away q = not (has_bit (3 << 30) (16 + q)) && not (has_bit (0 << 30) (16 + q))

mode_table : all_below 6 mode_away ≡ true
unfolding all_below mode_away
mode_table = refl

module _ (i q : ℕ) (hi : i < 6) (hq : q < 6) where
  has_bit-but : has_bit (port_mask_but i) q ≡ not (q == i)
  unfolding but_fits
  has_bit-but =
      let row = all_below_sound 6 (λ i. all_below 6 (but_fits i)) i but_table hi in
      agree_sound _ _ (all_below_sound 6 (but_fits i) q row hq)

  -- No mask of its own: the port talks to the CPU port, or is that port.
  pub dest-none : has_bit (dest_mask i 0) q ≡ star i q
  unfolding star_fits
  dest-none =
      let row = all_below_sound 6 (λ i. all_below 6 (star_fits i)) i star_table hi in
      agree_sound _ _ (all_below_sound 6 (star_fits i) q row hq)

  -- The masks of the loop that isolates the ports.
  pub dest-isolate : has_bit (dest_mask i (isolate num_ports 0 (λ n. 0) i)) q ≡ star i q
  unfolding apart_fits
  dest-isolate =
      let row = all_below_sound 6 (λ i. all_below 6 (apart_fits i)) i apart_table hi in
      agree_sound _ _ (all_below_sound 6 (apart_fits i) q row hq)

  pub dest-some : (m : ℕ) → m ≢ 0 → has_bit (dest_mask i m) q ≡ has_bit m q && not (q == i)
  dest-some m ne = elim (Bool-cases (m == 0)) [
    | inl e ↦ absurd (ne ((==_iff m 0).0 e))
    | inr e ↦
        rw e (has_bit-and m (port_mask_but i) q ∙ ap (λ (x : Bool). has_bit m q && x) has_bit-but)
  ]

  vid_away :
      (vid mode : ℕ)
      → vid < 4096
      → has_bit (mode << 30) (16 + q) ≡ false
      → has_bit (bit_or vid (mode << 30)) (16 + q) ≡ false
  vid_away vid mode fits away =
      let low : has_bit vid (16 + q) ≡ false =
        has_bit-above vid (16 + q) (omega (arith, fits, pow_mono 12 (16 + q) (omega arith))) in
      has_bit-or vid (mode << 30) (16 + q) ∙ rw (low, away) refl

  pub word_lem :
      (s : Sw) (m : ℕ)
      → (if s.vlan then s.vlan_id (s.pvid i) else i) < 4096
      → has_bit (port_vlan_word s i m % 2 ^ 32) (16 + q) ≡ has_bit (dest_mask i m) q
  unfolding mode_away
  word_lem s m fits =
      let away = all_below_sound 6 mode_away q mode_table hq in
      let vid : ℕ =
        (if s.vlan then bit_or (s.vlan_id (s.pvid i)) (3 << 30) else bit_or i (0 << 30)) in
      let none : has_bit vid (16 + q) ≡ false = elim (Bool-cases s.vlan) [
        | inl e ↦ rw e (vid_away (s.vlan_id (s.pvid i)) 3 (rw e at fits) (ground (arith, away)))
        | inr e ↦ rw e (vid_away i 0 (omega (arith, hi)) (ground (arith, away)))
      ] in
      has_bit-word _ (16 + q) (omega (arith, hq))
      ∙ has_bit-or vid (dest_mask i m << 16) (16 + q)
      ∙ ap (λ (x : Bool). x || has_bit (dest_mask i m << 16) (16 + q)) none
      ∙ has_bit-shift 16 q (dest_mask i m)

-- No VLAN of the table has the port and another one.
abbrev pub IsAlone : (ℕ → ℕ) → ℕ → Type 0
IsAlone t i = (v : ℕ) → v < max_vlans → has_bit (t v) i ≡ true → cleared (t v) i ≡ 0

-- The mask of such a port stays as it is.
module _ (t : ℕ → ℕ) (i : ℕ) (hi : i < 6) (alone : IsAlone t i) where
  next_mask-alone : (v : ℕ) (m : ℕ → ℕ) → v < max_vlans → next_mask (t v) m i ≡ m i
  unfolding Apply.spread
  next_mask-alone v m hv = elim (Bool-cases (t v == 0)) [
    | inl e ↦ rw e refl
    | inr e ↦ rw e (
        each-in _ num_ports 0 m i (omega arith) (omega (arith, hi))
        ∙ elim (Bool-cases (bit_and (t v) (bit i) == 0)) [
          | inl g ↦ rw g refl
          | inr g ↦
              let none = alone v hv (rw g refl) in rw g (ap (bit_or (m i)) none ∙ bit_or-zero (m i))
        ])
  ]

  pub masks-alone : (left j : ℕ) (m : ℕ → ℕ) → j + left ≤ max_vlans → masks t left j m i ≡ m i
  unfolding masks
  masks-alone zero j m h = refl
  masks-alone (suc left) j m h =
      masks-alone left (j + 1) (next_mask (t j) m) (omega (arith, h))
      ∙ next_mask-alone j m (omega (arith, h))
