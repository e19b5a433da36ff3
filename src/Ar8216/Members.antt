-- ===== src/Ar8216/Members.antt =====
-- What ar8216_set_ports of ar8216.c leaves in the tables, port by port.
use wair_os.Base.{
  ℕ, ◌-◌, ◌^◌, ◌<◌, ◌≡◌, ◌≢◌, refl, ◌∙◌, ap, arith, bit_and, bit, Bool, true, false, not, ◌&&◌,
  ◌==◌, if◌then◌else◌, ==_iff, Bool-cases, inl, inr, List, [], ◌∷◌, update_self, update_ne, each-in,
  has_bit, has_bit-set, has_bit-and, has_bit-without, has_bit-byte,
}
use wair_os.Rtl8366.Handlers.{SwitchPort, tagged}
use wair_os.Rtl8366.Ports.{AllBelow}
use wair_os.Rtl8366.Listing.{named, untagged}
use wair_os.Ar8216.{Priv, max_vlans, cleared, marked, drop, place, join, place_all}

pub has_bit-cleared :
    (x i q : ℕ) → i < 6 → q < 6 → has_bit (cleared x i) q ≡ has_bit x q && not (q == i)
has_bit-cleared x i q hi hq =
    has_bit-and x (2 ^ 32 - 1 - bit i) q
    ∙ ap (λ (b : Bool). has_bit x q && b)
        (has_bit-without i q (omega (arith, hi)) (omega (arith, hq)))

has_bit-marked :
    (x i q : ℕ) → q < 6 → has_bit (marked x i) q ≡ (if q == i then true else has_bit x q)
has_bit-marked x i q hq = has_bit-byte _ q (omega (arith, hq)) ∙ has_bit-set x i q

drop-own : (vlan id : ℕ) (t : ℕ → ℕ) → vlan < max_vlans → drop vlan id t vlan ≡ t vlan
unfolding drop
drop-own vlan id t h =
    each-in _ max_vlans 0 t vlan (omega arith) (omega (arith, h))
    ∙ rw ((==_iff vlan vlan).1 refl) refl

drop-other :
    (vlan id : ℕ) (t : ℕ → ℕ) (v : ℕ)
    → v < max_vlans
    → v ≢ vlan
    → drop vlan id t v ≡ cleared (t v) id
unfolding drop
drop-other vlan id t v h ne =
    each-in _ max_vlans 0 t v (omega arith) (omega (arith, h)) ∙ elim (Bool-cases (v == vlan)) [
      | inl e ↦ absurd (ne ((==_iff v vlan).0 e))
      | inr e ↦ rw e refl
    ]

-- The tagged flag that port `q` has in the end.
abbrev pub last_tag : List SwitchPort → ℕ → Bool → Bool
last_tag [] q t = t
last_tag (p ∷ ps) q t = last_tag ps q (if q == p.id then not (bit_and p.flags tagged == 0) else t)

-- What the loop makes of port `q`, from `p` to `r`.
pub record Placed (vlan : ℕ) (ps : List SwitchPort) (q : ℕ) (p r : Priv) : Type 0 where
  pub own :
      has_bit (r.vlan_table vlan) q ≡ (if named ps q then true else has_bit (p.vlan_table vlan) q)
  pub others :
      (v : ℕ)
      → v < max_vlans
      → v ≢ vlan
      → has_bit (r.vlan_table v) q ≡ has_bit (p.vlan_table v) q && not (untagged ps q)
  pub tags : has_bit r.vlan_tagged q ≡ last_tag ps q (has_bit p.vlan_tagged q)
  pub pvids : r.pvid q ≡ (if untagged ps q then vlan else p.pvid q)

module _ (vlan : ℕ) (hvlan : vlan < max_vlans) (port : SwitchPort) (hi : port.id < 6) (p : Priv)
    (q : ℕ) (hq : q < 6) where
  abbrev untagged_now : Bool
  untagged_now = bit_and port.flags tagged == 0

  stepped : Priv
  stepped = join vlan port.id (place vlan port p)

  placed_own :
      has_bit (stepped.vlan_table vlan) q
      ≡ (if q == port.id then true else has_bit (p.vlan_table vlan) q)
  unfolding stepped join place
  placed_own =
      ap (λ (x : ℕ). has_bit x q) (update_self (place vlan port p).vlan_table vlan _)
      ∙ has_bit-marked ((place vlan port p).vlan_table vlan) port.id q hq
      ∙ ap (λ (x : ℕ). if q == port.id then true else has_bit x q) same
    where
      same : (place vlan port p).vlan_table vlan ≡ p.vlan_table vlan
      same = elim (Bool-cases untagged_now) [
        | inl e ↦ rw e (drop-own vlan port.id p.vlan_table hvlan)
        | inr e ↦ rw e refl
      ]

  placed_others :
      (v : ℕ)
      → v < max_vlans
      → v ≢ vlan
      → has_bit (stepped.vlan_table v) q
        ≡ has_bit (p.vlan_table v) q && not ((q == port.id) && untagged_now)
  unfolding stepped join place
  placed_others v hv ne =
      ap (λ (x : ℕ). has_bit x q) (update_ne (place vlan port p).vlan_table vlan v _ ne)
      ∙ elim (Bool-cases untagged_now) [
        | inl e ↦ rw e (
            ap (λ (x : ℕ). has_bit x q) (drop-other vlan port.id p.vlan_table v hv ne)
            ∙ has_bit-cleared (p.vlan_table v) port.id q hi hq
            ∙ both (has_bit (p.vlan_table v) q) (q == port.id))
        | inr e ↦ rw e (neither (has_bit (p.vlan_table v) q) (q == port.id))
      ]
    where
      both : (a b : Bool) → a && not b ≡ a && not (b && true)
      both a true = refl
      both a false = refl

      neither : (a b : Bool) → a ≡ a && not (b && false)
      neither true true = refl
      neither true false = refl
      neither false b = refl

  placed_tags :
      has_bit stepped.vlan_tagged q
      ≡ (if q == port.id then not untagged_now else has_bit p.vlan_tagged q)
  unfolding stepped join place
  placed_tags = elim (Bool-cases untagged_now) [
    | inl e ↦ rw e (
        has_bit-cleared p.vlan_tagged port.id q hi hq
        ∙ off (has_bit p.vlan_tagged q) (q == port.id))
    | inr e ↦ rw e (has_bit-marked p.vlan_tagged port.id q hq)
  ]
    where
      off : (a b : Bool) → a && not b ≡ (if b then false else a)
      off true true = refl
      off true false = refl
      off false true = refl
      off false false = refl

  placed_pvids : stepped.pvid q ≡ (if (q == port.id) && untagged_now then vlan else p.pvid q)
  unfolding stepped join place
  placed_pvids = elim (Bool-cases untagged_now) [
    | inl e ↦ rw e (chosen (q == port.id))
    | inr e ↦ rw e (kept (q == port.id))
  ]
    where
      chosen : (b : Bool) → (if b then vlan else p.pvid q) ≡ (if b && true then vlan else p.pvid q)
      chosen true = refl
      chosen false = refl

      kept : (b : Bool) → p.pvid q ≡ (if b && false then vlan else p.pvid q)
      kept true = refl
      kept false = refl

pub place_all-Placed :
    (vlan : ℕ) (ps : List SwitchPort) (p : Priv) (q : ℕ)
    → vlan < max_vlans
    → q < 6
    → AllBelow 6 ps
    → Placed vlan ps q p (place_all vlan ps p)
unfolding place_all stepped
place_all-Placed vlan [] p q h hq a = record {
  own = refl;
  others = λ v hv ne. ground arith;
  tags = refl;
  pvids = refl;
}
place_all-Placed vlan (port ∷ ps) p q h hq a =
    let s = stepped vlan h port a.0 p q hq in
    let ih = place_all-Placed vlan ps s q h hq a.1 in
    record {
      own =
          ih.own
          ∙ ap (λ (b : Bool). if named ps q then true else b) (placed_own vlan h port a.0 p q hq)
          ∙ ground arith;
      others = λ v hv ne.
          ih.others v hv ne
          ∙ ap (λ (b : Bool). b && not (untagged ps q))
              (placed_others vlan h port a.0 p q hq v hv ne)
          ∙ ground arith;
      tags = ih.tags ∙ ap (last_tag ps q) (placed_tags vlan h port a.0 p q hq);
      pvids =
          ih.pvids
          ∙ ap (λ (x : ℕ). if untagged ps q then vlan else x) (placed_pvids vlan h port a.0 p q hq)
          ∙ ground arith;
    }
