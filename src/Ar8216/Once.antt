-- ===== src/Ar8216/Once.antt =====
-- The invariant of the tables of ar8216.c, which the comment in ar8216_set_ports asks for, over the
-- handlers that swconfig calls.
use wair_os.Base.{
  ℕ, ◌<◌, ◌≤◌, ◌≡◌, ◌≢◌, ◌⊎◌, refl, sym, ◌∙◌, ap, arith, bit_and, Bool, true, false, not, ◌&&◌,
  ◌==◌, if◌then◌else◌, ==_iff, Bool-cases, inl, inr, List, [], ◌∷◌, leb, update, update_self,
  update_ne, update_at, has_bit, zero-has_bit,
}
use wair_os.Rtl8366.Handlers.{SwitchPort, tagged}
use wair_os.Rtl8366.Ports.{AllBelow}
use wair_os.Rtl8366.Listing.{named, untagged}
use wair_os.Ar8216.{Priv, max_vlans, set_ports, set_vlan, set_vid, set_pvid}
use wair_os.Ar8216.Apply.{reset_priv}
use wair_os.Ar8216.Members.{last_tag, place_all-Placed}

-- What `ar8216_set_ports` makes of port `q`.
pub record Assigned (vlan : ℕ) (ps : List SwitchPort) (q : ℕ) (p r : Priv) : Type 0 where
  pub own : has_bit (r.vlan_table vlan) q ≡ named ps q
  pub others :
      (v : ℕ)
      → v < max_vlans
      → v ≢ vlan
      → has_bit (r.vlan_table v) q ≡ has_bit (p.vlan_table v) q && not (untagged ps q)
  pub tags : has_bit r.vlan_tagged q ≡ last_tag ps q (has_bit p.vlan_tagged q)
  pub pvids : r.pvid q ≡ (if untagged ps q then vlan else p.pvid q)

pub set_ports-Assigned :
    (vlan : ℕ) (ps : List SwitchPort) (p : Priv) (q : ℕ)
    → vlan < max_vlans
    → q < 6
    → AllBelow 6 ps
    → Assigned vlan ps q p (set_ports vlan ps p)
unfolding set_ports
set_ports-Assigned vlan ps p q h hq a =
    let s : Priv = record p { vlan_table = update p.vlan_table vlan 0 } in
    let r = place_all-Placed vlan ps s q h hq a in
    let blank : has_bit (update p.vlan_table vlan 0 vlan) q ≡ false =
      ap (λ (x : ℕ). has_bit x q) (update_self p.vlan_table vlan 0) ∙ zero-has_bit q in
    record {
      own = r.own ∙ ap (λ (b : Bool). if named ps q then true else b) blank ∙ ground arith;
      others = λ v hv ne.
          r.others v hv ne
          ∙ ap (λ (x : ℕ). has_bit x q && not (untagged ps q)) (update_ne p.vlan_table vlan v 0 ne);
      tags = r.tags;
      pvids = r.pvids;
    }

-- A port that ends without the tagged flag was listed without it, or was not listed.
last_tag-false :
    (ps : List SwitchPort) (q : ℕ) (t : Bool)
    → last_tag ps q t ≡ false
    → (untagged ps q ≡ true) ⊎ (t ≡ false) × (named ps q ≡ false)
last_tag-false [] q t h = inr (h, refl)
last_tag-false (p ∷ ps) q t h =
    elim (last_tag-false ps q (if q == p.id then not (bit_and p.flags tagged == 0) else t) h) [
      | inl u ↦ inl (ground arith)
      | inr n ↦ elim (Bool-cases (q == p.id)) [
        | inl e ↦
            let now : not (bit_and p.flags tagged == 0) ≡ false = rw e at n.0 in
            inl (ground (arith, e, now))
        | inr e ↦ inr (rw e at n.0, rw e n.1)
      ]
    ]

-- A port without the tagged flag is in one VLAN at most, and each PVID is an index of `vlan_id`.
pub record IsOnce (p : Priv) : Type 0 where
  pub once :
      (q u v : ℕ)
      → q < 6
      → u < max_vlans
      → v < max_vlans
      → has_bit p.vlan_tagged q ≡ false
      → has_bit (p.vlan_table u) q ≡ true
      → has_bit (p.vlan_table v) q ≡ true
      → u ≡ v
  pub pvid_in : (q : ℕ) → q < 6 → p.pvid q < max_vlans

module _ (vlan : ℕ) (ps : List SwitchPort) (p r : Priv) (q : ℕ) (a : Assigned vlan ps q p r) where
  -- An untagged port of the list is in no other VLAN.
  only_there :
      untagged ps q ≡ true → (v : ℕ) → v < max_vlans → has_bit (r.vlan_table v) q ≡ true → v ≡ vlan
  only_there h v hv m = elim (Bool-cases (v == vlan)) [
    | inl e ↦ (==_iff v vlan).0 e
    | inr e ↦
        let ne : v ≢ vlan = λ f. cc (e, (==_iff v vlan).1 f) in
        absurd (ground (arith, h, m, a.others v hv ne))
  ]

  -- A port that the list does not name keeps its other VLANs.
  kept_there :
      named ps q ≡ false
      → (v : ℕ) → v < max_vlans
      → has_bit (r.vlan_table v) q ≡ true
      → has_bit (p.vlan_table v) q ≡ true
  kept_there h v hv m = elim (Bool-cases (v == vlan)) [
    | inl e ↦
        let here : has_bit (r.vlan_table vlan) q ≡ true = rw ((==_iff v vlan).0 e) at m in
        absurd (cc (a.own, h, here))
    | inr e ↦
        let ne : v ≢ vlan = λ f. cc (e, (==_iff v vlan).1 f) in ground (arith, m, a.others v hv ne)
  ]

pub set_ports-IsOnce :
    (vlan : ℕ) (ps : List SwitchPort) (p : Priv)
    → vlan < max_vlans
    → AllBelow 6 ps
    → IsOnce p
    → IsOnce (set_ports vlan ps p)
set_ports-IsOnce vlan ps p hvlan below w = record {
  once = λ q u v hq hu hv free mu mv.
      let r = set_ports vlan ps p in
      let a = set_ports-Assigned vlan ps p q hvlan hq below in
      elim (last_tag-false ps q (has_bit p.vlan_tagged q) (sym a.tags ∙ free)) [
        | inl out ↦
            only_there vlan ps p r q a out u hu mu ∙ sym (only_there vlan ps p r q a out v hv mv)
        | inr n ↦
            w.once q u v hq hu hv n.0 (kept_there vlan ps p r q a n.1 u hu mu)
              (kept_there vlan ps p r q a n.1 v hv mv)
      ];
  pvid_in = λ q hq.
      let a = set_ports-Assigned vlan ps p q hvlan hq below in
      rw a.pvids (chosen (untagged ps q) q hq);
}
  where
    chosen : (b : Bool) (q : ℕ) → q < 6 → (if b then vlan else p.pvid q) < max_vlans
    chosen true q hq = hvlan
    chosen false q hq = w.pvid_in q hq

-- The states that the handlers of swconfig reach after a reset; `vlans` is `dev->vlans`.
pub data Calls (vlans : ℕ) : Priv → Type 0 where
  reset : (p : Priv) → Calls vlans (reset_priv p)
  mode : {p : Priv} (i : ℕ) → Calls vlans p → Calls vlans (set_vlan i p)
  vid : {p : Priv} (vlan i : ℕ) → Calls vlans p → Calls vlans (set_vid vlan i p)
  pvid :
      {p : Priv} (port vlan : ℕ)
      → port < 6
      → Calls vlans p
      → Calls vlans (set_pvid vlans port vlan p).1
  ports :
      {p : Priv} (vlan : ℕ) (ps : List SwitchPort)
      → vlan < vlans
      → AllBelow 6 ps
      → Calls vlans p
      → Calls vlans (set_ports vlan ps p)

reset-IsOnce : (p : Priv) → IsOnce (reset_priv p)
reset-IsOnce p = record {
  once = λ q u v hq hu hv free mu mv. absurd (cc (mu, zero-has_bit q));
  pvid_in = λ q hq. omega arith;
}

set_pvid-IsOnce :
    (vlans port vlan : ℕ) (p : Priv)
    → vlans ≤ max_vlans
    → IsOnce p
    → IsOnce (set_pvid vlans port vlan p).1
unfolding set_pvid
set_pvid-IsOnce vlans port vlan p h w = elim (Bool-cases (leb vlans vlan)) [
  | inl e ↦ rw e w
  | inr e ↦ rw e (record {
    once = w.once;
    pvid_in = λ q hq.
        update_at (λ j x. x < max_vlans) p.pvid port q vlan (ground (arith, e, h))
          (λ ne. w.pvid_in q hq);
  })
]

-- Whatever handlers of swconfig have run since a reset of the switch, for VLANs below `dev->vlans`
-- (at most 128) and ports of the switch, a port without the tagged flag is a member of one VLAN at
-- most, and the PVID of each port is an index of the table of VLAN ids.
pub Calls-IsOnce : (vlans : ℕ) (p : Priv) → vlans ≤ max_vlans → Calls vlans p → IsOnce p
unfolding set_vlan set_vid
Calls-IsOnce vlans _ h (reset p) = reset-IsOnce p
Calls-IsOnce vlans _ h (mode {p} i c) =
    let w = Calls-IsOnce vlans p h c in record { once = w.once; pvid_in = w.pvid_in }
Calls-IsOnce vlans _ h (vid {p} vlan i c) =
    let w = Calls-IsOnce vlans p h c in record { once = w.once; pvid_in = w.pvid_in }
Calls-IsOnce vlans _ h (pvid {p} port vlan hp c) =
    set_pvid-IsOnce vlans port vlan p h (Calls-IsOnce vlans p h c)
Calls-IsOnce vlans _ h (ports {p} vlan ps lt below c) =
    set_ports-IsOnce vlan ps p (omega (arith, lt, h)) below (Calls-IsOnce vlans p h c)
