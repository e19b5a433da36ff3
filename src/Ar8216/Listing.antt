-- ===== src/Ar8216/Listing.antt =====
-- Setting the ports of a VLAN in ar8216.c, and listing them.
use wair_os.Base.{
  ℕ, zero, suc, ◌+◌, ◌<◌, ◌≤◌, ◌≡◌, refl, ◌∙◌, arith, bit_and, bit, Bool, true, false, not, ◌==◌,
  if◌then◌else◌, Bool-cases, inl, inr, List, [], ◌∷◌, has_bit,
}
use wair_os.Rtl8366.Handlers.{SwitchPort, tagged}
use wair_os.Rtl8366.Ports.{AllBelow}
use wair_os.Rtl8366.Listing.{named}
use wair_os.Ar8216.{Priv, max_vlans, num_ports, ports_from, get_ports, set_ports}
use wair_os.Ar8216.Members.{last_tag}
use wair_os.Ar8216.Once.{Assigned, set_ports-Assigned}

-- The named ports among the next `left` ones from `i` on, in order, once each, with the flag that
-- the last entry of the list gives them.
unfoldable pub listed : List SwitchPort → ℕ → ℕ → List SwitchPort
listed ps zero i = []
listed ps (suc left) i =
    let rest = listed ps left (i + 1) in
    if named ps i
    then record { id = i; flags = if last_tag ps i false then tagged else 0 } ∷ rest
    else rest

last_tag-named :
    (ps : List SwitchPort) (q : ℕ) (t u : Bool)
    → named ps q ≡ true
    → last_tag ps q t ≡ last_tag ps q u
last_tag-named [] q t u h = cc
last_tag-named (p ∷ ps) q t u h = elim (Bool-cases (q == p.id)) [
  | inl e ↦ rw e refl
  | inr e ↦ rw e (last_tag-named ps q t u (rw e at h))
]

ports_from-listed :
    (vlan : ℕ) (ps : List SwitchPort) (p r : Priv)
    → ((q : ℕ) → q < 6 → Assigned vlan ps q p r)
    → (left i : ℕ) → i + left ≤ 6
    → ports_from r (r.vlan_table vlan) left i ≡ listed ps left i
unfolding ports_from listed
ports_from-listed vlan ps p r a zero i h = refl
ports_from-listed vlan ps p r a (suc left) i h =
    let ai = a i (omega (arith, h)) in
    choose (bit_and (r.vlan_table vlan) (bit i) == 0) (bit_and r.vlan_tagged (bit i) == 0)
      (named ps i) (last_tag ps i false) ai.own
      (λ n. ai.tags ∙ last_tag-named ps i (has_bit p.vlan_tagged i) false n)
      (ports_from-listed vlan ps p r a left (i + 1) (omega (arith, h)))
  where
    choose :
        (m u n t : Bool) {xs ys : List SwitchPort}
        → not m ≡ n
        → (n ≡ true → not u ≡ t)
        → xs ≡ ys
        → (if m then xs else (record { id = i; flags = if u then 0 else tagged } ∷ xs))
          ≡ (if n then (record { id = i; flags = if t then tagged else 0 } ∷ ys) else ys)
    choose true u true t a b c = cc
    choose true u false t a b c = c
    choose false true true true a b c = absurd (cc (b refl))
    choose false true true false a b c = rw c
    choose false false true true a b c = rw c
    choose false false true false a b c = absurd (cc (b refl))
    choose false u false t a b c = cc

-- After `ar8216_set_ports` on a VLAN below 128 with a list of ports of the switch, `ar8216_get_ports` lists each port
-- that the list names, in the order of their numbers, once each, with the tagged flag if the last
-- entry for that port has it.
pub get_ports-set_ports :
    (vlan : ℕ) (ps : List SwitchPort) (p : Priv)
    → vlan < max_vlans
    → AllBelow 6 ps
    → get_ports vlan (set_ports vlan ps p) ≡ listed ps num_ports 0
unfolding get_ports
get_ports-set_ports vlan ps p h below =
    ports_from-listed vlan ps p (set_ports vlan ps p)
      (λ q hq. set_ports-Assigned vlan ps p q h hq below) num_ports 0 (omega arith)
