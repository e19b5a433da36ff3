-- ===== src/Vlan/Pvid.antt =====
-- `rtl8366_set_pvid` and `rtl8366_get_pvid` against the tables.
use native.Mathlib.Nat.{mod-eq_of_lt}
use wair_os.Base.{
  ℕ, ◌+◌, ◌-◌, ◌^◌, ◌<◌, ◌≤◌, ◌≡◌, ◌≢◌, refl, Bool, true, false, ◌&&◌, Option, none, some, ◌==◌,
  ==_iff, Outcome, ok, ◌>>◌, arith, Option-cases, inl, inr, sym, update,
}
use wair_os.Vlan.{Mc, Ops, cleared, find_mc, find_unused, load_mc, set_pvid_from, set_pvid}
use wair_os.Vlan.View.{View, McFits, Gives, Gives->>=, Tables}
use wair_os.Vlan.Scan.{scan, uses, first_unused, find_mc-Gives, find_unused-Gives}
use wair_os.Vlan.Search.{
  Found, scan-Found, scan-none, scan-none-last, uses-false, first_unused-some,
}
use wair_os.Vlan.Pigeonhole.{some_unused}

-- The tests of the first two loops.
abbrev pub has_vid : ℕ → Mc → Bool
has_vid vid m = vid == m.vid

abbrev pub is_blank : Mc → Bool
is_blank m = m.vid == 0 && m.member == 0

-- An entry filled from the 4K table.
abbrev pub loaded : View → ℕ → Mc → Mc
loaded v vid held = record held {
  vid = vid;
  member = (v.vlan vid).member;
  untag = (v.vlan vid).untag;
  fid = (v.vlan vid).fid;
}

module _ (ports mcs : ℕ) where
  -- Which entry a VLAN gets, and what the entry is then.
  pub data Choice (v : View) (vid i : ℕ) (e : Mc) : Type 0 where
    kept : (v.mc i).vid ≡ vid → e ≡ v.mc i → Choice v vid i e
    filled :
        ((j : ℕ) → j < mcs → (v.mc j).vid ≢ vid)
        → is_blank (v.mc i) ≡ true
        → e ≡ loaded v vid (v.mc i)
        → Choice v vid i e
    replaced :
        ((j : ℕ) → j < mcs → (v.mc j).vid ≢ vid)
        → ((j : ℕ) → j < mcs → is_blank (v.mc j) ≡ false)
        → ((p : ℕ) → p < ports → v.index p ≢ i)
        → e ≡ loaded v vid (v.mc (mcs - 1))
        → Choice v vid i e

abbrev pub assigned : View → ℕ → ℕ → Mc → View
assigned v port i e = record v { mc = update v.mc i e; index = update v.index port i }

module _ {D : Type 0} (o : Ops D) (t : Tables o) where
  load_mc-Gives :
      (port vid i : ℕ) (held : Mc) (d : D)
      → port < o.num_ports
      → vid < 4096
      → i < o.num_vlan_mc
      → McFits t.masks held
      → Gives t.view
          (ok tt)
          (assigned (t.view d) port i (loaded (t.view d) vid held))
          (load_mc o port vid i held d)
  unfolding load_mc
  load_mc-Gives port vid i held d hp hv hi fits = Gives->>= (o.get_vlan_4k vid) _ g (
      rw (mod-eq_of_lt {n = vid} {m = 2 ^ 16} (omega arith)) (
        Gives->>= (o.set_vlan_mc i e) (λ _. o.set_mc_index port i) filled_in
          (rw filled_in.tables at (t.set_index port i (o.set_vlan_mc i e d₁).1 hp hi))))
    where
      g : Gives t.view (ok ((t.view d).vlan vid)) (t.view d) (o.get_vlan_4k vid d)
      g = t.get_4k vid d hv

      d₁ : D
      d₁ = (o.get_vlan_4k vid d).1

      e : Mc
      e = loaded (t.view d) vid held

      filled_in :
          Gives t.view
            (ok tt)
            (record (t.view d) { mc = update (t.view d).mc i e })
            (o.set_vlan_mc i e d₁)
      filled_in = rw g.tables at (t.set_mc i e d₁ hi (omega (arith, t.vlan_fits vid d hv)))

  -- The call puts `vid` on `port`: entry `slot` of the MC table holds the VLAN, the port's index
  -- is `slot`, and nothing else of the tables changes.
  pub record Assigned (port vid : ℕ) (d : D) (r : Outcome (Unit {0}) × D) : Type 0 where
    pub slot : ℕ
    pub entry : Mc
    pub in_table : slot < o.num_vlan_mc
    pub choice : Choice o.num_ports o.num_vlan_mc (t.view d) vid slot entry
    pub gives : Gives t.view (ok tt) (assigned (t.view d) port slot entry) r

  module _ (port vid : ℕ) (d : D) (hp : port < o.num_ports) (hv : vid < 4096) where
    abbrev same_scan : Option ℕ × Mc
    same_scan = scan (has_vid vid) (t.view d).mc o.num_vlan_mc 0 cleared

    abbrev blank_scan : Option ℕ × Mc
    blank_scan = scan is_blank (t.view d).mc o.num_vlan_mc 0 same_scan.1

    assign_same :
        (i : ℕ)
        → same_scan.0 ≡ some i
        → (u : D) → t.view u ≡ t.view d
        → Gives t.view
            (ok tt)
            (assigned (t.view d) port i ((t.view d).mc i))
            ((o.set_vlan_mc i same_scan.1 >> o.set_mc_index port i) u)
    assign_same i e u same = rw found.holds (
        Gives->>= (o.set_vlan_mc i m) (λ _. o.set_mc_index port i) wrote
          (rw wrote.tables at
            (t.set_index port i (o.set_vlan_mc i m u).1 hp (omega (arith, found.below)))))
      where
        m : Mc
        m = (t.view d).mc i

        found : Found (has_vid vid) (t.view d).mc o.num_vlan_mc 0 i same_scan
        found = scan-Found (has_vid vid) (t.view d).mc o.num_vlan_mc 0 cleared i e

        wrote :
            Gives t.view
              (ok tt)
              (record (t.view d) { mc = update (t.view d).mc i m })
              (o.set_vlan_mc i m u)
        wrote = rw same at (t.set_mc i m u (omega (arith, found.below)) (t.mc_fits i d))

    assign_loaded :
        (i : ℕ) (held : Mc) (u : D)
        → t.view u ≡ t.view d
        → i < o.num_vlan_mc
        → McFits t.masks held
        → Gives t.view
            (ok tt)
            (assigned (t.view d) port i (loaded (t.view d) vid held))
            (load_mc o port vid i held u)
    assign_loaded i held u same hi fits = rw same at (load_mc-Gives port vid i held u hp hv hi fits)

    looked :
        Gives t.view (ok same_scan) (t.view d) (find_mc o (has_vid vid) o.num_vlan_mc 0 cleared d)
    looked = find_mc-Gives o t (has_vid vid) o.num_vlan_mc 0 cleared d (omega arith)

    abbrev d₁ : D
    d₁ = (find_mc o (has_vid vid) o.num_vlan_mc 0 cleared d).1

    looked_blank :
        Gives t.view (ok blank_scan) (t.view d) (find_mc o is_blank o.num_vlan_mc 0 same_scan.1 d₁)
    looked_blank =
        rw looked.tables at
          (find_mc-Gives o t is_blank o.num_vlan_mc 0 same_scan.1 d₁ (omega arith))

    abbrev d₂ : D
    d₂ = (find_mc o is_blank o.num_vlan_mc 0 same_scan.1 d₁).1

    abbrev spare : Option ℕ
    spare = first_unused (t.view d).index o.num_ports o.num_vlan_mc 0

    looked_unused : Gives t.view (ok spare) (t.view d) (find_unused o o.num_vlan_mc 0 d₂)
    looked_unused = rw looked_blank.tables at (find_unused-Gives o t o.num_vlan_mc 0 d₂)

    no_vid : same_scan.0 ≡ none → (j : ℕ) → j < o.num_vlan_mc → ((t.view d).mc j).vid ≢ vid
    no_vid e j lt h = cc (
      scan-none (has_vid vid) (t.view d).mc o.num_vlan_mc 0 cleared e j (omega arith) (omega arith),
      (==_iff vid ((t.view d).mc j).vid).1 (sym h),
    )

    no_blank :
        blank_scan.0 ≡ none → (j : ℕ) → j < o.num_vlan_mc → is_blank ((t.view d).mc j) ≡ false
    no_blank e j lt =
        scan-none is_blank (t.view d).mc o.num_vlan_mc 0 same_scan.1 e j (omega arith) (omega arith)

    case_same : (i : ℕ) → same_scan.0 ≡ some i → Assigned port vid d (set_pvid o port vid d)
    unfolding set_pvid set_pvid_from
    case_same i e = record {
      slot = i;
      entry = (t.view d).mc i;
      in_table = omega (arith, found.below);
      choice = kept (sym ((==_iff vid _).0 found.passes)) refl;
      gives =
          Gives->>= (find_mc o (has_vid vid) o.num_vlan_mc 0 cleared) _ looked
            (rw e (assign_same i e d₁ looked.tables));
    }
      where
        found : Found (has_vid vid) (t.view d).mc o.num_vlan_mc 0 i same_scan
        found = scan-Found (has_vid vid) (t.view d).mc o.num_vlan_mc 0 cleared i e

    case_blank :
        (i : ℕ)
        → same_scan.0 ≡ none
        → blank_scan.0 ≡ some i
        → Assigned port vid d (set_pvid o port vid d)
    unfolding set_pvid set_pvid_from
    case_blank i e b = record {
      slot = i;
      entry = loaded (t.view d) vid ((t.view d).mc i);
      in_table = omega (arith, found.below);
      choice = filled (no_vid e) found.passes refl;
      gives = Gives->>= (find_mc o (has_vid vid) o.num_vlan_mc 0 cleared) _ looked (
          rw e (
            Gives->>= (find_mc o is_blank o.num_vlan_mc 0 same_scan.1) _ looked_blank (
              rw (b, found.holds)
                (assign_loaded i ((t.view d).mc i) d₂ looked_blank.tables
                  (omega (arith, found.below)) (t.mc_fits i d)))));
    }
      where
        found : Found is_blank (t.view d).mc o.num_vlan_mc 0 i blank_scan
        found = scan-Found is_blank (t.view d).mc o.num_vlan_mc 0 same_scan.1 i b

    case_spare :
        (i : ℕ)
        → o.num_ports < o.num_vlan_mc
        → same_scan.0 ≡ none
        → blank_scan.0 ≡ none
        → spare ≡ some i
        → Assigned port vid d (set_pvid o port vid d)
    unfolding set_pvid set_pvid_from
    case_spare i more e b s = record {
      slot = i;
      entry = loaded (t.view d) vid last;
      in_table = lt;
      choice =
          replaced (no_vid e) (no_blank b)
            (λ p h.
              uses-false (t.view d).index i o.num_ports 0 p free.2 (omega arith) (omega arith))
            refl;
      gives = Gives->>= (find_mc o (has_vid vid) o.num_vlan_mc 0 cleared) _ looked (
          rw e (
            Gives->>= (find_mc o is_blank o.num_vlan_mc 0 same_scan.1) _ looked_blank (
              rw b (
                Gives->>= (find_unused o o.num_vlan_mc 0) _ looked_unused (
                  rw (s, held)
                    (assign_loaded i last (find_unused o o.num_vlan_mc 0 d₂).1 looked_unused.tables
                      lt (t.mc_fits _ d)))))));
    }
      where
        last : Mc
        last = (t.view d).mc (o.num_vlan_mc - 1)

        held : blank_scan.1 ≡ last
        held = scan-none-last is_blank (t.view d).mc o.num_vlan_mc same_scan.1 (omega arith) b

        free : (0 ≤ i) × (i < 0 + o.num_vlan_mc) × (uses (t.view d).index i o.num_ports 0 ≡ false)
        free = first_unused-some (t.view d).index o.num_ports o.num_vlan_mc 0 i s

        lt : i < o.num_vlan_mc
        lt = omega (arith, free.1)

    -- For a port of the switch, a VLAN number below 4096, and more MC entries than ports:
    -- `rtl8366_set_pvid` returns 0 and points the port at an entry that it keeps when the VLAN has
    -- one, or else fills from the 4K table, a blank one if there is one and an unused one if not
    -- (with the priority of the last entry of the table), and nothing else of the tables changes.
    pub set_pvid_lem : o.num_ports < o.num_vlan_mc → Assigned port vid d (set_pvid o port vid d)
    set_pvid_lem more = elim (Option-cases same_scan.0) [
      | inr (i, e) ↦ case_same i e
      | inl e ↦ elim (Option-cases blank_scan.0) [
        | inr (i, b) ↦ case_blank i e b
        | inl b ↦ elim (Option-cases spare) [
          | inr (i, s) ↦ case_spare i more e b s
          | inl none_left ↦
              absurd (some_unused (t.view d).index o.num_ports o.num_vlan_mc more none_left)
        ]
      ]
    ]
