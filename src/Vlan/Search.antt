-- ===== src/Vlan/Search.antt =====
-- What the searches find, and what it means that they find nothing.
use wair_os.Base.{
  ℕ, zero, suc, ◌+◌, ◌-◌, ◌<◌, ◌≤◌, ◌≡◌, ◌≢◌, refl, Bool, true, false, Option, none, some, ◌==◌,
  ==_iff, arith, Bool-cases, inl, inr, ◌∙◌, sym, ap,
}
use wair_os.Vlan.{Mc}
use wair_os.Vlan.Scan.{scan, uses, first_unused}

module _ (test : Mc → Bool) (f : ℕ → Mc) where
  -- Entry `j`, among `left` from `i` on, passes the test, and is what `vlanmc` holds.
  pub record Found (left i j : ℕ) (r : Option ℕ × Mc) : Type 0 where
    pub from : i ≤ j
    pub below : j < i + left
    pub passes : test (f j) ≡ true
    pub holds : r.1 ≡ f j

  scan-hit :
      (left i : ℕ) (held : Mc) → test (f i) ≡ true → scan test f (suc left) i held ≡ (some i, f i)
  unfolding scan
  scan-hit left i held e = rw (e, scan)

  scan-miss :
      (left i : ℕ) (held : Mc)
      → test (f i) ≡ false
      → scan test f (suc left) i held ≡ scan test f left (i + 1) (f i)
  unfolding scan
  scan-miss left i held e = rw (e, scan)

  pub scan-Found :
      (left i : ℕ) (held : Mc) (j : ℕ)
      → (scan test f left i held).0 ≡ some j
      → Found left i j (scan test f left i held)
  unfolding scan
  scan-Found zero i held j h = cc
  scan-Found (suc left) i held j h = elim (Bool-cases (test (f i))) [
    | inl e ↦
        let same : i ≡ j = cc (h, ap (λ (r : Option ℕ × Mc). r.0) (scan-hit left i held e)) in
        rw (scan-hit left i held e) (record {
          from = omega arith;
          below = omega arith;
          passes = rw same at e;
          holds = ap f same;
        })
    | inr e ↦
        let rest = scan-Found left (i + 1) (f i) j (rw (scan-miss left i held e) at h) in
        rw (scan-miss left i held e) (record {
          from = omega (arith, rest.from);
          below = omega (arith, rest.below);
          passes = rest.passes;
          holds = rest.holds;
        })
  ]

  pub scan-none :
      (left i : ℕ) (held : Mc)
      → (scan test f left i held).0 ≡ none
      → (j : ℕ) → i ≤ j
      → j < i + left
      → test (f j) ≡ false
  unfolding scan
  scan-none zero i held h j a b = absurd (omega arith)
  scan-none (suc left) i held h j a b = elim (Bool-cases (test (f i))) [
    | inl e ↦ cc (h, ap (λ (r : Option ℕ × Mc). r.0) (scan-hit left i held e))
    | inr e ↦ elim (Bool-cases (i == j)) [
      | inl same ↦ rw ((==_iff i j).0 same) at e
      | inr other ↦
          scan-none left (i + 1) (f i) (rw (scan-miss left i held e) at h) j (ground arith)
            (omega arith)
    ]
  ]

  -- After a search that finds nothing, `vlanmc` holds the last entry.
  scan-none-holds :
      (left i : ℕ) (held : Mc)
      → (scan test f (suc left) i held).0 ≡ none
      → (scan test f (suc left) i held).1 ≡ f (i + left)
  unfolding scan
  scan-none-holds zero i held h = elim (Bool-cases (test (f i))) [
    | inl e ↦ cc (h, ap (λ (r : Option ℕ × Mc). r.0) (scan-hit 0 i held e))
    | inr e ↦ rw (scan-miss 0 i held e) (ap f (omega arith))
  ]
  scan-none-holds (suc left) i held h = elim (Bool-cases (test (f i))) [
    | inl e ↦ cc (h, ap (λ (r : Option ℕ × Mc). r.0) (scan-hit (suc left) i held e))
    | inr e ↦ rw (scan-miss (suc left) i held e) (
        scan-none-holds left (i + 1) (f i) (rw (scan-miss (suc left) i held e) at h)
        ∙ ap f (omega arith))
  ]

  pub scan-none-last :
      (left : ℕ) (held : Mc)
      → 0 < left
      → (scan test f left 0 held).0 ≡ none
      → (scan test f left 0 held).1 ≡ f (left - 1)
  scan-none-last zero held h e = absurd (omega arith)
  scan-none-last (suc left) held h e = scan-none-holds left 0 held e ∙ ap f (omega arith)

module _ (index : ℕ → ℕ) where
  pub uses-true :
      (i left port p : ℕ) → port ≤ p → p < port + left → index p ≡ i → uses index i left port ≡ true
  unfolding uses
  uses-true i zero port p a b e = absurd (omega arith)
  uses-true i (suc left) port p a b e = elim (Bool-cases (i == index port)) [
    | inl hit ↦ rw (hit, uses) refl
    | inr miss ↦
        rw (miss, uses)
          (elim (Bool-cases (port == p)) [
            | inl same ↦
                cc (
                  miss,
                  (==_iff i (index port)).1 (sym e ∙ ap index (sym ((==_iff port p).0 same))),
                )
            | inr other ↦ uses-true i left (port + 1) p (ground arith) (omega arith) e
          ])
  ]

  pub uses-false :
      (i left port p : ℕ)
      → uses index i left port ≡ false
      → port ≤ p
      → p < port + left
      → index p ≢ i
  uses-false i left port p h a b e = cc (uses-true i left port p a b e)

  pub uses-witness :
      (i left port : ℕ)
      → uses index i left port ≡ true
      → (p : ℕ) × (port ≤ p) × (p < port + left) × (index p ≡ i)
  unfolding uses
  uses-witness i zero port h = cc
  uses-witness i (suc left) port h = elim (Bool-cases (i == index port)) [
    | inl hit ↦ (port, omega arith, omega arith, sym ((==_iff i (index port)).0 hit))
    | inr miss ↦
        let rest = uses-witness i left (port + 1) (rw (miss, uses) at h) in
        (rest.0, omega (arith, rest.1), omega (arith, rest.2), rest.3)
  ]

  module _ (ports : ℕ) where
    pub first_unused-some :
        (left i j : ℕ)
        → first_unused index ports left i ≡ some j
        → (i ≤ j) × (j < i + left) × (uses index j ports 0 ≡ false)
    unfolding first_unused
    first_unused-some zero i j h = cc
    first_unused-some (suc left) i j h = elim (Bool-cases (uses index i ports 0)) [
      | inl used ↦
          let rest = first_unused-some left (i + 1) j (rw (used, first_unused) at h) in
          (omega (arith, rest.0), omega (arith, rest.1), rest.2)
      | inr free ↦
          let same : i ≡ j = cc (rw (free, first_unused) at h) in
          (omega (arith, same), omega (arith, same), rw same at free)
    ]

    pub first_unused-none :
        (left i j : ℕ)
        → first_unused index ports left i ≡ none
        → i ≤ j
        → j < i + left
        → uses index j ports 0 ≡ true
    unfolding first_unused
    first_unused-none zero i j h a b = absurd (omega arith)
    first_unused-none (suc left) i j h a b = elim (Bool-cases (uses index i ports 0)) [
      | inl used ↦ elim (Bool-cases (i == j)) [
        | inl same ↦ rw ((==_iff i j).0 same) at used
        | inr other ↦
            first_unused-none left (i + 1) j (rw (used, first_unused) at h) (ground arith)
              (omega arith)
      ]
      | inr free ↦ cc (rw (free, first_unused) at h)
    ]
