-- ===== src/Vlan/Pigeonhole.antt =====
-- With more entries than ports, some entry is used by no port.
use wair_os.Base.{
  ℕ, zero, suc, ◌<◌, ◌≤◌, ◌≡◌, ◌≢◌, none, ◌==◌, if◌then◌else◌, arith, Bool-cases, inl, inr,
}
use wair_os.Vlan.Scan.{first_unused}
use wair_os.Vlan.Search.{uses-witness, first_unused-none}

-- Every number below `m` is the index of one of the first `p` ports.
abbrev Covers : (ℕ → ℕ) → ℕ → ℕ → Type 0
Covers f p m = (i : ℕ) → i < m → (q : ℕ) × (q < p) × (f q ≡ i)

-- Drop port `p`, whose index is `k`: who had the last index gets `k`.
abbrev drop_last : (ℕ → ℕ) → ℕ → ℕ → ℕ → ℕ
drop_last f k last q = if f q == last then k else f q

Covers-drop_last :
    (f : ℕ → ℕ) (p m : ℕ) → Covers f (suc p) (suc m) → Covers (drop_last f (f p) m) p m
Covers-drop_last f p m c i h = elim (Bool-cases (i == f p)) [
  | inl same ↦ let (q, lt, e) = c m (omega arith) in (q, keep q m lt e (ground arith), ground arith)
  | inr other ↦
      let (q, lt, e) = c i (omega arith) in (q, keep q i lt e (ground arith), ground arith)
]
  where
    keep : (q j : ℕ) → q < suc p → f q ≡ j → f p ≢ j → q < p
    keep q j lt e ne = ground arith

Covers-le : (p m : ℕ) (f : ℕ → ℕ) → Covers f p m → m ≤ p
Covers-le p zero f c = omega arith
Covers-le zero (suc m) f c = absurd (omega (arith, (c 0 (omega arith)).1))
Covers-le (suc p) (suc m) f c =
    omega (arith, Covers-le p m (drop_last f (f p) m) (Covers-drop_last f p m c))

pub some_unused :
    (index : ℕ → ℕ) (ports mcs : ℕ) → ports < mcs → first_unused index ports mcs 0 ≢ none
some_unused index ports mcs h e = absurd (
    omega (
      arith,
      Covers-le ports mcs index λ i lt.
          let u =
            uses-witness index i ports 0
              (first_unused-none index ports mcs 0 i e (omega arith) (omega arith)) in
          (u.0, omega (arith, u.2), u.3),
    ))
