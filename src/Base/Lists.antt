-- ===== src/Base/Lists.antt =====
-- Lists with native indices.
use Prim.Native.Nat.{ℕ, zero, suc, ◌+◌, ◌≤◌, ◌<◌}
use mathlib.Core.Path.{◌≡◌, refl, ap}
use native.Mathlib.Omega.{arith}
use mathlib.Core.Logic.{◌≢◌, ◌⊎◌, inl, inr}
use mathlib.Core.List.{List, [], ◌∷◌, ◌++◌}
use mathlib.Core.Option.{Option, none, some}

module _ {ℓ} {A : Type ℓ} where
  abbrev pub length : List A → ℕ
  length [] = 0
  length (x ∷ xs) = suc (length xs)

  abbrev pub get_elem? : List A → ℕ → Option A
  get_elem? [] i = none
  get_elem? (x ∷ xs) zero = some x
  get_elem? (x ∷ xs) (suc i) = get_elem? xs i

  pub length-snoc : (l : List A) (a : A) → length (l ++ a ∷ []) ≡ length l + 1
  length-snoc [] a = refl
  length-snoc (x ∷ l) a = omega (arith, length-snoc l a)

  pub get_elem?-snoc : (l : List A) (a : A) → get_elem? (l ++ a ∷ []) (length l) ≡ some a
  get_elem?-snoc [] a = refl
  get_elem?-snoc (x ∷ l) a = get_elem?-snoc l a

  pub get_elem?-snoc_other :
      (l : List A) (a : A) (k : ℕ) → k ≢ length l → get_elem? (l ++ a ∷ []) k ≡ get_elem? l k
  get_elem?-snoc_other [] a zero other = absurd (other refl)
  get_elem?-snoc_other [] a (suc k) other = refl
  get_elem?-snoc_other (x ∷ l) a zero other = refl
  get_elem?-snoc_other (x ∷ l) a (suc k) other = get_elem?-snoc_other l a k (λ e. other (ap suc e))

  pub get_elem?-beyond : (l : List A) (k : ℕ) → length l ≤ k → get_elem? l k ≡ none
  get_elem?-beyond [] k far = refl
  get_elem?-beyond (x ∷ l) zero far = absurd (omega arith)
  get_elem?-beyond (x ∷ l) (suc k) far = get_elem?-beyond l k (omega arith)

  pub length-append : (l r : List A) → length (l ++ r) ≡ length l + length r
  length-append [] r = omega arith
  length-append (x ∷ l) r = omega (arith, length-append l r)

  pub List-cases : (l : List A) → (l ≡ []) ⊎ (0 < length l)
  List-cases [] = inl refl
  List-cases (x ∷ l) = inr (omega arith)
