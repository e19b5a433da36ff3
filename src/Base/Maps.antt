-- ===== src/Base/Maps.antt =====
-- Total maps from the native numbers, changed at one place.
use Prim.Native.Nat.{ℕ, zero, suc, ◌+◌, ◌≤◌, ◌<◌}
use native.Mathlib.Omega.{arith}
use mathlib.Core.Path.{◌≡◌, refl, sym, ap, ◌∙◌, fun_ext}
use mathlib.Core.Logic.{◌≢◌, inl, inr}
use wair_os.Base.Tests.{◌==◌, if◌then◌else◌, ==_iff, Bool-cases}

abbrev pub update {ℓ} : {A : Type ℓ} → (ℕ → A) → ℕ → A → ℕ → A
update f i a j = if j == i then a else f j

pub update_self {ℓ} : {A : Type ℓ} (f : ℕ → A) (i : ℕ) (a : A) → update f i a i ≡ a
update_self f i a = rw ((==_iff i i).1 refl)

pub update_ne {ℓ} : {A : Type ℓ} (f : ℕ → A) (i j : ℕ) (a : A) → j ≢ i → update f i a j ≡ f j
update_ne f i j a ne = elim (Bool-cases (j == i)) [
  | inl same ↦ absurd (ne ((==_iff j i).0 same))
  | inr other ↦ rw other
]

-- A property of a changed function: of the new value, and of the old ones elsewhere.
pub update_at {ℓ κ} :
    {A : Type ℓ} (P : ℕ → A → Type κ) (f : ℕ → A) (i j : ℕ) (a : A)
    → P i a
    → (j ≢ i → P j (f j))
    → P j (update f i a j)
update_at P f i j a new old = elim (Bool-cases (j == i)) [
  | inl same ↦ rw (same, (==_iff j i).0 same) new
  | inr other ↦ rw other (old (λ e. cc (other, (==_iff j i).1 e)))
]

pub update_at_eq {ℓ} : {A : Type ℓ} (f : ℕ → A) (i j : ℕ) (a : A) → j ≡ i → update f i a j ≡ a
update_at_eq f i j a same = rw same (update_self f i a)

pub update_twice {ℓ} :
    {A : Type ℓ} (f : ℕ → A) (i : ℕ) (a b : A) → update (update f i a) i b ≡ update f i b
update_twice f i a b =
    fun_ext λ j. elim (Bool-cases (j == i)) [ inl e ↦ rw e refl | inr e ↦ rw e refl ]

-- `for (; left > 0; i++, left--) f[i] = g(i, f[i]);`
unfoldable pub each {ℓ} : {A : Type ℓ} → (ℕ → A → A) → ℕ → ℕ → (ℕ → A) → ℕ → A
each g zero i f = f
each g (suc left) i f = each g left (i + 1) (update f i (g i (f i)))

module _ {ℓ} {A : Type ℓ} (g : ℕ → A → A) where
  pub each-below : (left i : ℕ) (f : ℕ → A) (v : ℕ) → v < i → each g left i f v ≡ f v
  unfolding each
  each-below zero i f v lt = refl
  each-below (suc left) i f v lt =
      each-below left (i + 1) (update f i (g i (f i))) v (omega (arith, lt))
      ∙ update_ne f i v (g i (f i)) (λ e. omega (arith, e, lt))

  pub each-in :
      (left i : ℕ) (f : ℕ → A) (v : ℕ) → i ≤ v → v < i + left → each g left i f v ≡ g v (f v)
  unfolding each
  each-in zero i f v le lt = absurd (omega (arith, le, lt))
  each-in (suc left) i f v le lt = elim (Bool-cases (v == i)) [
    | inl e ↦
        let same : v ≡ i = (==_iff v i).0 e in
        rw (sym same) (
          each-below left (v + 1) (update f v (g v (f v))) v (omega arith)
          ∙ update_self f v (g v (f v)))
    | inr e ↦
        let other : v ≢ i = λ h. cc (e, (==_iff v i).1 h) in
        each-in left (i + 1) (update f i (g i (f i))) v (omega (arith, le, other))
          (omega (arith, lt))
        ∙ ap (g v) (update_ne f i v (g i (f i)) other)
  ]
