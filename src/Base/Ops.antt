-- ===== src/Base/Ops.antt =====
-- The kernel's `int` results, and the operations of a driver over the state of its device.
use mathlib.Core.Path.{◌≡◌}

-- The negative error codes that the driver returns.
pub data Errno : Type 0 where
  eio einval enospc ebusy enodev enomem etimedout : Errno

pub data Outcome (A : Type 0) : Type 0 where
  ok : A → Outcome A
  err : Errno → Outcome A

-- An operation returns its outcome and the state that it leaves, on an error too.
abbrev pub Op : Type 0 → Type 0 → Type 0
Op S A = S → Outcome A × S

-- `err = f(); if (err) return err;` and what follows.
abbrev pub and_then : {S A B : Type 0} → Outcome A × S → (A → Op S B) → Outcome B × S
and_then (ok a, s) f = f a s
and_then (err e, s) f = (err e, s)

infixl 5 ◌>>=◌ ◌>>◌
abbrev pub ◌>>=◌ : {S A B : Type 0} → Op S A → (A → Op S B) → Op S B
◌>>=◌ m f s = and_then (m s) f

abbrev pub ◌>>◌ : {S B : Type 0} → Op S (Unit {0}) → Op S B → Op S B
m >> k = m >>= λ _. k

abbrev pub pure : {S A : Type 0} → A → Op S A
pure a s = (ok a, s)

abbrev pub fail : {S A : Type 0} → Errno → Op S A
fail e s = (err e, s)

-- What an error becomes.
abbrev pub on_err : {A : Type 0} → (Errno → Outcome A) → Outcome A → Outcome A
on_err h (ok a) = ok a
on_err h (err e) = h e

module _ {S A B : Type 0} (f : A → Op S B) where
  pub and_then-ok : (r : Outcome A × S) {a : A} → r.0 ≡ ok a → and_then r f ≡ f a r.1
  and_then-ok (ok b, s) h = cc
  and_then-ok (err e, s) h = cc

  pub and_then-err : (r : Outcome A × S) {e : Errno} → r.0 ≡ err e → and_then r f ≡ (err e, r.1)
  and_then-err (ok b, s) h = cc
  and_then-err (err e, s) h = cc
