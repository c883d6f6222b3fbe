-- ===== src/Base/Result.antt =====
-- The result of a fallible method, and methods on a mutable receiver: a method returns the state
-- that it leaves behind on its error path too. A panic is a result of its own.
use mathlib.Core.Bool.{Bool, true, false}
use mathlib.Core.Option.{Option, none, some}

pub data Result (E A : Type 0) : Type 0 where
  ok : A → Result E A
  err : E → Result E A
  panic : Result E A

infixl 5 ◌>>=◌ ◌>>◌
abbrev pub Method : Type 0 → Type 0 → Type 0 → Type 0
Method E S A = S → Result E A × S

module _ {E S : Type 0} where
  abbrev pub pure : {A : Type 0} → A → Method E S A
  pure a s = (ok a, s)

  abbrev pub fail : {A : Type 0} → E → Method E S A
  fail e s = (err e, s)

  -- an arithmetic overflow, or an `unwrap` of nothing
  abbrev pub or_panic : {A : Type 0} → Option A → Method E S A
  or_panic none s = (panic, s)
  or_panic (some a) s = (ok a, s)

  -- `if test { return Err(e) }`
  abbrev pub reject_if : Bool → E → Method E S (Unit {0})
  reject_if true e s = (err e, s)
  reject_if false e s = (ok tt, s)

  abbrev pub gets : {A : Type 0} → (S → A) → Method E S A
  gets f s = (ok (f s), s)

  abbrev pub modify : (S → S) → Method E S (Unit {0})
  modify f s = (ok tt, f s)

abbrev pub ◌>>=◌ : {E S A B : Type 0} → Method E S A → (A → Method E S B) → Method E S B
◌>>=◌ m f s =
    let (r, s') = m s in elim r [ ok a ↦ f a s' | err e ↦ (err e, s') | panic ↦ (panic, s') ]

abbrev pub ◌>>◌ : {E S A B : Type 0} → Method E S A → Method E S B → Method E S B
m >> k = m >>= λ _. k
