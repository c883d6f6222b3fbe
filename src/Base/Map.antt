-- ===== src/Base/Map.antt =====
-- `BTreeMap` and `HashMap` as association lists that hold each key once. No operation that is
-- modelled reads the order of the entries, so it is the order of insertion.
use mathlib.Core.Path.{◌≡◌, refl, subst}
use mathlib.Core.Logic.{inl, inr}
use mathlib.Core.Bool.{Bool, true, false}
use mathlib.Core.List.{List, [], ◌∷◌}
use mathlib.Core.Option.{Option, none, some}
use native.Mathlib.Omega.{arith}
use lasr.Base.Tests.{Eq, ◌==◌, if◌then◌else◌, Bool-cases}

pub beq_refl {ℓ} : {K : Type ℓ} ⦃e : Eq K⦄ (k : K) → (k == k) ≡ true
beq_refl ⦃e⦄ k = (e.beq_iff k k).1 refl

abbrev pub Map : Type 0 → Type 0 → Type 0
Map K V = List (K × V)

module _ {K V : Type 0} ⦃e : Eq K⦄ where
  unfoldable pub get : K → Map K V → Option V
  get k [] = none
  get k (x ∷ m) = if k == x.0 then some x.1 else get k m

  abbrev pub contains_key : K → Map K V → Bool
  contains_key k m = elim (get k m) [ none ↦ false | some _ ↦ true ]

  unfoldable pub insert : K → V → Map K V → Map K V
  insert k v [] = (k, v) ∷ []
  insert k v (x ∷ m) = if k == x.0 then (k, v) ∷ m else x ∷ insert k v m

  unfoldable pub remove : K → Map K V → Map K V
  remove k [] = []
  remove k (x ∷ m) = if k == x.0 then remove k m else x ∷ remove k m

  -- the entries of the second map overwrite those of the first
  unfoldable pub extend : Map K V → Map K V → Map K V
  extend m [] = m
  extend m (x ∷ l) = extend (insert x.0 x.1 m) l

  pub get-insert :
      (j k : K) (v : V) (m : Map K V) → get j (insert k v m) ≡ (if j == k then some v else get j m)
  unfolding get insert
  get-insert j k v [] = refl
  get-insert j k v (x ∷ m) =
      ground (arith, e.beq_iff j k, e.beq_iff k x.0, e.beq_iff j x.0, get-insert j k v m)

  pub get-remove : (j k : K) (m : Map K V) → get j (remove k m) ≡ (if j == k then none else get j m)
  unfolding get remove
  get-remove j k [] = ground arith
  get-remove j k (x ∷ m) =
      ground (arith, e.beq_iff j k, e.beq_iff k x.0, e.beq_iff j x.0, get-remove j k m)

  pub get-insert_self : (k : K) (v : V) (m : Map K V) → get k (insert k v m) ≡ some v
  get-insert_self k v m = simp (get-insert, beq_refl)

  -- a property of all the values
  abbrev pub Values : (V → Type 0) → Map K V → Type 0
  Values P [] = Unit
  Values P (x ∷ m) = P x.1 × Values P m

  pub get-Values :
      (P : V → Type 0) (k : K) (v : V) (m : Map K V) → Values P m → get k m ≡ some v → P v
  unfolding get
  get-Values P k v [] h e = cc
  get-Values P k v (x ∷ m) h e = elim (Bool-cases (k == x.0)) [
    | inl b ↦ let same : x.1 ≡ v = ground arith in subst P same h.0
    | inr b ↦ get-Values P k v m h.1 (ground arith)
  ]

  pub insert-Values :
      (P : V → Type 0) (k : K) (v : V) (m : Map K V) → P v → Values P m → Values P (insert k v m)
  unfolding insert
  insert-Values P k v [] p h = (p, tt)
  insert-Values P k v (x ∷ m) p h = elim (Bool-cases (k == x.0)) [
    | inl b ↦ rw b (p, h.1)
    | inr b ↦ rw b (h.0, insert-Values P k v m p h.1)
  ]

  pub remove-Values : (P : V → Type 0) (k : K) (m : Map K V) → Values P m → Values P (remove k m)
  unfolding remove
  remove-Values P k [] h = tt
  remove-Values P k (x ∷ m) h = elim (Bool-cases (k == x.0)) [
    | inl b ↦ rw b (remove-Values P k m h.1)
    | inr b ↦ rw b (h.0, remove-Values P k m h.1)
  ]
