-- ===== src/Base/Lists.antt =====
-- Lists measured by native numbers, membership by a Boolean equality, and the parts of `Vec` that
-- the program uses.
use Prim.Native.Nat.{ℕ, suc, ◌+◌}
use mathlib.Core.Path.{◌≡◌, refl, ap}
use mathlib.Core.Bool.{Bool, true, false, ◌&&◌, ◌||◌}
use mathlib.Core.List.{List, [], ◌∷◌, ◌++◌, map}
use native.Mathlib.Omega.{arith}
use lasr.Base.Tests.{Eq, ◌==◌, if◌then◌else◌}

module _ {ℓ} {A : Type ℓ} where
  abbrev pub length : List A → ℕ
  length [] = 0
  length (x ∷ xs) = suc (length xs)

  -- `Vec::is_empty`
  abbrev pub is_empty : List A → Bool
  is_empty [] = true
  is_empty (x ∷ xs) = false

  -- `Vec::retain`
  abbrev pub retain : (A → Bool) → List A → List A
  retain p [] = []
  retain p (x ∷ xs) = if p x then x ∷ retain p xs else retain p xs

  -- `Iterator::all`
  abbrev pub all : (A → Bool) → List A → Bool
  all p [] = true
  all p (x ∷ xs) = p x && all p xs

  abbrev pub All {κ} : (A → Type κ) → List A → Type κ
  All P [] = Unit
  All P (x ∷ xs) = P x × All P xs

module _ {ℓ} {A : Type ℓ} where
  pub retain-true : (xs : List A) → retain (λ _. true) xs ≡ xs
  retain-true [] = refl
  retain-true (x ∷ xs) = ap (◌∷◌ x) (retain-true xs)

module _ {ℓ} {A : Type ℓ} ⦃e : Eq A⦄ where
  -- `Vec::contains`
  abbrev pub contains : List A → A → Bool
  contains [] a = false
  contains (x ∷ xs) a = a == x || contains xs a

  -- `Iterator::position` of an equal element, then `Vec::remove` there
  abbrev pub remove_first : A → List A → List A
  remove_first a [] = []
  remove_first a (x ∷ xs) = if a == x then xs else x ∷ remove_first a xs

  pub contains-append :
      (xs ys : List A) (a : A) → contains (xs ++ ys) a ≡ (contains xs a || contains ys a)
  contains-append [] ys a = refl
  contains-append (x ∷ xs) ys a = ground (arith, contains-append xs ys a)

  pub contains-retain :
      (p : A → Bool) (xs : List A) (a : A) → contains (retain p xs) a ≡ (p a && contains xs a)
  contains-retain p [] a = ground arith
  contains-retain p (x ∷ xs) a = ground (arith, e.beq_iff a x, contains-retain p xs a)

  pub contains-cons_self : (x : A) (xs : List A) → contains (x ∷ xs) x ≡ true
  contains-cons_self x xs = ground (arith, e.beq_iff x x)

  -- a list of elements that are all found
  pub all-contains :
      (owned xs : List A)
      → ((a : A) → contains xs a ≡ true → contains owned a ≡ true)
      → all (contains owned) xs ≡ true
  all-contains owned [] h = refl
  all-contains owned (x ∷ xs) h =
      ground (
        arith,
        h x (contains-cons_self x xs),
        all-contains owned xs (λ a found. h a (ground arith)),
      )

  pub contains_of_all :
      (owned xs : List A) (a : A)
      → all (contains owned) xs ≡ true
      → contains xs a ≡ true
      → contains owned a ≡ true
  contains_of_all owned [] a h found = cc
  contains_of_all owned (x ∷ xs) a h found =
      ground (arith, e.beq_iff a x, contains_of_all owned xs a)

-- how many elements pass the test
abbrev pub tally : {A : Type 0} → (A → Bool) → List A → ℕ
tally p [] = 0
tally p (x ∷ xs) = (if p x then 1 else 0) + tally p xs

pub tally-append :
    {A : Type 0} (p : A → Bool) (xs ys : List A) → tally p (xs ++ ys) ≡ tally p xs + tally p ys
tally-append p [] ys = omega arith
tally-append p (x ∷ xs) ys = omega (arith, tally-append p xs ys)

pub tally-map :
    {A B : Type 0} (p : B → Bool) (f : A → B) (xs : List A)
    → tally p (map f xs) ≡ tally (λ x. p (f x)) xs
tally-map p f [] = refl
tally-map p f (x ∷ xs) = omega (arith, tally-map p f xs)
