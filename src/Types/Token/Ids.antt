-- ===== src/Types/Token/Ids.antt =====
-- What `remove_token_ids` and `add_token_ids` do to the ids that a token holds.
use lasr.Base.{
  ℕ, suc, ◌≤◌, ◌≡◌, refl, true, false, not, ◌&&◌, none, some, List, [], ◌∷◌, ◌++◌, arith, ◌==◌,
  if◌then◌else◌, nat_eq, length, retain, contains, contains-retain, contains-append, all,
  all-contains, ◌∙◌,
}
use lasr.Base.Result.{ok, err}
use lasr.Types.Error.{token_ids_not_owned}
use lasr.Types.Token.{Token, position_from, positions, remove_token_ids, add_token_ids}
use lasr.Types.U256.{U256}

-- an id has a position exactly when it is held
position_from-contains :
    (i : ℕ) (nft : U256) (owned : List U256)
    → contains owned nft ≡ elim (position_from i nft owned) [ none ↦ false | some _ ↦ true ]
position_from-contains i nft [] = refl
position_from-contains i nft (x ∷ xs) = ground (arith, position_from-contains (suc i) nft xs)

length-positions-le : (owned ids : List U256) → length (positions owned ids) ≤ length ids
unfolding positions
length-positions-le owned [] = omega arith
length-positions-le owned (x ∷ xs) = ground (arith, length-positions-le owned xs)

length-positions :
    (owned ids : List U256)
    → (length (positions owned ids) == length ids) ≡ all (contains owned) ids
unfolding positions
length-positions owned [] = refl
length-positions owned (x ∷ xs) = ground (
  arith,
  position_from-contains 0 x owned,
  length-positions owned xs,
  length-positions-le owned xs,
)

-- `remove_token_ids`, in full
pub remove_token_ids_lem :
    (ids : List U256) (t : Token)
    → remove_token_ids ids t ≡ (
        if all (contains t.token_ids) ids
        then (ok tt, record t { token_ids = retain (λ i. not (contains ids i)) t.token_ids })
        else (err token_ids_not_owned, t))
unfolding remove_token_ids
remove_token_ids_lem ids t = ground (arith, length-positions t.token_ids ids)

-- An id is held after a removal that succeeds exactly when it was held and is not in the list.
pub remove_token_ids-held :
    (ids : List U256) (t : Token)
    → all (contains t.token_ids) ids ≡ true
    → (nft : U256)
    → contains (remove_token_ids ids t).1.token_ids nft
      ≡ (not (contains ids nft) && contains t.token_ids nft)
remove_token_ids-held ids t h nft =
    rw (remove_token_ids_lem, h) (contains-retain (λ i. not (contains ids i)) t.token_ids nft)

-- The removal of ids that were just added succeeds; an id is held then exactly if it was held
-- before and is not among them.
pub remove-add_token_ids :
    (ids : List U256) (t : Token) (nft : U256)
    → let t' = (add_token_ids ids t).1 in
      ((remove_token_ids ids t').0 ≡ ok tt)
      × (contains (remove_token_ids ids t').1.token_ids nft
          ≡ (not (contains ids nft) && contains t.token_ids nft))
unfolding add_token_ids
remove-add_token_ids ids t nft =
    let t' : Token = record t { token_ids = t.token_ids ++ ids } in
    let h : all (contains (t.token_ids ++ ids)) ids ≡ true =
      all-contains (t.token_ids ++ ids) ids
        (λ a found. ground (arith, contains-append t.token_ids ids a)) in
    (
      rw (remove_token_ids_lem, h),
      remove_token_ids-held ids t' h nft ∙ ground (arith, contains-append t.token_ids ids nft),
    )
