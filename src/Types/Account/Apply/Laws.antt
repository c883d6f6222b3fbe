-- ===== src/Types/Account/Apply/Laws.antt =====
-- What `give` and `take_away` do to a token: the parts that the instructions share.
use mathlib.Core.List.{append-nil}
use lasr.Base.{
  ◌+◌, ◌-◌, ◌≤◌, ◌<◌, ◌≡◌, true, false, not, Option, none, some, List, [], ◌∷◌, ◌++◌, arith, nat_eq,
  contains, all, retain, retain-true,
}
use lasr.Base.Result.{ok, err}
use lasr.Types.Account.Apply.{give, take_away}
use lasr.Types.Error.{token_ids_not_owned, exceeds_balance}
use lasr.Types.Token.{Token, add_token_ids}
use lasr.Types.Token.Balance.{debit_lem, credit_lem}
use lasr.Types.Token.Ids.{remove_token_ids_lem}
use lasr.Types.U256.{U256, u256_mod, Uint}

abbrev pub amount_of : Option U256 → U256
amount_of none = 0
amount_of (some x) = x

module _ ⦃u : Uint⦄ where
  -- a gift that fits
  pub give_lem :
      (amount : Option U256) (ids : List U256) (t : Token)
      → t.balance + amount_of amount < u256_mod
      → give amount ids t ≡ (
        ok tt,
        record t { balance = t.balance + amount_of amount; token_ids = t.token_ids ++ ids },
      )
  unfolding give add_token_ids
  give_lem none [] t h = ground (arith, append-nil t.token_ids)
  give_lem none (i ∷ ids) t h = ground arith
  give_lem (some x) [] t h = ground (arith, credit_lem x t, append-nil t.token_ids)
  give_lem (some x) (i ∷ ids) t h = ground (arith, credit_lem x t)

  -- what a token keeps of its ids
  abbrev pub without : List U256 → List U256 → List U256
  without ids owned = retain (λ i. not (contains ids i)) owned

  pub take_away_lem :
      (amount : Option U256) (ids : List U256) (t : Token)
      → amount_of amount ≤ t.balance
      → all (contains t.token_ids) ids ≡ true
      → take_away amount ids t ≡ (
        ok tt,
        record t { balance = t.balance - amount_of amount; token_ids = without ids t.token_ids },
      )
  unfolding take_away
  take_away_lem none [] t h k = ground (arith, retain-true t.token_ids)
  take_away_lem none (i ∷ ids) t h k = ground (arith, remove_token_ids_lem (i ∷ ids) t)
  take_away_lem (some x) [] t h k = ground (arith, debit_lem x t, retain-true t.token_ids)
  take_away_lem (some x) (i ∷ ids) t h k =
      ground (
        arith,
        debit_lem x t,
        remove_token_ids_lem (i ∷ ids) (record t { balance = t.balance - x }),
      )

  pub take_away_short :
      (amount : U256) (ids : List U256) (t : Token)
      → t.balance < amount
      → take_away (some amount) ids t ≡ (err exceeds_balance, t)
  unfolding take_away
  take_away_short amount ids t h = ground (arith, debit_lem amount t)

  pub take_away_missing :
      (amount : U256) (ids : List U256) (t : Token)
      → amount ≤ t.balance
      → all (contains t.token_ids) ids ≡ false
      → take_away (some amount) ids t
        ≡ (err token_ids_not_owned, record t { balance = t.balance - amount })
  unfolding take_away
  take_away_missing amount [] t h k = cc
  take_away_missing amount (i ∷ ids) t h k = ground (
    arith,
    debit_lem amount t,
    remove_token_ids_lem (i ∷ ids) (record t { balance = t.balance - amount }),
  )
