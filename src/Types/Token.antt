-- ===== src/Types/Token.antt =====
-- `Token` of crates/types/src/token.rs, and its methods on the balance and the token ids.
pub mod Balance
pub mod Ids
use mathlib.Core.List.{filter_map}
use lasr.Base.{
  ℕ, zero, suc, String, Bool, true, false, not, Option, none, some, List, [], ◌∷◌, ◌++◌, ltb, ◌==◌,
  if◌then◌else◌, nat_eq, length, retain, contains,
}
use lasr.Base.Map.{Map}
use lasr.Base.Result.{Method, or_panic, reject_if, gets, modify, ◌>>=◌, ◌>>◌}
use lasr.Types.Address.{Address}
use lasr.Types.Error.{TypesError, exceeds_balance, token_ids_not_owned}
use lasr.Types.U256.{U256, Uint, checked_add, checked_sub}

abbrev pub ArbitraryData : Type 0
ArbitraryData = Map String String

abbrev pub Metadata : Type 0
Metadata = Map String String

pub data Status : Type 0 where
  locked free : Status

-- The field `data` is named `arbitrary_data` here.
pub record Token : Type 0 where
  pub program_id : Address
  pub owner_id : Address
  pub balance : U256
  pub metadata : Metadata
  pub token_ids : List U256
  pub allowance : Map Address U256
  pub approvals : Map Address (List U256)
  pub arbitrary_data : ArbitraryData
  pub status : Status

-- A method of `&mut Token`.
abbrev pub TokenMethod : Type 0 → Type 0
TokenMethod = Method TypesError Token

module _ ⦃u : Uint⦄ where
  unfoldable pub debit : U256 → TokenMethod (Unit {0})
  debit amount = do
    t ← gets (λ t. t)
    reject_if (ltb t.balance amount) exceeds_balance
    balance ← or_panic (checked_sub t.balance amount)
    modify (λ t. record t { balance = balance })

  unfoldable pub credit : U256 → TokenMethod (Unit {0})
  credit amount = do
    t ← gets (λ t. t)
    balance ← or_panic (checked_add t.balance amount)
    modify (λ t. record t { balance = balance })

  -- `+=` first: it may panic although the difference would fit
  unfoldable pub update_balance : U256 → U256 → TokenMethod (Unit {0})
  update_balance receive send = do
    t ← gets (λ t. t)
    received ← or_panic (checked_add t.balance receive)
    modify (λ t. record t { balance = received })
    balance ← or_panic (checked_sub received send)
    modify (λ t. record t { balance = balance })

-- `iter().position(|i| i == nft)`
abbrev pub position_from : ℕ → U256 → List U256 → Option ℕ
position_from i nft [] = none
position_from i nft (x ∷ xs) = if x == nft then some i else position_from (suc i) nft xs

unfoldable pub positions : List U256 → List U256 → List ℕ
positions owned [] = []
positions owned (nft ∷ token_ids) = elim (position_from 0 nft owned) [
  | none ↦ positions owned token_ids
  | some i ↦ i ∷ positions owned token_ids
]

unfoldable pub remove_token_ids : List U256 → TokenMethod (Unit {0})
remove_token_ids token_ids = do
  t ← gets (λ t. t)
  reject_if (not (length (positions t.token_ids token_ids) == length token_ids)) token_ids_not_owned
  modify (λ t. record t { token_ids = retain (λ i. not (contains token_ids i)) t.token_ids })

unfoldable pub add_token_ids : List U256 → TokenMethod (Unit {0})
add_token_ids token_ids = modify (λ t. record t { token_ids = t.token_ids ++ token_ids })
