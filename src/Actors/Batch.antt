-- ===== src/Actors/Batch.antt =====
-- `Batch` of crates/actors/src/batcher.rs: the transactions and accounts that are settled together,
-- and its bound on the encoded size.
pub mod Bounds
use lasr.Base.{
  ℕ, ◌*◌, String, Bool, true, false, Option, none, some, List, [], ◌∷◌, ◌&&◌, leb, if◌then◌else◌,
  is_empty, nat_eq, string_eq,
}
use lasr.Base.Map
use lasr.Base.Map.{Map}
use lasr.Types.Address.{Address}
use lasr.Types.Account.{Account, AccountType, user, program, token_owner}
use lasr.Types.Transaction.{Transaction}
use lasr.Actors.Messages.{Hasher}

-- The keys of `accounts` are addresses in hexadecimal.
pub record Batch : Type 0 where
  pub transactions : Map String Transaction
  pub accounts : Map Address Account

-- `encode_batch` with its libraries (JSON, zlib, the padding for KZG, base64): the length of the
-- text, or nothing if a step fails.
pub record Encoder : Type 0 where
  pub encoded_length : Batch → Option ℕ

abbrev pub new_batch : Batch
new_batch = record { transactions = []; accounts = [] }

abbrev pub empty : Batch → Bool
empty b = is_empty b.transactions && is_empty b.accounts

abbrev pub get_user_account : Address → Batch → Option Account
get_user_account address b = Map.get address b.accounts

abbrev pub get_transaction : String → Batch → Option Transaction
get_transaction id b = Map.get id b.transactions

abbrev pub get_program_account : AccountType → Batch → Option Account
get_program_account user b = none
get_program_account (program p) b = Map.get p b.accounts

abbrev pub capacity : ℕ
capacity = 512 * 1024

module _ ⦃c : Encoder⦄ where
  -- `at_capacity`, with `check_size`
  abbrev pub at_capacity : Batch → Option Bool
  at_capacity b = elim (c.encoded_length b) [ none ↦ none | some n ↦ some (leb capacity n) ]

  -- `is_some_and(|at_cap| !at_cap)`
  abbrev pub has_room : Option Bool → Bool
  has_room none = false
  has_room (some true) = false
  has_room (some false) = true

  abbrev pub with_transaction : ⦃h : Hasher⦄ → Transaction → Batch → Batch
  with_transaction ⦃h⦄ tx b = record b {
    transactions = Map.insert (h.hash_string tx) tx b.transactions;
  }

  abbrev pub with_account : Address → Account → Batch → Batch
  with_account key account b = record b { accounts = Map.insert key account b.accounts }

  -- `none` is the error that the batch is at capacity
  unfoldable pub insert_transaction : ⦃h : Hasher⦄ → Transaction → Batch → Option Batch
  insert_transaction tx b =
      if has_room (at_capacity (with_transaction tx b)) then some (with_transaction tx b) else none

  -- The test is made with the owner's address as the key, for a program's account too.
  unfoldable pub insert_account : Account → Batch → Option Batch
  insert_account account b =
      if has_room (at_capacity (with_account account.owner_address account b))
      then some (with_account (token_owner account) account b)
      else none
