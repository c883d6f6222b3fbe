-- ===== src/Actors/Batcher/World.antt =====
-- What the batcher's tasks read and write, and the tasks themselves: crates/actors/src/batcher.rs.
-- A task may fail, panic, or never end. The account cache has a write before the batcher's next
-- read, since both are messages of one sender; other senders' messages in between are not modelled,
-- and a reply is never late.
use lasr.Base.{
  Bool, true, false, Option, none, some, List, [], ◌∷◌, ◌++◌, nat_eq, string_eq, if◌then◌else◌,
}
use lasr.Base.Map
use lasr.Base.Map.{Map}
use lasr.Base.Result.{Result, ok, err, panic}
use lasr.Types.Address.{Address}
use lasr.Types.Error.{TypesError}
use lasr.Types.Account.{Account, AccountMethod, AccountType, new_account}
use lasr.Types.Transaction.{Transaction}
use lasr.Actors.Messages.{Hasher, Registry, Cast}
use lasr.Actors.Batch.{Encoder, insert_transaction, insert_account}
use lasr.Actors.AccountCache.{write_entry}
use lasr.Actors.Batcher.{Batcher, placed}

-- the actors that are up, and the accounts of the persistence store
pub record Env : Type 0 where
  pub registry : Registry
  pub stored : Address → Option Account

pub record World : Type 0 where
  pub cached : Map Address Account
  pub batcher : Batcher
  pub sent : List Cast

-- each error named after its message
pub data BatcherError : Type 0 where
  types_error : TypesError → BatcherError
  sender_missing program_missing self_missing : BatcherError
  from_missing namespace_unsupported address_required this_missing : BatcherError
  caller_missing deployer_missing bad_inputs : BatcherError
  scheduler_missing pending_missing : BatcherError

pub data Ended (A : Type 0) : Type 0 where
  ended : Result BatcherError A → World → Ended A
  endless : Ended A

abbrev pub Task : Type 0 → Type 0
Task A = World → Ended A

abbrev pub and_then : {A B : Type 0} → (A → Task B) → Ended A → Ended B
and_then f endless = endless
and_then f (ended (ok a) w) = f a w
and_then f (ended (err e) w) = ended (err e) w
and_then f (ended panic w) = ended panic w

infixl 5 ◌>>=◌ ◌>>◌
abbrev pub ◌>>=◌ : {A B : Type 0} → Task A → (A → Task B) → Task B
m >>= f = λ w. and_then f (m w)

abbrev pub ◌>>◌ : {A B : Type 0} → Task A → Task B → Task B
m >> k = m >>= λ _. k

abbrev pub pure : {A : Type 0} → A → Task A
pure a w = ended (ok a) w

abbrev pub fail : {A : Type 0} → BatcherError → Task A
fail e w = ended (err e) w

-- `ok_or`
abbrev pub or_fail : {A : Type 0} → BatcherError → Option A → Task A
or_fail e none w = ended (err e) w
or_fail e (some a) w = ended (ok a) w

-- a method of a local copy of an account, with `?`
abbrev pub outcome : {A : Type 0} → Result TypesError A × Account → Task (A × Account)
outcome (ok a, account) w = ended (ok (a, account)) w
outcome (err e, account) w = ended (err (types_error e)) w
outcome (panic, account) w = ended panic w

abbrev pub call : {A : Type 0} → AccountMethod A → Account → Task (A × Account)
call m account = outcome (m account)

-- the same with `let _ =`: an error is dropped, and what the method wrote before it stays
abbrev kept : {A : Type 0} → Result TypesError A × Account → Task Account
kept (ok _, account) w = ended (ok account) w
kept (err _, account) w = ended (ok account) w
kept (panic, account) w = ended panic w

abbrev pub try_call : {A : Type 0} → AccountMethod A → Account → Task Account
try_call m account = kept (m account)

-- `get_account` of crates/actors/src/helpers.rs, with the handling of `Read` by the account cache
abbrev pub find_account : Env → Address → World → Option Account
find_account env address w =
    if env.registry.account_cache
    then elim (Map.get address w.cached) [ some account ↦ some account | none ↦ env.stored address ]
    else none

abbrev pub get_account : Env → Address → Task (Option Account)
get_account env address w = ended (ok (find_account env address w)) w

-- the account that an `AccountBuilder` makes with everything empty
abbrev pub fresh_account : AccountType → Address → Account
fresh_account account_type owner = new_account account_type none owner none

abbrev pub cast : Cast → Task (Unit {0})
cast message w = ended (ok tt) (record w { sent = w.sent ++ message ∷ [] })

-- `if let Some(actor) = get_actor_ref(…) { … } else { return Err(…) }`
abbrev pub require : Bool → BatcherError → Task (Unit {0})
require true e w = ended (ok tt) w
require false e w = ended (err e) w

-- the world with the batcher that a search for room has found
abbrev with_batcher : World → Option Batcher → Ended (Unit {0})
with_batcher w none = endless
with_batcher w (some batcher) = ended (ok tt) (record w { batcher = batcher })

-- `cache_account`
abbrev pub cache_account : Env → Account → World → World
cache_account env account w =
    if env.registry.account_cache then record w { cached = write_entry account w.cached } else w

module _ ⦃c : Encoder⦄ (env : Env) where
  unfoldable pub add_account_to_batch : Account → Task (Unit {0})
  add_account_to_batch account w =
      let w' = cache_account env account w in
      with_batcher w' (placed (insert_account account) w'.batcher)

  unfoldable pub add_transaction_to_batch : ⦃h : Hasher⦄ → Transaction → Task (Unit {0})
  add_transaction_to_batch tx w = with_batcher w (placed (insert_transaction tx) w.batcher)

  -- the loop over the buffer
  unfoldable pub add_accounts_to_batch : Map Address Account → Task (Unit {0})
  add_accounts_to_batch [] = pure tt
  add_accounts_to_batch ((_, account) ∷ buffer) =
      add_account_to_batch account >> add_accounts_to_batch buffer
