-- ===== src/Actors/Batcher/Sends.antt =====
-- `Batcher::add_transaction_to_account` of crates/actors/src/batcher.rs: a send or a deposit.
pub mod Moves
pub mod Conserves
pub mod Deposits
use lasr.Base.{
  Bool, true, false, not, ◌||◌, Option, none, some, List, [], ◌∷◌, ◌==◌, if◌then◌else◌, nat_eq,
  string_eq,
}
use lasr.Base.Map
use lasr.Base.Map.{Map}
use lasr.Types.Address.{Address, eth_addr, verse_addr}
use lasr.Types.Account.{Account, user, increment_nonce}
use lasr.Types.Account.Send.{apply_send_transaction}
use lasr.Types.Token.{Token}
use lasr.Types.Transaction.{Transaction, is_bridge_in}
use lasr.Types.U256.{Uint}
use lasr.Actors.Messages.{Hasher, scheduler_transaction_applied, pending_valid}
use lasr.Actors.Batch.{Encoder}
use lasr.Actors.Batcher.World.{
  Env, World, Task, ◌>>=◌, ◌>>◌, pure, fail, or_fail, call, try_call, get_account, fresh_account,
  cast, require, add_transaction_to_batch, add_accounts_to_batch, sender_missing, program_missing,
  self_missing, scheduler_missing, pending_missing,
}

module _ ⦃u : Uint⦄ (env : Env) where
  -- the account of the sender, with its token: an existing one, or a new one for a deposit
  abbrev pub apply_to_sender : Transaction → Option Account → Task (Token × Account)
  apply_to_sender tx (some account) = do
    (_, account') ← call increment_nonce account
    call (apply_send_transaction tx none) account'
  apply_to_sender tx none = do
    require (is_bridge_in tx.transaction_type) sender_missing
    program_account ← get_account env tx.program_id
    call (apply_send_transaction tx program_account) (fresh_account user tx.from)

  -- The error of the method is dropped.
  abbrev pub apply_with : Transaction → Account → Option Account → Task Account
  apply_with tx account (some p) = try_call (apply_send_transaction tx (some p)) account
  apply_with tx account none =
      if tx.program_id == eth_addr || tx.program_id == verse_addr
      then try_call (apply_send_transaction tx none) account
      else fail program_missing

  abbrev pub apply_to_recipient : Transaction → Account → Task Account
  apply_to_recipient tx account = get_account env tx.program_id >>= apply_with tx account

  abbrev or_fresh : Address → Option Account → Account
  or_fresh address none = fresh_account user address
  or_fresh address (some account) = account

  -- the recipient's account, found in the buffer or outside it, of a sender who pays itself
  abbrev find_self : Transaction → Map Address Account → Task Account
  find_self tx buffer = elim (Map.get tx.to buffer) [
    | some account ↦ pure account
    | none ↦ do found ← get_account env tx.to; or_fail self_missing found
  ]

  -- the buffer with the account of another recipient
  abbrev pub buffer_other : Transaction → Map Address Account → Task (Map Address Account)
  buffer_other tx buffer = do
    found ← get_account env tx.to
    account ← apply_to_recipient tx (or_fresh tx.to found)
    pure (Map.insert tx.to account buffer)

  abbrev pub buffer_self : Transaction → Map Address Account → Task (Map Address Account)
  buffer_self tx buffer = do
    account ← find_self tx buffer
    account' ← apply_to_recipient tx account
    pure (Map.insert tx.to account' buffer)

  unfoldable pub buffer_recipient : Transaction → Map Address Account → Task (Map Address Account)
  buffer_recipient tx buffer =
      if not (tx.to == tx.from)
      then buffer_other tx buffer
      else if is_bridge_in tx.transaction_type
      then pure buffer
      else buffer_self tx buffer

  unfoldable pub add_transaction_to_account :
      ⦃h : Hasher⦄ → ⦃c : Encoder⦄ → Transaction → Task (Unit {0})
  unfolding buffer_recipient add_accounts_to_batch add_transaction_to_batch
  add_transaction_to_account ⦃h⦄ tx = do
    found ← get_account env tx.from
    (token, account) ← apply_to_sender tx found
    buffer ← buffer_recipient tx (Map.insert tx.from account [])
    add_accounts_to_batch env buffer
    add_transaction_to_batch env tx
    require env.registry.scheduler scheduler_missing
    cast (scheduler_transaction_applied (h.hash_string tx) token)
    require env.registry.pending_transactions pending_missing
    cast (pending_valid tx)
