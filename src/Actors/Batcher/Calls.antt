-- ===== src/Actors/Batcher/Calls.antt =====
-- `Batcher::apply_instructions_to_accounts` and `apply_program_registration` of
-- crates/actors/src/batcher.rs, and what the actor starts for an `AppendTransaction`.
pub mod Transfers
pub mod Success
pub mod Failures
use lasr.Base.{
  String, Bool, true, false, Option, none, some, List, [], ◌∷◌, ◌++◌, ◌==◌, if◌then◌else◌, nat_eq,
  string_eq,
}
use lasr.Base.Map
use lasr.Base.Map.{Map}
use lasr.Base.Result.{Result, ok, err, panic}
use lasr.Types.Address.{Address}
use lasr.Types.Account.{Account, program, user, increment_nonce, new_account}
use lasr.Types.Instruction
use lasr.Types.Instruction.{
  Instruction, CreateInstruction, TokenDistribution, TokenOrProgramUpdate, Outputs,
}
use lasr.Types.Transaction.{
  Transaction, TransactionType, send, call, bridge_in, bridge_out, register_program,
}
use lasr.Types.U256.{Uint}
use lasr.Actors.Messages.{
  Hasher, Cast, cast_if, scheduler_call_applied, scheduler_call_failure,
  scheduler_registration_success, pending_valid_call, pending_invalid,
}
use lasr.Actors.Batch.{Encoder}
use lasr.Actors.Batcher.World
use lasr.Actors.Batcher.World.{
  Env, World, Ended, ended, endless, Task, ◌>>=◌, ◌>>◌, pure, fail, or_fail, get_account,
  fresh_account, cast, require, add_account_to_batch, add_transaction_to_batch,
  add_accounts_to_batch, caller_missing, deployer_missing, bad_inputs, scheduler_missing,
  pending_missing,
}
use lasr.Actors.Batcher.Sends.{add_transaction_to_account}
use lasr.Actors.Batcher.Instructions.{
  Buffer, buffered, add_account_to_batch_buffer, apply_transfer_instruction, apply_burn_instruction,
  apply_distribution, apply_update,
}

-- What is not of this code: `serde_json` on the inputs of a registration, with the text under
-- `contentId`, and `create_program_id` of the crate `contract`.
pub record Contract : Type 0 where
  pub content_id : String → Option String
  pub create_program_id : String → Transaction → Option Address

module _ ⦃u : Uint⦄ (env : Env) (tx : Transaction) where
  unfoldable pub apply_distributions : List TokenDistribution → Buffer → Task Buffer
  unfolding apply_distribution
  apply_distributions [] buffer = pure buffer
  apply_distributions (d ∷ ds) buffer = do
    account ← apply_distribution env tx d buffer
    apply_distributions ds (add_account_to_batch_buffer buffer account)

  unfoldable pub apply_updates : List TokenOrProgramUpdate → Buffer → Task Buffer
  unfolding apply_update
  apply_updates [] buffer = pure buffer
  apply_updates (update ∷ updates) buffer = do
    account ← apply_update env tx update buffer
    apply_updates updates (add_account_to_batch_buffer buffer account)

  abbrev pub or_created : Option Account → Account
  or_created none = fresh_account (program tx.to) tx.from
  or_created (some account) = account

  -- The metadata with the supplies is made but not given to the new account.
  unfoldable pub try_create_program_account : CreateInstruction → Buffer → Task Account
  try_create_program_account create buffer = do
    found ← buffered env tx buffer tx.to
    pure (or_created found)

  unfoldable pub apply_instruction : Instruction → Buffer → Task Buffer
  unfolding apply_transfer_instruction apply_burn_instruction apply_distributions apply_updates
      try_create_program_account
  apply_instruction (Instruction.transfer transfer) buffer = do
    (from_account, to_account) ← apply_transfer_instruction env tx transfer buffer
    pure (add_account_to_batch_buffer (add_account_to_batch_buffer buffer from_account) to_account)
  apply_instruction (Instruction.burn burn) buffer = do
    account ← apply_burn_instruction env tx burn buffer
    pure (add_account_to_batch_buffer buffer account)
  apply_instruction (Instruction.create create) buffer = do
    buffer' ← apply_distributions create.distribution buffer
    account ← try_create_program_account create buffer'
    pure (add_account_to_batch_buffer buffer' account)
  apply_instruction (Instruction.update update) buffer = apply_updates update.updates buffer
  apply_instruction (Instruction.log _) buffer = pure buffer

  unfoldable pub apply_instructions : List Instruction → Buffer → Task Buffer
  unfolding apply_instruction
  apply_instructions [] buffer = pure buffer
  apply_instructions (i ∷ is) buffer = apply_instruction i buffer >>= apply_instructions is

  module _ ⦃h : Hasher⦄ ⦃c : Encoder⦄ where
    -- a local copy with the next nonce, or the panic of the sum
    abbrev pub with_nonce : Account → Task Account
    with_nonce account = do (_, account') ← World.call increment_nonce account; pure account'

    -- The account whose nonce grows is that of `to`, the called program.
    unfoldable pub apply_instructions_to_accounts : Outputs → Task (Unit {0})
    unfolding apply_instructions add_account_to_batch add_accounts_to_batch add_transaction_to_batch
    apply_instructions_to_accounts outputs = do
      found ← get_account env tx.to
      account ← or_fail caller_missing found
      caller ← with_nonce account
      add_account_to_batch env caller
      buffer ← apply_instructions outputs.instructions []
      add_accounts_to_batch env buffer
      add_transaction_to_batch env tx
      require env.registry.scheduler scheduler_missing
      require env.registry.pending_transactions pending_missing
      cast (pending_valid_call outputs tx)
      found' ← get_account env tx.from
      sender ← or_fail caller_missing found'
      cast (scheduler_call_applied (h.hash_string tx) sender)

    -- the failure that the scheduler is told before the error is returned
    abbrev deployer : Option Account → Task Account
    deployer (some account) = pure account
    deployer none = cast (scheduler_call_failure (h.hash_string tx)) >> fail deployer_missing

    unfoldable pub apply_program_registration : Contract → Task (Unit {0})
    unfolding add_account_to_batch
    apply_program_registration contract = do
      require env.registry.scheduler scheduler_missing
      found ← get_account env tx.from
      account ← deployer found
      content_id ← or_fail bad_inputs (contract.content_id tx.inputs)
      program_id ← or_fail bad_inputs (contract.create_program_id content_id tx)
      add_account_to_batch env (record (fresh_account (program program_id) tx.from) {
        program_account_metadata = ("content_id", content_id) ∷ [];
      })
      account' ← with_nonce account
      add_account_to_batch env account'
      cast (scheduler_registration_success program_id tx)

    -- what `BatcherMessage::AppendTransaction` starts; a call without outputs only goes to the log
    abbrev pub appended : Contract → Option Outputs → Task (Unit {0})
    appended contract outputs = elim tx.transaction_type [
      | send _ ↦ add_transaction_to_account env tx
      | bridge_in _ ↦ add_transaction_to_account env tx
      | call _ ↦ elim outputs [ some o ↦ apply_instructions_to_accounts o | none ↦ pure tt ]
      | register_program _ ↦ apply_program_registration contract
      | bridge_out _ ↦ pure tt
    ]

    -- `handle_transaction_error`, which the pool calls for a task that ends in an error
    abbrev reported : Ended (Unit {0}) → Ended (Unit {0})
    reported (ended (err e) w) = ended (err e) (record w {
      sent = w.sent ++ cast_if env.registry.pending_transactions (pending_invalid tx);
    })
    reported (ended r w) = ended r w
    reported endless = endless

    unfoldable pub append_transaction : Contract → Option Outputs → Task (Unit {0})
    unfolding apply_instructions_to_accounts apply_program_registration add_transaction_to_account
    append_transaction contract outputs w = reported (appended contract outputs w)
