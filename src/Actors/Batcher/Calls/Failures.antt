-- ===== src/Actors/Batcher/Calls/Failures.antt =====
-- A call whose instructions fail: nothing of them reaches the cache or a batch.
use lasr.Base.{◌+◌, ◌<◌, ◌≡◌, arith, true, some, List, [], ◌∷◌, ◌==◌, if◌then◌else◌, nat_eq}
use lasr.Base.Map.{get-insert}
use lasr.Base.Result.{err}
use lasr.Types.Address.{Address}
use lasr.Types.Account.{Account, token_owner}
use lasr.Types.Instruction.{
  Instruction, CreateInstruction, TokenDistribution, TokenOrProgramUpdate, Outputs,
}
use lasr.Types.Transaction.{Transaction}
use lasr.Types.U256.{u256_mod, Uint}
use lasr.Actors.AccountCache.{write_entry}
use lasr.Actors.Messages.{Hasher}
use lasr.Actors.Batch.{Encoder, insert_account}
use lasr.Actors.Batcher.{Batcher, placed}
use lasr.Actors.Batcher.World.{Env, World, BatcherError, ended, find_account}
use lasr.Actors.Batcher.Tasks.{add_account_lem}
use lasr.Actors.Batcher.Sends.Moves.{bumped, increment_nonce_lem}
use lasr.Actors.Batcher.Instructions.{
  Buffer, buffered, add_account_to_batch_buffer, apply_transfer_instruction, apply_burn_instruction,
  apply_distribution, apply_update,
}
use lasr.Actors.Batcher.Instructions.Reading.{
  IsReading, buffered-IsReading, pure-IsReading, bind-IsReading,
  apply_transfer_instruction-IsReading, apply_burn_instruction-IsReading,
  apply_distribution-IsReading, apply_update-IsReading,
}
use lasr.Actors.Batcher.Calls.{
  apply_distributions, apply_updates, or_created, try_create_program_account, apply_instruction,
  apply_instructions, apply_instructions_to_accounts,
}

module _ ⦃u : Uint⦄ (env : Env) (tx : Transaction) where
  apply_distributions-IsReading :
      (ds : List TokenDistribution) (buffer : Buffer)
      → IsReading (apply_distributions env tx ds buffer)
  unfolding apply_distributions
  apply_distributions-IsReading [] buffer = pure-IsReading buffer
  apply_distributions-IsReading (d ∷ ds) buffer =
      bind-IsReading (apply_distribution env tx d buffer) _
        (apply_distribution-IsReading env tx d buffer)
        (λ account. apply_distributions-IsReading ds (add_account_to_batch_buffer buffer account))

  apply_updates-IsReading :
      (updates : List TokenOrProgramUpdate) (buffer : Buffer)
      → IsReading (apply_updates env tx updates buffer)
  unfolding apply_updates
  apply_updates-IsReading [] buffer = pure-IsReading buffer
  apply_updates-IsReading (update ∷ updates) buffer =
      bind-IsReading (apply_update env tx update buffer) _
        (apply_update-IsReading env tx update buffer)
        (λ account. apply_updates-IsReading updates (add_account_to_batch_buffer buffer account))

  try_create-IsReading :
      (create : CreateInstruction) (buffer : Buffer)
      → IsReading (try_create_program_account env tx create buffer)
  unfolding try_create_program_account
  try_create-IsReading create buffer =
      bind-IsReading (buffered env tx buffer tx.to) _ (buffered-IsReading env tx buffer tx.to)
        (λ found. pure-IsReading (or_created env tx found))

  apply_instruction-IsReading :
      (i : Instruction) (buffer : Buffer) → IsReading (apply_instruction env tx i buffer)
  unfolding apply_instruction
  apply_instruction-IsReading (Instruction.transfer t) buffer =
      bind-IsReading (apply_transfer_instruction env tx t buffer) _
        (apply_transfer_instruction-IsReading env tx t buffer) (λ _. pure-IsReading _)
  apply_instruction-IsReading (Instruction.burn b) buffer =
      bind-IsReading (apply_burn_instruction env tx b buffer) _
        (apply_burn_instruction-IsReading env tx b buffer) (λ _. pure-IsReading _)
  apply_instruction-IsReading (Instruction.create c) buffer =
      bind-IsReading (apply_distributions env tx c.distribution buffer) _
        (apply_distributions-IsReading c.distribution buffer)
        (λ buffer'.
          bind-IsReading (try_create_program_account env tx c buffer') _
            (try_create-IsReading c buffer') (λ _. pure-IsReading _))
  apply_instruction-IsReading (Instruction.update update) buffer =
      apply_updates-IsReading update.updates buffer
  apply_instruction-IsReading (Instruction.log _) buffer = pure-IsReading buffer

  -- The application of any instructions to any buffer comes to an end in every world, with a
  -- buffer, an error or a panic, and leaves the world as it is: the cached accounts, the batches and
  -- the messages sent.
  pub apply_instructions-IsReading :
      (is : List Instruction) (buffer : Buffer) → IsReading (apply_instructions env tx is buffer)
  unfolding apply_instructions
  apply_instructions-IsReading [] buffer = pure-IsReading buffer
  apply_instructions-IsReading (i ∷ is) buffer =
      bind-IsReading (apply_instruction env tx i buffer) _ (apply_instruction-IsReading i buffer)
        (apply_instructions-IsReading is)

  -- the world in which the instructions of a call run
  abbrev pub called : World → Account → Batcher → World
  called w a batcher = record w { cached = write_entry (bumped a) w.cached; batcher = batcher }

  module _ ⦃h : Hasher⦄ ⦃c : Encoder⦄ where
    -- A call of a program whose account is found under its own address, has a nonce that can grow
    -- and finds room in a batch, and whose instructions fail in the world after that account was
    -- written: the call fails with their error in that same world, where every account is found as
    -- before, but the program's, which has the next nonce.
    pub failed_call :
        (outputs : Outputs) (w : World) (a : Account) (batcher : Batcher) (e : BatcherError)
        (other : Address)
        → env.registry.account_cache ≡ true
        → find_account env tx.to w ≡ some a
        → token_owner a ≡ tx.to
        → a.nonce + 1 < u256_mod
        → placed (insert_account (bumped a)) w.batcher ≡ some batcher
        → let w₁ = called w a batcher in
          apply_instructions env tx outputs.instructions [] w₁ ≡ ended (err e) w₁
          → (apply_instructions_to_accounts env tx outputs w ≡ ended (err e) w₁)
            × (find_account env other w₁
                ≡ (if other == tx.to then some (bumped a) else find_account env other w))
    unfolding apply_instructions_to_accounts
    failed_call outputs w a batcher e other up at located fits room fails =
        let w₁ = called w a batcher in
        (
          ground (
            arith,
            increment_nonce_lem a fits,
            add_account_lem env (bumped a) w batcher up room,
            fails,
          ),
          ground (arith, located, get-insert other (token_owner a) (bumped a) w.cached),
        )
