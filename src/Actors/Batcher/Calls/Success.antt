-- ===== src/Actors/Batcher/Calls/Success.antt =====
-- A call that the batcher applies: `apply_instructions_to_accounts` of crates/actors/src/batcher.rs.
use lasr.Base.{◌+◌, ◌<◌, ◌≡◌, arith, true, some, [], ◌∷◌, ◌++◌, nat_eq, string_eq}
use lasr.Base.Result.{ok}
use lasr.Types.Account.{Account}
use lasr.Types.Instruction.{Outputs}
use lasr.Types.Transaction.{Transaction}
use lasr.Types.U256.{u256_mod, Uint}
use lasr.Actors.Messages.{Hasher, pending_valid_call, scheduler_call_applied}
use lasr.Actors.AccountCache.{write_entry}
use lasr.Actors.Batch.{Encoder, insert_account, insert_transaction}
use lasr.Actors.Batcher.{Batcher, placed}
use lasr.Actors.Batcher.World.{Env, World, ended, find_account}
use lasr.Actors.Batcher.Instructions.{Buffer}
use lasr.Actors.Batcher.Tasks.{
  write_all, place_all, add_account_lem, add_accounts_lem, add_transaction_lem,
}
use lasr.Actors.Batcher.Sends.Moves.{bumped, increment_nonce_lem}
use lasr.Actors.Batcher.Calls.{apply_instructions, apply_instructions_to_accounts}
use lasr.Actors.Batcher.Calls.Failures.{called}

-- the world that a call leaves: both messages are sent
abbrev pub applied_world :
    ⦃h : Hasher⦄ → Transaction → Outputs → World → Account → Buffer → Batcher → Account → World
applied_world ⦃h⦄ tx outputs w program buffer batcher sender = record {
  cached = write_all buffer (write_entry (bumped program) w.cached);
  batcher = batcher;
  sent =
      (w.sent ++ pending_valid_call outputs tx ∷ [])
      ++ scheduler_call_applied (h.hash_string tx) sender ∷ [];
}

-- What a call takes: the account of the program, the buffer that its instructions make, room in the
-- batches, and the account of the sender after it.
pub record Applies ⦃u : Uint⦄ ⦃h : Hasher⦄ ⦃c : Encoder⦄ (env : Env) (tx : Transaction)
    (outputs : Outputs) (w : World) : Type 0 where
  pub program : Account
  pub buffer : Buffer
  pub after_program : Batcher
  pub after_buffer : Batcher
  pub after_transaction : Batcher
  pub sender : Account
  pub found : find_account env tx.to w ≡ some program
  pub next_nonce : program.nonce + 1 < u256_mod
  pub room : placed (insert_account (bumped program)) w.batcher ≡ some after_program
  pub runs :
      apply_instructions env tx outputs.instructions [] (called env tx w program after_program)
      ≡ ended (ok buffer) (called env tx w program after_program)
  pub buffer_room : place_all buffer after_program ≡ some after_buffer
  pub transaction_room : placed (insert_transaction tx) after_buffer ≡ some after_transaction
  pub found_sender :
      find_account env tx.from (applied_world tx outputs w program buffer after_transaction sender)
      ≡ some sender

module _ ⦃u : Uint⦄ ⦃h : Hasher⦄ ⦃c : Encoder⦄ (env : Env) (tx : Transaction)
    (outputs : Outputs) where
  abbrev pub applied : (w : World) → Applies env tx outputs w → World
  applied w a = applied_world tx outputs w a.program a.buffer a.after_transaction a.sender

  pub applied_call :
      (w : World) (a : Applies env tx outputs w)
      → env.registry.account_cache ≡ true
      → env.registry.scheduler ≡ true
      → env.registry.pending_transactions ≡ true
      → apply_instructions_to_accounts env tx outputs w ≡ ended (ok tt) (applied w a)
  unfolding apply_instructions_to_accounts
  applied_call w a up scheduler pending =
      let w₁ = called env tx w a.program a.after_program in
      let w₂ : World = record w₁ {
        cached = write_all a.buffer w₁.cached;
        batcher = a.after_buffer;
      } in
      ground (
        arith,
        a.found,
        increment_nonce_lem a.program a.next_nonce,
        add_account_lem env (bumped a.program) w a.after_program up a.room,
        a.runs,
        add_accounts_lem env a.buffer w₁ a.after_buffer up a.buffer_room,
        add_transaction_lem env tx w₂ a.after_transaction a.transaction_room,
        a.found_sender,
      )
