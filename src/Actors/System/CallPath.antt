-- ===== src/Actors/System/CallPath.antt =====
-- The first half of a client's call, in crates/actors/src: scheduler.rs, engine.rs, executor.rs,
-- pending_transactions.rs, and back to scheduler.rs and executor.rs.
pub mod Settles
use lasr.Base.{
  ℕ, ◌+◌, ◌≡◌, refl, ◌∙◌, ap, arith, String, true, Option, none, some, List, [], ◌∷◌, ◌++◌,
  append-nil, All, nat_eq, string_eq,
}
use lasr.Base.Map
use lasr.Base.Map.{Map, get-insert_self, get-remove, beq_refl}
use lasr.Base.Result.{ok}
use lasr.Types.Account.{Account}
use lasr.Types.Account.Validate.{validate_nonce}
use lasr.Types.Instruction.{Outputs}
use lasr.Types.Transaction.{Transaction, call}
use lasr.Types.U256.{U256, Uint}
use lasr.Actors.Messages.{Hasher, Registry, batcher_append}
use lasr.Actors.Scheduler
use lasr.Actors.Scheduler.{Port, response, async_call_response}
use lasr.Actors.Engine
use lasr.Actors.Executor
use lasr.Actors.Executor.{
  Job, Handles, key_eq, finished, content_id_of, inputs_of, exec_call, get_results, set_call,
}
use lasr.Actors.PendingActor
use lasr.Actors.PendingActor.{PendingState}
use lasr.Actors.PendingActor.Runs.{IsQuiet, handle-quiet}
use lasr.Actors.Pending.{schedule_with_validator}
use lasr.Actors.Validator.{Signatures, pending_call}
use lasr.Actors.Validator.Laws.{validated_call_iff, call_accounts}
use lasr.Actors.Validator.Instructions.{validate_instruction}
use lasr.Actors.Batch.{Encoder}
use lasr.Actors.Batcher.World.{World, ended}
use lasr.Actors.Batcher.Calls.{append_transaction}
use lasr.Actors.Batcher.Calls.Success.{Applies, applied, applied_call}
use lasr.Actors.System.{
  Message, System, Node, deliver, drain, world_of, found_account, to_scheduler, to_engine,
  to_pending, to_validator_call, to_batcher, to_executor,
}
use lasr.Actors.System.Drains.{drain_step}
use lasr.Actors.System.SendPath.{PathUp}

module _ ⦃h : Hasher⦄ ⦃u : Uint⦄ ⦃c : Encoder⦄ ⦃v : Signatures⦄ (n : Node) (tx : Transaction) where
  -- the program's account, the account at `to`, and a container that runs for the call
  pub record Starts (s : System) : Type 0 where
    pub program : Account
    pub target : Account
    pub job : Job
    pub found_program : found_account n s tx.program_id ≡ some program
    pub found_target : found_account n s tx.to ≡ some target
    pub runs :
        n.runtime.run_container
          (content_id_of n.text tx.program_id program)
          tx.program_id
          tx
          (inputs_of tx target)
          (h.hash_string tx)
        ≡ some job

module _ ⦃h : Hasher⦄ ⦃u : Uint⦄ ⦃c : Encoder⦄ ⦃v : Signatures⦄ (n : Node) (tx : Transaction)
    (up : PathUp n.env.registry) (executor : n.env.registry.executor ≡ true) where
  abbrev hash : String
  hash = h.hash_string tx

  deliver_request :
      (port : Port) (s : System)
      → deliver n (to_scheduler (Scheduler.call tx port)) s
        ≡ some (to_engine (Engine.call tx) ∷ [], record s { ports = Map.insert hash port s.ports })
  unfolding deliver Scheduler.handle
  deliver_request port s = ground (arith, append-nil s.replies)

  deliver_engine :
      (s : System)
      → deliver n (to_engine (Engine.call tx)) s ≡ some (to_executor (Executor.set tx) ∷ [], s)
  unfolding deliver Engine.handle
  deliver_engine s = ground arith

  deliver-set :
      (s : System)
      → Starts n tx s
      → deliver n (to_executor (Executor.set tx)) s
        ≡ some (
          to_pending (PendingActor.new_call tx)
              ∷ to_scheduler (Scheduler.call_transaction_async_pending hash)
              ∷ [],
          s,
        )
  unfolding deliver Executor.handle set_call
  deliver-set s st = ground (arith, st.found_program, st.found_target)

  deliver_new_call :
      (s : System)
      → IsQuiet s.pending
      → (p : PendingState) × (deliver n (to_pending (PendingActor.new_call tx)) s
          ≡ some (to_executor (Executor.exec tx) ∷ [], record s { pending = p }))
        × IsQuiet p
  unfolding deliver
  deliver_new_call s quiet =
      let (p, e, quiet') =
        handle-quiet n.env.registry n.now (PendingActor.new_call tx) s.pending quiet in
      (p, ground (arith, e), quiet')

  deliver_async :
      (s : System) (port : Port)
      → Map.get hash s.ports ≡ some port
      → deliver n (to_scheduler (Scheduler.call_transaction_async_pending hash)) s
        ≡ some (
          [],
          record s {
            ports = Map.remove hash s.ports;
            replies = s.replies ++ (port, response (async_call_response hash)) ∷ [];
          },
        )
  unfolding deliver Scheduler.handle Scheduler.answer
  deliver_async s port e = ground arith

  deliver_exec :
      (s : System) (st : Starts n tx s)
      → deliver n (to_executor (Executor.exec tx)) s
        ≡ some ([], record s { handles = Map.insert (tx.program_id, hash) st.job s.handles })
  unfolding deliver Executor.handle exec_call
  deliver_exec s st = ground (arith, st.found_program, st.found_target, st.runs)

  -- the states of a call: asked, answered by its hash, and running
  abbrev pub asked : Port → System → System
  asked port s = record s { ports = Map.insert hash port s.ports }

  abbrev pub answered : Port → System → System
  answered port s = record s {
    ports = Map.remove hash s.ports;
    replies = s.replies ++ (port, response (async_call_response hash)) ∷ [];
  }

  abbrev pub running : Job → System → System
  running job s = record s { handles = Map.insert (tx.program_id, hash) job s.handles }

  pub call_begins :
      (s : System) (port : Port) (st : Starts n tx s)
      → IsQuiet s.pending
      → (p : PendingState) × (drain n 6 (to_scheduler (Scheduler.call tx port) ∷ []) s
          ≡ some (running st.job (answered port (record (asked port s) { pending = p }))))
        × IsQuiet p
  unfolding drain
  call_begins s port st quiet =
      let s₁ = asked port s in
      let (p, new_lem, quiet₁) = deliver_new_call s₁ quiet in
      let s₂ : System = record s₁ { pending = p } in
      let s₃ = answered port s₂ in
      let st₁ : Starts n tx s₁ = record {
        program = st.program;
        target = st.target;
        job = st.job;
        found_program = st.found_program;
        found_target = st.found_target;
        runs = st.runs;
      } in
      let st₃ : Starts n tx s₃ = record {
        program = st.program;
        target = st.target;
        job = st.job;
        found_program = st.found_program;
        found_target = st.found_target;
        runs = st.runs;
      } in
      (
        p,
        drain_step n 5 _ [] _ s s₁ (deliver_request port s)
            ∙ drain_step n 4 _ [] _ s₁ s₁ (deliver_engine s₁)
            ∙ drain_step n 3 _ [] _ s₁ s₁ (deliver-set s₁ st₁)
            ∙ drain_step n 2 _ (to_scheduler (Scheduler.call_transaction_async_pending hash) ∷ []) _
                s₁ s₂ new_lem
            ∙ drain_step n 1 _ (to_executor (Executor.exec tx) ∷ []) _ s₂ s₃
                (deliver_async s₂ port (get-insert_self hash port s.ports))
            ∙ drain_step n 0 _ [] _ s₃ _ (deliver_exec s₃ st₃),
        quiet₁,
      )
