-- ===== src/Actors/System/CallPath/Settles.antt =====
-- The second half of a client's call: the program has run, and its result goes through the engine, the
-- pending transactions and the validator to the batcher, in crates/actors/src.
use lasr.Base.{
  ◌≡◌, refl, ◌∙◌, arith, String, true, none, some, [], ◌∷◌, ◌++◌, append-nil, All, nat_eq,
  string_eq,
}
use lasr.Base.Map
use lasr.Base.Map.{Map, get-insert_self, get-remove, beq_refl}
use lasr.Base.Result.{ok}
use lasr.Types.Account.{Account}
use lasr.Types.Account.Validate.{validate_nonce}
use lasr.Types.Instruction.{Outputs}
use lasr.Types.Transaction.{Transaction, call}
use lasr.Types.U256.{U256, Uint}
use lasr.Actors.Messages.{Hasher, batcher_append}
use lasr.Actors.Scheduler
use lasr.Actors.Scheduler.{Port, response, async_call_response}
use lasr.Actors.Engine
use lasr.Actors.Executor
use lasr.Actors.Executor.{
  Job, Key, Handles, key_eq, finished, content_id_of, inputs_of, exec_call, get_results, set_call,
}
use lasr.Actors.PendingActor
use lasr.Actors.PendingActor.{PendingState}
use lasr.Actors.PendingActor.Runs.{IsQuiet, handle-quiet}
use lasr.Actors.Pending.{schedule_with_validator}
use lasr.Actors.Validator.{Signatures, pending_call}
use lasr.Actors.Validator.Laws.{validated_call_iff, call_accounts}
use lasr.Actors.Validator.Instructions.{validate_instruction}
use lasr.Actors.Batch.{Encoder}
use lasr.Actors.Batcher.World.{World}
use lasr.Actors.Batcher.Calls.{append_transaction}
use lasr.Actors.Batcher.Calls.Success.{Applies, applied, applied_call}
use lasr.Actors.System.{
  System, Node, deliver, drain, world_of, found_account, to_scheduler, to_engine, to_pending,
  to_validator_call, to_batcher, to_executor,
}
use lasr.Actors.System.Drains.{drain_step}
use lasr.Actors.System.SendPath.{PathUp}
use lasr.Actors.System.CallPath.{Starts, call_begins, asked, answered, running}

module _ ⦃h : Hasher⦄ ⦃u : Uint⦄ ⦃c : Encoder⦄ ⦃v : Signatures⦄ (n : Node) (tx : Transaction) where
  -- outputs that the validator passes
  pub record Passes (s : System) (outputs : Outputs) : Type 0 where
    pub caller : Account
    pub signed : v.verify_signature tx ≡ true
    pub found : found_account n s tx.from ≡ some caller
    pub nonce : validate_nonce tx.nonce caller ≡ ok tt
    pub checked :
        All
          (λ i.
            validate_instruction tx caller (call_accounts (found_account n s) tx outputs) i ≡ ok tt)
          outputs.instructions

module _ ⦃h : Hasher⦄ ⦃u : Uint⦄ ⦃c : Encoder⦄ ⦃v : Signatures⦄ (n : Node) (tx : Transaction)
    (up : PathUp n.env.registry) (executor : n.env.registry.executor ≡ true) where
  abbrev hash : String
  hash = h.hash_string tx

  abbrev results : Executor.ExecutorMessage
  results = Executor.results (some tx) tx.program_id (some hash)

  abbrev joined : System → System
  joined s = record s { handles = Map.remove (tx.program_id, hash) s.handles }

  deliver-results :
      (s : System) (job : Job) (output : String)
      → Map.get (tx.program_id, hash) s.handles ≡ some job
      → n.runtime.join job ≡ finished output
      → deliver n (to_executor results) s
        ≡ some (
          to_pending (PendingActor.exec_success tx)
              ∷ to_engine (Engine.call_success tx hash output)
              ∷ [],
          joined s,
        )
  unfolding deliver Executor.handle get_results
  deliver-results s job output handle joins = ground arith

  deliver_exec_success :
      (s : System)
      → IsQuiet s.pending
      → (p : PendingState) × (deliver n (to_pending (PendingActor.exec_success tx)) s
          ≡ some ([], record s { pending = p }))
        × IsQuiet p
  unfolding deliver
  deliver_exec_success s quiet =
      let (p, e, quiet') =
        handle-quiet n.env.registry n.now (PendingActor.exec_success tx) s.pending quiet in
      (p, ground (arith, e), quiet')

  deliver_call_success :
      (s : System) (output : String) (outputs : Outputs)
      → n.parser.parse output ≡ some outputs
      → deliver n (to_engine (Engine.call_success tx hash output)) s
        ≡ some (to_pending (PendingActor.new tx (some outputs)) ∷ [], s)
  unfolding deliver Engine.handle Engine.handle_call_success
  deliver_call_success s output outputs e = ground arith

  deliver_valid_call :
      (s : System)
      → IsQuiet s.pending
      → (p : PendingState) × (deliver n (to_pending (PendingActor.valid_call tx)) s
          ≡ some ([], record s { pending = p }))
        × IsQuiet p
  unfolding deliver
  deliver_valid_call s quiet =
      let (p, e, quiet') =
        handle-quiet n.env.registry n.now (PendingActor.valid_call tx) s.pending quiet in
      (p, ground (arith, e), quiet')

  -- the client was answered before, so nobody is told
  deliver_applied :
      (s : System) (account : Account)
      → Map.get hash s.ports ≡ none
      → deliver n (to_scheduler (Scheduler.call_transaction_applied hash account)) s
        ≡ some ([], record s { ports = Map.remove hash s.ports })
  unfolding deliver Scheduler.handle Scheduler.answer
  deliver_applied s account e = ground (arith, append-nil s.replies)

  module _ (id : U256) (calls : tx.transaction_type ≡ call id) where
    deliver_new :
        (s : System) (outputs : Outputs)
        → IsQuiet s.pending
        → (p : PendingState) × (deliver n (to_pending (PendingActor.new tx (some outputs))) s
            ≡ some (to_validator_call (some outputs) tx ∷ [], record s { pending = p }))
          × IsQuiet p
    unfolding deliver schedule_with_validator
    deliver_new s outputs quiet =
        let (p, e, quiet') =
          handle-quiet n.env.registry n.now (PendingActor.new tx (some outputs)) s.pending quiet in
        (p, ground (arith, e), quiet')

    deliver_validator :
        (s : System) (outputs : Outputs)
        → Passes n tx s outputs
        → deliver n (to_validator_call (some outputs) tx) s
          ≡ some (to_batcher tx (some outputs) ∷ [], s)
    unfolding deliver
    deliver_validator s outputs ps =
        let passes : pending_call n.env.registry (found_account n s) (some outputs) tx
            ≡ batcher_append tx (some outputs) ∷ [] =
          (validated_call_iff n.env.registry (found_account n s) outputs tx up.pending_transactions
              up.batcher).1
            (ps.signed, (ps.caller, ps.found, ps.nonce, ps.checked)) in
        rw passes refl

    deliver_batcher :
        (s : System) (outputs : Outputs) (a : Applies n.env tx outputs (world_of s))
        → let w' = applied n.env tx outputs (world_of s) a in
          deliver n (to_batcher tx (some outputs)) s
          ≡ some (
            to_pending (PendingActor.valid_call tx)
                ∷ to_scheduler (Scheduler.call_transaction_applied hash a.sender)
                ∷ [],
            record s { cached = w'.cached; batcher = w'.batcher },
          )
    unfolding deliver append_transaction
    deliver_batcher s outputs a = ground (
      arith,
      applied_call n.env tx outputs (world_of s) a up.account_cache up.scheduler
          up.pending_transactions,
    )

    abbrev settled : System → World → System
    settled s w = record s {
      ports = Map.remove hash s.ports;
      cached = w.cached;
      batcher = w.batcher;
      handles = Map.remove (tx.program_id, hash) s.handles;
    }

    pub call_settles :
        (s : System) (job : Job) (output : String) (outputs : Outputs)
        (a : Applies n.env tx outputs (world_of s))
        → IsQuiet s.pending
        → Map.get (tx.program_id, hash) s.handles ≡ some job
        → n.runtime.join job ≡ finished output
        → n.parser.parse output ≡ some outputs
        → Passes n tx s outputs
        → Map.get hash s.ports ≡ none
        → (p : PendingState) × (drain n 8 (to_executor results ∷ []) s
            ≡ some (record (settled s (applied n.env tx outputs (world_of s) a)) { pending = p }))
          × IsQuiet p
    unfolding drain
    call_settles s job output outputs a quiet handle joins parses ps port =
        let w' = applied n.env tx outputs (world_of s) a in
        let s₁ = joined s in
        let (p₁, success, quiet₁) = deliver_exec_success s₁ quiet in
        let s₂ : System = record s₁ { pending = p₁ } in
        let (p₂, new_lem, quiet₂) = deliver_new s₂ outputs quiet₁ in
        let s₃ : System = record s₂ { pending = p₂ } in
        let s₄ : System = record s₃ { cached = w'.cached; batcher = w'.batcher } in
        let (p₃, valid, quiet₃) = deliver_valid_call s₄ quiet₂ in
        let s₅ : System = record s₄ { pending = p₃ } in
        let ps₃ : Passes n tx s₃ outputs = record {
          caller = ps.caller;
          signed = ps.signed;
          found = ps.found;
          nonce = ps.nonce;
          checked = ps.checked;
        } in
        (
          p₃,
          drain_step n 7 _ [] _ s s₁ (deliver-results s job output handle joins)
              ∙ drain_step n 6 _ (to_engine (Engine.call_success tx hash output) ∷ []) _ s₁ s₂
                  success
              ∙ drain_step n 5 _ [] _ s₂ s₂ (deliver_call_success s₂ output outputs parses)
              ∙ drain_step n 4 _ [] _ s₂ s₃ new_lem
              ∙ drain_step n 3 _ [] _ s₃ s₃ (deliver_validator s₃ outputs ps₃)
              ∙ drain_step n 2 _ [] _ s₃ s₄ (deliver_batcher s₃ outputs a)
              ∙ drain_step n 1 _
                  (to_scheduler (Scheduler.call_transaction_applied hash a.sender) ∷ []) _ s₄ s₅
                  valid
              ∙ drain_step n 0 _ [] _ s₅ _ (deliver_applied s₅ a.sender port),
          quiet₃,
        )

    -- A client calls a program: every actor on the way is up, nothing waits, the accounts are found and
    -- a container runs. Then the client is answered at once, by the hash of the call, and no account
    -- and no batch changes. When the program has run, its outputs are parsed, the validator's checks
    -- of them pass and the batcher has what the call takes, the result brings the accounts that the
    -- instructions make and the program's next nonce to the cache, and them and the call to the
    -- batches. The client is not told, the handle is gone, and nothing waits again.
    pub call_answered :
        (s : System) (port : Port) (st : Starts n tx s) (output : String) (outputs : Outputs)
        (a : Applies n.env tx outputs (world_of s))
        → IsQuiet s.pending
        → n.runtime.join st.job ≡ finished output
        → n.parser.parse output ≡ some outputs
        → Passes n tx s outputs
        → let w' = applied n.env tx outputs (world_of s) a in
          (s₁ : System) × (s₂ : System) × (drain n 6 (to_scheduler (Scheduler.call tx port) ∷ []) s
            ≡ some s₁)
          × (s₁.replies ≡ s.replies ++ (port, response (async_call_response hash)) ∷ [])
          × (s₁.cached ≡ s.cached)
          × (s₁.batcher ≡ s.batcher)
          × (drain n 8 (to_executor results ∷ []) s₁ ≡ some s₂)
          × (s₂.replies ≡ s₁.replies)
          × (s₂.cached ≡ w'.cached)
          × (s₂.batcher ≡ w'.batcher)
          × (Map.get (tx.program_id, hash) s₂.handles ≡ none)
          × IsQuiet s₂.pending
    call_answered s port st output outputs a quiet joins parses ps =
        let (p₁, started, quiet₁) = call_begins n tx up executor s port st quiet in
        let asked_state : System = record (asked n tx up executor port s) { pending = p₁ } in
        let s₁ = running n tx up executor st.job (answered n tx up executor port asked_state) in
        let ps₁ : Passes n tx s₁ outputs = record {
          caller = ps.caller;
          signed = ps.signed;
          found = ps.found;
          nonce = ps.nonce;
          checked = ps.checked;
        } in
        let k : Key = (tx.program_id, hash) in
        let no_port : Map.get hash s₁.ports ≡ none =
          ground (arith, get-remove hash hash asked_state.ports, beq_refl hash) in
        let a₁ : Applies n.env tx outputs (world_of s₁) = a in
        let (p₂, settles, quiet₂) =
          call_settles s₁ st.job output outputs a₁ quiet₁ (get-insert_self k st.job s.handles) joins
            parses ps₁ no_port in
        let s₂ : System = record (settled s₁ (applied n.env tx outputs (world_of s₁) a₁)) {
          pending = p₂;
        } in
        let no_handle : Map.get k s₂.handles ≡ none =
          ground (arith, get-remove k k s₁.handles, beq_refl k) in
        (s₁, s₂, started, refl, refl, refl, settles, refl, refl, refl, no_handle, quiet₂)
