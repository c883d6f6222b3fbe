-- ===== src/Actors/System/DepositPath.antt =====
-- A deposit from the contract's log to the account, in crates/actors/src: eo_server.rs, engine.rs,
-- pending_transactions.rs, validator.rs and batcher.rs.
use lasr.Base.{
  ◌+◌, ◌≡◌, refl, ◌∙◌, arith, false, Option, none, some, [], ◌∷◌, append-nil, contains, nat_eq,
  string_eq,
}
use lasr.Base.Map
use lasr.Base.Map.{Map}
use lasr.Base.Result.{ok}
use lasr.Types.Account.{Account}
use lasr.Types.Token.{Token}
use lasr.Types.Transaction.{Transaction}
use lasr.Types.Transaction.Equality.{transaction_eq}
use lasr.Types.U256.{Uint}
use lasr.Listener.{EventType}
use lasr.Actors.EoServer.{Values, handle_log}
use lasr.Actors.EoServer.Decoding.{Encoding, bridge_log, handle_one}
use lasr.Actors.Messages.{Hasher, scheduler_transaction_applied, pending_valid}
use lasr.Actors.Scheduler
use lasr.Actors.Engine
use lasr.Actors.Engine.{BridgeEvent, EoEvent, bridged, handle_bridge_event}
use lasr.Actors.PendingActor
use lasr.Actors.PendingActor.{PendingState}
use lasr.Actors.PendingActor.Runs.{IsQuiet, handle-quiet}
use lasr.Actors.Pending.{schedule_with_validator}
use lasr.Actors.Validator.{Signatures, pending_transaction, validate_bridge_in}
use lasr.Actors.Batch.{Encoder}
use lasr.Actors.Batcher.World.{World, ended, find_account}
use lasr.Actors.Batcher.Calls.{append_transaction}
use lasr.Actors.Batcher.Sends.{add_transaction_to_account}
use lasr.Actors.Batcher.Sends.Conserves.{balance_at}
use lasr.Actors.Batcher.Sends.Deposits.{IsDepositor, HasDepositRoom, deposit_moves}
use lasr.Actors.System.{
  System, Node, deliver, drain, world_of, to_scheduler, to_engine, to_pending, to_validator,
  to_batcher,
}
use lasr.Actors.System.Drains.{drain_step}
use lasr.Actors.System.SendPath.{PathUp}

module _ ⦃h : Hasher⦄ ⦃u : Uint⦄ ⦃c : Encoder⦄ ⦃v : Signatures⦄ (n : Node) (event : BridgeEvent)
    (up : PathUp n.env.registry) where
  abbrev tx : Transaction
  tx = bridged event

  deliver_event :
      (s : System)
      → deliver n (to_engine (Engine.eo_event (EoEvent.bridge (event ∷ [])))) s
        ≡ some (to_pending (PendingActor.new tx none) ∷ [], s)
  unfolding deliver Engine.handle handle_bridge_event
  deliver_event s = ground arith

  deliver_new :
      (s : System)
      → IsQuiet s.pending
      → contains s.pending.bridge_in_transactions tx ≡ false
      → (p : PendingState) × (deliver n (to_pending (PendingActor.new tx none)) s
          ≡ some (to_validator tx ∷ [], record s { pending = p }))
        × IsQuiet p
  unfolding deliver schedule_with_validator
  deliver_new s quiet first =
      let (p, e, quiet') =
        handle-quiet n.env.registry n.now (PendingActor.new tx none) s.pending quiet in
      (p, ground (arith, e, first), quiet')

  deliver_validator :
      (s : System) → deliver n (to_validator tx) s ≡ some (to_batcher tx none ∷ [], s)
  unfolding deliver pending_transaction validate_bridge_in
  deliver_validator s = ground (arith, nat_eq.beq_iff event.user event.user)

  deliver_batcher :
      (s : System) (w' : World) (t : Token)
      → add_transaction_to_account n.env tx (world_of s) ≡ ended (ok tt) w'
      → w'.sent ≡ scheduler_transaction_applied (h.hash_string tx) t ∷ pending_valid tx ∷ []
      → deliver n (to_batcher tx none) s
        ≡ some (
          to_scheduler (Scheduler.transaction_applied (h.hash_string tx) t)
              ∷ to_pending (PendingActor.valid tx)
              ∷ [],
          record s { cached = w'.cached; batcher = w'.batcher },
        )
  unfolding deliver append_transaction
  deliver_batcher s w' t run sent = ground arith

  -- no client waits for it
  deliver_applied :
      (s : System) (t : Token)
      → Map.get (h.hash_string tx) s.ports ≡ none
      → deliver n (to_scheduler (Scheduler.transaction_applied (h.hash_string tx) t)) s
        ≡ some ([], record s { ports = Map.remove (h.hash_string tx) s.ports })
  unfolding deliver Scheduler.handle Scheduler.answer
  deliver_applied s t e = ground (arith, append-nil s.replies)

  deliver_valid :
      (s : System)
      → IsQuiet s.pending
      → (p : PendingState) × (deliver n (to_pending (PendingActor.valid tx)) s
          ≡ some ([], record s { pending = p }))
        × IsQuiet p
  unfolding deliver
  deliver_valid s quiet =
      let (p, e, quiet') =
        handle-quiet n.env.registry n.now (PendingActor.valid tx) s.pending quiet in
      (p, ground (arith, e), quiet')

  -- The contract logs a deposit that was not seen before; every actor on the way is up and nothing
  -- waits; the user's account, if there is one, takes the token, and the batches have room. Then the
  -- log is decoded to an event, and the actors raise the user's balance by the amount, whether or
  -- not the user had an account before; no client is told, and nothing waits after it.
  pub deposit_arrives :
      {V : Type 0} (values : Values V) (encoding : Encoding values) (s : System)
      (o : Option Account)
      → IsQuiet s.pending
      → contains s.pending.bridge_in_transactions tx ≡ false
      → find_account n.env event.user (world_of s) ≡ o
      → IsDepositor n.env tx o
      → HasDepositRoom n.env tx (world_of s) o
      → Map.get (h.hash_string tx) s.ports ≡ none
      → let logs = bridge_log values encoding event ∷ [] in
        let k = event.program_id in
        (m : EoEvent) × (s' : System) × (handle_log values n.env.registry EventType.bridge logs
          ≡ some m)
        × (drain n 6 (to_engine (Engine.eo_event m) ∷ []) s ≡ some s')
        × (balance_at n.env (world_of s') k event.user
            ≡ balance_at n.env (world_of s) k event.user + event.amount)
        × (s'.replies ≡ s.replies)
        × IsQuiet s'.pending
  unfolding drain
  deposit_arrives values encoding s o quiet first at depositor room port =
      let (p₁, new_lem, quiet₁) = deliver_new s quiet first in
      let s₁ : System = record s { pending = p₁ } in
      let (w', run, (t, notified), _, gained) =
        deposit_moves n.env tx (world_of s) o refl refl at depositor
          (up.account_cache, up.scheduler, up.pending_transactions) room in
      let s₂ : System = record s₁ { cached = w'.cached; batcher = w'.batcher } in
      let s₃ : System = record s₂ { ports = Map.remove (h.hash_string tx) s.ports } in
      let (p₂, valid, quiet₂) = deliver_valid s₃ quiet₁ in
      (
        EoEvent.bridge (event ∷ []),
        record s₃ { pending = p₂ },
        handle_one values encoding n.env.registry event up.engine,
        drain_step n 5 _ [] _ s s (deliver_event s)
            ∙ drain_step n 4 _ [] _ s s₁ new_lem
            ∙ drain_step n 3 _ [] _ s₁ s₁ (deliver_validator s₁)
            ∙ drain_step n 2 _ [] _ s₁ s₂ (deliver_batcher s₁ w' t run notified)
            ∙ drain_step n 1 _ (to_pending (PendingActor.valid tx) ∷ []) _ s₂ s₃
                (deliver_applied s₂ t port)
            ∙ drain_step n 0 _ [] _ s₃ _ valid,
        gained,
        refl,
        quiet₂,
      )
