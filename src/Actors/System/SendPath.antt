-- ===== src/Actors/System/SendPath.antt =====
-- A client's send through all the actors of crates/actors/src: scheduler.rs, engine.rs,
-- pending_transactions.rs, validator.rs, batcher.rs, and back to scheduler.rs.
use lasr.Base.{
  ◌+◌, ◌≡◌, refl, ◌∙◌, arith, true, none, some, [], ◌∷◌, ◌++◌, append-nil, nat_eq, string_eq,
}
use lasr.Base.Map
use lasr.Base.Map.{Map, get-insert_self, get-remove, beq_refl}
use lasr.Base.Result.{ok}
use lasr.Types.Account.{Account}
use lasr.Types.Account.Send.Transfer.{CanPay, CanReceive}
use lasr.Types.Account.Validate.{validate_nonce}
use lasr.Types.Token.{Token}
use lasr.Types.Transaction.{Transaction, send}
use lasr.Types.U256.{U256, Uint}
use lasr.Actors.Messages.{
  Hasher, Registry, pending_valid, batcher_append, scheduler_transaction_applied,
}
use lasr.Actors.Scheduler
use lasr.Actors.Scheduler.{Port, response, send_response}
use lasr.Actors.Engine
use lasr.Actors.PendingActor
use lasr.Actors.PendingActor.{PendingState}
use lasr.Actors.PendingActor.Runs.{IsQuiet, handle-quiet}
use lasr.Actors.Pending.{schedule_with_validator}
use lasr.Actors.Validator.{Signatures, pending_transaction, validate_send}
use lasr.Actors.Validator.Laws.{validate_send_iff}
use lasr.Actors.Batch.{Encoder}
use lasr.Actors.Batcher.World.{World, ended}
use lasr.Actors.Batcher.Calls.{append_transaction}
use lasr.Actors.Batcher.Sends.{add_transaction_to_account}
use lasr.Actors.Batcher.Sends.Conserves.{CanSend, HasRoom, balance_at, nonce_at, send_moves_sent}
use lasr.Actors.System.Drains.{drain_step}
use lasr.Actors.System.{
  System, Node, deliver, drain, world_of, found_account, to_scheduler, to_engine, to_pending,
  to_validator, to_batcher,
}

-- every actor that a send passes is up
pub record PathUp (r : Registry) : Type 0 where
  pub engine : r.engine ≡ true
  pub pending_transactions : r.pending_transactions ≡ true
  pub validator : r.validator ≡ true
  pub batcher : r.batcher ≡ true
  pub scheduler : r.scheduler ≡ true
  pub account_cache : r.account_cache ≡ true

module _ ⦃h : Hasher⦄ ⦃u : Uint⦄ ⦃c : Encoder⦄ ⦃v : Signatures⦄ (n : Node) (tx : Transaction)
    (id : U256) (sends : tx.transaction_type ≡ send id) (up : PathUp n.env.registry) where
  abbrev pub asked : Port → System → System
  asked port s = record s { ports = Map.insert (h.hash_string tx) port s.ports }

  pub deliver_request :
      (port : Port) (s : System)
      → deliver n (to_scheduler (Scheduler.send tx port)) s
        ≡ some (to_engine (Engine.send tx) ∷ [], asked port s)
  unfolding deliver Scheduler.handle
  deliver_request port s = ground (arith, append-nil s.replies)

  pub deliver_engine :
      (s : System)
      → deliver n (to_engine (Engine.send tx)) s
        ≡ some (to_pending (PendingActor.new tx none) ∷ [], s)
  unfolding deliver Engine.handle
  deliver_engine s = ground arith

  pub deliver_new :
      (s : System)
      → IsQuiet s.pending
      → (p : PendingState) × (deliver n (to_pending (PendingActor.new tx none)) s
          ≡ some (to_validator tx ∷ [], record s { pending = p }))
        × IsQuiet p
  unfolding deliver schedule_with_validator
  deliver_new s quiet =
      let (p, e, quiet') =
        handle-quiet n.env.registry n.now (PendingActor.new tx none) s.pending quiet in
      (p, ground (arith, e), quiet')

  deliver_valid :
      (s : System)
      → IsQuiet s.pending
      → (p : PendingState) × (deliver n (to_pending (PendingActor.valid tx)) s
          ≡ some ([], record s { pending = p }))
        × IsQuiet p
  unfolding deliver
  deliver_valid s quiet =
      let (p, e, quiet') =
        handle-quiet n.env.registry n.now (PendingActor.valid tx) s.pending quiet in
      (p, ground (arith, e), quiet')

  deliver_validator :
      (s : System) (a : Account)
      → found_account n s tx.from ≡ some a
      → v.verify_signature tx ≡ true
      → CanPay tx a
      → validate_nonce tx.nonce a ≡ ok tt
      → deliver n (to_validator tx) s ≡ some (to_batcher tx none ∷ [], s)
  unfolding deliver pending_transaction
  deliver_validator s a found signed (t, has, own, cover) nonce =
      let passes : validate_send n.env.registry tx a ≡ batcher_append tx none ∷ [] =
        (validate_send_iff n.env.registry tx a up.pending_transactions up.batcher).1
          (signed, (t, has, cover), nonce) in
      let sent : pending_transaction n.env.registry (found_account n s) tx
          ≡ batcher_append tx none ∷ [] =
        ground (arith, passes) in
      rw sent refl

  deliver_batcher :
      (s : System) (w' : World) (t : Token)
      → add_transaction_to_account n.env tx (world_of s) ≡ ended (ok tt) w'
      → w'.sent ≡ scheduler_transaction_applied (h.hash_string tx) t ∷ pending_valid tx ∷ []
      → deliver n (to_batcher tx none) s
        ≡ some (
          to_scheduler (Scheduler.transaction_applied (h.hash_string tx) t)
              ∷ to_pending (PendingActor.valid tx)
              ∷ [],
          record s { cached = w'.cached; batcher = w'.batcher },
        )
  unfolding deliver append_transaction
  deliver_batcher s w' t run sent = ground arith

  deliver_applied :
      (s : System) (port : Port) (t : Token)
      → Map.get (h.hash_string tx) s.ports ≡ some port
      → deliver n (to_scheduler (Scheduler.transaction_applied (h.hash_string tx) t)) s
        ≡ some (
          [],
          record s {
            ports = Map.remove (h.hash_string tx) s.ports;
            replies = s.replies ++ (port, response (send_response t)) ∷ [];
          },
        )
  unfolding deliver Scheduler.handle
  deliver_applied s port t waits = ground arith

  -- A send, by a client that the scheduler answers on a port. Every actor on its path is up, nothing
  -- waits in the pending transaction actor, the two accounts are different and found under their own
  -- addresses, the sender's can pay and the recipient's can receive, the program is known, the
  -- nonce passes and can grow, the signature check accepts, and the batches have room. Then, the
  -- messages delivered in the order of their sending, seven deliveries come to an end with nothing
  -- left to deliver: the client has got one answer, with a token, no port waits under the hash, the
  -- value has moved from the sender's balance to the recipient's, the sender's nonce has grown by
  -- one, and again nothing waits.
  pub send_answered :
      (s : System) (a b : Account) (port : Port)
      → IsQuiet s.pending
      → CanSend n.env tx (world_of s) a b
      → CanReceive tx b
      → HasRoom n.env tx (world_of s) a b
      → v.verify_signature tx ≡ true
      → validate_nonce tx.nonce a ≡ ok tt
      → let k = tx.program_id in
        let before = world_of s in
        (s' : System) × (drain n 7 (to_scheduler (Scheduler.send tx port) ∷ []) s ≡ some s')
        × ((t : Token) × (s'.replies ≡ s.replies ++ (port, response (send_response t)) ∷ []))
        × (Map.get (h.hash_string tx) s'.ports ≡ none)
        × (balance_at n.env (world_of s') k tx.from + tx.value ≡ balance_at n.env before k tx.from)
        × (balance_at n.env (world_of s') k tx.to ≡ balance_at n.env before k tx.to + tx.value)
        × (nonce_at n.env (world_of s') tx.from ≡ nonce_at n.env before tx.from + 1)
        × IsQuiet s'.pending
  unfolding drain
  send_answered s a b port quiet can receives room signed nonce =
      let (w', run, (t, notified), from, to, grown) =
        send_moves_sent n.env tx (world_of s) a b can receives
          (up.account_cache, up.scheduler, up.pending_transactions) room in
      let hash = h.hash_string tx in
      let s₁ = asked port s in
      let (p, new_lem, quiet₁) = deliver_new s₁ quiet in
      let s₂ : System = record s₁ { pending = p } in
      let s₃ : System = record s₂ { cached = w'.cached; batcher = w'.batcher } in
      let s₄ : System = record s₃ {
        ports = Map.remove hash s₃.ports;
        replies = s.replies ++ (port, response (send_response t)) ∷ [];
      } in
      let (p', valid_lem, quiet₂) = deliver_valid s₄ quiet₁ in
      (
        record s₄ { pending = p' },
        drain_step n 6 _ [] _ s s₁ (deliver_request port s)
            ∙ drain_step n 5 _ [] _ s₁ s₁ (deliver_engine s₁)
            ∙ drain_step n 4 _ [] _ s₁ s₂ new_lem
            ∙ drain_step n 3 _ [] _ s₂ s₂ (deliver_validator s₂ a can.sender signed can.pays nonce)
            ∙ drain_step n 2 _ [] _ s₂ s₃ (deliver_batcher s₂ w' t run notified)
            ∙ drain_step n 1 _ (to_pending (PendingActor.valid tx) ∷ []) _ s₃ s₄
                (deliver_applied s₃ port t (get-insert_self hash port s.ports))
            ∙ drain_step n 0 _ [] _ s₄ _ valid_lem,
        (t, refl),
        ground (arith, get-remove hash hash s₃.ports, beq_refl hash),
        from,
        to,
        grown,
        quiet₂,
      )
