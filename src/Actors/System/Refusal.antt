-- ===== src/Actors/System/Refusal.antt =====
-- A client's send that the validator refuses, through the actors of crates/actors/src.
use lasr.Base.{◌≡◌, refl, ◌∙◌, ◌⊎◌, inl, inr, arith, none, some, [], ◌∷◌, ◌++◌, nat_eq, string_eq}
use lasr.Base.Map
use lasr.Base.Map.{Map, get-insert_self}
use lasr.Base.Result.{err}
use lasr.Types.Account.{Account}
use lasr.Types.Transaction.{Transaction, send}
use lasr.Types.U256.{U256, Uint}
use lasr.Actors.Messages.{Hasher}
use lasr.Actors.Scheduler
use lasr.Actors.Scheduler.{Port, response, transaction_error}
use lasr.Actors.PendingActor
use lasr.Actors.PendingActor.{PendingState}
use lasr.Actors.PendingActor.Runs.{IsQuiet, handle-quiet}
use lasr.Actors.Validator.{Signatures, pending_transaction, validate_send, check_send}
use lasr.Actors.Validator.Instructions.{ValidatorError}
use lasr.Actors.Batch.{Encoder}
use lasr.Actors.System.{
  System, Node, deliver, drain, found_account, to_scheduler, to_pending, to_validator,
}
use lasr.Actors.System.Drains.{drain_step}
use lasr.Actors.System.SendPath.{PathUp, asked, deliver_request, deliver_engine, deliver_new}

-- the sender has no account, or a check of the send fails on it
abbrev pub IsRefused :
    ⦃h : Hasher⦄
    → ⦃u : Uint⦄ → ⦃c : Encoder⦄ → ⦃v : Signatures⦄ → Node
    → Transaction
    → System
    → Type 0
IsRefused n tx s =
    (found_account n s tx.from ≡ none)
    ⊎ ((a : Account) × (e : ValidatorError) × (found_account n s tx.from ≡ some a)
        × (check_send tx a ≡ err e))

module _ ⦃h : Hasher⦄ ⦃u : Uint⦄ ⦃c : Encoder⦄ ⦃v : Signatures⦄ (n : Node) (tx : Transaction)
    (id : U256) (sends : tx.transaction_type ≡ send id) (up : PathUp n.env.registry) where
  deliver_refused :
      (s : System)
      → IsRefused n tx s
      → deliver n (to_validator tx) s ≡ some (to_pending (PendingActor.invalid tx) ∷ [], s)
  unfolding deliver pending_transaction validate_send
  deliver_refused s (inl none_found) = ground arith
  deliver_refused s (inr (a, e, found, fails)) = ground arith

  deliver_invalid :
      (s : System)
      → IsQuiet s.pending
      → (p : PendingState) × (deliver n (to_pending (PendingActor.invalid tx)) s
          ≡ some (
            to_scheduler (Scheduler.send_transaction_failure (h.hash_string tx)) ∷ [],
            record s { pending = p },
          ))
        × IsQuiet p
  unfolding deliver
  deliver_invalid s quiet =
      let (p, e, quiet') =
        handle-quiet n.env.registry n.now (PendingActor.invalid tx) s.pending quiet in
      (p, ground (arith, e), quiet')

  deliver_failure :
      (s : System) (port : Port)
      → Map.get (h.hash_string tx) s.ports ≡ some port
      → deliver n (to_scheduler (Scheduler.send_transaction_failure (h.hash_string tx))) s
        ≡ some (
          [],
          record s {
            ports = Map.remove (h.hash_string tx) s.ports;
            replies = s.replies ++ (port, response transaction_error) ∷ [];
          },
        )
  unfolding deliver Scheduler.handle
  deliver_failure s port waits = ground arith

  -- A send, by a client that the scheduler answers on a port, where every actor on its path is up,
  -- nothing waits in the pending transaction actor, and the sender has no account or a check of the
  -- validator fails on it: the messages delivered in the order of their sending, six deliveries come
  -- to an end, the client has got one answer, an error, and the cached accounts and the batches are
  -- what they were.
  pub send_refused :
      (s : System) (port : Port)
      → IsQuiet s.pending
      → IsRefused n tx s
      → (s' : System) × (drain n 6 (to_scheduler (Scheduler.send tx port) ∷ []) s ≡ some s')
        × (s'.replies ≡ s.replies ++ (port, response transaction_error) ∷ [])
        × (s'.cached ≡ s.cached)
        × (s'.batcher ≡ s.batcher)
  unfolding drain
  send_refused s port quiet refused =
      let hash = h.hash_string tx in
      let s₁ = asked n tx id sends up port s in
      let (p, new_lem, quiet₁) = deliver_new n tx id sends up s₁ quiet in
      let s₂ : System = record s₁ { pending = p } in
      let (p', invalid_lem, _) = deliver_invalid s₂ quiet₁ in
      let s₃ : System = record s₂ { pending = p' } in
      let step = drain_step n in
      (
        _,
        step 5 _ [] _ s s₁ (deliver_request n tx id sends up port s)
            ∙ step 4 _ [] _ s₁ s₁ (deliver_engine n tx id sends up s₁)
            ∙ step 3 _ [] _ s₁ s₂ new_lem
            ∙ step 2 _ [] _ s₂ s₂ (deliver_refused s₂ refused)
            ∙ step 1 _ [] _ s₂ s₃ invalid_lem
            ∙ step 0 _ [] _ s₃ _ (deliver_failure s₃ port (get-insert_self hash port s.ports)),
        refl,
        refl,
        refl,
      )
