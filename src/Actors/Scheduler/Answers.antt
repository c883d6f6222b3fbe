-- ===== src/Actors/Scheduler/Answers.antt =====
-- Which client gets an answer of crates/actors/src/scheduler.rs.
use lasr.Base.{
  ◌≡◌, refl, ◌∙◌, arith, String, Bool, false, List, [], ◌∷◌, ◌==◌, nat_eq, string_eq, All,
}
use lasr.Base.Map
use lasr.Base.Map.{Map, get-insert, get-remove, get-insert_self}
use lasr.Types.Transaction.{Transaction}
use lasr.Types.Token.{Token}
use lasr.Actors.Messages.{Hasher}
use lasr.Actors.Scheduler.{
  Port, Ports, TransactionResponse, send_response, SchedulerMessage, SchedulerEnv, response, answer,
  handle, run, reply, call, send, register_program, get_account, transaction_applied,
  send_transaction_failure, call_transaction_applied, call_transaction_failure,
  call_transaction_async_pending, registration_success, registration_failure, unhandled,
}

module _ ⦃h : Hasher⦄ (k : String) where
  -- the message is a request under the hash, or an answer to it
  abbrev pub concerns : SchedulerMessage → Bool
  concerns (call tx _) = k == h.hash_string tx
  concerns (send tx _) = k == h.hash_string tx
  concerns (register_program tx _) = k == h.hash_string tx
  concerns (transaction_applied hash _) = k == hash
  concerns (send_transaction_failure hash) = k == hash
  concerns (call_transaction_applied hash _) = k == hash
  concerns (call_transaction_failure hash) = k == hash
  concerns (call_transaction_async_pending hash) = k == hash
  concerns (registration_success tx _) = k == h.hash_string tx
  concerns _ = false

  abbrev pub Unconcerned : List (SchedulerEnv × SchedulerMessage) → Type 0
  Unconcerned = All (λ m. concerns m.1 ≡ false)

  get-answer :
      (hash : String) (r : TransactionResponse) (m : Ports)
      → (k == hash) ≡ false
      → Map.get k (answer hash r m).1 ≡ Map.get k m
  unfolding answer
  get-answer hash r m e = ground (arith, get-remove k hash m)

  get-handle :
      (env : SchedulerEnv) (message : SchedulerMessage) (m : Ports)
      → concerns message ≡ false
      → Map.get k (handle env message m).1 ≡ Map.get k m
  unfolding handle
  get-handle env (call tx port) m e = ground (arith, get-insert k (h.hash_string tx) port m)
  get-handle env (send tx port) m e = ground (arith, get-insert k (h.hash_string tx) port m)
  get-handle env (register_program tx port) m e =
      ground (arith, get-insert k (h.hash_string tx) port m)
  get-handle env (get_account address port) m e = refl
  get-handle env (transaction_applied hash token) m e = get-answer hash _ m e
  get-handle env (send_transaction_failure hash) m e = get-answer hash _ m e
  get-handle env (call_transaction_applied hash account) m e = get-answer hash _ m e
  get-handle env (call_transaction_failure hash) m e = get-answer hash _ m e
  get-handle env (call_transaction_async_pending hash) m e = get-answer hash _ m e
  get-handle env (registration_success tx program_id) m e = get-answer (h.hash_string tx) _ m e
  get-handle env (registration_failure hash) m e = refl
  get-handle env unhandled m e = refl

  get-run :
      (ms : List (SchedulerEnv × SchedulerMessage)) (m : Ports)
      → Unconcerned ms
      → Map.get k (run ms m).1 ≡ Map.get k m
  unfolding run
  get-run [] m _ = refl
  get-run (x ∷ ms) m (e, es) = get-run ms (handle x.0 x.1 m).1 es ∙ get-handle x.0 x.1 m e

-- A send is requested, then any messages are handled that are neither requests under its hash nor
-- answers to it, and then the scheduler hears that it was applied: exactly one message is sent, the
-- token to the port of the request, whatever port was held under the hash before.
pub run-applied :
    ⦃h : Hasher⦄ (env env' : SchedulerEnv) (tx : Transaction) (port : Port)
    (ms : List (SchedulerEnv × SchedulerMessage)) (token : Token) (m : Ports)
    → Unconcerned (h.hash_string tx) ms
    → let m' = (run ((env, send tx port) ∷ ms) m).1 in
      (handle env' (transaction_applied (h.hash_string tx) token) m').0
      ≡ reply port (response (send_response token)) ∷ []
unfolding run handle answer
run-applied ⦃h⦄ env env' tx port ms token m others =
    let k = h.hash_string tx in
    let m' = Map.insert k port m in ground (arith, get-run k ms m' others, get-insert_self k port m)
