-- ===== src/Actors/Scheduler.antt =====
-- `TaskScheduler` of crates/actors/src/scheduler.rs: it passes requests on to the engine and keeps
-- their reply ports until an answer comes.
pub mod Replies
pub mod Answers
use lasr.Base.{
  ℕ, String, Bool, true, false, Option, none, some, List, [], ◌∷◌, ◌++◌, ◌==◌, if◌then◌else◌,
  string_eq,
}
use lasr.Base.Map
use lasr.Base.Map.{Map}
use lasr.Types.Address.{Address}
use lasr.Types.Account.{Account}
use lasr.Types.Token.{Token}
use lasr.Types.Transaction.{Transaction}
use lasr.Actors.Messages.{Hasher}

-- the identity of an `RpcReplyPort`, which can be sent on once
abbrev pub Port : Type 0
Port = ℕ

-- An address in an answer stands for its text.
pub data TransactionResponse : Type 0 where
  send_response : Token → TransactionResponse
  call_response : Account → TransactionResponse
  async_call_response : String → TransactionResponse
  get_account_response : Account → TransactionResponse
  register_program_response : Address → TransactionResponse
  transaction_error : TransactionResponse

-- `Err` is the failed look-up of an account; the texts of the errors are left out.
pub data Response : Type 0 where
  response : TransactionResponse → Response
  no_account : Response

-- A message of the validator, the engine or the listener that is not handled is `unhandled`.
pub data SchedulerMessage : Type 0 where
  call send register_program : Transaction → Port → SchedulerMessage
  get_account : Address → Port → SchedulerMessage
  transaction_applied : String → Token → SchedulerMessage
  send_transaction_failure : String → SchedulerMessage
  call_transaction_applied : String → Account → SchedulerMessage
  call_transaction_failure : String → SchedulerMessage
  call_transaction_async_pending : String → SchedulerMessage
  registration_success : Transaction → Address → SchedulerMessage
  registration_failure : String → SchedulerMessage
  unhandled : SchedulerMessage

pub data Sent : Type 0 where
  engine_call engine_send engine_register_program : Transaction → Sent
  reply : Port → Response → Sent

abbrev pub Ports : Type 0
Ports = Map String Port

-- the parts of the environment that the handler reads: whether the engine is up, and `get_account`
pub record SchedulerEnv : Type 0 where
  pub engine : Bool
  pub get_account : Address → Option Account

abbrev pub to_engine : SchedulerEnv → Sent → List Sent
to_engine env message = if env.engine then message ∷ [] else []

abbrev pub account_response : Option Account → Response
account_response none = no_account
account_response (some account) = response (get_account_response account)

-- `if let Some(reply_port) = state.remove(…)`
unfoldable pub answer : String → TransactionResponse → Ports → List Sent × Ports
answer transaction_hash r state = elim (Map.get transaction_hash state) [
  | none ↦ ([], Map.remove transaction_hash state)
  | some port ↦ (reply port (response r) ∷ [], Map.remove transaction_hash state)
]

unfoldable pub handle : ⦃h : Hasher⦄ → SchedulerEnv → SchedulerMessage → Ports → List Sent × Ports
unfolding answer
handle ⦃h⦄ env (call tx port) state =
    (to_engine env (engine_call tx), Map.insert (h.hash_string tx) port state)
handle ⦃h⦄ env (send tx port) state =
    (to_engine env (engine_send tx), Map.insert (h.hash_string tx) port state)
handle ⦃h⦄ env (register_program tx port) state =
    (to_engine env (engine_register_program tx), Map.insert (h.hash_string tx) port state)
handle env (get_account address port) state =
    (reply port (account_response (env.get_account address)) ∷ [], state)
handle env (transaction_applied hash token) state = answer hash (send_response token) state
handle env (send_transaction_failure hash) state = answer hash transaction_error state
handle env (call_transaction_applied hash account) state = answer hash (call_response account) state
handle env (call_transaction_failure hash) state = answer hash transaction_error state
handle env (call_transaction_async_pending hash) state =
    answer hash (async_call_response hash) state
handle ⦃h⦄ env (registration_success tx program_id) state =
    answer (h.hash_string tx) (register_program_response program_id) state
handle env (registration_failure _) state = ([], state)
handle env unhandled state = ([], state)

-- a run of messages, each in the environment of its time
unfoldable pub run :
    ⦃h : Hasher⦄ → List (SchedulerEnv × SchedulerMessage) → Ports → List Sent × Ports
unfolding handle
run [] state = ([], state)
run (m ∷ ms) state =
    let (out, state') = handle m.0 m.1 state in
    let (outs, state'') = run ms state' in (out ++ outs, state'')
