-- ===== src/Actors/Engine.antt =====
-- `EngineActor` of crates/actors/src/engine.rs: what it sends for each message. The errors of its
-- tasks only go to the log.
pub mod Deposits
use lasr.Base.{String, Bool, true, false, Option, none, some, List, [], ◌∷◌, ◌++◌, if◌then◌else◌}
use lasr.Base.Int.{pos}
use lasr.Types.Address.{Address}
use lasr.Types.Account.{Account}
use lasr.Types.Instruction.{Outputs}
use lasr.Types.Transaction.{Transaction, TransactionType, bridge_in}
use lasr.Types.U256.{U256}
use lasr.Actors.Messages.{
  Hasher, Registry, Cast, cast_if, pending_new, executor_set, executor_create,
  scheduler_call_failure, account_cache_write,
}
use lasr.Actors.Batcher.Calls.{Contract}

pub record BridgeEvent : Type 0 where
  pub user : Address
  pub program_id : Address
  pub amount : U256
  pub token_id : U256
  pub token_type : String
  pub bridge_event_id : U256

-- Nothing is done for the events of a settlement, which are left out.
pub data EoEvent : Type 0 where
  bridge : List BridgeEvent → EoEvent
  settlement : EoEvent

-- `serde_json` on the outputs of a program: a parameter of the model.
pub record OutputsParser : Type 0 where
  pub parse : String → Option Outputs

-- The messages without a handler are `unhandled`.
pub data EngineMessage : Type 0 where
  call : Transaction → EngineMessage
  send : Transaction → EngineMessage
  register_program : Transaction → EngineMessage
  eo_event : EoEvent → EngineMessage
  cache : Account → EngineMessage
  call_success : Transaction → String → String → EngineMessage
  registration_success : String → EngineMessage
  unhandled : EngineMessage

-- the transaction of a deposit
abbrev pub bridged : BridgeEvent → Transaction
bridged event = record {
  transaction_type = bridge_in event.bridge_event_id;
  from = event.user;
  to = event.user;
  program_id = event.program_id;
  op = "";
  inputs = "";
  value = event.amount;
  nonce = event.bridge_event_id;
  v = pos 0;
  r = 0;
  s = 0;
}

module _ (reg : Registry) where
  abbrev pub set_pending_transaction : Transaction → Option Outputs → List Cast
  set_pending_transaction tx outputs = cast_if reg.pending_transactions (pending_new tx outputs)

  -- the first error ends the loop
  unfoldable pub handle_bridge_event : List BridgeEvent → List Cast
  handle_bridge_event [] = []
  handle_bridge_event (event ∷ events) =
      let rest = handle_bridge_event events in
      if reg.pending_transactions then set_pending_transaction (bridged event) none ++ rest else []

  abbrev pub handle_eo_event : EoEvent → List Cast
  handle_eo_event (bridge events) = handle_bridge_event events
  handle_eo_event settlement = []

  unfoldable pub handle_register_program : Contract → Transaction → List Cast
  handle_register_program contract tx = elim (contract.content_id tx.inputs) [
    | none ↦ []
    | some content_id ↦ elim (contract.create_program_id content_id tx) [
      | none ↦ []
      | some _ ↦ cast_if reg.executor (executor_create tx content_id)
    ]
  ]

  abbrev respond_with_error : String → List Cast
  respond_with_error hash = cast_if reg.scheduler (scheduler_call_failure hash)

  -- Outputs that cannot be parsed are reported in `call_success`, and the error that it returns is
  -- reported once more.
  unfoldable pub handle_call_success :
      ⦃h : Hasher⦄ → OutputsParser → Transaction → String → String → List Cast
  handle_call_success ⦃h⦄ parser tx transaction_hash outputs = elim (parser.parse outputs) [
    | none ↦ respond_with_error (h.hash_string tx) ++ respond_with_error transaction_hash
    | some parsed ↦
        if reg.pending_transactions
        then set_pending_transaction tx (some parsed)
        else respond_with_error transaction_hash
  ]

  -- `none` is the panic of `todo!()`.
  unfoldable pub handle :
      ⦃h : Hasher⦄ → Contract → OutputsParser → EngineMessage → Option (List Cast)
  unfolding handle_bridge_event handle_register_program handle_call_success
  handle contract parser (call tx) = some (cast_if reg.executor (executor_set tx))
  handle contract parser (send tx) = some (set_pending_transaction tx none)
  handle contract parser (register_program tx) = some (handle_register_program contract tx)
  handle contract parser (eo_event event) = some (handle_eo_event event)
  handle contract parser (cache account) =
      some (cast_if reg.account_cache (account_cache_write account))
  handle contract parser (call_success tx hash outputs) =
      some (handle_call_success parser tx hash outputs)
  handle contract parser (registration_success _) = none
  handle contract parser unhandled = some []
