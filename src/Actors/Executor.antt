-- ===== src/Actors/Executor.antt =====
-- `ExecutionEngine` and `ExecutorActor` of crates/actors/src/executor.rs, built without the feature
-- `remote`: the containers that run, and what is sent for each message. An address stands for its
-- text in the keys of the handles. A task holds the lock of the engine while it uses it, so the
-- tasks run one after the other here.
pub mod Results
use lasr.Base.{
  ℕ, String, Bool, true, false, not, ◌&&◌, Option, none, some, List, [], ◌∷◌, ◌++◌, ◌==◌,
  if◌then◌else◌, nat_eq, string_eq, Eq, ◌≡◌, ◌↔◌, arith,
}
use lasr.Base.Int.{pos}
use lasr.Base.Map
use lasr.Base.Map.{Map}
use lasr.Types.Address.{Address}
use lasr.Types.Account.{Account}
use lasr.Types.Instruction.{Inputs}
use lasr.Types.Transaction.{Transaction}
use lasr.Actors.Messages.{
  Hasher, Registry, Cast, cast_if, scheduler_registration_failure, batcher_append,
  pending_exec_success, engine_call_success, scheduler_call_failure, scheduler_call_async_pending,
  pending_new_call,
}
use lasr.Actors.Batcher.Calls.{Contract}

-- a container that runs, by its join handle
abbrev pub Job : Type 0
Job = ℕ

-- what a join handle gives: the output of the program, its error, or that of the thread
pub data JobResult : Type 0 where
  finished : String → JobResult
  failed : JobResult

-- What is not of this code: `OciManager` of the crate `compute`, which pins, bundles and runs what a
-- content id names, and `get_account`.
pub record Runtime : Type 0 where
  pub is_pinned : String → Bool
  pub pin_object : String → Bool
  pub bundle : String → Bool
  pub run_container : String → Address → Transaction → Inputs → String → Option Job
  pub join : Job → JobResult
  pub get_account : Address → Option Account

-- a program and the hash of a transaction
abbrev pub Key : Type 0
Key = Address × String

pub key_beq_iff : (a b : Key) → ((a.0 == b.0 && a.1 == b.1) ≡ true) ↔ (a ≡ b)
key_beq_iff a b = ground (arith, string_eq.beq_iff a.1 b.1)

instance abbrev pub key_eq : Eq Key
key_eq = record { beq = λ a b. a.0 == b.0 && a.1 == b.1; beq_iff = key_beq_iff }

abbrev pub Handles : Type 0
Handles = Map Key Job

pub data ExecutorMessage : Type 0 where
  create : Transaction → String → ExecutorMessage
  set : Transaction → ExecutorMessage
  exec : Transaction → ExecutorMessage
  results : Option Transaction → Address → Option String → ExecutorMessage
  unhandled : ExecutorMessage

-- the program's inputs to a call
abbrev pub inputs_of : Transaction → Account → Inputs
inputs_of tx program_account = record {
  version = pos 1;
  account_info = program_account;
  transaction = tx;
  op = tx.op;
  inputs = tx.inputs;
}

-- the text that a program without a content id is run by is that of its address
abbrev pub content_id_of : (Address → String) → Address → Account → String
content_id_of to_full_string program_id account =
    elim (Map.get "content_id" account.program_account_metadata) [
      | some content_id ↦ content_id
      | none ↦ to_full_string program_id
    ]

module _ ⦃h : Hasher⦄ (reg : Registry) where
  abbrev pub registration_error : Transaction → List Cast
  registration_error tx = cast_if reg.scheduler (scheduler_registration_failure (h.hash_string tx))

  abbrev pub registration_success : Transaction → List Cast
  registration_success tx = cast_if reg.batcher (batcher_append tx none)

  -- the engine hears of it only if the pending transaction actor is up
  abbrev pub execution_success : Transaction → String → List Cast
  execution_success tx outputs =
      if reg.pending_transactions
      then pending_exec_success tx
        ∷ cast_if reg.engine (engine_call_success tx (h.hash_string tx) outputs)
      else []

  abbrev pub execution_error : String → List Cast
  execution_error hash = cast_if reg.scheduler (scheduler_call_failure hash)

  abbrev pub call_queued_for_exec : Transaction → List Cast
  call_queued_for_exec tx = cast_if reg.scheduler (scheduler_call_async_pending (h.hash_string tx))

  module _ (env : Runtime) where
    -- `None` is the error: the program account at `to` does not exist.
    abbrev pub parse_inputs : Transaction → Option Inputs
    parse_inputs tx = elim (env.get_account tx.to) [
      | none ↦ none
      | some program_account ↦ some (inputs_of tx program_account)
    ]

    -- A content that cannot be pinned is reported, and then bundled all the same.
    unfoldable pub create_program : Contract → Transaction → String → List Cast
    create_program contract tx content_id =
        (if env.is_pinned content_id
          then []
          else if env.pin_object content_id
          then []
          else registration_error tx)
        ++ (if env.bundle content_id
            then elim (contract.create_program_id content_id tx) [
              | some _ ↦ registration_success tx
              | none ↦ registration_error tx
            ]
            else registration_error tx)

    abbrev set_pending_call : Transaction → List Cast
    set_pending_call tx =
        if reg.pending_transactions
        then pending_new_call tx ∷ call_queued_for_exec tx
        else execution_error (h.hash_string tx)

    unfoldable pub set_call : Transaction → List Cast
    set_call tx = elim (env.get_account tx.program_id) [
      | none ↦ execution_error (h.hash_string tx)
      | some _ ↦ elim (parse_inputs tx) [
        | none ↦ execution_error (h.hash_string tx)
        | some _ ↦ set_pending_call tx
      ]
    ]

    abbrev started : Transaction → Option Job → Handles → List Cast × Handles
    started tx none handles = (execution_error (h.hash_string tx), handles)
    started tx (some job) handles = ([], Map.insert (tx.program_id, h.hash_string tx) job handles)

    abbrev execute : String → Transaction → Option Inputs → Handles → List Cast × Handles
    execute content_id tx none handles = (execution_error (h.hash_string tx), handles)
    execute content_id tx (some inputs) handles =
        started tx (env.run_container content_id tx.program_id tx inputs (h.hash_string tx)) handles

    unfoldable pub exec_call : (Address → String) → Transaction → Handles → List Cast × Handles
    exec_call to_full_string tx handles = elim (env.get_account tx.program_id) [
      | none ↦ (execution_error (h.hash_string tx), handles)
      | some account ↦
          execute (content_id_of to_full_string tx.program_id account) tx (parse_inputs tx) handles
    ]

    -- without the transaction an output only goes to the log
    abbrev pub joined : Option Transaction → String → JobResult → List Cast
    joined (some tx) hash (finished output) = execution_success tx output
    joined none hash (finished output) = []
    joined tx hash failed = execution_error hash

    unfoldable pub get_results :
        Option Transaction → Address → Option String → Handles → List Cast × Handles
    get_results tx program_id none handles = ([], handles)
    get_results tx program_id (some hash) handles = elim (Map.get (program_id, hash) handles) [
      | none ↦ ([], Map.remove (program_id, hash) handles)
      | some job ↦ (joined tx hash (env.join job), Map.remove (program_id, hash) handles)
    ]

    unfoldable pub handle :
        Contract → (Address → String) → ExecutorMessage → Handles → List Cast × Handles
    unfolding create_program set_call exec_call get_results
    handle contract text (create tx content_id) handles =
        (create_program contract tx content_id, handles)
    handle contract text (set tx) handles = (set_call tx, handles)
    handle contract text (exec tx) handles = exec_call text tx handles
    handle contract text (results tx program_id hash) handles =
        get_results tx program_id hash handles
    handle contract text unhandled handles = ([], handles)
