-- ===== src/Actors/System.antt =====
-- The actors of crates/actors/src together: each message that one of them casts is delivered to the
-- actor that it names. The persistence store, the containers, the signatures and the texts are
-- parameters; the accounts that an actor looks for are those of the cache, which every actor reads
-- through `get_account` of crates/actors/src/helpers.rs.
pub mod Drains
pub mod Steps
pub mod CallPath
pub mod DepositPath
pub mod SendPath
pub mod Refusal
pub mod Clients
use lasr.Base.{
  ℕ, zero, suc, String, Bool, true, false, Option, none, some, List, [], ◌∷◌, ◌++◌, if◌then◌else◌,
  map,
}
use lasr.Base.Map.{Map}
use lasr.Base.Result.{Result, ok, err, panic}
use lasr.Types.Address.{Address}
use lasr.Types.Account.{Account}
use lasr.Types.Instruction.{Outputs}
use lasr.Types.Transaction.{Transaction}
use lasr.Types.U256.{Uint}
use lasr.Actors.Messages
use lasr.Actors.Messages.{Hasher, Registry, Cast}
use lasr.Actors.Scheduler
use lasr.Actors.Scheduler.{Port, Ports, Response, SchedulerMessage, SchedulerEnv, Sent}
use lasr.Actors.Engine
use lasr.Actors.Engine.{EngineMessage, OutputsParser}
use lasr.Actors.PendingActor
use lasr.Actors.PendingActor.{
  PendingState, PendingTransactionMessage, Handled, handled, blocked, panicked,
}
use lasr.Actors.Validator
use lasr.Actors.Validator.{Signatures}
use lasr.Actors.Executor
use lasr.Actors.Executor.{ExecutorMessage, Handles, Runtime}
use lasr.Actors.AccountCache.{write_entry}
use lasr.Actors.Batch.{Encoder}
use lasr.Actors.Batcher.{Batcher}
use lasr.Actors.Batcher.World.{Env, World, Ended, ended, endless, find_account}
use lasr.Actors.Batcher.Calls.{Contract, append_transaction}

-- a message with the actor that it is for
pub data Message : Type 0 where
  to_scheduler : SchedulerMessage → Message
  to_engine : EngineMessage → Message
  to_pending : PendingTransactionMessage → Message
  to_validator : Transaction → Message
  to_validator_call : Option Outputs → Transaction → Message
  to_batcher : Transaction → Option Outputs → Message
  to_executor : ExecutorMessage → Message
  to_cache : Account → Message

-- what the actors keep, and the answers that clients got
pub record System : Type 0 where
  pub ports : Ports
  pub pending : PendingState
  pub cached : Map Address Account
  pub batcher : Batcher
  pub handles : Handles
  pub replies : List (Port × Response)

-- what the actors are run with
pub record Node : Type 0 where
  pub env : Env
  pub contract : Contract
  pub parser : OutputsParser
  pub runtime : Runtime
  pub text : Address → String
  pub now : ℕ

abbrev pub routed : Cast → Message
routed (Messages.validator_pending_transaction tx) = to_validator tx
routed (Messages.validator_pending_call outputs tx) = to_validator_call outputs tx
routed (Messages.executor_exec tx) = to_executor (Executor.exec tx)
routed (Messages.executor_create tx content_id) = to_executor (Executor.create tx content_id)
routed (Messages.executor_set tx) = to_executor (Executor.set tx)
routed (Messages.scheduler_transaction_failure hash) =
    to_scheduler (Scheduler.send_transaction_failure hash)
routed (Messages.scheduler_transaction_applied hash token) =
    to_scheduler (Scheduler.transaction_applied hash token)
routed (Messages.scheduler_call_applied hash account) =
    to_scheduler (Scheduler.call_transaction_applied hash account)
routed (Messages.scheduler_call_failure hash) =
    to_scheduler (Scheduler.call_transaction_failure hash)
routed (Messages.scheduler_registration_success program_id tx) =
    to_scheduler (Scheduler.registration_success tx program_id)
routed (Messages.scheduler_registration_failure hash) =
    to_scheduler (Scheduler.registration_failure hash)
routed (Messages.scheduler_call_async_pending hash) =
    to_scheduler (Scheduler.call_transaction_async_pending hash)
routed (Messages.pending_valid tx) = to_pending (PendingActor.valid tx)
routed (Messages.pending_invalid tx) = to_pending (PendingActor.invalid tx)
routed (Messages.pending_valid_call _ tx) = to_pending (PendingActor.valid_call tx)
routed (Messages.pending_new tx outputs) = to_pending (PendingActor.new tx outputs)
routed (Messages.pending_new_call tx) = to_pending (PendingActor.new_call tx)
routed (Messages.pending_exec_success tx) = to_pending (PendingActor.exec_success tx)
routed (Messages.batcher_append tx outputs) = to_batcher tx outputs
routed (Messages.engine_call_success tx hash outputs) =
    to_engine (Engine.call_success tx hash outputs)
routed (Messages.account_cache_write account) = to_cache account

-- what the scheduler sends: messages to the engine, and replies
abbrev pub forwarded : List Sent → List Message
forwarded [] = []
forwarded (Scheduler.engine_call tx ∷ sent) = to_engine (Engine.call tx) ∷ forwarded sent
forwarded (Scheduler.engine_send tx ∷ sent) = to_engine (Engine.send tx) ∷ forwarded sent
forwarded (Scheduler.engine_register_program tx ∷ sent) =
    to_engine (Engine.register_program tx) ∷ forwarded sent
forwarded (Scheduler.reply _ _ ∷ sent) = forwarded sent

abbrev pub replied : List Sent → List (Port × Response)
replied [] = []
replied (Scheduler.reply port r ∷ sent) = (port, r) ∷ replied sent
replied (_ ∷ sent) = replied sent

-- what a delivery leaves: the messages sent, and the actors; `none` is an actor that blocks, panics
-- or never ends
abbrev pub Delivered : Type 0
Delivered = Option (List Message × System)

abbrev pub world_of : System → World
world_of s = record { cached = s.cached; batcher = s.batcher; sent = [] }

abbrev from_pending : System → Handled PendingState → Delivered
from_pending s (handled p casts) = some (map routed casts, record s { pending = p })
from_pending s blocked = none
from_pending s panicked = none

-- an error of a task is reported by the task
abbrev from_batcher : System → Ended (Unit {0}) → Delivered
from_batcher s (ended panic w) = none
from_batcher s (ended _ w) =
    some (map routed w.sent, record s { cached = w.cached; batcher = w.batcher })
from_batcher s endless = none

abbrev from_engine : System → Option (List Cast) → Delivered
from_engine s none = none
from_engine s (some casts) = some (map routed casts, s)

module _ ⦃h : Hasher⦄ ⦃u : Uint⦄ ⦃c : Encoder⦄ ⦃v : Signatures⦄ (n : Node) where
  abbrev pub found_account : System → Address → Option Account
  found_account s address = find_account n.env address (world_of s)

  abbrev pub scheduler_env : System → SchedulerEnv
  scheduler_env s = record { engine = n.env.registry.engine; get_account = found_account s }

  unfoldable pub deliver : Message → System → Delivered
  deliver (to_scheduler m) s =
      let (sent, ports) = Scheduler.handle (scheduler_env s) m s.ports in
      some (forwarded sent, record s { ports = ports; replies = s.replies ++ replied sent })
  deliver (to_engine m) s = from_engine s (Engine.handle n.env.registry n.contract n.parser m)
  deliver (to_pending m) s = from_pending s (PendingActor.handle n.env.registry n.now m s.pending)
  deliver (to_validator tx) s =
      some (map routed (Validator.pending_transaction n.env.registry (found_account s) tx), s)
  deliver (to_validator_call outputs tx) s =
      some (map routed (Validator.pending_call n.env.registry (found_account s) outputs tx), s)
  deliver (to_batcher tx outputs) s =
      from_batcher s (append_transaction n.env tx n.contract outputs (world_of s))
  deliver (to_executor m) s =
      let runtime : Runtime = record n.runtime { get_account = found_account s } in
      let (casts, handles) = Executor.handle n.env.registry runtime n.contract n.text m s.handles in
      some (map routed casts, record s { handles = handles })
  deliver (to_cache account) s = some ([], record s { cached = write_entry account s.cached })

  -- The messages are delivered in the order in which they were sent, until none is left; `none` if
  -- the fuel does not last.
  unfoldable pub drain : ℕ → List Message → System → Option System
  drain fuel [] s = some s
  drain zero (m ∷ ms) s = none
  drain (suc fuel) (m ∷ ms) s = elim (deliver m s) [
    | none ↦ none
    | some (out, s') ↦ drain fuel (ms ++ out) s'
  ]
