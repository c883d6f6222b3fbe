-- ===== src/Actors/PendingActor.antt =====
-- `PendingTransactionActor` of crates/actors/src/pending_transactions.rs: its state and its message
-- handler.
pub mod Runs
use lasr.Base.{
  ℕ, ◌≡◌, String, Bool, true, false, Option, none, some, List, [], ◌∷◌, ◌++◌, if◌then◌else◌,
  contains,
}
use lasr.Types.Instruction.{Outputs}
use lasr.Types.Transaction.{Transaction, is_bridge_in}
use lasr.Types.Transaction.Equality.{transaction_eq}
use lasr.Actors.Messages.{Hasher, Registry, Cast}
use lasr.Actors.Pending.{
  PendingGraph, new_graph, add_transaction, handle_valid, handle_invalid, get_transactions,
  schedule_all,
}
use lasr.Actors.Pending.Clean.{clean_graph}
use lasr.Actors.PreCall.{PreCallGraph, new_pre_call_graph, add_call, handle_completed_exec}

-- `DependencyGraphs`, with the actor's own list of bridge-in transactions
pub record PendingState : Type 0 where
  pub pending : PendingGraph
  pub pre_call : PreCallGraph
  pub bridge_in_transactions : List Transaction

abbrev pub new_state : PendingState
new_state = record {
  pending = new_graph;
  pre_call = new_pre_call_graph;
  bridge_in_transactions = [];
}

-- The certificates, the outputs of `ValidCall` and the error of `Invalid` are not read.
pub data PendingTransactionMessage : Type 0 where
  new : Transaction → Option Outputs → PendingTransactionMessage
  new_call : Transaction → PendingTransactionMessage
  exec_success : Transaction → PendingTransactionMessage
  valid : Transaction → PendingTransactionMessage
  invalid : Transaction → PendingTransactionMessage
  confirmed : PendingTransactionMessage
  get_pending_transaction : String → PendingTransactionMessage
  valid_call : Transaction → PendingTransactionMessage
  clean : PendingTransactionMessage

-- How the handling of a message ends: the thread may block on a lock that it holds, and `todo!()`
-- panics.
pub data Handled (S : Type 0) : Type 0 where
  handled : S → List Cast → Handled S
  blocked : Handled S
  panicked : Handled S

module _ ⦃h : Hasher⦄ (reg : Registry) (now : ℕ) where
  abbrev pub add_to_pending : Transaction → Option Outputs → PendingState → Handled PendingState
  add_to_pending tx outputs s = elim (add_transaction reg tx outputs now s.pending) [
    | none ↦ blocked
    | some (g, casts) ↦ handled (record s { pending = g }) casts
  ]

  -- a duplicate of a bridge-in transaction is skipped
  abbrev pub handle_new : Transaction → Option Outputs → PendingState → Handled PendingState
  handle_new tx outputs s =
      if is_bridge_in tx.transaction_type
      then (if contains s.bridge_in_transactions tx
          then handled s []
          else add_to_pending tx outputs
              (record s { bridge_in_transactions = s.bridge_in_transactions ++ tx ∷ [] }))
      else add_to_pending tx outputs s

  abbrev pub release_valid : Transaction → PendingState → Handled PendingState
  release_valid tx s =
      let (ids, g) = handle_valid (h.hash_string tx) s.pending in
      handled (record s { pending = g }) (schedule_all reg (get_transactions g ids))

  unfoldable pub handle : PendingTransactionMessage → PendingState → Handled PendingState
  handle (new tx outputs) s = handle_new tx outputs s
  handle (new_call tx) s = elim (add_call reg tx s.pre_call) [
    | none ↦ blocked
    | some (g, casts) ↦ handled (record s { pre_call = g }) casts
  ]
  handle (exec_success tx) s =
      let (g, casts) = handle_completed_exec reg (h.hash_string tx) s.pre_call in
      handled (record s { pre_call = g }) casts
  handle (valid tx) s = release_valid tx s
  handle (invalid tx) s =
      let (ids, g, casts) = handle_invalid reg (h.hash_string tx) s.pending in
      handled (record s { pending = g }) (casts ++ schedule_all reg (get_transactions g ids))
  handle confirmed s = panicked
  handle (get_pending_transaction _) s = handled s []
  handle (valid_call tx) s = release_valid tx s
  handle clean s =
      let (g, casts) = clean_graph reg now s.pending in handled (record s { pending = g }) casts

-- What the actor can get into, message by message; each may be handled at any time.
pub data Reach ⦃h : Hasher⦄ (reg : Registry) : PendingState → Type 0 where
  start : Reach reg new_state
  step :
      (now : ℕ) (m : PendingTransactionMessage) {s s' : PendingState} {casts : List Cast}
      → Reach reg s
      → handle reg now m s ≡ handled s' casts
      → Reach reg s'
