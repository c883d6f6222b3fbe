-- ===== src/Tests/Pending.antt =====
-- The theorems on pending transactions at concrete graphs.
use lasr.Base.{◌≡◌, refl, none, some, [], ◌∷◌, nat_eq, string_eq}
use lasr.Base.Map
use lasr.Types.Transaction.{Transaction}
use lasr.Types.Transaction.Equality.{transaction_eq}
use lasr.Actors.Pending.{Vertex, PendingGraph, new_vertex, handle_valid}
use lasr.Actors.PendingActor
use lasr.Actors.PendingActor.{
  PendingTransactionMessage, PendingState, new_state, handle, handled, Reach,
}
use lasr.Actors.PendingActor.Runs.{Answers, answer, Reach-Answers}
use lasr.Tests.{test_hasher, test_registry, payment}

-- the state after one transaction has come in
abbrev refund : Transaction
refund = record payment { op = "refund"; from = 20; to = 10 }

abbrev one_pending : PendingState
one_pending = record new_state {
  pending = record {
    vertices = ("payment", new_vertex payment none 0) ∷ [];
    account_index = (10, []) ∷ (20, []) ∷ [];
  };
}

one_pending_reached : Reach test_registry one_pending
unfolding handle lasr.Actors.Pending.add_transaction lasr.Actors.Pending.visit_accounts
    lasr.Actors.Pending.extract_accounts_touched lasr.Actors.Pending.visit_account Map.get
    Map.insert
one_pending_reached =
    PendingActor.step 0 (PendingTransactionMessage.new payment none) PendingActor.start refl

Reach-Answers_example :
    Answers
      (handle test_registry 0 (PendingTransactionMessage.new refund none) one_pending)
      (answer test_registry (PendingTransactionMessage.new refund none) one_pending)
Reach-Answers_example =
    Reach-Answers test_registry 0 (PendingTransactionMessage.new refund none) one_pending
      one_pending_reached

-- a graph in which the one transaction has the other as its only dependent
abbrev waiting_vertex : Vertex
waiting_vertex = record (new_vertex payment none 0) { dependent_transactions = "refund" ∷ [] }

abbrev two_pending : PendingGraph
two_pending = record {
  vertices = ("payment", waiting_vertex) ∷ ("refund", new_vertex refund none 0) ∷ [];
  account_index = [];
}

refund_pending : Map.get "refund" two_pending.vertices ≡ some (new_vertex refund none 0)
unfolding Map.get
refund_pending = refl
