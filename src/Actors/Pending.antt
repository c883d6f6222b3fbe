-- ===== src/Actors/Pending.antt =====
-- `PendingGraph` of crates/actors/src/pending_transactions.rs: the transactions that wait for their
-- validation, and for each account the queue of those that touch it. The locks of the vertices are
-- never poisoned.
pub mod Queues
pub mod Release
pub mod Clean
use lasr.Base.{
  ℕ, ◌+◌, ◌-◌, ◌^◌, String, Bool, true, false, not, ◌||◌, Option, none, some, List, [], ◌∷◌, ◌++◌,
  ◌==◌, if◌then◌else◌, nat_eq, string_eq, contains, remove_first, is_empty, leb, all,
}
use Prim.Native.Nat.{◌%◌}
use mathlib.Core.List.{filter_map}
use lasr.Base.Map
use lasr.Base.Map.{Map}
use lasr.Types.Account.{AddressOrNamespace}
use lasr.Types.Address.{Address}
use lasr.Types.Instruction.{Outputs, Instruction, instruction_accounts}
use lasr.Types.Transaction.{
  Transaction, TransactionType, send, call, bridge_in, get_accounts_involved,
}
use lasr.Actors.Messages.{
  Hasher, Registry, Cast, cast_if, validator_pending_transaction, validator_pending_call,
  scheduler_transaction_failure,
}

pub record Vertex : Type 0 where
  pub transaction : Transaction
  pub timestamp : ℕ
  pub outputs : Option Outputs
  pub accounts_touched : List Address
  pub dependent_transactions : List String

pub record PendingGraph : Type 0 where
  pub vertices : Map String Vertex
  pub account_index : Map Address (List String)

abbrev pub new_graph : PendingGraph
new_graph = record { vertices = []; account_index = [] }

-- `HashSet::extend`: each account once
unfoldable pub add_accounts : List Address → List Address → List Address
add_accounts set [] = set
add_accounts set (a ∷ as') = add_accounts (if contains set a then set else set ++ a ∷ []) as'

-- the address that an instruction names, if it names one
abbrev located : Transaction → List AddressOrNamespace → List Address
located tx [] = []
located tx (AddressOrNamespace.this ∷ l) = tx.to ∷ located tx l
located tx (AddressOrNamespace.address a ∷ l) = a ∷ located tx l
located tx (AddressOrNamespace.namespace _ ∷ l) = located tx l

abbrev involved : Transaction → List Instruction → List Address
involved tx [] = []
involved tx (i ∷ is) = located tx (instruction_accounts i) ++ involved tx is

unfoldable pub extract_accounts_touched : Transaction → Option Outputs → List Address
unfolding add_accounts
extract_accounts_touched tx none = add_accounts [] (get_accounts_involved tx)
extract_accounts_touched tx (some o) =
    add_accounts (add_accounts [] (get_accounts_involved tx)) (involved tx o.instructions)

-- `Vertex::new`, at the time `now`
abbrev pub new_vertex : Transaction → Option Outputs → ℕ → Vertex
new_vertex tx outputs now = record {
  transaction = tx;
  timestamp = now;
  outputs = outputs;
  accounts_touched = extract_accounts_touched tx outputs;
  dependent_transactions = [];
}

-- The error for the other types of transaction is dropped by every caller.
unfoldable pub schedule_with_validator : Registry → Transaction → Option Outputs → List Cast
schedule_with_validator reg tx outputs = elim tx.transaction_type [
  | send _ ↦ cast_if reg.validator (validator_pending_transaction tx)
  | call _ ↦ cast_if reg.validator (validator_pending_call outputs tx)
  | bridge_in _ ↦ cast_if reg.validator (validator_pending_transaction tx)
  | _ ↦ []
]

-- The vertex's list of dependents gets the transaction, once.
abbrev add_dependent : String → Vertex → Vertex
add_dependent id v = record v {
  dependent_transactions =
      if contains v.dependent_transactions id
      then v.dependent_transactions
      else v.dependent_transactions ++ id ∷ [];
}

-- The loop over the queue of one account, with the flag `has_dependencies`. The new vertex is
-- locked for reading meanwhile, so that to find it in the queue blocks: `none`.
unfoldable pub visit_queue :
    String → List String → Map String Vertex → Bool → Option (Map String Vertex × Bool)
visit_queue id [] vertices flag = some (vertices, flag)
visit_queue id (dep ∷ deps) vertices flag =
    let next : Map String Vertex × Bool = elim (Map.get dep vertices) [
      | some v ↦ (Map.insert dep (add_dependent id v) vertices, true)
      | none ↦ (vertices, flag)
    ] in
    if dep == id then none else visit_queue id deps next.0 next.1

-- `entry(account).or_default()`
abbrev pub queue_of : Address → Map Address (List String) → List String
queue_of a index = elim (Map.get a index) [ none ↦ [] | some q ↦ q ]

-- One account with its queue. The transaction joins the queue only if a dependency was found, for
-- this account or an earlier one.
unfoldable pub visit_account :
    String → Address → List String → PendingGraph → Bool → Option (PendingGraph × Bool)
unfolding visit_queue
visit_account id a queue g flag = elim (visit_queue id queue g.vertices flag) [
  | none ↦ none
  | some (vertices, found) ↦ some (
    record {
      vertices = vertices;
      account_index = Map.insert a (if found then queue ++ id ∷ [] else queue) g.account_index;
    },
    found,
  )
]

-- The loop over the accounts.
unfoldable pub visit_accounts :
    String → List Address → PendingGraph → Bool → Option (PendingGraph × Bool)
visit_accounts id [] g flag = some (g, flag)
visit_accounts id (a ∷ as') g flag = elim (visit_account id a (queue_of a g.account_index) g flag) [
  | none ↦ none
  | some (g', found) ↦ visit_accounts id as' g' found
]

module _ ⦃h : Hasher⦄ (reg : Registry) where
  unfoldable pub add_transaction :
      Transaction → Option Outputs → ℕ → PendingGraph → Option (PendingGraph × List Cast)
  add_transaction tx outputs now g =
      let id = h.hash_string tx in
      let v = new_vertex tx outputs now in
      elim (visit_accounts id v.accounts_touched
        (record g { vertices = Map.insert id v g.vertices }) false) [
          | none ↦ none
          | some (g', found) ↦
              some (g', if found then [] else schedule_with_validator reg tx outputs)
        ]

-- the loop over all vertices in `handle_valid` and `handle_invalid`: the ids that are ready, and
-- the vertices without the hash among the dependents
unfoldable pub drop_dependent : String → Map String Vertex → List String × Map String Vertex
drop_dependent hash [] = ([], [])
drop_dependent hash ((id, v) ∷ m) =
    let (ready, m') = drop_dependent hash m in
    if contains v.dependent_transactions hash
    then (let left = remove_first hash v.dependent_transactions in
        (
          if is_empty left then id ∷ ready else ready,
          (id, record v { dependent_transactions = left }) ∷ m',
        ))
    else (ready, (id, v) ∷ m')

-- the loop over the accounts that the transaction touched
unfoldable pub leave_queues :
    String → List Address → Map Address (List String) → Map Address (List String)
leave_queues hash [] index = index
leave_queues hash (a ∷ as') index = elim (Map.get a index) [
  | none ↦ leave_queues hash as' index
  | some q ↦ leave_queues hash as' (Map.insert a (remove_first hash q) index)
]

unfoldable pub handle_valid : String → PendingGraph → List String × PendingGraph
handle_valid hash g = elim (Map.get hash g.vertices) [
  | none ↦ ([], g)
  | some validated ↦
      let (ready, vertices) = drop_dependent hash (Map.remove hash g.vertices) in
      (
        ready,
        record {
          vertices = vertices;
          account_index = leave_queues hash validated.accounts_touched g.account_index;
        },
      )
]

-- as `handle_valid`, and the scheduler is told
unfoldable pub handle_invalid :
    Registry → String → PendingGraph → List String × PendingGraph × List Cast
unfolding handle_valid
handle_invalid reg hash g =
    let (ready, g') = handle_valid hash g in
    (ready, g', cast_if reg.scheduler (scheduler_transaction_failure hash))

abbrev pub get_transactions : PendingGraph → List String → List (Transaction × Option Outputs)
get_transactions g [] = []
get_transactions g (id ∷ ids) = elim (Map.get id g.vertices) [
  | some v ↦ (v.transaction, v.outputs) ∷ get_transactions g ids
  | none ↦ get_transactions g ids
]

unfoldable pub schedule_all : Registry → List (Transaction × Option Outputs) → List Cast
schedule_all reg [] = []
schedule_all reg ((tx, outputs) ∷ l) = schedule_with_validator reg tx outputs ++ schedule_all reg l
