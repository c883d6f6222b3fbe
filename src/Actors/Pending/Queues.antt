-- ===== src/Actors/Pending/Queues.antt =====
-- The queues of the accounts. A transaction joins a queue only behind another one, so a queue that
-- is empty stays empty.
use lasr.Base.{
  ℕ, ◌≡◌, refl, ◌∙◌, inl, inr, leb, String, Bool, false, Option, some, List, [], ◌∷◌, arith, nat_eq,
  string_eq, Option-cases, Bool-cases, remove_first,
}
use lasr.Base.Map
use lasr.Base.Map.{Map, Values, get-Values, insert-Values, remove-Values}
use lasr.Types.Address.{Address}
use lasr.Types.Instruction.{Outputs}
use lasr.Types.Transaction.{Transaction}
use lasr.Actors.Messages.{Hasher, Registry}
use lasr.Actors.Pending.Clean.{
  pending_timeout, elapsed, ready_dependents, clean_vertex, clean_from, clean_graph,
}
use lasr.Actors.Pending.{
  schedule_all, Vertex, PendingGraph, new_vertex, queue_of, visit_account, visit_accounts,
  add_transaction, drop_dependent, leave_queues, handle_valid, schedule_with_validator, visit_queue,
}

abbrev pub IsEmpty : List String → Type 0
IsEmpty q = q ≡ []

abbrev pub HasNoDependents : Vertex → Type 0
HasNoDependents v = v.dependent_transactions ≡ []

-- No account has a transaction in its queue, and no transaction has dependents.
pub record IsIdle (g : PendingGraph) : Type 0 where
  pub queues : Values IsEmpty g.account_index
  pub dependents : Values HasNoDependents g.vertices

pub queue-nil :
    (a : Address) (index : Map Address (List String)) → Values IsEmpty index → queue_of a index ≡ []
queue-nil a index h = elim (Option-cases (Map.get a index)) [
  | inl e ↦ rw (e, queue_of) refl
  | inr (q, e) ↦ rw (e, queue_of) (get-Values IsEmpty a q index h e)
]

visit_account-nil :
    (id : String) (a : Address) (g : PendingGraph)
    → visit_account id a [] g false
      ≡ some (record g { account_index = Map.insert a [] g.account_index }, false)
unfolding visit_account visit_queue
visit_account-nil id a g = refl

visit_accounts-next :
    (id : String) (a : Address) (as' : List Address) (g g' : PendingGraph) (flag found : Bool)
    → visit_account id a (queue_of a g.account_index) g flag ≡ some (g', found)
    → visit_accounts id (a ∷ as') g flag ≡ visit_accounts id as' g' found
unfolding visit_accounts
visit_accounts-next id a as' g g' flag found e = rw (e, visit_accounts) refl

-- with empty queues the loop over the accounts finds no dependency and keeps the queues empty
visit_accounts-IsIdle :
    (id : String) (accounts : List Address) (g : PendingGraph)
    → IsIdle g
    → (g' : PendingGraph) × (visit_accounts id accounts g false ≡ some (g', false))
      × IsIdle g'
      × (g'.vertices ≡ g.vertices)
unfolding visit_accounts
visit_accounts-IsIdle id [] g idle = (g, refl, idle, refl)
visit_accounts-IsIdle id (a ∷ as') g idle =
    let g₁ : PendingGraph = record g { account_index = Map.insert a [] g.account_index } in
    let idle₁ : IsIdle g₁ = record {
      queues = insert-Values IsEmpty a [] g.account_index refl idle.queues;
      dependents = idle.dependents;
    } in
    let (g', e, idle', same) = visit_accounts-IsIdle id as' g₁ idle₁ in
    let first : visit_account id a (queue_of a g.account_index) g false ≡ some (g₁, false) =
      rw (queue-nil a g.account_index idle.queues) (visit_account-nil id a g) in
    (g', visit_accounts-next id a as' g g₁ false false first ∙ e, idle', same)

module _ ⦃h : Hasher⦄ (reg : Registry) where
  -- On a graph whose queues are empty a transaction is scheduled with the validator at once,
  -- whatever pending transactions touch the same accounts, and the queues stay empty.
  pub add_transaction-IsIdle :
      (tx : Transaction) (outputs : Option Outputs) (now : ℕ) (g : PendingGraph)
      → IsIdle g
      → (g' : PendingGraph) × (add_transaction reg tx outputs now g
          ≡ some (g', schedule_with_validator reg tx outputs))
        × IsIdle g'
        × (g'.vertices ≡ Map.insert (h.hash_string tx) (new_vertex tx outputs now) g.vertices)
  unfolding add_transaction
  add_transaction-IsIdle tx outputs now g idle =
      let id = h.hash_string tx in
      let v = new_vertex tx outputs now in
      let g₁ : PendingGraph = record g { vertices = Map.insert id v g.vertices } in
      let idle₁ : IsIdle g₁ = record {
        queues = idle.queues;
        dependents = insert-Values HasNoDependents id v g.vertices refl idle.dependents;
      } in
      let (g', e, idle', same) = visit_accounts-IsIdle id v.accounts_touched g₁ idle₁ in
      (g', rw (e, add_transaction), idle', same)

drop_dependent-IsIdle :
    (hash : String) (m : Map String Vertex)
    → Values HasNoDependents m
    → drop_dependent hash m ≡ ([], m)
unfolding drop_dependent
drop_dependent-IsIdle hash [] idle = refl
drop_dependent-IsIdle hash ((id, v) ∷ m) idle = ground (arith, drop_dependent-IsIdle hash m idle.1)

leave_queues-IsIdle :
    (hash : String) (accounts : List Address) (index : Map Address (List String))
    → Values IsEmpty index
    → Values IsEmpty (leave_queues hash accounts index)
unfolding leave_queues
leave_queues-IsIdle hash [] index idle = idle
leave_queues-IsIdle hash (a ∷ as') index idle = elim (Option-cases (Map.get a index)) [
  | inl e ↦ rw (e, leave_queues) (leave_queues-IsIdle hash as' index idle)
  | inr (q, e) ↦
      rw (e, leave_queues)
        (leave_queues-IsIdle hash as' (Map.insert a (remove_first hash q) index) (
          insert-Values IsEmpty a (remove_first hash q) index
            (rw (get-Values IsEmpty a q index idle e) refl) idle))
]

-- On such a graph a validated transaction is removed, and releases none.
pub handle_valid-IsIdle :
    (hash : String) (g : PendingGraph)
    → IsIdle g
    → let (ready, g') = handle_valid hash g in (ready ≡ []) × IsIdle g'
unfolding handle_valid
handle_valid-IsIdle hash g idle = elim (Option-cases (Map.get hash g.vertices)) [
  | inl e ↦ ground arith
  | inr (v, e) ↦
      let left = remove-Values HasNoDependents hash g.vertices idle.dependents in
      ground (
        arith,
        drop_dependent-IsIdle hash (Map.remove hash g.vertices) left,
        leave_queues-IsIdle hash v.accounts_touched g.account_index idle.queues,
      )
]

-- The vertices that are timed out leave no others ready, and nothing is sent.
clean_vertex-IsIdle :
    (reg : Registry) (now : ℕ) (hash : String) (v : Vertex) (g : PendingGraph)
    → IsIdle g
    → let (g', casts) = clean_vertex reg now hash v g in (casts ≡ []) × IsIdle g'
unfolding clean_vertex ready_dependents schedule_all
clean_vertex-IsIdle reg now hash v g idle =
    let left : IsIdle (record g { vertices = Map.remove hash g.vertices }) = record {
      queues = idle.queues;
      dependents = remove-Values HasNoDependents hash g.vertices idle.dependents;
    } in
    elim (Bool-cases (leb pending_timeout (elapsed now v.timestamp))) [
      | inr e ↦ rw e (refl, idle)
      | inl e ↦ elim (Option-cases (Map.get hash g.vertices)) [
        | inl none_at ↦ rw (e, none_at) (refl, left)
        | inr (w, at) ↦
            rw (e, at, get-Values HasNoDependents hash w g.vertices idle.dependents at) (refl, left)
      ]
    ]

clean_from-IsIdle :
    (reg : Registry) (now : ℕ) (m : Map String Vertex) (g : PendingGraph)
    → IsIdle g
    → let (g', casts) = clean_from reg now m g in (casts ≡ []) × IsIdle g'
unfolding clean_from
clean_from-IsIdle reg now [] g idle = (refl, idle)
clean_from-IsIdle reg now ((hash, v) ∷ m) g idle =
    let (e, first) = clean_vertex-IsIdle reg now hash v g idle in
    let (e', rest) = clean_from-IsIdle reg now m (clean_vertex reg now hash v g).0 first in
    (rw (e, e') refl, rest)

pub clean_graph-IsIdle :
    (reg : Registry) (now : ℕ) (g : PendingGraph)
    → IsIdle g
    → let (g', casts) = clean_graph reg now g in (casts ≡ []) × IsIdle g'
unfolding clean_graph
clean_graph-IsIdle reg now g idle = clean_from-IsIdle reg now g.vertices g idle
