-- ===== src/Actors/Pending/Clean.antt =====
-- `PendingGraph::clean_graph`, which drops the transactions that have timed out.
use Prim.Native.Nat.{◌%◌}
use lasr.Base.{
  ℕ, ◌+◌, ◌-◌, ◌^◌, String, none, some, List, [], ◌∷◌, ◌++◌, ◌==◌, if◌then◌else◌, nat_eq, string_eq,
  leb, all,
}
use lasr.Base.Map
use lasr.Base.Map.{Map}
use lasr.Types.Address.{Address}
use lasr.Actors.Messages.{Registry, Cast}
use lasr.Actors.Pending.{Vertex, PendingGraph, leave_queues, get_transactions, schedule_all}

-- in milliseconds
abbrev pub pending_timeout : ℕ
pending_timeout = 15000

-- `u64` subtraction of the timestamps; it wraps if the clock was set back
abbrev pub elapsed : ℕ → ℕ → ℕ
elapsed now timestamp = (now + 2 ^ 64 - timestamp) % 2 ^ 64

-- the first of each queue that the account has, where it is not empty
abbrev fronts : List Address → Map Address (List String) → List String
fronts [] index = []
fronts (a ∷ as') index = elim (Map.get a index) [
  | some (x ∷ _) ↦ x ∷ fronts as' index
  | _ ↦ fronts as' index
]

-- The dependents of a vertex that has timed out: each leaves the vertex out of its accounts' queues,
-- and is ready if it is the first of each.
unfoldable pub ready_dependents : String → List String → PendingGraph → List String × PendingGraph
ready_dependents hash [] g = ([], g)
ready_dependents hash (dep ∷ deps) g = elim (Map.get dep g.vertices) [
  | none ↦ ready_dependents hash deps g
  | some v ↦
      let index = leave_queues hash v.accounts_touched g.account_index in
      let (ready, g') = ready_dependents hash deps (record g { account_index = index }) in
      (if all (λ x. x == dep) (fronts v.accounts_touched index) then dep ∷ ready else ready, g')
]

-- one round of the loop
unfoldable pub clean_vertex :
    Registry → ℕ → String → Vertex → PendingGraph → PendingGraph × List Cast
unfolding ready_dependents
clean_vertex reg now hash v g =
    if leb pending_timeout (elapsed now v.timestamp)
    then (let deps : List String = elim (Map.get hash g.vertices) [
      | none ↦ []
      | some w ↦ w.dependent_transactions
    ] in
        let (ready, g') =
          ready_dependents hash deps (record g { vertices = Map.remove hash g.vertices }) in
        (g', schedule_all reg (get_transactions g' ready)))
    else (g, [])

-- the loop over a clone of the map
unfoldable pub clean_from :
    Registry → ℕ → Map String Vertex → PendingGraph → PendingGraph × List Cast
clean_from reg now [] g = (g, [])
clean_from reg now ((hash, v) ∷ m) g =
    let (g', casts) = clean_vertex reg now hash v g in
    let (g'', more) = clean_from reg now m g' in (g'', casts ++ more)

unfoldable pub clean_graph : Registry → ℕ → PendingGraph → PendingGraph × List Cast
unfolding clean_from
clean_graph reg now g = clean_from reg now g.vertices g
