-- ===== src/Actors/PreCall.antt =====
-- `PreCallGraph` of crates/actors/src/pending_transactions.rs: the calls that wait for their
-- execution, and for each program the calls of it.
pub mod Programs
use lasr.Base.{
  String, Bool, true, false, Option, none, some, List, [], ◌∷◌, ◌++◌, ◌==◌, if◌then◌else◌, nat_eq,
  string_eq, contains,
}
use lasr.Base.Map
use lasr.Base.Map.{Map}
use lasr.Types.Address.{Address}
use lasr.Types.Transaction.{Transaction}
use lasr.Actors.Pending.{queue_of}
use lasr.Actors.Messages.{Hasher, Registry, Cast, cast_if, executor_exec}

pub record PreCallVertex : Type 0 where
  pub transaction : Transaction
  pub program_account : Address
  pub dependencies : List String

pub record PreCallGraph : Type 0 where
  pub vertices : Map String PreCallVertex
  pub program_index : Map Address (List String)

abbrev pub new_pre_call_graph : PreCallGraph
new_pre_call_graph = record { vertices = []; program_index = [] }

abbrev pub new_pre_call_vertex : Transaction → PreCallVertex
new_pre_call_vertex tx = record { transaction = tx; program_account = tx.to; dependencies = [] }

-- The id is pushed only where the list holds it already.
abbrev push_dependency : String → PreCallVertex → PreCallVertex
push_dependency id v = record v {
  dependencies = if contains v.dependencies id then v.dependencies ++ id ∷ [] else v.dependencies;
}

-- The loop over the dependencies, with the flag `has_dependencies`. The new vertex is locked for
-- reading meanwhile, so that to find it among them blocks: `none`.
unfoldable pub visit_dependencies :
    String
    → List String
    → Map String PreCallVertex
    → Bool
    → Option (Map String PreCallVertex × Bool)
visit_dependencies id [] vertices flag = some (vertices, flag)
visit_dependencies id (dep ∷ deps) vertices flag =
    let next : Map String PreCallVertex × Bool = elim (Map.get dep vertices) [
      | some v ↦ (Map.insert dep (push_dependency id v) vertices, true)
      | none ↦ (vertices, flag)
    ] in
    if dep == id then none else visit_dependencies id deps next.0 next.1

module _ ⦃h : Hasher⦄ (reg : Registry) where
  unfoldable pub add_call : Transaction → PreCallGraph → Option (PreCallGraph × List Cast)
  add_call tx g =
      let id = h.hash_string tx in
      let dependencies = queue_of tx.to g.program_index in
      elim (visit_dependencies id dependencies (Map.insert id (new_pre_call_vertex tx) g.vertices)
        false) [
          | none ↦ none
          | some (vertices, found) ↦ some (
            record {
              vertices = vertices;
              program_index = Map.insert tx.to dependencies g.program_index;
            },
            if found then [] else cast_if reg.executor (executor_exec tx),
          )
        ]

-- The errors only go to the log.
unfoldable pub handle_completed_exec : Registry → String → PreCallGraph → PreCallGraph × List Cast
handle_completed_exec reg hash g = elim (Map.get hash g.vertices) [
  | none ↦ (g, [])
  | some done ↦
      let vertices = Map.remove hash g.vertices in
      let g' : PreCallGraph = record g { vertices = vertices } in
      elim done.dependencies [
        | [] ↦ (g', [])
        | next ∷ _ ↦ elim (Map.get next vertices) [
          | some v ↦ (g', cast_if reg.executor (executor_exec v.transaction))
          | none ↦ (g', [])
        ]
      ]
]
