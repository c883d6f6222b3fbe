-- ===== src/Actors/PreCall/Programs.antt =====
-- The lists of the programs. No call is ever put on one, so every call is executed at once.
use lasr.Base.{◌≡◌, refl, inl, inr, String, some, [], nat_eq, string_eq, Option-cases}
use lasr.Base.Map
use lasr.Base.Map.{Map, Values, get-Values, insert-Values, remove-Values}
use lasr.Types.Transaction.{Transaction}
use lasr.Actors.Messages.{Hasher, Registry, cast_if, executor_exec}
use lasr.Actors.Pending.Queues.{IsEmpty, queue-nil}
use lasr.Actors.PreCall.{
  PreCallVertex, PreCallGraph, new_pre_call_vertex, visit_dependencies, add_call,
  handle_completed_exec,
}

abbrev pub IsFree : PreCallVertex → Type 0
IsFree v = v.dependencies ≡ []

-- No program has a call on its list, and no call has dependencies.
pub record HasNoCalls (g : PreCallGraph) : Type 0 where
  pub programs : Values IsEmpty g.program_index
  pub calls : Values IsFree g.vertices

module _ ⦃h : Hasher⦄ (reg : Registry) where
  abbrev pub after_call : Transaction → PreCallGraph → PreCallGraph
  after_call tx g = record {
    vertices = Map.insert (h.hash_string tx) (new_pre_call_vertex tx) g.vertices;
    program_index = Map.insert tx.to [] g.program_index;
  }

  -- The call is sent to the executor at once, and no list gets it.
  pub add_call-free :
      (tx : Transaction) (g : PreCallGraph)
      → HasNoCalls g
      → (add_call reg tx g ≡ some (after_call tx g, cast_if reg.executor (executor_exec tx)))
        × HasNoCalls (after_call tx g)
  unfolding add_call visit_dependencies
  add_call-free tx g free =
      let free' : HasNoCalls (after_call tx g) = record {
        programs = insert-Values IsEmpty tx.to [] g.program_index refl free.programs;
        calls =
            insert-Values IsFree (h.hash_string tx) (new_pre_call_vertex tx) g.vertices refl
              free.calls;
      } in
      let empty = queue-nil tx.to g.program_index free.programs in
      (rw (empty, add_call, empty) refl, free')

pub handle_completed_exec-free :
    (reg : Registry) (hash : String) (g : PreCallGraph)
    → HasNoCalls g
    → let (g', casts) = handle_completed_exec reg hash g in (casts ≡ []) × HasNoCalls g'
unfolding handle_completed_exec
handle_completed_exec-free reg hash g free =
    let left : HasNoCalls (record g { vertices = Map.remove hash g.vertices }) = record {
      programs = free.programs;
      calls = remove-Values IsFree hash g.vertices free.calls;
    } in
    elim (Option-cases (Map.get hash g.vertices)) [
      | inl e ↦ rw (e, handle_completed_exec) (refl, free)
      | inr (v, e) ↦
          rw (e, get-Values IsFree hash v g.vertices free.calls e, handle_completed_exec)
            (refl, left)
    ]
