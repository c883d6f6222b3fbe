-- ===== src/Actors/Pending/Release.antt =====
-- What a validated transaction releases, in any graph: the transactions whose only dependent it is.
use lasr.Base.{
  ◌≡◌, refl, arith, String, Bool, false, ◌&&◌, ◌||◌, Option, none, some, [], ◌∷◌, ◌==◌,
  if◌then◌else◌, string_eq, nat_eq, contains, remove_first, is_empty,
}
use lasr.Base.Map
use lasr.Base.Map.{Map, get-remove}
use lasr.Actors.Pending.{Vertex, PendingGraph, drop_dependent, handle_valid}

-- the vertex without the hash among its dependents
abbrev pub without : String → Vertex → Vertex
without hash v = record v {
  dependent_transactions =
      if contains v.dependent_transactions hash
      then remove_first hash v.dependent_transactions
      else v.dependent_transactions;
}

abbrev pub dropped : String → Option Vertex → Option Vertex
dropped hash none = none
dropped hash (some v) = some (without hash v)

-- whether the map has the id with a vertex that has the hash as its only dependent
unfoldable pub waits_only : String → String → Map String Vertex → Bool
waits_only hash id [] = false
waits_only hash id ((k, v) ∷ m) =
    ((id == k)
      && (contains v.dependent_transactions hash
          && is_empty (remove_first hash v.dependent_transactions)))
    || waits_only hash id m

drop_dependent-get :
    (hash id : String) (m : Map String Vertex)
    → Map.get id (drop_dependent hash m).1 ≡ dropped hash (Map.get id m)
unfolding drop_dependent Map.get
drop_dependent-get hash id [] = refl
drop_dependent-get hash id ((k, v) ∷ m) = ground (arith, drop_dependent-get hash id m)

drop_dependent-ready :
    (hash id : String) (m : Map String Vertex)
    → contains (drop_dependent hash m).0 id ≡ waits_only hash id m
unfolding drop_dependent waits_only
drop_dependent-ready hash id [] = refl
drop_dependent-ready hash id ((k, v) ∷ m) = ground (arith, drop_dependent-ready hash id m)

-- The validation of a pending transaction, for any id: the graph after it has no vertex under the
-- hash and the others without the hash among their dependents, and the ids that are released are
-- those of the vertices left whose only dependent the hash was.
pub handle_valid_releases :
    (hash id : String) (v : Vertex) (g : PendingGraph)
    → Map.get hash g.vertices ≡ some v
    → let (ready, g') = handle_valid hash g in
      (Map.get id g'.vertices ≡ (if id == hash then none else dropped hash (Map.get id g.vertices)))
      × (contains ready id ≡ waits_only hash id (Map.remove hash g.vertices))
unfolding handle_valid
handle_valid_releases hash id v g e = ground (
  arith,
  drop_dependent-get hash id (Map.remove hash g.vertices),
  drop_dependent-ready hash id (Map.remove hash g.vertices),
  get-remove id hash g.vertices,
)
