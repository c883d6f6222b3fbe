-- ===== src/Actors/Batcher/Room.antt =====
-- When the search for a batch with room comes to an end.
use lasr.Base.{
  ℕ, zero, suc, ◌<◌, ◌≡◌, refl, arith, Bool, true, false, Option, none, some, List, [], ◌∷◌, length,
}
use lasr.Actors.Batch.{Batch}
use lasr.Actors.Batcher.{Batcher, try_children, add_to_batches, first_with_room, placed}

try_children-none :
    (ins : Batch → Option Batch) (n : ℕ) (flag : Bool) → try_children ins n [] flag ≡ none
unfolding try_children
try_children-none ins zero flag = refl
try_children-none ins (suc n) flag = try_children-none ins n true

abbrev with_flag : Bool → Option (List Batch) → Option (List Batch × Bool)
with_flag flag none = none
with_flag flag (some bs) = some (bs, flag)

-- with a round for every child, the loop finds what the search finds
try_children-first :
    (ins : Batch → Option Batch) (n : ℕ) (children : List Batch) (flag : Bool)
    → length children < n
    → try_children ins n children flag ≡ with_flag flag (first_with_room ins children)
unfolding try_children first_with_room
try_children-first ins zero children flag bound = ground arith
try_children-first ins (suc n) [] flag bound = try_children-none ins n true
try_children-first ins (suc n) (b ∷ bs) flag bound =
    let earlier = try_children-first ins n bs flag (ground arith) in ground (arith, earlier)

-- the loop ends only where it finds a batch, however many rounds it has
try_children-no_room :
    (ins : Batch → Option Batch) (n : ℕ) (children : List Batch) (flag : Bool)
    → first_with_room ins children ≡ none
    → try_children ins n children flag ≡ none
unfolding try_children first_with_room
try_children-no_room ins zero children flag e = refl
try_children-no_room ins (suc n) [] flag e = try_children-none ins n true
try_children-no_room ins (suc n) (b ∷ bs) flag e =
    ground (arith, try_children-no_room ins n bs flag)

-- With more rounds than there are children, the loop and what follows it give what the search for
-- the first batch with room gives, the parent first: that batch changed and no other, or no result
-- where none has room. No batch is added.
pub add_to_batches_lem :
    (ins : Batch → Option Batch) (fuel : ℕ) (batcher : Batcher)
    → length batcher.children < fuel
    → add_to_batches ins fuel batcher ≡ placed ins batcher
unfolding add_to_batches placed
add_to_batches_lem ins fuel batcher bound =
    ground (arith, try_children-first ins fuel batcher.children false bound)

-- If neither the parent nor a child takes the insertion, there is no result after any number of
-- rounds of the loop.
pub add_to_batches_runs_on :
    (ins : Batch → Option Batch) (fuel : ℕ) (batcher : Batcher)
    → ins batcher.parent ≡ none
    → first_with_room ins batcher.children ≡ none
    → add_to_batches ins fuel batcher ≡ none
unfolding add_to_batches
add_to_batches_runs_on ins fuel batcher full all_full =
    ground (arith, try_children-no_room ins fuel batcher.children false all_full)
