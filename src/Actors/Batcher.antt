-- ===== src/Actors/Batcher.antt =====
-- `Batcher` of crates/actors/src/batcher.rs: the batch that is settled next, those that wait behind
-- it, and the loop that looks for one which has room.
pub mod Room
pub mod World
pub mod Tasks
pub mod Sends
pub mod Instructions
pub mod Calls
pub mod Settle
use lasr.Base.{
  ℕ, zero, suc, Bool, true, false, String, Option, none, some, List, [], ◌∷◌, ◌++◌, if◌then◌else◌,
}
use lasr.Base.Map
use lasr.Base.Map.{Map}
use lasr.Actors.Batch.{Batch, new_batch}

-- `cache` has the batches that were sent, by request id.
pub record Batcher : Type 0 where
  pub parent : Batch
  pub children : List Batch
  pub cache : Map String Batch

abbrev pub new_batcher : Batcher
new_batcher = record { parent = new_batch; children = []; cache = [] }

-- The loop `while let Err(ref mut e) = res` with the children that `iter` has left and the flag
-- `new_batch`, for as many rounds as the fuel: the children, and whether a batch is to be added.
-- An insertion that errs is `none`.
unfoldable pub try_children :
    (Batch → Option Batch) → ℕ → List Batch → Bool → Option (List Batch × Bool)
try_children ins zero children flag = none
try_children ins (suc n) [] flag = try_children ins n [] true
try_children ins (suc n) (child ∷ rest) flag =
    let later = try_children ins n rest flag in
    elim (ins child) [
      | some child' ↦ some (child' ∷ rest, flag)
      | none ↦ elim later [ none ↦ none | some (rest', flag') ↦ some (child ∷ rest', flag') ]
    ]

-- The batch that is pushed at the end is empty if the insertion errs on it too.
abbrev push_new : (Batch → Option Batch) → List Batch × Bool → List Batch
push_new ins (children, flag) =
    if flag
    then children ++ (elim (ins new_batch) [ none ↦ new_batch | some b ↦ b ]) ∷ []
    else children

-- `add_transaction_to_batch`, and `add_account_to_batch` after the account is cached, for the
-- insertion of the one or the other
unfoldable pub add_to_batches : (Batch → Option Batch) → ℕ → Batcher → Option Batcher
unfolding try_children
add_to_batches ins fuel batcher = elim (ins batcher.parent) [
  | some parent ↦ some (record batcher { parent = parent })
  | none ↦ elim (try_children ins fuel batcher.children false) [
    | none ↦ none
    | some found ↦ some (record batcher { children = push_new ins found })
  ]
]

-- The first of the batches that takes the insertion, changed by it.
unfoldable pub first_with_room : (Batch → Option Batch) → List Batch → Option (List Batch)
first_with_room ins [] = none
first_with_room ins (b ∷ bs) =
    let later = first_with_room ins bs in
    elim (ins b) [
      | some b' ↦ some (b' ∷ bs)
      | none ↦ elim later [ none ↦ none | some bs' ↦ some (b ∷ bs') ]
    ]

-- The whole of it, where it comes to an end: `none` is the loop that never does.
unfoldable pub placed : (Batch → Option Batch) → Batcher → Option Batcher
unfolding first_with_room
placed ins batcher = elim (ins batcher.parent) [
  | some parent ↦ some (record batcher { parent = parent })
  | none ↦ elim (first_with_room ins batcher.children) [
    | none ↦ none
    | some children ↦ some (record batcher { children = children })
  ]
]
