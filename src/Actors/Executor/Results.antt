-- ===== src/Actors/Executor/Results.antt =====
-- What becomes of a call that crates/actors/src/executor.rs starts.
use lasr.Base.{String, Bool, false, some, List, [], ◌∷◌, ◌==◌, nat_eq, string_eq}
use lasr.Base.Map
use lasr.Types.Address.{Address}
use lasr.Types.Account.{Account}
use lasr.Types.Transaction.{Transaction}
use lasr.Actors.Messages.{Hasher, Registry}
use lasr.Actors.Batcher.Calls.{Contract}
use lasr.Actors.Executor.{Runtime, Key, key_eq, Handles, ExecutorMessage, exec, results, handle}

module _ ⦃h : Hasher⦄ (reg : Registry) (env : Runtime) (contract : Contract)
    (text : Address → String) where
  -- the handles after a run of messages
  unfoldable pub run_handles : List ExecutorMessage → Handles → Handles
  run_handles [] handles = handles
  run_handles (m ∷ ms) handles = run_handles ms (handle reg env contract text m handles).1

  abbrev pub key_of : Transaction → Key
  key_of tx = (tx.program_id, h.hash_string tx)

  -- the message is a call or a result under the key
  abbrev pub concerns : Key → ExecutorMessage → Bool
  concerns k (exec tx) = k == key_of tx
  concerns k (results _ program_id (some hash)) = k == (program_id, hash)
  concerns k _ = false
