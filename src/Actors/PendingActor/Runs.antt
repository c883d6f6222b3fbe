-- ===== src/Actors/PendingActor/Runs.antt =====
-- What the actor can get into. No transaction ever waits for another one, and no call either.
use lasr.Base.{
  ℕ, ◌≡◌, refl, inl, inr, subst, append-nil, Option, none, some, List, [], ◌∷◌, ◌++◌, Bool-cases,
  contains, if◌then◌else◌,
}
use lasr.Types.Instruction.{Outputs}
use lasr.Types.Transaction.{Transaction, is_bridge_in}
use lasr.Types.Transaction.Equality.{transaction_eq}
use lasr.Actors.Messages.{
  Hasher, Registry, Cast, cast_if, executor_exec, scheduler_transaction_failure,
}
use lasr.Actors.Pending.{handle_valid, handle_invalid, schedule_with_validator, schedule_all}
use lasr.Actors.Pending.Queues.{
  IsIdle, add_transaction-IsIdle, handle_valid-IsIdle, clean_graph-IsIdle,
}
use lasr.Actors.Pending.Clean.{clean_graph}
use lasr.Actors.PreCall.{handle_completed_exec}
use lasr.Actors.PreCall.Programs.{HasNoCalls, after_call, add_call-free, handle_completed_exec-free}
use lasr.Actors.PendingActor.{
  add_to_pending, handle_new, release_valid, PendingState, PendingTransactionMessage, Handled,
  handled, panicked, handle, Reach, start, step, new, new_call, exec_success, valid, invalid,
  confirmed, get_pending_transaction, valid_call, clean,
}

-- Nothing waits in either graph.
pub record IsQuiet (s : PendingState) : Type 0 where
  pub transactions : IsIdle s.pending
  pub calls : HasNoCalls s.pre_call

-- A message is handled to the end, sends `casts`, and leaves nothing waiting.
abbrev pub Settles : Handled PendingState → List Cast → Type 0
Settles r casts = (s : PendingState) × (r ≡ handled s casts) × IsQuiet s

module _ ⦃h : Hasher⦄ (reg : Registry) (now : ℕ) where
  add_to_pending-quiet :
      (tx : Transaction) (outputs : Option Outputs) (s : PendingState)
      → IsQuiet s
      → Settles (add_to_pending reg now tx outputs s) (schedule_with_validator reg tx outputs)
  add_to_pending-quiet tx outputs s quiet =
      let (g, e, idle, _) =
        add_transaction-IsIdle reg tx outputs now s.pending quiet.transactions in
      (
        record s { pending = g },
        rw (e, add_to_pending) refl,
        record { transactions = idle; calls = quiet.calls },
      )

  pub handle_new-quiet :
      (tx : Transaction) (outputs : Option Outputs) (s : PendingState)
      → IsQuiet s
      → Settles (handle_new reg now tx outputs s) (
          if is_bridge_in tx.transaction_type
          then (if contains s.bridge_in_transactions tx
              then []
              else schedule_with_validator reg tx outputs)
          else schedule_with_validator reg tx outputs)
  handle_new-quiet tx outputs s quiet = elim (Bool-cases (is_bridge_in tx.transaction_type)) [
    | inr e ↦ rw e (add_to_pending-quiet tx outputs s quiet)
    | inl e ↦ elim (Bool-cases (contains s.bridge_in_transactions tx)) [
      | inl again ↦ rw (e, again) (s, refl, quiet)
      | inr first ↦
          rw (e, first)
            (add_to_pending-quiet tx outputs
              (record s { bridge_in_transactions = s.bridge_in_transactions ++ tx ∷ [] })
              (record { transactions = quiet.transactions; calls = quiet.calls }))
    ]
  ]

  release_valid-quiet :
      (tx : Transaction) (s : PendingState) → IsQuiet s → Settles (release_valid reg now tx s) []
  unfolding schedule_all
  release_valid-quiet tx s quiet =
      let (e, idle) = handle_valid-IsIdle (h.hash_string tx) s.pending quiet.transactions in
      (
        record s { pending = (handle_valid (h.hash_string tx) s.pending).1 },
        rw e refl,
        record { transactions = idle; calls = quiet.calls },
      )

-- What the actor sends where nothing waits: a transaction whose type is validated goes to the
-- validator and a call to the executor as it comes in, if they are up, and a verdict releases
-- nothing. `none` is the panic of `Confirmed`.
abbrev pub answer :
    ⦃h : Hasher⦄ → Registry → PendingTransactionMessage → PendingState → Option (List Cast)
answer reg (new tx outputs) s = some (
    if is_bridge_in tx.transaction_type
    then (if contains s.bridge_in_transactions tx
        then []
        else schedule_with_validator reg tx outputs)
    else schedule_with_validator reg tx outputs)
answer reg (new_call tx) s = some (cast_if reg.executor (executor_exec tx))
answer reg confirmed s = none
answer ⦃h⦄ reg (invalid tx) s =
    some (cast_if reg.scheduler (scheduler_transaction_failure (h.hash_string tx)))
answer reg _ s = some []

abbrev pub Answers : Handled PendingState → Option (List Cast) → Type 0
Answers r none = r ≡ panicked
Answers r (some casts) = Settles r casts

module _ ⦃h : Hasher⦄ (reg : Registry) (now : ℕ) where
  pub handle-quiet :
      (m : PendingTransactionMessage) (s : PendingState)
      → IsQuiet s
      → Answers (handle reg now m s) (answer reg m s)
  unfolding handle handle_invalid schedule_all
  handle-quiet (new tx outputs) s quiet = handle_new-quiet reg now tx outputs s quiet
  handle-quiet (new_call tx) s quiet =
      let (e, calls) = add_call-free reg tx s.pre_call quiet.calls in
      (
        record s { pre_call = after_call reg tx s.pre_call },
        rw (e, handle) refl,
        record { transactions = quiet.transactions; calls = calls },
      )
  handle-quiet (exec_success tx) s quiet =
      let hash = h.hash_string tx in
      let (e, calls) = handle_completed_exec-free reg hash s.pre_call quiet.calls in
      (
        record s { pre_call = (handle_completed_exec reg hash s.pre_call).0 },
        rw e refl,
        record { transactions = quiet.transactions; calls = calls },
      )
  handle-quiet (valid tx) s quiet = release_valid-quiet reg now tx s quiet
  handle-quiet (invalid tx) s quiet =
      let (e, idle) = handle_valid-IsIdle (h.hash_string tx) s.pending quiet.transactions in
      (
        record s { pending = (handle_valid (h.hash_string tx) s.pending).1 },
        rw
            (
              e,
              append-nil (cast_if reg.scheduler (scheduler_transaction_failure (h.hash_string tx))),
            )
            refl,
        record { transactions = idle; calls = quiet.calls },
      )
  handle-quiet confirmed s quiet = refl
  handle-quiet (get_pending_transaction _) s quiet = (s, refl, quiet)
  handle-quiet (valid_call tx) s quiet = release_valid-quiet reg now tx s quiet
  handle-quiet clean s quiet =
      let (e, idle) = clean_graph-IsIdle reg now s.pending quiet.transactions in
      (
        record s { pending = (clean_graph reg now s.pending).0 },
        rw e refl,
        record { transactions = idle; calls = quiet.calls },
      )

after-IsQuiet :
    {s' : PendingState} {casts : List Cast} (o : Option (List Cast)) (r : Handled PendingState)
    → Answers r o
    → r ≡ handled s' casts
    → IsQuiet s'
after-IsQuiet none r p e = cc
after-IsQuiet {s' = s'} (some c) r (s, p, quiet) e =
    let same : s ≡ s' = cc in subst IsQuiet same quiet

-- Whatever messages come, and whenever, nothing ever waits in the graphs.
pub Reach-IsQuiet : ⦃h : Hasher⦄ {reg : Registry} {s : PendingState} → Reach reg s → IsQuiet s
Reach-IsQuiet start = record {
  transactions = record { queues = tt; dependents = tt };
  calls = record { programs = tt; calls = tt };
}
Reach-IsQuiet {reg = reg} (step now m {s = s} {s' = s'} {casts = casts} r e) =
    after-IsQuiet (answer reg m s) (handle reg now m s) (handle-quiet reg now m s (Reach-IsQuiet r))
      e

-- In every state that the actor can get into by any messages at any times, it answers each message
-- as follows, and nothing waits after it. If the validator is up, a new send, call or deposit is sent
-- to it at once, unless it repeats a deposit that came before; a new transaction of another type,
-- which takes tokens out or registers a program, is sent to nobody. If the executor is up, a new
-- call that is to be run is sent to it at once. If the scheduler is up, an invalid transaction is
-- reported to it. Where the one that is meant is down nothing is sent, and nothing is sent for the
-- other messages, of which `Confirmed` panics.
pub Reach-Answers :
    ⦃h : Hasher⦄ (reg : Registry) (now : ℕ) (m : PendingTransactionMessage) (s : PendingState)
    → Reach reg s
    → Answers (handle reg now m s) (answer reg m s)
Reach-Answers reg now m s r = handle-quiet reg now m s (Reach-IsQuiet r)
