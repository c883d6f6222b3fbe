-- ===== src/Actors/Engine/Deposits.antt =====
-- What becomes of the events of the bridge: `handle_bridge_event` of crates/actors/src/engine.rs with
-- the handling of `New` in crates/actors/src/pending_transactions.rs.
use lasr.Base.{
  ℕ, ◌≡◌, refl, subst, sym, ap, ◌∙◌, inl, inr, arith, true, none, List, [], ◌∷◌, ◌++◌, map,
  if◌then◌else◌, contains, contains-append, Bool-cases, All, append-nil, append_assoc,
}
use lasr.Types.Transaction.{Transaction, is_bridge_in}
use lasr.Types.Transaction.Equality.{transaction_eq}
use lasr.Actors.Messages.{Hasher, Registry, Cast, pending_new, validator_pending_transaction}
use lasr.Actors.Pending.{schedule_with_validator}
use lasr.Actors.PendingActor.{
  PendingState, Handled, handled, blocked, panicked, handle, handle_new, new,
}
use lasr.Actors.PendingActor.Runs.{IsQuiet, handle_new-quiet}
use lasr.Actors.Engine.{BridgeEvent, bridged, handle_bridge_event}

-- what follows a message that is handled, with what both send
abbrev and_then : {S : Type 0} → Handled S → (S → Handled S) → Handled S
and_then (handled s casts) f = elim (f s) [
  | handled s' casts' ↦ handled s' (casts ++ casts')
  | blocked ↦ blocked
  | panicked ↦ panicked
]
and_then blocked f = blocked
and_then panicked f = panicked

-- the transactions that were not seen before, each once
abbrev pub fresh : List Transaction → List Transaction → List Transaction
fresh seen [] = []
fresh seen (tx ∷ txs) =
    if contains seen tx then fresh seen txs else tx ∷ fresh (seen ++ tx ∷ []) txs

fresh-nil :
    (seen txs : List Transaction) → All (λ tx. contains seen tx ≡ true) txs → fresh seen txs ≡ []
fresh-nil seen [] _ = refl
fresh-nil seen (tx ∷ txs) (e, es) = ground (arith, fresh-nil seen txs es)

fresh-covers :
    (seen txs : List Transaction) → All (λ tx. contains (seen ++ fresh seen txs) tx ≡ true) txs
fresh-covers seen [] = tt
fresh-covers seen (tx ∷ txs) =
    let Covers = λ (l : List Transaction). All (λ x. contains l x ≡ true) (tx ∷ txs) in
    elim (Bool-cases (contains seen tx)) [
      | inl old ↦
          let rest = fresh seen txs in
          let same : seen ++ rest ≡ seen ++ fresh seen (tx ∷ txs) = rw old refl in
          subst Covers same (ground (arith, contains-append seen rest tx), fresh-covers seen txs)
      | inr first ↦
          let more = seen ++ tx ∷ [] in
          let rest = fresh more txs in
          let same : more ++ rest ≡ seen ++ fresh seen (tx ∷ txs) =
            rw first (append_assoc seen (tx ∷ []) rest) in
          subst Covers same (
            ground (
              arith,
              contains-append more rest tx,
              contains-append seen (tx ∷ []) tx,
              transaction_eq.beq_iff tx tx,
            ),
            fresh-covers more txs,
          )
    ]

module _ ⦃h : Hasher⦄ (reg : Registry) (now : ℕ) where
  -- the messages to the pending transaction actor, handled in their order
  unfoldable pub deliver_all : List Cast → PendingState → Handled PendingState
  deliver_all [] s = handled s []
  deliver_all (pending_new tx outputs ∷ casts) s =
      and_then (handle reg now (new tx outputs) s) (deliver_all casts)
  deliver_all (_ ∷ casts) s = deliver_all casts s

  bridges_after :
      (tx : Transaction) (s s' : PendingState) (casts : List Cast)
      → is_bridge_in tx.transaction_type ≡ true
      → handle_new reg now tx none s ≡ handled s' casts
      → s'.bridge_in_transactions ≡ (
          if contains s.bridge_in_transactions tx
          then s.bridge_in_transactions
          else s.bridge_in_transactions ++ tx ∷ [])
  bridges_after tx s s' casts b e = ground arith

  -- one deposit: sent to the validator unless it was seen
  deposit_lem :
      (event : BridgeEvent) (s : PendingState)
      → reg.validator ≡ true
      → IsQuiet s
      → let tx = bridged event in
        let seen = s.bridge_in_transactions in
        (s' : PendingState) × (handle reg now (new tx none) s
          ≡ handled s' (if contains seen tx then [] else validator_pending_transaction tx ∷ []))
        × (s'.bridge_in_transactions ≡ (if contains seen tx then seen else seen ++ tx ∷ []))
        × IsQuiet s'
  unfolding handle schedule_with_validator
  deposit_lem event s up quiet =
      let tx = bridged event in
      let (s', e, quiet') = handle_new-quiet reg now tx none s quiet in
      (s', e ∙ ground arith, bridges_after tx s s' _ refl e, quiet')

  deliver_all-deposits :
      (events : List BridgeEvent) (s : PendingState)
      → reg.validator ≡ true
      → reg.pending_transactions ≡ true
      → IsQuiet s
      → let seen = s.bridge_in_transactions in
        let first = fresh seen (map bridged events) in
        (s' : PendingState) × (deliver_all (handle_bridge_event reg events) s
          ≡ handled s' (map validator_pending_transaction first))
        × (s'.bridge_in_transactions ≡ seen ++ first)
        × IsQuiet s'
  unfolding deliver_all handle_bridge_event
  deliver_all-deposits [] s up pending quiet =
      (s, refl, sym (append-nil s.bridge_in_transactions), quiet)
  deliver_all-deposits (event ∷ events) s up pending quiet =
      let tx = bridged event in
      let (s₁, e₁, b₁, quiet₁) = deposit_lem event s up quiet in
      let (s₂, e₂, b₂, quiet₂) = deliver_all-deposits events s₁ up pending quiet₁ in
      (
        s₂,
        ground (arith, e₁, e₂, b₁),
        ground (
          arith,
          b₁,
          b₂,
          append_assoc s.bridge_in_transactions (tx ∷ [])
              (fresh (s.bridge_in_transactions ++ tx ∷ []) (map bridged events)),
        ),
        quiet₂,
      )

  -- If nothing waits in the pending transaction actor, and the validator is up too: the messages for
  -- the events of the bridge are handled to the end, and the validator gets, in order, the deposits
  -- that were not seen before, each once. If the same events come again, it gets nothing.
  pub deposits_once :
      (events : List BridgeEvent) (s : PendingState)
      → reg.validator ≡ true
      → reg.pending_transactions ≡ true
      → IsQuiet s
      → let casts = handle_bridge_event reg events in
        let first = fresh s.bridge_in_transactions (map bridged events) in
        (s' : PendingState) × (deliver_all casts s
          ≡ handled s' (map validator_pending_transaction first))
        × (s'' : PendingState) × (deliver_all casts s' ≡ handled s'' [])
  deposits_once events s up pending quiet =
      let txs = map bridged events in
      let seen = s.bridge_in_transactions in
      let (s₁, e₁, b₁, quiet₁) = deliver_all-deposits events s up pending quiet in
      let (s₂, e₂, _, _) = deliver_all-deposits events s₁ up pending quiet₁ in
      let nothing : fresh s₁.bridge_in_transactions txs ≡ [] =
        rw b₁ (fresh-nil (seen ++ fresh seen txs) txs (fresh-covers seen txs)) in
      (s₁, e₁, s₂, e₂ ∙ ap (λ l. handled s₂ (map validator_pending_transaction l)) nothing)
