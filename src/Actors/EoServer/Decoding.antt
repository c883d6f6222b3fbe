-- ===== src/Actors/EoServer/Decoding.antt =====
-- The logs that the contract writes, decoded by crates/actors/src/eo_server.rs. The names of their
-- parameters are those of crates/eo_listener/src/eo_contract_abi.rs.
use lasr.Base.{
  ◌≤◌, ◌≡◌, ◌≢◌, refl, sym, ap, ◌∙◌, inl, inr, arith, String, Bool, Option, none, some, List, [],
  ◌∷◌, leb, string_eq, map, All, tally, Bool-cases, Option-cases, true,
}
use lasr.Types.Address.{Address}
use lasr.Types.U256.{U256}
use lasr.Actors.Messages.{Registry}
use lasr.Actors.Engine.{BridgeEvent, EoEvent}
use lasr.Listener.{EventType}
use lasr.Actors.EoServer.{
  Values, LogParam, Log, ◌>>=◌, BridgeEventBuilder, SettlementEventBuilder, no_bridge_event,
  no_settlement_event, build_settlement_event, insert_sorted, sort_by_key, event_id, bridge_params,
  bridge_events, parse_bridge_log, settlement_param, settlement_params, settlement_events,
  parse_settlement_log, handle_log,
}

-- how `ethabi` makes values that convert back
pub record Encoding {V : Type 0} (values : Values V) : Type 0 where
  pub address : Address → V
  pub uint : U256 → V
  pub string : String → V
  pub into_address-address : (a : Address) → values.into_address (address a) ≡ some a
  pub into_uint-uint : (n : U256) → values.into_uint (uint n) ≡ some n
  pub into_string-string : (s : String) → values.into_string (string s) ≡ some s

module _ {V : Type 0} (values : Values V) (e : Encoding values) where
  abbrev param : String → V → LogParam V
  param name value = record { name = name; value = value }

  -- the log of an event, in the order of the contract's parameters
  abbrev pub bridge_log : BridgeEvent → Log V
  bridge_log event =
      param "user" (e.address event.user)
      ∷ param "tokenAddress" (e.address event.program_id)
      ∷ param "amount" (e.uint event.amount)
      ∷ param "tokenId" (e.uint event.token_id)
      ∷ param "tokenType" (e.string event.token_type)
      ∷ param "bridgeEventId" (e.uint event.bridge_event_id)
      ∷ []

  abbrev set : BridgeEvent → BridgeEventBuilder
  set event = record {
    user = some event.user;
    program_id = some event.program_id;
    amount = some event.amount;
    token_id = some event.token_id;
    token_type = some event.token_type;
    bridge_event_id = some event.bridge_event_id;
  }

  bridge_params-bridge_log :
      (event : BridgeEvent) (b : BridgeEventBuilder)
      → bridge_params values (bridge_log event) b ≡ some (set event)
  unfolding bridge_params
  bridge_params-bridge_log event b =
      rw
        (
          e.into_address-address event.user,
          e.into_address-address event.program_id,
          e.into_uint-uint event.amount,
          e.into_uint-uint event.token_id,
          e.into_string-string event.token_type,
          e.into_uint-uint event.bridge_event_id,
        )
        refl

  bridge_events-bridge_log :
      (events : List BridgeEvent) (b : BridgeEventBuilder)
      → bridge_events values (map bridge_log events) b ≡ some events
  unfolding bridge_events
  bridge_events-bridge_log [] b = refl
  bridge_events-bridge_log (event ∷ events) b =
      rw (bridge_params-bridge_log event b, bridge_events-bridge_log events (set event)) refl

  event_id-bridge_log :
      (event : BridgeEvent) → event_id values (bridge_log event) ≡ some event.bridge_event_id
  unfolding event_id
  event_id-bridge_log event = e.into_uint-uint event.bridge_event_id

  abbrev id_of : BridgeEvent → Option U256
  id_of event = some event.bridge_event_id

  insert_sorted-map :
      (event : BridgeEvent) (events : List BridgeEvent)
      → insert_sorted (event_id values) (bridge_log event) (map bridge_log events)
        ≡ map bridge_log (insert_sorted id_of event events)
  unfolding insert_sorted
  insert_sorted-map event [] = refl
  insert_sorted-map event (x ∷ xs) =
      ground (arith, event_id-bridge_log event, event_id-bridge_log x, insert_sorted-map event xs)

  sort-map :
      (events : List BridgeEvent)
      → sort_by_key (event_id values) (map bridge_log events)
        ≡ map bridge_log (sort_by_key id_of events)
  unfolding sort_by_key
  sort-map [] = refl
  sort-map (event ∷ events) =
      ap (insert_sorted (event_id values) (bridge_log event)) (sort-map events)
      ∙ insert_sorted-map event (sort_by_key id_of events)

  -- the events by their ids
  abbrev pub IsSorted : List BridgeEvent → Type 0
  IsSorted [] = Unit
  IsSorted (x ∷ xs) = All (λ y. x.bridge_event_id ≤ y.bridge_event_id) xs × IsSorted xs

  All-insert_sorted :
      (n : U256) (event : BridgeEvent) (events : List BridgeEvent)
      → n ≤ event.bridge_event_id
      → All (λ y. n ≤ y.bridge_event_id) events
      → All (λ y. n ≤ y.bridge_event_id) (insert_sorted id_of event events)
  unfolding insert_sorted
  All-insert_sorted n event [] le all_le = (le, tt)
  All-insert_sorted n event (x ∷ xs) le (le', all_le) =
      elim (Bool-cases (leb event.bridge_event_id x.bridge_event_id)) [
        | inl e ↦ rw e (le, (le', all_le))
        | inr e ↦ rw e (le', All-insert_sorted n event xs le all_le)
      ]

  All-le :
      (m n : U256) (events : List BridgeEvent)
      → m ≤ n
      → All (λ y. n ≤ y.bridge_event_id) events
      → All (λ y. m ≤ y.bridge_event_id) events
  All-le m n [] le all_le = tt
  All-le m n (x ∷ xs) le (le', all_le) = (omega arith, All-le m n xs le all_le)

  insert_sorted-IsSorted :
      (event : BridgeEvent) (events : List BridgeEvent)
      → IsSorted events
      → IsSorted (insert_sorted id_of event events)
  unfolding insert_sorted
  insert_sorted-IsSorted event [] sorted = (tt, tt)
  insert_sorted-IsSorted event (x ∷ xs) (below, sorted) =
      elim (Bool-cases (leb event.bridge_event_id x.bridge_event_id)) [
        | inl e ↦
            let le : event.bridge_event_id ≤ x.bridge_event_id = ground arith in
            rw e ((le, All-le event.bridge_event_id x.bridge_event_id xs le below), (below, sorted))
        | inr e ↦ rw e (
          All-insert_sorted x.bridge_event_id event xs (ground arith) below,
          insert_sorted-IsSorted event xs sorted,
        )
      ]

  sort-IsSorted : (events : List BridgeEvent) → IsSorted (sort_by_key id_of events)
  unfolding sort_by_key
  sort-IsSorted [] = tt
  sort-IsSorted (event ∷ events) =
      insert_sorted-IsSorted event (sort_by_key id_of events) (sort-IsSorted events)

  tally-insert_sorted :
      (q : BridgeEvent → Bool) (event : BridgeEvent) (events : List BridgeEvent)
      → tally q (insert_sorted id_of event events) ≡ tally q (event ∷ events)
  unfolding insert_sorted
  tally-insert_sorted q event [] = refl
  tally-insert_sorted q event (x ∷ xs) = ground (arith, tally-insert_sorted q event xs)

  tally-sort :
      (q : BridgeEvent → Bool) (events : List BridgeEvent)
      → tally q (sort_by_key id_of events) ≡ tally q events
  unfolding sort_by_key
  tally-sort q [] = refl
  tally-sort q (event ∷ events) =
      omega (arith, tally-insert_sorted q event (sort_by_key id_of events), tally-sort q events)

  parse_one :
      (event : BridgeEvent) → parse_bridge_log values (bridge_log event ∷ []) ≡ some (event ∷ [])
  unfolding parse_bridge_log sort_by_key insert_sorted
  parse_one event = bridge_events-bridge_log (event ∷ []) no_bridge_event

  pub handle_one :
      (reg : Registry) (event : BridgeEvent)
      → reg.engine ≡ true
      → handle_log values reg EventType.bridge (bridge_log event ∷ [])
        ≡ some (EoEvent.bridge (event ∷ []))
  unfolding handle_log
  handle_one reg event up = rw (up, parse_one event) refl

  -- The logs that the contract writes for any events, in any order, are parsed, and give the same
  -- events, as many of each kind, in the order of their ids.
  pub parse-bridge_log :
      (events : List BridgeEvent)
      → (found : List BridgeEvent) × (parse_bridge_log values (map bridge_log events) ≡ some found)
        × IsSorted found
        × ((q : BridgeEvent → Bool) → tally q found ≡ tally q events)
  unfolding parse_bridge_log
  parse-bridge_log events =
      let sorted = sort_by_key id_of events in
      (
        sorted,
        rw (sort-map events) (bridge_events-bridge_log sorted no_bridge_event),
        sort-IsSorted events,
        λ q. tally-sort q events,
      )

module _ {V : Type 0} (values : Values V) where
  settlement_param-accounts :
      (p : LogParam V) (b b' : SettlementEventBuilder V)
      → p.name ≢ "user"
      → settlement_param values p b ≡ some b'
      → b'.accounts ≡ b.accounts
  unfolding settlement_param
  settlement_param-accounts p b b' other e = ground (arith, string_eq.beq_iff p.name "user")

  settlement_params-accounts :
      (log : Log V) (b b' : SettlementEventBuilder V)
      → All (λ p. p.name ≢ "user") log
      → settlement_params values log b ≡ some b'
      → b'.accounts ≡ b.accounts
  unfolding settlement_params
  settlement_params-accounts [] b b' _ e = cc
  settlement_params-accounts (p ∷ ps) b b' (other, others) e =
      elim (Option-cases (settlement_param values p b)) [
        | inl e' ↦
            let e₁ : none ≡ some b' = ap (λ o. o >>= settlement_params values ps) (sym e') ∙ e in
            ground arith
        | inr (b₁, e') ↦
            let e₁ : settlement_params values ps b₁ ≡ some b' =
              ap (λ o. o >>= settlement_params values ps) (sym e') ∙ e in
            settlement_params-accounts ps b₁ b' others e₁
            ∙ settlement_param-accounts p b b₁ other e'
      ]

  build_settlement_event-none :
      (b : SettlementEventBuilder V) → b.accounts ≡ none → build_settlement_event b ≡ none
  build_settlement_event-none b e = rw e refl

  -- Whatever logs of settlements arrive, where the first one has no parameter named `user`, as in the
  -- contract's interface, where that parameter is named `accounts`: the parse fails for all of them,
  -- and the engine is sent no event.
  pub settlement_unparsed :
      (log : Log V) (logs : List (Log V))
      → All (λ p. p.name ≢ "user") log
      → (parse_settlement_log values (log ∷ logs) ≡ none)
        × ((reg : Registry) → handle_log values reg EventType.settlement (log ∷ logs) ≡ none)
  unfolding parse_settlement_log settlement_events handle_log
  settlement_unparsed log logs others =
      let failed : parse_settlement_log values (log ∷ logs) ≡ none =
        elim (Option-cases (settlement_params values log no_settlement_event)) [
          | inl e ↦ rw e refl
          | inr (b, e) ↦
              rw
                (
                  e,
                  build_settlement_event-none b
                      (settlement_params-accounts log no_settlement_event b others e),
                )
                refl
        ] in
      (failed, λ reg. ground (arith, failed))
