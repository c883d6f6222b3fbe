-- ===== src/Actors/EoServer.antt =====
-- `EoServerActor` of crates/actors/src/eo_server.rs: the logs of the contract become events for the
-- engine. The values of a log and their conversions, of the crate `ethabi`, are parameters.
pub mod Decoding
use lasr.Base.{
  ℕ, String, Bool, true, false, Option, none, some, List, [], ◌∷◌, leb, ◌==◌, if◌then◌else◌,
  string_eq,
}
use lasr.Types.Address.{Address}
use lasr.Types.U256.{U256}
use lasr.Actors.Messages.{Registry}
use lasr.Actors.Engine.{BridgeEvent, EoEvent}
use lasr.Listener.{EventType}

pub record Values (V : Type 0) : Type 0 where
  pub into_address : V → Option Address
  pub into_uint : V → Option U256
  pub into_string : V → Option String
  pub into_fixed_bytes : V → Option (List ℕ)
  pub into_array : V → Option (List V)

pub record LogParam (V : Type 0) : Type 0 where
  pub name : String
  pub value : V

abbrev pub Log : Type 0 → Type 0
Log V = List (LogParam V)

pub record SettlementEvent (V : Type 0) : Type 0 where
  pub accounts : List V
  pub batch_header_hash : List ℕ
  pub blob_index : U256
  pub settlement_event_id : U256

-- the builders of the events, with the fields that were set
pub record BridgeEventBuilder : Type 0 where
  pub user : Option Address
  pub program_id : Option Address
  pub amount : Option U256
  pub token_id : Option U256
  pub token_type : Option String
  pub bridge_event_id : Option U256

pub record SettlementEventBuilder (V : Type 0) : Type 0 where
  pub accounts : Option (List V)
  pub batch_header_hash : Option (List ℕ)
  pub blob_index : Option U256
  pub settlement_event_id : Option U256

abbrev pub no_bridge_event : BridgeEventBuilder
no_bridge_event = record {
  user = none;
  program_id = none;
  amount = none;
  token_id = none;
  token_type = none;
  bridge_event_id = none;
}

abbrev pub no_settlement_event : {V : Type 0} → SettlementEventBuilder V
no_settlement_event = record {
  accounts = none;
  batch_header_hash = none;
  blob_index = none;
  settlement_event_id = none;
}

infixl 5 ◌>>=◌
abbrev pub ◌>>=◌ : {A B : Type 0} → Option A → (A → Option B) → Option B
none >>= f = none
some a >>= f = f a

-- `build`, which fails where a field was not set
abbrev pub build_bridge_event : BridgeEventBuilder → Option BridgeEvent
build_bridge_event b = do
  user ← b.user
  program_id ← b.program_id
  amount ← b.amount
  token_id ← b.token_id
  token_type ← b.token_type
  bridge_event_id ← b.bridge_event_id
  some (record {
    user = user;
    program_id = program_id;
    amount = amount;
    token_id = token_id;
    token_type = token_type;
    bridge_event_id = bridge_event_id;
  })

abbrev pub build_settlement_event :
    {V : Type 0} → SettlementEventBuilder V → Option (SettlementEvent V)
build_settlement_event b = do
  accounts ← b.accounts
  batch_header_hash ← b.batch_header_hash
  blob_index ← b.blob_index
  settlement_event_id ← b.settlement_event_id
  some (record {
    accounts = accounts;
    batch_header_hash = batch_header_hash;
    blob_index = blob_index;
    settlement_event_id = settlement_event_id;
  })

-- a field from a value that is converted
abbrev pub filled : {A B : Type 0} → Option A → (A → B) → Option B
filled none f = none
filled (some v) f = some (f v)

-- the order of `Option`: `None` is the least
abbrev pub leb_option : Option U256 → Option U256 → Bool
leb_option none b = true
leb_option (some a) none = false
leb_option (some a) (some b) = leb a b

-- A sort by a key. The source's is unstable: the order of logs with the same key is not defined.
module _ {A : Type 0} (key : A → Option U256) where
  unfoldable pub insert_sorted : A → List A → List A
  insert_sorted a [] = a ∷ []
  insert_sorted a (x ∷ xs) =
      if leb_option (key a) (key x) then a ∷ x ∷ xs else x ∷ insert_sorted a xs

  unfoldable pub sort_by_key : List A → List A
  unfolding insert_sorted
  sort_by_key [] = []
  sort_by_key (x ∷ xs) = insert_sorted x (sort_by_key xs)

module _ {V : Type 0} (values : Values V) where
  -- the value of `bridgeEventId`, as a number
  unfoldable pub event_id : Log V → Option U256
  event_id [] = none
  event_id (p ∷ ps) = if p.name == "bridgeEventId" then values.into_uint p.value else event_id ps

  unfoldable pub bridge_param : LogParam V → BridgeEventBuilder → Option BridgeEventBuilder
  bridge_param p b =
      if p.name == "user"
      then filled (values.into_address p.value) (λ v. record b { user = some v })
      else if p.name == "tokenAddress"
      then filled (values.into_address p.value) (λ v. record b { program_id = some v })
      else if p.name == "amount"
      then filled (values.into_uint p.value) (λ v. record b { amount = some v })
      else if p.name == "tokenId"
      then filled (values.into_uint p.value) (λ v. record b { token_id = some v })
      else if p.name == "tokenType"
      then filled (values.into_string p.value) (λ v. record b { token_type = some v })
      else if p.name == "bridgeEventId"
      then filled (values.into_uint p.value) (λ v. record b { bridge_event_id = some v })
      else some b

  unfoldable pub bridge_params : Log V → BridgeEventBuilder → Option BridgeEventBuilder
  unfolding bridge_param
  bridge_params [] b = some b
  bridge_params (p ∷ ps) b = bridge_param p b >>= bridge_params ps

  -- One builder serves all the logs, so a field that a log lacks is that of the log before.
  unfoldable pub bridge_events : List (Log V) → BridgeEventBuilder → Option (List BridgeEvent)
  unfolding bridge_params
  bridge_events [] b = some []
  bridge_events (log ∷ logs) b = do
    b' ← bridge_params log b
    event ← build_bridge_event b'
    events ← bridge_events logs b'
    some (event ∷ events)

  unfoldable pub parse_bridge_log : List (Log V) → Option (List BridgeEvent)
  unfolding bridge_events sort_by_key event_id
  parse_bridge_log logs = bridge_events (sort_by_key event_id logs) no_bridge_event

  unfoldable pub settlement_param :
      LogParam V → SettlementEventBuilder V → Option (SettlementEventBuilder V)
  settlement_param p b =
      if p.name == "user"
      then filled (values.into_array p.value) (λ v. record b { accounts = some v })
      else if p.name == "batchHeaderHash"
      then filled (values.into_fixed_bytes p.value) (λ v. record b { batch_header_hash = some v })
      else if p.name == "blobIndex"
      then filled (values.into_uint p.value) (λ v. record b { blob_index = some v })
      else if p.name == "blobEventId"
      then filled (values.into_uint p.value) (λ v. record b { settlement_event_id = some v })
      else some b

  unfoldable pub settlement_params :
      Log V → SettlementEventBuilder V → Option (SettlementEventBuilder V)
  unfolding settlement_param
  settlement_params [] b = some b
  settlement_params (p ∷ ps) b = settlement_param p b >>= settlement_params ps

  unfoldable pub settlement_events :
      List (Log V) → SettlementEventBuilder V → Option (List (SettlementEvent V))
  unfolding settlement_params
  settlement_events [] b = some []
  settlement_events (log ∷ logs) b = do
    b' ← settlement_params log b
    event ← build_settlement_event b'
    events ← settlement_events logs b'
    some (event ∷ events)

  unfoldable pub parse_settlement_log : List (Log V) → Option (List (SettlementEvent V))
  unfolding settlement_events
  parse_settlement_log logs = settlement_events logs no_settlement_event

  -- `handle_log` with `handle_eo_event`: the event that the engine gets; the errors go to the log
  abbrev found_bridge : Option (List BridgeEvent) → Option EoEvent
  found_bridge none = none
  found_bridge (some events) = some (EoEvent.bridge events)

  abbrev found_settlement : Option (List (SettlementEvent V)) → Option EoEvent
  found_settlement none = none
  found_settlement (some _) = some EoEvent.settlement

  unfoldable pub handle_log : Registry → EventType → List (Log V) → Option EoEvent
  unfolding parse_bridge_log parse_settlement_log
  handle_log reg EventType.bridge logs =
      if reg.engine then found_bridge (parse_bridge_log logs) else none
  handle_log reg EventType.settlement logs =
      if reg.engine then found_settlement (parse_settlement_log logs) else none
