-- ===== src/Listener.antt =====
-- `EoServer` of crates/eo_listener/src/lib.rs: it asks a node for the logs of the contract, block
-- after block. The channel of the bridge and that of the settlements have the same fields and the
-- same methods, and are one type here. A block number has 64 bits, and a sum that does not fit
-- panics.
pub mod Once
pub mod Restart
use lasr.Base.{
  ℕ, ◌+◌, ◌^◌, Bool, true, false, not, ◌&&◌, Option, none, some, List, [], ◌∷◌, ◌++◌, ltb, leb,
  is_empty, if◌then◌else◌,
}

-- the blocks of a filter; `none` is `BlockNumber::Latest`
pub record Filter : Type 0 where
  pub from_block : ℕ
  pub to_block : Option ℕ

-- the processed blocks, the current block and the filter, of the bridge or of the settlements
pub record Channel : Type 0 where
  pub processed_blocks : List ℕ
  pub current_filter_block : ℕ
  pub filter : Filter

pub record RawLog (D : Type 0) : Type 0 where
  pub block_number : Option ℕ
  pub content : D

-- What is not of this code: the parsing of a log by the event of the contract, and whether the
-- address of the contract can be parsed.
pub record Contract (D L : Type 0) : Type 0 where
  pub parse_log : D → Option L
  pub address_parses : Bool

-- `BTreeSet::last`, or zero
abbrev pub max : ℕ → ℕ → ℕ
max a b = if leb a b then b else a

abbrev pub highest : List ℕ → ℕ
highest [] = 0
highest (b ∷ blocks) = max b (highest blocks)

-- `U64` addition of one
abbrev pub next_block : ℕ → Option ℕ
next_block b = if ltb (b + 1) (2 ^ 64) then some (b + 1) else none

-- what the processing of logs ends in: the parsed logs, an error, or a panic
pub data Processed (L : Type 0) : Type 0 where
  parsed : List L → Channel → Processed L
  failed : Channel → Processed L
  panicked : Processed L

abbrev pub with_filter : ℕ → Option ℕ → Option ℕ → Channel → Option Channel
with_filter block_number none to c = none
with_filter block_number (some from) none c = none
with_filter block_number (some from) (some to) c = some (record c {
  current_filter_block = block_number;
  filter = record { from_block = from; to_block = some to };
})

module _ {D L : Type 0} (contract : Contract D L) where
  -- `increment_bridge_filter` and `increment_blob_filter`; the callers drop the error of the address
  unfoldable pub increment_filter : ℕ → Channel → Option Channel
  increment_filter block_number c =
      if contract.address_parses
      then with_filter block_number (next_block (highest c.processed_blocks))
          (next_block c.current_filter_block) c
      else some c

  -- The loop of `handle_bridge_event` and `handle_settlement_event`: the parsed logs with their
  -- blocks, or the first error.
  abbrev push_log : Option L → Option ℕ → Option (List L × List ℕ) → Option (List L × List ℕ)
  push_log (some log) (some block) (some (logs, blocks)) = some (log ∷ logs, block ∷ blocks)
  push_log _ _ _ = none

  unfoldable pub collect : List (RawLog D) → Option (List L × List ℕ)
  collect [] = some ([], [])
  collect (event ∷ events) =
      push_log (contract.parse_log event.content) event.block_number (collect events)

  abbrev incremented : List L → Option Channel → Processed L
  incremented logs none = panicked
  incremented logs (some c) = parsed logs c

  -- The new filter is made where logs were found and where none were. An error of the node on the
  -- logs counts as no logs, and one on the block number as an error.
  unfoldable pub process_logs : Option (List (RawLog D)) → Option ℕ → Channel → Processed L
  unfolding increment_filter collect
  process_logs logs none c = failed c
  process_logs logs (some block_number) c =
      let events : List (RawLog D) = elim logs [ some l ↦ l | none ↦ [] ] in
      elim (collect events) [
        | none ↦ failed c
        | some (found, blocks) ↦ incremented found (
            increment_filter block_number
              (record c { processed_blocks = c.processed_blocks ++ blocks }))
      ]

pub record EoServer : Type 0 where
  pub bridge : Channel
  pub settlement : Channel

pub data EventType : Type 0 where
  bridge settlement : EventType

-- `next`: which of the two requests is answered first is not determined. `log_result` is `none` for
-- an error.
pub data EventLogResult (L : Type 0) : Type 0 where
  event_log : EventType → Option (List L) → EoServer → EventLogResult L
  overflow : EventLogResult L

abbrev logged : {L : Type 0} → EventType → (Channel → EoServer) → Processed L → EventLogResult L
logged t put (parsed logs c) = event_log t (some logs) (put c)
logged t put (failed c) = event_log t none (put c)
logged t put panicked = overflow

unfoldable pub next :
    {D L : Type 0}
    → (EventType → Contract D L)
    → EventType
    → Option (List (RawLog D))
    → Option ℕ
    → EoServer
    → EventLogResult L
unfolding process_logs
next contracts EventType.bridge logs block_number server =
    logged EventType.bridge (λ c. record server { bridge = c })
      (process_logs (contracts EventType.bridge) logs block_number server.bridge)
next contracts EventType.settlement logs block_number server =
    logged EventType.settlement (λ c. record server { settlement = c })
      (process_logs (contracts EventType.settlement) logs block_number server.settlement)

-- what `save_blocks_processed` writes
pub record BlocksProcessed : Type 0 where
  pub bridge : Option ℕ
  pub settle : Option ℕ
  pub bridge_processed : List ℕ
  pub settled_processed : List ℕ

abbrev pub save_blocks_processed : EoServer → BlocksProcessed
save_blocks_processed server = record {
  bridge = some server.bridge.current_filter_block;
  settle = some server.settlement.current_filter_block;
  bridge_processed = server.bridge.processed_blocks;
  settled_processed = server.settlement.processed_blocks;
}

-- `load_processed_blocks`
abbrev or_kept : Option ℕ → ℕ → ℕ
or_kept (some b) current = b
or_kept none current = current

unfoldable pub load_processed_blocks : BlocksProcessed → EoServer → EoServer
load_processed_blocks saved server = record {
  bridge = record server.bridge {
    processed_blocks = saved.bridge_processed;
    current_filter_block = or_kept saved.bridge server.bridge.current_filter_block;
  };
  settlement = record server.settlement {
    processed_blocks = saved.settled_processed;
    current_filter_block = or_kept saved.settle server.settlement.current_filter_block;
  };
}

-- the channels that `setup_eo_server` of crates/node/src/main.rs starts with
abbrev or_zero : Option ℕ → ℕ
or_zero (some b) = b
or_zero none = 0

abbrev started_channel : Option ℕ → List ℕ → Channel
started_channel from processed = record {
  processed_blocks = processed;
  current_filter_block = or_zero from;
  filter = record { from_block = or_zero from; to_block = none };
}

unfoldable pub setup_eo_server : BlocksProcessed → EoServer
setup_eo_server saved = record {
  bridge = started_channel saved.bridge saved.bridge_processed;
  settlement = started_channel saved.settle saved.settled_processed;
}

-- `EoServerWrapper` of crates/actors/src/eo_server.rs: the server, the file of processed blocks, and
-- the logs that the actor gets
pub record Wrapper (L : Type 0) : Type 0 where
  pub server : EoServer
  pub saved : Option BlocksProcessed
  pub logs : List (EventType × List L)

-- one round of the inner loop of `run`; a request that takes too long changes nothing
unfoldable pub run_once : {L : Type 0} → Option (EventLogResult L) → Wrapper L → Option (Wrapper L)
run_once none w = some w
run_once (some overflow) w = none
run_once (some (event_log t none server)) w = some (record w { server = server })
run_once (some (event_log t (some logs) server)) w = some (
    if is_empty logs then record w { server = server } else record w {
      server = server;
      saved = some (save_blocks_processed server);
      logs = w.logs ++ (t, logs) ∷ [];
    })
