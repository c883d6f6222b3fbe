-- ===== src/Tests/Listening.antt =====
-- Runs of the listener and of the decoding of logs.
use lasr.Base.{
  ℕ, ◌+◌, ◌^◌, ◌≤◌, ◌<◌, ◌≡◌, ◌≢◌, refl, arith, String, Bool, true, false, Option, none, some, List,
  [], ◌∷◌, leb, ◌==◌, string_eq, retain, map, All, tally,
}
use lasr.Actors.Messages.{Registry}
use lasr.Actors.Engine.{BridgeEvent}
use lasr.Listener.{
  Channel, Contract, highest, parsed, EoServer, EventType, setup_eo_server, save_blocks_processed,
  process_logs,
}
use lasr.Listener.Once.{
  ChainLog, within, answer, IsReady, processed, requests, requests-once, requests-cover,
}
use lasr.Listener.Restart.{restart_loses}
use lasr.Actors.EoServer.{Values, Log, parse_bridge_log, parse_settlement_log, handle_log}
use lasr.Actors.EoServer.Decoding.{
  Encoding, bridge_log, IsSorted, parse-bridge_log, settlement_unparsed,
}

-- every log is a number, and is parsed to it
abbrev test_contract : Contract ℕ ℕ
test_contract = record { parse_log = some; address_parses = true }

test_parses : (d : ℕ) → test_contract.parse_log d ≡ some d
test_parses d = refl

abbrev test_chain : List (ChainLog ℕ)
test_chain =
    record { block = 3; content = 100 }
    ∷ record { block = 5; content = 200 }
    ∷ record { block = 5; content = 300 }
    ∷ record { block = 9; content = 400 }
    ∷ []

-- the blocks up to 3 are processed, and the node told the block 4
abbrev test_channel : Channel
test_channel = record {
  processed_blocks = 3 ∷ [];
  current_filter_block = 4;
  filter = record { from_block = 4; to_block = some 4 };
}

test_channel-IsReady : IsReady test_channel
test_channel-IsReady = record {
  from = refl;
  current_fits = omega arith;
  highest_fits = omega arith;
}

-- the head of the chain and the block number of three requests
abbrev rounds : List (ℕ × ℕ)
rounds = (5, 5) ∷ (6, 8) ∷ (9, 9) ∷ []

rounds_fit : All (λ r. (r.0 + 1 < 2 ^ 64) × (r.1 + 1 < 2 ^ 64)) rounds
rounds_fit =
    ((omega arith, omega arith), ((omega arith, omega arith), ((omega arith, omega arith), tt)))

requests-once_example :
    (logs : List ℕ) × (c' : Channel) × (requests test_contract
        (λ d. d)
        refl
        test_parses
        test_chain
        rounds
        test_channel
      ≡ parsed logs c')
    × (tally (λ n. leb n 250) logs
          + tally (λ log. leb log.content 250) (processed test_channel test_chain)
        ≡ tally (λ log. leb log.content 250) (processed c' test_chain))
    × IsReady c'
requests-once_example =
    requests-once test_contract (λ d. d) refl test_parses test_chain rounds test_channel
      (λ n. leb n 250) test_channel-IsReady rounds_fit

requests-cover_example :
    (logs : List ℕ) × (c' : Channel) × (requests test_contract
        (λ d. d)
        refl
        test_parses
        test_chain
        rounds
        test_channel
      ≡ parsed logs c')
    × All
        (λ log. log.block ≤ 6 → log.block ≤ 9 → log.block ≤ highest c'.processed_blocks)
        test_chain
requests-cover_example =
    requests-cover test_contract (λ d. d) refl test_parses test_chain (5, 5) (6, 8) (9, 9)
      test_channel test_channel-IsReady rounds_fit

-- the server stops with the block 7 current, while the block 3 is the last one processed
abbrev stopped : EoServer
stopped = record {
  bridge = record test_channel { current_filter_block = 7 };
  settlement = test_channel;
}

abbrev overlooked : ChainLog ℕ
overlooked = record { block = 5; content = 200 }

finds :
    retain (within (setup_eo_server (save_blocks_processed stopped)).bridge.filter 9) test_chain
    ≢ []
unfolding setup_eo_server
finds e = ground arith

restart_loses_example :
    let c = (setup_eo_server (save_blocks_processed stopped)).bridge in
    (logs : List ℕ) × (c' : Channel) × (process_logs test_contract
        (some (answer test_chain 9 c.filter))
        (some 9)
        c
      ≡ parsed logs c')
    × (within c.filter 9 overlooked ≡ false)
    × (overlooked.block ≤ highest c'.processed_blocks)
    × ((head' : ℕ) → within c'.filter head' overlooked ≡ false)
restart_loses_example =
    restart_loses test_contract (λ d. d) refl test_parses test_chain stopped overlooked 9 9
      (omega arith, omega arith) (omega arith) (omega arith) (omega arith) (omega arith) finds

-- the values of logs
pub data Value : Type 0 where
  number : ℕ → Value
  text : String → Value

abbrev test_into_number : Value → Option ℕ
test_into_number (number n) = some n
test_into_number (text s) = none

abbrev test_into_text : Value → Option String
test_into_text (number n) = none
test_into_text (text s) = some s

abbrev pub test_values : Values Value
test_values = record {
  into_address = test_into_number;
  into_uint = test_into_number;
  into_string = test_into_text;
  into_fixed_bytes = λ _. some [];
  into_array = λ v. some (v ∷ []);
}

abbrev pub test_encoding : Encoding test_values
test_encoding = record {
  address = number;
  uint = number;
  string = text;
  into_address-address = λ a. refl;
  into_uint-uint = λ n. refl;
  into_string-string = λ s. refl;
}

abbrev pub test_event : ℕ → BridgeEvent
test_event n = record {
  user = 10;
  program_id = 1;
  amount = 30;
  token_id = 0;
  token_type = "ERC20";
  bridge_event_id = n;
}

abbrev two_events : List BridgeEvent
two_events = test_event 6 ∷ test_event 4 ∷ []

parse-bridge_log_example :
    (found : List BridgeEvent) × (parse_bridge_log test_values
        (map (bridge_log test_values test_encoding) two_events)
      ≡ some found)
    × IsSorted test_values test_encoding found
    × ((q : BridgeEvent → Bool) → tally q found ≡ tally q two_events)
parse-bridge_log_example = parse-bridge_log test_values test_encoding two_events

-- the parameters of `BlobIndexSettled`
abbrev settled_log : Log Value
settled_log =
    record { name = "accounts"; value = number 10 }
    ∷ record { name = "batchHeaderHash"; value = text "hash" }
    ∷ record { name = "blobIndex"; value = number 2 }
    ∷ record { name = "blobEventId"; value = number 1 }
    ∷ []

differ : (s t : String) → (s == t) ≡ false → s ≢ t
differ s t h e = ground (arith, string_eq.beq_iff s t)

no_user : All (λ p. p.name ≢ "user") settled_log
no_user = (
  differ "accounts" "user" refl,
  (
    differ "batchHeaderHash" "user" refl,
    (differ "blobIndex" "user" refl, (differ "blobEventId" "user" refl, tt)),
  ),
)

settlement_unparsed_example :
    (parse_settlement_log test_values (settled_log ∷ []) ≡ none)
    × ((reg : Registry) → handle_log test_values reg EventType.settlement (settled_log ∷ []) ≡ none)
settlement_unparsed_example = settlement_unparsed test_values settled_log [] no_user
