-- ===== src/Tests/Network.antt =====
-- The theorems on the engine, the executor and all the actors together, at concrete inputs.
use lasr.Base.{
  ◌+◌, ◌≤◌, ◌≡◌, refl, inl, String, true, none, some, List, [], ◌∷◌, map, nat_eq, string_eq,
}
use lasr.Base.Map
use lasr.Base.Map.{Map}
use lasr.Base.Result.{ok}
use lasr.Types.Account.Validate.{validate_nonce}
use lasr.Types.Address.{Address}
use lasr.Types.Token.{Token}
use lasr.Types.Transaction.{Transaction, call}
use lasr.Actors.Messages.{validator_pending_transaction}
use lasr.Actors.Scheduler
use lasr.Actors.Scheduler.{response, send_response, transaction_error}
use lasr.Actors.PendingActor.{PendingState, new_state, handled}
use lasr.Actors.PendingActor.Runs.{IsQuiet}
use lasr.Actors.Engine.{BridgeEvent, bridged, handle_bridge_event, OutputsParser}
use lasr.Actors.Engine.Deposits.{fresh, deliver_all, deposits_once}
use lasr.Actors.Executor.{Runtime, ExecutorMessage, exec, results, finished, handle}
use lasr.Actors.Batcher.{new_batcher}
use lasr.Actors.Batcher.Calls.{Contract}
use lasr.Actors.Batcher.Sends.Conserves.{balance_at, nonce_at}
use lasr.Actors.System.{
  System, Node, Message, drain, world_of, found_account, to_scheduler, to_engine,
}
use lasr.Actors.Engine
use lasr.Actors.System.SendPath.{PathUp, send_answered}
use lasr.Actors.System.Refusal.{IsRefused, send_refused}
use lasr.Actors.System.Steps.{Net, Steps, here, next, delivered, asked, owed, Steps-owed}
use lasr.Tests.Sends.{can_send, has_room, bob-CanReceive}
use lasr.Tests.Validation.{test_signatures}
use lasr.Tests.{
  test_uint, test_hasher, test_encoder, test_registry, test_env, alice, bob, payment, test_world,
}

pub new_state-IsQuiet : IsQuiet new_state
new_state-IsQuiet = record {
  transactions = record { queues = tt; dependents = tt };
  calls = record { programs = tt; calls = tt };
}

abbrev deposit : BridgeEvent
deposit = record {
  user = 10;
  program_id = 1;
  amount = 25;
  token_id = 0;
  token_type = "ERC20";
  bridge_event_id = 3;
}

-- the second event is the first once more
abbrev deposits : List BridgeEvent
deposits = deposit ∷ deposit ∷ record deposit { bridge_event_id = 4 } ∷ []

deposits_once_example :
    let casts = handle_bridge_event test_registry deposits in
    let first = fresh [] (map bridged deposits) in
    (s' : PendingState) × (deliver_all test_registry 0 casts new_state
      ≡ handled s' (map validator_pending_transaction first))
    × (s'' : PendingState) × (deliver_all test_registry 0 casts s' ≡ handled s'' [])
deposits_once_example = deposits_once test_registry 0 deposits new_state refl refl new_state-IsQuiet

-- containers with the number 7, which all give the same output
abbrev test_runtime : Runtime
test_runtime = record {
  is_pinned = λ _. true;
  pin_object = λ _. true;
  bundle = λ _. true;
  run_container = λ _ _ _ _ _. some 7;
  join = λ _. finished "outputs";
  get_account = λ _. some alice;
}

abbrev test_contract : Contract
test_contract = record { content_id = λ _. none; create_program_id = λ _ _. none }

abbrev test_text : Address → String
test_text _ = "address"

-- a call, and another one meanwhile
abbrev asking : Transaction
asking = record payment { transaction_type = call 5; op = "ask" }

abbrev meanwhile : List ExecutorMessage
meanwhile = exec (record asking { op = "other" }) ∷ results none 1 none ∷ []

abbrev pub test_node : Node
test_node = record {
  env = test_env;
  contract = test_contract;
  parser = record { parse = λ _. none };
  runtime = test_runtime;
  text = test_text;
  now = 0;
}

abbrev pub test_system : System
test_system = record {
  ports = [];
  pending = new_state;
  cached = (10, alice) ∷ (20, bob) ∷ [];
  batcher = new_batcher;
  handles = [];
  replies = [];
}

pub path_up : PathUp test_registry
path_up = record {
  engine = refl;
  pending_transactions = refl;
  validator = refl;
  batcher = refl;
  scheduler = refl;
  account_cache = refl;
}

payment_nonce : validate_nonce 5 alice ≡ ok tt
unfolding validate_nonce
payment_nonce = refl

send_answered_example :
    (s' : System) × (drain test_node 7 (to_scheduler (Scheduler.send payment 3) ∷ []) test_system
      ≡ some s')
    × ((t : Token) × (s'.replies ≡ (3, response (send_response t)) ∷ []))
    × (Map.get "payment" s'.ports ≡ none)
    × (balance_at test_env (world_of s') 1 10 + 30 ≡ balance_at test_env test_world 1 10)
    × (balance_at test_env (world_of s') 1 20 ≡ balance_at test_env test_world 1 20 + 30)
    × (nonce_at test_env (world_of s') 10 ≡ nonce_at test_env test_world 10 + 1)
    × IsQuiet s'.pending
send_answered_example =
    send_answered test_node payment 5 refl path_up test_system alice bob 3 new_state-IsQuiet
      can_send bob-CanReceive has_room refl payment_nonce

-- a payment of nobody
abbrev forged : Transaction
forged = record payment { from = 30 }

forged-IsRefused : IsRefused test_node forged test_system
unfolding Map.get
forged-IsRefused = inl refl

send_refused_example :
    (s' : System) × (drain test_node 6 (to_scheduler (Scheduler.send forged 3) ∷ []) test_system
      ≡ some s')
    × (s'.replies ≡ (3, response transaction_error) ∷ [])
    × (s'.cached ≡ test_system.cached)
    × (s'.batcher ≡ test_system.batcher)
send_refused_example =
    send_refused test_node forged 5 refl path_up test_system 3 new_state-IsQuiet forged-IsRefused

-- the client's request is delivered, and what it leads to is on its way
abbrev requested : Net
requested = record { flight = to_scheduler (Scheduler.send payment 3) ∷ []; system = test_system }

abbrev forwarded_net : Net
forwarded_net = record {
  flight = to_engine (Engine.send payment) ∷ [];
  system = record test_system { ports = ("payment", 3) ∷ [] };
}

request_step : Steps test_node requested forwarded_net
unfolding lasr.Actors.System.deliver Scheduler.handle Map.insert
request_step = next here (delivered [] [] (to_scheduler (Scheduler.send payment 3)) _ _ refl refl)

Steps-owed_example :
    asked 3 forwarded_net.flight + owed 3 forwarded_net.system
    ≤ asked 3 requested.flight + owed 3 requested.system
Steps-owed_example = Steps-owed 3 test_node request_step
