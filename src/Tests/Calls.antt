-- ===== src/Tests/Calls.antt =====
-- A client's call of a program, from the request to the batches.
use lasr.Base.{◌≡◌, refl, arith, none, some, [], ◌∷◌, nat_eq, string_eq}
use lasr.Base.Int.{pos}
use lasr.Base.Map
use lasr.Types.Account.{Account, AccountType, program, AddressOrNamespace}
use lasr.Types.Instruction.{Instruction, TransferInstruction, Outputs}
use lasr.Types.Transaction.{Transaction, call}
use lasr.Actors.Executor.{Key, key_eq}
use lasr.Actors.Scheduler
use lasr.Actors.Scheduler.{response, async_call_response}
use lasr.Actors.PendingActor.Runs.{IsQuiet}
use lasr.Actors.Batch.{insert_account, insert_transaction}
use lasr.Actors.Batcher.{placed}
use lasr.Actors.Batcher.Tasks.{place_all, write_all}
use lasr.Actors.Batcher.Calls.{apply_instructions}
use lasr.Actors.Batcher.Calls.Success.{Applies, applied}
use lasr.Actors.Executor
use lasr.Actors.System.{System, Node, drain, world_of, to_scheduler, to_executor}
use lasr.Actors.System.CallPath.{Starts}
use lasr.Actors.System.CallPath.Settles.{Passes, call_answered}
use lasr.Tests.Network.{test_node, test_system, path_up, new_state-IsQuiet}
use lasr.Tests.Validation.{test_signatures}
use lasr.Tests.{test_uint, test_hasher, test_encoder, test_env, test_account, alice, bob, payment}

-- the account of program 30, which account 10 calls
abbrev shop : Account
shop = test_account (program 30) 99 []

abbrev order : Transaction
order = record payment { transaction_type = call 5; to = 30; program_id = 30; op = "order" }

-- the program has 20 tokens sent from the caller to account 20
abbrev price : TransferInstruction
price = record {
  token = 1;
  from = AddressOrNamespace.address 10;
  to = AddressOrNamespace.address 20;
  amount = some 20;
  ids = [];
}

abbrev ordered : Outputs
ordered = record {
  inputs = record {
    version = pos 1;
    account_info = shop;
    transaction = order;
    op = "order";
    inputs = "";
  };
  instructions = Instruction.transfer price ∷ [];
}

abbrev shop_node : Node
shop_node = record test_node { parser = record { parse = λ _. some ordered } }

abbrev shop_system : System
shop_system = record test_system { cached = (10, alice) ∷ (20, bob) ∷ (30, shop) ∷ [] }

order-Starts : Starts shop_node order shop_system
unfolding Map.get
order-Starts = record {
  program = shop;
  target = shop;
  job = 7;
  found_program = refl;
  found_target = refl;
  runs = refl;
}

order-Passes : Passes shop_node order shop_system ordered
unfolding Map.get lasr.Types.Account.Validate.validate_nonce
    lasr.Actors.Validator.Instructions.validate_transfer
    lasr.Types.Account.Validate.validate_balance lasr.Actors.Validator.gather
order-Passes = record {
  caller = alice;
  signed = refl;
  found = refl;
  nonce = refl;
  checked = (refl, tt);
}

order-Applies : Applies test_env order ordered (world_of shop_system)
unfolding Map.get Map.insert placed insert_account insert_transaction apply_instructions place_all
    write_all lasr.Types.Account.Apply.apply_transfer_from_instruction
    lasr.Types.Account.Apply.apply_transfer_to_instruction lasr.Types.Account.on_program
    lasr.Types.Account.Apply.take_away lasr.Types.Token.debit lasr.Types.Token.credit
    lasr.Types.Account.Apply.give
order-Applies = record {
  program = shop;
  buffer = _;
  after_program = _;
  after_buffer = _;
  after_transaction = _;
  sender = _;
  found = refl;
  next_nonce = omega arith;
  room = refl;
  runs = refl;
  buffer_room = refl;
  transaction_room = refl;
  found_sender = refl;
}

call_answered_example :
    let w' = applied test_env order ordered (world_of shop_system) order-Applies in
    let k : Key = (30, "order") in
    (s₁ : System) × (s₂ : System) × (drain shop_node 6
        (to_scheduler (Scheduler.call order 3) ∷ [])
        shop_system
      ≡ some s₁)
    × (s₁.replies ≡ (3, response (async_call_response "order")) ∷ [])
    × (s₁.cached ≡ shop_system.cached)
    × (s₁.batcher ≡ shop_system.batcher)
    × (drain shop_node 8 (to_executor (Executor.results (some order) 30 (some "order")) ∷ []) s₁
        ≡ some s₂)
    × (s₂.replies ≡ s₁.replies)
    × (s₂.cached ≡ w'.cached)
    × (s₂.batcher ≡ w'.batcher)
    × (Map.get k s₂.handles ≡ none)
    × IsQuiet s₂.pending
call_answered_example =
    call_answered shop_node order path_up refl 5 refl shop_system 3 order-Starts "outputs" ordered
      order-Applies new_state-IsQuiet refl refl order-Passes
