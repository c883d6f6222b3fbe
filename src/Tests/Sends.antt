-- ===== src/Tests/Sends.antt =====
-- The batcher's theorems at a concrete send, transfer and call.
use lasr.Base.{◌+◌, ◌≡◌, refl, inl, inr, arith, some, [], ◌∷◌, nat_eq, string_eq}
use lasr.Base.Map
use lasr.Base.Map.{Map}
use lasr.Base.Result.{ok, err}
use lasr.Types.Account.{Account, AccountType, user, program, balance, AddressOrNamespace}
use lasr.Types.Account.Send.{apply_send_transaction}
use lasr.Types.Account.Send.Laws.{IsKeyed}
use lasr.Types.Account.Send.Transfer.{CanPay, CanReceive}
use lasr.Types.Instruction.{Instruction, TransferInstruction, Outputs}
use lasr.Types.Token.{Token}
use lasr.Types.Transaction.{Transaction}
use lasr.Actors.Batch.{insert_account, insert_transaction}
use lasr.Actors.Batcher.{Batcher, placed}
use lasr.Actors.Batcher.World.{World, ended, find_account}
use lasr.Actors.Batcher.Tasks.{place_all}
use lasr.Actors.Batcher.Sends.{add_transaction_to_account}
use lasr.Actors.Batcher.Sends.Moves.{bumped}
use lasr.Actors.Batcher.Sends.Conserves.{
  CanSend, HasRoom, balance_at, nonce_at, send_moves, send_loses,
}
use lasr.Base.Int.{pos}
use lasr.Types.Error.{exceeds_balance}
use lasr.Types.Account.Apply.Transfers.{Covers}
use lasr.Actors.Batch.{new_batch}
use lasr.Actors.Batcher.{new_batcher}
use lasr.Actors.Batcher.World.{types_error}
use lasr.Actors.Batcher.Instructions.{Buffer}
use lasr.Actors.Batcher.Instructions.Reading.{IsReading}
use lasr.Actors.Batcher.Calls.{
  apply_instruction, apply_instructions, apply_instructions_to_accounts,
}
use lasr.Actors.Batcher.Calls.Transfers.{
  CanTransfer, balance_seen, transfer_conserves_seen, transfer_to_self,
}
use lasr.Actors.Batcher.Calls.Failures.{apply_instructions-IsReading, called, failed_call}
use lasr.Tests.Accounts.{alice-IsKeyed, bob-IsKeyed}
use lasr.Tests.{
  test_uint, test_hasher, test_encoder, test_env, test_token, test_account, alice, bob, payment,
  test_world,
}

alice-CanPay : CanPay payment alice
unfolding Map.get
alice-CanPay = (test_token 1 10 50 (7 ∷ 8 ∷ []), refl, refl, omega arith)

pub bob-CanReceive : CanReceive payment bob
unfolding Map.get
bob-CanReceive = inl (test_token 1 20 5 [], refl, refl, omega arith)

pub can_send : CanSend test_env payment test_world alice bob
unfolding Map.get
can_send = record {
  sender = refl;
  recipient = refl;
  sender_address = refl;
  recipient_address = refl;
  sender_keyed = alice-IsKeyed;
  recipient_keyed = bob-IsKeyed;
  no_deposit = refl;
  distinct = omega arith;
  pays = alice-CanPay;
  next_nonce = omega arith;
  known = inr refl;
}

pub has_room : HasRoom test_env payment test_world alice bob
unfolding place_all placed insert_account insert_transaction Map.insert apply_send_transaction
    Map.get lasr.Types.Transaction.try_from
has_room = (_, _, refl, refl)

send_moves_example :
    (w' : World) × (add_transaction_to_account test_env payment test_world ≡ ended (ok tt) w')
    × (balance_at test_env w' 1 10 + 30 ≡ balance_at test_env test_world 1 10)
    × (balance_at test_env w' 1 20 ≡ balance_at test_env test_world 1 20 + 30)
    × (nonce_at test_env w' 10 ≡ nonce_at test_env test_world 10 + 1)
send_moves_example =
    send_moves test_env payment test_world alice bob can_send bob-CanReceive (refl, refl, refl)
      has_room

-- a program's account whose token has the program's owner as its owner
abbrev shop : Account
shop = test_account (program 30) 99 ((1, test_token 1 99 5 []) ∷ [])

abbrev order : Transaction
order = record payment { to = 30 }

abbrev shop_world : World
shop_world = record test_world { cached = (10, alice) ∷ (30, shop) ∷ [] }

shop-IsKeyed : IsKeyed shop
unfolding Map.get
shop-IsKeyed k t e = ground arith

can_order : CanSend test_env order shop_world alice shop
unfolding Map.get
can_order = record {
  sender = refl;
  recipient = refl;
  sender_address = refl;
  recipient_address = refl;
  sender_keyed = alice-IsKeyed;
  recipient_keyed = shop-IsKeyed;
  no_deposit = refl;
  distinct = omega arith;
  pays = (test_token 1 10 50 (7 ∷ 8 ∷ []), refl, refl, omega arith);
  next_nonce = omega arith;
  known = inr refl;
}

order_room : HasRoom test_env order shop_world alice shop
unfolding place_all placed insert_account insert_transaction Map.insert apply_send_transaction
    Map.get lasr.Types.Transaction.try_from
order_room = (_, _, refl, refl)

shop_token : Map.get 1 shop.programs ≡ some (test_token 1 99 5 [])
unfolding Map.get
shop_token = refl

send_loses_example :
    (w' : World) × (add_transaction_to_account test_env order shop_world ≡ ended (ok tt) w')
    × (balance_at test_env w' 1 10 + 30 ≡ balance_at test_env shop_world 1 10)
    × (balance_at test_env w' 1 30 ≡ balance_at test_env shop_world 1 30)
send_loses_example =
    send_loses test_env order shop_world alice shop (test_token 1 99 5 []) can_order shop_token
      (omega arith) (omega arith) (refl, refl, refl) order_room

-- a transfer of 20 and the id 7 from account 10 to account 20, and to account 10 itself
abbrev gift : AddressOrNamespace → TransferInstruction
gift to = record {
  token = 1;
  from = AddressOrNamespace.address 10;
  to = to;
  amount = some 20;
  ids = 7 ∷ [];
}

abbrev to_bob : TransferInstruction
to_bob = gift (AddressOrNamespace.address 20)

abbrev to_alice : TransferInstruction
to_alice = gift (AddressOrNamespace.address 10)

alice-Covers : Covers 1 (some 20) (7 ∷ []) alice
unfolding Map.get
alice-Covers = record {
  token = test_token 1 10 50 (7 ∷ 8 ∷ []);
  found = refl;
  enough = omega arith;
  owned = refl;
}

can_gift : CanTransfer test_env payment test_world [] to_bob 10 20 alice bob
unfolding Map.get
can_gift = record {
  from_address = refl;
  to_address = refl;
  from_seen = refl;
  to_seen = refl;
  from_located = refl;
  to_located = refl;
  covers = alice-Covers;
  fits = omega arith;
  known = inr refl;
}

transfer_conserves_seen_example :
    (buffer' : Buffer) × (apply_instruction test_env payment
        (Instruction.transfer to_bob)
        []
        test_world
      ≡ ended (ok buffer') test_world)
    × (balance_seen test_env test_world buffer' 1 10 + 20
        ≡ balance_seen test_env test_world [] 1 10)
    × (balance_seen test_env test_world buffer' 1 20
        ≡ balance_seen test_env test_world [] 1 20 + 20)
transfer_conserves_seen_example =
    transfer_conserves_seen test_env payment test_world [] to_bob 10 20 alice bob can_gift
      (omega arith)

can_keep : CanTransfer test_env payment test_world [] to_alice 10 10 alice alice
unfolding Map.get
can_keep = record {
  from_address = refl;
  to_address = refl;
  from_seen = refl;
  to_seen = refl;
  from_located = refl;
  to_located = refl;
  covers = alice-Covers;
  fits = omega arith;
  known = inr refl;
}

transfer_to_self_example :
    (buffer' : Buffer) × (apply_instruction test_env payment
        (Instruction.transfer to_alice)
        []
        test_world
      ≡ ended (ok buffer') test_world)
    × (balance_seen test_env test_world buffer' 1 10
        ≡ balance_seen test_env test_world [] 1 10 + 20)
transfer_to_self_example =
    transfer_to_self test_env payment test_world [] to_alice 10 10 alice alice can_keep refl

apply_instructions-IsReading_example : IsReading (
    apply_instructions test_env payment
      (Instruction.transfer to_bob ∷ Instruction.transfer to_alice ∷ [])
      [])
apply_instructions-IsReading_example =
    apply_instructions-IsReading test_env payment
      (Instruction.transfer to_bob ∷ Instruction.transfer to_alice ∷ []) []

-- a call of program 30, whose transfer of 500 fails
abbrev too_much : TransferInstruction
too_much = record to_bob { amount = some 500 }

abbrev outputs : Outputs
outputs = record {
  inputs = record {
    version = pos 1;
    account_info = shop;
    transaction = order;
    op = "buy";
    inputs = "";
  };
  instructions = Instruction.transfer too_much ∷ [];
}

abbrev after_caller : Batcher
after_caller = record new_batcher {
  parent = record new_batch { accounts = (30, bumped shop) ∷ [] };
}

call_room : placed (insert_account (bumped shop)) new_batcher ≡ some after_caller
unfolding placed insert_account Map.insert
call_room = refl

shop_found : find_account test_env 30 shop_world ≡ some shop
unfolding Map.get
shop_found = refl

call_fails :
    apply_instructions test_env order outputs.instructions []
      (called test_env order shop_world shop after_caller)
    ≡ ended (err (types_error exceeds_balance)) (called test_env order shop_world shop after_caller)
unfolding apply_instructions Map.get Map.insert
    lasr.Types.Account.Apply.apply_transfer_from_instruction lasr.Types.Account.on_program
    lasr.Types.Account.Apply.take_away lasr.Types.Token.debit
call_fails = refl

failed_call_example :
    let w₁ = called test_env order shop_world shop after_caller in
    (apply_instructions_to_accounts test_env order outputs shop_world
      ≡ ended (err (types_error exceeds_balance)) w₁)
    × (find_account test_env 10 w₁ ≡ find_account test_env 10 shop_world)
failed_call_example =
    failed_call test_env order outputs shop_world shop after_caller (types_error exceeds_balance) 10
      refl shop_found refl (omega arith) call_room call_fails
