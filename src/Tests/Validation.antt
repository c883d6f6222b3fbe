-- ===== src/Tests/Validation.antt =====
-- The theorems on the validator at concrete inputs.
use lasr.Base.{
  ◌+◌, ◌≡◌, ◌↔◌, refl, arith, true, Option, none, some, [], ◌∷◌, ◌==◌, if◌then◌else◌, nat_eq, All,
}
use lasr.Base.Int.{pos}
use lasr.Base.Map
use lasr.Base.Result.{ok}
use lasr.Types.Address.{Address}
use lasr.Types.Account.{Account, AddressOrNamespace, balance}
use lasr.Types.Account.Apply.{apply_transfer_from_instruction}
use lasr.Types.Account.Program.{location_eq}
use lasr.Types.Account.Validate.{validate_balance, validate_nonce}
use lasr.Types.Instruction.{Instruction, TransferInstruction, Outputs}
use lasr.Types.Token.{Token}
use lasr.Actors.Messages.{batcher_append}
use lasr.Actors.Validator.{Signatures, validate_send, pending_call}
use lasr.Actors.Validator.Instructions.{Accounts, validate_transfer, validate_instruction}
use lasr.Actors.Validator.Laws.{call_accounts, validated_call_iff}
use lasr.Actors.Validator.Applied.{validated_send_pays, validated_transfer_applies}
use lasr.Types.Account.Send.{apply_send_transaction}
use lasr.Types.Account.Send.Transfer.{Succeeds}
use lasr.Types.Account.Validate.{validate_program_id}
use lasr.Tests.Accounts.{alice-IsKeyed}
use lasr.Tests.{test_uint, test_registry, alice, bob, payment}

-- the signatures of account 10 are those of this account
instance abbrev pub test_signatures : Signatures
test_signatures = record { verify_signature = λ tx. tx.from == 10 }

payment_is_valid : validate_send test_registry payment alice ≡ batcher_append payment none ∷ []
unfolding validate_send validate_program_id validate_balance validate_nonce Map.get
payment_is_valid = refl

alice_owns : (t : Token) → Map.get 1 alice.programs ≡ some t → t.owner_id ≡ 10
unfolding Map.get
alice_owns t e = ground arith

validated_send_pays_example :
    let (r, a') = apply_send_transaction payment none alice in
    Succeeds r × (balance 1 a' + 30 ≡ balance 1 alice)
validated_send_pays_example =
    validated_send_pays test_registry payment alice none refl refl payment_is_valid refl
      (omega arith) alice-IsKeyed alice_owns

-- a transfer of 20 from the caller to account 20
abbrev paying : TransferInstruction
paying = record {
  token = 1;
  from = AddressOrNamespace.address 10;
  to = AddressOrNamespace.address 20;
  amount = some 20;
  ids = [];
}

abbrev known : Accounts
known = (AddressOrNamespace.address 20, some bob) ∷ []

paying_is_valid : validate_transfer payment alice known paying ≡ ok tt
unfolding validate_transfer validate_balance Map.get
paying_is_valid = refl

validated_transfer_applies_example :
    let (r, a') = apply_transfer_from_instruction 1 (some 20) [] alice in
    ((t : Token) × (r ≡ ok t) × (Map.get 1 a'.programs ≡ some t))
    × (balance 1 a' + 20 ≡ balance 1 alice)
validated_transfer_applies_example =
    validated_transfer_applies payment alice alice known paying 20 paying_is_valid refl refl

abbrev paid : Outputs
paid = record {
  inputs = record {
    version = pos 1;
    account_info = alice;
    transaction = payment;
    op = "pay";
    inputs = "";
  };
  instructions = Instruction.transfer paying ∷ [];
}

-- the accounts 10 and 20 are found
abbrev lookup : Address → Option Account
lookup a = if a == 10 then some alice else if a == 20 then some bob else none

validated_call_iff_example :
    (pending_call test_registry lookup (some paid) payment
      ≡ batcher_append payment (some paid) ∷ [])
    ↔ ((test_signatures.verify_signature payment ≡ true)
        × ((caller : Account) × (lookup 10 ≡ some caller)
            × (validate_nonce 5 caller ≡ ok tt)
            × All
                (λ i.
                  validate_instruction payment caller (call_accounts lookup payment paid) i ≡ ok tt)
                paid.instructions))
validated_call_iff_example = validated_call_iff test_registry lookup paid payment refl refl
