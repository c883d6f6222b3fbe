-- ===== src/Tests/Builders.antt =====
-- Uses of the builders of instructions.
use lasr.Base.{◌≡◌, ◌↔◌, some, none, List, [], ◌∷◌}
use lasr.Base.Result.{ok, err}
use lasr.Types.Account.{AddressOrNamespace}
use lasr.Types.Instruction.{TransferInstruction}
use lasr.Types.Instruction.Builders.{
  TransferCall, BurnCall, CreateCall, UpdateCall, new_transfer, transfer_call, transfer_build,
  token_required,
}
use lasr.Types.Instruction.Builders.Uses.{
  run, last, given_token, given_from, given_to, given_amount, given_ids, transfer_built_iff,
}

abbrev account_10 : AddressOrNamespace
account_10 = AddressOrNamespace.address 10

-- the token is given twice
abbrev transfers : List TransferCall
transfers =
    TransferCall.token 1
    ∷ TransferCall.from account_10
    ∷ TransferCall.add_id 7
    ∷ TransferCall.to AddressOrNamespace.this
    ∷ TransferCall.token 2
    ∷ TransferCall.extend_ids (8 ∷ 9 ∷ [])
    ∷ []

abbrev made : TransferInstruction
made = record {
  token = 2;
  from = account_10;
  to = AddressOrNamespace.this;
  amount = none;
  ids = 7 ∷ 8 ∷ 9 ∷ [];
}

transfer_built_iff_example :
    let result = transfer_build (run transfer_call transfers new_transfer) in
    ((result ≡ ok made) ↔ (
      (last given_token transfers ≡ some 2)
      × (last given_from transfers ≡ some account_10)
      × (last given_to transfers ≡ some AddressOrNamespace.this)
      × (last given_amount transfers ≡ none)
      × (given_ids transfers ≡ 7 ∷ 8 ∷ 9 ∷ [])))
    × (last given_token transfers ≡ none → result ≡ err token_required)
transfer_built_iff_example = transfer_built_iff transfers made

abbrev creates : List CreateCall
creates = CreateCall.program_owner 10 ∷ CreateCall.total_supply 500 ∷ []

abbrev burns : List BurnCall
burns =
    BurnCall.caller 10
    ∷ BurnCall.program_id AddressOrNamespace.this
    ∷ BurnCall.token 1
    ∷ BurnCall.from account_10
    ∷ BurnCall.amount 5
    ∷ []

abbrev updates : List UpdateCall
updates = UpdateCall.extend_updates [] ∷ []
