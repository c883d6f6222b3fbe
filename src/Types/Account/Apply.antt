-- ===== src/Types/Account/Apply.antt =====
-- The methods of `Account` that apply the instructions of a program.
pub mod Laws
pub mod Transfers
pub mod Updates
use lasr.Base.{
  ℕ, Bool, true, false, Option, none, some, List, [], ◌∷◌, ◌++◌, ◌==◌, if◌then◌else◌, nat_eq,
  string_eq, is_empty,
}
use lasr.Base.Map
use lasr.Base.Map.{Map}
use lasr.Base.Result.{Result, ok, err, panic, pure, fail, modify, ◌>>=◌, ◌>>◌}
use lasr.Types.Address.{Address}
use lasr.Types.Error.{transfer_not_owned, burn_not_owned}
use lasr.Types.Account.{Account, AccountMethod, on_program, create_program, token_owner}
use lasr.Types.Token.{
  Token, TokenMethod, Metadata, ArbitraryData, free, debit, credit, add_token_ids, remove_token_ids,
}
use lasr.Types.TokenUpdate.{TokenUpdateField, apply_update_fields}
use lasr.Types.U256.{U256, Uint}

-- `if let Some(amt) = amount { … }`
abbrev for_amount : (U256 → TokenMethod (Unit {0})) → Option U256 → TokenMethod (Unit {0})
for_amount m none = pure tt
for_amount m (some amount) = m amount

-- `if !token_ids.is_empty() { … }`
abbrev for_ids : (List U256 → TokenMethod (Unit {0})) → List U256 → TokenMethod (Unit {0})
for_ids m [] = pure tt
for_ids m (i ∷ ids) = m (i ∷ ids)

-- the token that a `TokenBuilder` makes for an account that has none
abbrev pub fresh_token : Address → Address → Metadata → ArbitraryData → Token
fresh_token program_id owner_id metadata arbitrary_data = record {
  program_id = program_id;
  owner_id = owner_id;
  balance = 0;
  metadata = metadata;
  token_ids = [];
  allowance = [];
  approvals = [];
  arbitrary_data = arbitrary_data;
  status = free;
}

module _ ⦃u : Uint⦄ where
  unfoldable pub give : Option U256 → List U256 → TokenMethod (Unit {0})
  give amount ids = for_amount credit amount >> for_ids add_token_ids ids

  unfoldable pub take_away : Option U256 → List U256 → TokenMethod (Unit {0})
  take_away amount ids = for_amount debit amount >> for_ids remove_token_ids ids

  unfoldable pub apply_transfer_to_instruction :
      Address → Option U256 → List U256 → Option Account → AccountMethod Token
  apply_transfer_to_instruction token_address amount ids program_account a =
      let metadata : Metadata = elim program_account [
        | none ↦ []
        | some p ↦ p.program_account_metadata
      ] in
      let arbitrary_data : ArbitraryData = elim program_account [
        | none ↦ []
        | some p ↦ p.program_account_data
      ] in
      on_program token_address (give amount ids)
        (create_program (fresh_token token_address a.owner_address metadata arbitrary_data)
          (give amount ids))
        a

  unfoldable pub apply_transfer_from_instruction :
      Address → Option U256 → List U256 → AccountMethod Token
  apply_transfer_from_instruction token_address amount ids =
      on_program token_address (take_away amount ids) (fail transfer_not_owned)

  unfoldable pub apply_burn_instruction : Address → Option U256 → List U256 → AccountMethod Token
  apply_burn_instruction token_address amount ids =
      on_program token_address (take_away amount ids) (fail burn_not_owned)

  unfoldable pub apply_token_distribution :
      Address → Option U256 → List U256 → List TokenUpdateField → Account → AccountMethod Token
  apply_token_distribution program_id amount ids updates program_account a =
      let m = give amount ids >> apply_update_fields updates in
      on_program program_id m
        (create_program
          (fresh_token program_id (token_owner a) program_account.program_account_metadata
            program_account.program_account_data)
          m)
        a

  unfoldable pub apply_token_update :
      Address → List TokenUpdateField → Account → AccountMethod Token
  apply_token_update program_id updates program_account a =
      on_program program_id (apply_update_fields updates)
        (create_program
          (fresh_token program_id (token_owner a) program_account.program_account_metadata
            program_account.program_account_data)
          (apply_update_fields updates))
        a
