-- ===== src/Types/Account/Validate.antt =====
-- The `validate_*` methods of `Account`.
pub mod Laws
use lasr.Base.{
  ℕ, Bool, true, false, not, ◌&&◌, Option, none, some, List, [], ◌∷◌, ◌==◌, if◌then◌else◌, nat_eq,
  is_empty, all, contains, ltb, leb,
}
use lasr.Base.Map
use lasr.Base.Map.{Map}
use lasr.Base.Result.{Result, ok, err}
use lasr.Types.Address.{Address}
use lasr.Types.Error.{
  TypesError, no_associated_program, balance_insufficient, token_id_not_owned, exceeds_approved,
  spender_not_approved, spend_unverified, token_id_not_approved, nonce_invalid,
}
use lasr.Types.Account.{Account, AccountType, user, program}
use lasr.Types.Token.{Token}
use lasr.Types.U256.{U256}

abbrev pub Validation : Type 0
Validation = Result TypesError (Unit {0})

unfoldable pub validate_program_id : Address → Account → Validation
validate_program_id program_id a = elim (Map.get program_id a.programs) [
  | some _ ↦ ok tt
  | none ↦ err no_associated_program
]

unfoldable pub validate_balance : Address → U256 → Account → Validation
validate_balance program_id amount a = elim (Map.get program_id a.programs) [
  | some token ↦ if leb amount token.balance then ok tt else err balance_insufficient
  | none ↦ err no_associated_program
]

-- the loop over the ids stops at the first that is not held
abbrev each_held : List U256 → List U256 → Validation
each_held owned [] = ok tt
each_held owned (nft ∷ ids) =
    if not (contains owned nft) then err token_id_not_owned else each_held owned ids

unfoldable pub validate_token_ownership : Address → List U256 → Account → Validation
validate_token_ownership program_id ids a = elim (Map.get program_id a.programs) [
  | some token ↦ each_held token.token_ids ids
  | none ↦ err no_associated_program
]

-- The second test of a program account is never reached, and an account of another program falls
-- through to the last error.
unfoldable pub validate_approved_spend : Address → Address → U256 → Account → Validation
validate_approved_spend program_id spender amount a = elim (Map.get program_id a.programs) [
  | none ↦ err no_associated_program
  | some token ↦ elim (Map.get spender token.allowance) [
    | some entry ↦ if ltb amount entry then ok tt else err exceeds_approved
    | none ↦ elim (Map.get spender token.approvals) [
      | some entry ↦ if is_empty entry then ok tt else err spender_not_approved
      | none ↦ elim a.account_type [
        | program program_addr ↦
            if program_addr == program_id then ok tt else err no_associated_program
        | user ↦ err spend_unverified
      ]
    ]
  ]
]

-- Where the approvals list the first id, control falls through to the last error.
unfoldable pub validate_approved_token_transfer :
    Address → Address → List U256 → Account → Validation
validate_approved_token_transfer program_id spender ids a = elim (Map.get program_id a.programs) [
  | none ↦ err no_associated_program
  | some token ↦ elim (Map.get spender token.approvals) [
    | some entry ↦ if is_empty entry then err spender_not_approved else elim ids [
      | [] ↦ err no_associated_program
      | nft ∷ _ ↦
          if not (contains entry nft) then err token_id_not_approved else err no_associated_program
    ]
    | none ↦ elim a.account_type [
      | program program_addr ↦
          if program_addr == program_id then ok tt else err no_associated_program
      | user ↦ err no_associated_program
    ]
  ]
]

unfoldable pub validate_nonce : U256 → Account → Validation
validate_nonce nonce a =
    if a.nonce == 0 && nonce == 0
    then ok tt
    else if ltb a.nonce nonce
    then ok tt
    else err nonce_invalid
