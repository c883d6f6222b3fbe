-- ===== src/Actors/Validator/Instructions.antt =====
-- `ValidatorCore::validate_instructions` of crates/actors/src/validator.rs: the checks of each
-- instruction of a call, by the accounts that were found for it.
use lasr.Base.{not, ◌&&◌, Option, none, some, List, [], ◌∷◌, ◌==◌, if◌then◌else◌, nat_eq, contains}
use lasr.Base.Map
use lasr.Base.Map.{Map, contains_key}
use lasr.Base.Result.{Result, ok, err, panic}
use lasr.Types.Address.{Address}
use lasr.Types.Error.{TypesError}
use lasr.Types.Account.{Account, user, program, AddressOrNamespace}
use lasr.Types.Account.Program.{ProgramUpdate, location_eq}
use lasr.Types.Account.Validate.{
  Validation, validate_balance, validate_token_ownership, validate_approved_spend,
  validate_approved_token_transfer,
}
use lasr.Types.Instruction.{
  Instruction, TransferInstruction, BurnInstruction, CreateInstruction, TokenUpdate,
  TokenOrProgramUpdate,
}
use lasr.Types.TokenUpdate.{TokenUpdateField, TokenFieldValue}
use lasr.Types.Transaction.{Transaction}
use lasr.Types.U256.{U256}

-- each error named after its message
pub data ValidatorError : Type 0 where
  types_error : TypesError → ValidatorError
  signature_invalid caller_missing : ValidatorError
  account_missing token_missing namespaces_unsupported : ValidatorError
  approvals_not_owner approvals_missing allowance_not_owner allowance_missing : ValidatorError
  neither_approved program_update_refused program_account_missing not_program_owner : ValidatorError

abbrev pub Check : Type 0
Check = Result ValidatorError (Unit {0})

-- the accounts that were looked for, each with what was found
abbrev pub Accounts : Type 0
Accounts = Map AddressOrNamespace (Option Account)

abbrev pub lifted : Validation → Check
lifted (ok _) = ok tt
lifted (err e) = err (types_error e)
lifted panic = panic

-- the first error counts
abbrev pub then_check : Check → Check → Check
then_check (ok _) next = next
then_check (err e) next = err e
then_check panic next = panic

-- if the first fails, the second counts
abbrev pub or_check : Check → Check → Check
or_check (ok _) other = ok tt
or_check (err _) other = other
or_check panic other = panic

-- `if let Some(Some(account)) = account_map.get(…)`
abbrev flat : Option (Option Account) → Option Account
flat none = none
flat (some o) = o

abbrev pub find_in : AddressOrNamespace → Accounts → Option Account
find_in l accounts = flat (Map.get l accounts)

module _ (tx : Transaction) (caller : Account) (accounts : Accounts) where
  -- the caller or the program is approved to spend
  abbrev approved_spend : Address → Address → U256 → Account → Check
  approved_spend token program_id amount a =
      or_check (lifted (validate_approved_spend token caller.owner_address amount a))
        (lifted (validate_approved_spend token program_id amount a))

  abbrev approved_transfer : Address → Address → List U256 → Account → Check
  approved_transfer token program_id ids a =
      or_check (lifted (validate_approved_token_transfer token caller.owner_address ids a))
        (lifted (validate_approved_token_transfer token program_id ids a))

  -- the caller's own tokens: the ids are looked for under the program and not under the token
  abbrev pub check_own : Address → Address → Option U256 → List U256 → Check
  check_own token program_id (some amount) ids = lifted (validate_balance token amount caller)
  check_own token program_id none ids = lifted (validate_token_ownership program_id ids caller)

  -- The called program's own account needs no approval.
  abbrev pub check_transfer_spend : TransferInstruction → U256 → Account → Check
  check_transfer_spend t amount a =
      let approved = approved_spend t.token tx.to amount a in
      elim a.account_type [
        | program p ↦ if not (p == tx.to) then approved else ok tt
        | user ↦ approved
      ]

  -- another account's: with an amount the ids are not looked at
  abbrev pub check_transfer_other : TransferInstruction → Option U256 → Account → Check
  check_transfer_other t (some amount) a =
      then_check (lifted (validate_balance t.token amount a)) (check_transfer_spend t amount a)
  check_transfer_other t none a =
      then_check (lifted (validate_token_ownership t.token t.ids a))
        (approved_transfer t.token tx.to t.ids a)

  abbrev pub check_transfer_found : TransferInstruction → Option Account → Check
  check_transfer_found t none = err account_missing
  check_transfer_found t (some a) =
      if not (contains_key t.token a.programs)
      then err token_missing
      else check_transfer_other t t.amount a

  unfoldable pub validate_transfer : TransferInstruction → Check
  validate_transfer t =
      if t.from == AddressOrNamespace.address caller.owner_address
      then check_own t.token tx.to t.amount t.ids
      else check_transfer_found t (find_in t.from accounts)

  abbrev check_burn_other : BurnInstruction → Address → Option U256 → Account → Check
  check_burn_other b program_id (some amount) a =
      then_check (lifted (validate_balance b.token amount a))
        (approved_spend b.token program_id amount a)
  check_burn_other b program_id none a =
      then_check (lifted (validate_token_ownership b.token b.token_ids a))
        (approved_transfer b.token program_id b.token_ids a)

  abbrev check_burn_found : BurnInstruction → Address → Option Account → Check
  check_burn_found b program_id none = err account_missing
  check_burn_found b program_id (some a) =
      if not (contains_key b.token a.programs)
      then err token_missing
      else check_burn_other b program_id b.amount a

  -- the program that a burn counts as, which the instruction names
  abbrev pub burn_by : BurnInstruction → Address → Check
  burn_by b program_id =
      if b.from == AddressOrNamespace.address caller.owner_address
      then check_own b.token program_id b.amount b.token_ids
      else check_burn_found b program_id (find_in b.from accounts)

  unfoldable pub validate_burn : BurnInstruction → Check
  validate_burn b = elim b.program_id [
    | AddressOrNamespace.address a ↦ burn_by b a
    | AddressOrNamespace.this ↦ burn_by b tx.to
    | AddressOrNamespace.namespace _ ↦ err namespaces_unsupported
  ]

  abbrev check_owner : ValidatorError → ValidatorError → Option Account → Check
  check_owner not_owner missing none = err missing
  check_owner not_owner missing (some a) =
      if not (a.owner_address == caller.owner_address) then err not_owner else ok tt

  abbrev check_approval : Address → Account → Check
  check_approval token a = elim (Map.get token a.programs) [
    | none ↦ ok tt
    | some t ↦
        if not (contains_key tx.to t.approvals) && not (contains_key tx.from t.approvals)
        then err neither_approved
        else ok tt
  ]

  -- An account that does not exist passes, and so does one without the token.
  abbrev check_field : Address → Option Account → Check
  check_field token none = ok tt
  check_field token (some a) =
      if not (a.owner_address == caller.owner_address) then check_approval token a else ok tt

  abbrev check_other_field : TokenUpdate → Check
  check_other_field update = elim update.token [
    | AddressOrNamespace.this ↦ check_field tx.to (find_in update.account accounts)
    | AddressOrNamespace.address a ↦ check_field a (find_in update.account accounts)
    | AddressOrNamespace.namespace _ ↦ err namespaces_unsupported
  ]

  abbrev check_update_field : TokenUpdate → TokenFieldValue → Check
  check_update_field update (TokenFieldValue.approvals _) =
      check_owner approvals_not_owner approvals_missing (find_in update.account accounts)
  check_update_field update (TokenFieldValue.allowance _) =
      check_owner allowance_not_owner allowance_missing (find_in update.account accounts)
  check_update_field update _ = check_other_field update

  unfoldable pub validate_token_update : TokenUpdate → List TokenUpdateField → Check
  validate_token_update update [] = ok tt
  validate_token_update update (f ∷ fs) =
      then_check (check_update_field update f.value) (validate_token_update update fs)

  abbrev check_program_account : ProgramUpdate → Option Account → Check
  check_program_account update none = err program_account_missing
  check_program_account update (some a) =
      let to_address = AddressOrNamespace.address tx.to in
      if not (a.owner_address == tx.from)
        && (not (update.account == to_address)
            && not (contains a.program_account_linked_programs to_address))
      then err program_update_refused
      else ok tt

  unfoldable pub validate_program_update : ProgramUpdate → Check
  validate_program_update update = check_program_account update (find_in update.account accounts)

  unfoldable pub validate_updates : List TokenOrProgramUpdate → Check
  unfolding validate_token_update validate_program_update
  validate_updates [] = ok tt
  validate_updates (TokenOrProgramUpdate.token_update u ∷ us) =
      then_check (validate_token_update u u.updates) (validate_updates us)
  validate_updates (TokenOrProgramUpdate.program_update u ∷ us) =
      then_check (validate_program_update u) (validate_updates us)

  abbrev validate_create : CreateInstruction → Check
  validate_create c =
      if not (caller.owner_address == c.program_owner) then err not_program_owner else ok tt

  abbrev pub validate_instruction : Instruction → Check
  validate_instruction (Instruction.transfer t) = validate_transfer t
  validate_instruction (Instruction.burn b) = validate_burn b
  validate_instruction (Instruction.update u) = validate_updates u.updates
  validate_instruction (Instruction.create c) = validate_create c
  validate_instruction (Instruction.log _) = ok tt

  unfoldable pub validate_instructions : List Instruction → Check
  validate_instructions [] = ok tt
  validate_instructions (i ∷ is) = then_check (validate_instruction i) (validate_instructions is)
