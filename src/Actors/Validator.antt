-- ===== src/Actors/Validator.antt =====
-- `ValidatorCore` and `ValidatorActor` of crates/actors/src/validator.rs: what is checked of a
-- transaction and of the instructions of a call, and where the verdict goes.
pub mod Instructions
pub mod Laws
pub mod Applied
use lasr.Base.{
  Bool, true, false, not, ◌||◌, Option, none, some, List, [], ◌∷◌, ◌++◌, ◌==◌, if◌then◌else◌,
  nat_eq,
}
use lasr.Base.Map
use lasr.Base.Map.{Map}
use lasr.Base.Result.{Result, ok, err, panic}
use lasr.Types.Address.{Address}
use lasr.Types.Account.{Account, AddressOrNamespace}
use lasr.Types.Account.Program.{location_eq}
use lasr.Types.Account.Validate.{validate_program_id, validate_balance, validate_nonce}
use lasr.Types.Instruction.{Instruction, Outputs, instruction_accounts}
use lasr.Types.Transaction.{Transaction, TransactionType, send, bridge_in}
use lasr.Actors.Messages.{Registry, Cast, cast_if, pending_invalid, batcher_append}
use lasr.Actors.Validator.Instructions.{
  Accounts, Check, ValidatorError, signature_invalid, caller_missing, lifted, then_check, find_in,
  validate_instructions,
}

-- `verify_signature`, which rests on the crate `secp256k1`
pub record Signatures : Type 0 where
  pub verify_signature : Transaction → Bool

abbrev pub check_signature : ⦃s : Signatures⦄ → Transaction → Check
check_signature ⦃s⦄ tx = if s.verify_signature tx then ok tt else err signature_invalid

-- What follows the checks: an error goes to the pending transactions; a pass goes to the batcher, if
-- it is up.
abbrev pub verdict : Registry → Transaction → Option Outputs → Check → List Cast
verdict reg tx outputs (ok _) = cast_if reg.batcher (batcher_append tx outputs)
verdict reg tx outputs (err _) = pending_invalid tx ∷ []
verdict reg tx outputs panic = []

abbrev pub check_send : ⦃s : Signatures⦄ → Transaction → Account → Check
check_send tx account = then_check (lifted (validate_program_id tx.program_id account)) (
    then_check (lifted (validate_balance tx.program_id tx.value account))
      (then_check (lifted (validate_nonce tx.nonce account)) (check_signature tx)))

unfoldable pub validate_send : ⦃s : Signatures⦄ → Registry → Transaction → Account → List Cast
validate_send reg tx account =
    if reg.pending_transactions then verdict reg tx none (check_send tx account) else []

-- An error is not reported.
unfoldable pub validate_bridge_in : Registry → Transaction → List Cast
validate_bridge_in reg tx =
    if not (tx.from == tx.to) then [] else cast_if reg.batcher (batcher_append tx none)

abbrev pub check_caller : Transaction → Outputs → Accounts → Option Account → Check
check_caller tx outputs accounts none = err caller_missing
check_caller tx outputs accounts (some caller) =
    then_check (lifted (validate_nonce tx.nonce caller))
      (validate_instructions tx caller accounts outputs.instructions)

unfoldable pub check_call : ⦃s : Signatures⦄ → Transaction → Outputs → Accounts → Check
check_call tx outputs accounts =
    then_check (check_signature tx)
      (check_caller tx outputs accounts (find_in (AddressOrNamespace.address tx.from) accounts))

unfoldable pub validate_call :
    ⦃s : Signatures⦄ → Registry → Accounts → Outputs → Transaction → List Cast
unfolding check_call
validate_call reg accounts outputs tx =
    if reg.pending_transactions
    then verdict reg tx (some outputs) (check_call tx outputs accounts)
    else []

-- `ValidatorActor::pending_transaction`, for the sender's account as `get_account` finds it
unfoldable pub pending_transaction :
    ⦃s : Signatures⦄ → Registry → (Address → Option Account) → Transaction → List Cast
unfolding validate_send validate_bridge_in
pending_transaction reg find tx = elim tx.transaction_type [
  | send _ ↦ elim (find tx.from) [
    | none ↦ cast_if reg.pending_transactions (pending_invalid tx)
    | some account ↦ validate_send reg tx account
  ]
  | bridge_in _ ↦ validate_bridge_in reg tx
  | _ ↦ []
]

-- the account of a location, if there is one: namespaces have none
abbrev pub located_account :
    (Address → Option Account) → Transaction → AddressOrNamespace → Option Account
located_account find tx AddressOrNamespace.this = find tx.to
located_account find tx (AddressOrNamespace.address a) = find a
located_account find tx (AddressOrNamespace.namespace _) = none

-- the loop that fills the map
unfoldable pub gather :
    (Address → Option Account) → Transaction → List AddressOrNamespace → Accounts → Accounts
gather find tx [] accounts = accounts
gather find tx (l ∷ ls) accounts =
    gather find tx ls (Map.insert l (located_account find tx l) accounts)

abbrev pub involved : List Instruction → List AddressOrNamespace
involved [] = []
involved (i ∷ is) = instruction_accounts i ++ involved is

abbrev pub accounts_involved : Transaction → Outputs → List AddressOrNamespace
accounts_involved tx outputs =
    (involved outputs.instructions ++ AddressOrNamespace.address tx.from ∷ [])
    ++ AddressOrNamespace.address tx.to ∷ []

unfoldable pub pending_call :
    ⦃s : Signatures⦄
    → Registry
    → (Address → Option Account)
    → Option Outputs
    → Transaction
    → List Cast
unfolding gather validate_call
pending_call reg find none tx = cast_if reg.pending_transactions (pending_invalid tx)
pending_call reg find (some outputs) tx =
    validate_call reg (gather find tx (accounts_involved tx outputs) []) outputs tx
