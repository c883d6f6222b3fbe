-- ===== src/Actors/Validator/Applied.antt =====
-- The application of what passed the validation: `ValidatorCore` of crates/actors/src/validator.rs with
-- the methods of `Account` of crates/types/src/account.rs.
use lasr.Base.{
  ◌+◌, ◌≡◌, ◌≢◌, refl, arith, true, false, Option, none, some, [], ◌∷◌, ◌==◌, if◌then◌else◌, nat_eq,
}
use lasr.Base.Map
use lasr.Base.Map.{Map}
use lasr.Base.Result.{ok}
use lasr.Types.Account.{Account, AddressOrNamespace, balance}
use lasr.Types.Account.Apply.{apply_transfer_from_instruction, apply_burn_instruction}
use lasr.Types.Account.Apply.Transfers.{transfer_from_takes, burn_takes}
use lasr.Types.Account.Program.{location_eq}
use lasr.Types.Account.Send.{apply_send_transaction}
use lasr.Types.Account.Send.Laws.{IsKeyed}
use lasr.Types.Account.Send.Transfer.{CanPay, CanPay-cover, Succeeds, send_pays}
use lasr.Types.Account.Validate.{validate_balance}
use lasr.Types.Account.Validate.Laws.{validate_balance_iff}
use lasr.Types.Instruction.{TransferInstruction, BurnInstruction}
use lasr.Types.Token.{Token}
use lasr.Types.Transaction.{Transaction, is_bridge_in}
use lasr.Types.U256.{U256, Uint}
use lasr.Actors.Messages.{Registry, batcher_append}
use lasr.Actors.Validator.{Signatures, validate_send}
use lasr.Actors.Validator.Instructions.{Accounts, find_in, validate_transfer, validate_burn}
use lasr.Actors.Validator.Laws.{validate_send_iff}

-- the account that a transfer or a burn is validated against
abbrev pub debited_account : Account → Accounts → AddressOrNamespace → Option Account
debited_account caller accounts from =
    if from == AddressOrNamespace.address caller.owner_address
    then some caller
    else find_in from accounts

-- If the validation of a send, no deposit and between two different addresses, passed it to the
-- batcher with both actors up, and the account keeps its tokens under their own programs and that of
-- the transaction's program is the sender's, then the send succeeds on the account and takes the
-- value from the balance.
pub validated_send_pays :
    ⦃s : Signatures⦄ ⦃u : Uint⦄ (reg : Registry) (tx : Transaction) (a : Account)
    (p : Option Account)
    → reg.pending_transactions ≡ true
    → reg.batcher ≡ true
    → validate_send reg tx a ≡ batcher_append tx none ∷ []
    → is_bridge_in tx.transaction_type ≡ false
    → tx.to ≢ tx.from
    → IsKeyed a
    → ((t : Token) → Map.get tx.program_id a.programs ≡ some t → t.owner_id ≡ tx.from)
    → let (r, a') = apply_send_transaction tx p a in
      Succeeds r × (balance tx.program_id a' + tx.value ≡ balance tx.program_id a)
validated_send_pays reg tx a p pending batcher passes no_deposit distinct keyed own =
    let (_, (t, found, enough), _) = (validate_send_iff reg tx a pending batcher).0 passes in
    let pay : CanPay tx a = (t, found, own t found, enough) in
    let (succeeds, taken) = send_pays p tx a keyed no_deposit distinct pay in
    (succeeds, omega (arith, taken, CanPay-cover tx a pay))

-- If a transfer instruction with an amount passed the validation, then the transfer of the amount,
-- without ids, succeeds on the account that it was validated against, which is the caller or what was
-- found for the location that it is from, and takes the amount from the balance.
pub validated_transfer_applies :
    ⦃u : Uint⦄ (tx : Transaction) (caller a : Account) (accounts : Accounts)
    (t : TransferInstruction) (amount : U256)
    → validate_transfer tx caller accounts t ≡ ok tt
    → debited_account caller accounts t.from ≡ some a
    → t.amount ≡ some amount
    → let (r, a') = apply_transfer_from_instruction t.token (some amount) [] a in
      ((tok : Token) × (r ≡ ok tok) × (Map.get t.token a'.programs ≡ some tok))
      × (balance t.token a' + amount ≡ balance t.token a)
unfolding validate_transfer
validated_transfer_applies tx caller a accounts t amount passes at e =
    let valid : validate_balance t.token amount a ≡ ok tt = ground arith in
    let (tok, found, enough) = (validate_balance_iff t.token amount a).0 valid in
    let (r, taken, _) =
      transfer_from_takes t.token (some amount) [] a 0
        (record { token = tok; found = found; enough = enough; owned = refl }) in
    (r, taken)

-- If a burn instruction with an amount passed the validation, then the burn of the amount, without
-- ids, succeeds on the account that it was validated against, which is the caller or what was found
-- for the location that it is from, and takes the amount from the balance.
pub validated_burn_applies :
    ⦃u : Uint⦄ (tx : Transaction) (caller a : Account) (accounts : Accounts) (b : BurnInstruction)
    (amount : U256)
    → validate_burn tx caller accounts b ≡ ok tt
    → debited_account caller accounts b.from ≡ some a
    → b.amount ≡ some amount
    → let (r, a') = apply_burn_instruction b.token (some amount) [] a in
      ((tok : Token) × (r ≡ ok tok) × (Map.get b.token a'.programs ≡ some tok))
      × (balance b.token a' + amount ≡ balance b.token a)
unfolding validate_burn
validated_burn_applies tx caller a accounts b amount passes at e =
    let valid : validate_balance b.token amount a ≡ ok tt = ground arith in
    let (tok, found, enough) = (validate_balance_iff b.token amount a).0 valid in
    let (r, taken, _) =
      burn_takes b.token (some amount) [] a 0
        (record { token = tok; found = found; enough = enough; owned = refl }) in
    (r, taken)
