-- ===== src/Actors/Validator/Laws.antt =====
-- Which sends, calls and program updates pass `ValidatorCore` of crates/actors/src/validator.rs.
use lasr.Base.{
  ◌≤◌, ◌≡◌, ◌↔◌, ◌⊎◌, refl, subst, sym, ◌∙◌, arith, true, Option, none, some, List, [], ◌∷◌, ◌++◌,
  if◌then◌else◌, nat_eq, All, contains, contains-append,
}
use lasr.Base.Map
use lasr.Base.Map.{Map, get-insert}
use lasr.Base.Result.{ok, err, panic}
use lasr.Types.Address.{Address}
use lasr.Types.Account.{Account, AddressOrNamespace}
use lasr.Types.Account.Program.{ProgramUpdate, location_eq, location_beq_iff}
use lasr.Types.Account.Validate.{Validation, validate_program_id, validate_balance, validate_nonce}
use lasr.Types.Instruction.{Instruction, Outputs}
use lasr.Types.Token.{Token}
use lasr.Types.Transaction.{Transaction}
use lasr.Actors.Messages.{Registry, batcher_append}
use lasr.Actors.Validator.Instructions.{
  Accounts, Check, find_in, lifted, then_check, validate_program_update, validate_instruction,
  validate_instructions,
}
use lasr.Actors.Validator.{
  Signatures, check_signature, involved, verdict, check_caller, validate_send, check_call,
  validate_call, located_account, gather, accounts_involved, pending_call,
}

-- With both actors up, the validation of a send passes it to the batcher, and does nothing else,
-- exactly if the signature check accepts, the account has the token with at least the value, and the nonce passes.
pub validate_send_iff :
    ⦃s : Signatures⦄ (reg : Registry) (tx : Transaction) (a : Account)
    → reg.pending_transactions ≡ true
    → reg.batcher ≡ true
    → (validate_send reg tx a ≡ batcher_append tx none ∷ []) ↔ (
        (s.verify_signature tx ≡ true)
        × ((t : Token) × (Map.get tx.program_id a.programs ≡ some t) × (tx.value ≤ t.balance))
        × (validate_nonce tx.nonce a ≡ ok tt))
unfolding validate_send validate_program_id validate_balance
validate_send_iff reg tx a pending batcher = ground arith

-- If the account to update was found, a program update passes the validation exactly if the sender owns the account, or the
-- update names the called program by its address, or the account has it among its linked programs.
pub validate_program_update_iff :
    (tx : Transaction) (caller a : Account) (accounts : Accounts) (update : ProgramUpdate)
    → find_in update.account accounts ≡ some a
    → let to_address = AddressOrNamespace.address tx.to in
      (validate_program_update tx caller accounts update ≡ ok tt) ↔ (
        (a.owner_address ≡ tx.from)
        ⊎ ((update.account ≡ to_address)
            ⊎ (contains a.program_account_linked_programs to_address ≡ true)))
unfolding validate_program_update
validate_program_update_iff tx caller a accounts update at =
    ground (arith, location_beq_iff update.account (AddressOrNamespace.address tx.to))

then_check_iff : (c d : Check) → (then_check c d ≡ ok tt) ↔ ((c ≡ ok tt) × (d ≡ ok tt))
then_check_iff (ok tt) d = ground arith
then_check_iff (err e) d = ground arith
then_check_iff panic d = ground arith

validate_instructions_iff :
    (tx : Transaction) (caller : Account) (accounts : Accounts) (is : List Instruction)
    → (validate_instructions tx caller accounts is ≡ ok tt)
      ↔ All (λ i. validate_instruction tx caller accounts i ≡ ok tt) is
unfolding validate_instructions
validate_instructions_iff tx caller accounts [] = (λ _. tt, λ _. refl)
validate_instructions_iff tx caller accounts (i ∷ is) =
    let (split, join) =
      then_check_iff (validate_instruction tx caller accounts i)
        (validate_instructions tx caller accounts is) in
    let (each, all_pass) = validate_instructions_iff tx caller accounts is in
    (λ e. let (first, rest) = split e in (first, each rest), λ p. join (p.0, all_pass p.1))

-- a location that is looked for has what is found for it; the others have what they had
gather_lem :
    (find : Address → Option Account) (tx : Transaction) (k : AddressOrNamespace)
    (ls : List AddressOrNamespace) (accounts : Accounts)
    → find_in k (gather find tx ls accounts)
      ≡ (if contains ls k then located_account find tx k else find_in k accounts)
unfolding gather
gather_lem find tx k [] accounts = refl
gather_lem find tx k (l ∷ ls) accounts = ground (
  arith,
  gather_lem find tx k ls (Map.insert l (located_account find tx l) accounts),
  get-insert k l (located_account find tx l) accounts,
  location_beq_iff k l,
)

-- the accounts that a call is validated with
abbrev pub call_accounts : (Address → Option Account) → Transaction → Outputs → Accounts
call_accounts find tx outputs = gather find tx (accounts_involved tx outputs) []

caller_found :
    (find : Address → Option Account) (tx : Transaction) (outputs : Outputs)
    → find_in (AddressOrNamespace.address tx.from) (call_accounts find tx outputs) ≡ find tx.from
caller_found find tx outputs =
    let k = AddressOrNamespace.address tx.from in
    let named = involved outputs.instructions in
    ground (
      arith,
      gather_lem find tx k (accounts_involved tx outputs) [],
      contains-append (named ++ k ∷ []) (AddressOrNamespace.address tx.to ∷ []) k,
      contains-append named (k ∷ []) k,
      location_beq_iff k k,
    )

lifted_iff : (v : Validation) → (lifted v ≡ ok tt) ↔ (v ≡ ok tt)
lifted_iff (ok tt) = ground arith
lifted_iff (err e) = ground arith
lifted_iff panic = ground arith

verdict_iff :
    (reg : Registry) (tx : Transaction) (outputs : Option Outputs) (c : Check)
    → reg.batcher ≡ true
    → (verdict reg tx outputs c ≡ batcher_append tx outputs ∷ []) ↔ (c ≡ ok tt)
verdict_iff reg tx outputs (ok tt) up = ground arith
verdict_iff reg tx outputs (err e) up = ground arith
verdict_iff reg tx outputs panic up = ground arith

check_caller_iff :
    (tx : Transaction) (outputs : Outputs) (accounts : Accounts) (o : Option Account)
    → (check_caller tx outputs accounts o ≡ ok tt) ↔ (
        (caller : Account) × (o ≡ some caller)
        × (validate_nonce tx.nonce caller ≡ ok tt)
        × All (λ i. validate_instruction tx caller accounts i ≡ ok tt) outputs.instructions)
check_caller_iff tx outputs accounts none = (λ e. cc, λ p. cc)
check_caller_iff tx outputs accounts (some a) =
    let (split, join) =
      then_check_iff (lifted (validate_nonce tx.nonce a))
        (validate_instructions tx a accounts outputs.instructions) in
    let (each, all_pass) = validate_instructions_iff tx a accounts outputs.instructions in
    let (nonce, lift) = lifted_iff (validate_nonce tx.nonce a) in
    (
      λ e. let (first, rest) = split e in (a, refl, nonce first, each rest),
      λ p.
          let (caller, same, valid, pass) = p in
          let here : caller ≡ a = cc in
          join (
            lift (subst (λ x. validate_nonce tx.nonce x ≡ ok tt) here valid),
            all_pass (
                subst
                  (λ x.
                    All (λ i. validate_instruction tx x accounts i ≡ ok tt) outputs.instructions)
                  here pass),
          ),
    )

signature_iff :
    ⦃s : Signatures⦄ (tx : Transaction)
    → (check_signature tx ≡ ok tt) ↔ (s.verify_signature tx ≡ true)
signature_iff tx = ground arith

verdict-validate_call :
    ⦃s : Signatures⦄ (reg : Registry) (accounts : Accounts) (outputs : Outputs) (tx : Transaction)
    → reg.pending_transactions ≡ true
    → verdict reg tx (some outputs) (check_call tx outputs accounts)
      ≡ validate_call reg accounts outputs tx
unfolding validate_call
verdict-validate_call reg accounts outputs tx pending = ground arith

-- With both actors up, a call with outputs goes to the batcher, and nowhere else, exactly if the
-- signature check accepts, the sender's account is found, the nonce passes on it, and every instruction passes by the
-- accounts that are found for the addresses that the instructions and the transaction name.
pub validated_call_iff :
    ⦃s : Signatures⦄ (reg : Registry) (find : Address → Option Account) (outputs : Outputs)
    (tx : Transaction)
    → reg.pending_transactions ≡ true
    → reg.batcher ≡ true
    → (pending_call reg find (some outputs) tx ≡ batcher_append tx (some outputs) ∷ []) ↔ (
        (s.verify_signature tx ≡ true)
        × ((caller : Account) × (find tx.from ≡ some caller)
            × (validate_nonce tx.nonce caller ≡ ok tt)
            × All
                (λ i. validate_instruction tx caller (call_accounts find tx outputs) i ≡ ok tt)
                outputs.instructions))
unfolding pending_call validate_call check_call
validated_call_iff reg find outputs tx pending batcher =
    let accounts = call_accounts find tx outputs in
    let at = caller_found find tx outputs in
    let (out, back) = verdict_iff reg tx (some outputs) (check_call tx outputs accounts) batcher in
    let (split, join) =
      then_check_iff (check_signature tx) (
        check_caller tx outputs accounts (find_in (AddressOrNamespace.address tx.from) accounts)) in
    let (whose, sent) =
      check_caller_iff tx outputs accounts
        (find_in (AddressOrNamespace.address tx.from) accounts) in
    let same = verdict-validate_call reg accounts outputs tx pending in
    let (signed, sign) = signature_iff tx in
    (
      λ e.
          let (sig, c) = split (out (same ∙ e)) in
          let (caller, f, nonce, every) = whose c in
          (signed sig, (caller, sym at ∙ f, nonce, every)),
      λ p.
          let (sig, (caller, f, nonce, every)) = p in
          sym same ∙ back (join (sign sig, sent (caller, at ∙ f, nonce, every))),
    )
