-- ===== src/Actors/Batcher/Instructions.antt =====
-- The application of a program's instructions by `Batcher` of crates/actors/src/batcher.rs, to
-- accounts in a buffer that the batches get at the end.
pub mod Reading
use lasr.Base.{
  Bool, true, false, ◌||◌, Option, none, some, List, [], ◌∷◌, ◌==◌, if◌then◌else◌, nat_eq,
}
use lasr.Base.Map
use lasr.Base.Map.{Map}
use lasr.Types.Address.{Address, eth_addr, verse_addr}
use lasr.Types.Account.{Account, AccountMethod, AddressOrNamespace, user, program, token_owner}
use lasr.Types.Account.Apply
use lasr.Types.Account.Program
use lasr.Types.Instruction.{
  Instruction, TransferInstruction, BurnInstruction, TokenDistribution, TokenUpdate,
  TokenOrProgramUpdate, CreateInstruction,
}
use lasr.Types.Token.{Token}
use lasr.Types.Transaction.{Transaction}
use lasr.Types.U256.{Uint}
use lasr.Actors.Batcher.World.{
  Env, Task, ◌>>=◌, ◌>>◌, pure, fail, or_fail, call, get_account, fresh_account, from_missing,
  program_missing, namespace_unsupported, address_required, this_missing,
}

abbrev pub Buffer : Type 0
Buffer = Map Address Account

-- `add_account_to_batch_buffer`
abbrev pub add_account_to_batch_buffer : Buffer → Account → Buffer
add_account_to_batch_buffer buffer account = Map.insert (token_owner account) account buffer

-- `This` is the program that was called.
abbrev pub address_of : Transaction → AddressOrNamespace → Option Address
address_of tx AddressOrNamespace.this = some tx.to
address_of tx (AddressOrNamespace.address a) = some a
address_of tx (AddressOrNamespace.namespace _) = none

-- a method of the account, with `?`, and the account that it leaves
abbrev pub apply_to : {A : Type 0} → Account → AccountMethod A → Task Account
apply_to account m = do (_, account') ← call m account; pure account'

module _ (env : Env) (tx : Transaction) where
  -- an account of the buffer, else of the cache
  abbrev pub buffered : Buffer → Address → Task (Option Account)
  buffered buffer address = elim (Map.get address buffer) [
    | some account ↦ pure (some account)
    | none ↦ get_account env address
  ]

  unfoldable pub get_transfer_from_account : AddressOrNamespace → Buffer → Task Account
  get_transfer_from_account from buffer = elim (address_of tx from) [
    | none ↦ fail namespace_unsupported
    | some address ↦ do found ← buffered buffer address; or_fail from_missing found
  ]

  unfoldable pub get_transfer_to_account : AddressOrNamespace → Buffer → Task (Option Account)
  get_transfer_to_account to buffer = elim (address_of tx to) [
    | none ↦ pure none
    | some address ↦ buffered buffer address
  ]

  -- a method that gets the account of the program, if it has one or must have one
  abbrev pub with_currency :
      Address → (Option Account → AccountMethod Token) → Account → Option Account → Task Account
  with_currency token m account (some p) = apply_to account (m (some p))
  with_currency token m account none =
      if token == eth_addr || token == verse_addr
      then apply_to account (m none)
      else fail program_missing

  abbrev pub with_program :
      (Account → AccountMethod Token) → Account → Option Account → Task Account
  with_program m account none = fail program_missing
  with_program m account (some p) = apply_to account (m p)

  module _ ⦃u : Uint⦄ where
    unfoldable pub apply_transfer_from : TransferInstruction → Buffer → Task Account
    unfolding get_transfer_from_account
    apply_transfer_from transfer buffer = do
      account ← get_transfer_from_account transfer.from buffer
      apply_to account
          (Apply.apply_transfer_from_instruction transfer.token transfer.amount transfer.ids)

    abbrev pub deliver : TransferInstruction → Account → Task Account
    deliver transfer account =
        get_account env transfer.token
        >>= with_currency transfer.token
            (Apply.apply_transfer_to_instruction transfer.token transfer.amount transfer.ids)
            account

    abbrev pub deliver_found : TransferInstruction → Option Account → Task Account
    deliver_found transfer (some account) = deliver transfer account
    deliver_found transfer none = elim transfer.to [
      | AddressOrNamespace.address a ↦ deliver transfer (fresh_account user a)
      | _ ↦ fail address_required
    ]

    unfoldable pub apply_transfer_to : TransferInstruction → Buffer → Task Account
    unfolding get_transfer_to_account
    apply_transfer_to transfer buffer =
        get_transfer_to_account transfer.to buffer >>= deliver_found transfer

    unfoldable pub apply_transfer_instruction :
        TransferInstruction → Buffer → Task (Account × Account)
    unfolding apply_transfer_from apply_transfer_to
    apply_transfer_instruction transfer buffer = do
      from_account ← apply_transfer_from transfer buffer
      to_account ← apply_transfer_to transfer buffer
      pure (from_account, to_account)

    unfoldable pub apply_burn_instruction : BurnInstruction → Buffer → Task Account
    unfolding get_transfer_from_account
    apply_burn_instruction burn buffer = do
      account ← get_transfer_from_account burn.from buffer
      apply_to account (Apply.apply_burn_instruction burn.token burn.amount burn.token_ids)

    abbrev pub distribute : TokenDistribution → Address → Account → Task Account
    distribute d program_id account =
        get_account env program_id
        >>= with_program
            (Apply.apply_token_distribution program_id d.amount d.token_ids d.update_fields) account

    -- a new account is the called program's for `This`, else a user's
    abbrev pub recipient_account : AddressOrNamespace → Option Account → Task Account
    recipient_account to (some account) = pure account
    recipient_account AddressOrNamespace.this none = pure (fresh_account (program tx.to) tx.from)
    recipient_account (AddressOrNamespace.address a) none = pure (fresh_account user a)
    recipient_account (AddressOrNamespace.namespace _) none = fail namespace_unsupported

    unfoldable pub apply_distribution : TokenDistribution → Buffer → Task Account
    unfolding get_transfer_to_account
    apply_distribution d buffer = elim (address_of tx d.program_id) [
      | none ↦ fail namespace_unsupported
      | some program_id ↦ do
        found ← get_transfer_to_account d.to buffer
        account ← recipient_account d.to found
        distribute d program_id account
    ]

    -- `This` must exist; a user's account is made for another address
    abbrev pub updated_account : AddressOrNamespace → Option Account → Task Account
    updated_account to (some account) = pure account
    updated_account AddressOrNamespace.this none = fail this_missing
    updated_account (AddressOrNamespace.address a) none = pure (fresh_account user a)
    updated_account (AddressOrNamespace.namespace _) none = fail namespace_unsupported

    unfoldable pub apply_token_update : TokenUpdate → Buffer → Task Account
    unfolding get_transfer_to_account
    apply_token_update update buffer = elim (address_of tx update.token) [
      | none ↦ fail namespace_unsupported
      | some program_id ↦ do
        found ← get_transfer_to_account update.account buffer
        account ← updated_account update.account found
        program_account ← get_account env program_id
        with_program (Apply.apply_token_update program_id update.updates) account program_account
    ]

    unfoldable pub apply_program_update : Program.ProgramUpdate → Buffer → Task Account
    unfolding get_transfer_to_account
    apply_program_update update buffer = do
      found ← get_transfer_to_account update.account buffer
      account ← updated_account update.account found
      apply_to account (Program.apply_program_update update)

    unfoldable pub apply_update : TokenOrProgramUpdate → Buffer → Task Account
    unfolding apply_token_update apply_program_update
    apply_update (TokenOrProgramUpdate.token_update update) buffer =
        apply_token_update update buffer
    apply_update (TokenOrProgramUpdate.program_update update) buffer =
        apply_program_update update buffer
