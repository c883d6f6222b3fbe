-- ===== src/Actors/Batcher/Instructions/Reading.antt =====
-- The application of an instruction only reads the world: what it changes is the buffer.
use lasr.Base.{◌≡◌, refl, ap, ◌∙◌, inl, inr, ◌||◌, Option, none, some, ◌==◌, nat_eq, Bool-cases}
use lasr.Base.Map
use lasr.Base.Result.{Result, ok, err, panic}
use lasr.Types.Address.{Address, eth_addr, verse_addr}
use lasr.Types.Error.{TypesError}
use lasr.Types.Account.{Account, AccountMethod, AddressOrNamespace, user}
use lasr.Types.Account.Apply
use lasr.Types.Account.Program
use lasr.Types.Instruction.{
  TransferInstruction, BurnInstruction, TokenDistribution, TokenUpdate, TokenOrProgramUpdate,
}
use lasr.Types.Token.{Token}
use lasr.Types.Transaction.{Transaction}
use lasr.Types.U256.{Uint}
use lasr.Actors.Batcher.World.{
  Env, World, Task, BatcherError, ended, and_then, ◌>>=◌, pure, fail, or_fail, outcome, types_error,
  get_account, find_account, fresh_account,
}
use lasr.Actors.Batcher.Instructions.{
  Buffer, address_of, apply_to, buffered, get_transfer_from_account, get_transfer_to_account,
  with_currency, with_program, apply_transfer_from, deliver, deliver_found, apply_transfer_to,
  apply_transfer_instruction, apply_burn_instruction, distribute, recipient_account,
  apply_distribution, updated_account, apply_token_update, apply_program_update, apply_update,
}

-- In every world the task ends, and leaves the world as it is.
abbrev pub IsReading : {A : Type 0} → Task A → Type 0
IsReading {A = A} t = (w : World) → (r : Result BatcherError A) × (t w ≡ ended r w)

pub pure-IsReading : {A : Type 0} (a : A) → IsReading (pure a)
pure-IsReading a w = (ok a, refl)

pub fail-IsReading : {A : Type 0} (e : BatcherError) → IsReading (fail {A = A} e)
fail-IsReading e w = (err e, refl)

pub or_fail-IsReading : {A : Type 0} (e : BatcherError) (o : Option A) → IsReading (or_fail e o)
or_fail-IsReading e none w = (err e, refl)
or_fail-IsReading e (some a) w = (ok a, refl)

pub get_account-IsReading : (env : Env) (a : Address) → IsReading (get_account env a)
get_account-IsReading env a w = (ok (find_account env a w), refl)

bind_result :
    {A B : Type 0} (f : A → Task B) (w : World) (r : Result BatcherError A)
    → ((a : A) → IsReading (f a))
    → (r' : Result BatcherError B) × (and_then f (ended r w) ≡ ended r' w)
bind_result f w (ok a) reads = reads a w
bind_result f w (err e) reads = (err e, refl)
bind_result f w panic reads = (panic, refl)

pub bind-IsReading :
    {A B : Type 0} (m : Task A) (f : A → Task B)
    → IsReading m
    → ((a : A) → IsReading (f a))
    → IsReading (m >>= f)
bind-IsReading m f first later w =
    let (r, e) = first w in let (r', e') = bind_result f w r later in (r', ap (and_then f) e ∙ e')

outcome-IsReading :
    {A : Type 0} (o : Result TypesError A × Account) (w : World)
    → (r : Result BatcherError Account) × (and_then (λ x. pure x.1) (outcome o w) ≡ ended r w)
outcome-IsReading (ok a, account) w = (ok account, refl)
outcome-IsReading (err e, account) w = (err (types_error e), refl)
outcome-IsReading (panic, account) w = (panic, refl)

apply_to-IsReading :
    {A : Type 0} (account : Account) (m : AccountMethod A) → IsReading (apply_to account m)
apply_to-IsReading account m w = outcome-IsReading (m account) w

module _ (env : Env) (tx : Transaction) where
  buffered_result :
      (buffer : Buffer) (a : Address) (o : Option Account)
      → Map.get a buffer ≡ o
      → IsReading (buffered env tx buffer a)
  buffered_result buffer a none e w = rw (e, buffered) (ok (find_account env a w), refl)
  buffered_result buffer a (some account) e w = rw (e, buffered) (ok (some account), refl)

  pub buffered-IsReading : (buffer : Buffer) (a : Address) → IsReading (buffered env tx buffer a)
  buffered-IsReading buffer a = buffered_result buffer a (Map.get a buffer) refl

  get_transfer_from_account-IsReading :
      (from : AddressOrNamespace) (buffer : Buffer)
      → IsReading (get_transfer_from_account env tx from buffer)
  unfolding get_transfer_from_account
  get_transfer_from_account-IsReading AddressOrNamespace.this buffer =
      bind-IsReading (buffered env tx buffer tx.to) _ (buffered-IsReading buffer tx.to)
        (or_fail-IsReading _)
  get_transfer_from_account-IsReading (AddressOrNamespace.address a) buffer =
      bind-IsReading (buffered env tx buffer a) _ (buffered-IsReading buffer a)
        (or_fail-IsReading _)
  get_transfer_from_account-IsReading (AddressOrNamespace.namespace _) buffer = fail-IsReading _

  get_transfer_to_account-IsReading :
      (to : AddressOrNamespace) (buffer : Buffer)
      → IsReading (get_transfer_to_account env tx to buffer)
  unfolding get_transfer_to_account
  get_transfer_to_account-IsReading AddressOrNamespace.this buffer = buffered-IsReading buffer tx.to
  get_transfer_to_account-IsReading (AddressOrNamespace.address a) buffer =
      buffered-IsReading buffer a
  get_transfer_to_account-IsReading (AddressOrNamespace.namespace _) buffer = pure-IsReading none

  with_program-IsReading :
      (m : Account → AccountMethod Token) (account : Account) (p : Option Account)
      → IsReading (with_program env tx m account p)
  with_program-IsReading m account none = fail-IsReading _
  with_program-IsReading m account (some p) = apply_to-IsReading account (m p)

  with_currency-IsReading :
      (token : Address) (m : Option Account → AccountMethod Token) (account : Account)
      (p : Option Account)
      → IsReading (with_currency env tx token m account p)
  with_currency-IsReading token m account (some p) w = apply_to-IsReading account (m (some p)) w
  with_currency-IsReading token m account none w =
      elim (Bool-cases (token == eth_addr || token == verse_addr)) [
        | inl e ↦ rw e (apply_to-IsReading account (m none) w)
        | inr e ↦ rw e (err _, refl)
      ]

  module _ ⦃u : Uint⦄ where
    apply_transfer_from-IsReading :
        (transfer : TransferInstruction) (buffer : Buffer)
        → IsReading (apply_transfer_from env tx transfer buffer)
    unfolding apply_transfer_from
    apply_transfer_from-IsReading transfer buffer =
        bind-IsReading (get_transfer_from_account env tx transfer.from buffer) _
          (get_transfer_from_account-IsReading transfer.from buffer)
          (λ account.
            apply_to-IsReading account
              (Apply.apply_transfer_from_instruction transfer.token transfer.amount transfer.ids))

    deliver-IsReading :
        (transfer : TransferInstruction) (account : Account)
        → IsReading (deliver env tx transfer account)
    deliver-IsReading transfer account =
        bind-IsReading (get_account env transfer.token) _ (get_account-IsReading env transfer.token)
          (with_currency-IsReading transfer.token
            (Apply.apply_transfer_to_instruction transfer.token transfer.amount transfer.ids)
            account)

    deliver_fresh-IsReading :
        (transfer : TransferInstruction) (to : AddressOrNamespace)
        → transfer.to ≡ to
        → IsReading (deliver_found env tx transfer none)
    deliver_fresh-IsReading transfer AddressOrNamespace.this e w =
        rw (e, deliver_found) (err _, refl)
    deliver_fresh-IsReading transfer (AddressOrNamespace.address a) e w =
        rw (e, deliver_found) (deliver-IsReading transfer (fresh_account user a) w)
    deliver_fresh-IsReading transfer (AddressOrNamespace.namespace s) e w =
        rw (e, deliver_found) (err _, refl)

    deliver_found-IsReading :
        (transfer : TransferInstruction) (found : Option Account)
        → IsReading (deliver_found env tx transfer found)
    deliver_found-IsReading transfer none = deliver_fresh-IsReading transfer transfer.to refl
    deliver_found-IsReading transfer (some account) = deliver-IsReading transfer account

    apply_transfer_to-IsReading :
        (transfer : TransferInstruction) (buffer : Buffer)
        → IsReading (apply_transfer_to env tx transfer buffer)
    unfolding apply_transfer_to
    apply_transfer_to-IsReading transfer buffer =
        bind-IsReading (get_transfer_to_account env tx transfer.to buffer) _
          (get_transfer_to_account-IsReading transfer.to buffer) (deliver_found-IsReading transfer)

    pub apply_transfer_instruction-IsReading :
        (transfer : TransferInstruction) (buffer : Buffer)
        → IsReading (apply_transfer_instruction env tx transfer buffer)
    unfolding apply_transfer_instruction
    apply_transfer_instruction-IsReading transfer buffer =
        bind-IsReading (apply_transfer_from env tx transfer buffer) _
          (apply_transfer_from-IsReading transfer buffer)
          (λ from_account.
            bind-IsReading (apply_transfer_to env tx transfer buffer) _
              (apply_transfer_to-IsReading transfer buffer)
              (λ to_account. pure-IsReading (from_account, to_account)))

    pub apply_burn_instruction-IsReading :
        (burn : BurnInstruction) (buffer : Buffer)
        → IsReading (apply_burn_instruction env tx burn buffer)
    unfolding apply_burn_instruction
    apply_burn_instruction-IsReading burn buffer =
        bind-IsReading (get_transfer_from_account env tx burn.from buffer) _
          (get_transfer_from_account-IsReading burn.from buffer)
          (λ account.
            apply_to-IsReading account
              (Apply.apply_burn_instruction burn.token burn.amount burn.token_ids))

    recipient_account-IsReading :
        (to : AddressOrNamespace) (o : Option Account) → IsReading (recipient_account env tx to o)
    recipient_account-IsReading to (some account) = pure-IsReading account
    recipient_account-IsReading AddressOrNamespace.this none = pure-IsReading _
    recipient_account-IsReading (AddressOrNamespace.address a) none = pure-IsReading _
    recipient_account-IsReading (AddressOrNamespace.namespace _) none = fail-IsReading _

    updated_account-IsReading :
        (to : AddressOrNamespace) (o : Option Account) → IsReading (updated_account env tx to o)
    updated_account-IsReading to (some account) = pure-IsReading account
    updated_account-IsReading AddressOrNamespace.this none = fail-IsReading _
    updated_account-IsReading (AddressOrNamespace.address a) none = pure-IsReading _
    updated_account-IsReading (AddressOrNamespace.namespace _) none = fail-IsReading _

    distribute-IsReading :
        (d : TokenDistribution) (program_id : Address) (account : Account)
        → IsReading (distribute env tx d program_id account)
    distribute-IsReading d program_id account =
        bind-IsReading (get_account env program_id) _ (get_account-IsReading env program_id) (
          with_program-IsReading
            (Apply.apply_token_distribution program_id d.amount d.token_ids d.update_fields)
            account)

    -- the cases of the program that a distribution or an update names
    located_result :
        (t : Option Address) (none_case : Task Account) (some_case : Address → Task Account)
        → IsReading none_case
        → ((a : Address) → IsReading (some_case a))
        → IsReading (elim t as (λ _. Task Account) [ none ↦ none_case | some a ↦ some_case a ])
    located_result none n s hn hs = hn
    located_result (some a) n s hn hs = hs a

    pub apply_distribution-IsReading :
        (d : TokenDistribution) (buffer : Buffer) → IsReading (apply_distribution env tx d buffer)
    unfolding apply_distribution
    apply_distribution-IsReading d buffer =
        located_result (address_of tx d.program_id) _ _ (fail-IsReading _) (λ program_id.
          bind-IsReading (get_transfer_to_account env tx d.to buffer) _
            (get_transfer_to_account-IsReading d.to buffer)
            (λ found.
              bind-IsReading (recipient_account env tx d.to found) _
                (recipient_account-IsReading d.to found) (distribute-IsReading d program_id)))

    apply_token_update-IsReading :
        (update : TokenUpdate) (buffer : Buffer)
        → IsReading (apply_token_update env tx update buffer)
    unfolding apply_token_update
    apply_token_update-IsReading update buffer =
        located_result (address_of tx update.token) _ _ (fail-IsReading _) (λ program_id.
          bind-IsReading (get_transfer_to_account env tx update.account buffer) _
            (get_transfer_to_account-IsReading update.account buffer)
            (λ found.
              bind-IsReading (updated_account env tx update.account found) _
                (updated_account-IsReading update.account found)
                (λ account.
                  bind-IsReading (get_account env program_id) _
                    (get_account-IsReading env program_id)
                    (with_program-IsReading (Apply.apply_token_update program_id update.updates)
                      account))))

    apply_program_update-IsReading :
        (update : Program.ProgramUpdate) (buffer : Buffer)
        → IsReading (apply_program_update env tx update buffer)
    unfolding apply_program_update
    apply_program_update-IsReading update buffer =
        bind-IsReading (get_transfer_to_account env tx update.account buffer) _
          (get_transfer_to_account-IsReading update.account buffer)
          (λ found.
            bind-IsReading (updated_account env tx update.account found) _
              (updated_account-IsReading update.account found)
              (λ account. apply_to-IsReading account (Program.apply_program_update update)))

    pub apply_update-IsReading :
        (update : TokenOrProgramUpdate) (buffer : Buffer)
        → IsReading (apply_update env tx update buffer)
    unfolding apply_update
    apply_update-IsReading (TokenOrProgramUpdate.token_update update) buffer =
        apply_token_update-IsReading update buffer
    apply_update-IsReading (TokenOrProgramUpdate.program_update update) buffer =
        apply_program_update-IsReading update buffer
