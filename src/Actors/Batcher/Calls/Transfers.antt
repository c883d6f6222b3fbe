-- ===== src/Actors/Batcher/Calls/Transfers.antt =====
-- What a transfer instruction does to the buffer: between two accounts, and from an account to
-- itself.
use lasr.Base.{
  ◌+◌, ◌<◌, ◌≡◌, ◌≢◌, ap, ◌∙◌, ◌⊎◌, inl, inr, arith, true, ◌||◌, Option, none, some, ◌==◌, nat_eq,
}
use lasr.Base.Map
use lasr.Base.Map.{get-insert, get-insert_self}
use lasr.Base.Result.{ok}
use lasr.Types.Address.{Address, eth_addr, verse_addr}
use lasr.Types.Account.{Account, balance, token_owner}
use lasr.Types.Account.Apply
use lasr.Types.Account.Apply.Laws.{amount_of}
use lasr.Types.Account.Apply.Transfers.{
  Covers, transfer_from_takes, transfer_to_gives, transfer_from-located, transfer_to-located,
}
use lasr.Types.Instruction.{Instruction, TransferInstruction}
use lasr.Types.Token.{Token}
use lasr.Types.Transaction.{Transaction}
use lasr.Types.U256.{U256, u256_mod, Uint}
use lasr.Actors.Batcher.World.{Env, World, ended, outcome, and_then, pure, find_account}
use lasr.Actors.Batcher.Instructions.{
  Buffer, address_of, buffered, get_transfer_from_account, get_transfer_to_account, with_currency,
  apply_transfer_from, apply_transfer_to, apply_transfer_instruction,
}
use lasr.Actors.Batcher.Calls.{apply_instruction}

-- the account that an instruction sees at an address: the buffer's, else the cache's
abbrev or_found : Option Account → Option Account → Option Account
or_found (some a) o = some a
or_found none o = o

abbrev pub seen : Env → World → Buffer → Address → Option Account
seen env w buffer a = or_found (Map.get a buffer) (find_account env a w)

abbrev balance_in : Address → Option Account → U256
balance_in k none = 0
balance_in k (some a) = balance k a

abbrev pub balance_seen : Env → World → Buffer → Address → Address → U256
balance_seen env w buffer k a = balance_in k (seen env w buffer a)

-- the program is one of the two currencies, or has an account
abbrev pub IsToken : Env → World → Address → Type 0
IsToken env w token =
    ((p : Account) × (find_account env token w ≡ some p))
    ⊎ ((token == eth_addr || token == verse_addr) ≡ true)

-- A transfer between two accounts that the batcher sees, of what the one covers and the other has
-- room for.
pub record CanTransfer (env : Env) (tx : Transaction) (w : World) (buffer : Buffer)
    (t : TransferInstruction) (x y : Address) (a b : Account) : Type 0 where
  pub from_address : address_of tx t.from ≡ some x
  pub to_address : address_of tx t.to ≡ some y
  pub from_seen : seen env w buffer x ≡ some a
  pub to_seen : seen env w buffer y ≡ some b
  pub from_located : token_owner a ≡ x
  pub to_located : token_owner b ≡ y
  pub covers : Covers t.token t.amount t.ids a
  pub fits : balance t.token b + amount_of t.amount < u256_mod
  pub known : IsToken env w t.token

module _ (env : Env) (tx : Transaction) (w : World) where
  buffered_lem :
      (buffer : Buffer) (a : Address)
      → buffered env tx buffer a w ≡ ended (ok (seen env w buffer a)) w
  buffered_lem buffer a = ground arith

  from_lem :
      (from : _) (buffer : Buffer) (x : Address) (a : Account)
      → address_of tx from ≡ some x
      → seen env w buffer x ≡ some a
      → get_transfer_from_account env tx from buffer w ≡ ended (ok a) w
  unfolding get_transfer_from_account
  from_lem from buffer x a e at = ground (arith, buffered_lem buffer x)

  -- the two accounts after the transfer
  abbrev debited : ⦃u : Uint⦄ → TransferInstruction → Account → Account
  debited t a = (Apply.apply_transfer_from_instruction t.token t.amount t.ids a).1

  abbrev credited : ⦃u : Uint⦄ → TransferInstruction → Account → Account
  credited t b =
      (Apply.apply_transfer_to_instruction t.token t.amount t.ids (find_account env t.token w) b).1

  module _ ⦃u : Uint⦄ (buffer : Buffer) (t : TransferInstruction) (x y : Address) (a b : Account)
      (c : CanTransfer env tx w buffer t x y a b) where
    debit_task : apply_transfer_from env tx t buffer w ≡ ended (ok (debited t a)) w
    unfolding apply_transfer_from
    debit_task =
        let ((tok, e, _), _, _) = transfer_from_takes t.token t.amount t.ids a 0 c.covers in
        ground (arith, from_lem t.from buffer x a c.from_address c.from_seen, e)

    with_currency_lem :
        (p : Option Account) (b' : Account) (tok : Token)
        → ((q : Account) × (p ≡ some q)) ⊎ ((t.token == eth_addr || t.token == verse_addr) ≡ true)
        → Apply.apply_transfer_to_instruction t.token t.amount t.ids p b ≡ (ok tok, b')
        → with_currency env tx t.token
            (Apply.apply_transfer_to_instruction t.token t.amount t.ids)
            b
            p
            w
          ≡ ended (ok b') w
    with_currency_lem (some q) b' tok known e = ap (λ o. and_then (λ x. pure x.1) (outcome o w)) e
    with_currency_lem none b' tok (inl (q, absent)) e = cc
    with_currency_lem none b' tok (inr known) e =
        rw known (ap (λ o. and_then (λ x. pure x.1) (outcome o w)) e)

    credit_task : apply_transfer_to env tx t buffer w ≡ ended (ok (credited t b)) w
    unfolding apply_transfer_to get_transfer_to_account
    credit_task =
        let p = find_account env t.token w in
        let ((tok, e, _), _, _) = transfer_to_gives t.token t.amount t.ids p b 0 c.fits in
        let e' : Apply.apply_transfer_to_instruction t.token t.amount t.ids p b
            ≡ (ok tok, credited t b) =
          ap (λ r. (r, credited t b)) e in
        ground (
          arith,
          c.to_address,
          buffered_lem buffer y,
          c.to_seen,
          with_currency_lem p (credited t b) tok c.known e',
        )

    pair_task :
        apply_transfer_instruction env tx t buffer w ≡ ended (ok (debited t a, credited t b)) w
    unfolding apply_transfer_instruction
    pair_task = ground (arith, debit_task, credit_task)

    -- the buffer after the instruction, the recipient's account written last
    transfer_lem :
        apply_instruction env tx (Instruction.transfer t) buffer w
        ≡ ended (ok (Map.insert y (credited t b) (Map.insert x (debited t a) buffer))) w
    unfolding apply_instruction
    transfer_lem = ground (
      arith,
      pair_task,
      transfer_from-located t.token t.amount t.ids a c.covers,
      transfer_to-located t.token t.amount t.ids (find_account env t.token w) b c.fits,
      c.from_located,
      c.to_located,
    )

    -- A transfer instruction between two different addresses, each with an account that the batcher
    -- sees under its own address, where the one covers the amount and the ids, the other has room
    -- and the token is known: it succeeds, and leaves a buffer in which the amount has moved from
    -- the one balance to the other.
    pub transfer_conserves_seen :
        x ≢ y
        → (buffer' : Buffer) × (apply_instruction env tx (Instruction.transfer t) buffer w
            ≡ ended (ok buffer') w)
          × (balance_seen env w buffer' t.token x + amount_of t.amount
              ≡ balance_seen env w buffer t.token x)
          × (balance_seen env w buffer' t.token y
              ≡ balance_seen env w buffer t.token y + amount_of t.amount)
    transfer_conserves_seen ne =
        let (_, ea, _) = transfer_from_takes t.token t.amount t.ids a 0 c.covers in
        let (_, eb, _) =
          transfer_to_gives t.token t.amount t.ids (find_account env t.token w) b 0 c.fits in
        let inner = Map.insert x (debited t a) buffer in
        let buffer' = Map.insert y (credited t b) inner in
        let at_x : Map.get x buffer' ≡ some (debited t a) = ground (
          arith,
          get-insert x y (credited t b) inner,
          get-insert_self x (debited t a) buffer,
          nat_eq.beq_iff x y,
        ) in
        let at_y : Map.get y buffer' ≡ some (credited t b) =
          get-insert_self y (credited t b) inner in
        (buffer', transfer_lem, rw (at_x, c.from_seen) ea, rw (at_y, c.to_seen) eb)

    -- A transfer instruction from an address to itself, with an account that the batcher sees under
    -- its own address, which covers the amount and the ids and has room for the amount once more,
    -- of a known token: it succeeds, and leaves a buffer in which the balance at the address has
    -- grown by the amount.
    pub transfer_to_self :
        x ≡ y
        → (buffer' : Buffer) × (apply_instruction env tx (Instruction.transfer t) buffer w
            ≡ ended (ok buffer') w)
          × (balance_seen env w buffer' t.token x
              ≡ balance_seen env w buffer t.token x + amount_of t.amount)
    transfer_to_self same =
        let (_, eb, _) =
          transfer_to_gives t.token t.amount t.ids (find_account env t.token w) b 0 c.fits in
        let inner = Map.insert x (debited t a) buffer in
        let buffer' = Map.insert y (credited t b) inner in
        let at_x : Map.get x buffer' ≡ some (credited t b) =
          ground (arith, get-insert_self y (credited t b) inner) in
        let seen_x : seen env w buffer x ≡ some b = ap (seen env w buffer) same ∙ c.to_seen in
        (buffer', transfer_lem, rw (at_x, seen_x) eb)
