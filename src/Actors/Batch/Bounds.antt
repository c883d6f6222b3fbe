-- ===== src/Actors/Batch/Bounds.antt =====
-- The bound on the size of a batch, and what an insertion keeps.
use lasr.Base.{
  ℕ, ◌<◌, ◌≡◌, refl, subst, inl, inr, arith, String, Bool, true, false, none, some, ◌==◌,
  if◌then◌else◌, Option-cases, nat_eq, string_eq,
}
use lasr.Base.Map.{get-insert}
use lasr.Types.Address.{Address}
use lasr.Types.Account.{Account, user, token_owner}
use lasr.Types.Transaction.{Transaction}
use lasr.Actors.Messages.{Hasher}
use lasr.Actors.Batch.{
  Batch, Encoder, at_capacity, has_room, with_transaction, capacity, insert_transaction,
  insert_account, get_user_account, get_transaction, with_account,
}

module _ ⦃c : Encoder⦄ where
  -- The encoded batch is shorter than the bound.
  abbrev pub IsWithin : Batch → Type 0
  IsWithin b = (n : ℕ) × (c.encoded_length b ≡ some n) × (n < capacity)

  room-IsWithin : (b : Batch) → has_room (at_capacity b) ≡ true → IsWithin b
  room-IsWithin b e = elim (Option-cases (c.encoded_length b)) [
    | inl n ↦ ground arith
    | inr (n, at) ↦ (n, at, ground arith)
  ]

  tested :
      {B : Type 0} (test : Bool) (x b' : B)
      → (if test then some x else none) ≡ some b'
      → (test ≡ true) × (x ≡ b')
  tested true x b' e = (refl, cc)
  tested false x b' e = cc

  -- A batch that took a transaction has an encoding below the bound, holds the transaction under its
  -- hash and the others as before, and has the same accounts.
  pub insert_transaction-IsWithin :
      ⦃h : Hasher⦄ (tx : Transaction) (b b' : Batch) (id : String)
      → insert_transaction tx b ≡ some b'
      → IsWithin b'
        × (get_transaction id b'
            ≡ (if id == h.hash_string tx then some tx else get_transaction id b))
        × (b'.accounts ≡ b.accounts)
  unfolding insert_transaction
  insert_transaction-IsWithin ⦃h⦄ tx b b' id e =
      let (room, same) =
        tested (has_room (at_capacity (with_transaction tx b))) (with_transaction tx b) b' e in
      subst
        (λ x.
          IsWithin x
          × (get_transaction id x
              ≡ (if id == h.hash_string tx then some tx else get_transaction id b))
          × (x.accounts ≡ b.accounts))
        same
        (
          room-IsWithin (with_transaction tx b) room,
          get-insert id (h.hash_string tx) tx b.transactions,
          refl,
        )

  -- A batch that took a user's account has an encoding below the bound, holds the account under its
  -- owner's address and the others as before, and has the same transactions.
  pub insert_account-IsWithin :
      (account : Account) (b b' : Batch) (a : Address)
      → account.account_type ≡ user
      → insert_account account b ≡ some b'
      → IsWithin b'
        × (get_user_account a b'
            ≡ (if a == account.owner_address then some account else get_user_account a b))
        × (b'.transactions ≡ b.transactions)
  unfolding insert_account
  insert_account-IsWithin account b b' a is_user e =
      let key = account.owner_address in
      let (room, same) =
        tested (has_room (at_capacity (with_account key account b)))
          (with_account (token_owner account) account b) b' e in
      let user_key : with_account key account b ≡ b' = ground (arith, same) in
      subst
        (λ x.
          IsWithin x
          × (get_user_account a x ≡ (if a == key then some account else get_user_account a b))
          × (x.transactions ≡ b.transactions))
        user_key
        (room-IsWithin (with_account key account b) room, get-insert a key account b.accounts, refl)
