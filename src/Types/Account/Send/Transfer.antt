-- ===== src/Types/Account/Send/Transfer.antt =====
-- A send between two accounts, a send that its account does not cover, and a deposit.
use lasr.Base.{
  ◌+◌, ◌-◌, ◌≤◌, ◌<◌, ◌≡◌, refl, ◌≢◌, ◌⊎◌, inl, inr, true, false, Option, none, some, arith, nat_eq,
  ◌∙◌,
}
use lasr.Base.Map
use lasr.Base.Result.{Result, ok, err, panic, ◌>>=◌}
use lasr.Types.Address.{Address}
use lasr.Types.Account.{Account, balance, lift}
use lasr.Types.Account.Send.{extended, described, store_token, apply_send_transaction}
use lasr.Types.Account.Send.Laws.{
  IsKeyed, Writes, is_recipient, send_with_token, send_without_token, apply_send_transaction-Writes,
}
use lasr.Types.Error.{TypesError, owner_mismatch}
use lasr.Types.Token.{Token}
use lasr.Types.Transaction.{Transaction, is_bridge_in, token_of, try_from}
use lasr.Types.U256.{U256, u256_mod, Uint, checked_add_lem, checked_sub_lem}

-- the account holds the token of the transaction's sender, and it covers the value
abbrev pub CanPay : Transaction → Account → Type 0
CanPay tx a =
    (t : Token) × (Map.get tx.program_id a.programs ≡ some t)
    × (t.owner_id ≡ tx.from)
    × (tx.value ≤ t.balance)

-- the account holds the token of the recipient with room for the value, or is the recipient and
-- lacks the token
abbrev pub CanReceive : Transaction → Account → Type 0
CanReceive tx b =
    ((t : Token) × (Map.get tx.program_id b.programs ≡ some t)
      × (t.owner_id ≡ tx.to)
      × (t.balance + tx.value < u256_mod))
    ⊎ ((Map.get tx.program_id b.programs ≡ none) × (is_recipient tx.to b ≡ true))

pub CanPay-cover :
    (tx : Transaction) (a : Account) → CanPay tx a → tx.value ≤ balance tx.program_id a
CanPay-cover tx a (t, e, own, cover) = ground arith

abbrev pub Succeeds : Result TypesError Token → Type 0
Succeeds (ok _) = Unit
Succeeds (err _) = ⊥
Succeeds panic = ⊥

pub extended_balance : (p : Option Account) (t : Token) → (extended p t).balance ≡ t.balance
extended_balance none t = refl
extended_balance (some a) t = refl

pub described_balance : (p : Option Account) (t : Token) → (described p t).balance ≡ t.balance
described_balance none t = refl
described_balance (some a) t = refl

pub balance_of_Writes :
    (a : Account) (k : Address) (o : Result TypesError Token × Account) (t : Token) (b : U256)
    → Writes a k o
    → o.0 ≡ ok t
    → t.balance ≡ b
    → Succeeds o.0 × (balance k o.1 ≡ b)
balance_of_Writes a k (ok t', a') t b w e h = ground (arith, w.programs k)
balance_of_Writes a k (err x, a') t b w e h = cc
balance_of_Writes a k (panic, a') t b w e h = cc

-- the outcome of a replacement, given that of the conversion
replaced :
    (p : Option Account) (a : Account) (r : Result TypesError Token) (t : Token)
    → r ≡ ok t
    → ((lift r >>= store_token p) a).0 ≡ ok (extended p t)
replaced p a r t e = rw e

module _ ⦃u : Uint⦄ (p : Option Account) (tx : Transaction) where
  -- the result of a call on an account that has the token
  pub result_with_token :
      (a : Account) (token t : Token)
      → Map.get tx.program_id a.programs ≡ some token
      → (is_bridge_in tx.transaction_type ≡ true) ⊎ (tx.to ≢ tx.from)
      → try_from token tx ≡ ok t
      → (apply_send_transaction tx p a).0 ≡ ok (extended p t)
  result_with_token a token t e other h =
      ground (arith, send_with_token p tx a token e, replaced p a (try_from token tx) t h)

  try_from_sender :
      (token : Token)
      → token.owner_id ≡ tx.from
      → is_bridge_in tx.transaction_type ≡ false
      → tx.value ≤ token.balance
      → try_from token tx ≡ ok (record token { balance = token.balance - tx.value })
  unfolding try_from
  try_from_sender token e b h = ground (arith, checked_sub_lem token.balance tx.value)

  pub try_from_recipient :
      (token : Token)
      → token.owner_id ≡ tx.to
      → (is_bridge_in tx.transaction_type ≡ true) ⊎ (tx.to ≢ tx.from)
      → token.balance + tx.value < u256_mod
      → try_from token tx ≡ ok (record token { balance = token.balance + tx.value })
  unfolding try_from
  try_from_recipient token e other h = ground (arith, checked_add_lem token.balance tx.value)

  -- The sender's account pays the value.
  pub send_pays :
      (a : Account)
      → IsKeyed a
      → is_bridge_in tx.transaction_type ≡ false
      → tx.to ≢ tx.from
      → CanPay tx a
      → let (r, a') = apply_send_transaction tx p a in
        Succeeds r × (balance tx.program_id a' ≡ balance tx.program_id a - tx.value)
  send_pays a keyed b ne (t, e, own, cover) =
      let t' : Token = record t { balance = t.balance - tx.value } in
      balance_of_Writes a tx.program_id (apply_send_transaction tx p a) (extended p t') _
        (apply_send_transaction-Writes p tx a keyed)
        (result_with_token a t t' e (inr ne) (try_from_sender t own b cover))
        (extended_balance p t' ∙ ground arith)

  -- The recipient's account gains the value.
  pub send_receives :
      (a : Account)
      → IsKeyed a
      → is_bridge_in tx.transaction_type ≡ false
      → tx.to ≢ tx.from
      → CanReceive tx a
      → let (r, a') = apply_send_transaction tx p a in
        Succeeds r × (balance tx.program_id a' ≡ balance tx.program_id a + tx.value)
  send_receives a keyed b ne (inl (t, e, own, room)) =
      let t' : Token = record t { balance = t.balance + tx.value } in
      balance_of_Writes a tx.program_id (apply_send_transaction tx p a) (extended p t') _
        (apply_send_transaction-Writes p tx a keyed)
        (result_with_token a t t' e (inr ne) (try_from_recipient t own (inr ne) room))
        (extended_balance p t' ∙ ground arith)
  send_receives a keyed b ne (inr (e, rec)) =
      balance_of_Writes a tx.program_id (apply_send_transaction tx p a) (described p (token_of tx))
        _ (apply_send_transaction-Writes p tx a keyed) (ground (arith, send_without_token p tx a e))
        (described_balance p (token_of tx) ∙ ground arith)

  -- A send, no deposit, between two different addresses, on an account with the sender's token and
  -- less than the value: it panics, and changes nothing.
  pub send_overdraft :
      (a : Account) (t : Token)
      → Map.get tx.program_id a.programs ≡ some t
      → t.owner_id ≡ tx.from
      → is_bridge_in tx.transaction_type ≡ false
      → tx.to ≢ tx.from
      → t.balance < tx.value
      → apply_send_transaction tx p a ≡ (panic, a)
  unfolding try_from
  send_overdraft a t e own b ne short =
      ground (arith, send_with_token p tx a t e, checked_sub_lem t.balance tx.value)

  -- A transaction that is a deposit or between two different addresses, on an account whose token
  -- has an owner that is neither of them: it fails with the error of the owner, and changes
  -- nothing.
  pub send_stranger :
      (a : Account) (t : Token)
      → Map.get tx.program_id a.programs ≡ some t
      → tx.from ≢ t.owner_id
      → tx.to ≢ t.owner_id
      → (is_bridge_in tx.transaction_type ≡ true) ⊎ (tx.to ≢ tx.from)
      → apply_send_transaction tx p a ≡ (err owner_mismatch, a)
  unfolding try_from
  send_stranger a t e f g other = ground (arith, send_with_token p tx a t e)

module _ ⦃u : Uint⦄ (tx : Transaction) (a b : Account) (p q : Option Account) where
  -- A send, no deposit, between two different addresses, of two accounts whose tokens stand under
  -- their own programs, the one holding the sender's token with enough and the other able to
  -- receive: it succeeds on both, takes the value from the one balance and adds it to the other,
  -- and keeps their sum.
  pub send-conserves :
      IsKeyed a
      → IsKeyed b
      → is_bridge_in tx.transaction_type ≡ false
      → tx.to ≢ tx.from
      → CanPay tx a
      → CanReceive tx b
      → let (r, a') = apply_send_transaction tx p a in
        let (s, b') = apply_send_transaction tx q b in
        Succeeds r
        × Succeeds s
        × (balance tx.program_id a' + tx.value ≡ balance tx.program_id a)
        × (balance tx.program_id b' ≡ balance tx.program_id b + tx.value)
        × (balance tx.program_id a' + balance tx.program_id b'
            ≡ balance tx.program_id a + balance tx.program_id b)
  send-conserves ka kb nb ne pay receive =
      let (ra, ea) = send_pays p tx a ka nb ne pay in
      let (rb, eb) = send_receives q tx b kb nb ne receive in
      let cover : tx.value ≤ balance tx.program_id a = CanPay-cover tx a pay in
      (ra, rb, omega (arith, ea, cover), eb, omega (arith, ea, eb, cover))
