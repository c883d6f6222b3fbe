-- ===== src/Types/Account/Send/Deposits.antt =====
-- `apply_send_transaction` of crates/types/src/account.rs for a deposit from the base chain.
use lasr.Base.{◌+◌, ◌<◌, ◌≡◌, ◌∙◌, ◌⊎◌, inl, inr, arith, true, Option, none, some, nat_eq}
use lasr.Base.Map
use lasr.Types.Account.{Account, balance}
use lasr.Types.Account.Send.{apply_send_transaction, described, extended}
use lasr.Types.Account.Send.Laws.{IsKeyed, apply_send_transaction-Writes, send_without_token}
use lasr.Types.Account.Send.Transfer.{
  Succeeds, extended_balance, described_balance, balance_of_Writes, result_with_token,
  try_from_recipient,
}
use lasr.Types.Token.{Token}
use lasr.Types.Transaction.{Transaction, is_bridge_in, token_of}
use lasr.Types.U256.{u256_mod, Uint}

-- the account has no such token yet, or its owner's with room for the value
abbrev pub CanDeposit : Transaction → Account → Type 0
CanDeposit tx a =
    ((t : Token) × (Map.get tx.program_id a.programs ≡ some t)
      × (t.owner_id ≡ tx.to)
      × (t.balance + tx.value < u256_mod))
    ⊎ (Map.get tx.program_id a.programs ≡ none)

pub deposit_credits :
    ⦃u : Uint⦄ (p : Option Account) (tx : Transaction) (a : Account)
    → IsKeyed a
    → is_bridge_in tx.transaction_type ≡ true
    → CanDeposit tx a
    → let (r, a') = apply_send_transaction tx p a in
      Succeeds r × (balance tx.program_id a' ≡ balance tx.program_id a + tx.value)
deposit_credits p tx a keyed b (inl (t, e, own, room)) =
    let t' : Token = record t { balance = t.balance + tx.value } in
    balance_of_Writes a tx.program_id (apply_send_transaction tx p a) (extended p t') _
      (apply_send_transaction-Writes p tx a keyed)
      (result_with_token p tx a t t' e (inl b) (try_from_recipient p tx t own (inl b) room))
      (extended_balance p t' ∙ ground arith)
deposit_credits p tx a keyed b (inr e) =
    balance_of_Writes a tx.program_id (apply_send_transaction tx p a) (described none (token_of tx))
      _ (apply_send_transaction-Writes p tx a keyed) (ground (arith, send_without_token p tx a e))
      (described_balance none (token_of tx) ∙ ground arith)
