-- ===== src/Types/Account/Send/Laws.antt =====
-- What `apply_send_transaction` does to one account, on every branch.
use lasr.Base.{
  ◌≡◌, refl, inl, inr, Bool, false, Option, none, some, arith, ◌==◌, if◌then◌else◌, nat_eq,
  Option-cases, Bool-cases, ◌∙◌, ◌||◌,
}
use lasr.Base.Map
use lasr.Base.Map.{get-insert, Map}
use lasr.Base.Result.{Result, ok, err, panic, ◌>>=◌}
use lasr.Types.Address.{Address}
use lasr.Types.Account.{lift, Account, user, program}
use lasr.Types.Account.Send.{
  extended, store_token, insert_new, replace_token, apply_bridge_in, receive_new,
  apply_send_transaction,
}
use lasr.Types.Error.{TypesError, not_convertible, self_send_without_token}
use lasr.Types.Token.{Token}
use lasr.Types.Transaction.{Transaction, is_bridge_in, try_from}
use lasr.Types.U256.{Uint}

-- the account that the transaction pays: by its owner, or by its own address for a program
abbrev pub is_recipient : Address → Account → Bool
is_recipient addr a =
    addr == a.owner_address || elim a.account_type [ user ↦ false | program p ↦ addr == p ]

-- Each token stands under its own program.
abbrev pub IsKeyed : Account → Type 0
IsKeyed a = (k : Address) (t : Token) → Map.get k a.programs ≡ some t → t.program_id ≡ k

-- `a'` is `a` with the token `t` under the program `k`.
pub record Holds (a : Account) (k : Address) (t : Token) (a' : Account) : Type 0 where
  pub program_id : t.program_id ≡ k
  pub programs :
      (j : Address) → Map.get j a'.programs ≡ (if j == k then some t else Map.get j a.programs)
  pub nonce : a'.nonce ≡ a.nonce
  pub account_type : a'.account_type ≡ a.account_type
  pub owner_address : a'.owner_address ≡ a.owner_address

-- What a call has done that began at `a`: it wrote the token that it returns, under the program
-- `k`, and nothing else; or it failed and wrote nothing.
abbrev pub Writes : Account → Address → Result TypesError Token × Account → Type 0
Writes a k (ok t, a') = Holds a k t a'
Writes a k (err _, a') = a' ≡ a
Writes a k (panic, a') = a' ≡ a

insert-Writes :
    (a : Account) (k : Address) (t : Token)
    → t.program_id ≡ k
    → Writes a k (ok t, record a { programs = Map.insert t.program_id t a.programs })
insert-Writes a k t e = record {
  program_id = e;
  programs = λ j. ground (arith, get-insert j t.program_id t a.programs);
  nonce = refl;
  account_type = refl;
  owner_address = refl;
}

pub IsKeyed-of_Writes :
    (a : Account) (k : Address) (o : Result TypesError Token × Account)
    → IsKeyed a
    → Writes a k o
    → IsKeyed o.1
IsKeyed-of_Writes a k (ok t, a') keyed w = λ j t' e. ground (arith, w.programs j, keyed j t')
IsKeyed-of_Writes a k (err x, a') keyed w = rw w keyed
IsKeyed-of_Writes a k (panic, a') keyed w = rw w keyed

module _ (program_account : Option Account) (tx : Transaction) (a : Account) where
  insert_new-Writes : Writes a tx.program_id (insert_new program_account tx a)
  insert_new-Writes = elim program_account as (λ p. Writes a tx.program_id (insert_new p tx a)) [
    | none ↦ insert-Writes a tx.program_id _ refl
    | some p ↦ insert-Writes a tx.program_id _ refl
  ]

-- the end of a replacement, for any result of the conversion
replaced-Writes :
    (program_account : Option Account) (a : Account) (k : Address) (r : Result TypesError Token)
    → ((t : Token) → r ≡ ok t → t.program_id ≡ k)
    → Writes a k ((lift r >>= store_token program_account) a)
replaced-Writes none a k (ok t) h = insert-Writes a k t (h t refl)
replaced-Writes (some p) a k (ok t) h = insert-Writes a k (extended (some p) t) (h t refl)
replaced-Writes _ a k (err e) h = refl
replaced-Writes _ a k panic h = refl

module _ ⦃u : Uint⦄ where
  try_from_program :
      (token : Token) (tx : Transaction) (t : Token)
      → try_from token tx ≡ ok t
      → t.program_id ≡ token.program_id
  unfolding try_from
  try_from_program token tx t e = ground arith

  module _ (program_account : Option Account) (tx : Transaction) (a : Account) where
    replace_token-Writes :
        (token : Token)
        → token.program_id ≡ tx.program_id
        → Writes a tx.program_id (replace_token program_account tx token a)
    replace_token-Writes token e =
        replaced-Writes program_account a tx.program_id (try_from token tx)
          (λ t h. try_from_program token tx t h ∙ e)

    apply_bridge_in-Writes :
        IsKeyed a → Writes a tx.program_id (apply_bridge_in tx program_account a)
    unfolding apply_bridge_in
    apply_bridge_in-Writes keyed = elim (Option-cases (Map.get tx.program_id a.programs)) [
      | inl e ↦ rw (e, apply_bridge_in) (insert_new-Writes none tx a)
      | inr (t, e) ↦ rw (e, apply_bridge_in) (replace_token-Writes t (keyed tx.program_id t e))
    ]

    -- an account without the token takes a new one exactly if it is the recipient
    pub receive_new_lem :
        Map.get tx.program_id a.programs ≡ none
        → receive_new tx program_account a ≡ (
            if is_recipient tx.to a
            then insert_new program_account tx a
            else (err not_convertible, a))
    unfolding receive_new
    receive_new_lem e = ground arith

    -- the call on an account that lacks the token
    pub send_without_token :
        Map.get tx.program_id a.programs ≡ none
        → apply_send_transaction tx program_account a ≡ (
            if is_bridge_in tx.transaction_type
            then insert_new none tx a
            else if tx.to == tx.from
            then (err self_send_without_token, a)
            else if is_recipient tx.to a
            then insert_new program_account tx a
            else (err not_convertible, a))
    unfolding apply_send_transaction apply_bridge_in
    send_without_token e = ground (arith, receive_new_lem e)

    -- the call on an account that has the token
    pub send_with_token :
        (token : Token)
        → Map.get tx.program_id a.programs ≡ some token
        → apply_send_transaction tx program_account a ≡ (
            if is_bridge_in tx.transaction_type
            then replace_token program_account tx token a
            else if tx.to == tx.from
            then (ok token, a)
            else replace_token program_account tx token a)
    unfolding apply_send_transaction apply_bridge_in
    send_with_token token e = ground arith

    unchanged-Writes :
        (token : Token)
        → IsKeyed a
        → Map.get tx.program_id a.programs ≡ some token
        → Writes a tx.program_id (ok token, a)
    unchanged-Writes token keyed e = record {
      program_id = keyed tx.program_id token e;
      programs = λ j. ground arith;
      nonce = refl;
      account_type = refl;
      owner_address = refl;
    }

    -- On an account whose tokens stand under their own programs, a call for any transaction and any
    -- program account ends in one of two ways: it returns a token, has written it under the
    -- transaction's program, and has left every other token, the nonce, the type and the owner as
    -- they were; or it fails or panics and has changed nothing.
    pub apply_send_transaction-Writes :
        IsKeyed a → Writes a tx.program_id (apply_send_transaction tx program_account a)
    apply_send_transaction-Writes keyed = elim (Option-cases (Map.get tx.program_id a.programs)) [
      | inl e ↦ rw (send_without_token e) (elim (Bool-cases (is_bridge_in tx.transaction_type)) [
        | inl b ↦ rw b (insert_new-Writes none tx a)
        | inr b ↦ rw b (elim (Bool-cases (tx.to == tx.from)) [
          | inl s ↦ rw s refl
          | inr s ↦ rw s (elim (Bool-cases (is_recipient tx.to a)) [
            | inl r ↦ rw r (insert_new-Writes program_account tx a)
            | inr r ↦ rw r refl
          ])
        ])
      ])
      | inr (t, e) ↦
          let replaced = replace_token-Writes t (keyed tx.program_id t e) in
          rw (send_with_token t e) (elim (Bool-cases (is_bridge_in tx.transaction_type)) [
            | inl b ↦ rw b replaced
            | inr b ↦ rw b (elim (Bool-cases (tx.to == tx.from)) [
              | inl s ↦ rw s (unchanged-Writes t keyed e)
              | inr s ↦ rw s replaced
            ])
          ])
    ]

    -- Each token still stands under its own program.
    pub apply_send_transaction-IsKeyed :
        IsKeyed a → IsKeyed (apply_send_transaction tx program_account a).1
    apply_send_transaction-IsKeyed keyed =
        IsKeyed-of_Writes a tx.program_id (apply_send_transaction tx program_account a) keyed
          (apply_send_transaction-Writes keyed)
