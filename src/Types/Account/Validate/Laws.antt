-- ===== src/Types/Account/Validate/Laws.antt =====
-- When each validation passes, and what a passed validation promises to the methods that apply the
-- transaction.
use lasr.Base.{
  ◌+◌, ◌≤◌, ◌<◌, ◌≡◌, ◌⊎◌, ◌↔◌, inl, inr, true, not, ◌&&◌, none, some, List, [], ◌∷◌, arith, nat_eq,
  contains, all, Option-cases,
}
use lasr.Base.Map
use lasr.Base.Result.{ok}
use lasr.Types.Address.{Address}
use lasr.Types.Account.{Account, balance, program, increment_nonce}
use lasr.Types.Account.Apply.{apply_transfer_from_instruction}
use lasr.Types.Account.Apply.Transfers.{holds, transfer_from_takes}
use lasr.Types.Account.Validate.{
  each_held, validate_balance, validate_token_ownership, validate_approved_spend,
  validate_approved_token_transfer, validate_nonce,
}
use lasr.Types.Token.{Token}
use lasr.Types.U256.{U256, u256_mod, Uint, checked_add_lem}

-- The balance is validated exactly when the account has the token and it covers the amount.
pub validate_balance_iff :
    (program_id : Address) (amount : U256) (a : Account)
    → (validate_balance program_id amount a ≡ ok tt)
      ↔ ((t : Token) × (Map.get program_id a.programs ≡ some t) × (amount ≤ t.balance))
unfolding validate_balance
validate_balance_iff program_id amount a = ground arith

each_held_iff :
    (owned ids : List U256) → (each_held owned ids ≡ ok tt) ↔ (all (contains owned) ids ≡ true)
each_held_iff owned [] = ground arith
each_held_iff owned (x ∷ xs) = ground (arith, each_held_iff owned xs)

-- The ids are validated exactly when the account has the token and it holds each of them.
pub validate_token_ownership_iff :
    (program_id : Address) (ids : List U256) (a : Account)
    → (validate_token_ownership program_id ids a ≡ ok tt) ↔ (
        (t : Token) × (Map.get program_id a.programs ≡ some t)
        × (all (contains t.token_ids) ids ≡ true))
unfolding validate_token_ownership
validate_token_ownership_iff program_id ids a =
    elim (Option-cases (Map.get program_id a.programs)) [
      | inl e ↦ ground arith
      | inr (t, e) ↦ ground (arith, each_held_iff t.token_ids ids)
    ]

module _ ⦃u : Uint⦄ where
  -- If the balance and the token ids pass their validations, then the transfer of both from the
  -- account succeeds with the token that is stored, takes exactly the amount, and leaves exactly
  -- the ids that are not transferred.
  pub validated_transfer :
      (program_id : Address) (amount : U256) (ids : List U256) (a : Account) (nft : U256)
      → validate_balance program_id amount a ≡ ok tt
      → validate_token_ownership program_id ids a ≡ ok tt
      → let (r, a') = apply_transfer_from_instruction program_id (some amount) ids a in
        ((t : Token) × (r ≡ ok t) × (Map.get program_id a'.programs ≡ some t))
        × (balance program_id a' + amount ≡ balance program_id a)
        × (holds program_id nft a' ≡ (not (contains ids nft) && holds program_id nft a))
  validated_transfer program_id amount ids a nft hb ho =
      let (t, e, enough) = (validate_balance_iff program_id amount a).0 hb in
      let (t', e', owned) = (validate_token_ownership_iff program_id ids a).0 ho in
      transfer_from_takes program_id (some amount) ids a nft
        (record { token = t; found = e; enough = enough; owned = ground arith })

  -- If a nonce passes the validation and the account's nonce can grow, then the same nonce passes
  -- again on the account with the incremented nonce exactly when it was more than one above the
  -- account's.
  pub validate_nonce-increment :
      (nonce : U256) (a : Account)
      → a.nonce + 1 < u256_mod
      → validate_nonce nonce a ≡ ok tt
      → (validate_nonce nonce (increment_nonce a).1 ≡ ok tt) ↔ (a.nonce + 1 < nonce)
  unfolding validate_nonce increment_nonce
  validate_nonce-increment nonce a fits h = ground (arith, checked_add_lem a.nonce 1)

-- A nonce passes exactly when it is above the account's, or both are zero.
pub validate_nonce_iff :
    (nonce : U256) (a : Account)
    → (validate_nonce nonce a ≡ ok tt) ↔ ((a.nonce < nonce) ⊎ ((a.nonce ≡ 0) × (nonce ≡ 0)))
unfolding validate_nonce
validate_nonce_iff nonce a = ground arith

-- A spend is approved exactly when the account has the token and either the spender's allowance is
-- above the amount, or it has no allowance and an empty list of approvals, or it has neither and
-- the account is that of the program.
pub validate_approved_spend_iff :
    (program_id spender : Address) (amount : U256) (a : Account)
    → (validate_approved_spend program_id spender amount a ≡ ok tt) ↔ (
        (t : Token) × (Map.get program_id a.programs ≡ some t)
        × (((v : U256) × (Map.get spender t.allowance ≡ some v) × (amount < v))
            ⊎ ((Map.get spender t.allowance ≡ none)
                × ((Map.get spender t.approvals ≡ some [])
                    ⊎ ((Map.get spender t.approvals ≡ none)
                        × (a.account_type ≡ program program_id))))))
unfolding validate_approved_spend
validate_approved_spend_iff program_id spender amount a = ground arith

-- An approved transfer of token ids passes only in one case, whatever the ids: the spender has no
-- entry in the approvals, and the account is that of the program.
pub validate_approved_token_transfer_iff :
    (program_id spender : Address) (ids : List U256) (a : Account)
    → (validate_approved_token_transfer program_id spender ids a ≡ ok tt) ↔ (
        (t : Token) × (Map.get program_id a.programs ≡ some t)
        × (Map.get spender t.approvals ≡ none)
        × (a.account_type ≡ program program_id))
unfolding validate_approved_token_transfer
validate_approved_token_transfer_iff program_id spender ids a = ground arith
