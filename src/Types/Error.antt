-- ===== src/Types/Error.antt =====
-- The errors that the methods of crates/types/src return, each named after its message.
pub data TypesError : Type 0 where
  -- token.rs
  exceeds_balance token_ids_not_owned : TypesError
  -- transaction.rs, `ToTokenError`
  owner_mismatch : TypesError
  -- account.rs
  self_send_without_token not_convertible transfer_not_owned burn_not_owned : TypesError
  not_program_account no_associated_program balance_insufficient token_id_not_owned : TypesError
  exceeds_approved spender_not_approved spend_unverified token_id_not_approved : TypesError
  nonce_invalid : TypesError
