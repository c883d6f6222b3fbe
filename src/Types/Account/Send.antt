-- ===== src/Types/Account/Send.antt =====
-- `Account::apply_send_transaction`.
pub mod Laws
pub mod Transfer
pub mod Deposits
use lasr.Base.{
  ℕ, Bool, true, false, Option, none, some, List, [], ◌∷◌, ◌==◌, if◌then◌else◌, nat_eq, string_eq,
}
use lasr.Base.Map
use lasr.Base.Map.{Map}
use lasr.Base.Result.{Result, ok, err, panic, pure, fail, modify, ◌>>=◌, ◌>>◌}
use lasr.Types.Address.{Address}
use lasr.Types.Error.{self_send_without_token, not_convertible}
use lasr.Types.Account.{Account, AccountMethod, AccountType, user, program, insert_program, lift}
use lasr.Types.Token.{Token}
use lasr.Types.Transaction.{Transaction, is_bridge_in, token_of, try_from}
use lasr.Types.U256.{Uint}

-- a token of the account takes over the entries of the program account
abbrev pub extended : Option Account → Token → Token
extended none t = t
extended (some a) t = record t {
  metadata = Map.extend t.metadata a.program_account_metadata;
  arbitrary_data = Map.extend t.arbitrary_data a.program_account_data;
}

-- a new token has those of the program account
abbrev pub described : Option Account → Token → Token
described none t = t
described (some a) t = record t {
  metadata = a.program_account_metadata;
  arbitrary_data = a.program_account_data;
}

abbrev insert_new : Option Account → Transaction → AccountMethod Token
insert_new program_account tx =
    let t = described program_account (token_of tx) in do insert_program t.program_id t; pure t

-- `*token = new_token; self.programs.insert(…); return Ok(token.clone())`
abbrev store_token : Option Account → Token → AccountMethod Token
store_token program_account new_token =
    let t = extended program_account new_token in do insert_program t.program_id t; pure t

module _ ⦃u : Uint⦄ where
  abbrev replace_token : Option Account → Transaction → Token → AccountMethod Token
  replace_token program_account tx token = lift (try_from token tx) >>= store_token program_account

  -- the first branch: a program that the account lacks gets a token without the program's metadata
  unfoldable pub apply_bridge_in : Transaction → Option Account → AccountMethod Token
  apply_bridge_in tx program_account a = elim (Map.get tx.program_id a.programs) [
    | none ↦ insert_new none tx a
    | some token ↦ replace_token program_account tx token a
  ]

  -- the last tests, for an account that does not have the token yet
  unfoldable pub receive_new : Transaction → Option Account → AccountMethod Token
  receive_new tx program_account a =
      if tx.to == a.owner_address then insert_new program_account tx a else elim a.account_type [
        | user ↦ (err not_convertible, a)
        | program program_address ↦
            if tx.to == program_address
            then elim (Map.get tx.program_id a.programs) [
              | some token ↦ replace_token program_account tx token a
              | none ↦ insert_new program_account tx a
            ]
            else (err not_convertible, a)
      ]

  unfoldable pub apply_send_transaction : Transaction → Option Account → AccountMethod Token
  unfolding apply_bridge_in receive_new
  apply_send_transaction tx program_account a =
      if is_bridge_in tx.transaction_type
      then apply_bridge_in tx program_account a
      else if tx.to == tx.from
      then elim (Map.get tx.program_id a.programs) [
        | some token ↦ (ok token, a)
        | none ↦ (err self_send_without_token, a)
      ]
      else elim (Map.get tx.program_id a.programs) [
        | some token ↦ replace_token program_account tx token a
        | none ↦ receive_new tx program_account a
      ]
