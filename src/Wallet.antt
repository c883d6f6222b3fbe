-- ===== src/Wallet.antt =====
-- `Wallet` of crates/wallet/src/wallet.rs: it builds transactions from its copy of the account, signs
-- them, submits them, and reads the account again. The signing by the secret key is a parameter. The
-- printing of balances is left out.
pub mod Sends
pub mod Keys
use lasr.Base.{ℕ, String, Bool, true, false, Option, none, some, ltb, if◌then◌else◌}
use lasr.Base.Result.{Result, ok, err, panic, Method, pure, gets, modify, or_panic, ◌>>=◌, ◌>>◌}
use lasr.Types.Address.{Address}
use lasr.Types.Address.Hex.{Text, lower_hex}
use lasr.Types.Error.{TypesError}
use lasr.Types.Account.{Account}
use lasr.Types.Account.Validate.{validate_balance}
use lasr.Types.Token.{Token}
use lasr.Types.Transaction
use lasr.Types.Transaction.{TransactionType, Payload, RecoverableSignature, Transaction, signed}
use lasr.Types.U256.{U256, Uint, checked_add}
use lasr.Actors.RpcServer.{RpcError, Reply, json_text, Json, LasrRpc}

-- the address, and the copy of the account
pub record Wallet : Type 0 where
  pub address : Address
  pub account : Account

-- the wallet with the other side of its client
pub record Session (N : Type 0) : Type 0 where
  pub wallet : Wallet
  pub network : N

pub data WalletError : Type 0 where
  invalid : TypesError → WalletError
  rpc : RpcError → WalletError
  parse : WalletError

-- the recoverable signature of the hash of a payload by the wallet's key
abbrev pub Signer : Type 0
Signer = Payload → RecoverableSignature

abbrev pub Act : Type 0 → Type 0 → Type 0
Act N A = Method WalletError (Session N) A

abbrev pub payload_of :
    TransactionType → Wallet → Address → Address → String → String → U256 → U256 → Payload
payload_of transaction_type w to program_id op inputs value nonce = record {
  transaction_type = transaction_type;
  from = w.address;
  to = to;
  program_id = program_id;
  op = op;
  inputs = inputs;
  value = value;
  nonce = nonce;
}

module _ ⦃u : Uint⦄ {J N : Type 0} (json : Json J) (client : LasrRpc J N) (sign : Signer) where
  -- `map_err` on the result of a check
  abbrev checked : Result TypesError (Unit {0}) → Act N (Unit {0})
  checked (ok _) s = (ok tt, s)
  checked (err e) s = (err (invalid e), s)
  checked panic s = (panic, s)

  abbrev rpc_result : Result RpcError (Reply J) → Result WalletError (Reply J)
  rpc_result (ok r) = ok r
  rpc_result (err e) = err (rpc e)
  rpc_result panic = panic

  -- a call of the client, which changes the other side
  abbrev submit : (N → Result RpcError (Reply J) × N) → Act N (Reply J)
  submit f s = let (r, network) = f s.network in (rpc_result r, record s { network = network })

  abbrev parsed : {A : Type 0} → (J → Option A) → Reply J → Act N A
  parsed read (json_text text) s = elim (read text) [ some a ↦ (ok a, s) | none ↦ (err parse, s) ]
  parsed read _ s = (err parse, s)

  unfoldable pub get_account : Address → Act N (Unit {0})
  get_account address = do
    reply ← submit (client.get_account (lower_hex address))
    account ← parsed json.parse_account reply
    modify (λ s. record s { wallet = record s.wallet { account = account } })

  -- the payload with the next nonce, signed
  abbrev built :
      (U256 → TransactionType) → Address → Address → String → String → U256 → Act N Transaction
  built kind to program_id op inputs value = do
    w ← gets (λ s. s.wallet)
    nonce ← or_panic (checked_add w.account.nonce 1)
    let payload = payload_of (kind w.account.nonce) w to program_id op inputs value nonce in
        pure (signed payload (sign payload))

  unfoldable pub send : Address → Address → U256 → Act N Token
  unfolding get_account signed validate_balance
  send to program_id value = do
    w ← gets (λ s. s.wallet)
    checked (validate_balance program_id value w.account)
    tx ← built Transaction.send to program_id "" "" value
    reply ← submit (client.send tx)
    token ← parsed json.parse_token reply
    get_account w.address
    pure token

  unfoldable pub sign_payload : Payload → Transaction
  unfolding signed
  sign_payload payload = signed payload (sign payload)

  unfoldable pub call : Address → Address → U256 → String → String → Act N (Reply J)
  unfolding get_account signed validate_balance
  call program_id to value op inputs = do
    w ← gets (λ s. s.wallet)
    if ltb 0 value then checked (validate_balance program_id value w.account) else pure tt
    tx ← built Transaction.call to program_id op inputs value
    reply ← submit (client.call tx)
    get_account w.address
    pure reply

  -- an error of `get_account` is only printed
  abbrev dropped : {A : Type 0} → Act N A → Act N (Unit {0})
  dropped m s = let (r, s') = m s in elim r [ panic ↦ (panic, s') | _ ↦ (ok tt, s') ]

  unfoldable pub register_program : String → Act N (Reply J)
  unfolding get_account signed
  register_program inputs = do
    w ← gets (λ s. s.wallet)
    tx ← built Transaction.register_program 0 0 "" inputs 0
    reply ← submit (client.register_program tx)
    dropped (get_account w.address)
    pure reply
