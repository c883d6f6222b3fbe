-- ===== src/Actors/RpcServer.antt =====
-- The server for clients: crates/actors/src/rpc_server.rs, with the answers to the methods of
-- crates/rpc/src/rpc.rs. The JSON texts of tokens and accounts are a parameter, and the texts of
-- errors are left out.
use lasr.Base.{◌≡◌, String, Bool, true, false, Option, none, some}
use lasr.Base.Result.{Result, ok, err}
use lasr.Types.Address.{Address}
use lasr.Types.Address.Hex.{Text, HexDecoder, FromHexError, from_str, to_full_string}
use lasr.Types.Account.{Account}
use lasr.Types.Token.{Token}
use lasr.Types.Transaction.{Transaction}
use lasr.Actors.Scheduler
use lasr.Actors.Scheduler.{
  Port, SchedulerMessage, Response, response, no_account, send_response, call_response,
  async_call_response, get_account_response, register_program_response, transaction_error,
}

-- `serde_json` with the texts that it makes: a text is read back.
pub record Json (J : Type 0) : Type 0 where
  pub token_text : Token → J
  pub account_text : Account → J
  pub parse_token : J → Option Token
  pub parse_account : J → Option Account
  pub parse_token-text : (t : Token) → parse_token (token_text t) ≡ some t
  pub parse_account-text : (a : Account) → parse_account (account_text a) ≡ some a

pub data RpcRequestMethod : Type 0 where
  call send register_program : Transaction → RpcRequestMethod
  get_account : Address → RpcRequestMethod

-- The message to the scheduler. Without a scheduler the actor fails, and its reply port is dropped.
unfoldable pub handle_request_method : Bool → RpcRequestMethod → Port → Option SchedulerMessage
handle_request_method false method reply = none
handle_request_method true (call tx) reply = some (Scheduler.call tx reply)
handle_request_method true (send tx) reply = some (Scheduler.send tx reply)
handle_request_method true (register_program tx) reply = some (Scheduler.register_program tx reply)
handle_request_method true (get_account address) reply = some (Scheduler.get_account address reply)

pub data RpcError : Type 0 where
  invalid_params internal : RpcError

-- a text that is answered: of JSON, of an address, or the hash of a transaction
pub data Reply (J : Type 0) : Type 0 where
  json_text : J → Reply J
  address_text : Text → Reply J
  hash : String → Reply J

-- What the methods answer: `none` is a port that was closed, or 15 seconds without a response. The
-- scheduler answers a registration with an id always.
module _ {J : Type 0} (json : Json J) where
  unfoldable pub answer_call : Option Response → Result RpcError (Reply J)
  answer_call none = err internal
  answer_call (some no_account) = err internal
  answer_call (some (response (async_call_response h))) = ok (hash h)
  answer_call (some (response (call_response account))) = ok (json_text (json.account_text account))
  answer_call (some (response transaction_error)) = err internal
  answer_call (some (response _)) = err invalid_params

  unfoldable pub answer_send : Option Response → Result RpcError (Reply J)
  answer_send none = err internal
  answer_send (some no_account) = err internal
  answer_send (some (response (send_response token))) = ok (json_text (json.token_text token))
  answer_send (some (response transaction_error)) = err internal
  answer_send (some (response _)) = err invalid_params

  unfoldable pub answer_register_program : Option Response → Result RpcError (Reply J)
  answer_register_program none = err internal
  answer_register_program (some no_account) = err internal
  answer_register_program (some (response (register_program_response program_id))) =
      ok (address_text (to_full_string program_id))
  answer_register_program (some (response transaction_error)) = err internal
  answer_register_program (some (response _)) = err invalid_params

  unfoldable pub answer_get_account : Option Response → Result RpcError (Reply J)
  answer_get_account none = err internal
  answer_get_account (some no_account) = err internal
  answer_get_account (some (response (get_account_response account))) =
      ok (json_text (json.account_text account))
  answer_get_account (some (response _)) = err invalid_params

-- the trait `LasrRpc` of crates/rpc/src/rpc.rs, over what the other side keeps
pub record LasrRpc (J N : Type 0) : Type 0 where
  pub call : Transaction → N → Result RpcError (Reply J) × N
  pub send : Transaction → N → Result RpcError (Reply J) × N
  pub register_program : Transaction → N → Result RpcError (Reply J) × N
  pub get_account : Text → N → Result RpcError (Reply J) × N

-- `LasrRpcServerImpl`, where `ask` sends a request to the actor and waits for the response
module _ ⦃h : HexDecoder⦄ {J N : Type 0} (json : Json J)
    (ask : RpcRequestMethod → N → Option Response × N) where
  abbrev answered :
      (Option Response → Result RpcError (Reply J))
      → RpcRequestMethod
      → N
      → Result RpcError (Reply J) × N
  answered answer method s = let (r, s') = ask method s in (answer r, s')

  unfoldable pub get_account_at : Result FromHexError Address → N → Result RpcError (Reply J) × N
  unfolding answer_get_account
  get_account_at (ok address) s = answered (answer_get_account json) (get_account address) s
  get_account_at _ s = (err internal, s)

  abbrev pub rpc_server : LasrRpc J N
  rpc_server = record {
    call = λ tx. answered (answer_call json) (call tx);
    send = λ tx. answered (answer_send json) (send tx);
    register_program = λ tx. answered (answer_register_program json) (register_program tx);
    get_account = λ address. get_account_at (from_str address);
  }
