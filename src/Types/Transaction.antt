-- ===== src/Types/Transaction.antt =====
-- `Transaction` of crates/types/src/transaction.rs, and the tokens that are made from it.
pub mod Equality
pub mod Fields
use lasr.Base.{
  ℕ, String, Bool, true, false, Option, none, some, List, [], ◌∷◌, ◌==◌, if◌then◌else◌, nat_eq,
}
use lasr.Base.Int.{ℤ, pos}
use lasr.Base.Result.{Result, ok, err, panic}
use lasr.Types.Address.{Address}
use lasr.Types.Error.{TypesError, owner_mismatch}
use lasr.Types.Token.{Token, free}
use lasr.Types.U256.{U256, Uint, checked_add, checked_sub}

pub data TransactionType : Type 0 where
  bridge_in send call bridge_out register_program : U256 → TransactionType

abbrev pub is_send : TransactionType → Bool
is_send (send _) = true
is_send _ = false

abbrev pub is_bridge_in : TransactionType → Bool
is_bridge_in (bridge_in _) = true
is_bridge_in _ = false

abbrev pub is_call : TransactionType → Bool
is_call (call _) = true
is_call _ = false

abbrev pub is_bridge_out : TransactionType → Bool
is_bridge_out (bridge_out _) = true
is_bridge_out _ = false

abbrev pub is_register_program : TransactionType → Bool
is_register_program (register_program _) = true
is_register_program _ = false

pub record Payload : Type 0 where
  pub transaction_type : TransactionType
  pub from : Address
  pub to : Address
  pub program_id : Address
  pub op : String
  pub inputs : String
  pub value : U256
  pub nonce : U256

-- The signature's 32-byte halves `r` and `s` are numbers.
pub record Transaction : Type 0 where
  pub transaction_type : TransactionType
  pub from : Address
  pub to : Address
  pub program_id : Address
  pub op : String
  pub inputs : String
  pub value : U256
  pub nonce : U256
  pub v : ℤ
  pub r : ℕ
  pub s : ℕ

pub record RecoverableSignature : Type 0 where
  pub r : ℕ
  pub s : ℕ
  pub v : ℤ

-- `impl Default for Transaction`
abbrev pub default_transaction : Transaction
default_transaction = record {
  transaction_type = send 0;
  from = 0;
  to = 0;
  program_id = 0;
  op = "";
  inputs = "";
  value = 0;
  nonce = 0;
  v = pos 0;
  r = 0;
  s = 0;
}

-- `impl From<Payload> for Transaction`
unfoldable pub unsigned : Payload → Transaction
unsigned p = record default_transaction {
  transaction_type = p.transaction_type;
  from = p.from;
  to = p.to;
  program_id = p.program_id;
  op = p.op;
  inputs = p.inputs;
  value = p.value;
  nonce = p.nonce;
}

-- `impl From<(Payload, RecoverableSignature)> for Transaction`
unfoldable pub signed : Payload → RecoverableSignature → Transaction
signed p sig = record {
  transaction_type = p.transaction_type;
  from = p.from;
  to = p.to;
  program_id = p.program_id;
  op = p.op;
  inputs = p.inputs;
  value = p.value;
  nonce = p.nonce;
  v = sig.v;
  r = sig.r;
  s = sig.s;
}

abbrev pub get_accounts_involved : Transaction → List Address
get_accounts_involved tx = tx.from ∷ tx.to ∷ []

-- `impl From<Transaction> for Token`
abbrev pub token_of : Transaction → Token
token_of tx = record {
  program_id = tx.program_id;
  owner_id = tx.to;
  balance = tx.value;
  metadata = [];
  token_ids = [];
  allowance = [];
  approvals = [];
  arbitrary_data = [];
  status = free;
}

-- the builder's result, or the panic of the sum or the difference
abbrev rebuilt : Token → Option U256 → Result TypesError Token
rebuilt t none = panic
rebuilt t (some balance) = ok (record t { balance = balance })

-- `impl TryFrom<(Token, Transaction)> for Token`
unfoldable pub try_from : ⦃u : Uint⦄ → Token → Transaction → Result TypesError Token
try_from t tx =
    if tx.from == t.owner_id
    then (if is_bridge_in tx.transaction_type
        then rebuilt t (checked_add t.balance tx.value)
        else rebuilt t (checked_sub t.balance tx.value))
    else if tx.to == t.owner_id
    then rebuilt t (checked_add t.balance tx.value)
    else err owner_mismatch
