-- ===== src/Tests.antt =====
-- Test data: an instance of each parameter of the model, and a few accounts and transactions.
pub mod Accounts
pub mod Tokens
pub mod Batches
pub mod Sends
pub mod Pending
pub mod Validation
pub mod Network
pub mod Listening
pub mod Wallets
pub mod Signatures
pub mod Builders
pub mod Calls
pub mod Deposits
use lasr.Base.{
  ℕ, ◌+◌, ◌-◌, ◌≡◌, refl, arith, String, true, false, Option, none, some, List, [], ◌∷◌, ltb, leb,
  if◌then◌else◌,
}
use lasr.Base.Int.{pos}
use lasr.Base.Map.{Map}
use lasr.Types.Address.{Address}
use lasr.Types.Account.{Account, AccountType, user, program}
use lasr.Types.Token.{Token, free}
use lasr.Types.Transaction.{Transaction, send, default_transaction}
use lasr.Types.U256.{U256, u256_mod, Uint}
use lasr.Actors.Messages.{Hasher, Registry}
use lasr.Actors.Batch.{Batch, Encoder}
use lasr.Actors.Batcher.{Batcher, new_batcher}
use lasr.Actors.Batcher.World.{Env, World}

-- addition and subtraction as the crate `uint` documents them
instance abbrev pub test_uint : Uint
test_uint = record {
  add = λ a b. if ltb (a + b) u256_mod then some (a + b) else none;
  sub = λ a b. if leb b a then some (a - b) else none;
  add_fits = λ a b h. ground arith;
  add_overflow = λ a b h. ground arith;
  sub_fits = λ a b h. ground arith;
  sub_underflow = λ a b h. ground arith;
}

instance abbrev pub test_hasher : Hasher
test_hasher = record { hash_string = λ tx. tx.op }

-- a batch that holds n accounts and transactions has an encoding of n hundred thousand characters
abbrev entries : {A : Type 0} → List A → ℕ
entries [] = 0
entries (x ∷ xs) = 100000 + entries xs

instance abbrev pub test_encoder : Encoder
test_encoder = record { encoded_length = λ b. some (entries b.transactions + entries b.accounts) }

abbrev pub test_registry : Registry
test_registry = record {
  validator = true;
  batcher = true;
  executor = true;
  scheduler = true;
  account_cache = true;
  pending_transactions = true;
  engine = true;
}

abbrev pub test_env : Env
test_env = record { registry = test_registry; stored = λ _. none }

abbrev pub test_token : Address → Address → U256 → List U256 → Token
test_token program_id owner balance ids = record {
  program_id = program_id;
  owner_id = owner;
  balance = balance;
  metadata = [];
  token_ids = ids;
  allowance = [];
  approvals = [];
  arbitrary_data = [];
  status = free;
}

abbrev pub test_account : AccountType → Address → Map Address Token → Account
test_account account_type owner programs = record {
  account_type = account_type;
  program_namespace = none;
  owner_address = owner;
  programs = programs;
  nonce = 4;
  program_account_data = [];
  program_account_metadata = [];
  program_account_linked_programs = [];
}

-- account 10 holds 50 and the ids 7 and 8 in the program 1, and account 20 holds 5
abbrev pub alice : Account
alice = test_account user 10 ((1, test_token 1 10 50 (7 ∷ 8 ∷ [])) ∷ [])

abbrev pub bob : Account
bob = test_account user 20 ((1, test_token 1 20 5 []) ∷ [])

-- a send of 30 from the one to the other
abbrev pub payment : Transaction
payment = record default_transaction {
  transaction_type = send 5;
  from = 10;
  to = 20;
  program_id = 1;
  op = "payment";
  value = 30;
  nonce = 5;
}

abbrev pub test_world : World
test_world = record { cached = (10, alice) ∷ (20, bob) ∷ []; batcher = new_batcher; sent = [] }
