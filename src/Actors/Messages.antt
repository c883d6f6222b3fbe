-- ===== src/Actors/Messages.antt =====
-- What the actors send one another (crates/messages/src/messages.rs), as far as the modelled actors
-- send it, and the registry in which an actor looks up another.
use lasr.Base.{String, Bool, List, [], ◌∷◌, Option, if◌then◌else◌}
use lasr.Types.Address.{Address}
use lasr.Types.Token.{Token}
use lasr.Types.Account.{Account}
use lasr.Types.Instruction.{Outputs}
use lasr.Types.Transaction.{Transaction}

-- `Keccak256` over a JSON text, printed in hexadecimal: a parameter of the model.
pub record Hasher : Type 0 where
  pub hash_string : Transaction → String

-- the actors that `ractor::registry::where_is` finds
pub record Registry : Type 0 where
  pub validator : Bool
  pub batcher : Bool
  pub executor : Bool
  pub scheduler : Bool
  pub account_cache : Bool
  pub pending_transactions : Bool
  pub engine : Bool

-- A message that was cast, with the actor that it goes to.
pub data Cast : Type 0 where
  validator_pending_transaction : Transaction → Cast
  validator_pending_call : Option Outputs → Transaction → Cast
  executor_exec : Transaction → Cast
  scheduler_transaction_failure : String → Cast
  scheduler_transaction_applied : String → Token → Cast
  scheduler_call_applied : String → Account → Cast
  scheduler_call_failure : String → Cast
  scheduler_registration_success : Address → Transaction → Cast
  pending_valid : Transaction → Cast
  batcher_append : Transaction → Option Outputs → Cast
  pending_invalid : Transaction → Cast
  pending_valid_call : Outputs → Transaction → Cast
  pending_new : Transaction → Option Outputs → Cast
  pending_new_call : Transaction → Cast
  pending_exec_success : Transaction → Cast
  executor_create : Transaction → String → Cast
  executor_set : Transaction → Cast
  scheduler_registration_failure : String → Cast
  scheduler_call_async_pending : String → Cast
  engine_call_success : Transaction → String → String → Cast
  account_cache_write : Account → Cast

abbrev pub cast_if : Bool → Cast → List Cast
cast_if up message = if up then message ∷ [] else []
