-- ===== src/Types/Instruction/Builders.antt =====
-- The builders of instructions of crates/types/src/programming_model.rs. A call of a builder's
-- method is a value here, and a use of a builder is the list of its calls, followed by `build`.
-- `InstructionBuilder` has the same methods and a `build` of its own for each inner builder.
pub mod Instructions
pub mod Uses
use lasr.Base.{Option, none, some, List, [], ◌∷◌, ◌++◌}
use lasr.Base.Result.{Result, ok, err, panic}
use lasr.Types.Address.{Address}
use lasr.Types.Account.{AddressOrNamespace}
use lasr.Types.Instruction
use lasr.Types.Instruction.{
  Instruction, CreateInstruction, TokenDistribution, TokenOrProgramUpdate, UpdateInstruction,
  TransferInstruction, BurnInstruction,
}
use lasr.Types.U256.{U256}

-- the errors of `build`, by the field that was not set
pub data BuildError : Type 0 where
  program_namespace_required program_id_required program_owner_required : BuildError
  total_supply_required initialized_supply_required : BuildError
  token_required from_required to_required caller_required : BuildError

infixl 5 ◌>>=◌
abbrev pub ◌>>=◌ :
    {A B : Type 0} → Result BuildError A → (A → Result BuildError B) → Result BuildError B
ok a >>= f = f a
err e >>= f = err e
panic >>= f = panic

-- `ok_or`
abbrev pub required : {A : Type 0} → BuildError → Option A → Result BuildError A
required e none = err e
required e (some a) = ok a

pub record InstructionBuilder (I : Type 0) : Type 0 where
  pub inner : I

pub record CreateInstructionBuilder : Type 0 where
  pub program_namespace : Option AddressOrNamespace
  pub program_id : Option AddressOrNamespace
  pub program_owner : Option Address
  pub total_supply : Option U256
  pub initialized_supply : Option U256
  pub distribution : List TokenDistribution

pub data CreateCall : Type 0 where
  program_namespace program_id : AddressOrNamespace → CreateCall
  program_owner : Address → CreateCall
  total_supply initialized_supply : U256 → CreateCall
  extend_token_distributions : List TokenDistribution → CreateCall
  add_token_distribution : TokenDistribution → CreateCall

abbrev pub new_create : CreateInstructionBuilder
new_create = record {
  program_namespace = none;
  program_id = none;
  program_owner = none;
  total_supply = none;
  initialized_supply = none;
  distribution = [];
}

unfoldable pub create_call : CreateCall → CreateInstructionBuilder → CreateInstructionBuilder
create_call (program_namespace x) b = record b { program_namespace = some x }
create_call (program_id x) b = record b { program_id = some x }
create_call (program_owner x) b = record b { program_owner = some x }
create_call (total_supply x) b = record b { total_supply = some x }
create_call (initialized_supply x) b = record b { initialized_supply = some x }
create_call (extend_token_distributions xs) b = record b { distribution = b.distribution ++ xs }
create_call (add_token_distribution x) b = record b { distribution = b.distribution ++ x ∷ [] }

-- The supplies have no default: the two values that the code names are dropped by `map_err`.
unfoldable pub create_build : CreateInstructionBuilder → Result BuildError CreateInstruction
create_build b = do
  namespace ← required program_namespace_required b.program_namespace
  id ← required program_id_required b.program_id
  owner ← required program_owner_required b.program_owner
  supply ← required total_supply_required b.total_supply
  initialized ← required initialized_supply_required b.initialized_supply
  ok (record {
    program_namespace = namespace;
    program_id = id;
    program_owner = owner;
    total_supply = supply;
    initialized_supply = initialized;
    distribution = b.distribution;
  })

pub record UpdateInstructionBuilder : Type 0 where
  pub updates : List TokenOrProgramUpdate

pub data UpdateCall : Type 0 where
  add_update : TokenOrProgramUpdate → UpdateCall
  extend_updates : List TokenOrProgramUpdate → UpdateCall

abbrev pub new_update : UpdateInstructionBuilder
new_update = record { updates = [] }

unfoldable pub update_call : UpdateCall → UpdateInstructionBuilder → UpdateInstructionBuilder
update_call (add_update x) b = record b { updates = b.updates ++ x ∷ [] }
update_call (extend_updates xs) b = record b { updates = b.updates ++ xs }

unfoldable pub update_build : UpdateInstructionBuilder → UpdateInstruction
update_build b = record { updates = b.updates }

pub record TransferInstructionBuilder : Type 0 where
  pub token : Option Address
  pub from : Option AddressOrNamespace
  pub to : Option AddressOrNamespace
  pub amount : Option U256
  pub ids : List U256

pub data TransferCall : Type 0 where
  token : Address → TransferCall
  from to : AddressOrNamespace → TransferCall
  amount add_id : U256 → TransferCall
  extend_ids : List U256 → TransferCall

abbrev pub new_transfer : TransferInstructionBuilder
new_transfer = record { token = none; from = none; to = none; amount = none; ids = [] }

unfoldable pub transfer_call :
    TransferCall → TransferInstructionBuilder → TransferInstructionBuilder
transfer_call (token x) b = record b { token = some x }
transfer_call (from x) b = record b { from = some x }
transfer_call (to x) b = record b { to = some x }
transfer_call (amount x) b = record b { amount = some x }
transfer_call (add_id x) b = record b { ids = b.ids ++ x ∷ [] }
transfer_call (extend_ids xs) b = record b { ids = b.ids ++ xs }

unfoldable pub transfer_build : TransferInstructionBuilder → Result BuildError TransferInstruction
transfer_build b = do
  t ← required token_required b.token
  f ← required from_required b.from
  r ← required to_required b.to
  ok (record { token = t; from = f; to = r; amount = b.amount; ids = b.ids })

pub record BurnInstructionBuilder : Type 0 where
  pub caller : Option Address
  pub program_id : Option AddressOrNamespace
  pub token : Option Address
  pub from : Option AddressOrNamespace
  pub amount : Option U256
  pub token_ids : List U256

pub data BurnCall : Type 0 where
  caller token : Address → BurnCall
  program_id from : AddressOrNamespace → BurnCall
  amount add_token_id : U256 → BurnCall
  extend_token_ids : List U256 → BurnCall

abbrev pub new_burn : BurnInstructionBuilder
new_burn = record {
  caller = none;
  program_id = none;
  token = none;
  from = none;
  amount = none;
  token_ids = [];
}

unfoldable pub burn_call : BurnCall → BurnInstructionBuilder → BurnInstructionBuilder
burn_call (BurnCall.caller x) b = record b { caller = some x }
burn_call (BurnCall.token x) b = record b { token = some x }
burn_call (BurnCall.program_id x) b = record b { program_id = some x }
burn_call (BurnCall.from x) b = record b { from = some x }
burn_call (BurnCall.amount x) b = record b { amount = some x }
burn_call (BurnCall.add_token_id x) b = record b { token_ids = b.token_ids ++ x ∷ [] }
burn_call (BurnCall.extend_token_ids xs) b = record b { token_ids = b.token_ids ++ xs }

unfoldable pub burn_build : BurnInstructionBuilder → Result BuildError BurnInstruction
burn_build b = do
  c ← required caller_required b.caller
  p ← required program_id_required b.program_id
  t ← required token_required b.token
  f ← required from_required b.from
  ok (record {
    caller = c;
    program_id = p;
    token = t;
    from = f;
    amount = b.amount;
    token_ids = b.token_ids;
  })
