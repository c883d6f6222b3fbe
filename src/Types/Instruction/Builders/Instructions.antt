-- ===== src/Types/Instruction/Builders/Instructions.antt =====
-- `InstructionBuilder` of crates/types/src/programming_model.rs over each of the inner builders, with
-- the methods and the `build` that the source writes out once more.
use lasr.Base.{some, [], ◌∷◌, ◌++◌}
use lasr.Base.Result.{Result, ok}
use lasr.Types.Instruction.{Instruction}
use lasr.Types.Instruction.Builders.{
  BuildError, program_namespace_required, program_id_required, program_owner_required,
  total_supply_required, initialized_supply_required, token_required, from_required, to_required,
  caller_required, ◌>>=◌, required, InstructionBuilder, CreateInstructionBuilder,
  UpdateInstructionBuilder, TransferInstructionBuilder, BurnInstructionBuilder, CreateCall,
  UpdateCall, TransferCall, BurnCall,
}

unfoldable pub instruction_create_call :
    CreateCall
    → InstructionBuilder CreateInstructionBuilder
    → InstructionBuilder CreateInstructionBuilder
instruction_create_call (CreateCall.program_namespace x) b = record b {
  inner = record b.inner { program_namespace = some x };
}
instruction_create_call (CreateCall.program_id x) b = record b {
  inner = record b.inner { program_id = some x };
}
instruction_create_call (CreateCall.program_owner x) b = record b {
  inner = record b.inner { program_owner = some x };
}
instruction_create_call (CreateCall.total_supply x) b = record b {
  inner = record b.inner { total_supply = some x };
}
instruction_create_call (CreateCall.initialized_supply x) b = record b {
  inner = record b.inner { initialized_supply = some x };
}
instruction_create_call (CreateCall.extend_token_distributions xs) b = record b {
  inner = record b.inner { distribution = b.inner.distribution ++ xs };
}
instruction_create_call (CreateCall.add_token_distribution x) b = record b {
  inner = record b.inner { distribution = b.inner.distribution ++ x ∷ [] };
}

unfoldable pub instruction_create_build :
    InstructionBuilder CreateInstructionBuilder → Result BuildError Instruction
instruction_create_build b = do
  namespace ← required program_namespace_required b.inner.program_namespace
  id ← required program_id_required b.inner.program_id
  owner ← required program_owner_required b.inner.program_owner
  supply ← required total_supply_required b.inner.total_supply
  initialized ← required initialized_supply_required b.inner.initialized_supply
  ok (
      Instruction.create (record {
        program_namespace = namespace;
        program_id = id;
        program_owner = owner;
        total_supply = supply;
        initialized_supply = initialized;
        distribution = b.inner.distribution;
      }))

unfoldable pub instruction_update_call :
    UpdateCall
    → InstructionBuilder UpdateInstructionBuilder
    → InstructionBuilder UpdateInstructionBuilder
instruction_update_call (UpdateCall.add_update x) b = record b {
  inner = record b.inner { updates = b.inner.updates ++ x ∷ [] };
}
instruction_update_call (UpdateCall.extend_updates xs) b = record b {
  inner = record b.inner { updates = b.inner.updates ++ xs };
}

unfoldable pub instruction_update_build : InstructionBuilder UpdateInstructionBuilder → Instruction
instruction_update_build b = Instruction.update (record { updates = b.inner.updates })

unfoldable pub instruction_transfer_call :
    TransferCall
    → InstructionBuilder TransferInstructionBuilder
    → InstructionBuilder TransferInstructionBuilder
instruction_transfer_call (TransferCall.token x) b = record b {
  inner = record b.inner { token = some x };
}
instruction_transfer_call (TransferCall.from x) b = record b {
  inner = record b.inner { from = some x };
}
instruction_transfer_call (TransferCall.to x) b = record b {
  inner = record b.inner { to = some x };
}
instruction_transfer_call (TransferCall.amount x) b = record b {
  inner = record b.inner { amount = some x };
}
instruction_transfer_call (TransferCall.add_id x) b = record b {
  inner = record b.inner { ids = b.inner.ids ++ x ∷ [] };
}
instruction_transfer_call (TransferCall.extend_ids xs) b = record b {
  inner = record b.inner { ids = b.inner.ids ++ xs };
}

unfoldable pub instruction_transfer_build :
    InstructionBuilder TransferInstructionBuilder → Result BuildError Instruction
instruction_transfer_build b = do
  t ← required token_required b.inner.token
  f ← required from_required b.inner.from
  r ← required to_required b.inner.to
  ok (
      Instruction.transfer
        (record { token = t; from = f; to = r; amount = b.inner.amount; ids = b.inner.ids }))

unfoldable pub instruction_burn_call :
    BurnCall → InstructionBuilder BurnInstructionBuilder → InstructionBuilder BurnInstructionBuilder
instruction_burn_call (BurnCall.caller x) b = record b {
  inner = record b.inner { caller = some x };
}
instruction_burn_call (BurnCall.token x) b = record b { inner = record b.inner { token = some x } }
instruction_burn_call (BurnCall.program_id x) b = record b {
  inner = record b.inner { program_id = some x };
}
instruction_burn_call (BurnCall.from x) b = record b { inner = record b.inner { from = some x } }
instruction_burn_call (BurnCall.amount x) b = record b {
  inner = record b.inner { amount = some x };
}
instruction_burn_call (BurnCall.add_token_id x) b = record b {
  inner = record b.inner { token_ids = b.inner.token_ids ++ x ∷ [] };
}
instruction_burn_call (BurnCall.extend_token_ids xs) b = record b {
  inner = record b.inner { token_ids = b.inner.token_ids ++ xs };
}

unfoldable pub instruction_burn_build :
    InstructionBuilder BurnInstructionBuilder → Result BuildError Instruction
instruction_burn_build b = do
  c ← required caller_required b.inner.caller
  p ← required program_id_required b.inner.program_id
  t ← required token_required b.inner.token
  f ← required from_required b.inner.from
  ok (
      Instruction.burn (record {
        caller = c;
        program_id = p;
        token = t;
        from = f;
        amount = b.inner.amount;
        token_ids = b.inner.token_ids;
      }))
