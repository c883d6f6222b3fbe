-- ===== src/Types/Instruction/Builders/Uses.antt =====
-- What a use of a builder makes: crates/types/src/programming_model.rs.
use lasr.Base.{
  ◌≡◌, ◌↔◌, refl, ap, ◌∙◌, arith, Option, none, some, List, [], ◌∷◌, ◌++◌, append-nil, append_assoc,
}
use lasr.Base.Result.{Result, ok, err, panic}
use lasr.Types.Address.{Address}
use lasr.Types.Account.{AddressOrNamespace}
use lasr.Types.Instruction.{Instruction, TransferInstruction}
use lasr.Types.Instruction.Builders.{
  BuildError, InstructionBuilder, CreateInstructionBuilder, UpdateInstructionBuilder,
  TransferInstructionBuilder, BurnInstructionBuilder, CreateCall, UpdateCall, TransferCall,
  BurnCall, new_create, new_update, new_transfer, new_burn, create_call, update_call, transfer_call,
  burn_call, create_build, update_build, transfer_build, burn_build, token_required,
}
use lasr.Types.Instruction.Builders.Instructions.{
  instruction_create_call, instruction_update_call, instruction_transfer_call,
  instruction_burn_call, instruction_create_build, instruction_update_build,
  instruction_transfer_build, instruction_burn_build,
}
use lasr.Types.U256.{U256}

-- the calls of a builder, one after the other
abbrev pub run : {C B : Type 0} → (C → B → B) → List C → B → B
run call [] b = b
run call (c ∷ cs) b = run call cs (call c b)

abbrev pub mapped :
    {A : Type 0} → (A → Instruction) → Result BuildError A → Result BuildError Instruction
mapped f (ok a) = ok (f a)
mapped f (err e) = err e
mapped f panic = panic

run-inner :
    {C I : Type 0} (outer : C → InstructionBuilder I → InstructionBuilder I) (call : C → I → I)
    → ((c : C) (i : I) → outer c (record { inner = i }) ≡ record { inner = call c i })
    → (cs : List C) (i : I) → run outer cs (record { inner = i }) ≡ record { inner = run call cs i }
run-inner outer call same [] i = refl
run-inner outer call same (c ∷ cs) i =
    ap (run outer cs) (same c i) ∙ run-inner outer call same cs (call c i)

same_create :
    (c : CreateCall) (i : CreateInstructionBuilder)
    → instruction_create_call c (record { inner = i }) ≡ record { inner = create_call c i }
unfolding instruction_create_call create_call
same_create (CreateCall.program_namespace x) i = refl
same_create (CreateCall.program_id x) i = refl
same_create (CreateCall.program_owner x) i = refl
same_create (CreateCall.total_supply x) i = refl
same_create (CreateCall.initialized_supply x) i = refl
same_create (CreateCall.extend_token_distributions xs) i = refl
same_create (CreateCall.add_token_distribution x) i = refl

same_update :
    (c : UpdateCall) (i : UpdateInstructionBuilder)
    → instruction_update_call c (record { inner = i }) ≡ record { inner = update_call c i }
unfolding instruction_update_call update_call
same_update (UpdateCall.add_update x) i = refl
same_update (UpdateCall.extend_updates xs) i = refl

same_transfer :
    (c : TransferCall) (i : TransferInstructionBuilder)
    → instruction_transfer_call c (record { inner = i }) ≡ record { inner = transfer_call c i }
unfolding instruction_transfer_call transfer_call
same_transfer (TransferCall.token x) i = refl
same_transfer (TransferCall.from x) i = refl
same_transfer (TransferCall.to x) i = refl
same_transfer (TransferCall.amount x) i = refl
same_transfer (TransferCall.add_id x) i = refl
same_transfer (TransferCall.extend_ids xs) i = refl

same_burn :
    (c : BurnCall) (i : BurnInstructionBuilder)
    → instruction_burn_call c (record { inner = i }) ≡ record { inner = burn_call c i }
unfolding instruction_burn_call burn_call
same_burn (BurnCall.caller x) i = refl
same_burn (BurnCall.token x) i = refl
same_burn (BurnCall.program_id x) i = refl
same_burn (BurnCall.from x) i = refl
same_burn (BurnCall.amount x) i = refl
same_burn (BurnCall.add_token_id x) i = refl
same_burn (BurnCall.extend_token_ids xs) i = refl

create_agrees :
    (i : CreateInstructionBuilder)
    → instruction_create_build (record { inner = i }) ≡ mapped Instruction.create (create_build i)
unfolding instruction_create_build create_build
create_agrees i = ground arith

transfer_agrees :
    (i : TransferInstructionBuilder)
    → instruction_transfer_build (record { inner = i })
      ≡ mapped Instruction.transfer (transfer_build i)
unfolding instruction_transfer_build transfer_build
transfer_agrees i = ground arith

burn_agrees :
    (i : BurnInstructionBuilder)
    → instruction_burn_build (record { inner = i }) ≡ mapped Instruction.burn (burn_build i)
unfolding instruction_burn_build burn_build
burn_agrees i = ground arith

-- Whatever methods are called, in any order and any number of times, the builder of instructions
-- gives what the builder inside it gives, as an instruction, or the same error: for creations,
-- transfers, burns and updates.
pub builders_agree :
    (creates : List CreateCall) (transfers : List TransferCall) (burns : List BurnCall)
    (updates : List UpdateCall)
    → (instruction_create_build
          (run instruction_create_call creates (record { inner = new_create }))
        ≡ mapped Instruction.create (create_build (run create_call creates new_create)))
      × (instruction_transfer_build
            (run instruction_transfer_call transfers (record { inner = new_transfer }))
          ≡ mapped Instruction.transfer (transfer_build (run transfer_call transfers new_transfer)))
      × (instruction_burn_build (run instruction_burn_call burns (record { inner = new_burn }))
          ≡ mapped Instruction.burn (burn_build (run burn_call burns new_burn)))
      × (instruction_update_build
            (run instruction_update_call updates (record { inner = new_update }))
          ≡ Instruction.update (update_build (run update_call updates new_update)))
unfolding instruction_update_build update_build
builders_agree creates transfers burns updates = (
  ap instruction_create_build
        (run-inner instruction_create_call create_call same_create creates new_create)
      ∙ create_agrees _,
  ap instruction_transfer_build
        (run-inner instruction_transfer_call transfer_call same_transfer transfers new_transfer)
      ∙ transfer_agrees _,
  ap instruction_burn_build (run-inner instruction_burn_call burn_call same_burn burns new_burn)
      ∙ burn_agrees _,
  ap instruction_update_build
      (run-inner instruction_update_call update_call same_update updates new_update),
)

-- the value of the last call of a method
abbrev or_else : {A : Type 0} → Option A → Option A → Option A
or_else (some a) o = some a
or_else none o = o

abbrev pub last : {A : Type 0} → (TransferCall → Option A) → List TransferCall → Option A
last given [] = none
last given (c ∷ cs) = or_else (last given cs) (given c)

abbrev pub given_token : TransferCall → Option Address
given_token (TransferCall.token x) = some x
given_token _ = none

abbrev pub given_from : TransferCall → Option AddressOrNamespace
given_from (TransferCall.from x) = some x
given_from _ = none

abbrev pub given_to : TransferCall → Option AddressOrNamespace
given_to (TransferCall.to x) = some x
given_to _ = none

abbrev pub given_amount : TransferCall → Option U256
given_amount (TransferCall.amount x) = some x
given_amount _ = none

-- the ids of all calls
abbrev pub given_ids : List TransferCall → List U256
given_ids [] = []
given_ids (TransferCall.add_id x ∷ cs) = x ∷ given_ids cs
given_ids (TransferCall.extend_ids xs ∷ cs) = xs ++ given_ids cs
given_ids (_ ∷ cs) = given_ids cs

-- a builder with what the calls give
abbrev filled_by : List TransferCall → TransferInstructionBuilder → TransferInstructionBuilder
filled_by cs b = record {
  token = or_else (last given_token cs) b.token;
  from = or_else (last given_from cs) b.from;
  to = or_else (last given_to cs) b.to;
  amount = or_else (last given_amount cs) b.amount;
  ids = b.ids ++ given_ids cs;
}

filled_call :
    (c : TransferCall) (cs : List TransferCall) (b : TransferInstructionBuilder)
    → filled_by cs (transfer_call c b) ≡ filled_by (c ∷ cs) b
unfolding transfer_call
filled_call (TransferCall.token x) cs b = ground arith
filled_call (TransferCall.from x) cs b = ground arith
filled_call (TransferCall.to x) cs b = ground arith
filled_call (TransferCall.amount x) cs b = ground arith
filled_call (TransferCall.add_id x) cs b =
    ground (arith, append_assoc b.ids (x ∷ []) (given_ids cs))
filled_call (TransferCall.extend_ids xs) cs b = ground (arith, append_assoc b.ids xs (given_ids cs))

run-filled :
    (cs : List TransferCall) (b : TransferInstructionBuilder)
    → run transfer_call cs b ≡ filled_by cs b
run-filled [] b = ground (arith, append-nil b.ids)
run-filled (c ∷ cs) b = run-filled cs (transfer_call c b) ∙ filled_call c cs b

or_else-none : {A : Type 0} (o : Option A) → or_else o none ≡ o
or_else-none none = refl
or_else-none (some a) = refl

build_iff :
    (b : TransferInstructionBuilder) (i : TransferInstruction)
    → (transfer_build b ≡ ok i) ↔ (
        (b.token ≡ some i.token)
        × (b.from ≡ some i.from)
        × (b.to ≡ some i.to)
        × (b.amount ≡ i.amount)
        × (b.ids ≡ i.ids))
unfolding transfer_build
build_iff b i = ground arith

-- A use of the builder of transfers gives a transfer exactly when the token, the sender and the
-- recipient were each given, and then with the last value of each, the last amount, if one was
-- given, and all ids in the order of the calls. Without a token the error names it, whatever else
-- is missing.
pub transfer_built_iff :
    (calls : List TransferCall) (i : TransferInstruction)
    → let result = transfer_build (run transfer_call calls new_transfer) in
      ((result ≡ ok i) ↔ (
        (last given_token calls ≡ some i.token)
        × (last given_from calls ≡ some i.from)
        × (last given_to calls ≡ some i.to)
        × (last given_amount calls ≡ i.amount)
        × (given_ids calls ≡ i.ids)))
      × (last given_token calls ≡ none → result ≡ err token_required)
unfolding transfer_build
transfer_built_iff calls i = ground (
  arith,
  run-filled calls new_transfer,
  or_else-none (last given_token calls),
  or_else-none (last given_from calls),
  or_else-none (last given_to calls),
  or_else-none (last given_amount calls),
)
