-- ===== src/Types/Instruction.antt =====
-- The instructions that a program returns: crates/types/src/programming_model.rs.
pub mod Builders
use lasr.Base.{String, Option, List, [], ◌∷◌, map}
use lasr.Base.Int.{ℤ}
use lasr.Types.Account.{Account, AddressOrNamespace}
use lasr.Types.Account.Program.{ProgramUpdate}
use lasr.Types.Address.{Address}
use lasr.Types.TokenUpdate.{TokenUpdateField}
use lasr.Types.Transaction.{Transaction}
use lasr.Types.U256.{U256}

pub record TokenDistribution : Type 0 where
  pub program_id : AddressOrNamespace
  pub to : AddressOrNamespace
  pub amount : Option U256
  pub token_ids : List U256
  pub update_fields : List TokenUpdateField

pub record CreateInstruction : Type 0 where
  pub program_namespace : AddressOrNamespace
  pub program_id : AddressOrNamespace
  pub program_owner : Address
  pub total_supply : U256
  pub initialized_supply : U256
  pub distribution : List TokenDistribution

pub record TokenUpdate : Type 0 where
  pub account : AddressOrNamespace
  pub token : AddressOrNamespace
  pub updates : List TokenUpdateField

pub data TokenOrProgramUpdate : Type 0 where
  token_update : TokenUpdate → TokenOrProgramUpdate
  program_update : ProgramUpdate → TokenOrProgramUpdate

pub record UpdateInstruction : Type 0 where
  pub updates : List TokenOrProgramUpdate

pub record TransferInstruction : Type 0 where
  pub token : Address
  pub from : AddressOrNamespace
  pub to : AddressOrNamespace
  pub amount : Option U256
  pub ids : List U256

pub record BurnInstruction : Type 0 where
  pub caller : Address
  pub program_id : AddressOrNamespace
  pub token : Address
  pub from : AddressOrNamespace
  pub amount : Option U256
  pub token_ids : List U256

pub data ContractLogType : Type 0 where
  info error warn debug : String → ContractLogType

pub data Instruction : Type 0 where
  create : CreateInstruction → Instruction
  update : UpdateInstruction → Instruction
  transfer : TransferInstruction → Instruction
  burn : BurnInstruction → Instruction
  log : ContractLogType → Instruction

pub record Inputs : Type 0 where
  pub version : ℤ
  pub account_info : Account
  pub transaction : Transaction
  pub op : String
  pub inputs : String

pub record Outputs : Type 0 where
  pub inputs : Inputs
  pub instructions : List Instruction

abbrev updated_account : TokenOrProgramUpdate → AddressOrNamespace
updated_account (token_update u) = u.account
updated_account (program_update u) = u.account

-- `accounts_involved` of each instruction, and `Instruction::get_accounts_involved`
abbrev pub instruction_accounts : Instruction → List AddressOrNamespace
instruction_accounts (create c) =
    c.program_namespace
    ∷ c.program_id
    ∷ AddressOrNamespace.address c.program_owner
    ∷ map (λ d. d.to) c.distribution
instruction_accounts (update u) = map updated_account u.updates
instruction_accounts (transfer t) = t.from ∷ t.to ∷ []
instruction_accounts (burn b) = b.from ∷ []
instruction_accounts (log _) = []
