-- ===== src/Types.antt =====
-- The crate `types`.
pub mod Error
pub mod Address
pub mod U256
pub mod Token
pub mod TokenUpdate
pub mod Transaction
pub mod Account
pub mod Instruction
pub mod Signing
