-- ===== src/Actors.antt =====
-- The crate `actors`.
pub mod Messages
pub mod Pending
pub mod PreCall
pub mod PendingActor
pub mod AccountCache
pub mod Batch
pub mod Batcher
pub mod Validator
pub mod Scheduler
pub mod Engine
pub mod Executor
pub mod EoServer
pub mod RpcServer
pub mod System
