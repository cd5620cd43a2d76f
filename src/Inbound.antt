-- ===== src/Inbound.antt =====
-- The inbound plugin: packages/openclaw-a2a-inbound.
pub mod Protocol
pub mod Samples
pub mod TaskStates
pub mod SessionRouting
pub mod Subscription
pub mod Merge
pub mod Records
pub mod TaskStore
pub mod WriteLock
pub mod LiveExecutions
pub mod ResubscribePlanner
pub mod Replies
pub mod Coordinator
pub mod RequestHistory
pub mod RequestHandler
