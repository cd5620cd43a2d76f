-- ===== src/Inbound/TaskStore/LiveTail.antt =====
-- A live tail of packages/openclaw-a2a-inbound/src/task-store.ts, between the calls of the store.
pub mod Follows
pub mod Calls
pub mod Clients
pub mod Complete
mod Examples
