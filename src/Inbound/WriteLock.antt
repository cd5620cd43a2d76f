-- ===== src/Inbound/WriteLock.antt =====
-- The lock of the task store's directory, packages/openclaw-a2a-inbound/src/task-store-write-lock.ts.
--
-- `Host` is what the code asks of the system and of the language: processes, /proc and dates.
-- A file is given by the value that `JSON.parse` makes of it.
pub mod Inspection
pub mod Locks
pub mod Acquisition
pub mod Answers
pub mod Calls
pub mod Reclaims
pub mod Leases
pub mod Uses
pub mod Respect
pub mod Cleanup
mod Examples
