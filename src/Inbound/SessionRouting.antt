-- ===== src/Inbound/SessionRouting.antt =====
-- packages/openclaw-a2a-inbound/src/session-routing.ts: what a part of a request holds, which
-- parts are refused, which peer a request is from, and what the agent is given of it.
pub mod Parts
pub mod StableJson
pub mod Routes
pub mod Refusals
pub mod Canonical
pub mod Bodies
mod Examples
