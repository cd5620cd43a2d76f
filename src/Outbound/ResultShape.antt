-- ===== src/Outbound/ResultShape.antt =====
-- packages/openclaw-a2a-outbound/src/result-shape.ts: what the tool tells of the messages, tasks and
-- updates that a peer sends.
pub mod Events
pub mod Summaries
pub mod Streams
pub mod Artifacts
pub mod Agreement
pub mod Latest
pub mod SingleEvents
pub mod Envelopes
mod Examples
