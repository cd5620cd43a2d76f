-- ===== src/Outbound/TargetCatalog.antt =====
-- packages/openclaw-a2a-outbound/src/target-catalog.ts: the configured targets and the cards of their
-- agents.
pub mod Cards
pub mod Normalization
pub mod Resolution
pub mod Loading
pub mod Matching
pub mod Refreshes
mod Examples
