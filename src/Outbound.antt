-- ===== src/Outbound.antt =====
-- The outbound plugin: packages/openclaw-a2a-outbound.
pub mod Targets
pub mod TargetCatalog
pub mod TaskHandles
pub mod Requests
pub mod Capabilities
pub mod ResultShape
