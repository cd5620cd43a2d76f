-- ===== src/Outbound/Targets.antt =====
-- The resolved target of packages/openclaw-a2a-outbound/src/sdk-client-pool.ts.
use openclaw_a2a_plugins.Base.{Bool, Option, List}
use openclaw_a2a_plugins.Base.Text.{Text}

pub record ResolvedTarget : Type 0 where
  pub base_url : Text
  pub card_path : Text
  pub preferred_transports : List Text
  pub alias : Option Text
  pub display_name : Option Text
  pub description : Option Text
  pub streaming_supported : Option Bool
