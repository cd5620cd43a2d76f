-- ===== src/Inbound/LiveExecutions/RequestModes.antt =====
-- The mode of a request that waits for its first answer.
use openclaw_a2a_plugins.Base.{◌≡◌, none, arith}
use openclaw_a2a_plugins.Base.Text.{Text, text_eq_refl}
use openclaw_a2a_plugins.Base.Dict.{get-delete}
use openclaw_a2a_plugins.Inbound.LiveExecutions.{
  LiveExecutions, get_request_mode, clear_request_mode,
}

-- A mode that is cleared is gone.
pub get_request_mode-clear_request_mode :
    (id : Text) (live : LiveExecutions) → get_request_mode id (clear_request_mode id live) ≡ none
unfolding get_request_mode clear_request_mode
get_request_mode-clear_request_mode id live =
    ground (arith, get-delete id id live.request_modes, text_eq_refl id)
