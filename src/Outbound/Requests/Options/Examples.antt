-- ===== src/Outbound/Requests/Options/Examples.antt =====
-- A send action with an explicit timeout and one overridden service parameter.
use openclaw_a2a_plugins.Base.{false, none, some, [], ◌∷◌, refl}
use openclaw_a2a_plugins.Base.Text.{codes}
use openclaw_a2a_plugins.Base.Dict.{get}
use openclaw_a2a_plugins.Outbound.Requests.{
  SendActionInput, NormalizationOptions, text_input, caller,
  normalize_strict_task_creation_send_request,
}
use openclaw_a2a_plugins.Outbound.Requests.Options.{Respects, Made, normalize_send_request_lem}

abbrev hello_action : SendActionInput
hello_action = record {
  parts = text_input (codes "hello") none ∷ [];
  message_id = none;
  task_id = none;
  context_id = none;
  reference_task_ids = none;
  metadata = none;
  accepted_output_modes = none;
  blocking = none;
  history_length = none;
  push_notification_config = none;
  timeout_ms = some 5000;
  service_parameters = some ((codes "tenant", codes "b") ∷ []);
}

abbrev defaults : NormalizationOptions
defaults = record {
  default_timeout_ms = 120000;
  default_service_parameters = (codes "tenant", codes "a") ∷ (codes "region", codes "eu") ∷ [];
  default_accepted_output_modes = codes "text/plain" ∷ [];
  signal = some (caller 1);
}

normalize_send_request_lem_example :
    Made
      (Respects (codes "u1") hello_action defaults (some false))
      (normalize_strict_task_creation_send_request (codes "u1") hello_action defaults)
unfolding get
normalize_send_request_lem_example =
    (normalize_send_request_lem (codes "u1") hello_action defaults (refl, tt)).1
