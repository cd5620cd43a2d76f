-- ===== src/Inbound/RequestHistory/Examples.antt =====
-- A history of one message, of which none was asked for.
use openclaw_a2a_plugins.Base.{◌≡◌, refl, [], ◌∷◌, length}
use openclaw_a2a_plugins.Inbound.Samples.{fresh_task, hello}
use openclaw_a2a_plugins.Inbound.RequestHistory.{trim_task_history_lem}

trim_task_history_lem_example : length (trim_task_history_lem fresh_task 0 (hello ∷ []) refl).1 ≡ 1
trim_task_history_lem_example = (trim_task_history_lem fresh_task 0 (hello ∷ []) refl).3
