-- ===== src/Inbound/LiveExecutions/Cancellation/Examples.antt =====
-- The theorems on live executions at a concrete registry.
use openclaw_a2a_plugins.Base.{◌≡◌, refl, true, false, some, none, some, [], ◌∷◌}
use openclaw_a2a_plugins.Base.Text.{codes, text_eq}
use openclaw_a2a_plugins.Base.Dict.{get, has}
use openclaw_a2a_plugins.Inbound.LiveExecutions.{
  LiveExecutions, LiveExecutionRecord, find, is_live, task_canceled, request_cancellation,
}
use openclaw_a2a_plugins.Inbound.LiveExecutions.Cancellation.{
  activates, calls, requested, request_cancellation-calls,
}

abbrev running : LiveExecutionRecord
running = record {
  task_id = codes "t1";
  context_id = codes "c1";
  abort_controller = 0;
  cancel_requested = false;
  cancel = none;
}

abbrev one_live : LiveExecutions
one_live = record {
  executions = (codes "t1", running) ∷ [];
  request_modes = [];
  signals = none ∷ some task_canceled ∷ [];
}

request_cancellation-calls_example :
    requested (
      find (codes "t1") (
        calls
          (request_cancellation (codes "t1") one_live).0
          (activates (codes "t1") (codes "c2") 1 none ∷ [])))
    ≡ true
unfolding is_live has get text_eq
request_cancellation-calls_example =
    request_cancellation-calls (codes "t1") one_live
      (activates (codes "t1") (codes "c2") 1 none ∷ []) refl ((λ e. e), tt)
