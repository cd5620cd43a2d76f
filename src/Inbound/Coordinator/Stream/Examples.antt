-- ===== src/Inbound/Coordinator/Stream/Examples.antt =====
-- A coordinator that streams two deltas and ends.
use openclaw_a2a_plugins.Base.{refl, false, none, some, List, [], ◌∷◌}
use openclaw_a2a_plugins.Base.Text.{Text, codes}
use openclaw_a2a_plugins.Inbound.Protocol.{str}
use openclaw_a2a_plugins.Base.Dict.{get}
use openclaw_a2a_plugins.Inbound.Samples.{hello}
use openclaw_a2a_plugins.Inbound.Coordinator.Events.{prepare_for_execution}
use openclaw_a2a_plugins.Inbound.Coordinator.Publishing.{
  promote_to_task, flush_staged_outputs, flush_each, publish_working_status,
  publish_submitted_status,
}
use openclaw_a2a_plugins.Inbound.LiveExecutions.{LiveExecutions, activate, non_blocking}
use openclaw_a2a_plugins.Inbound.Replies.{Ambient}
use openclaw_a2a_plugins.Inbound.Coordinator.{Request, Coordinator, hybrid}
use openclaw_a2a_plugins.Inbound.Coordinator.Finalize.{create, finalize_error}
use openclaw_a2a_plugins.Inbound.Coordinator.Stream.Started.{IsFinished}
use openclaw_a2a_plugins.Inbound.Coordinator.Stream.Finishes.{Ends, finalize_error-Ends}
use openclaw_a2a_plugins.Inbound.Coordinator.Stream.{Inv}
use openclaw_a2a_plugins.Inbound.Coordinator.Stream.Histories.{
  Call, prepares, event_comes, microtask_runs, succeeds, call, calls, calls-create-Inv,
}

abbrev pub platform : Ambient
platform = record {
  uuid = λ n. n ∷ [];
  now = λ n. n ∷ [];
  url_name = λ uri. none;
  extension = λ name. [];
  lower_case = λ t. t;
  stringify = λ parts. codes "[]";
}

abbrev pub request : Request
request = record {
  task_id = codes "t1";
  context_id = codes "c1";
  message_id = codes "m1";
  message = hello;
  task = none;
}

abbrev pub nobody : LiveExecutions
nobody = record { executions = []; request_modes = []; signals = none ∷ [] }

abbrev says : Text → Call
says t = event_comes (record {
  run_id = codes "r1";
  stream = codes "assistant";
  payload = (codes "delta", str t) ∷ [];
  session_key = none;
})

abbrev history : List Call
history = prepares ∷ says (codes "ab") ∷ microtask_runs ∷ says (codes "c") ∷ succeeds ∷ []

calls-create-Inv_example :
    Inv
      (codes "t1")
      (calls platform (create request hybrid (some non_blocking) none 0 1 none nobody) history)
calls-create-Inv_example =
    calls-create-Inv platform request hybrid (some non_blocking) none 0 1 none nobody history

abbrev running : Coordinator
running =
    calls platform (create request hybrid (some non_blocking) none 0 1 none nobody) (prepares ∷ [])

finalize_error-Ends_example :
    Ends (IsFinished platform (codes "t1")) (finalize_error platform (codes "broken") false running)
unfolding calls call create prepare_for_execution promote_to_task flush_staged_outputs flush_each
    publish_working_status publish_submitted_status activate get
finalize_error-Ends_example =
    finalize_error-Ends platform (codes "t1") (codes "broken") false running
      (calls-create-Inv platform request hybrid (some non_blocking) none 0 1 none nobody
        (prepares ∷ []))
      refl refl
