-- ===== src/Inbound/Coordinator/Stream/Histories.antt =====
-- What any history of calls publishes.
use openclaw_a2a_plugins.Base.{ℕ, refl, Bool, Option, List, [], ◌∷◌}
use openclaw_a2a_plugins.Base.Text.{Text}
use openclaw_a2a_plugins.Inbound.Protocol.{Json}
use openclaw_a2a_plugins.Inbound.LiveExecutions.{LiveExecutions, InitialResponseMode}
use openclaw_a2a_plugins.Inbound.Replies.{Ambient}
use openclaw_a2a_plugins.Inbound.Coordinator.{
  Coordinator, Outcome, returned, thrown, Request, AgentStyle,
}
use openclaw_a2a_plugins.Inbound.Coordinator.Reading.{ReplyDispatchKind, ExecutionEvent}
use openclaw_a2a_plugins.Inbound.Coordinator.Stages.{run_microtask}
use openclaw_a2a_plugins.Inbound.Coordinator.Events.{
  prepare_for_execution, handle_agent_run_start, handle_assistant_message_start, handle_agent_event,
}
use openclaw_a2a_plugins.Inbound.Coordinator.Deliveries.{handle_reply_payload}
use openclaw_a2a_plugins.Inbound.Coordinator.Finalize.{
  finalize_success, finalize_error, cancel, set_expected_session_key, create,
}
use openclaw_a2a_plugins.Inbound.Coordinator.Stream.{accept, Inv, Holds}
use openclaw_a2a_plugins.Inbound.Coordinator.Stream.Starts.{
  run_microtask-Inv, prepare_for_execution-Inv, handle_agent_run_start-Inv,
  handle_assistant_message_start-Inv,
}
use openclaw_a2a_plugins.Inbound.Coordinator.Stream.Handled.{handle_agent_event-Inv}
use openclaw_a2a_plugins.Inbound.Coordinator.Stream.Delivered.{handle_reply_payload-Inv}
use openclaw_a2a_plugins.Inbound.Coordinator.Stream.Ends.{
  finalize_success-Inv, finalize_error-Inv, cancel-Inv,
}

-- The calls of a coordinator, and what others do to the registry that it shares in between.
pub data Call : Type 0 where
  prepares : Call
  run_starts : Text → Call
  message_starts : Call
  event_comes : ExecutionEvent → Call
  reply_comes : Json → ReplyDispatchKind → Call
  microtask_runs : Call
  sets_session_key : Option Text → Call
  succeeds : Call
  fails : (error : Text) (shutdown : Bool) → Call
  cancels : Call
  registry_changes : LiveExecutions → Call

abbrev left_by : {A : Type 0} → Outcome A → Coordinator
left_by (returned a c) = c
left_by (thrown modes c) = c

left_by-Inv : {A : Type 0} (id : Text) (o : Outcome A) → Holds id (Inv id) o → Inv id (left_by o)
left_by-Inv id (returned a c) h = h
left_by-Inv id (thrown modes c) h = h

module _ (w : Ambient) where
  unfoldable pub call : Coordinator → Call → Coordinator
  call c prepares = left_by (prepare_for_execution w c)
  call c (run_starts run) = handle_agent_run_start w run c
  call c message_starts = left_by (handle_assistant_message_start w c)
  call c (event_comes e) = left_by (handle_agent_event w e c)
  call c (reply_comes payload kind) = left_by (handle_reply_payload w payload kind c)
  call c microtask_runs = left_by (run_microtask w c)
  call c (sets_session_key key) = set_expected_session_key key c
  call c succeeds = left_by (finalize_success w c)
  call c (fails error shutdown) = left_by (finalize_error w error shutdown c)
  call c cancels = left_by (cancel w c)
  call c (registry_changes live) = record c { live = live }

  call-Inv : (id : Text) (c : Coordinator) (k : Call) → Inv id c → Inv id (call c k)
  unfolding call set_expected_session_key
  call-Inv id c prepares v = left_by-Inv id _ (prepare_for_execution-Inv w id c v)
  call-Inv id c (run_starts run) v = handle_agent_run_start-Inv w id run c v
  call-Inv id c message_starts v = left_by-Inv id _ (handle_assistant_message_start-Inv w id c v)
  call-Inv id c (event_comes e) v = left_by-Inv id _ (handle_agent_event-Inv w id e c v)
  call-Inv id c (reply_comes payload kind) v =
      left_by-Inv id _ (handle_reply_payload-Inv w id payload kind c v)
  call-Inv id c microtask_runs v = left_by-Inv id _ (run_microtask-Inv w id c v)
  call-Inv id c (sets_session_key key) v = v
  call-Inv id c succeeds v = left_by-Inv id _ (finalize_success-Inv w id c v)
  call-Inv id c (fails error shutdown) v =
      left_by-Inv id _ (finalize_error-Inv w id error shutdown c v)
  call-Inv id c cancels v = left_by-Inv id _ (cancel-Inv w id c v)
  call-Inv id c (registry_changes live) v = v

  unfoldable pub calls : Coordinator → List Call → Coordinator
  calls c [] = c
  calls c (k ∷ ks) = calls (call c k) ks

  calls-Inv : (id : Text) (c : Coordinator) (ks : List Call) → Inv id c → Inv id (calls c ks)
  unfolding calls
  calls-Inv id c [] v = v
  calls-Inv id c (k ∷ ks) v = calls-Inv id (call c k) ks (call-Inv id c k v)

  -- Whatever calls a coordinator gets, in any order and with errors on the way, its bus has the
  -- snapshot of its task at most once and before every update of the task, at most one final status
  -- and no status after it, artifact updates numbered from 1 without a gap, no direct message once
  -- there is a task, and nothing of another task; and its flags say what was published.
  pub calls-create-Inv :
      (request : Request) (style : AgentStyle) (mode : Option InitialResponseMode)
      (accepted : Option (List Text)) (controller cancel_function : ℕ) (key : Option Text)
      (live : LiveExecutions) (ks : List Call)
      → Inv request.task_id
          (calls (create request style mode accepted controller cancel_function key live) ks)
  calls-create-Inv request style mode accepted controller cancel_function key live ks =
      calls-Inv request.task_id _ ks (unfold create accept in (refl, refl, refl))
