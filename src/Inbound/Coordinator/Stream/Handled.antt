-- ===== src/Inbound/Coordinator/Stream/Handled.antt =====
-- The events that a coordinator handles keep to the automaton.
use openclaw_a2a_plugins.Base.{
  ℕ, ◌+◌, ◌≡◌, refl, Bool, true, not, ◌&&◌, Option, none, some, List, [], ◌∷◌, ◌++◌, is_some,
  ==_iff,
}
use openclaw_a2a_plugins.Base.Text.{Text, codes, text_eq}
use openclaw_a2a_plugins.Base.Dict.{get}
use openclaw_a2a_plugins.Inbound.Protocol.{JsonRecord}
use openclaw_a2a_plugins.Inbound.Replies.{Ambient, truthy_text, read_text, read_trimmed_string}
use openclaw_a2a_plugins.Inbound.Replies.Objects.{
  ToolProgressPhase, create_tool_progress_artifact_update,
}
use openclaw_a2a_plugins.Inbound.Coordinator.{bus_artifact, Coordinator, change_stage}
use openclaw_a2a_plugins.Inbound.Coordinator.Reading.{
  ExecutionEvent, matches_expected_session_key, other_run, trimmed, is_json_true,
  read_tool_progress_phase, read_tool_name, read_approval_pause_message, capture_run_id,
}
use openclaw_a2a_plugins.Inbound.Coordinator.Publishing.{promote_to_task}
use openclaw_a2a_plugins.Inbound.Coordinator.Stages.{
  flush_queued_assistant_artifact, queue_assistant_artifact_flush, start_assistant_stage,
}
use openclaw_a2a_plugins.Inbound.Coordinator.Events.{
  fail_lifecycle, handle_phase, handle_lifecycle_event, event_media_urls, event_text, streamed,
  is_none, handle_assistant_event, pause_for, is_result, publish_tool_progress, handle_tool,
  handle_tool_event, dispatch, handle_agent_event,
}
use openclaw_a2a_plugins.Inbound.Coordinator.Stream.{
  accept-next, Inv, At, Holds, and_then-Holds, if-Holds, if-at,
}
use openclaw_a2a_plugins.Inbound.Coordinator.Stream.Published.{seen_by, step-artifact}
use openclaw_a2a_plugins.Inbound.Coordinator.Stream.Started.{
  publish_working_status-Inv, promote_to_task-At, publish_input_required_status-Inv,
}
use openclaw_a2a_plugins.Inbound.Coordinator.Stream.Starts.{
  flush_queued_assistant_artifact-At, flush_queued_assistant_artifact-Inv, promote_to_task-Inv,
  start_assistant_stage-Inv,
}

module _ (w : Ambient) (id : Text) where
  fail_lifecycle-Inv :
      (d : JsonRecord) (c : Coordinator) → Inv id c → Holds id (Inv id) (fail_lifecycle w d c)
  fail_lifecycle-Inv d c v =
      and_then-Holds id (Inv id) (Inv id) (promote_to_task w _) _ (promote_to_task-Inv w id _ v)
        (λ _ e u. flush_queued_assistant_artifact-Inv w id e u)

  handle_phase-Inv :
      (d : JsonRecord) (phase : Option Text) (c : Coordinator)
      → Inv id c
      → Holds id (Inv id) (handle_phase w d phase c)
  handle_phase-Inv d none c v = v
  handle_phase-Inv d (some phase) c v =
      let c' = record c { lifecycle_phase = some phase } in
      if-Holds id (Inv id) (text_eq phase (codes "start")) _ _
        (λ _. publish_working_status-Inv w id c' v)
        (λ _.
          if-Holds id (Inv id) (text_eq phase (codes "error")) _ _ (λ _. fail_lifecycle-Inv d c' v)
            (λ _. v))

  handle_lifecycle_event-Inv :
      (d : JsonRecord) (c : Coordinator)
      → Inv id c
      → Holds id (Inv id) (handle_lifecycle_event w d c)
  unfolding handle_lifecycle_event
  handle_lifecycle_event-Inv d c v =
      handle_phase-Inv d (truthy_text (read_text (get (codes "phase") d))) c v

  queue_assistant_artifact_flush-Inv :
      (c : Coordinator) → Inv id c → Inv id (queue_assistant_artifact_flush w c)
  unfolding queue_assistant_artifact_flush
  queue_assistant_artifact_flush-Inv c v = if-at (Inv id) c.promoted _ _ (λ _. v) (λ _. v)

  streamed-Inv :
      (i : ℕ) (words : Option Text) (urls : List Text) (c : Coordinator)
      → Inv id c
      → Inv id (change_stage i (streamed w words urls) c)
  streamed-Inv i words urls c v = v

  handle_assistant_event-Inv :
      (d : JsonRecord) (c : Coordinator)
      → Inv id c
      → Holds id (Inv id) (handle_assistant_event w d c)
  unfolding handle_assistant_event
  handle_assistant_event-Inv d c v =
      if-Holds id (Inv id)
        (not (is_some (truthy_text (event_text w d))) && is_none w (event_media_urls w d)) _ _
        (λ _. v)
        (λ _.
          and_then-Holds id (Inv id) (Inv id) (start_assistant_stage w c) _
            (start_assistant_stage-Inv w id c v)
            (λ i e u.
              queue_assistant_artifact_flush-Inv
                (change_stage i (streamed w (event_text w d) (event_media_urls w d)) e) u))

  pause_for-Inv :
      (words : Option Text) (c : Coordinator) → Inv id c → Holds id (Inv id) (pause_for w words c)
  pause_for-Inv none c v = v
  pause_for-Inv (some words) c v = publish_input_required_status-Inv w id words c v

  -- The update of a tool's progress has the next sequence number.
  tool_progress-Inv :
      (name call_id : Text) (phase : ToolProgressPhase) (d : JsonRecord) (is_error : Bool)
      (c : Coordinator)
      → Inv id c
      → c.promoted ≡ true
      → Inv id (record c {
        artifact_sequence = c.artifact_sequence + 1;
        published =
            c.published
            ++ bus_artifact (
                create_tool_progress_artifact_update c.request.task_id c.request.context_id name
                  call_id phase d
                  (c.artifact_sequence + 1)
                  is_error)
              ∷ [];
      })
  unfolding create_tool_progress_artifact_update get text_eq
  tool_progress-Inv name call_id phase d is_error c (same, flags, read) task =
      let event =
        create_tool_progress_artifact_update c.request.task_id c.request.context_id name call_id
          phase d (c.artifact_sequence + 1) is_error in
      (
        same,
        flags,
        accept-next id c.published (bus_artifact event) read (
            step-artifact id (seen_by c) event same task
              ((==_iff (c.artifact_sequence + 1) (c.artifact_sequence + 1)).1 refl)),
      )

  publish_tool_progress-Inv :
      (name call_id : Text) (phase : ToolProgressPhase) (d : JsonRecord) (c : Coordinator)
      → Inv id c
      → c.promoted ≡ true
      → Holds id (Inv id) (publish_tool_progress w name call_id phase d c)
  publish_tool_progress-Inv name call_id phase d c v task =
      let f = c.final_published in
      let is_error = is_result w phase && is_json_true (get (codes "isError") d) in
      and_then-Holds id (At id f) (Inv id) (flush_queued_assistant_artifact w c) _
        (flush_queued_assistant_artifact-At w id f c (v, task, refl))
        (λ _ e at.
          let told = tool_progress-Inv name call_id phase d is_error e at.0 at.1 in
          if-Holds id (Inv id) (is_result w phase && not is_error) _ _
            (λ _. pause_for-Inv (read_approval_pause_message (get (codes "result") d)) _ told)
            (λ _. told))

  handle_tool-Inv :
      (phase : Option ToolProgressPhase) (name call_id : Option Text) (d : JsonRecord)
      (c : Coordinator)
      → Inv id c
      → Holds id (Inv id) (handle_tool w phase name call_id d c)
  handle_tool-Inv (some phase) (some name) (some call_id) d c v =
      and_then-Holds id (At id c.final_published) (Inv id) (promote_to_task w c) _
        (promote_to_task-At w id c v)
        (λ _ e at.
          if-Holds id (Inv id) (not e.promoted) _ _ (λ _. at.0)
            (λ _. publish_tool_progress-Inv name call_id phase d e at.0 at.1))
  handle_tool-Inv none _ _ d c v = v
  handle_tool-Inv (some _) none _ d c v = v
  handle_tool-Inv (some _) (some _) none d c v = v

  handle_tool_event-Inv :
      (d : JsonRecord) (c : Coordinator) → Inv id c → Holds id (Inv id) (handle_tool_event w d c)
  unfolding handle_tool_event
  handle_tool_event-Inv d c v =
      handle_tool-Inv (read_tool_progress_phase (read_text (get (codes "phase") d)))
        (read_tool_name d) (read_trimmed_string (get (codes "toolCallId") d)) d c v

  dispatch-Inv :
      (e : ExecutionEvent) (c : Coordinator) → Inv id c → Holds id (Inv id) (dispatch w e c)
  dispatch-Inv e c v =
      if-Holds id (Inv id) (text_eq e.stream (codes "lifecycle")) _ _
        (λ _. handle_lifecycle_event-Inv e.payload c v)
        (λ _.
          if-Holds id (Inv id) (text_eq e.stream (codes "assistant")) _ _
            (λ _. handle_assistant_event-Inv e.payload c v)
            (λ _.
              if-Holds id (Inv id) (text_eq e.stream (codes "tool")) _ _
                (λ _. handle_tool_event-Inv e.payload c v) (λ _. v)))

  pub handle_agent_event-Inv :
      (e : ExecutionEvent) (c : Coordinator)
      → Inv id c
      → Holds id (Inv id) (handle_agent_event w e c)
  unfolding handle_agent_event
  handle_agent_event-Inv e c v =
      if-Holds id (Inv id) (not (matches_expected_session_key c.expected_session_key e.session_key))
        _ _ (λ _. v)
        (λ _.
          if-Holds id (Inv id) (other_run c.run_id (trimmed e.run_id)) _ _ (λ _. v)
            (λ _.
              dispatch-Inv e _
                (publish_working_status-Inv w id (capture_run_id (trimmed e.run_id) c) v)))
