-- ===== src/Inbound/Coordinator/Events.antt =====
-- The events that the coordinator handles, of
-- packages/openclaw-a2a-inbound/src/task-execution-coordinator.ts.
use openclaw_a2a_plugins.Base.{
  ℕ, ◌+◌, Bool, true, false, not, ◌&&◌, Option, none, some, List, [], ◌∷◌, ◌++◌, get_elem?, is_some,
  or_else, or_option, if◌then◌else◌, ◌==◌,
}
use openclaw_a2a_plugins.Base.Text.{Text, codes, text_eq}
use openclaw_a2a_plugins.Base.Dict.{get}
use openclaw_a2a_plugins.Inbound.Protocol.{JsonRecord}
use openclaw_a2a_plugins.Inbound.Replies.{
  Ambient, read_text, read_trimmed_string, read_texts, truthy_text,
}
use openclaw_a2a_plugins.Inbound.Replies.Objects.{
  create_tool_progress_artifact_update, ToolProgressPhase, finished,
}
use openclaw_a2a_plugins.Inbound.Coordinator.{
  AssistantStage, bus_artifact, Coordinator, Outcome, returned, and_then, change_stage,
  has_assistant_stage_activity,
}
use openclaw_a2a_plugins.Inbound.Coordinator.Publishing.{
  publish_working_status, publish_assistant_stage, promote_to_task, publish_input_required_status,
}
use openclaw_a2a_plugins.Inbound.Coordinator.Reading.{
  is_task_generating, is_non_blocking, ExecutionEvent, capture_run_id, closing, is_json_true,
  matches_expected_session_key, merge_media_urls, normalize_assistant_preview_text, other_run,
  read_approval_pause_message, read_tool_name, read_tool_progress_phase, trimmed,
}
use openclaw_a2a_plugins.Inbound.Coordinator.Stages.{
  flush_queued_assistant_artifact, is_closed, queue_assistant_artifact_flush, start_assistant_stage,
}

module _ (w : Ambient) where
  unfoldable pub prepare_for_execution : Coordinator → Outcome Unit
  prepare_for_execution c =
      if is_some c.request.task
      then promote_to_task w c
      else if is_task_generating c.agent_style
      then promote_to_task w c
      else if is_non_blocking c.response_mode
      then promote_to_task w c
      else returned tt c

  unfoldable pub handle_agent_run_start : Text → Coordinator → Coordinator
  handle_agent_run_start run c = publish_working_status w (capture_run_id (trimmed run) c)

  abbrev completed_if_active : AssistantStage → AssistantStage
  completed_if_active s =
      if has_assistant_stage_activity s then record s { completed = true } else s

  abbrev pub complete_active : Option ℕ → Coordinator → Coordinator
  complete_active none c = c
  complete_active (some i) c = change_stage i completed_if_active c

  abbrev pub close_previous : Option ℕ → ℕ → Coordinator → Outcome Unit
  close_previous none next c = returned tt c
  close_previous (some i) next c =
      if not (i == next) && c.promoted && not (is_closed w (get_elem? c.assistant_stages i))
      then (and_then (publish_assistant_stage w i (closing true) c) λ _ c. returned tt c)
      else returned tt c

  unfoldable pub handle_assistant_message_start : Coordinator → Outcome Unit
  handle_assistant_message_start c = and_then (flush_queued_assistant_artifact w c) λ _ c.
      let previous = c.current in
      and_then (start_assistant_stage w (complete_active previous c))
        λ next c. close_previous previous next c

  abbrev pub fail_lifecycle : JsonRecord → Coordinator → Outcome Unit
  fail_lifecycle d c =
      and_then
        (promote_to_task w (record c {
          lifecycle_error = some (
              or_else (read_trimmed_string (get (codes "error") d))
                (codes "OpenClaw ended the run with a lifecycle error."));
        }))
        λ _ c. flush_queued_assistant_artifact w c

  abbrev pub handle_phase : JsonRecord → Option Text → Coordinator → Outcome Unit
  handle_phase d none c = returned tt c
  handle_phase d (some phase) c =
      let c' = record c { lifecycle_phase = some phase } in
      if text_eq phase (codes "start")
      then returned tt (publish_working_status w c')
      else if text_eq phase (codes "error")
      then fail_lifecycle d c'
      else returned tt c'

  unfoldable pub handle_lifecycle_event : JsonRecord → Coordinator → Outcome Unit
  handle_lifecycle_event d c = handle_phase d (truthy_text (read_text (get (codes "phase") d))) c

  abbrev pub listed : Option Text → List Text
  listed none = []
  listed (some t) = t ∷ []

  abbrev pub event_media_urls : JsonRecord → List Text
  event_media_urls d =
      merge_media_urls (merge_media_urls [] (or_else (read_texts (get (codes "mediaUrls") d)) []))
        (listed (read_trimmed_string (get (codes "mediaUrl") d)))

  abbrev pub event_text : JsonRecord → Option Text
  event_text d = or_option (read_text (get (codes "text") d)) (read_text (get (codes "delta") d))

  abbrev pub streamed : Option Text → List Text → AssistantStage → AssistantStage
  streamed none urls s = record s { media_urls = merge_media_urls s.media_urls urls }
  streamed (some t) urls s = record s {
    streamed_text = some (normalize_assistant_preview_text s.streamed_text t);
    media_urls = merge_media_urls s.media_urls urls;
  }

  abbrev pub is_none : List Text → Bool
  is_none [] = true
  is_none (_ ∷ _) = false

  unfoldable pub handle_assistant_event : JsonRecord → Coordinator → Outcome Unit
  handle_assistant_event d c =
      let words = event_text d in
      let urls = event_media_urls d in
      if not (is_some (truthy_text words)) && is_none urls
      then returned tt c
      else and_then (start_assistant_stage w c) λ i c.
        returned tt (queue_assistant_artifact_flush w (change_stage i (streamed words urls) c))

  abbrev pub pause_for : Option Text → Coordinator → Outcome Unit
  pause_for none c = returned tt c
  pause_for (some words) c = publish_input_required_status w words c

  abbrev pub is_result : ToolProgressPhase → Bool
  is_result finished = true
  is_result _ = false

  abbrev pub publish_tool_progress :
      Text → Text → ToolProgressPhase → JsonRecord → Coordinator → Outcome Unit
  publish_tool_progress name call_id phase d c =
      and_then (flush_queued_assistant_artifact w c) λ _ c.
        let is_error = is_result phase && is_json_true (get (codes "isError") d) in
        let c' = record c {
          artifact_sequence = c.artifact_sequence + 1;
          published =
              c.published
              ++ bus_artifact (
                  create_tool_progress_artifact_update c.request.task_id c.request.context_id name
                    call_id phase d (c.artifact_sequence + 1) is_error)
                ∷ [];
        } in
        if is_result phase && not is_error
        then pause_for (read_approval_pause_message (get (codes "result") d)) c'
        else returned tt c'

  abbrev pub handle_tool :
      Option ToolProgressPhase → Option Text → Option Text → JsonRecord → Coordinator → Outcome Unit
  handle_tool (some phase) (some name) (some call_id) d c =
      and_then (promote_to_task w c) λ _ c.
        if not c.promoted then returned tt c else publish_tool_progress name call_id phase d c
  handle_tool _ _ _ d c = returned tt c

  unfoldable pub handle_tool_event : JsonRecord → Coordinator → Outcome Unit
  handle_tool_event d c =
      handle_tool (read_tool_progress_phase (read_text (get (codes "phase") d))) (read_tool_name d)
        (read_trimmed_string (get (codes "toolCallId") d)) d c

  abbrev pub dispatch : ExecutionEvent → Coordinator → Outcome Unit
  dispatch e c =
      if text_eq e.stream (codes "lifecycle")
      then handle_lifecycle_event e.payload c
      else if text_eq e.stream (codes "assistant")
      then handle_assistant_event e.payload c
      else if text_eq e.stream (codes "tool")
      then handle_tool_event e.payload c
      else returned tt c

  unfoldable pub handle_agent_event : ExecutionEvent → Coordinator → Outcome Unit
  handle_agent_event e c =
      if not (matches_expected_session_key c.expected_session_key e.session_key)
      then returned tt c
      else if other_run c.run_id (trimmed e.run_id)
      then returned tt c
      else dispatch e (publish_working_status w (capture_run_id (trimmed e.run_id) c))
