-- ===== src/Inbound/Coordinator/Finalize.antt =====
-- How the coordinator ends a request, of
-- packages/openclaw-a2a-inbound/src/task-execution-coordinator.ts.
use openclaw_a2a_plugins.Base.{
  ℕ, ◌+◌, Bool, true, false, ◌||◌, Option, none, some, List, [], ◌∷◌, length, update_at, is_some,
  or_else, keep, any, if◌then◌else◌, ◌==◌,
}
use openclaw_a2a_plugins.Base.Text.{Text, codes}
use openclaw_a2a_plugins.Inbound.Protocol.{Message, Part, TaskState, completed, failed, canceled}
use openclaw_a2a_plugins.Inbound.LiveExecutions.{
  LiveExecutions, task_canceled, abort, blocking, InitialResponseMode,
}
use openclaw_a2a_plugins.Inbound.Replies.{Ambient, BuiltReplyContent, truthy_text}
use openclaw_a2a_plugins.Inbound.Replies.Objects.{create_agent_message}
use openclaw_a2a_plugins.Inbound.Coordinator.{
  AssistantStage, StagedOutput, assistant_stage, tool_stage, bus_message, Request, AgentStyle,
  Coordinator, Outcome, returned, thrown, and_then, publish, stage_at, change_stage,
  has_assistant_stage_activity,
}
use openclaw_a2a_plugins.Inbound.Coordinator.Publishing.{
  build_assistant_stage_content, publish_assistant_stage, promote_to_task, publish_final_status,
}
use openclaw_a2a_plugins.Inbound.Coordinator.Reading.{
  is_non_blocking, clear_mode, closing, is_aborted, is_server_shutdown_abort, trimmed_option,
}
use openclaw_a2a_plugins.Inbound.Coordinator.Stages.{flush_queued_assistant_artifact}

module _ (w : Ambient) where
  -- The message of the last stage that has content.
  abbrev last_content : List AssistantStage → Coordinator → Option (List Part)
  last_content [] c = none
  last_content (stage ∷ rest) c =
      let later = last_content rest c in
      let parts = (build_assistant_stage_content w stage true c).parts in
      elim later [
        | some found ↦ some found
        | none ↦ elim parts [ [] ↦ none | p ∷ ps ↦ some (p ∷ ps) ]
      ]

  abbrev message_of : Option (List Part) → Coordinator → Option Message
  message_of none c = none
  message_of (some parts) c =
      some (create_agent_message w c.drawn c.request.context_id (some c.request.task_id) parts)

  abbrev pub build_canonical_assistant_status_message : Coordinator → Option Message
  build_canonical_assistant_status_message c = message_of (last_content c.assistant_stages c) c

  abbrev pub close_current : Bool → Option ℕ → Coordinator → Outcome Bool
  close_current require none c = returned false c
  close_current require (some i) c =
      publish_assistant_stage w i (closing require)
        (change_stage i (λ s. record s { completed = true }) c)

  unfoldable pub close_current_assistant_stage : Bool → Coordinator → Outcome Bool
  close_current_assistant_stage require c = close_current require c.current c

  -- The end of a task, once it is one: `words` tells what to say without a message, by whether the
  -- current stage has an artifact.
  abbrev pub finish : TaskState → Bool → (Bool → Option Text) → Coordinator → Outcome Unit
  finish state require words c = and_then (promote_to_task w c) λ _ c.
      and_then (close_current_assistant_stage require c) λ shown c.
        publish_final_status w state (build_canonical_assistant_status_message c) (words shown)
          (record c { drawn = c.drawn + 1 })

  abbrev finish_canceled : Coordinator → Outcome Unit
  finish_canceled c =
      finish canceled false (λ shown. some (codes "Task cancellation requested by the client.")) c

  abbrev is_tool : StagedOutput → Bool
  is_tool (tool_stage p) = true
  is_tool (assistant_stage i) = false

  unfoldable pub can_return_direct_message : Coordinator → Bool
  can_return_direct_message c =
      if is_non_blocking c.response_mode
        || is_some c.request.task
        || c.promoted
        || c.cancel_requested
        || c.final_published
        || is_some (truthy_text c.lifecycle_error)
        || c.paused_for_input_required
      then false
      else if any is_tool c.staged_outputs
      then false
      else length (keep has_assistant_stage_activity c.assistant_stages) == 1

  abbrev finish_completed : Coordinator → Outcome Unit
  finish_completed c =
      finish completed true
        (λ shown.
          if shown
          then none
          else some (codes "OpenClaw completed without a user-visible terminal reply."))
        c

  abbrev pub send_direct : BuiltReplyContent → List Part → Coordinator → Outcome Unit
  send_direct content (p ∷ ps) c = returned tt (
      clear_mode
        (record (publish
          (bus_message (create_agent_message w c.drawn c.request.context_id none (p ∷ ps))) c) {
            drawn = c.drawn + 1;
          }))
  send_direct content [] c =
      if content.has_candidates then thrown content.available_output_modes c else finish_completed c

  abbrev pub try_direct : Option AssistantStage → Coordinator → Outcome Unit
  try_direct none c = finish_completed c
  try_direct (some stage) c =
      let content = build_assistant_stage_content w stage true c in
      send_direct content content.parts c

  abbrev pub succeed_unless : Option Text → Coordinator → Outcome Unit
  succeed_unless (some words) c = finish failed false (λ shown. some words) c
  succeed_unless none c =
      if c.paused_for_input_required
      then returned tt (clear_mode c)
      else if can_return_direct_message c
      then try_direct (stage_at c.current c) c
      else finish_completed c

  abbrev pub succeed : Coordinator → Outcome Unit
  succeed c =
      if c.cancel_requested || is_aborted c
      then finish_canceled c
      else succeed_unless (truthy_text c.lifecycle_error) c

  unfoldable pub finalize_success : Coordinator → Outcome Unit
  finalize_success c =
      if c.final_published
      then returned tt c
      else if is_server_shutdown_abort false c
      then returned tt (clear_mode c)
      else (and_then (flush_queued_assistant_artifact w c) λ _ c. succeed c)

  abbrev pub fail : Text → Coordinator → Outcome Unit
  fail error c =
      if c.cancel_requested || is_aborted c
      then finish_canceled c
      else (let words = or_else c.lifecycle_error error in
          finish failed false (λ shown. some words) (record c { lifecycle_error = some words }))

  -- The error is given by its text, and by whether it is the error of a server shutdown.
  unfoldable pub finalize_error : Text → Bool → Coordinator → Outcome Unit
  finalize_error error shutdown c =
      if c.final_published
      then returned tt c
      else if is_server_shutdown_abort shutdown c
      then returned tt (clear_mode c)
      else (and_then (flush_queued_assistant_artifact w c) λ _ c. fail error c)

  unfoldable pub cancel : Coordinator → Outcome Unit
  cancel c =
      if c.final_published
      then returned tt c
      else flush_queued_assistant_artifact w (record c {
        cancel_requested = true;
        live = record c.live {
          signals = update_at c.controller (abort task_canceled) c.live.signals;
        };
      })

unfoldable pub set_expected_session_key : Option Text → Coordinator → Coordinator
set_expected_session_key key c = record c { expected_session_key = trimmed_option key }

-- A coordinator for a request, before anything happens; `mode` is the mode that the registry knows
-- for its message, and `accepted` what `readAcceptedOutputModes` returns.
unfoldable pub create :
    Request
    → AgentStyle
    → Option InitialResponseMode
    → Option (List Text)
    → ℕ
    → ℕ
    → Option Text
    → LiveExecutions
    → Coordinator
create request style mode accepted controller cancel_function key live = record {
  request = request;
  agent_style = style;
  response_mode = or_else mode blocking;
  accepted_output_modes = or_else accepted (codes "text/plain" ∷ codes "application/json" ∷ []);
  controller = controller;
  cancel_function = cancel_function;
  run_id = none;
  expected_session_key = trimmed_option key;
  staged_outputs = [];
  assistant_stages = [];
  current = none;
  artifact_sequence = 0;
  tool_artifact_count = 0;
  task_published = false;
  submitted_published = false;
  working_published = false;
  final_published = false;
  promoted = false;
  cancel_requested = false;
  lifecycle_phase = none;
  lifecycle_error = none;
  paused_for_input_required = false;
  input_required_published = false;
  assistant_flush_queued = false;
  assistant_flush_scheduled = false;
  published = [];
  live = live;
  drawn = 0;
}
