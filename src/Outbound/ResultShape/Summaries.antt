-- ===== src/Outbound/ResultShape/Summaries.antt =====
-- The summary of one event, and what can be done next with its task or conversation: `baseSummary`
-- to `artifactUpdateSummary` and `summarizeStreamEvent` of
-- packages/openclaw-a2a-outbound/src/result-shape.ts.
use openclaw_a2a_plugins.Base.{Bool, true, not, Option, none, some, List, [], ◌∷◌, or_option}
use mathlib.Core.Option
use openclaw_a2a_plugins.Base.Text.{Text}
use openclaw_a2a_plugins.Inbound.Protocol.{Message}
use openclaw_a2a_plugins.Outbound.Targets.{ResolvedTarget}
use openclaw_a2a_plugins.Outbound.ResultShape.Events.{
  Artifact, Task, StatusUpdate, ArtifactUpdate, StreamEvent, message, task, status_update,
  artifact_update, extract_message_text, extract_artifacts, extract_task_text,
  is_terminal_task_status,
}

pub data ResponseKind : Type 0 where
  message_kind task_kind : ResponseKind

pub record TaskContinuation : Type 0 where
  pub task_id : Text
  pub task_handle : Option Text
  pub status : Option Text
  pub can_resume_send : Bool
  pub can_send : Bool
  pub can_status : Bool
  pub can_cancel : Bool
  pub can_watch : Bool

pub record ContinuationTarget : Type 0 where
  pub target_url : Text
  pub card_path : Text
  pub preferred_transports : List Text
  pub target_alias : Option Text

-- A conversation is its `context_id`; its `can_send` is always true.
pub record Continuation : Type 0 where
  pub target : ContinuationTarget
  pub task : Option TaskContinuation
  pub conversation : Option Text

pub record Summary : Type 0 where
  pub target_alias : Option Text
  pub target_name : Option Text
  pub target_url : Text
  pub streaming_supported : Option Bool
  pub response_kind : Option ResponseKind
  pub message_text : Option Text
  pub artifacts : Option (List Artifact)
  pub continuation : Option Continuation

pub record SummaryTaskContext : Type 0 where
  pub task_id : Option Text
  pub context_id : Option Text
  pub task_handle : Option Text

abbrev pub base_summary : ResolvedTarget → Summary
base_summary t = record {
  target_alias = t.alias;
  target_name = t.display_name;
  target_url = t.base_url;
  streaming_supported = t.streaming_supported;
  response_kind = none;
  message_text = none;
  artifacts = none;
  continuation = none;
}

-- Watching is refused only to a target that is known not to stream.
abbrev pub may_stream : Option Bool → Bool
may_stream none = true
may_stream (some streaming) = streaming

abbrev pub task_continuation : ResolvedTarget → Option Text → Option Text → Text → TaskContinuation
task_continuation target handle status id = record {
  task_id = id;
  task_handle = handle;
  status = status;
  can_resume_send = not (is_terminal_task_status status);
  can_send = not (is_terminal_task_status status);
  can_status = true;
  can_cancel = not (is_terminal_task_status status);
  can_watch = may_stream target.streaming_supported;
}

abbrev pub continuation_target_of : ResolvedTarget → ContinuationTarget
continuation_target_of t = record {
  target_url = t.base_url;
  card_path = t.card_path;
  preferred_transports = t.preferred_transports;
  target_alias = t.alias;
}

abbrev continued : ResolvedTarget → Option TaskContinuation → Option Text → Option Continuation
continued target of_task conversation =
    some (record {
      target = continuation_target_of target;
      task = of_task;
      conversation = conversation;
    })

abbrev pub continuation_of :
    ResolvedTarget → Option TaskContinuation → Option Text → Option Continuation
continuation_of target none none = none
continuation_of target none (some id) = continued target none (some id)
continuation_of target (some t) conversation = continued target (some t) conversation

unfoldable pub continuation_summary :
    ResolvedTarget → SummaryTaskContext → Option Text → Option Continuation
continuation_summary target context status =
    continuation_of target
      (Option.map (task_continuation target context.task_handle status) context.task_id)
      context.context_id

abbrev pub with_continuation_context :
    ResolvedTarget → Summary → SummaryTaskContext → Option Text → Summary
with_continuation_context target summary context status = record summary {
  continuation = continuation_summary target context status;
}

-- A handle is passed on with a task only.
abbrev handle_for : Option Text → Option Text → Option Text
handle_for none handle = none
handle_for (some id) handle = handle

abbrev pub message_context : Message → SummaryTaskContext → SummaryTaskContext
message_context m context =
    let task_id = or_option m.task_id context.task_id in
    record {
      task_id = task_id;
      context_id = or_option m.context_id context.context_id;
      task_handle = handle_for task_id context.task_handle;
    }

unfoldable pub message_summary : ResolvedTarget → Message → SummaryTaskContext → Summary
message_summary target m context =
    with_continuation_context target
      (record (base_summary target) {
        response_kind = some message_kind;
        message_text = extract_message_text m;
      })
      (message_context m context) none

unfoldable pub task_summary : ResolvedTarget → Task → SummaryTaskContext → Summary
task_summary target t context =
    with_continuation_context target
      (record (base_summary target) {
        response_kind = some task_kind;
        message_text = extract_task_text t;
        artifacts = extract_artifacts t;
      })
      (record {
        task_id = some t.id;
        context_id = or_option t.context_id context.context_id;
        task_handle = context.task_handle;
      })
      (some t.state)

abbrev status_update_summary : ResolvedTarget → StatusUpdate → SummaryTaskContext → Summary
status_update_summary target e context =
    with_continuation_context target
      (record (base_summary target) { response_kind = some task_kind })
      (record {
        task_id = or_option e.task_id context.task_id;
        context_id = or_option e.context_id context.context_id;
        task_handle = context.task_handle;
      })
      (some e.state)

abbrev artifact_update_summary : ResolvedTarget → ArtifactUpdate → SummaryTaskContext → Summary
artifact_update_summary target e context =
    with_continuation_context target
      (record (base_summary target) {
        response_kind = some task_kind;
        artifacts = some (e.artifact ∷ []);
      })
      (record {
        task_id = or_option e.task_id context.task_id;
        context_id = or_option e.context_id context.context_id;
        task_handle = context.task_handle;
      })
      none

unfoldable pub summarize_stream_event : ResolvedTarget → StreamEvent → SummaryTaskContext → Summary
summarize_stream_event target (message m) context = message_summary target m context
summarize_stream_event target (task t) context = task_summary target t context
summarize_stream_event target (status_update e) context = status_update_summary target e context
summarize_stream_event target (artifact_update e) context = artifact_update_summary target e context
