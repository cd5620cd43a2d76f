-- ===== src/Outbound/ResultShape/Streams.antt =====
-- The summary of a stream of events, and the envelopes of the results: `isTaskBearingEvent` to
-- `summarizeStreamEvents`, and `sendSuccess` to `streamUpdate`, of
-- packages/openclaw-a2a-outbound/src/result-shape.ts. An error is a `TypeError` that is thrown.
use openclaw_a2a_plugins.Base.{
  Bool, true, false, Option, none, some, List, [], ◌∷◌, ◌++◌, map, keep, or_else, or_option,
  if◌then◌else◌,
}
use openclaw_a2a_plugins.Base.Text.{Text}
use openclaw_a2a_plugins.Base.Dict.{Dict, get, set}
use openclaw_a2a_plugins.Base.Results.{Result, ok, err}
use openclaw_a2a_plugins.Inbound.Protocol.{Message, is_true}
use openclaw_a2a_plugins.Outbound.Targets.{ResolvedTarget}
use openclaw_a2a_plugins.Outbound.ResultShape.Events.{
  Artifact, Task, ArtifactUpdate, StreamEvent, message, task, status_update, artifact_update,
  extract_message_text, extract_task_history_text, extract_artifact_text, joined_text,
  some_artifacts,
}
use openclaw_a2a_plugins.Outbound.ResultShape.Summaries.{
  Summary, SummaryTaskContext, ResponseKind, message_kind, task_kind, base_summary,
  with_continuation_context, message_context,
}

abbrev pub is_task_bearing_event : StreamEvent → Bool
is_task_bearing_event (message m) = false
is_task_bearing_event _ = true

pub record AccumulatedTaskState : Type 0 where
  pub latest_message : Option Message
  pub latest_task : Option Task
  pub latest_task_id : Option Text
  pub latest_context_id : Option Text
  pub latest_status : Option Text
  pub artifacts : Dict Artifact

abbrev pub nothing_yet : AccumulatedTaskState
nothing_yet = record {
  latest_message = none;
  latest_task = none;
  latest_task_id = none;
  latest_context_id = none;
  latest_status = none;
  artifacts = [];
}

unfoldable pub put_artifacts : List Artifact → Dict Artifact → Dict Artifact
put_artifacts [] next = next
put_artifacts (a ∷ as') next = put_artifacts as' (set a.artifact_id a next)

abbrev pub replace_artifacts : Option (List Artifact) → Dict Artifact
replace_artifacts artifacts = put_artifacts (or_else artifacts []) []

-- What an appended chunk makes of the artifact before it.
abbrev pub appended : Artifact → Artifact → Artifact
appended previous next = record {
  artifact_id = previous.artifact_id;
  parts = previous.parts ++ next.parts;
  description = or_option next.description previous.description;
  extensions = or_option next.extensions previous.extensions;
  metadata = or_option next.metadata previous.metadata;
  name = or_option next.name previous.name;
}

abbrev pub updated : Bool → Option Artifact → Artifact → Artifact
updated append none next = next
updated append (some previous) next = if append then appended previous next else next

unfoldable pub apply_artifact_update : Dict Artifact → ArtifactUpdate → Dict Artifact
apply_artifact_update artifacts update =
    let next = update.artifact in
    set next.artifact_id (updated (is_true update.append) (get next.artifact_id artifacts) next)
      artifacts

-- The body of the loop of `accumulateTaskState`.
unfoldable pub accumulate_event : AccumulatedTaskState → StreamEvent → AccumulatedTaskState
accumulate_event state (message m) = record state {
  latest_message = some m;
  latest_task_id = or_option m.task_id state.latest_task_id;
  latest_context_id = or_option m.context_id state.latest_context_id;
}
accumulate_event state (task t) = record state {
  latest_task = some t;
  latest_task_id = some t.id;
  latest_context_id = t.context_id;
  latest_status = some t.state;
  artifacts = replace_artifacts t.artifacts;
}
accumulate_event state (status_update e) = record state {
  latest_task_id = or_option e.task_id state.latest_task_id;
  latest_context_id = or_option e.context_id state.latest_context_id;
  latest_status = some e.state;
}
accumulate_event state (artifact_update e) = record state {
  latest_task_id = or_option e.task_id state.latest_task_id;
  latest_context_id = or_option e.context_id state.latest_context_id;
  artifacts = apply_artifact_update state.artifacts e;
}

abbrev pub accumulate : AccumulatedTaskState → List StreamEvent → AccumulatedTaskState
accumulate state [] = state
accumulate state (e ∷ es) = accumulate (accumulate_event state e) es

unfoldable pub accumulate_task_state : List StreamEvent → AccumulatedTaskState
accumulate_task_state es = accumulate nothing_yet es

abbrev pub extract_artifacts_from_state : AccumulatedTaskState → Option (List Artifact)
extract_artifacts_from_state state =
    some_artifacts (map (λ (entry : Text × Artifact). entry.1) state.artifacts)

abbrev message_text_of : Option Message → Option Text
message_text_of none = none
message_text_of (some m) = extract_message_text m

-- The text of the latest message stands in where there is no other.
abbrev text_or_message : Option Text → Option Message → Option Text
text_or_message (some t) m = some t
text_or_message none m = message_text_of m

abbrev pub extract_task_text_from_state :
    AccumulatedTaskState → Option (List Artifact) → Option Text
extract_task_text_from_state state artifacts =
    text_or_message
      (joined_text (extract_task_history_text state.latest_task ++ extract_artifact_text artifacts))
      state.latest_message

pub data StreamError : Type 0 where
  summary_of_no_event message_events_required success_of_no_event update_of_no_event : StreamError

-- `events.at(-1)`.
abbrev pub last : {A : Type 0} → List A → Option A
last [] = none
last (x ∷ []) = some x
last (x ∷ y ∷ ys) = last (y ∷ ys)

abbrev single_message : List StreamEvent → Option ResponseKind
single_message (e ∷ []) = some message_kind
single_message _ = none

abbrev messages_summary :
    ResolvedTarget
    → List StreamEvent
    → SummaryTaskContext
    → Option StreamEvent
    → Result StreamError Summary
messages_summary target events context (some (message m)) = ok (
    with_continuation_context target
      (record (base_summary target) {
        response_kind = single_message events;
        message_text = extract_message_text m;
      })
      (message_context m context) none)
messages_summary target events context _ = err message_events_required

abbrev pub state_summary : ResolvedTarget → AccumulatedTaskState → SummaryTaskContext → Summary
state_summary target state context =
    let artifacts = extract_artifacts_from_state state in
    with_continuation_context target
      (record (base_summary target) {
        response_kind = some task_kind;
        message_text = extract_task_text_from_state state artifacts;
        artifacts = artifacts;
      })
      (record {
        task_id = or_option state.latest_task_id context.task_id;
        context_id = or_option state.latest_context_id context.context_id;
        task_handle = context.task_handle;
      })
      state.latest_status

abbrev by_kind :
    ResolvedTarget
    → List StreamEvent
    → SummaryTaskContext
    → List StreamEvent
    → Result StreamError Summary
by_kind target events context [] = messages_summary target events context (last events)
by_kind target events context (e ∷ es) =
    ok (state_summary target (accumulate_task_state events) context)

unfoldable pub summarize_stream_events :
    ResolvedTarget → List StreamEvent → SummaryTaskContext → Result StreamError Summary
summarize_stream_events target [] context = err summary_of_no_event
summarize_stream_events target (e ∷ es) context =
    by_kind target (e ∷ es) context (keep is_task_bearing_event (e ∷ es))
