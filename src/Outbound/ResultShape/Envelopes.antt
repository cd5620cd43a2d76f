-- ===== src/Outbound/ResultShape/Envelopes.antt =====
-- The envelopes of the results: `sendSuccess` to `streamUpdate` of
-- packages/openclaw-a2a-outbound/src/result-shape.ts. Their `ok`, `operation` and `phase` are
-- constants of the types. The list of targets is not modelled.
use openclaw_a2a_plugins.Base.{Option, none, some, List}
use openclaw_a2a_plugins.Base.Results.{Result, ok, err, and_then}
use openclaw_a2a_plugins.Inbound.Protocol.{Message}
use openclaw_a2a_plugins.Outbound.Targets.{ResolvedTarget}
use openclaw_a2a_plugins.Outbound.ResultShape.Events.{Task, StreamEvent}
use openclaw_a2a_plugins.Outbound.ResultShape.Summaries.{
  Summary, SummaryTaskContext, message_summary, task_summary,
}
use openclaw_a2a_plugins.Outbound.ResultShape.Streams.{
  StreamError, success_of_no_event, update_of_no_event, last, summarize_stream_events,
}

pub data Action : Type 0 where
  list_targets send watch status cancel : Action

pub data Raw : Type 0 where
  raw_message : Message → Raw
  raw_task : Task → Raw
  raw_stream : (events : List StreamEvent) (final_event : StreamEvent) → Raw

pub record SuccessEnvelope : Type 0 where
  pub action : Action
  pub summary : Summary
  pub raw : Raw

pub record StreamUpdateEnvelope : Type 0 where
  pub action : Action
  pub summary : Summary
  pub raw : StreamEvent

pub data Sent : Type 0 where
  sent_message : Message → Sent
  sent_task : Task → Sent

unfoldable pub send_success : ResolvedTarget → Sent → SummaryTaskContext → SuccessEnvelope
send_success target (sent_message m) context = record {
  action = send;
  summary = message_summary target m context;
  raw = raw_message m;
}
send_success target (sent_task t) context = record {
  action = send;
  summary = task_summary target t context;
  raw = raw_task t;
}

abbrev stream_success_with :
    Action
    → ResolvedTarget
    → List StreamEvent
    → SummaryTaskContext
    → Option StreamEvent
    → Result StreamError SuccessEnvelope
stream_success_with action target events context none = err success_of_no_event
stream_success_with action target events context (some final) =
    and_then (summarize_stream_events target events context)
      λ summary. ok (record { action = action; summary = summary; raw = raw_stream events final })

unfoldable pub stream_success :
    Action
    → ResolvedTarget
    → List StreamEvent
    → SummaryTaskContext
    → Result StreamError SuccessEnvelope
stream_success action target events context =
    stream_success_with action target events context (last events)

abbrev pub send_stream_success :
    ResolvedTarget → List StreamEvent → SummaryTaskContext → Result StreamError SuccessEnvelope
send_stream_success = stream_success send

abbrev pub watch_success :
    ResolvedTarget → List StreamEvent → SummaryTaskContext → Result StreamError SuccessEnvelope
watch_success = stream_success watch

unfoldable pub status_success : ResolvedTarget → Task → SummaryTaskContext → SuccessEnvelope
status_success target t context = record {
  action = status;
  summary = task_summary target t context;
  raw = raw_task t;
}

unfoldable pub cancel_success : ResolvedTarget → Task → SummaryTaskContext → SuccessEnvelope
cancel_success target t context = record {
  action = cancel;
  summary = task_summary target t context;
  raw = raw_task t;
}

abbrev stream_update_with :
    Action
    → ResolvedTarget
    → List StreamEvent
    → SummaryTaskContext
    → Option StreamEvent
    → Result StreamError StreamUpdateEnvelope
stream_update_with action target events context none = err update_of_no_event
stream_update_with action target events context (some final) =
    and_then (summarize_stream_events target events context)
      λ summary. ok (record { action = action; summary = summary; raw = final })

unfoldable pub stream_update :
    Action
    → ResolvedTarget
    → List StreamEvent
    → SummaryTaskContext
    → Result StreamError StreamUpdateEnvelope
stream_update action target events context =
    stream_update_with action target events context (last events)
