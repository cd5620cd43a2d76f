-- ===== src/Outbound/ResultShape/Examples.antt =====
-- A peer that sends a task with one artifact and a chunk for it, and then completes the task.
use openclaw_a2a_plugins.Base.{refl, true, false, not, none, some, List, [], ◌∷◌, ◌≡◌, map}
use openclaw_a2a_plugins.Base.Text.{Text, codes, text_eq}
use openclaw_a2a_plugins.Base.Dict.{get}
use openclaw_a2a_plugins.Base.Results.{ok}
use openclaw_a2a_plugins.Inbound.Protocol.{TaskState, JournalEvent}
use openclaw_a2a_plugins.Inbound.Samples.{words, fresh_task, chunk}
use openclaw_a2a_plugins.Inbound.Merge.{replay}
use openclaw_a2a_plugins.Inbound.Merge.Artifacts.{artifact_parts}
use openclaw_a2a_plugins.Outbound.Targets.{ResolvedTarget}
use openclaw_a2a_plugins.Outbound.ResultShape.Events.{
  Artifact, Task, StreamEvent, task, status_update, artifact_update, is_terminal_task_status,
}
use openclaw_a2a_plugins.Outbound.ResultShape.Summaries.{
  Summary, SummaryTaskContext, Continuation, TaskContinuation, task_kind, may_stream,
  summarize_stream_event,
}
use openclaw_a2a_plugins.Outbound.ResultShape.Streams.{
  accumulate_task_state, summarize_stream_events,
}
use openclaw_a2a_plugins.Outbound.ResultShape.Artifacts.{parts_at, gathered}
use openclaw_a2a_plugins.Outbound.ResultShape.Agreement.{sent_task, sent_event, accumulate-replay}
use openclaw_a2a_plugins.Outbound.ResultShape.Latest.{
  last_told, status_told, summarize_stream_events_lem,
}
use openclaw_a2a_plugins.Outbound.ResultShape.SingleEvents.{text_added, summarize_stream_events-one}

abbrev target : ResolvedTarget
target = record {
  base_url = codes "https://peer.example";
  card_path = codes "/card.json";
  preferred_transports = codes "JSONRPC" ∷ [];
  alias = none;
  display_name = none;
  description = none;
  streaming_supported = some true;
}

abbrev context : SummaryTaskContext
context = record { task_id = none; context_id = none; task_handle = some (codes "h1") }

abbrev report : Text → Artifact
report t = record {
  artifact_id = codes "a1";
  parts = words t ∷ [];
  description = none;
  extensions = none;
  metadata = none;
  name = none;
}

abbrev working_task : Task
working_task = record {
  id = codes "t1";
  context_id = some (codes "c1");
  history = none;
  artifacts = some (report (codes "a") ∷ []);
  state = codes "working";
}

abbrev stream : List StreamEvent
stream =
    task working_task
    ∷ artifact_update (record {
      task_id = some (codes "t1");
      context_id = none;
      append = some true;
      artifact = report (codes "b");
    })
    ∷ status_update (record { task_id = none; context_id = none; state = codes "completed" })
    ∷ []

stream_gathers :
    gathered (codes "a1") none stream ≡ some (words (codes "a") ∷ words (codes "b") ∷ [])
unfolding text_eq
stream_gathers = refl

summarize_stream_events_lem_example :
    (s : Summary) × (c : Continuation) × (t : TaskContinuation) × (summarize_stream_events target
        stream context
      ≡ ok s)
    × (s.response_kind ≡ some task_kind)
    × (s.continuation ≡ some c)
    × (c.task ≡ some t)
    × (t.task_id ≡ codes "t1")
    × (t.status ≡ last_told status_told stream)
    × (t.can_send ≡ not (is_terminal_task_status (last_told status_told stream)))
    × (t.can_cancel ≡ t.can_send)
    × (t.can_watch ≡ may_stream target.streaming_supported)
summarize_stream_events_lem_example =
    summarize_stream_events_lem target stream context (codes "t1") refl refl

summarize_stream_events-one_example :
    summarize_stream_events target (task working_task ∷ []) context
    ≡ ok
        (text_added (task working_task) (summarize_stream_event target (task working_task) context))
unfolding get
summarize_stream_events-one_example =
    summarize_stream_events-one target (task working_task) context (refl, tt)

abbrev state_text : TaskState → Text
state_text state = codes "working"

abbrev chunks : List JournalEvent
chunks = chunk false (codes "x") ∷ chunk true (codes "y") ∷ []

accumulate-replay_example :
    parts_at
      (codes "a1")
      (accumulate_task_state
        (task (sent_task state_text fresh_task) ∷ map (sent_event state_text) chunks)).artifacts
    ≡ artifact_parts (codes "a1") (replay fresh_task chunks)
accumulate-replay_example = accumulate-replay state_text (codes "a1") fresh_task chunks tt
