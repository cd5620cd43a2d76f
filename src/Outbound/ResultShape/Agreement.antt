-- ===== src/Outbound/ResultShape/Agreement.antt =====
-- The two plugins agree on the artifacts of a task: what the inbound store holds of it is what the
-- outbound side puts together from a snapshot and the updates after it.
use openclaw_a2a_plugins.Base.{
  ◌≡◌, refl, ap, Option, none, some, List, [], ◌∷◌, arith, or_else, ◌∙◌, sym, if◌then◌else◌,
  or_option, map,
}
use mathlib.Core.Option
use openclaw_a2a_plugins.Base.Text.{Text, text_eq, text_eq_iff}
use openclaw_a2a_plugins.Inbound.Protocol.{Part, is_true, JournalEvent, TaskState}
use openclaw_a2a_plugins.Inbound.Protocol
use openclaw_a2a_plugins.Inbound.Merge.{replay}
use openclaw_a2a_plugins.Inbound.Merge.Artifacts.{
  grown, artifact_parts, assemble, find_artifact, replay-artifact_parts, parts_of,
}
use openclaw_a2a_plugins.Outbound.ResultShape.Events.{
  Artifact, Task, StreamEvent, task, status_update, artifact_update,
}
use openclaw_a2a_plugins.Outbound.ResultShape.Streams.{accumulate_task_state}
use openclaw_a2a_plugins.Outbound.ResultShape.Artifacts.{
  parts_at, parts_listed, gathered, accumulate_task_state-parts,
}

-- What the inbound plugin sends of its objects, as the other side reads it.
abbrev sent_artifact : Protocol.Artifact → Artifact
sent_artifact a = record {
  artifact_id = a.artifact_id;
  parts = a.parts;
  description = a.description;
  extensions = none;
  metadata = a.metadata;
  name = a.name;
}

module _ (state_text : TaskState → Text) where
  abbrev pub sent_task : Protocol.Task → Task
  sent_task t = record {
    id = t.id;
    context_id = some t.context_id;
    history = t.history;
    artifacts = Option.map (map sent_artifact) t.artifacts;
    state = state_text t.status.state;
  }

  abbrev pub sent_event : JournalEvent → StreamEvent
  sent_event (Protocol.status_update e) = status_update (record {
    task_id = some e.task_id;
    context_id = some e.context_id;
    state = state_text e.status.state;
  })
  sent_event (Protocol.artifact_update e) = artifact_update (record {
    task_id = some e.task_id;
    context_id = some e.context_id;
    append = e.append;
    artifact = sent_artifact e.artifact;
  })

  sent_event-gathered :
      (id : Text) (before : Option (List Part)) (es : List JournalEvent)
      → gathered id before (map sent_event es) ≡ assemble id before es
  sent_event-gathered id before [] = refl
  sent_event-gathered id before (Protocol.status_update e ∷ es) = sent_event-gathered id before es
  sent_event-gathered id before (Protocol.artifact_update e ∷ es) =
      sent_event-gathered id
        (if text_eq e.artifact.artifact_id id
          then some (grown (is_true e.append) before e.artifact.parts)
          else before)
        es

-- No two artifacts of a task have one id.
abbrev pub DistinctArtifacts : List Protocol.Artifact → Type 0
DistinctArtifacts [] = Unit
DistinctArtifacts (a ∷ as') = (find_artifact a.artifact_id as' ≡ none) × DistinctArtifacts as'

sent_artifact-parts_listed :
    (id : Text) (before : Option (List Part)) (as' : List Protocol.Artifact)
    → DistinctArtifacts as'
    → parts_listed id before (map sent_artifact as')
      ≡ or_option (parts_of (find_artifact id as')) before
unfolding find_artifact
sent_artifact-parts_listed id before [] d = refl
sent_artifact-parts_listed id before (a ∷ as') (p, d) = ground (
  arith,
  p,
  text_eq_iff a.artifact_id id,
  sent_artifact-parts_listed id (if text_eq a.artifact_id id then some a.parts else before) as' d,
)

sent_artifacts-parts :
    (id : Text) (o : Option (List Protocol.Artifact))
    → DistinctArtifacts (or_else o [])
    → parts_listed id none (or_else (Option.map (map sent_artifact) o) [])
      ≡ parts_of (find_artifact id (or_else o []))
unfolding find_artifact
sent_artifacts-parts id none d = refl
sent_artifacts-parts id (some as') d = ground (arith, sent_artifact-parts_listed id none as' d)

-- A client that gets a snapshot of a task and the events after it puts together, for each artifact,
-- the parts that the server's store holds after those events, if no two artifacts of the snapshot
-- have one id.
pub accumulate-replay :
    (state_text : TaskState → Text) (id : Text) (t : Protocol.Task) (es : List JournalEvent)
    → DistinctArtifacts (or_else t.artifacts [])
    → let events = task (sent_task state_text t) ∷ map (sent_event state_text) es in
      parts_at id (accumulate_task_state events).artifacts ≡ artifact_parts id (replay t es)
accumulate-replay state_text id t es d =
    accumulate_task_state-parts id (task (sent_task state_text t) ∷ map (sent_event state_text) es)
    ∙ sent_event-gathered state_text id _ es
    ∙ ap (λ before. assemble id before es) (sent_artifacts-parts id t.artifacts d)
    ∙ sym (replay-artifact_parts id t es)
