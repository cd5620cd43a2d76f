-- ===== src/Inbound/Merge.antt =====
-- How an event changes a task: `ensureHistoryContainsMessage`, `mergeArtifact` and `mergeStatus` of
-- packages/openclaw-a2a-inbound/src/task-store.ts. The clones of the source are the values.
pub mod Identity
pub mod Histories
pub mod Artifacts
mod Examples
use openclaw_a2a_plugins.Base.{
  Bool, Option, none, some, List, [], ◌∷◌, ◌++◌, any, or_else, if◌then◌else◌,
}
use openclaw_a2a_plugins.Base.Text.{Text, text_eq}
use openclaw_a2a_plugins.Base.Dict.{spread}
use openclaw_a2a_plugins.Inbound.Protocol.{
  JsonRecord, Message, Artifact, Task, TaskStatusUpdateEvent, TaskArtifactUpdateEvent, JournalEvent,
  status_update, artifact_update, truthy, is_true,
}

abbrev pub has_message : Text → List Message → Bool
has_message id = any λ m. text_eq m.message_id id

-- The history itself is left as it was, also if it is missing, where the message is there already.
pub ensure_history_contains_message : Task → Message → Task
ensure_history_contains_message task m =
    let history = or_else task.history [] in
    if has_message m.message_id history
    then task
    else record task { history = some (history ++ m ∷ []) }

abbrev merged_metadata : Option JsonRecord → Option JsonRecord → Option JsonRecord
merged_metadata old none = old
merged_metadata old (some m) = some (spread (or_else old []) m)

-- An appended chunk: its parts go last, and its other fields win where they are given.
abbrev append_chunk : Artifact → Artifact → Artifact
append_chunk old chunk = record old {
  parts = old.parts ++ chunk.parts;
  name = if truthy chunk.name then chunk.name else old.name;
  description = if truthy chunk.description then chunk.description else old.description;
  metadata = merged_metadata old.metadata chunk.metadata;
}

abbrev pub has_artifact : Text → List Artifact → Bool
has_artifact id = any λ a. text_eq a.artifact_id id

-- The artifact at the index that `findIndex` returns is changed in place.
pub change_artifact : Text → (Artifact → Artifact) → List Artifact → List Artifact
change_artifact id f [] = []
change_artifact id f (a ∷ rest) =
    if text_eq a.artifact_id id then f a ∷ rest else a ∷ change_artifact id f rest

abbrev pub next_artifact : Bool → Artifact → Artifact → Artifact
next_artifact append chunk old = if append then append_chunk old chunk else chunk

pub merge_artifacts : List Artifact → Bool → Artifact → List Artifact
merge_artifacts artifacts append chunk =
    if has_artifact chunk.artifact_id artifacts
    then change_artifact chunk.artifact_id (next_artifact append chunk) artifacts
    else artifacts ++ chunk ∷ []

pub merge_artifact : Task → TaskArtifactUpdateEvent → Task
merge_artifact task event = record task {
  artifacts =
      some (merge_artifacts (or_else task.artifacts []) (is_true event.append) event.artifact);
}

abbrev with_message : Task → Option Message → Task
with_message task none = task
with_message task (some m) = ensure_history_contains_message task m

pub merge_status : Task → TaskStatusUpdateEvent → Task
merge_status task event = with_message (record task { status = event.status }) event.status.message

pub apply_event : Task → JournalEvent → Task
apply_event task (status_update e) = merge_status task e
apply_event task (artifact_update e) = merge_artifact task e

-- The task after a list of events.
unfoldable pub replay : Task → List JournalEvent → Task
replay task [] = task
replay task (e ∷ es) = replay (apply_event task e) es
