-- ===== src/Inbound/Merge/Artifacts.antt =====
-- What the artifacts of a task hold after any events: chunks that are appended are put together.
use openclaw_a2a_plugins.Base.{
  ◌≡◌, refl, Bool, true, false, ◌&&◌, Option, none, some, List, [], ◌∷◌, ◌++◌, arith, or_else, ◌∙◌,
  if◌then◌else◌, or_option, is_some,
}
use mathlib.Core.Option
use openclaw_a2a_plugins.Base.Text.{Text, text_eq, text_eq_iff}
use openclaw_a2a_plugins.Inbound.Protocol.{
  Artifact, Part, Task, TaskStatusUpdateEvent, JournalEvent, status_update, artifact_update,
  is_true, Message,
}
use openclaw_a2a_plugins.Inbound.Merge.{
  has_artifact, change_artifact, next_artifact, merge_artifacts, merge_artifact, merge_status,
  with_message, ensure_history_contains_message, apply_event, replay,
}

-- The first artifact with an id.
unfoldable pub find_artifact : Text → List Artifact → Option Artifact
find_artifact id [] = none
find_artifact id (a ∷ rest) = if text_eq a.artifact_id id then some a else find_artifact id rest

abbrev pub parts_of : Option Artifact → Option (List Part)
parts_of none = none
parts_of (some a) = some a.parts

find-change_artifact :
    (id k : Text) (append : Bool) (chunk : Artifact) (as' : List Artifact)
    → chunk.artifact_id ≡ id
    → parts_of (find_artifact k (change_artifact id (next_artifact append chunk) as')) ≡ (
        if has_artifact id as' && text_eq id k
        then parts_of (Option.map (next_artifact append chunk) (find_artifact k as'))
        else parts_of (find_artifact k as'))
unfolding find_artifact change_artifact
find-change_artifact id k append chunk [] e = refl
find-change_artifact id k append chunk (a ∷ as') e = ground (
  arith,
  text_eq_iff a.artifact_id id,
  text_eq_iff a.artifact_id k,
  text_eq_iff id k,
  text_eq_iff chunk.artifact_id k,
  find-change_artifact id k append chunk as' e,
)

find_artifact-append :
    (k : Text) (as' : List Artifact) (c : Artifact)
    → find_artifact k (as' ++ c ∷ [])
      ≡ or_option (find_artifact k as') (if text_eq c.artifact_id k then some c else none)
unfolding find_artifact
find_artifact-append k [] c = refl
find_artifact-append k (a ∷ as') c = ground (arith, find_artifact-append k as' c)

has-find_artifact :
    (k : Text) (as' : List Artifact) → has_artifact k as' ≡ is_some (find_artifact k as')
unfolding find_artifact
has-find_artifact k [] = refl
has-find_artifact k (a ∷ as') = ground (arith, has-find_artifact k as')

-- The parts of an artifact after one update of it.
abbrev pub grown : Bool → Option (List Part) → List Part → List Part
grown append none parts = parts
grown true (some before) parts = before ++ parts
grown false (some before) parts = parts

merge_artifacts-parts :
    (k : Text) (as' : List Artifact) (append : Bool) (c : Artifact)
    → parts_of (find_artifact k (merge_artifacts as' append c)) ≡ (
        if text_eq c.artifact_id k
        then some (grown append (parts_of (find_artifact k as')) c.parts)
        else parts_of (find_artifact k as'))
unfolding merge_artifacts
merge_artifacts-parts k as' append c = ground (
  arith,
  find-change_artifact c.artifact_id k append c as' refl,
  find_artifact-append k as' c,
  has-find_artifact c.artifact_id as',
  text_eq_iff c.artifact_id k,
)

abbrev pub artifact_parts : Text → Task → Option (List Part)
artifact_parts id t = parts_of (find_artifact id (or_else t.artifacts []))

-- The parts that a list of events gives to an artifact which had the parts `before`.
abbrev pub assemble : Text → Option (List Part) → List JournalEvent → Option (List Part)
assemble id before [] = before
assemble id before (status_update e ∷ es) = assemble id before es
assemble id before (artifact_update e ∷ es) =
    assemble id
      (if text_eq e.artifact.artifact_id id
        then some (grown (is_true e.append) before e.artifact.parts)
        else before)
      es

ensure-artifacts :
    (t : Task) (m : Message) → (ensure_history_contains_message t m).artifacts ≡ t.artifacts
unfolding ensure_history_contains_message
ensure-artifacts t m = ground arith

with_message-artifacts :
    (t : Task) (o : Option Message) → (with_message t o).artifacts ≡ t.artifacts
with_message-artifacts t none = refl
with_message-artifacts t (some m) = ensure-artifacts t m

merge_status-artifacts :
    (t : Task) (e : TaskStatusUpdateEvent) → (merge_status t e).artifacts ≡ t.artifacts
unfolding merge_status
merge_status-artifacts t e =
    with_message-artifacts (record t { status = e.status }) e.status.message

-- Whatever events a task goes through, an artifact holds the parts of its last full update followed
-- by those of the chunks that were appended since, in order; other artifacts and status updates
-- make no difference to it.
pub replay-artifact_parts :
    (id : Text) (t : Task) (es : List JournalEvent)
    → artifact_parts id (replay t es) ≡ assemble id (artifact_parts id t) es
unfolding replay apply_event merge_artifact
replay-artifact_parts id t [] = refl
replay-artifact_parts id t (status_update e ∷ es) =
    replay-artifact_parts id (merge_status t e) es ∙ rw (merge_status-artifacts t e)
replay-artifact_parts id t (artifact_update e ∷ es) =
    replay-artifact_parts id (merge_artifact t e) es
    ∙ rw (merge_artifacts-parts id (or_else t.artifacts []) (is_true e.append) e.artifact)
