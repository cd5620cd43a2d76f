-- ===== src/Outbound/ResultShape/Artifacts.antt =====
-- The artifacts that a stream leaves: chunks are put together, and the peer's store agrees.
use openclaw_a2a_plugins.Base.{
  ◌≡◌, refl, Option, none, some, List, [], ◌∷◌, arith, or_else, ◌∙◌, if◌then◌else◌,
}
use openclaw_a2a_plugins.Base.Text.{Text, text_eq, text_eq_iff}
use openclaw_a2a_plugins.Base.Dict.{Dict, get, get-set}
use openclaw_a2a_plugins.Inbound.Protocol.{Part, is_true}
use openclaw_a2a_plugins.Inbound.Merge.Artifacts.{grown}
use openclaw_a2a_plugins.Outbound.ResultShape.Events.{
  Artifact, StreamEvent, message, task, status_update, artifact_update, ArtifactUpdate,
}
use openclaw_a2a_plugins.Outbound.ResultShape.Streams.{
  AccumulatedTaskState, nothing_yet, put_artifacts, apply_artifact_update, updated,
  accumulate_event, accumulate, accumulate_task_state,
}

abbrev parts_in : Option Artifact → Option (List Part)
parts_in none = none
parts_in (some a) = some a.parts

abbrev pub parts_at : Text → Dict Artifact → Option (List Part)
parts_at id artifacts = parts_in (get id artifacts)

-- The parts of the last artifact of a list with an id.
abbrev pub parts_listed : Text → Option (List Part) → List Artifact → Option (List Part)
parts_listed id before [] = before
parts_listed id before (a ∷ as') =
    parts_listed id (if text_eq a.artifact_id id then some a.parts else before) as'

-- The parts that a stream gives to an artifact which had the parts `before`: a task brings its own
-- artifacts, an appended chunk goes last, and any other update starts anew.
abbrev pub gathered : Text → Option (List Part) → List StreamEvent → Option (List Part)
gathered id before [] = before
gathered id before (message m ∷ es) = gathered id before es
gathered id before (task t ∷ es) = gathered id (parts_listed id none (or_else t.artifacts [])) es
gathered id before (status_update e ∷ es) = gathered id before es
gathered id before (artifact_update e ∷ es) =
    gathered id
      (if text_eq e.artifact.artifact_id id
        then some (grown (is_true e.append) before e.artifact.parts)
        else before)
      es

put_artifacts-parts :
    (id : Text) (as' : List Artifact) (next : Dict Artifact)
    → parts_at id (put_artifacts as' next) ≡ parts_listed id (parts_at id next) as'
unfolding put_artifacts
put_artifacts-parts id [] next = refl
put_artifacts-parts id (a ∷ as') next =
    put_artifacts-parts id as' _
    ∙ rw (get-set a.artifact_id id a next) (ground (arith, text_eq_iff a.artifact_id id))

apply_artifact_update-parts :
    (id : Text) (artifacts : Dict Artifact) (e : ArtifactUpdate)
    → parts_at id (apply_artifact_update artifacts e) ≡ (
        if text_eq e.artifact.artifact_id id
        then some (grown (is_true e.append) (parts_at id artifacts) e.artifact.parts)
        else parts_at id artifacts)
unfolding apply_artifact_update
apply_artifact_update-parts id artifacts e = ground (
  arith,
  text_eq_iff e.artifact.artifact_id id,
  get-set e.artifact.artifact_id id
      (updated (is_true e.append) (get e.artifact.artifact_id artifacts) e.artifact) artifacts,
)

accumulate-parts :
    (id : Text) (s : AccumulatedTaskState) (es : List StreamEvent)
    → parts_at id (accumulate s es).artifacts ≡ gathered id (parts_at id s.artifacts) es
unfolding accumulate_event get
accumulate-parts id s [] = refl
accumulate-parts id s (message m ∷ es) = accumulate-parts id (accumulate_event s (message m)) es
accumulate-parts id s (task t ∷ es) =
    accumulate-parts id (accumulate_event s (task t)) es
    ∙ rw (put_artifacts-parts id (or_else t.artifacts []) [])
accumulate-parts id s (status_update e ∷ es) =
    accumulate-parts id (accumulate_event s (status_update e)) es
accumulate-parts id s (artifact_update e ∷ es) =
    accumulate-parts id (accumulate_event s (artifact_update e)) es
    ∙ rw (apply_artifact_update-parts id s.artifacts e)

-- After a stream, an artifact holds the parts of the last task or full update that gave it, and then
-- those of the chunks that were appended since, in order.
pub accumulate_task_state-parts :
    (id : Text) (es : List StreamEvent)
    → parts_at id (accumulate_task_state es).artifacts ≡ gathered id none es
unfolding accumulate_task_state get
accumulate_task_state-parts id es = accumulate-parts id nothing_yet es
