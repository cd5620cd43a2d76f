-- ===== src/Outbound/ResultShape/SingleEvents.antt =====
-- The summary of one event, and that of a stream of that event only.
use openclaw_a2a_plugins.Base.{
  ◌≡◌, refl, none, some, List, [], ◌∷◌, ◌++◌, arith, or_else, map, ap, ◌∙◌, append_assoc,
  append-nil, sym,
}
use openclaw_a2a_plugins.Base.Text.{Text}
use openclaw_a2a_plugins.Base.Dict.{Dict, get, set, set_absent}
use openclaw_a2a_plugins.Base.Results.{ok}
use openclaw_a2a_plugins.Outbound.Targets.{ResolvedTarget}
use openclaw_a2a_plugins.Outbound.ResultShape.Events.{
  Artifact, StreamEvent, message, task, status_update, artifact_update, joined_text, text_parts,
}
use openclaw_a2a_plugins.Outbound.ResultShape.Summaries.{
  Summary, SummaryTaskContext, summarize_stream_event, message_summary, task_summary,
}
use openclaw_a2a_plugins.Outbound.ResultShape.Streams.{
  put_artifacts, replace_artifacts, summarize_stream_events, accumulate_task_state,
  accumulate_event, apply_artifact_update, state_summary, nothing_yet, AccumulatedTaskState,
}

abbrev values : Dict Artifact → List Artifact
values = map (λ (entry : Text × Artifact). entry.1)

-- The ids of a list of artifacts differ from each other and from the keys of a map.
abbrev AreNew : Dict Artifact → List Artifact → Type 0
AreNew m [] = Unit
AreNew m (a ∷ as') = (get a.artifact_id m ≡ none) × AreNew (m ++ (a.artifact_id, a) ∷ []) as'

values-append : (m n : Dict Artifact) → values (m ++ n) ≡ values m ++ values n
values-append [] n = refl
values-append (e ∷ m) n = ap (λ r. e.1 ∷ r) (values-append m n)

put_artifacts-values :
    (as' : List Artifact) (m : Dict Artifact)
    → AreNew m as'
    → values (put_artifacts as' m) ≡ values m ++ as'
unfolding put_artifacts
put_artifacts-values [] m d = sym (append-nil (values m))
put_artifacts-values (a ∷ as') m (p, d) = rw (set_absent a.artifact_id a m p) (
    put_artifacts-values as' (m ++ (a.artifact_id, a) ∷ []) d
    ∙ rw (values-append m ((a.artifact_id, a) ∷ [])) (append_assoc (values m) (a ∷ []) as'))

abbrev pub DistinctArtifacts : StreamEvent → Type 0
DistinctArtifacts (task t) = AreNew [] (or_else t.artifacts [])
DistinctArtifacts _ = Unit

-- The text that only the summary of a stream gives for an update of an artifact.
abbrev pub text_added : StreamEvent → Summary → Summary
text_added (artifact_update e) s = record s {
  message_text = joined_text (text_parts e.artifact.parts);
}
text_added _ s = s

-- What one event leaves.
abbrev state_of : StreamEvent → AccumulatedTaskState
state_of (message m) = record nothing_yet {
  latest_message = some m;
  latest_task_id = m.task_id;
  latest_context_id = m.context_id;
}
state_of (task t) = record nothing_yet {
  latest_task = some t;
  latest_task_id = some t.id;
  latest_context_id = t.context_id;
  latest_status = some t.state;
  artifacts = replace_artifacts t.artifacts;
}
state_of (status_update e) = record nothing_yet {
  latest_task_id = e.task_id;
  latest_context_id = e.context_id;
  latest_status = some e.state;
}
state_of (artifact_update e) = record nothing_yet {
  latest_task_id = e.task_id;
  latest_context_id = e.context_id;
  artifacts = (e.artifact.artifact_id, e.artifact) ∷ [];
}

accumulate_one : (e : StreamEvent) → accumulate_task_state (e ∷ []) ≡ state_of e
unfolding accumulate_task_state accumulate_event apply_artifact_update get set
accumulate_one (message m) = ground arith
accumulate_one (task t) = ground arith
accumulate_one (status_update e) = ground arith
accumulate_one (artifact_update e) = ground arith

-- A stream of one event has the summary of that event, but for an update of an artifact also the
-- text of its parts; a task must not have two artifacts with one id.
pub summarize_stream_events-one :
    (target : ResolvedTarget) (e : StreamEvent) (context : SummaryTaskContext)
    → DistinctArtifacts e
    → summarize_stream_events target (e ∷ []) context
      ≡ ok (text_added e (summarize_stream_event target e context))
unfolding summarize_stream_events summarize_stream_event message_summary task_summary
    accumulate_task_state
summarize_stream_events-one target (message m) context d = refl
summarize_stream_events-one target (task t) context d =
    rw (accumulate_one (task t))
      (ground (arith, put_artifacts-values (or_else t.artifacts []) [] d))
summarize_stream_events-one target (status_update e) context d =
    ap (λ s. ok (state_summary target s context)) (accumulate_one (status_update e))
summarize_stream_events-one target (artifact_update e) context d =
    ap (λ s. ok (state_summary target s context)) (accumulate_one (artifact_update e))
    ∙ ground (arith, append-nil (text_parts e.artifact.parts))
