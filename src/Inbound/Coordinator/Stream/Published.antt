-- ===== src/Inbound/Coordinator/Stream/Published.antt =====
-- The publishing methods of a coordinator that has a task keep to the automaton.
use openclaw_a2a_plugins.Base.{
  ℕ, ◌+◌, ◌≡◌, refl, ap, ◌∙◌, sym, Bool, true, false, not, ◌&&◌, Option, none, some, List, [], ◌∷◌,
  arith, get_elem?, ==_iff,
}
use openclaw_a2a_plugins.Base.Text.{Text, text_eq, text_eq_iff}
use openclaw_a2a_plugins.Base.Dict.{get}
use openclaw_a2a_plugins.Inbound.Protocol.{
  Part, TaskState, Message, TaskStatusUpdateEvent, TaskArtifactUpdateEvent,
}
use openclaw_a2a_plugins.Inbound.Replies.{
  Ambient, BuiltReplyContent, NormalizedReplyPayload, build_reply_content,
}
use openclaw_a2a_plugins.Inbound.Replies.Objects.{
  create_task_status_update, create_reply_artifact_update,
}
use openclaw_a2a_plugins.Inbound.Coordinator.{
  AssistantStage, StagedOutput, assistant_stage, tool_stage, bus_status, bus_artifact, Coordinator,
}
use openclaw_a2a_plugins.Inbound.Coordinator.Publishing.{
  Params, publish_status, publish_artifact, publish_chunk, publish_text, publish_content,
  publish_nothing, publish_stage, publish_found, publish_assistant_stage, publish_tool_content,
  publish_tool_artifact, build_delta_reply_content, whole, flush_each, flush_staged_outputs,
}
use openclaw_a2a_plugins.Inbound.Coordinator.Stream.{
  Seen, accept-next, step, has_sequence, At, Holds, and_then-Holds, if-Holds, if-at,
}

-- An update of a task that was seen.
step-status :
    (id : Text) (p : Seen) (e : TaskStatusUpdateEvent)
    → e.task_id ≡ id
    → p.has_task ≡ true
    → p.is_final ≡ false
    → step id p (bus_status e) ≡ some (record p { is_final = e.final })
step-status id p e same seen open_still =
    rw (seen, open_still, (text_eq_iff e.task_id id).1 same) refl

pub step-artifact :
    (id : Text) (p : Seen) (a : TaskArtifactUpdateEvent)
    → a.task_id ≡ id
    → p.has_task ≡ true
    → has_sequence (p.artifacts + 1) a.artifact.metadata ≡ true
    → step id p (bus_artifact a) ≡ some (record p { artifacts = p.artifacts + 1 })
step-artifact id p a same seen numbered =
    rw (seen, (text_eq_iff a.task_id id).1 same, numbered) refl

abbrev pub seen_by : Coordinator → Seen
seen_by c = record {
  has_task = c.promoted;
  is_final = c.final_published;
  artifacts = c.artifact_sequence;
}

module _ (w : Ambient) (id : Text) (f : Bool) where
  pub publish_status-At :
      (state : TaskState) (message : Option Message) (words : Option Text) (c : Coordinator)
      → At id false c
      → At id f (record (publish_status w state f message words c) { final_published = f })
  publish_status-At state message words c ((same, flags, read), promoted, open_still) =
      let event =
        create_task_status_update w c.drawn c.request.task_id c.request.context_id state f message
          words in
      (
        (
          same,
          flags,
          accept-next id c.published (bus_status event) read
              (step-status id (seen_by c) event same promoted open_still),
        ),
        promoted,
        refl,
      )

  -- A status that is not final leaves the flag as it was.
  pub publish_status-At_open :
      (state : TaskState) (message : Option Message) (words : Option Text) (c : Coordinator)
      → At id false c
      → At id false (publish_status w state false message words c)
  publish_status-At_open state message words c ((same, flags, read), promoted, open_still) =
      let event =
        create_task_status_update w c.drawn c.request.task_id c.request.context_id state false
          message words in
      (
        (
          same,
          flags,
          accept-next id c.published (bus_status event) read (
              step-status id (seen_by c) event same promoted open_still
              ∙ ap (λ b. some (record (seen_by c) { is_final = b })) (sym open_still)),
        ),
        promoted,
        open_still,
      )

  publish_artifact-At :
      (artifact_id name : Text) (content : BuiltReplyContent) (append last : Option Bool)
      (c : Coordinator)
      → At id f c
      → At id f (publish_artifact w artifact_id name content append last c)
  unfolding get text_eq
  publish_artifact-At artifact_id name content append last c
        ((same, flags, read), promoted, final) =
      let event =
        create_reply_artifact_update c.request.task_id c.request.context_id artifact_id name
          (c.artifact_sequence + 1) content append last in
      (
        (
          same,
          flags,
          accept-next id c.published (bus_artifact event) read (
              step-artifact id (seen_by c) event same promoted
                ((==_iff (c.artifact_sequence + 1) (c.artifact_sequence + 1)).1 refl)),
        ),
        promoted,
        final,
      )

  publish_chunk-At :
      (i : ℕ) (stage : AssistantStage) (content : BuiltReplyContent) (append : Option Bool)
      (last : Bool) (c : Coordinator)
      → At id f c
      → At id f (publish_chunk w i stage content append last c)
  publish_chunk-At i stage content append last c at =
      publish_artifact-At _ _ content append (some last) c at

  publish_text-At :
      (i : ℕ) (stage : AssistantStage) (content : BuiltReplyContent) (last : Bool)
      (delta : Option Text) (c : Coordinator)
      → At id f c
      → At id f (publish_text w i stage content last delta c)
  publish_text-At i stage content last none c at = publish_chunk-At i stage content none last c at
  publish_text-At i stage content last (some (a ∷ delta)) c at =
      publish_chunk-At i stage (build_delta_reply_content content (a ∷ delta)) (some true) last c at
  publish_text-At i stage content last (some []) c at =
      if-at (At id f) (last && not stage.closed_published) _ _
        (λ closing. publish_chunk-At i stage (record content { parts = [] }) (some true) true c at)
        (λ going_on. at)

  publish_nothing-At :
      (i : ℕ) (stage : AssistantStage) (content : BuiltReplyContent) (params : Params)
      (c : Coordinator)
      → At id f c
      → Holds id (At id f) (publish_nothing w i stage content params c)
  unfolding publish_nothing
  publish_nothing-At i stage content params c at =
      let refused =
        params.require_visible_content && not stage.published_artifact && content.has_candidates in
      let closing = params.last_chunk && stage.published_artifact && not stage.closed_published in
      if-Holds id (At id f) refused _ _ (λ bad. at.0)
        (λ fine.
          if-Holds id (At id f) closing _ _
            (λ last. publish_chunk-At i stage (record content { parts = [] }) (some true) true c at)
            (λ going_on. at))

  publish_stage-At :
      (i : ℕ) (stage : AssistantStage) (content : BuiltReplyContent) (params : Params)
      (parts : List Part) (c : Coordinator)
      → At id f c
      → Holds id (At id f) (publish_stage w i stage content params parts c)
  unfolding publish_content
  publish_stage-At i stage content params [] c at = publish_nothing-At i stage content params c at
  publish_stage-At i stage content params (p ∷ ps) c at =
      publish_text-At i stage content params.last_chunk _ c at

  publish_found-At :
      (i : ℕ) (params : Params) (found : Option AssistantStage) (c : Coordinator)
      → At id f c
      → Holds id (At id f) (publish_found w i params found c)
  publish_found-At i params none c at = at
  publish_found-At i params (some stage) c at = publish_stage-At i stage _ params _ c at

  pub publish_assistant_stage-At :
      (i : ℕ) (params : Params) (c : Coordinator)
      → At id f c
      → Holds id (At id f) (publish_assistant_stage w i params c)
  unfolding publish_assistant_stage
  publish_assistant_stage-At i params c at =
      if-Holds id (At id f) (not c.promoted) _ _ (λ no. absurd (ground (arith, at.1, no)))
        (λ yes. publish_found-At i params (get_elem? c.assistant_stages i) c at)

  publish_tool_content-At :
      (content : BuiltReplyContent) (parts : List Part) (c : Coordinator)
      → At id f c
      → Holds id (At id f) (publish_tool_content w content parts c)
  publish_tool_content-At content [] c at =
      if-Holds id (At id f) content.has_candidates _ _ (λ refused. at.0) (λ nothing. at)
  publish_tool_content-At content (p ∷ ps) c at =
      publish_artifact-At _ _ content none none
        (record c { tool_artifact_count = c.tool_artifact_count + 1 }) at

  pub publish_tool_artifact-At :
      (payload : NormalizedReplyPayload) (c : Coordinator)
      → At id f c
      → Holds id (At id f) (publish_tool_artifact w payload c)
  unfolding publish_tool_artifact
  publish_tool_artifact-At payload c at =
      let content = build_reply_content w payload c.accepted_output_modes in
      publish_tool_content-At content content.parts c at

  flush_each-At :
      (outputs : List StagedOutput) (c : Coordinator)
      → At id f c
      → Holds id (At id f) (flush_each w outputs c)
  unfolding flush_each
  flush_each-At [] c at = at
  flush_each-At (tool_stage payload ∷ rest) c at =
      and_then-Holds id (At id f) (At id f) (publish_tool_artifact w payload c) _
        (publish_tool_artifact-At payload c at) (λ _ c' at'. flush_each-At rest c' at')
  flush_each-At (assistant_stage i ∷ rest) c at =
      let params = whole w (get_elem? c.assistant_stages i) in
      and_then-Holds id (At id f) (At id f) (publish_assistant_stage w i params c) _
        (publish_assistant_stage-At i params c at) (λ _ c' at'. flush_each-At rest c' at')

  pub flush_staged_outputs-At :
      (c : Coordinator) → At id f c → Holds id (At id f) (flush_staged_outputs w c)
  unfolding flush_staged_outputs
  flush_staged_outputs-At c at =
      if-Holds id (At id f) (not c.promoted) _ _ (λ no. absurd (ground (arith, at.1, no)))
        (λ yes.
          and_then-Holds id (At id f) (At id f) (flush_each w c.staged_outputs c) _
            (flush_each-At c.staged_outputs c at) (λ _ c' at'. at'))
