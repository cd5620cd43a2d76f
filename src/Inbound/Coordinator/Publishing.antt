-- ===== src/Inbound/Coordinator/Publishing.antt =====
-- The private methods of the coordinator that publish: the promotion to a task, status updates and
-- artifact updates, of packages/openclaw-a2a-inbound/src/task-execution-coordinator.ts.
use openclaw_a2a_plugins.Base.{
  ℕ, ◌+◌, Bool, true, false, not, ◌&&◌, ◌||◌, Option, none, some, List, [], ◌∷◌, ◌++◌, get_elem?,
  is_some, or_else, keep, if◌then◌else◌,
}
use openclaw_a2a_plugins.Base.Text.{Text, codes, text_eq}
use openclaw_a2a_plugins.Base.Strings.{strip_prefix, decimal, padded}
use openclaw_a2a_plugins.Inbound.Protocol.{
  Message, Part, Task, Artifact, JsonRecord, text, TaskState, submitted, working, input_required,
}
use openclaw_a2a_plugins.Inbound.LiveExecutions.{
  LiveExecutions, activate, cleanup, clear_request_mode,
}
use openclaw_a2a_plugins.Inbound.Replies.{
  Ambient, NormalizedReplyPayload, BuiltReplyContent, build_reply_content,
}
use openclaw_a2a_plugins.Inbound.Replies.Objects.{
  create_task_snapshot, create_task_status_update, create_reply_artifact_update,
}
use openclaw_a2a_plugins.Inbound.Coordinator.{
  AssistantStage, StagedOutput, assistant_stage, tool_stage, bus_task, bus_status, bus_artifact,
  Coordinator, Outcome, returned, thrown, and_then, change_stage, resolve_assistant_payload,
}

abbrev history_of : Option Task → Option (List Message)
history_of none = none
history_of (some t) = t.history

abbrev artifacts_of : Option Task → Option (List Artifact)
artifacts_of none = none
artifacts_of (some t) = t.artifacts

abbrev metadata_of : Option Task → Option JsonRecord
metadata_of none = none
metadata_of (some t) = t.metadata

pub build_initial_history : Coordinator → List Message
build_initial_history c = or_else (history_of c.request.task) (c.request.message ∷ [])

abbrev pub is_text_part : Part → Bool
is_text_part p = elim p.content [ text t ↦ true | _ ↦ false ]

abbrev pub words_of : Part → Text
words_of p = elim p.content [ text t ↦ t | _ ↦ [] ]

unfoldable pub extract_text : List Part → Text
extract_text [] = []
extract_text (p ∷ ps) = words_of p ++ extract_text ps

abbrev pub with_words : Text → List Part → List Part
with_words delta [] = []
with_words delta (p ∷ ps) = record p { content = text delta } ∷ []

-- The first text part, with the new words.
abbrev pub build_delta_reply_content : BuiltReplyContent → Text → BuiltReplyContent
build_delta_reply_content content delta = record content {
  parts = with_words delta (keep is_text_part content.parts);
}

pub assistant_artifact_id : ℕ → Text
assistant_artifact_id index = codes "assistant-output-" ++ padded (decimal index)

-- How far an artifact may go: its last chunk, with the terminal text, and an error if all of its
-- content is unsupported.
pub record Params : Type 0 where
  pub last_chunk : Bool
  pub prefer_terminal_text : Bool
  pub require_visible_content : Bool

module _ (w : Ambient) where
  abbrev pub publish_status :
      TaskState → Bool → Option Message → Option Text → Coordinator → Coordinator
  publish_status state final message words c = record c {
    published =
        c.published
        ++ bus_status (
            create_task_status_update w c.drawn c.request.task_id c.request.context_id state final
              message words)
          ∷ [];
    drawn = c.drawn + 1;
  }

  unfoldable pub publish_submitted_status : Coordinator → Coordinator
  publish_submitted_status c =
      if c.submitted_published || not c.task_published || c.final_published
      then c
      else publish_status submitted false none none (record c { submitted_published = true })

  abbrev pub is_start : Option Text → Bool
  is_start none = false
  is_start (some phase) = text_eq phase (codes "start")

  unfoldable pub publish_working_status : Coordinator → Coordinator
  publish_working_status c =
      if not c.promoted || c.working_published || c.final_published
      then c
      else if not (is_start c.lifecycle_phase) && not (is_some c.run_id)
      then c
      else publish_status working false none none (record c { working_published = true })

  abbrev pub publish_artifact :
      Text → Text → BuiltReplyContent → Option Bool → Option Bool → Coordinator → Coordinator
  publish_artifact id name content append last_chunk c = record c {
    artifact_sequence = c.artifact_sequence + 1;
    published =
        c.published
        ++ bus_artifact (
            create_reply_artifact_update c.request.task_id c.request.context_id id name
              (c.artifact_sequence + 1) content append last_chunk)
          ∷ [];
  }

  -- A chunk of a stage's artifact, which says whether the artifact is closed.
  abbrev pub publish_chunk :
      ℕ → AssistantStage → BuiltReplyContent → Option Bool → Bool → Coordinator → Coordinator
  publish_chunk i stage content append last_chunk c =
      change_stage i (λ s. record s { closed_published = last_chunk })
        (publish_artifact (assistant_artifact_id stage.index)
          (codes "assistant-output-" ++ decimal stage.index) content append (some last_chunk) c)

  abbrev pub build_assistant_stage_content : AssistantStage → Bool → Coordinator → BuiltReplyContent
  build_assistant_stage_content stage prefer c =
      build_reply_content w (resolve_assistant_payload stage prefer) c.accepted_output_modes

  unfoldable pub publish_nothing :
      ℕ → AssistantStage → BuiltReplyContent → Params → Coordinator → Outcome Bool
  publish_nothing i stage content params c =
      if params.require_visible_content && not stage.published_artifact && content.has_candidates
      then thrown content.available_output_modes c
      else if params.last_chunk && stage.published_artifact && not stage.closed_published
      then returned stage.published_artifact
          (publish_chunk i stage (record content { parts = [] }) (some true) true c)
      else returned stage.published_artifact c

  -- What is new in the text, where the artifact can go on.
  abbrev pub continuation : AssistantStage → Text → Text → Option Text
  continuation stage next_text key =
      if stage.published_artifact
        && (elim stage.published_non_text_key [ none ↦ false | some k ↦ text_eq key k ])
      then strip_prefix stage.published_text next_text
      else none

  abbrev pub publish_text :
      ℕ → AssistantStage → BuiltReplyContent → Bool → Option Text → Coordinator → Coordinator
  publish_text i stage content last_chunk none c = publish_chunk i stage content none last_chunk c
  publish_text i stage content last_chunk (some (a ∷ delta)) c =
      publish_chunk i stage (build_delta_reply_content content (a ∷ delta)) (some true) last_chunk c
  publish_text i stage content last_chunk (some []) c =
      if last_chunk && not stage.closed_published
      then publish_chunk i stage (record content { parts = [] }) (some true) true c
      else c

  unfoldable pub publish_content :
      ℕ → AssistantStage → BuiltReplyContent → Bool → Coordinator → Coordinator
  publish_content i stage content last_chunk c =
      let next_text = extract_text content.parts in
      let key = w.stringify (keep (λ p. not (is_text_part p)) content.parts) in
      change_stage i
        (λ s. record s {
          published_artifact = true;
          published_text = next_text;
          published_non_text_key = some key;
        })
        (publish_text i stage content last_chunk (continuation stage next_text key) c)

  abbrev pub publish_stage :
      ℕ → AssistantStage → BuiltReplyContent → Params → List Part → Coordinator → Outcome Bool
  publish_stage i stage content params [] c = publish_nothing i stage content params c
  publish_stage i stage content params (p ∷ ps) c =
      returned true (publish_content i stage content params.last_chunk c)

  abbrev pub publish_found : ℕ → Params → Option AssistantStage → Coordinator → Outcome Bool
  publish_found i params none c = returned false c
  publish_found i params (some stage) c =
      let content = build_assistant_stage_content stage params.prefer_terminal_text c in
      publish_stage i stage content params content.parts c

  unfoldable pub publish_assistant_stage : ℕ → Params → Coordinator → Outcome Bool
  publish_assistant_stage i params c =
      if not c.promoted
      then returned false c
      else publish_found i params (get_elem? c.assistant_stages i) c

  abbrev pub publish_tool_content : BuiltReplyContent → List Part → Coordinator → Outcome Unit
  publish_tool_content content [] c =
      if content.has_candidates then thrown content.available_output_modes c else returned tt c
  publish_tool_content content (p ∷ ps) c =
      let n = c.tool_artifact_count + 1 in
      returned tt (
        publish_artifact (codes "tool-result-" ++ padded (decimal n))
          (codes "tool-result-" ++ decimal n) content none none
          (record c { tool_artifact_count = n }))

  unfoldable pub publish_tool_artifact : NormalizedReplyPayload → Coordinator → Outcome Unit
  publish_tool_artifact payload c =
      let content = build_reply_content w payload c.accepted_output_modes in
      publish_tool_content content content.parts c

  abbrev pub whole : Option AssistantStage → Params
  whole none = record {
    last_chunk = false;
    prefer_terminal_text = false;
    require_visible_content = false;
  }
  whole (some stage) = record {
    last_chunk = stage.completed;
    prefer_terminal_text = stage.completed;
    require_visible_content = stage.completed;
  }

  -- The loop of `flushStagedOutputs`.
  unfoldable pub flush_each : List StagedOutput → Coordinator → Outcome Unit
  flush_each [] c = returned tt c
  flush_each (tool_stage payload ∷ rest) c =
      and_then (publish_tool_artifact payload c) λ _ c. flush_each rest c
  flush_each (assistant_stage i ∷ rest) c =
      and_then (publish_assistant_stage i (whole (get_elem? c.assistant_stages i)) c)
        λ _ c. flush_each rest c

  unfoldable pub flush_staged_outputs : Coordinator → Outcome Unit
  flush_staged_outputs c =
      if not c.promoted
      then returned tt c
      else and_then (flush_each c.staged_outputs c)
          λ _ c. returned tt (record c { staged_outputs = [] })

  abbrev pub task_snapshot : Coordinator → Task
  task_snapshot c =
      create_task_snapshot w c.drawn c.request.task_id c.request.context_id submitted
        (some (build_initial_history c)) (artifacts_of c.request.task) (metadata_of c.request.task)

  -- The state of a promotion with the task snapshot on the bus.
  abbrev pub with_snapshot : Coordinator → Coordinator
  with_snapshot c = record c {
    promoted = true;
    task_published = true;
    live =
        (activate c.request.task_id c.request.context_id c.controller (some c.cancel_function)
          c.live).0;
    published = c.published ++ bus_task (task_snapshot c) ∷ [];
    drawn = c.drawn + 1;
  }

  unfoldable pub promote_to_task : Coordinator → Outcome Unit
  promote_to_task c =
      if c.promoted
      then returned tt c
      else flush_staged_outputs
          (publish_working_status (publish_submitted_status (with_snapshot c)))

  abbrev pub ensure_task_published : Coordinator → Outcome Unit
  ensure_task_published c = if c.task_published then returned tt c else promote_to_task c

  abbrev pub released : Coordinator → LiveExecutions
  released c = clear_request_mode c.request.message_id (cleanup c.request.task_id c.live)

  unfoldable pub publish_input_required_status : Text → Coordinator → Outcome Unit
  publish_input_required_status words c =
      if c.final_published || c.input_required_published
      then returned tt c
      else and_then (ensure_task_published c) λ _ c.
        let c' =
          publish_status input_required false none (some words)
            (record c { paused_for_input_required = true; input_required_published = true }) in
        returned tt (record c' { live = released c' })

  unfoldable pub publish_final_status :
      TaskState → Option Message → Option Text → Coordinator → Outcome Unit
  publish_final_status state message words c =
      if c.final_published
      then returned tt c
      else and_then (ensure_task_published c) λ _ c. returned tt (
          publish_status state true message (if is_some message then none else words)
            (record c { final_published = true; live = released c }))
