-- ===== src/Inbound/Coordinator/Stages.antt =====
-- The assistant stages of the coordinator, and the flush of a queued artifact, of
-- packages/openclaw-a2a-inbound/src/task-execution-coordinator.ts.
use openclaw_a2a_plugins.Base.{
  ℕ, ◌+◌, Bool, true, false, not, ◌&&◌, ◌||◌, Option, none, some, [], ◌∷◌, ◌++◌, length, get_elem?,
  if◌then◌else◌, ltb,
}
use openclaw_a2a_plugins.Inbound.Replies.{Ambient}
use openclaw_a2a_plugins.Inbound.Coordinator.{
  AssistantStage, assistant_stage, Coordinator, Outcome, returned, and_then, change_stage,
}
use openclaw_a2a_plugins.Inbound.Coordinator.Publishing.{publish_assistant_stage, promote_to_task}
use openclaw_a2a_plugins.Inbound.Coordinator.Reading.{
  ReplyDispatchKind, closing, final, new_stage, so_far, stage_is_open,
}

module _ (w : Ambient) where
  abbrev pub flush_current : Option ℕ → Coordinator → Outcome Unit
  flush_current none c = returned tt c
  flush_current (some i) c =
      and_then (publish_assistant_stage w i (so_far false) c) λ _ c. returned tt c

  unfoldable pub flush_queued_assistant_artifact : Coordinator → Outcome Unit
  flush_queued_assistant_artifact c =
      if not c.assistant_flush_queued || c.final_published
      then returned tt c
      else flush_current c.current (record c { assistant_flush_queued = false })

  -- The microtask, if it is pending.
  unfoldable pub run_microtask : Coordinator → Outcome Unit
  run_microtask c =
      if c.assistant_flush_scheduled
      then flush_queued_assistant_artifact (record c { assistant_flush_scheduled = false })
      else returned tt c

  unfoldable pub queue_assistant_artifact_flush : Coordinator → Coordinator
  queue_assistant_artifact_flush c =
      if c.promoted
      then record c { assistant_flush_queued = true; assistant_flush_scheduled = true }
      else c

  abbrev pub add_stage : Coordinator → Outcome ℕ
  add_stage c =
      let i = length c.assistant_stages in
      let c' = record c {
        assistant_stages = c.assistant_stages ++ new_stage (i + 1) ∷ [];
        current = some i;
      } in
      if c'.promoted
      then returned i c'
      else let c'' = record c' { staged_outputs = c'.staged_outputs ++ assistant_stage i ∷ [] } in
        if ltb 1 (length c''.assistant_stages)
        then (and_then (promote_to_task w c'') λ _ c. returned i c)
        else returned i c''

  abbrev pub start_from : Option ℕ → Coordinator → Outcome ℕ
  start_from none c = add_stage c
  start_from (some i) c =
      if stage_is_open (get_elem? c.assistant_stages i) then returned i c else add_stage c

  unfoldable pub start_assistant_stage : Coordinator → Outcome ℕ
  start_assistant_stage c = start_from c.current c

  abbrev pub is_final : ReplyDispatchKind → Bool
  is_final final = true
  is_final _ = false

  abbrev pub is_seen : Option AssistantStage → Bool
  is_seen none = false
  is_seen (some stage) = not stage.completed && stage.final_seen

  abbrev pub is_closed : Option AssistantStage → Bool
  is_closed none = true
  is_closed (some stage) = stage.closed_published

  -- A stage is completed, and its artifact closed where it is published.
  abbrev pub complete_stage : ℕ → Coordinator → Outcome Unit
  complete_stage i c =
      let c' = change_stage i (λ s. record s { completed = true }) c in
      if c'.promoted && not (is_closed (get_elem? c'.assistant_stages i))
      then (and_then (publish_assistant_stage w i (closing true) c') λ _ c. returned tt c)
      else returned tt c'

  abbrev pub end_current : ReplyDispatchKind → Option ℕ → Coordinator → Outcome Unit
  end_current kind none c = returned tt c
  end_current kind (some i) c =
      if is_final kind && is_seen (get_elem? c.assistant_stages i)
      then complete_stage i c
      else returned tt c

  unfoldable pub ensure_assistant_stage_for_reply : ReplyDispatchKind → Coordinator → Outcome ℕ
  ensure_assistant_stage_for_reply kind c =
      and_then (end_current kind c.current c) λ _ c. start_assistant_stage c
