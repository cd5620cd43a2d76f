-- ===== src/Inbound/Coordinator/Stream/Starts.antt =====
-- The stages of a coordinator, and how one starts and ends, keep to the automaton.
use openclaw_a2a_plugins.Base.{
  ℕ, ◌+◌, Bool, true, false, not, ◌&&◌, ◌||◌, Option, none, some, [], ◌∷◌, ◌++◌, is_some, length,
  ltb, ◌==◌, get_elem?,
}
use openclaw_a2a_plugins.Base.Text.{Text}
use openclaw_a2a_plugins.Inbound.Replies.{Ambient}
use openclaw_a2a_plugins.Inbound.Coordinator.{assistant_stage, Coordinator, change_stage}
use openclaw_a2a_plugins.Inbound.Coordinator.Reading.{
  ReplyDispatchKind, so_far, closing, new_stage, stage_is_open, trimmed, capture_run_id,
  is_task_generating, is_non_blocking,
}
use openclaw_a2a_plugins.Inbound.Coordinator.Publishing.{publish_assistant_stage, promote_to_task}
use openclaw_a2a_plugins.Inbound.Coordinator.Stages.{
  flush_current, flush_queued_assistant_artifact, run_microtask, add_stage, start_from,
  start_assistant_stage, is_final, is_seen, is_closed, complete_stage, end_current,
  ensure_assistant_stage_for_reply,
}
use openclaw_a2a_plugins.Inbound.Coordinator.Events.{
  prepare_for_execution, handle_agent_run_start, complete_active, close_previous,
  handle_assistant_message_start,
}
use openclaw_a2a_plugins.Inbound.Coordinator.Stream.{
  Inv, At, Holds, and_then-Holds, and_done-Holds, Holds-weaken, if-Holds,
}
use openclaw_a2a_plugins.Inbound.Coordinator.Stream.Published.{publish_assistant_stage-At}
use openclaw_a2a_plugins.Inbound.Coordinator.Stream.Started.{
  publish_assistant_stage-Inv, publish_working_status-Inv, promote_to_task-At,
}

module _ (w : Ambient) (id : Text) where
  pub promote_to_task-Inv : (c : Coordinator) → Inv id c → Holds id (Inv id) (promote_to_task w c)
  promote_to_task-Inv c v =
      Holds-weaken id (At id c.final_published) (Inv id) (promote_to_task w c) (λ _ at. at.0)
        (promote_to_task-At w id c v)

  flush_current-Inv :
      (current : Option ℕ) (c : Coordinator)
      → Inv id c
      → Holds id (Inv id) (flush_current w current c)
  flush_current-Inv none c v = v
  flush_current-Inv (some i) c v =
      and_done-Holds id (Inv id) (publish_assistant_stage w i (so_far false) c)
        (publish_assistant_stage-Inv w id i (so_far false) c v)

  pub flush_queued_assistant_artifact-Inv :
      (c : Coordinator) → Inv id c → Holds id (Inv id) (flush_queued_assistant_artifact w c)
  unfolding flush_queued_assistant_artifact
  flush_queued_assistant_artifact-Inv c v =
      if-Holds id (Inv id) (not c.assistant_flush_queued || c.final_published) _ _ (λ skipped. v)
        (λ now. flush_current-Inv c.current (record c { assistant_flush_queued = false }) v)

  pub run_microtask-Inv : (c : Coordinator) → Inv id c → Holds id (Inv id) (run_microtask w c)
  unfolding run_microtask
  run_microtask-Inv c v =
      if-Holds id (Inv id) c.assistant_flush_scheduled _ _
        (λ pending.
          flush_queued_assistant_artifact-Inv (record c { assistant_flush_scheduled = false }) v)
        (λ idle. v)

  add_stage-Inv : (c : Coordinator) → Inv id c → Holds id (Inv id) (add_stage w c)
  add_stage-Inv c v =
      let i = length c.assistant_stages in
      let stages = c.assistant_stages ++ new_stage (i + 1) ∷ [] in
      let c' = record c {
        assistant_stages = stages;
        current = some i;
        staged_outputs = c.staged_outputs ++ assistant_stage i ∷ [];
      } in
      if-Holds id (Inv id) c.promoted _ _ (λ task. v)
        (λ bare.
          if-Holds id (Inv id) (ltb 1 (length stages)) _ _
            (λ several.
              and_then-Holds id (Inv id) (Inv id) (promote_to_task w c') _
                (promote_to_task-Inv c' v) (λ _ d u. u))
            (λ first. v))

  start_from-Inv :
      (current : Option ℕ) (c : Coordinator) → Inv id c → Holds id (Inv id) (start_from w current c)
  start_from-Inv none c v = add_stage-Inv c v
  start_from-Inv (some i) c v =
      if-Holds id (Inv id) (stage_is_open (get_elem? c.assistant_stages i)) _ _ (λ going. v)
        (λ done. add_stage-Inv c v)

  pub start_assistant_stage-Inv :
      (c : Coordinator) → Inv id c → Holds id (Inv id) (start_assistant_stage w c)
  unfolding start_assistant_stage
  start_assistant_stage-Inv c v = start_from-Inv c.current c v

  complete_stage-Inv :
      (i : ℕ) (c : Coordinator) → Inv id c → Holds id (Inv id) (complete_stage w i c)
  complete_stage-Inv i c v =
      let c' = change_stage i (λ s. record s { completed = true }) c in
      if-Holds id (Inv id) (c'.promoted && not (is_closed w (get_elem? c'.assistant_stages i))) _ _
        (λ open_still.
          and_done-Holds id (Inv id) (publish_assistant_stage w i (closing true) c')
            (publish_assistant_stage-Inv w id i (closing true) c' v))
        (λ done. v)

  end_current-Inv :
      (kind : ReplyDispatchKind) (current : Option ℕ) (c : Coordinator)
      → Inv id c
      → Holds id (Inv id) (end_current w kind current c)
  end_current-Inv kind none c v = v
  end_current-Inv kind (some i) c v =
      if-Holds id (Inv id) (is_final w kind && is_seen w (get_elem? c.assistant_stages i)) _ _
        (λ again. complete_stage-Inv i c v) (λ first. v)

  pub ensure_assistant_stage_for_reply-Inv :
      (kind : ReplyDispatchKind) (c : Coordinator)
      → Inv id c
      → Holds id (Inv id) (ensure_assistant_stage_for_reply w kind c)
  unfolding ensure_assistant_stage_for_reply
  ensure_assistant_stage_for_reply-Inv kind c v =
      and_then-Holds id (Inv id) (Inv id) (end_current w kind c.current c) _
        (end_current-Inv kind c.current c v) (λ _ d u. start_assistant_stage-Inv d u)

  pub prepare_for_execution-Inv :
      (c : Coordinator) → Inv id c → Holds id (Inv id) (prepare_for_execution w c)
  unfolding prepare_for_execution
  prepare_for_execution-Inv c v =
      if-Holds id (Inv id) (is_some c.request.task) _ _ (λ _. promote_to_task-Inv c v)
        (λ _.
          if-Holds id (Inv id) (is_task_generating c.agent_style) _ _ (λ _. promote_to_task-Inv c v)
            (λ _.
              if-Holds id (Inv id) (is_non_blocking c.response_mode) _ _
                (λ _. promote_to_task-Inv c v) (λ _. v)))

  pub handle_agent_run_start-Inv :
      (run : Text) (c : Coordinator) → Inv id c → Inv id (handle_agent_run_start w run c)
  unfolding handle_agent_run_start
  handle_agent_run_start-Inv run c v =
      publish_working_status-Inv w id (capture_run_id (trimmed run) c) v

  complete_active-Inv :
      (current : Option ℕ) (c : Coordinator) → Inv id c → Inv id (complete_active w current c)
  complete_active-Inv none c v = v
  complete_active-Inv (some i) c v = v

  close_previous-Inv :
      (previous : Option ℕ) (next : ℕ) (c : Coordinator)
      → Inv id c
      → Holds id (Inv id) (close_previous w previous next c)
  close_previous-Inv none next c v = v
  close_previous-Inv (some i) next c v =
      if-Holds id (Inv id)
        (not (i == next) && c.promoted && not (is_closed w (get_elem? c.assistant_stages i))) _ _
        (λ open_still.
          and_done-Holds id (Inv id) (publish_assistant_stage w i (closing true) c)
            (publish_assistant_stage-Inv w id i (closing true) c v))
        (λ done. v)

  pub handle_assistant_message_start-Inv :
      (c : Coordinator) → Inv id c → Holds id (Inv id) (handle_assistant_message_start w c)
  unfolding handle_assistant_message_start
  handle_assistant_message_start-Inv c v =
      and_then-Holds id (Inv id) (Inv id) (flush_queued_assistant_artifact w c) _
        (flush_queued_assistant_artifact-Inv c v)
        (λ _ d u.
          let e = complete_active w d.current d in
          and_then-Holds id (Inv id) (Inv id) (start_assistant_stage w e) _
            (start_assistant_stage-Inv e (complete_active-Inv d.current d u))
            (λ next g t. close_previous-Inv d.current next g t))

  flush_current-At :
      (f : Bool) (current : Option ℕ) (c : Coordinator)
      → At id f c
      → Holds id (At id f) (flush_current w current c)
  flush_current-At f none c at = at
  flush_current-At f (some i) c at =
      and_done-Holds id (At id f) (publish_assistant_stage w i (so_far false) c)
        (publish_assistant_stage-At w id f i (so_far false) c at)

  pub flush_queued_assistant_artifact-At :
      (f : Bool) (c : Coordinator)
      → At id f c
      → Holds id (At id f) (flush_queued_assistant_artifact w c)
  unfolding flush_queued_assistant_artifact
  flush_queued_assistant_artifact-At f c at =
      if-Holds id (At id f) (not c.assistant_flush_queued || c.final_published) _ _ (λ skipped. at)
        (λ now. flush_current-At f c.current (record c { assistant_flush_queued = false }) at)
