-- ===== src/Inbound/Coordinator/Stream/Ends.antt =====
-- How the ends of a request keep to the automaton, and what any history of calls publishes.
use openclaw_a2a_plugins.Base.{
  ℕ, ◌+◌, ◌≡◌, refl, Bool, true, false, ◌||◌, Option, none, some, List, [], ◌∷◌, arith, or_else,
}
use openclaw_a2a_plugins.Base.Text.{Text}
use openclaw_a2a_plugins.Inbound.Protocol.{Message, Part, TaskState, failed, completed, canceled}
use openclaw_a2a_plugins.Inbound.Replies.{Ambient, BuiltReplyContent, truthy_text}
use openclaw_a2a_plugins.Inbound.Replies.Objects.{create_agent_message}
use openclaw_a2a_plugins.Inbound.Coordinator.{AssistantStage, bus_message, Coordinator, stage_at}
use openclaw_a2a_plugins.Inbound.Coordinator.Reading.{closing, is_aborted, is_server_shutdown_abort}
use openclaw_a2a_plugins.Inbound.Coordinator.Publishing.{
  promote_to_task, build_assistant_stage_content,
}
use openclaw_a2a_plugins.Inbound.Coordinator.Stages.{flush_queued_assistant_artifact}
use openclaw_a2a_plugins.Inbound.Coordinator.Finalize.{
  build_canonical_assistant_status_message, close_current, close_current_assistant_stage, finish,
  succeed_unless, can_return_direct_message, send_direct, try_direct, succeed, finalize_success,
  fail, finalize_error, cancel,
}
use openclaw_a2a_plugins.Inbound.Coordinator.Stream.{
  accept-next, step, Seen, Inv, Holds, and_then-Holds, Holds-weaken, if-Holds,
}
use openclaw_a2a_plugins.Inbound.Coordinator.Stream.Published.{seen_by}
use openclaw_a2a_plugins.Inbound.Coordinator.Stream.Started.{
  publish_assistant_stage-Inv, IsFinished, publish_final_status-IsFinished,
}
use openclaw_a2a_plugins.Inbound.Coordinator.Stream.Starts.{
  promote_to_task-Inv, flush_queued_assistant_artifact-Inv,
}

module _ (w : Ambient) (id : Text) where
  close_current-Inv :
      (require : Bool) (current : Option ℕ) (c : Coordinator)
      → Inv id c
      → Holds id (Inv id) (close_current w require current c)
  close_current-Inv require none c v = v
  close_current-Inv require (some i) c v = publish_assistant_stage-Inv w id i (closing require) _ v

  close_current_assistant_stage-Inv :
      (require : Bool) (c : Coordinator)
      → Inv id c
      → Holds id (Inv id) (close_current_assistant_stage w require c)
  unfolding close_current_assistant_stage
  close_current_assistant_stage-Inv require c v = close_current-Inv require c.current c v

  finish-IsFinished :
      (state : TaskState) (require : Bool) (words : Bool → Option Text) (c : Coordinator)
      → Inv id c
      → Holds id (IsFinished w id) (finish w state require words c)
  finish-IsFinished state require words c v =
      and_then-Holds id (Inv id) (IsFinished w id) (promote_to_task w c) _
        (promote_to_task-Inv w id c v)
        (λ _ d u.
          and_then-Holds id (Inv id) (IsFinished w id) (close_current_assistant_stage w require d) _
            (close_current_assistant_stage-Inv require d u)
            (λ shown e t.
              publish_final_status-IsFinished w id state
                (build_canonical_assistant_status_message w e) (words shown)
                (record e { drawn = e.drawn + 1 }) t))

  finish-Inv :
      (state : TaskState) (require : Bool) (words : Bool → Option Text) (c : Coordinator)
      → Inv id c
      → Holds id (Inv id) (finish w state require words c)
  finish-Inv state require words c v =
      Holds-weaken id (IsFinished w id) (Inv id) (finish w state require words c) (λ _ f. f.0)
        (finish-IsFinished state require words c v)

  step-message : (p : Seen) (m : Message) → p.has_task ≡ false → step id p (bus_message m) ≡ some p
  step-message p m unseen = rw unseen refl

  send_direct-Inv :
      (content : BuiltReplyContent) (parts : List Part) (c : Coordinator)
      → Inv id c
      → c.promoted ≡ false
      → Holds id (Inv id) (send_direct w content parts c)
  send_direct-Inv content (p ∷ ps) c (same, flags, read) bare =
      let m = create_agent_message w c.drawn c.request.context_id none (p ∷ ps) in
      (
        same,
        flags,
        accept-next id c.published (bus_message m) read (step-message (seen_by c) m bare),
      )
  send_direct-Inv content [] c v bare =
      if-Holds id (Inv id) content.has_candidates _ _ (λ refused. v)
        (λ nothing. finish-Inv completed true _ c v)

  try_direct-Inv :
      (stage : Option AssistantStage) (c : Coordinator)
      → Inv id c
      → c.promoted ≡ false
      → Holds id (Inv id) (try_direct w stage c)
  try_direct-Inv none c v bare = finish-Inv completed true _ c v
  try_direct-Inv (some stage) c v bare =
      let content = build_assistant_stage_content w stage true c in
      send_direct-Inv content content.parts c v bare

  -- Only a request without a task is answered by a message.
  direct-bare : (c : Coordinator) → can_return_direct_message w c ≡ true → c.promoted ≡ false
  unfolding can_return_direct_message
  direct-bare c h = ground (arith, h)

  succeed_unless-Inv :
      (error : Option Text) (c : Coordinator)
      → Inv id c
      → Holds id (Inv id) (succeed_unless w error c)
  succeed_unless-Inv (some words) c v = finish-Inv failed false _ c v
  succeed_unless-Inv none c v =
      if-Holds id (Inv id) c.paused_for_input_required _ _ (λ _. v)
        (λ _.
          if-Holds id (Inv id) (can_return_direct_message w c) _ _
            (λ direct. try_direct-Inv (stage_at c.current c) c v (direct-bare c direct))
            (λ _. finish-Inv completed true _ c v))

  succeed-Inv : (c : Coordinator) → Inv id c → Holds id (Inv id) (succeed w c)
  succeed-Inv c v =
      if-Holds id (Inv id) (c.cancel_requested || is_aborted c) _ _
        (λ _. finish-Inv canceled false _ c v)
        (λ _. succeed_unless-Inv (truthy_text c.lifecycle_error) c v)

  pub finalize_success-Inv : (c : Coordinator) → Inv id c → Holds id (Inv id) (finalize_success w c)
  unfolding finalize_success
  finalize_success-Inv c v =
      if-Holds id (Inv id) c.final_published _ _ (λ _. v)
        (λ _.
          if-Holds id (Inv id) (is_server_shutdown_abort false c) _ _ (λ _. v)
            (λ _.
              and_then-Holds id (Inv id) (Inv id) (flush_queued_assistant_artifact w c) _
                (flush_queued_assistant_artifact-Inv w id c v) (λ _ d u. succeed-Inv d u)))

  fail-IsFinished :
      (error : Text) (c : Coordinator) → Inv id c → Holds id (IsFinished w id) (fail w error c)
  fail-IsFinished error c v =
      if-Holds id (IsFinished w id) (c.cancel_requested || is_aborted c) _ _
        (λ _. finish-IsFinished canceled false _ c v)
        (λ _.
          finish-IsFinished failed false _
            (record c { lifecycle_error = some (or_else c.lifecycle_error error) }) v)

  pub finalize_error-Inv :
      (error : Text) (shutdown : Bool) (c : Coordinator)
      → Inv id c
      → Holds id (Inv id) (finalize_error w error shutdown c)
  unfolding finalize_error
  finalize_error-Inv error shutdown c v =
      if-Holds id (Inv id) c.final_published _ _ (λ _. v)
        (λ _.
          if-Holds id (Inv id) (is_server_shutdown_abort shutdown c) _ _ (λ _. v)
            (λ _.
              and_then-Holds id (Inv id) (Inv id) (flush_queued_assistant_artifact w c) _
                (flush_queued_assistant_artifact-Inv w id c v)
                (λ _ d u.
                  Holds-weaken id (IsFinished w id) (Inv id) (fail w error d) (λ _ f. f.0)
                    (fail-IsFinished error d u))))

  pub cancel-Inv : (c : Coordinator) → Inv id c → Holds id (Inv id) (cancel w c)
  unfolding cancel
  cancel-Inv c v =
      if-Holds id (Inv id) c.final_published _ _ (λ _. v)
        (λ _. flush_queued_assistant_artifact-Inv w id _ v)
