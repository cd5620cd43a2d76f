-- ===== src/Inbound/Coordinator/Stream/Started.antt =====
-- The promotion of a coordinator to a task, and its statuses, keep to the automaton.
use openclaw_a2a_plugins.Base.{
  ℕ, ◌≡◌, refl, ◌∙◌, sym, Bool, true, false, not, ◌&&◌, ◌||◌, Option, none, some, arith,
  if◌then◌else◌, Bool-cases, inl, inr, is_some,
}
use openclaw_a2a_plugins.Base.Text.{Text, text_eq_iff}
use openclaw_a2a_plugins.Inbound.Protocol.{
  TaskState, Message, Task, submitted, working, input_required,
}
use openclaw_a2a_plugins.Inbound.Replies.{Ambient}
use openclaw_a2a_plugins.Inbound.Coordinator.{bus_task, Coordinator}
use openclaw_a2a_plugins.Inbound.Coordinator.Publishing.{
  Params, publish_submitted_status, publish_working_status, is_start, publish_assistant_stage,
  task_snapshot, with_snapshot, promote_to_task, ensure_task_published, released,
  publish_input_required_status, publish_final_status,
}
use openclaw_a2a_plugins.Inbound.Coordinator.Stream.{
  Seen, accept-next, step, Inv, At, Holds, and_then-Holds, Holds-weaken, if-Holds, if-at,
}
use openclaw_a2a_plugins.Inbound.Coordinator.Stream.Published.{
  seen_by, publish_status-At, publish_status-At_open, publish_assistant_stage-At,
  flush_staged_outputs-At,
}

module _ (w : Ambient) (id : Text) where
  -- Without an `At`, a stage that is published by a coordinator without a task is left alone.
  pub publish_assistant_stage-Inv :
      (i : ℕ) (params : Params) (c : Coordinator)
      → Inv id c
      → Holds id (Inv id) (publish_assistant_stage w i params c)
  publish_assistant_stage-Inv i params c v = elim (Bool-cases c.promoted) [
    | inl task ↦
        Holds-weaken id (At id c.final_published) (Inv id) (publish_assistant_stage w i params c)
          (λ _ at. at.0)
          (publish_assistant_stage-At w id c.final_published i params c (v, task, refl))
    | inr bare ↦
        unfold publish_assistant_stage in
        if-Holds id (Inv id) (not c.promoted) _ _ (λ _. v)
          (λ promoted. absurd (ground (arith, bare, promoted)))
  ]

  publish_submitted_status-At :
      (f : Bool) (c : Coordinator) → At id f c → At id f (publish_submitted_status w c)
  unfolding publish_submitted_status
  publish_submitted_status-At f c at =
      if-at (At id f) (c.submitted_published || not c.task_published || c.final_published) _ _
        (λ skipped. at)
        (λ now.
          let open_still : c.final_published ≡ false = ground (arith, now) in
          let end =
            publish_status-At_open w id f submitted none none
              (record c { submitted_published = true }) (at.0, at.1, open_still) in
          (end.0, at.1, at.2))

  publish_working_status-At :
      (f : Bool) (c : Coordinator) → At id f c → At id f (publish_working_status w c)
  unfolding publish_working_status
  publish_working_status-At f c at =
      if-at (At id f) (not c.promoted || c.working_published || c.final_published) _ _
        (λ skipped. at)
        (λ now.
          let open_still : c.final_published ≡ false = ground (arith, now) in
          let end =
            publish_status-At_open w id f working none none (record c { working_published = true })
              (at.0, at.1, open_still) in
          if-at (At id f) (not (is_start w c.lifecycle_phase) && not (is_some c.run_id)) _ _
            (λ early. at) (λ due. (end.0, at.1, at.2)))

  pub publish_working_status-Inv :
      (c : Coordinator) → Inv id c → Inv id (publish_working_status w c)
  publish_working_status-Inv c v = elim (Bool-cases c.promoted) [
    | inl task ↦ (publish_working_status-At c.final_published c (v, task, refl)).0
    | inr bare ↦
        unfold publish_working_status in
        if-at (Inv id) (not c.promoted || c.working_published || c.final_published) _ _
          (λ skipped. v) (λ now. absurd (ground (arith, bare, now)))
  ]

  step-task :
      (p : Seen) (t : Task)
      → t.id ≡ id
      → p.has_task ≡ false
      → step id p (bus_task t) ≡ some (record p { has_task = true })
  step-task p t same unseen = rw (unseen, (text_eq_iff t.id id).1 same) refl

  with_snapshot-At :
      (c : Coordinator)
      → c.promoted ≡ false
      → Inv id c
      → At id c.final_published (with_snapshot w c)
  with_snapshot-At c bare (same, flags, read) = (
    (
      same,
      refl,
      accept-next id c.published (bus_task (task_snapshot w c)) read
          (step-task (seen_by c) (task_snapshot w c) same bare),
    ),
    refl,
    refl,
  )

  pub promote_to_task-At :
      (c : Coordinator) → Inv id c → Holds id (At id c.final_published) (promote_to_task w c)
  unfolding promote_to_task
  promote_to_task-At c v =
      let f = c.final_published in
      if-Holds id (At id f) c.promoted _ _ (λ task. (v, task, refl))
        (λ bare.
          flush_staged_outputs-At w id f
            (publish_working_status w (publish_submitted_status w (with_snapshot w c)))
            (publish_working_status-At f _
              (publish_submitted_status-At f (with_snapshot w c) (with_snapshot-At c bare v))))

  ensure_task_published-At :
      (c : Coordinator) → Inv id c → Holds id (At id c.final_published) (ensure_task_published w c)
  ensure_task_published-At c v =
      if-Holds id (At id c.final_published) c.task_published _ _ (λ task. (v, sym v.1 ∙ task, refl))
        (λ bare. promote_to_task-At c v)

  pub publish_input_required_status-Inv :
      (words : Text) (c : Coordinator)
      → Inv id c
      → Holds id (Inv id) (publish_input_required_status w words c)
  unfolding publish_input_required_status
  publish_input_required_status-Inv words c v =
      if-Holds id (Inv id) (c.final_published || c.input_required_published) _ _ (λ skipped. v)
        (λ now.
          let open_still : c.final_published ≡ false = ground (arith, now) in
          and_then-Holds id (At id c.final_published) (Inv id) (ensure_task_published w c) _
            (ensure_task_published-At c v)
            (λ _ d at.
              (publish_status-At_open w id false input_required none (some words)
                (record d { paused_for_input_required = true; input_required_published = true })
                (at.0, at.1, at.2 ∙ open_still)).0))

  -- The task is final afterwards, if it was not before.
  abbrev pub IsFinished : Coordinator → Type 0
  IsFinished c = Inv id c × (c.final_published ≡ true)

  pub publish_final_status-IsFinished :
      (state : TaskState) (message : Option Message) (words : Option Text) (c : Coordinator)
      → Inv id c
      → Holds id IsFinished (publish_final_status w state message words c)
  unfolding publish_final_status
  publish_final_status-IsFinished state message words c v =
      if-Holds id IsFinished c.final_published _ _ (λ final. (v, final))
        (λ open_still.
          and_then-Holds id (At id c.final_published) IsFinished (ensure_task_published w c) _
            (ensure_task_published-At c v)
            (λ _ d at.
              let end =
                publish_status-At w id true state message (if is_some message then none else words)
                  (record d { live = released w d }) (at.0, at.1, at.2 ∙ open_still) in
              (end.0, refl)))
