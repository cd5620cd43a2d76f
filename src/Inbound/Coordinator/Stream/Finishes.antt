-- ===== src/Inbound/Coordinator/Stream/Finishes.antt =====
-- An error ends a task: the coordinator does not throw, and its final status is published.
use openclaw_a2a_plugins.Base.{
  ℕ, ◌+◌, ◌≡◌, refl, Bool, true, false, not, ◌&&◌, ◌||◌, Option, none, some, List, [], ◌∷◌, arith,
  if◌then◌else◌, get_elem?, or_else, is_some,
}
use openclaw_a2a_plugins.Base.Text.{Text}
use openclaw_a2a_plugins.Inbound.Protocol.{Part, Message, TaskState, canceled, failed}
use openclaw_a2a_plugins.Inbound.Replies.{Ambient, BuiltReplyContent}
use openclaw_a2a_plugins.Inbound.Coordinator.{
  AssistantStage, Coordinator, Outcome, returned, thrown, and_then, change_stage,
}
use openclaw_a2a_plugins.Inbound.Coordinator.Reading.{
  so_far, closing, is_aborted, is_server_shutdown_abort,
}
use openclaw_a2a_plugins.Inbound.Coordinator.Publishing.{
  Params, publish_nothing, publish_stage, publish_found, publish_assistant_stage, promote_to_task,
  ensure_task_published, publish_final_status, build_assistant_stage_content, released,
}
use openclaw_a2a_plugins.Inbound.Coordinator.Stages.{flush_current, flush_queued_assistant_artifact}
use openclaw_a2a_plugins.Inbound.Coordinator.Finalize.{
  build_canonical_assistant_status_message, close_current, close_current_assistant_stage, finish,
  fail, finalize_error,
}
use openclaw_a2a_plugins.Inbound.Coordinator.Stream.{Inv, At, Holds}
use openclaw_a2a_plugins.Inbound.Coordinator.Stream.Published.{
  publish_status-At, publish_assistant_stage-At,
}
use openclaw_a2a_plugins.Inbound.Coordinator.Stream.Started.{IsFinished}

-- The call returns, in a state with the property.
abbrev pub Ends : {A : Type 0} → (Coordinator → Type 0) → Outcome A → Type 0
Ends P (returned a c) = P c
Ends P (thrown modes c) = ⊥

abbrev returns : {A : Type 0} → Outcome A → Bool
returns (returned a c) = true
returns (thrown modes c) = false

and_then-Ends :
    {A B : Type 0} (P Q : Coordinator → Type 0) (o : Outcome A) (f : A → Coordinator → Outcome B)
    → Ends P o
    → ((a : A) (c : Coordinator) → P c → Ends Q (f a c))
    → Ends Q (and_then o f)
and_then-Ends P Q (returned a c) f h k = k a c h
and_then-Ends P Q (thrown modes c) f h k = absurd h

if-Ends :
    {A : Type 0} (P : Coordinator → Type 0) (b : Bool) (x y : Outcome A)
    → (b ≡ true → Ends P x)
    → (b ≡ false → Ends P y)
    → Ends P (if b then x else y)
if-Ends P true x y k l = k refl
if-Ends P false x y k l = l refl

if-returns :
    {A : Type 0} (b : Bool) (x y : Outcome A)
    → (b ≡ true → returns x ≡ true)
    → (b ≡ false → returns y ≡ true)
    → returns (if b then x else y) ≡ true
if-returns true x y k l = k refl
if-returns false x y k l = l refl

Holds-Ends :
    {A : Type 0} (id : Text) (P : Coordinator → Type 0) (o : Outcome A)
    → Holds id P o
    → returns o ≡ true
    → Ends P o
Holds-Ends id P (returned a c) h k = h
Holds-Ends id P (thrown modes c) h k = cc

module _ (w : Ambient) (id : Text) where
  -- Only content that has to be visible is refused.
  publish_nothing-returns :
      (i : ℕ) (stage : AssistantStage) (content : BuiltReplyContent) (params : Params)
      (c : Coordinator)
      → params.require_visible_content ≡ false
      → returns (publish_nothing w i stage content params c) ≡ true
  unfolding publish_nothing
  publish_nothing-returns i stage content params c lax =
      if-returns
        (params.require_visible_content && not stage.published_artifact && content.has_candidates) _
        _ (λ refused. absurd (ground (arith, lax, refused)))
        (λ fine.
          if-returns (params.last_chunk && stage.published_artifact && not stage.closed_published) _
            _ (λ _. refl) (λ _. refl))

  publish_stage-returns :
      (i : ℕ) (stage : AssistantStage) (content : BuiltReplyContent) (params : Params)
      (parts : List Part) (c : Coordinator)
      → params.require_visible_content ≡ false
      → returns (publish_stage w i stage content params parts c) ≡ true
  publish_stage-returns i stage content params [] c lax =
      publish_nothing-returns i stage content params c lax
  publish_stage-returns i stage content params (p ∷ ps) c lax = refl

  publish_found-returns :
      (i : ℕ) (params : Params) (found : Option AssistantStage) (c : Coordinator)
      → params.require_visible_content ≡ false
      → returns (publish_found w i params found c) ≡ true
  publish_found-returns i params none c lax = refl
  publish_found-returns i params (some stage) c lax =
      let content = build_assistant_stage_content w stage params.prefer_terminal_text c in
      publish_stage-returns i stage content params content.parts c lax

  publish_assistant_stage-Ends :
      (f : Bool) (i : ℕ) (params : Params) (c : Coordinator)
      → params.require_visible_content ≡ false
      → At id f c
      → Ends (At id f) (publish_assistant_stage w i params c)
  publish_assistant_stage-Ends f i params c lax at =
      Holds-Ends id (At id f) (publish_assistant_stage w i params c)
        (publish_assistant_stage-At w id f i params c at)
        (unfold publish_assistant_stage in
          if-returns (not c.promoted) _ _ (λ _. refl)
            (λ _. publish_found-returns i params (get_elem? c.assistant_stages i) c lax))

  flush_current-Ends :
      (f : Bool) (current : Option ℕ) (c : Coordinator)
      → At id f c
      → Ends (At id f) (flush_current w current c)
  flush_current-Ends f none c at = at
  flush_current-Ends f (some i) c at =
      and_then-Ends (At id f) (At id f) (publish_assistant_stage w i (so_far false) c) _
        (publish_assistant_stage-Ends f i (so_far false) c refl at) (λ _ d u. u)

  flush_queued_assistant_artifact-Ends :
      (f : Bool) (c : Coordinator)
      → At id f c
      → Ends (At id f) (flush_queued_assistant_artifact w c)
  unfolding flush_queued_assistant_artifact
  flush_queued_assistant_artifact-Ends f c at =
      if-Ends (At id f) (not c.assistant_flush_queued || c.final_published) _ _ (λ _. at)
        (λ _. flush_current-Ends f c.current (record c { assistant_flush_queued = false }) at)

  close_current-Ends :
      (f : Bool) (current : Option ℕ) (c : Coordinator)
      → At id f c
      → Ends (At id f) (close_current w false current c)
  close_current-Ends f none c at = at
  close_current-Ends f (some i) c at =
      publish_assistant_stage-Ends f i (closing false)
        (change_stage i (λ s. record s { completed = true }) c) refl at

  close_current_assistant_stage-Ends :
      (f : Bool) (c : Coordinator)
      → At id f c
      → Ends (At id f) (close_current_assistant_stage w false c)
  unfolding close_current_assistant_stage
  close_current_assistant_stage-Ends f c at = close_current-Ends f c.current c at

  promote_to_task-Ends :
      (f : Bool) (c : Coordinator) → At id f c → Ends (At id f) (promote_to_task w c)
  unfolding promote_to_task
  promote_to_task-Ends f c at =
      if-Ends (At id f) c.promoted _ _ (λ _. at) (λ bare. absurd (ground (arith, at.1, bare)))

  publish_final_status-Ends :
      (state : TaskState) (message : Option Message) (words : Option Text) (c : Coordinator)
      → At id false c
      → Ends (IsFinished w id) (publish_final_status w state message words c)
  unfolding publish_final_status
  publish_final_status-Ends state message words c at =
      if-Ends (IsFinished w id) c.final_published _ _ (λ final. (at.0, final))
        (λ _.
          and_then-Ends (At id false) (IsFinished w id) (ensure_task_published w c) _
            (if-Ends (At id false) c.task_published _ _ (λ _. at)
              (λ bare. absurd (ground (arith, at.1, at.0.1, bare))))
            (λ _ d u.
              let end =
                publish_status-At w id true state message (if is_some message then none else words)
                  (record d { live = released w d }) u in
              (end.0, refl)))

  finish-Ends :
      (state : TaskState) (words : Bool → Option Text) (c : Coordinator)
      → At id false c
      → Ends (IsFinished w id) (finish w state false words c)
  finish-Ends state words c at =
      and_then-Ends (At id false) (IsFinished w id) (promote_to_task w c) _
        (promote_to_task-Ends false c at)
        (λ _ d u.
          and_then-Ends (At id false) (IsFinished w id) (close_current_assistant_stage w false d) _
            (close_current_assistant_stage-Ends false d u)
            (λ shown e t.
              publish_final_status-Ends state (build_canonical_assistant_status_message w e)
                (words shown) (record e { drawn = e.drawn + 1 }) t))

  fail-Ends :
      (error : Text) (c : Coordinator) → At id false c → Ends (IsFinished w id) (fail w error c)
  fail-Ends error c at =
      if-Ends (IsFinished w id) (c.cancel_requested || is_aborted c) _ _
        (λ _. finish-Ends canceled _ c at)
        (λ _.
          finish-Ends failed _
            (record c { lifecycle_error = some (or_else c.lifecycle_error error) }) at)

  -- Once there is a task, an error that is not the server's shutdown ends it: `finalizeError` does
  -- not throw, whatever content is still to be published, and afterwards the final status is on the
  -- bus, which still keeps to the protocol.
  pub finalize_error-Ends :
      (error : Text) (shutdown : Bool) (c : Coordinator)
      → Inv id c
      → c.promoted ≡ true
      → is_server_shutdown_abort shutdown c ≡ false
      → Ends (IsFinished w id) (finalize_error w error shutdown c)
  unfolding finalize_error
  finalize_error-Ends error shutdown c v task running =
      if-Ends (IsFinished w id) c.final_published _ _ (λ final. (v, final))
        (λ open_still.
          if-Ends (IsFinished w id) (is_server_shutdown_abort shutdown c) _ _
            (λ stopped. absurd (ground (arith, running, stopped)))
            (λ _.
              and_then-Ends (At id false) (IsFinished w id) (flush_queued_assistant_artifact w c) _
                (flush_queued_assistant_artifact-Ends false c (v, task, open_still))
                (λ _ d u. fail-Ends error d u)))
