-- ===== src/Inbound/RequestHandler/Cancellations/Safety.antt =====
-- What a cancellation answers, whatever happens between its steps.
use openclaw_a2a_plugins.Base.{
  ℕ, ◌≡◌, refl, sym, ap, ◌∙◌, ◌⊎◌, inl, inr, Bool, true, false, Option, none, some, List, [], ◌∷◌,
  Bool-cases, Option-cases, subst,
}
use openclaw_a2a_plugins.Base.Text.{Text}
use openclaw_a2a_plugins.Inbound.Protocol.{Task, TaskStatus, JournalEvent, status_update, canceled}
use openclaw_a2a_plugins.Inbound.TaskStates.{is_terminal_task_state, is_quiescent_task_state}
use openclaw_a2a_plugins.Inbound.TaskStore.{
  Store, load, Committed, done, unknown_task, commit_journal_event,
}
use openclaw_a2a_plugins.Inbound.TaskStore.Commits.{commit_journal_event-load, unstored-fails}
use openclaw_a2a_plugins.Inbound.Merge.{apply_event}
use openclaw_a2a_plugins.Inbound.Merge.Histories.{apply_event-status}
use openclaw_a2a_plugins.Inbound.LiveExecutions.{is_live}
use openclaw_a2a_plugins.Inbound.Replies.{Ambient}
use openclaw_a2a_plugins.Inbound.RequestHandler.Cancellations.{
  World, Phase, Next, loads, loads_again, subscribes, loads_untailed, loads_last, cancels, reads,
  waits, commits, reloads, again, returned, failed, by_state, terminal_only, any_task, if_live,
  if_subscribed, is_final_task_event, on_answer, after_commit, cancellation_of, step, Move, ours,
  theirs, go_on, run, cancel_task,
}

abbrev Quiescent : Task → Type 0
Quiescent t = is_quiescent_task_state t.status.state ≡ true

-- The world before and after a step of the handler.
abbrev pub Taken : Type 0
Taken = World × World

-- Among the steps of the handler, the latest first, is one that finds a task under the id.
abbrev pub WasLoaded : Text → Task → List Taken → Type 0
WasLoaded id t [] = ⊥
WasLoaded id t ((v, after) ∷ past) = (load id v.store ≡ some t) ⊎ WasLoaded id t past

-- A step commits the cancellation of a task, which is then canceled.
abbrev pub Cancels : Ambient → ℕ → Task → Taken → Type 0
Cancels a drawn t (v, after) =
    (commit_journal_event (status_update (cancellation_of a drawn t)) v.store
      ≡ done after.store (status_update (cancellation_of a drawn t)))
    × (r : Task) × (load t.id after.store ≡ some r)
    × (r.status.state ≡ canceled)

-- One of its steps commits the cancellation of a task that is loaded in an earlier one.
abbrev pub WasCanceled : Ambient → ℕ → Text → Task → List Taken → Type 0
WasCanceled a drawn id t [] = ⊥
WasCanceled a drawn id t (taken ∷ past) =
    (Cancels a drawn t taken × WasLoaded id t past) ⊎ WasCanceled a drawn id t past

abbrev visit_on : (Phase → List Taken) → World × Next → List Taken → List Taken
visit_on rest (w, again p) past = rest p
visit_on rest (w, returned t) past = past
visit_on rest (w, failed e) past = past

-- The steps that the handler makes, after those that are given.
unfoldable pub visited : Ambient → ℕ → Text → List Move → Phase → World → List Taken → List Taken
visited a drawn id [] p w past = past
visited a drawn id (theirs f ∷ moves) p w past = visited a drawn id moves p (f w) past
visited a drawn id (ours ∷ moves) p w past =
    let next = step a drawn id p w in
    let now = (w, next.0) ∷ past in visit_on (λ q. visited a drawn id moves q next.0 now) next now

-- The task is terminal, or is what is stored after the handler canceled a task that it had loaded
-- in a quiescent state.
abbrev pub IsAnswer : Ambient → ℕ → Text → List Taken → World → Task → Type 0
IsAnswer a drawn id past w t =
    ((load id w.store ≡ some t) × (is_terminal_task_state t.status.state ≡ true))
    ⊎ ((before : Task) × Quiescent before
        × WasCanceled a drawn id before past
        × (load before.id w.store ≡ some t))

done_inj :
    {r : Committed JournalEvent} {s s' : Store} {e e' : JournalEvent}
    → r ≡ done s e
    → r ≡ done s' e'
    → (s ≡ s') × (e ≡ e')
done_inj h k = (cc, cc)

commit-Cancels :
    (a : Ambient) (drawn : ℕ) (t : Task) (v after : World) {e : JournalEvent}
    → commit_journal_event (status_update (cancellation_of a drawn t)) v.store ≡ done after.store e
    → Cancels a drawn t (v, after)
commit-Cancels a drawn t v after h =
    let event = status_update (cancellation_of a drawn t) in
    elim (Option-cases (load t.id v.store)) [
      | inl missing ↦ absurd (unstored-fails event v.store missing h)
      | inr (r, there) ↦
          let (s, good, now) = commit_journal_event-load event v.store there in
          let (same, told) = done_inj good h in
          (
            h ∙ ap (λ e. done after.store e) (sym told),
            apply_event r event,
            subst (λ s. load t.id s ≡ some (apply_event r event)) same now,
            ap (λ (x : TaskStatus). x.state) (apply_event-status r (cancellation_of a drawn t)),
          )
    ]

module _ (a : Ambient) (drawn : ℕ) (id : Text) where
  -- Only a quiescent task is canceled by the handler itself.
  abbrev Good : List Taken → Phase → Type 0
  Good past (commits t) = Quiescent t × WasLoaded id t past
  Good past (reloads t) = Quiescent t × WasCanceled a drawn id t past
  Good past _ = Unit

  abbrev IsSafe : List Taken → World × Next → Type 0
  IsSafe past (w, again p) = Good past p
  IsSafe past (w, returned t) = IsAnswer a drawn id past w t
  IsSafe past (w, failed e) = Unit

  module _ (past : List Taken) (w after : World) where
    by_state-IsSafe :
        (otherwise : Next) (o : Option Task)
        → load id w.store ≡ o
        → IsSafe ((w, after) ∷ past) (w, otherwise)
        → IsSafe ((w, after) ∷ past) (w, by_state id otherwise o)
    by_state-IsSafe otherwise none e h = tt
    by_state-IsSafe otherwise (some t) e h =
        elim (Bool-cases (is_terminal_task_state t.status.state)) [
          | inl over ↦ rw over (inl (e, over))
          | inr more ↦ elim (Bool-cases (is_quiescent_task_state t.status.state)) [
            | inl rests ↦ rw (more, rests) (rests, inl e)
            | inr runs ↦ rw (more, runs) h
          ]
        ]

    on_answer-IsSafe :
        (handle reader : ℕ) (o : Option (Option JournalEvent))
        → IsSafe ((w, after) ∷ past) (on_answer id handle reader w o)
    on_answer-IsSafe handle reader none = tt
    on_answer-IsSafe handle reader (some none) = tt
    on_answer-IsSafe handle reader (some (some e)) = elim (Bool-cases (is_final_task_event e)) [
      | inl last ↦ rw last tt
      | inr other ↦ rw other tt
    ]

    terminal_only-IsSafe :
        (o : Option Task) → load id w.store ≡ o → IsSafe ((w, after) ∷ past) (w, terminal_only id o)
    terminal_only-IsSafe none e = tt
    terminal_only-IsSafe (some t) e = elim (Bool-cases (is_terminal_task_state t.status.state)) [
      | inl over ↦ rw over (inl (e, over))
      | inr more ↦ rw more tt
    ]

    any_task-IsSafe :
        (before : Task) (o : Option Task)
        → Good past (reloads before)
        → load before.id w.store ≡ o
        → IsSafe ((w, after) ∷ past) (w, any_task before.id o)
    any_task-IsSafe before none g e = tt
    any_task-IsSafe before (some t) (q, did) e = inr (before, q, inr did, e)

    if_live-IsSafe : (b : Bool) → IsSafe ((w, after) ∷ past) (w, if_live b)
    if_live-IsSafe true = tt
    if_live-IsSafe false = tt

    if_subscribed-IsSafe :
        (v : World) (o : Option ℕ) → IsSafe ((w, after) ∷ past) (v, if_subscribed o)
    if_subscribed-IsSafe v none = tt
    if_subscribed-IsSafe v (some handle) = tt

    after_commit-IsSafe :
        (t : Task) (c : Committed JournalEvent)
        → Good past (commits t)
        → commit_journal_event (status_update (cancellation_of a drawn t)) w.store ≡ c
        → (after_commit a drawn t w c).0 ≡ after
        → IsSafe ((w, after) ∷ past) (after_commit a drawn t w c)
    after_commit-IsSafe t (done s e) (q, seen) h is = (
      q,
      inl (commit-Cancels a drawn t w after (h ∙ ap (λ (x : World). done x.store e) is), seen),
    )
    after_commit-IsSafe t (unknown_task k) g h is = tt

    step-IsSafe :
        (p : Phase)
        → Good past p
        → (step a drawn id p w).0 ≡ after
        → IsSafe ((w, after) ∷ past) (step a drawn id p w)
    unfolding step
    step-IsSafe loads g is = by_state-IsSafe _ _ refl (if_live-IsSafe (is_live id w.live))
    step-IsSafe loads_again g is = by_state-IsSafe _ _ refl tt
    step-IsSafe subscribes g is = if_subscribed-IsSafe (step a drawn id subscribes w).0 _
    step-IsSafe loads_untailed g is = by_state-IsSafe _ _ refl tt
    step-IsSafe (cancels handle) g is = tt
    step-IsSafe (reads handle reader) g is = tt
    step-IsSafe (waits handle reader) g is = on_answer-IsSafe handle reader _
    step-IsSafe loads_last g is = terminal_only-IsSafe _ refl
    step-IsSafe (commits t) g is = after_commit-IsSafe t _ g refl is
    step-IsSafe (reloads t) g is = any_task-IsSafe t _ g refl

  go_on-IsSafe :
      (rest : Phase → World × Next) (seen : Phase → List Taken) (past : List Taken)
      → (n : World × Next) → IsSafe past n
      → ((q : Phase) → Good past q → IsSafe (seen q) (rest q))
      → IsSafe (visit_on seen n past) (go_on rest n)
  go_on-IsSafe rest seen past (w, again p) h k = k p h
  go_on-IsSafe rest seen past (w, returned t) h k = h
  go_on-IsSafe rest seen past (w, failed e) h k = tt

  run-IsSafe :
      (moves : List Move) (p : Phase) (w : World) (past : List Taken)
      → Good past p
      → IsSafe (visited a drawn id moves p w past) (run a drawn id moves p w)
  unfolding run visited
  run-IsSafe [] p w past g = g
  run-IsSafe (theirs f ∷ moves) p w past g = run-IsSafe moves p (f w) past g
  run-IsSafe (ours ∷ moves) p w past g =
      let next = step a drawn id p w in
      go_on-IsSafe (λ q. run a drawn id moves q next.0)
        (λ q. visited a drawn id moves q next.0 ((w, next.0) ∷ past)) ((w, next.0) ∷ past) next
        (step-IsSafe past w next.0 p g refl)
        (λ q h. run-IsSafe moves q next.0 ((w, next.0) ∷ past) h)

-- Whatever others do while a cancellation waits, the task that it answers is stored at that moment.
-- It is the one under the id that was asked for, in a terminal state; or else the one under the id of
-- a quiescent task that an earlier step of the handler found under the id that was asked for, and
-- whose cancellation a later step of it committed, after which the stored task was canceled.
pub cancel_task-IsAnswer :
    (a : Ambient) (drawn : ℕ) (id : Text) (moves : List Move) (w : World) {w' : World} {t : Task}
    → cancel_task a drawn id moves w ≡ (w', returned t)
    → IsAnswer a drawn id (visited a drawn id moves loads w []) w' t
unfolding cancel_task
cancel_task-IsAnswer a drawn id moves w h =
    subst (IsSafe a drawn id (visited a drawn id moves loads w [])) h
      (run-IsSafe a drawn id moves loads w [] tt)
