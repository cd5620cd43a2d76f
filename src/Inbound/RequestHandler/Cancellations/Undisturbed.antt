-- ===== src/Inbound/RequestHandler/Cancellations/Undisturbed.antt =====
-- What a cancellation comes to by the state of the task, if nothing else happens meanwhile.
use openclaw_a2a_plugins.Base.{
  ℕ, ◌≡◌, refl, Bool, true, false, not, some, List, [], ◌∷◌, length, Bool-cases, if◌then◌else◌, inl,
  inr,
}
use openclaw_a2a_plugins.Inbound.Protocol.{Task, TaskStatusUpdateEvent, status_update}
use openclaw_a2a_plugins.Inbound.TaskStates.{
  is_terminal_task_state, is_quiescent_task_state, is_active_execution_task_state,
}
use openclaw_a2a_plugins.Inbound.Merge.{apply_event}
use openclaw_a2a_plugins.Inbound.TaskStore.{load}
use openclaw_a2a_plugins.Inbound.TaskStore.Commits.{
  commit_journal_event-load, subscribe_to_committed_tail-load,
}
use openclaw_a2a_plugins.Inbound.LiveExecutions.{is_live}
use openclaw_a2a_plugins.Inbound.Replies.{Ambient}
use openclaw_a2a_plugins.Inbound.RequestHandler.{unsupported_operation, task_not_cancelable}
use openclaw_a2a_plugins.Inbound.RequestHandler.Cancellations.{
  World, Next, loads, reads, again, returned, failed, cancellation_of, step, Move, ours, run,
  cancel_task,
}

-- Where the method is after three steps: the answer, or the first read of the tail.
abbrev pub expected : Task → Bool → ℕ → TaskStatusUpdateEvent → Next
expected t live handle e =
    if is_terminal_task_state t.status.state
    then returned t
    else if is_quiescent_task_state t.status.state
    then returned (apply_event t (status_update e))
    else if not live
    then failed unsupported_operation
    else if is_active_execution_task_state t.status.state
    then again (reads handle 0)
    else failed (task_not_cancelable t.id)

abbrev pub three_steps : List Move
three_steps = ours ∷ ours ∷ ours ∷ []

module _ (a : Ambient) (drawn : ℕ) (w : World) (t : Task) (h : load t.id w.store ≡ some t) where
  terminal_run :
      is_terminal_task_state t.status.state ≡ true
      → (run a drawn t.id three_steps loads w).1 ≡ returned t
  unfolding run step
  terminal_run over = rw (h, over) refl

  quiescent_run :
      is_terminal_task_state t.status.state ≡ false
      → is_quiescent_task_state t.status.state ≡ true
      → (run a drawn t.id three_steps loads w).1
        ≡ returned (apply_event t (status_update (cancellation_of a drawn t)))
  unfolding run step
  quiescent_run more rests =
      let (s', good, now) =
        commit_journal_event-load (status_update (cancellation_of a drawn t)) w.store h in
      rw (h, more, rests, good, now) refl

  orphan_run :
      is_terminal_task_state t.status.state ≡ false
      → is_quiescent_task_state t.status.state ≡ false
      → is_live t.id w.live ≡ false
      → (run a drawn t.id three_steps loads w).1 ≡ failed unsupported_operation
  unfolding run step
  orphan_run more runs orphan = rw (h, more, runs, orphan, h, more, runs) refl

  live_run :
      is_terminal_task_state t.status.state ≡ false
      → is_quiescent_task_state t.status.state ≡ false
      → is_live t.id w.live ≡ true
      → (run a drawn t.id three_steps loads w).1 ≡ (
          if is_active_execution_task_state t.status.state
          then again (reads (length w.store.objects) 0)
          else failed (task_not_cancelable t.id))
  unfolding run step
  live_run more runs live =
      let (handle, same) = subscribe_to_committed_tail-load t.id w.store h in
      elim (Bool-cases (is_active_execution_task_state t.status.state)) [
        | inl active ↦ rw (h, more, runs, live, handle, active) refl
        | inr idle ↦ rw (h, more, runs, live, handle, idle, same, more, runs) refl
      ]

  -- A cancellation that nobody disturbs: a terminal task is returned as it is; a quiescent one is
  -- returned with the event of its cancellation applied to it; of the others, one that is not live
  -- is refused, one that is live and active is waited for on a new subscription, after three steps,
  -- and a live one of unknown state is refused as well.
  pub cancel_task_lem :
      (cancel_task a drawn t.id three_steps w).1
      ≡ expected t (is_live t.id w.live) (length w.store.objects) (cancellation_of a drawn t)
  unfolding cancel_task
  cancel_task_lem = elim (Bool-cases (is_terminal_task_state t.status.state)) [
    | inl over ↦ rw over (terminal_run over)
    | inr more ↦ elim (Bool-cases (is_quiescent_task_state t.status.state)) [
      | inl rests ↦ rw (more, rests) (quiescent_run more rests)
      | inr runs ↦ elim (Bool-cases (is_live t.id w.live)) [
        | inl live ↦ rw (more, runs, live) (live_run more runs live)
        | inr orphan ↦ rw (more, runs, orphan) (orphan_run more runs orphan)
      ]
    ]
  ]
