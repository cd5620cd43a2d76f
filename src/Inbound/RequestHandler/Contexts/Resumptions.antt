-- ===== src/Inbound/RequestHandler/Contexts/Resumptions.antt =====
-- Which messages may go on with a task.
use openclaw_a2a_plugins.Base.{
  ℕ, ◌≡◌, refl, ◌⊎◌, inl, inr, true, false, none, some, Bool-cases, Option-cases,
}
use openclaw_a2a_plugins.Base.Text.{Text}
use openclaw_a2a_plugins.Base.Results.{ok, err}
use openclaw_a2a_plugins.Inbound.Protocol.{Message, Task}
use openclaw_a2a_plugins.Inbound.TaskStates.{is_terminal_task_state}
use openclaw_a2a_plugins.Inbound.Merge.{has_message, ensure_history_contains_message}
use openclaw_a2a_plugins.Inbound.Merge.Histories.{
  history_of, ensure_history_contains_message-has_message,
}
use openclaw_a2a_plugins.Inbound.TaskStore.{
  Store, StoredTaskBinding, load, load_binding, persist_incoming_message,
}
use openclaw_a2a_plugins.Inbound.TaskStore.Commits.{persist_incoming_message-load}
use openclaw_a2a_plugins.Inbound.RequestHandler.{
  HandlerError, task_not_found, other_context, no_binding, terminal_task,
}
use openclaw_a2a_plugins.Inbound.RequestHandler.Contexts.{same_context, resume_task}

abbrev pub alone : ℕ → Store → Store
alone n s = s

-- The task goes on: it was stored, in the same context, bound and not over, and then the message is
-- in its history, where it is stored.
pub record Resumed (id : Text) (m : Message) (s : Store) : Type 0 where
  pub before : Task
  pub bound : StoredTaskBinding
  pub later : Store
  pub stored : load id s ≡ some before
  pub agrees : same_context m.context_id before.context_id ≡ true
  pub has_binding : load_binding id s ≡ some bound
  pub goes_on : is_terminal_task_state before.status.state ≡ false
  pub answer : resume_task alone id m s ≡ (later, ok (ensure_history_contains_message before m))
  pub heard :
      has_message m.message_id (history_of (ensure_history_contains_message before m)) ≡ true
  pub kept : load id later ≡ some (ensure_history_contains_message before m)

-- Why a message is refused, and with which error.
pub data IsRefusal (id : Text) (m : Message) (s : Store) : HandlerError → Type 0 where
  not_stored : load id s ≡ none → IsRefusal id m s (task_not_found id)
  elsewhere :
      (t : Task)
      → load id s ≡ some t
      → same_context m.context_id t.context_id ≡ false
      → IsRefusal id m s (other_context t.id)
  unbound :
      (t : Task)
      → load id s ≡ some t
      → same_context m.context_id t.context_id ≡ true
      → load_binding id s ≡ none
      → IsRefusal id m s (no_binding t.id)
  is_over :
      (t : Task) (b : StoredTaskBinding)
      → load id s ≡ some t
      → same_context m.context_id t.context_id ≡ true
      → load_binding id s ≡ some b
      → is_terminal_task_state t.status.state ≡ true
      → IsRefusal id m s (terminal_task t.id t.status.state)

-- A message goes on with a task exactly if the task is stored, has the message's context if that
-- names one, has a binding and is not in a terminal state; then the message is in the history that
-- is stored. Otherwise the store is left as it was, and the error is that of the first of these
-- conditions that fails. Nobody else writes to the store meanwhile.
pub resume_task_lem :
    (id : Text) (m : Message) (s : Store)
    → ((e : HandlerError) × (resume_task alone id m s ≡ (s, err e)) × IsRefusal id m s e)
      ⊎ Resumed id m s
unfolding resume_task
resume_task_lem id m s = elim (Option-cases (load id s)) [
  | inl missing ↦ inl (task_not_found id, rw missing refl, not_stored missing)
  | inr (t, there) ↦ elim (Bool-cases (same_context m.context_id t.context_id)) [
    | inr other ↦ inl (other_context t.id, rw (there, other) refl, elsewhere t there other)
    | inl agrees ↦ elim (Option-cases (load_binding id s)) [
      | inl no_bound ↦
          inl (no_binding t.id, rw (there, agrees, no_bound) refl, unbound t there agrees no_bound)
      | inr (b, bound) ↦ elim (Bool-cases (is_terminal_task_state t.status.state)) [
        | inl over ↦ inl (
          terminal_task t.id t.status.state,
          rw (there, agrees, bound, over) refl,
          is_over t b there agrees bound over,
        )
        | inr more ↦
            let (answer, kept) = persist_incoming_message-load id m s there in
            inr (record {
              before = t;
              bound = b;
              later = (persist_incoming_message id m s).0;
              stored = there;
              agrees = agrees;
              has_binding = bound;
              goes_on = more;
              answer = rw (there, agrees, bound, more, answer) refl;
              heard = ensure_history_contains_message-has_message t m;
              kept = kept;
            })
      ]
    ]
  ]
]
