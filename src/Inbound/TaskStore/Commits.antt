-- ===== src/Inbound/TaskStore/Commits.antt =====
-- What a client of the task store sees of a commit and of a subscription.
use openclaw_a2a_plugins.Base.{
  ◌≡◌, ◌≢◌, refl, ◌∙◌, ap, none, some, arith, length, if◌then◌else◌, Option-cases, inl, inr,
}
use mathlib.Core.Option
use openclaw_a2a_plugins.Base.Text.{Text}
use openclaw_a2a_plugins.Base.Dict.{get, get-set_self}
use openclaw_a2a_plugins.Inbound.Protocol.{Message, Task, JournalEvent, event_task_id}
use openclaw_a2a_plugins.Inbound.TaskStates.{is_active_execution_task_state}
use openclaw_a2a_plugins.Inbound.Merge.{apply_event, ensure_history_contains_message}
use openclaw_a2a_plugins.Inbound.TaskStore.{
  Store, TaskRecord, load, done, commit_journal_in, commit_journal_event, journaled,
  effective_binding, subscribe_to_committed_tail, notify_subscribers, save_record,
  persist_incoming_message,
}

-- The record behind a task that is loaded.
pub load-record :
    (id : Text) (s : Store) {t : Task}
    → load id s ≡ some t
    → (r : TaskRecord) × (get id s.records ≡ some r) × (r.task ≡ t)
unfolding load
load-record id s h = elim (Option-cases (get id s.records)) [
  | inl missing ↦ absurd (cc (missing, h))
  | inr (r, there) ↦ (r, there, cc (there, h))
]

commit_in :
    (e : JournalEvent) (s : Store) (r : TaskRecord)
    → (s' : Store) × (commit_journal_in e (some r) s ≡ done s' e)
      × (load (event_task_id e) s' ≡ some (apply_event r.task e))
unfolding load notify_subscribers
commit_in e s r = (
  notify_subscribers (event_task_id e) e
      (save_record (event_task_id e) (journaled e (effective_binding (event_task_id e) s) r) s),
  refl,
  ap (Option.map (λ (q : TaskRecord). q.task)) (get-set_self (event_task_id e) _ s.records),
)

-- A commit of an event for a stored task succeeds, and the task is then as the event makes it.
pub commit_journal_event-load :
    (e : JournalEvent) (s : Store) {t : Task}
    → load (event_task_id e) s ≡ some t
    → (s' : Store) × (commit_journal_event e s ≡ done s' e)
      × (load (event_task_id e) s' ≡ some (apply_event t e))
unfolding commit_journal_event
commit_journal_event-load e s {t} h =
    let (r, there, same) = load-record (event_task_id e) s h in
    let (s', good, now) = commit_in e s r in
    (
      s',
      ap (λ o. commit_journal_in e o s) there ∙ good,
      now ∙ ap (λ u. some (apply_event u e)) same,
    )

-- A commit of an event for a task that is not stored fails.
pub unstored-fails :
    (e : JournalEvent) (s : Store) {s' : Store} {e' : JournalEvent}
    → load (event_task_id e) s ≡ none
    → commit_journal_event e s ≢ done s' e'
unfolding commit_journal_event load
unstored-fails e s h = λ good. elim (Option-cases (get (event_task_id e) s.records)) [
  | inl missing ↦ cc (missing, good)
  | inr (r, there) ↦ cc (there, h)
]

-- A subscription is given to a task in an active state only, and leaves the tasks as they are.
pub subscribe_to_committed_tail-load :
    (id : Text) (s : Store) {t : Task}
    → load id s ≡ some t
    → ((subscribe_to_committed_tail id s).1
        ≡ (if is_active_execution_task_state t.status.state then some (length s.objects) else none))
      × (load id (subscribe_to_committed_tail id s).0 ≡ some t)
unfolding subscribe_to_committed_tail load
subscribe_to_committed_tail-load id s {t} h =
    let (r, there, same) = load-record id s h in
    (ground (arith, there, same), ground (arith, there, same))

-- A message that is kept for a stored task is in its history from then on.
pub persist_incoming_message-load :
    (id : Text) (m : Message) (s : Store) {t : Task}
    → load id s ≡ some t
    → ((persist_incoming_message id m s).1 ≡ some (ensure_history_contains_message t m))
      × (load id (persist_incoming_message id m s).0 ≡ some (ensure_history_contains_message t m))
unfolding persist_incoming_message load
persist_incoming_message-load id m s {t} h =
    let (r, there, same) = load-record id s h in
    (
      ground (arith, there, same),
      rw there (
          ground (
            arith,
            same,
            get-set_self id (record r { task = ensure_history_contains_message r.task m })
                s.records,
          )),
    )
