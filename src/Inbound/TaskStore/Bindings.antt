-- ===== src/Inbound/TaskStore/Bindings.antt =====
-- What becomes of the binding of a task.
use openclaw_a2a_plugins.Base.{
  ℕ, ◌≡◌, refl, Bool, Option, none, some, arith, Option-cases, inl, inr, if◌then◌else◌, get_elem?,
}
use openclaw_a2a_plugins.Base.Text.{Text, text_eq, text_eq_iff}
use openclaw_a2a_plugins.Base.Dict.{get, get-set, get-delete}
use openclaw_a2a_plugins.Inbound.Protocol.{Message, JournalEvent, event_task_id}
use openclaw_a2a_plugins.Inbound.Subscription.{Subscription}
use openclaw_a2a_plugins.Inbound.Merge.{ensure_history_contains_message}
use openclaw_a2a_plugins.Inbound.TaskStore.{
  Store, TaskRecord, StoredTaskBinding, save_record, save, effective_binding, load_binding,
  write_binding, prime_binding, discard_pending, persist_incoming_message, persist_in,
  commit_task_snapshot, commit_journal_event, commit_journal_in, notify_subscribers,
  subscribe_to_committed_tail, subscribe_in, prepare_resubscribe, prepare_in, create_subscription,
  next_event, close_subscription, close_open, unsubscribe, journaled,
}
use openclaw_a2a_plugins.Inbound.TaskStore.Wellformed.Listeners.{after}
use openclaw_a2a_plugins.Inbound.TaskStore.Wellformed.Steps.{
  Call, saves, writes_binding, primes, discards, persists, commits_snapshot, commits_event,
  subscribes, prepares, reads, closes, shuts_down, call,
}

-- Storing a record with the binding that is in effect keeps every binding.
load_binding-save_record :
    (k id : Text) (r : TaskRecord) (s : Store)
    → r.binding ≡ effective_binding id s
    → load_binding k (save_record id r s) ≡ load_binding k s
unfolding load_binding
load_binding-save_record k id r s e =
    ground
      (arith, e, text_eq_iff id k, get-set id k r s.records, get-delete id k s.pending_bindings)

load_binding-persist_in :
    (k id : Text) (m : Message) (o : Option TaskRecord) (s : Store)
    → get id s.records ≡ o
    → load_binding k (persist_in id m o s).0 ≡ load_binding k s
unfolding load_binding
load_binding-persist_in k id m none s e = refl
load_binding-persist_in k id m (some r) s e = ground (
  arith,
  e,
  text_eq_iff id k,
  get-set id k (record r { task = ensure_history_contains_message r.task m }) s.records,
)

load_binding-commit_journal_in :
    (k : Text) (e : JournalEvent) (o : Option TaskRecord) (s : Store)
    → load_binding k (after s (commit_journal_in e o s)) ≡ load_binding k s
unfolding notify_subscribers load_binding
load_binding-commit_journal_in k e none s = refl
load_binding-commit_journal_in k e (some r) s =
    let id = event_task_id e in
    unfold load_binding in
    load_binding-save_record k id (journaled e (effective_binding id s) r) s refl

-- A new binding is the one that is loaded, whether the task is stored already or not.
pub write_binding-load_binding :
    (id k : Text) (b : StoredTaskBinding) (s : Store)
    → load_binding k (write_binding id b s) ≡ (if text_eq id k then some b else load_binding k s)
unfolding load_binding write_binding
write_binding-load_binding id k b s = elim (Option-cases (get id s.records)) [
  | inl absent ↦ rw absent (ground (arith, get-set id k b s.pending_bindings))
  | inr (r, found) ↦ rw found (
      ground (
        arith,
        get-set id k (record r { binding = some b }) s.records,
        get-delete id k s.pending_bindings,
      ))
]

load_binding-subscribe_in :
    (k id : Text) (o : Option TaskRecord) (s : Store)
    → load_binding k (subscribe_in id o s).0 ≡ load_binding k s
unfolding load_binding create_subscription
load_binding-subscribe_in k id none s = refl
load_binding-subscribe_in k id (some r) s = ground arith

load_binding-prepare_in :
    (k id : Text) (allow : Bool) (o : Option TaskRecord) (s : Store)
    → load_binding k (prepare_in id allow o s).0 ≡ load_binding k s
unfolding load_binding create_subscription
load_binding-prepare_in k id allow none s = refl
load_binding-prepare_in k id allow (some r) s = ground arith

load_binding-close_open :
    (k id : Text) (handle : ℕ) (o : Option (Subscription JournalEvent)) (s : Store)
    → load_binding k (close_open id handle o s) ≡ load_binding k s
unfolding load_binding unsubscribe
load_binding-close_open k id handle none s = refl
load_binding-close_open k id handle (some o) s = ground arith

-- The calls that are meant to change the binding of a task.
abbrev Rebinds : Text → Call → Type 0
Rebinds k (writes_binding id b) = id ≡ k
Rebinds k (primes id b) = id ≡ k
Rebinds k (discards id) = id ≡ k
Rebinds k shuts_down = Unit
Rebinds k _ = ⊥

-- Every other call keeps the binding that a task is resumed with, also those that move a pending
-- binding into the stored record, those that fail, and those for other tasks.
pub load_binding-call :
    (k : Text) (s : Store) (c : Call) → ¬ Rebinds k c → load_binding k (call s c) ≡ load_binding k s
unfolding call persist_incoming_message commit_journal_event subscribe_to_committed_tail
    prepare_resubscribe close_subscription save commit_task_snapshot
load_binding-call k s (writes_binding id b) h =
    ground (arith, h, text_eq_iff id k, write_binding-load_binding id k b s)
load_binding-call k s (primes id b) h =
    unfold load_binding prime_binding in
    ground (arith, h, text_eq_iff id k, get-set id k b s.pending_bindings)
load_binding-call k s (discards id) h =
    unfold load_binding discard_pending in
    ground (arith, h, text_eq_iff id k, get-delete id k s.pending_bindings)
load_binding-call k s shuts_down h = absurd (h tt)
load_binding-call k s (saves t) h = load_binding-save_record k t.id _ s refl
load_binding-call k s (persists id m) h = load_binding-persist_in k id m (get id s.records) s refl
load_binding-call k s (commits_snapshot t o) h = load_binding-save_record k t.id _ s refl
load_binding-call k s (commits_event e) h =
    load_binding-commit_journal_in k e (get (event_task_id e) s.records) s
load_binding-call k s (subscribes id) h = load_binding-subscribe_in k id (get id s.records) s
load_binding-call k s (prepares id allow) h =
    load_binding-prepare_in k id allow (get id s.records) s
load_binding-call k s (reads handle reader) h = unfold load_binding next_event in refl
load_binding-call k s (closes id handle) h =
    load_binding-close_open k id handle (get_elem? s.objects handle) s
