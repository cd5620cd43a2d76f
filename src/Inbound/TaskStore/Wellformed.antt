-- ===== src/Inbound/TaskStore/Wellformed.antt =====
-- The invariant of the task store, and the calls on records that keep it.
pub mod Listeners
pub mod Steps
use mathlib.Core.Option
use openclaw_a2a_plugins.Base.{
  ℕ, suc, ◌+◌, ◌≤◌, ◌<◌, ◌≡◌, refl, sym, ap, ◌∙◌, Bool, true, false, not, ◌||◌, Option, none, some,
  List, [], ◌∷◌, ◌++◌, arith, length, length-append, length-update_at, update_at, get_elem?, All,
  All-append, All-keep, ◌==◌, or_else, or_option, Bool-cases, Option-cases, inl, inr, if◌then◌else◌,
}
use openclaw_a2a_plugins.Base.Text.{Text, text_eq, text_eq_iff}
use openclaw_a2a_plugins.Base.Dict.{
  Dict, get, set, delete, IsMap, set-IsMap, All-set, All-get, All-delete,
}
use openclaw_a2a_plugins.Inbound.Protocol.{
  Message, Task, JournalEvent, event_task_id, status_update, artifact_update,
}
use openclaw_a2a_plugins.Inbound.Subscription.{Subscription, opened}
use openclaw_a2a_plugins.Inbound.Subscription
use openclaw_a2a_plugins.Inbound.Merge.{ensure_history_contains_message, apply_event}
use openclaw_a2a_plugins.Inbound.Merge.Identity.{ensure-id, apply_event-id}
use openclaw_a2a_plugins.Inbound.Records.{
  JournalRecord, StoredTaskRecord, Increasing, Increasing-append, last_sequence,
  last_sequence-append, IsWellFormed,
}
use openclaw_a2a_plugins.Inbound.TaskStore.{
  Store, TaskRecord, StoredTaskBinding, empty_store, snapshot_record, save_record, save,
  effective_binding, write_binding, write_binding_to, prime_binding, discard_pending,
  persist_incoming_message, persist_in, commit_task_snapshot, with_latest, Committed, done,
  unknown_task, journaled, notify_each, notify_subscribers, commit_journal_event, commit_journal_in,
  create_subscription, subscribe_in, subscribe_to_committed_tail, prepare_in, prepare_resubscribe,
  next_event, others, drop_if_empty, unsubscribe, close_subscription, close_open, close_store,
  push_at, is_active,
}

-- A record stands under the id of its task, and its journal is in order.
abbrev pub IsGood : Text × TaskRecord → Type 0
IsGood (k, r) = (k ≡ r.task.id) × IsWellFormed r

-- Listeners are handles of objects that exist.
abbrev pub Below : ℕ → List ℕ → Type 0
Below n = All λ i. i < n

abbrev pub AllBelow : ℕ → Dict (List ℕ) → Type 0
AllBelow n = All λ entry. Below n entry.1

pub record Inv (s : Store) : Type 0 where
  pub unique : IsMap s.records
  pub good : All IsGood s.records
  pub heard : AllBelow (length s.objects) s.listeners

pub empty_store-Inv : Inv empty_store
unfolding empty_store
empty_store-Inv = record { unique = tt; good = tt; heard = tt }

with_latest-id : (t : Task) (o : Option Message) → (with_latest t o).id ≡ t.id
with_latest-id t none = refl
with_latest-id t (some m) = ensure-id t m

-- Storing a good record, whatever becomes of the pending bindings.
stored-Inv :
    (id : Text) (r : TaskRecord) (pending : Dict StoredTaskBinding) {s : Store}
    → Inv s
    → IsGood (id, r)
    → Inv (record s { records = set id r s.records; pending_bindings = pending })
stored-Inv id r pending {s} v g = record {
  unique = set-IsMap id r s.records v.unique;
  good = All-set IsGood id r s.records v.good g;
  heard = v.heard;
}

-- A snapshot keeps the journal of the record that it replaces.
snapshot_record-IsWellFormed :
    (s : Store) (id : Text) (t : Task) (b : Option StoredTaskBinding) (o : Option TaskRecord)
    → Inv s
    → get id s.records ≡ o
    → IsWellFormed (snapshot_record t b o)
snapshot_record-IsWellFormed s id t b none v e = record { ordered = tt; covered = omega arith }
snapshot_record-IsWellFormed s id t b (some r) v e =
    let w = (All-get IsGood id s.records v.good e).1 in
    record { ordered = w.ordered; covered = w.covered }

pub save-Inv : (t : Task) {s : Store} → Inv s → Inv (save t s)
unfolding save
save-Inv t {s} v =
    stored-Inv t.id _ _ v
      (refl, snapshot_record-IsWellFormed s t.id t (effective_binding t.id s) _ v refl)

pub commit_task_snapshot-Inv :
    (t : Task) (o : Option Message) {s : Store} → Inv s → Inv (commit_task_snapshot t o s).0
unfolding commit_task_snapshot
commit_task_snapshot-Inv t o {s} v = stored-Inv t.id _ _ v (
  sym (with_latest-id t o),
  snapshot_record-IsWellFormed s t.id (with_latest t o) (effective_binding t.id s) _ v refl,
)

pub write_binding_to-Inv :
    (id : Text) (b : StoredTaskBinding) (s : Store) (o : Option TaskRecord)
    → Inv s
    → get id s.records ≡ o
    → Inv (write_binding_to id b o s)
write_binding_to-Inv id b s none v e = record { unique = v.unique; good = v.good; heard = v.heard }
write_binding_to-Inv id b s (some r) v e =
    let g = All-get IsGood id s.records v.good e in
    stored-Inv id _ _ v (g.0, record { ordered = g.1.ordered; covered = g.1.covered })

pub persist_in-Inv :
    (id : Text) (m : Message) (s : Store) (o : Option TaskRecord)
    → Inv s
    → get id s.records ≡ o
    → Inv (persist_in id m o s).0
persist_in-Inv id m s none v e = v
persist_in-Inv id m s (some r) v e =
    let g = All-get IsGood id s.records v.good e in
    stored-Inv id _ _ v
      (g.0 ∙ sym (ensure-id r.task m), record { ordered = g.1.ordered; covered = g.1.covered })

journaled-IsWellFormed :
    (e : JournalEvent) (b : Option StoredTaskBinding) (r : TaskRecord)
    → IsWellFormed r
    → IsWellFormed (journaled e b r)
journaled-IsWellFormed e b r w = record {
  ordered =
      Increasing-append 0 r.journal (record { sequence = r.current_sequence + 1; event = e })
        w.ordered (omega (arith, w.covered));
  covered = omega (
    arith,
    last_sequence-append 0 r.journal (record { sequence = r.current_sequence + 1; event = e }),
  );
}
