-- ===== src/Inbound/TaskStore.antt =====
-- `A2ATaskRuntimeStore` of packages/openclaw-a2a-inbound/src/task-store.ts over the in-memory
-- backend.
--
-- The store's `enqueueByTask` runs the calls for one task one after another, and no call reads or
-- writes the entries of another task between its `await`s, so a call is one step. `primeBinding` and
-- `discardPending` are not queued, and a write deletes the pending binding after it awaited the
-- backend: what they do within that wait is not modelled. Subscriptions are objects on a heap: a
-- handle is its index, and a listener pushes to the object of its index.
pub mod Wellformed
pub mod Bindings
pub mod Commits
pub mod LiveTail
pub mod Examples
use openclaw_a2a_plugins.Base.{
  ℕ, ◌+◌, Bool, true, false, not, ◌||◌, Option, none, some, List, [], ◌∷◌, ◌++◌, ◌==◌, keep, length,
  or_else, or_option, if◌then◌else◌, update_at, get_elem?,
}
use mathlib.Core.Option
use openclaw_a2a_plugins.Base.Text.{Text}
use openclaw_a2a_plugins.Base.Dict.{Dict, get, set, delete}
use openclaw_a2a_plugins.Inbound.Protocol.{Message, Task, JournalEvent, TaskState, event_task_id}
use openclaw_a2a_plugins.Inbound.TaskStates.{is_active_execution_task_state}
use openclaw_a2a_plugins.Inbound.Subscription.{Subscription, opened}
use openclaw_a2a_plugins.Inbound.Subscription
use openclaw_a2a_plugins.Inbound.Merge.{ensure_history_contains_message, apply_event}
use openclaw_a2a_plugins.Inbound.Records.{
  JournalRecord, StoredTaskRecord, create_stored_task_record,
}

pub data PeerSource : Type 0 where
  server_user_name context_id task_id message_id : PeerSource

pub data MatchedBy : Type 0 where
  binding_peer binding_peer_wildcard binding_peer_parent binding_guild_roles binding_guild
        binding_team binding_account binding_channel default :
      MatchedBy

pub record StoredTaskBinding : Type 0 where
  pub agent_id : Text
  pub channel : Text
  pub account_id : Text
  pub matched_by : MatchedBy
  pub session_key : Text
  pub main_session_key : Text
  pub store_path : Text
  pub peer_kind : Text
  pub peer_id : Text
  pub peer_source : PeerSource
  pub created_at : Text
  pub updated_at : Text

abbrev pub TaskRecord : Type 0
TaskRecord = StoredTaskRecord Task StoredTaskBinding JournalEvent

-- `listeners` is the map `subscribers`; `objects` is the heap of subscriptions.
pub record Store : Type 0 where
  pub records : Dict TaskRecord
  pub pending_bindings : Dict StoredTaskBinding
  pub listeners : Dict (List ℕ)
  pub subscriptions : List ℕ
  pub objects : List (Subscription JournalEvent)

pub empty_store : Store
empty_store = record {
  records = [];
  pending_bindings = [];
  listeners = [];
  subscriptions = [];
  objects = [];
}

unfoldable pub load : Text → Store → Option Task
load id s = Option.map (λ (r : TaskRecord). r.task) (get id s.records)

abbrev binding_of : Option TaskRecord → Option StoredTaskBinding
binding_of none = none
binding_of (some r) = r.binding

-- `this.flushPendingBinding(id) ?? currentRecord?.binding`.
abbrev pub effective_binding : Text → Store → Option StoredTaskBinding
effective_binding id s = or_option (get id s.pending_bindings) (binding_of (get id s.records))

-- The record that a snapshot is stored in: the journal goes on.
abbrev pub snapshot_record : Task → Option StoredTaskBinding → Option TaskRecord → TaskRecord
snapshot_record task binding current =
    create_stored_task_record task binding
      (Option.map (λ (r : TaskRecord). r.current_sequence) current)
      (Option.map (λ (r : TaskRecord). r.journal) current)

-- `saveRecord` followed by `pendingBindings.delete`.
abbrev pub save_record : Text → TaskRecord → Store → Store
save_record id r s = record s {
  records = set id r s.records;
  pending_bindings = delete id s.pending_bindings;
}

pub save : Task → Store → Store
save task s =
    save_record task.id (snapshot_record task (effective_binding task.id s) (get task.id s.records))
      s

read_binding : Text → Store → Option StoredTaskBinding
read_binding id s = binding_of (get id s.records)

abbrev pub write_binding_to : Text → StoredTaskBinding → Option TaskRecord → Store → Store
write_binding_to id b none s = record s { pending_bindings = set id b s.pending_bindings }
write_binding_to id b (some r) s = save_record id (record r { binding = some b }) s

pub write_binding : Text → StoredTaskBinding → Store → Store
write_binding id b s = write_binding_to id b (get id s.records) s

pub load_binding : Text → Store → Option StoredTaskBinding
load_binding id s = or_option (get id s.pending_bindings) (binding_of (get id s.records))

pub prime_binding : Text → StoredTaskBinding → Store → Store
prime_binding id b s = record s { pending_bindings = set id b s.pending_bindings }

pub discard_pending : Text → Store → Store
discard_pending id s = record s { pending_bindings = delete id s.pending_bindings }

abbrev pub persist_in : Text → Message → Option TaskRecord → Store → Store × Option Task
persist_in id m none s = (s, none)
persist_in id m (some r) s =
    let next = ensure_history_contains_message r.task m in
    (record s { records = set id (record r { task = next }) s.records }, some next)

pub persist_incoming_message : Text → Message → Store → Store × Option Task
persist_incoming_message id m s = persist_in id m (get id s.records) s

abbrev pub with_latest : Task → Option Message → Task
with_latest task none = task
with_latest task (some m) = ensure_history_contains_message task m

-- A call that fails leaves the store as it was.
pub data Committed (A : Type 0) : Type 0 where
  done : Store → A → Committed A
  unknown_task : Text → Committed A

pub commit_task_snapshot : Task → Option Message → Store → Store × Task
commit_task_snapshot task latest s =
    let next = with_latest task latest in
    (
      save_record task.id
          (snapshot_record next (effective_binding task.id s) (get task.id s.records)) s,
      next,
    )

abbrev pub push_at :
    JournalEvent → ℕ → List (Subscription JournalEvent) → List (Subscription JournalEvent)
push_at e i objects = update_at i (Subscription.push e) objects

-- The loop of `notifySubscribers`.
pub notify_each :
    JournalEvent → List ℕ → List (Subscription JournalEvent) → List (Subscription JournalEvent)
notify_each e [] objects = objects
notify_each e (i ∷ is) objects = notify_each e is (push_at e i objects)

pub notify_subscribers : Text → JournalEvent → Store → Store
unfolding notify_each
notify_subscribers id e s = record s {
  objects = notify_each e (or_else (get id s.listeners) []) s.objects;
}

-- The record after one more event.
abbrev pub journaled : JournalEvent → Option StoredTaskBinding → TaskRecord → TaskRecord
journaled e binding r = record r {
  task = apply_event r.task e;
  binding = binding;
  current_sequence = r.current_sequence + 1;
  journal = r.journal ++ record { sequence = r.current_sequence + 1; event = e } ∷ [];
}

abbrev pub commit_journal_in : JournalEvent → Option TaskRecord → Store → Committed JournalEvent
commit_journal_in e none s = unknown_task (event_task_id e)
commit_journal_in e (some r) s =
    let id = event_task_id e in
    done (notify_subscribers id e (save_record id (journaled e (effective_binding id s) r) s)) e

pub commit_journal_event : JournalEvent → Store → Committed JournalEvent
commit_journal_event e s = commit_journal_in e (get (event_task_id e) s.records) s

-- `createSubscription`, with the index of the new object.
unfoldable pub create_subscription : Text → Store → Store × ℕ
create_subscription id s =
    let handle = length s.objects in
    (
      record s {
        listeners = set id (or_else (get id s.listeners) [] ++ handle ∷ []) s.listeners;
        subscriptions = s.subscriptions ++ handle ∷ [];
        objects = s.objects ++ opened ∷ [];
      },
      handle,
    )

abbrev pub is_active : TaskRecord → Bool
is_active r = is_active_execution_task_state r.task.status.state

abbrev pub subscribe_in : Text → Option TaskRecord → Store → Store × Option ℕ
subscribe_in id none s = (s, none)
subscribe_in id (some r) s =
    if is_active r
    then (let (s', handle) = create_subscription id s in (s', some handle))
    else (s, none)

pub subscribe_to_committed_tail : Text → Store → Store × Option ℕ
unfolding create_subscription
subscribe_to_committed_tail id s = subscribe_in id (get id s.records) s

pub data PreparedTaskResubscription : Type 0 where
  snapshot_only : (snapshot : Task) → PreparedTaskResubscription
  live_tail : (snapshot : Task) (subscription : ℕ) → PreparedTaskResubscription

abbrev pub prepare_in :
    Text → Bool → Option TaskRecord → Store → Store × Option PreparedTaskResubscription
prepare_in id allow none s = (s, none)
prepare_in id allow (some r) s =
    if not (is_active r) || not allow
    then (s, some (snapshot_only r.task))
    else (let (s', handle) = create_subscription id s in (s', some (live_tail r.task handle)))

unfoldable pub prepare_resubscribe : Text → Bool → Store → Store × Option PreparedTaskResubscription
prepare_resubscribe id allow s = prepare_in id allow (get id s.records) s

-- A read of a handle, by the reader with a number.
pub next_event : ℕ → ℕ → Store → Store
next_event handle reader s = record s {
  objects = update_at handle (Subscription.next reader) s.objects;
}

abbrev pub others : ℕ → List ℕ → List ℕ
others handle = keep λ i. not (i == handle)

abbrev pub drop_if_empty : Text → List ℕ → Dict (List ℕ) → Dict (List ℕ)
drop_if_empty id [] m = delete id m
drop_if_empty id (i ∷ is) m = set id (i ∷ is) m

-- The `unsubscribe` that `createSubscription` hands to a subscription.
pub unsubscribe : Text → ℕ → Store → Store
unsubscribe id handle s = record s {
  listeners = drop_if_empty id (others handle (or_else (get id s.listeners) [])) s.listeners;
  subscriptions = others handle s.subscriptions;
}

abbrev pub close_open : Text → ℕ → Option (Subscription JournalEvent) → Store → Store
close_open id handle none s = s
close_open id handle (some o) s =
    if o.closed
    then s
    else unsubscribe id handle
        (record s { objects = update_at handle Subscription.close s.objects })

-- `close` of a handle, for the task that it was made for.
pub close_subscription : Text → ℕ → Store → Store
unfolding unsubscribe
close_subscription id handle s = close_open id handle (get_elem? s.objects handle) s

-- Every subscription is closed, and the memory backend forgets its records.
close_each : List ℕ → List (Subscription JournalEvent) → List (Subscription JournalEvent)
close_each [] objects = objects
close_each (i ∷ is) objects = close_each is (update_at i Subscription.close objects)

pub close_store : Store → Store
unfolding close_each
close_store s = record {
  records = [];
  pending_bindings = [];
  listeners = [];
  subscriptions = [];
  objects = close_each s.subscriptions s.objects;
}
