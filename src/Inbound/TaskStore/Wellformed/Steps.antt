-- ===== src/Inbound/TaskStore/Wellformed/Steps.antt =====
-- The calls of the task store as one step function, and the invariant over all histories.
use openclaw_a2a_plugins.Base.{ℕ, refl, Bool, Option, List, [], ◌∷◌, get_elem?}
use openclaw_a2a_plugins.Base.Text.{Text}
use openclaw_a2a_plugins.Base.Dict.{get}
use openclaw_a2a_plugins.Inbound.Protocol.{Message, Task, JournalEvent, event_task_id}
use openclaw_a2a_plugins.Inbound.TaskStore.{
  Store, StoredTaskBinding, empty_store, save, write_binding, prime_binding, discard_pending,
  persist_incoming_message, commit_task_snapshot, commit_journal_event, subscribe_to_committed_tail,
  prepare_resubscribe, next_event, close_subscription, close_store,
}
use openclaw_a2a_plugins.Inbound.TaskStore.Wellformed.{
  Inv, empty_store-Inv, save-Inv, commit_task_snapshot-Inv, write_binding_to-Inv, persist_in-Inv,
}
use openclaw_a2a_plugins.Inbound.TaskStore.Wellformed.Listeners.{
  after, commit_journal_in-Inv, subscribe_in-Inv, prepare_in-Inv, next_event-Inv, close_open-Inv,
}

pub data Call : Type 0 where
  saves : Task → Call
  writes_binding : Text → StoredTaskBinding → Call
  primes : Text → StoredTaskBinding → Call
  discards : Text → Call
  persists : Text → Message → Call
  commits_snapshot : Task → Option Message → Call
  commits_event : JournalEvent → Call
  subscribes : Text → Call
  prepares : Text → (allow_live_tail : Bool) → Call
  reads : (handle reader : ℕ) → Call
  closes : Text → (handle : ℕ) → Call
  shuts_down : Call

unfoldable pub call : Store → Call → Store
call s (saves t) = save t s
call s (writes_binding id b) = write_binding id b s
call s (primes id b) = prime_binding id b s
call s (discards id) = discard_pending id s
call s (persists id m) = (persist_incoming_message id m s).0
call s (commits_snapshot t o) = (commit_task_snapshot t o s).0
call s (commits_event e) = after s (commit_journal_event e s)
call s (subscribes id) = (subscribe_to_committed_tail id s).0
call s (prepares id allow) = (prepare_resubscribe id allow s).0
call s (reads handle reader) = next_event handle reader s
call s (closes id handle) = close_subscription id handle s
call s shuts_down = close_store s

-- Every call, failed ones included, keeps each record under the id of its task, with a journal
-- whose sequence numbers grow and stay within the record's current one.
pub call-Inv : (s : Store) (c : Call) → Inv s → Inv (call s c)
unfolding call write_binding prime_binding discard_pending persist_incoming_message
    commit_journal_event subscribe_to_committed_tail prepare_resubscribe close_subscription
    close_store
call-Inv s (saves t) v = save-Inv t v
call-Inv s (writes_binding id b) v = write_binding_to-Inv id b s (get id s.records) v refl
call-Inv s (primes id b) v = record { unique = v.unique; good = v.good; heard = v.heard }
call-Inv s (discards id) v = record { unique = v.unique; good = v.good; heard = v.heard }
call-Inv s (persists id m) v = persist_in-Inv id m s (get id s.records) v refl
call-Inv s (commits_snapshot t o) v = commit_task_snapshot-Inv t o v
call-Inv s (commits_event e) v = commit_journal_in-Inv e s (get (event_task_id e) s.records) v refl
call-Inv s (subscribes id) v = subscribe_in-Inv id (get id s.records) v
call-Inv s (prepares id allow) v = prepare_in-Inv id allow (get id s.records) v
call-Inv s (reads handle reader) v = next_event-Inv handle reader v
call-Inv s (closes id handle) v = close_open-Inv id handle (get_elem? s.objects handle) v
call-Inv s shuts_down v = record { unique = tt; good = tt; heard = tt }

unfoldable pub calls : Store → List Call → Store
calls s [] = s
calls s (c ∷ cs) = calls (call s c) cs

calls-Inv : (s : Store) (cs : List Call) → Inv s → Inv (calls s cs)
unfolding calls
calls-Inv s [] v = v
calls-Inv s (c ∷ cs) v = calls-Inv (call s c) cs (call-Inv s c v)

-- So it holds after any history that begins with the empty store.
pub calls-empty_store-Inv : (cs : List Call) → Inv (calls empty_store cs)
calls-empty_store-Inv cs = calls-Inv empty_store cs empty_store-Inv
