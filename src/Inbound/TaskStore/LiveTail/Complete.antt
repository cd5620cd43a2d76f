-- ===== src/Inbound/TaskStore/LiveTail/Complete.antt =====
-- What the reader of a live tail of packages/openclaw-a2a-inbound/src/task-store.ts gets.
use openclaw_a2a_plugins.Base.{
  ℕ, ◌≡◌, refl, sym, ap, ◌∙◌, ◌≢◌, Bool, true, false, Option, none, some, List, [], ◌∷◌, ◌++◌,
  arith, length, get_elem?, get_elem?-append_last, ◌==◌, or_else, All, Bool-cases, inl, inr,
  if◌then◌else◌,
}
use openclaw_a2a_plugins.Base.Text.{Text, text_eq}
use openclaw_a2a_plugins.Base.Dict.{get, get-set_self, get-set}
use openclaw_a2a_plugins.Base.Text.{text_eq_iff, text_eq-false}
use openclaw_a2a_plugins.Inbound.Protocol.{Task, JournalEvent, event_task_id}
use openclaw_a2a_plugins.Inbound.Subscription.{Subscription, opened}
use openclaw_a2a_plugins.Inbound.Subscription.Fifo.{
  Act, pushes, reads, act, run, readers, pushed, Matches, run-Matches,
}
use openclaw_a2a_plugins.Inbound.Merge.{apply_event, replay}
use openclaw_a2a_plugins.Inbound.TaskStore.{
  Store, TaskRecord, load, save, write_binding, prime_binding, discard_pending,
  persist_incoming_message, persist_in, commit_task_snapshot, commit_journal_event,
  create_subscription, subscribe_to_committed_tail, prepare_resubscribe, live_tail,
  close_subscription, is_active, write_binding_to, StoredTaskBinding,
}
use mathlib.Core.Option
use openclaw_a2a_plugins.Inbound.Protocol.{Message}
use openclaw_a2a_plugins.Inbound.TaskStore.Wellformed.{Inv, Below}
use openclaw_a2a_plugins.Inbound.TaskStore.Wellformed.Listeners.{listened-Below}
use openclaw_a2a_plugins.Inbound.TaskStore.Wellformed.Steps
use openclaw_a2a_plugins.Inbound.TaskStore.Wellformed.Steps.{
  Call, call, calls, saves, writes_binding, primes, discards, persists, commits_snapshot,
  commits_event, subscribes, prepares, closes, shuts_down,
}
use openclaw_a2a_plugins.Inbound.TaskStore.LiveTail.Follows.{Without, Follows, stored-Follows_other}
use openclaw_a2a_plugins.Inbound.TaskStore.LiveTail.Calls.{commit-Follows, next_event-Follows}
use openclaw_a2a_plugins.Inbound.TaskStore.LiveTail.Clients.{
  close_open-Follows, subscribe_in-Follows, prepare_in-Follows, pending-Follows,
}

-- The calls that change the task without an event, or close the tail itself.
abbrev Breaks : Text → ℕ → Call → Type 0
Breaks id handle (saves t) = t.id ≡ id
Breaks id handle (persists k m) = k ≡ id
Breaks id handle (commits_snapshot t o) = t.id ≡ id
Breaks id handle (closes k h) = h ≡ handle
Breaks id handle shuts_down = Unit
Breaks id handle _ = ⊥

-- What a call does to the tail.
abbrev act_of : Text → ℕ → Call → Option (Act JournalEvent)
act_of id handle (commits_event e) = if text_eq (event_task_id e) id then some (pushes e) else none
act_of id handle (Steps.reads h reader) = if h == handle then some (reads reader) else none
act_of id handle _ = none

abbrev with_act : Option (Act JournalEvent) → List (Act JournalEvent) → List (Act JournalEvent)
with_act none acts = acts
with_act (some a) acts = a ∷ acts

abbrev acts_of : Text → ℕ → List Call → List (Act JournalEvent)
acts_of id handle [] = []
acts_of id handle (c ∷ cs) = with_act (act_of id handle c) (acts_of id handle cs)

abbrev moved : Option (Act JournalEvent) → Subscription JournalEvent → Subscription JournalEvent
moved none o = o
moved (some a) o = act o a

abbrev told : Option (Act JournalEvent) → Task → Task
told (some (pushes e)) t = apply_event t e
told _ t = t

moved_if :
    (b : Bool) (a : Act JournalEvent) (o : Subscription JournalEvent)
    → moved (if b then some a else none) o ≡ (if b then act o a else o)
moved_if true a o = refl
moved_if false a o = refl

told_if :
    (b : Bool) (e : JournalEvent) (t : Task)
    → told (if b then some (pushes e) else none) t ≡ (if b then apply_event t e else t)
told_if true e t = refl
told_if false e t = refl

told_if_read :
    (b : Bool) (reader : ℕ) (t : Task) → told (if b then some (reads reader) else none) t ≡ t
told_if_read true reader t = refl
told_if_read false reader t = refl

run-with_act :
    (a : Option (Act JournalEvent)) (acts : List (Act JournalEvent)) (o : Subscription JournalEvent)
    → run o (with_act a acts) ≡ run (moved a o) acts
unfolding run
run-with_act none acts o = refl
run-with_act (some a) acts o = refl

replay-with_act :
    (a : Option (Act JournalEvent)) (acts : List (Act JournalEvent)) (t : Task)
    → replay t (pushed (with_act a acts)) ≡ replay (told a t) (pushed acts)
unfolding replay
replay-with_act none acts t = refl
replay-with_act (some (pushes e)) acts t = refl
replay-with_act (some (reads w)) acts t = refl

module _ (id : Text) (handle : ℕ) {o : Subscription JournalEvent} {t : Task} where
  write_binding_to-Follows :
      (k : Text) (b : StoredTaskBinding) (found : Option TaskRecord) {s : Store}
      → get k s.records ≡ found
      → Follows id handle o t s
      → Follows id handle o t (write_binding_to k b found s)
  write_binding_to-Follows k b none e f = pending-Follows id handle _ f
  write_binding_to-Follows k b (some r) {s} e f = elim (Bool-cases (text_eq k id)) [
    | inr ne ↦ stored-Follows_other id handle k _ _ (λ q. ground (arith, text_eq_iff k id)) f
    | inl eq ↦
        let same : k ≡ id = (text_eq_iff k id).0 eq in
        let kept : r ≡ f.current = ground (arith, e, same, f.stored) in
        record {
          hears = f.hears;
          object = f.object;
          current = record r { binding = some b };
          stored = rw same (get-set_self id (record r { binding = some b }) s.records);
          same_task = ap (λ (x : TaskRecord). x.task) kept ∙ f.same_task;
        }
  ]

  persist_in-Follows :
      (k : Text) (m : Message) (found : Option TaskRecord) {s : Store}
      → k ≢ id
      → Follows id handle o t s
      → Follows id handle o t (persist_in k m found s).0
  persist_in-Follows k m none ne f = f
  persist_in-Follows k m (some r) ne f = stored-Follows_other id handle k _ _ ne f

  call-Follows :
      (s : Store) (c : Call)
      → ¬ Breaks id handle c
      → Follows id handle o t s
      → Follows id handle (moved (act_of id handle c) o) (told (act_of id handle c) t) (call s c)
  unfolding call write_binding prime_binding discard_pending persist_incoming_message
      commit_journal_event subscribe_to_committed_tail prepare_resubscribe close_subscription save
      commit_task_snapshot act
  call-Follows s (saves u) ok f = stored-Follows_other id handle u.id _ _ ok f
  call-Follows s (writes_binding k b) ok f = write_binding_to-Follows k b (get k s.records) refl f
  call-Follows s (primes k b) ok f = pending-Follows id handle _ f
  call-Follows s (discards k) ok f = pending-Follows id handle _ f
  call-Follows s (persists k m) ok f = persist_in-Follows k m (get k s.records) ok f
  call-Follows s (commits_snapshot u m) ok f = stored-Follows_other id handle u.id _ _ ok f
  call-Follows s (commits_event e) ok f =
      let mine = text_eq (event_task_id e) id in
      rw (moved_if mine (pushes e) o, told_if mine e t) (commit-Follows id handle e f)
  call-Follows s (subscribes k) ok f = subscribe_in-Follows id handle k (get k s.records) f
  call-Follows s (prepares k allow) ok f = prepare_in-Follows id handle k allow (get k s.records) f
  call-Follows s (Steps.reads h reader) ok f =
      rw (moved_if (h == handle) (reads reader) o, told_if_read (h == handle) reader t)
        (next_event-Follows id handle h reader f)
  call-Follows s (closes k h) ok f = close_open-Follows id handle k h (get_elem? s.objects h) ok f
  call-Follows s shuts_down ok f = absurd (ok tt)

calls-Follows :
    (id : Text) (handle : ℕ) (o : Subscription JournalEvent) (t : Task) (s : Store) (cs : List Call)
    → All (λ c. ¬ Breaks id handle c) cs
    → Follows id handle o t s
    → let acts = acts_of id handle cs in
      Follows id handle (run o acts) (replay t (pushed acts)) (calls s cs)
unfolding calls run replay
calls-Follows id handle o t s [] ok f = f
calls-Follows id handle o t s (c ∷ cs) (ok, oks) f =
    let a = act_of id handle c in
    rw (run-with_act a (acts_of id handle cs) o, replay-with_act a (acts_of id handle cs) t)
      (calls-Follows id handle (moved a o) (told a t) (call s c) cs oks
        (call-Follows id handle s c ok f))

Below-Without : (n : ℕ) (is : List ℕ) → Below n is → Without n is
Below-Without n [] b = tt
Below-Without n (i ∷ is) (lt, b) = ((λ e. omega (arith, lt, e)), Below-Without n is b)

-- A fresh subscription is listed once.
create_subscription-Follows_new :
    (id : Text) (s : Store) (r : TaskRecord)
    → Inv s
    → get id s.records ≡ some r
    → Follows id (length s.objects) opened r.task (create_subscription id s).0
unfolding create_subscription
create_subscription-Follows_new id s r v found =
    let n = length s.objects in
    let before = or_else (get id s.listeners) [] in
    let elsewhere : (k : Text) → Without n (or_else (get k s.listeners) []) = λ k.
      Below-Without n (or_else (get k s.listeners) [])
        (listened-Below n s.listeners (get k s.listeners) k v.heard refl) in
    record {
      hears = record {
        earlier = before;
        later = [];
        mine = get-set_self id (before ++ n ∷ []) s.listeners;
        earlier_others = elsewhere id;
        later_others = tt;
        not_elsewhere = λ k ne.
            rw (get-set id k (before ++ n ∷ []) s.listeners, text_eq-false id k (λ q. ne (sym q)))
              (elsewhere k);
      };
      object = get_elem?-append_last s.objects opened;
      current = r;
      stored = found;
      same_task = refl;
    }

-- A client that resubscribes to an active task gets its stored task and a live tail. After any
-- calls of the store that do not save this task, commit a snapshot of it or keep an incoming message
-- for it, and that close neither this tail nor the store, the stored task is the snapshot with
-- exactly the events that were pushed to the tail applied in order, and the tail has answered its
-- k-th read with the k-th of them: none is lost between the snapshot and the tail, and none comes
-- twice.
pub prepare_resubscribe-calls :
    (id : Text) (s : Store) (r : TaskRecord) (cs : List Call)
    → Inv s
    → get id s.records ≡ some r
    → is_active r ≡ true
    → All (λ c. ¬ Breaks id (length s.objects) c) cs
    → let handle = length s.objects in
      let (opened_store, prepared) = prepare_resubscribe id true s in
      let after = calls opened_store cs in
      let acts = acts_of id handle cs in
      (prepared ≡ some (live_tail r.task handle))
      × (load id after ≡ some (replay r.task (pushed acts)))
      × (get_elem? after.objects handle ≡ some (run opened acts))
      × Matches (readers acts) (pushed acts) (run opened acts)
unfolding prepare_resubscribe load create_subscription
prepare_resubscribe-calls id s r cs v found live ok =
    let handle = length s.objects in
    let start = create_subscription-Follows_new id s r v found in
    let end = calls-Follows id handle opened r.task (create_subscription id s).0 cs ok start in
    rw (found, live)
      (
        refl,
        ap (Option.map (λ (x : TaskRecord). x.task)) end.stored ∙ ap some end.same_task,
        end.object,
        run-Matches (acts_of id handle cs),
      )
