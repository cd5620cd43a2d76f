-- ===== src/Inbound/TaskStore/LiveTail/Follows.antt =====
-- The steps of a store that a live tail follows.
use openclaw_a2a_plugins.Base.{
  ℕ, ◌≡◌, refl, ◌∙◌, ◌≢◌, some, List, [], ◌∷◌, ◌++◌, arith, get_elem?, get_elem?-update_at,
  get_elem?-update_at_ne, or_else, All,
}
use openclaw_a2a_plugins.Base.Text.{Text, text_eq_iff}
use openclaw_a2a_plugins.Base.Dict.{Dict, get, set, get-set, get-set_self}
use openclaw_a2a_plugins.Inbound.Protocol.{Task, JournalEvent}
use openclaw_a2a_plugins.Inbound.Subscription.{Subscription, opened}
use openclaw_a2a_plugins.Inbound.Subscription
use openclaw_a2a_plugins.Inbound.TaskStore.{
  StoredTaskBinding, Store, TaskRecord, notify_each, notify_subscribers, push_at,
}

-- None of the handles is this one.
abbrev pub Without : ℕ → List ℕ → Type 0
Without j = All λ i. i ≢ j

-- Handles that are not among the listeners hear nothing.
notify_each-other :
    (e : JournalEvent) (is : List ℕ) (j : ℕ) (objects : List (Subscription JournalEvent))
    → Without j is
    → get_elem? (notify_each e is objects) j ≡ get_elem? objects j
unfolding notify_each
notify_each-other e [] j objects h = refl
notify_each-other e (i ∷ is) j objects (p, h) =
    notify_each-other e is j (push_at e i objects) h
    ∙ get_elem?-update_at_ne i j (Subscription.push e) objects p

-- A handle that is listed once gets the event, once.
notify_each-listed :
    (e : JournalEvent) (is js : List ℕ) (j : ℕ) (objects : List (Subscription JournalEvent))
    {o : Subscription JournalEvent}
    → Without j is
    → Without j js
    → get_elem? objects j ≡ some o
    → get_elem? (notify_each e (is ++ j ∷ js) objects) j ≡ some (Subscription.push e o)
unfolding notify_each
notify_each-listed e [] js j objects h k found =
    notify_each-other e js j (push_at e j objects) k
    ∙ get_elem?-update_at j (Subscription.push e) objects found
notify_each-listed e (i ∷ is) js j objects (p, h) k found =
    notify_each-listed e is js j (push_at e i objects) h k
      (get_elem?-update_at_ne i j (Subscription.push e) objects p ∙ found)

-- The handle is listed once, for its own task.
pub record Hears (id : Text) (handle : ℕ) (listeners : Dict (List ℕ)) : Type 0 where
  pub earlier : List ℕ
  pub later : List ℕ
  pub mine : get id listeners ≡ some (earlier ++ handle ∷ later)
  pub earlier_others : Without handle earlier
  pub later_others : Without handle later
  pub not_elsewhere : (k : Text) → k ≢ id → Without handle (or_else (get k listeners) [])

-- The handle's object and the stored task.
pub record Follows (id : Text) (handle : ℕ) (o : Subscription JournalEvent) (t : Task) (s : Store)
    : Type 0 where
  pub hears : Hears id handle s.listeners
  pub object : get_elem? s.objects handle ≡ some o
  pub current : TaskRecord
  pub stored : get id s.records ≡ some current
  pub same_task : current.task ≡ t

module _ (id : Text) (handle : ℕ) {o : Subscription JournalEvent} {t : Task} where
  pub notify-Follows_other :
      (k : Text) (e : JournalEvent) {s : Store}
      → k ≢ id
      → Follows id handle o t s
      → Follows id handle o t (notify_subscribers k e s)
  unfolding notify_subscribers
  notify-Follows_other k e {s} ne f = record {
    hears = f.hears;
    object =
        notify_each-other e (or_else (get k s.listeners) []) handle s.objects
          (f.hears.not_elsewhere k ne)
        ∙ f.object;
    current = f.current;
    stored = f.stored;
    same_task = f.same_task;
  }

  pub notify-Follows :
      (e : JournalEvent) {s : Store}
      → Follows id handle o t s
      → Follows id handle (Subscription.push e o) t (notify_subscribers id e s)
  unfolding notify_subscribers
  notify-Follows e {s} f = record {
    hears = f.hears;
    object = rw f.hears.mine (
        notify_each-listed e f.hears.earlier f.hears.later handle s.objects f.hears.earlier_others
          f.hears.later_others f.object);
    current = f.current;
    stored = f.stored;
    same_task = f.same_task;
  }

  -- Storing a record of another task.
  pub stored-Follows_other :
      (k : Text) (r : TaskRecord) (pending : Dict StoredTaskBinding) {s : Store}
      → k ≢ id
      → Follows id handle o t s
      → Follows id handle o t (record s { records = set k r s.records; pending_bindings = pending })
  stored-Follows_other k r pending {s} ne f = record {
    hears = f.hears;
    object = f.object;
    current = f.current;
    stored = ground (arith, get-set k id r s.records, text_eq_iff k id, f.stored);
    same_task = f.same_task;
  }

  -- Storing a record of the task itself.
  pub stored-Follows :
      (r : TaskRecord) (pending : Dict StoredTaskBinding) {s : Store}
      → Follows id handle o t s
      → Follows id handle o r.task
          (record s { records = set id r s.records; pending_bindings = pending })
  stored-Follows r pending {s} f = record {
    hears = f.hears;
    object = f.object;
    current = r;
    stored = get-set_self id r s.records;
    same_task = refl;
  }
