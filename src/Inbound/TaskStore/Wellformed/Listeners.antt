-- ===== src/Inbound/TaskStore/Wellformed/Listeners.antt =====
-- The calls that subscribe, notify and unsubscribe keep the invariant of the task store.
use openclaw_a2a_plugins.Base.{
  ℕ, ◌≤◌, ◌<◌, ◌≡◌, refl, sym, ◌∙◌, Bool, not, ◌||◌, Option, none, some, List, [], ◌∷◌, ◌++◌, arith,
  length, length-append, length-update_at, All-append, All-keep, ◌==◌, or_else, Bool-cases, inl,
  inr,
}
use openclaw_a2a_plugins.Base.Text.{Text}
use openclaw_a2a_plugins.Base.Dict.{Dict, get, All-set, All-get, All-delete}
use openclaw_a2a_plugins.Inbound.Protocol.{JournalEvent, event_task_id}
use openclaw_a2a_plugins.Inbound.Subscription.{Subscription, opened}
use openclaw_a2a_plugins.Inbound.Subscription
use openclaw_a2a_plugins.Inbound.Merge.Identity.{apply_event-id}
use openclaw_a2a_plugins.Inbound.TaskStore.{
  Store, TaskRecord, effective_binding, Committed, done, unknown_task, journaled, notify_each,
  notify_subscribers, commit_journal_in, create_subscription, subscribe_in, prepare_in, next_event,
  others, drop_if_empty, unsubscribe, close_open, push_at, is_active,
}
use openclaw_a2a_plugins.Inbound.TaskStore.Wellformed.{
  IsGood, Below, AllBelow, Inv, stored-Inv, journaled-IsWellFormed,
}

length-notify_each :
    (e : JournalEvent) (is : List ℕ) (objects : List (Subscription JournalEvent))
    → length (notify_each e is objects) ≡ length objects
unfolding notify_each
length-notify_each e [] objects = refl
length-notify_each e (i ∷ is) objects =
    length-notify_each e is (push_at e i objects) ∙ length-update_at i (Subscription.push e) objects

-- Handles stay below a number of objects that does not fall.
Below-mono : (m n : ℕ) (is : List ℕ) → m ≤ n → Below m is → Below n is
Below-mono m n [] h b = tt
Below-mono m n (i ∷ is) h (p, b) = (omega arith, Below-mono m n is h b)

AllBelow-mono : (m n : ℕ) (d : Dict (List ℕ)) → m ≤ n → AllBelow m d → AllBelow n d
AllBelow-mono m n [] h b = tt
AllBelow-mono m n ((k, is) ∷ d) h (p, b) = (Below-mono m n is h p, AllBelow-mono m n d h b)

pub listened-Below :
    (n : ℕ) (d : Dict (List ℕ)) (o : Option (List ℕ)) (id : Text)
    → AllBelow n d
    → get id d ≡ o
    → Below n (or_else o [])
listened-Below n d none id b e = tt
listened-Below n d (some is) id b e = All-get (λ entry. Below n entry.1) id d b e

notify_subscribers-Inv :
    (id : Text) (e : JournalEvent) {s : Store} → Inv s → Inv (notify_subscribers id e s)
unfolding notify_subscribers
notify_subscribers-Inv id e {s} v = record {
  unique = v.unique;
  good = v.good;
  heard = rw (length-notify_each e (or_else (get id s.listeners) []) s.objects) v.heard;
}

-- The store that a failed call leaves is the old one.
abbrev pub after : Store → Committed JournalEvent → Store
after s (done s' e) = s'
after s (unknown_task id) = s

pub commit_journal_in-Inv :
    (e : JournalEvent) (s : Store) (o : Option TaskRecord)
    → Inv s
    → get (event_task_id e) s.records ≡ o
    → Inv (after s (commit_journal_in e o s))
commit_journal_in-Inv e s none v eq = v
commit_journal_in-Inv e s (some r) v eq =
    let g = All-get IsGood (event_task_id e) s.records v.good eq in
    notify_subscribers-Inv (event_task_id e) e (
      stored-Inv (event_task_id e) (journaled e (effective_binding (event_task_id e) s) r) _ v (
        g.0 ∙ sym (apply_event-id r.task e),
        journaled-IsWellFormed e (effective_binding (event_task_id e) s) r g.1,
      ))

create_subscription-Inv : (id : Text) {s : Store} → Inv s → Inv (create_subscription id s).0
unfolding create_subscription
create_subscription-Inv id {s} v =
    let n = length s.objects in
    let more : n ≤ length (s.objects ++ opened ∷ []) =
      omega (arith, length-append s.objects (opened ∷ [])) in
    record {
      unique = v.unique;
      good = v.good;
      heard =
          All-set (λ entry. Below (length (s.objects ++ opened ∷ [])) entry.1) id
            (or_else (get id s.listeners) [] ++ n ∷ []) s.listeners
            (AllBelow-mono n _ s.listeners more v.heard)
            (All-append (λ i. i < length (s.objects ++ opened ∷ []))
              (or_else (get id s.listeners) []) (n ∷ [])
              (Below-mono n _ (or_else (get id s.listeners) []) more
                (listened-Below n s.listeners (get id s.listeners) id v.heard refl))
              (omega (arith, length-append s.objects (opened ∷ [])), tt));
    }

pub subscribe_in-Inv :
    (id : Text) (o : Option TaskRecord) {s : Store} → Inv s → Inv (subscribe_in id o s).0
subscribe_in-Inv id none v = v
subscribe_in-Inv id (some r) {s} v = elim (Bool-cases (is_active r)) [
  | inl live ↦ rw live (create_subscription-Inv id v)
  | inr not_live ↦ rw not_live v
]

pub prepare_in-Inv :
    (id : Text) (allow : Bool) (o : Option TaskRecord) {s : Store}
    → Inv s
    → Inv (prepare_in id allow o s).0
prepare_in-Inv id allow none v = v
prepare_in-Inv id allow (some r) {s} v = elim (Bool-cases (not (is_active r) || not allow)) [
  | inl only ↦ rw only v
  | inr tail ↦ rw tail (create_subscription-Inv id v)
]

pub next_event-Inv : (handle reader : ℕ) {s : Store} → Inv s → Inv (next_event handle reader s)
unfolding next_event
next_event-Inv handle reader {s} v = record {
  unique = v.unique;
  good = v.good;
  heard = rw (length-update_at handle (Subscription.next reader) s.objects) v.heard;
}

others-Below : (handle n : ℕ) (is : List ℕ) → Below n is → Below n (others handle is)
others-Below handle n is b = All-keep (λ i. i < n) (λ i. not (i == handle)) is b

drop_if_empty-AllBelow :
    (id : Text) (n : ℕ) (is : List ℕ) (d : Dict (List ℕ))
    → AllBelow n d
    → Below n is
    → AllBelow n (drop_if_empty id is d)
drop_if_empty-AllBelow id n [] d b h = All-delete (λ entry. Below n entry.1) id d b
drop_if_empty-AllBelow id n (i ∷ is) d b h = All-set (λ entry. Below n entry.1) id (i ∷ is) d b h

unsubscribe-Inv : (id : Text) (handle : ℕ) {s : Store} → Inv s → Inv (unsubscribe id handle s)
unfolding unsubscribe
unsubscribe-Inv id handle {s} v = record {
  unique = v.unique;
  good = v.good;
  heard =
      drop_if_empty-AllBelow id (length s.objects) (others handle (or_else (get id s.listeners) []))
        s.listeners v.heard
        (others-Below handle (length s.objects) (or_else (get id s.listeners) [])
          (listened-Below (length s.objects) s.listeners (get id s.listeners) id v.heard refl));
}

pub close_open-Inv :
    (id : Text) (handle : ℕ) (o : Option (Subscription JournalEvent)) {s : Store}
    → Inv s
    → Inv (close_open id handle o s)
close_open-Inv id handle none v = v
close_open-Inv id handle (some o) {s} v = elim (Bool-cases o.closed) [
  | inl shut ↦ rw shut v
  | inr open_still ↦ rw open_still (
      unsubscribe-Inv id handle (record {
        unique = v.unique;
        good = v.good;
        heard = rw (length-update_at handle Subscription.close s.objects) v.heard;
      }))
]
