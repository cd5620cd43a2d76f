-- ===== src/Inbound/TaskStore/LiveTail/Calls.antt =====
-- Each call of the store, seen by a live tail that is not its own.
use openclaw_a2a_plugins.Base.{
  ℕ, ◌≡◌, sym, ap, ◌∙◌, ◌≢◌, Bool, Option, none, some, List, [], ◌∷◌, ◌++◌, arith, length,
  get_elem?-update_at, get_elem?-update_at_ne, get_elem?-append_old, get_elem?-lt_length, ◌==◌,
  ==_iff, subst, append_assoc, All-append, or_else, Bool-cases, inl, inr, if◌then◌else◌,
}
use openclaw_a2a_plugins.Base.Text.{Text, text_eq, text_eq_iff, text_ne, text_eq-false}
use openclaw_a2a_plugins.Base.Dict.{Dict, get, set, delete, get-set, get-set_self}
use openclaw_a2a_plugins.Inbound.Protocol.{Task, JournalEvent, event_task_id}
use openclaw_a2a_plugins.Inbound.Subscription.{Subscription, opened}
use openclaw_a2a_plugins.Inbound.Subscription
use openclaw_a2a_plugins.Inbound.Merge.{apply_event}
use openclaw_a2a_plugins.Inbound.TaskStore.{
  Store, TaskRecord, journaled, effective_binding, commit_journal_in, create_subscription,
  next_event,
}
use openclaw_a2a_plugins.Inbound.TaskStore.Wellformed.Listeners.{after}
use openclaw_a2a_plugins.Inbound.TaskStore.LiveTail.Follows.{
  Hears, Follows, notify-Follows, notify-Follows_other, stored-Follows, stored-Follows_other,
}

module _ (id : Text) (handle : ℕ) where
  create_subscription-Hears :
      (k : Text) (n : ℕ) (m : Dict (List ℕ))
      → n ≢ handle
      → Hears id handle m
      → Hears id handle (set k (or_else (get k m) [] ++ n ∷ []) m)
  create_subscription-Hears k n m ne h = elim (Bool-cases (text_eq k id)) [
    | inl same ↦
        let e : k ≡ id = (text_eq_iff k id).0 same in
        record {
          earlier = h.earlier;
          later = h.later ++ n ∷ [];
          mine =
              rw (e, get-set_self id (or_else (get id m) [] ++ n ∷ []) m, h.mine)
                (ap some (append_assoc h.earlier (handle ∷ h.later) (n ∷ [])));
          earlier_others = h.earlier_others;
          later_others = All-append (λ i. i ≢ handle) h.later (n ∷ []) h.later_others (ne, tt);
          not_elsewhere = λ j other.
              rw
                (
                  get-set k j (or_else (get k m) [] ++ n ∷ []) m,
                  text_eq-false k j (λ q. other (sym q ∙ e)),
                )
                (h.not_elsewhere j other);
        }
    | inr other ↦ record {
      earlier = h.earlier;
      later = h.later;
      mine = rw (get-set k id (or_else (get k m) [] ++ n ∷ []) m, other) h.mine;
      earlier_others = h.earlier_others;
      later_others = h.later_others;
      not_elsewhere = λ j ne_j. elim (Bool-cases (text_eq k j)) [
        | inl eq ↦
            rw (get-set k j (or_else (get k m) [] ++ n ∷ []) m, eq)
              (All-append (λ i. i ≢ handle) (or_else (get k m) []) (n ∷ [])
                (h.not_elsewhere k (text_ne other)) (ne, tt))
        | inr ne' ↦
            rw (get-set k j (or_else (get k m) [] ++ n ∷ []) m, ne') (h.not_elsewhere j ne_j)
      ];
    }
  ]

-- The event that a commit brings to a tail.
abbrev pushed_to : Bool → JournalEvent → Subscription JournalEvent → Subscription JournalEvent
pushed_to mine e o = if mine then Subscription.push e o else o

abbrev applied_to : Bool → JournalEvent → Task → Task
applied_to mine e t = if mine then apply_event t e else t

module _ (id : Text) (handle : ℕ) {o : Subscription JournalEvent} {t : Task} where
  commit_mine :
      (e : JournalEvent) (r : TaskRecord) {s : Store}
      → event_task_id e ≡ id
      → get (event_task_id e) s.records ≡ some r
      → Follows id handle o t s
      → Follows id handle
          (Subscription.push e o)
          (apply_event t e)
          (after s (commit_journal_in e (some r) s))
  commit_mine e r {s} same found f =
      let same_record : r ≡ f.current = ground (arith, found, same, f.stored) in
      let next = journaled e (effective_binding id s) r in
      let done =
        notify-Follows id handle e
          (stored-Follows id handle next (delete id s.pending_bindings) f) in
      let same_task : next.task ≡ apply_event t e =
        ap (λ u. apply_event u e) (ap (λ (x : TaskRecord). x.task) same_record ∙ f.same_task) in
      subst
        (λ u.
          Follows id handle (Subscription.push e o) u (after s (commit_journal_in e (some r) s)))
        same_task (rw same done)

  commit_other :
      (e : JournalEvent) (found : Option TaskRecord) {s : Store}
      → event_task_id e ≢ id
      → Follows id handle o t s
      → Follows id handle o t (after s (commit_journal_in e found s))
  commit_other e none ne f = f
  commit_other e (some r) {s} ne f =
      let k = event_task_id e in
      notify-Follows_other id handle k e ne (
        stored-Follows_other id handle k (journaled e (effective_binding k s) r)
          (delete k s.pending_bindings) ne f)

  -- A commit for the task cannot fail, and reaches the tail; one for another task does not.
  pub commit-Follows :
      (e : JournalEvent) {s : Store}
      → Follows id handle o t s
      → let mine = text_eq (event_task_id e) id in
        Follows id handle
          (pushed_to mine e o)
          (applied_to mine e t)
          (after s (commit_journal_in e (get (event_task_id e) s.records) s))
  commit-Follows e {s} f = elim (Bool-cases (text_eq (event_task_id e) id)) [
    | inr ne ↦ rw ne (commit_other e (get (event_task_id e) s.records) (text_ne ne) f)
    | inl eq ↦
        let same = (text_eq_iff (event_task_id e) id).0 eq in
        let found : get (event_task_id e) s.records ≡ some f.current =
          ground (arith, same, f.stored) in
        rw (eq, found) (commit_mine e f.current same found f)
  ]

  pub next_event-Follows :
      (h reader : ℕ) {s : Store}
      → Follows id handle o t s
      → Follows id handle
          (if h == handle then Subscription.next reader o else o)
          t
          (next_event h reader s)
  unfolding next_event
  next_event-Follows h reader {s} f = record {
    hears = f.hears;
    object = elim (Bool-cases (h == handle)) [
      | inl same ↦
          rw (same, (==_iff h handle).0 same)
            (get_elem?-update_at handle (Subscription.next reader) s.objects f.object)
      | inr ne ↦ rw ne (
          get_elem?-update_at_ne h handle (Subscription.next reader) s.objects
            (λ e. ground (arith, ==_iff h handle))
          ∙ f.object)
    ];
    current = f.current;
    stored = f.stored;
    same_task = f.same_task;
  }

  pub create_subscription-Follows :
      (k : Text) {s : Store}
      → Follows id handle o t s
      → Follows id handle o t (create_subscription k s).0
  unfolding create_subscription
  create_subscription-Follows k {s} f = record {
    hears =
        create_subscription-Hears id handle k (length s.objects) s.listeners
          (λ e. absurd (omega (arith, get_elem?-lt_length s.objects handle f.object, e))) f.hears;
    object = get_elem?-append_old s.objects (opened ∷ []) handle f.object;
    current = f.current;
    stored = f.stored;
    same_task = f.same_task;
  }
