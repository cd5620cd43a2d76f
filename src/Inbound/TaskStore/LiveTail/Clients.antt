-- ===== src/Inbound/TaskStore/LiveTail/Clients.antt =====
-- Other clients that subscribe and leave do not disturb a live tail.
use openclaw_a2a_plugins.Base.{
  ℕ, ◌≡◌, refl, sym, ap, ◌∙◌, ◌≢◌, Bool, false, not, ◌||◌, Option, none, some, List, [], ◌∷◌, ◌++◌,
  arith, get_elem?-update_at_ne, ◌==◌, ==_iff, All-keep, keep-append, or_else, Bool-cases, inl, inr,
  if◌then◌else◌,
}
use openclaw_a2a_plugins.Base.Text.{Text, text_eq, text_eq_iff}
use openclaw_a2a_plugins.Base.Dict.{Dict, get, set, get-set, get-set_self, get-delete}
use openclaw_a2a_plugins.Inbound.Protocol.{Task, JournalEvent}
use openclaw_a2a_plugins.Inbound.Subscription.{Subscription, opened}
use openclaw_a2a_plugins.Inbound.Subscription
use openclaw_a2a_plugins.Inbound.TaskStore.{
  StoredTaskBinding, Store, TaskRecord, prepare_in, subscribe_in, close_open, unsubscribe, others,
  drop_if_empty, is_active,
}
use openclaw_a2a_plugins.Inbound.TaskStore.LiveTail.Follows.{Without, Hears, Follows}
use openclaw_a2a_plugins.Inbound.TaskStore.LiveTail.Calls.{create_subscription-Follows}

Without-keep : (j h : ℕ) (is : List ℕ) → Without j is → Without j (others h is)
Without-keep j h is w = All-keep (λ i. i ≢ j) (λ i. not (i == h)) is w

drop_if_empty-cons :
    (k : Text) (xs : List ℕ) (h : ℕ) (ys : List ℕ) (m : Dict (List ℕ))
    → drop_if_empty k (xs ++ h ∷ ys) m ≡ set k (xs ++ h ∷ ys) m
drop_if_empty-cons k [] h ys m = refl
drop_if_empty-cons k (x ∷ xs) h ys m = refl

get-drop_if_empty :
    (k j : Text) (is : List ℕ) (m : Dict (List ℕ))
    → or_else (get j (drop_if_empty k is m)) [] ≡ (if text_eq k j then is else or_else (get j m) [])
get-drop_if_empty k j [] m = ground (arith, get-delete k j m)
get-drop_if_empty k j (i ∷ is) m = ground (arith, get-set k j (i ∷ is) m)

get-drop_if_empty_other :
    (k j : Text) (is : List ℕ) (m : Dict (List ℕ))
    → text_eq k j ≡ false
    → get j (drop_if_empty k is m) ≡ get j m
get-drop_if_empty_other k j [] m h = ground (arith, get-delete k j m)
get-drop_if_empty_other k j (i ∷ is) m h = ground (arith, get-set k j (i ∷ is) m)

others-listed :
    (h handle : ℕ) (xs ys : List ℕ)
    → h ≢ handle
    → others h (xs ++ handle ∷ ys) ≡ others h xs ++ handle ∷ others h ys
others-listed h handle xs ys ne =
    keep-append (λ i. not (i == h)) xs (handle ∷ ys)
    ∙ ap (λ r. others h xs ++ r) (ground (arith, ==_iff handle h))

module _ (id : Text) (handle : ℕ) where
  unsubscribe-Hears :
      (k : Text) (h : ℕ) (m : Dict (List ℕ))
      → h ≢ handle
      → Hears id handle m
      → Hears id handle (drop_if_empty k (others h (or_else (get k m) [])) m)
  unsubscribe-Hears k h m ne v = record {
    earlier = if text_eq k id then others h v.earlier else v.earlier;
    later = if text_eq k id then others h v.later else v.later;
    mine = elim (Bool-cases (text_eq k id)) [
      | inl same ↦
          let e : k ≡ id = (text_eq_iff k id).0 same in
          rw
            (
              same,
              e,
              v.mine,
              others-listed h handle v.earlier v.later ne,
              drop_if_empty-cons id (others h v.earlier) handle (others h v.later) m,
            )
            (get-set_self id (others h v.earlier ++ handle ∷ others h v.later) m)
      | inr other ↦
          rw (other, get-drop_if_empty_other k id (others h (or_else (get k m) [])) m other) v.mine
    ];
    earlier_others = elim (Bool-cases (text_eq k id)) [
      | inl same ↦ rw same (Without-keep handle h v.earlier v.earlier_others)
      | inr other ↦ rw other v.earlier_others
    ];
    later_others = elim (Bool-cases (text_eq k id)) [
      | inl same ↦ rw same (Without-keep handle h v.later v.later_others)
      | inr other ↦ rw other v.later_others
    ];
    not_elsewhere = λ j ne_j. elim (Bool-cases (text_eq k j)) [
      | inl same ↦
          rw (get-drop_if_empty k j (others h (or_else (get k m) [])) m, same)
            (Without-keep handle h (or_else (get k m) [])
              (v.not_elsewhere k (λ q. ne_j (sym ((text_eq_iff k j).0 same) ∙ q))))
      | inr other ↦
          rw (get-drop_if_empty k j (others h (or_else (get k m) [])) m, other)
            (v.not_elsewhere j ne_j)
    ];
  }

module _ (id : Text) (handle : ℕ) {o : Subscription JournalEvent} {t : Task} where
  pub close_open-Follows :
      (k : Text) (h : ℕ) (found : Option (Subscription JournalEvent)) {s : Store}
      → h ≢ handle
      → Follows id handle o t s
      → Follows id handle o t (close_open k h found s)
  unfolding unsubscribe
  close_open-Follows k h none ne f = f
  close_open-Follows k h (some p) {s} ne f = elim (Bool-cases p.closed) [
    | inl shut ↦ rw shut f
    | inr alive ↦ rw alive (record {
      hears = unsubscribe-Hears id handle k h s.listeners ne f.hears;
      object = get_elem?-update_at_ne h handle Subscription.close s.objects ne ∙ f.object;
      current = f.current;
      stored = f.stored;
      same_task = f.same_task;
    })
  ]

  pub subscribe_in-Follows :
      (k : Text) (found : Option TaskRecord) {s : Store}
      → Follows id handle o t s
      → Follows id handle o t (subscribe_in k found s).0
  subscribe_in-Follows k none f = f
  subscribe_in-Follows k (some r) {s} f = elim (Bool-cases (is_active r)) [
    | inl live ↦ rw live (create_subscription-Follows id handle k f)
    | inr idle ↦ rw idle f
  ]

  pub prepare_in-Follows :
      (k : Text) (allow : Bool) (found : Option TaskRecord) {s : Store}
      → Follows id handle o t s
      → Follows id handle o t (prepare_in k allow found s).0
  prepare_in-Follows k allow none f = f
  prepare_in-Follows k allow (some r) {s} f = elim (Bool-cases (not (is_active r) || not allow)) [
    | inl only ↦ rw only f
    | inr tail ↦ rw tail (create_subscription-Follows id handle k f)
  ]

  -- Pending bindings do not matter to a tail.
  pub pending-Follows :
      (pending : Dict StoredTaskBinding) {s : Store}
      → Follows id handle o t s
      → Follows id handle o t (record s { pending_bindings = pending })
  pending-Follows pending f = record {
    hears = f.hears;
    object = f.object;
    current = f.current;
    stored = f.stored;
    same_task = f.same_task;
  }
