-- ===== src/Inbound/Merge/Histories.antt =====
-- A task holds no message twice, whatever events it goes through.
use openclaw_a2a_plugins.Base.{
  ◌≡◌, refl, true, false, ◌||◌, Option, none, some, List, [], ◌∷◌, ◌++◌, arith, or_else, Bool-cases,
  inl, inr, append-nil, sym,
}
use openclaw_a2a_plugins.Base.Text.{Text, text_eq, text_eq_iff, text_eq_refl}
use openclaw_a2a_plugins.Inbound.Protocol.{
  Message, Task, TaskStatusUpdateEvent, JournalEvent, status_update, artifact_update,
}
use openclaw_a2a_plugins.Inbound.Merge.{
  has_message, with_message, ensure_history_contains_message, merge_status, merge_artifact,
  apply_event, replay,
}

abbrev pub history_of : Task → List Message
history_of t = or_else t.history []

abbrev DistinctIds : List Message → Type 0
DistinctIds [] = Unit
DistinctIds (m ∷ ms) = (has_message m.message_id ms ≡ false) × DistinctIds ms

-- No two messages of the history have one id.
abbrev pub HasDistinctMessages : Task → Type 0
HasDistinctMessages t = DistinctIds (history_of t)

has_message-append :
    (id : Text) (ms : List Message) (m : Message)
    → has_message id (ms ++ m ∷ []) ≡ has_message id ms || text_eq m.message_id id
has_message-append id [] m = ground arith
has_message-append id (n ∷ ms) m = ground (arith, has_message-append id ms m)

DistinctIds-append :
    (ms : List Message) (m : Message)
    → DistinctIds ms
    → has_message m.message_id ms ≡ false
    → DistinctIds (ms ++ m ∷ [])
DistinctIds-append [] m d h = (refl, tt)
DistinctIds-append (n ∷ ms) m (p, d) h = (
  ground (
    arith,
    p,
    has_message-append n.message_id ms m,
    text_eq_iff m.message_id n.message_id,
    text_eq_iff n.message_id m.message_id,
  ),
  DistinctIds-append ms m d (ground arith),
)

ensure_old :
    (t : Task) (m : Message)
    → has_message m.message_id (history_of t) ≡ true
    → ensure_history_contains_message t m ≡ t
unfolding ensure_history_contains_message
ensure_old t m old = rw old

ensure_new :
    (t : Task) (m : Message)
    → has_message m.message_id (history_of t) ≡ false
    → ensure_history_contains_message t m ≡ record t { history = some (history_of t ++ m ∷ []) }
unfolding ensure_history_contains_message
ensure_new t m new = rw new

has_message-last :
    (ms : List Message) (m : Message) → has_message m.message_id (ms ++ m ∷ []) ≡ true
has_message-last ms m =
    ground (arith, has_message-append m.message_id ms m, text_eq_refl m.message_id)

pub ensure_history_contains_message-has_message :
    (t : Task) (m : Message)
    → has_message m.message_id (history_of (ensure_history_contains_message t m)) ≡ true
ensure_history_contains_message-has_message t m =
    elim (Bool-cases (has_message m.message_id (history_of t))) [
      | inl old ↦ rw (ensure_old t m old) old
      | inr new ↦ rw (ensure_new t m new) (has_message-last (history_of t) m)
    ]

-- Adding a message leaves it in the history, once; it keeps the messages before it, in order, and
-- a second time it changes nothing.
pub ensure_history_contains_message_lem :
    (t : Task) (m : Message)
    → HasDistinctMessages t
    → let u = ensure_history_contains_message t m in
      HasDistinctMessages u
      × (has_message m.message_id (history_of u) ≡ true)
      × ((added : List Message) × (history_of u ≡ history_of t ++ added))
      × (ensure_history_contains_message u m ≡ u)
ensure_history_contains_message_lem t m d =
    elim (Bool-cases (has_message m.message_id (history_of t))) [
      | inl old ↦
          rw (ensure_old t m old)
            (d, old, ([], sym (append-nil (history_of t))), ensure_old t m old)
      | inr new ↦
          let there = has_message-last (history_of t) m in
          rw (ensure_new t m new) (
            DistinctIds-append (history_of t) m d new,
            there,
            (m ∷ [], refl),
            ensure_old (record t { history = some (history_of t ++ m ∷ []) }) m there,
          )
    ]

with_message-HasDistinctMessages :
    (t : Task) (o : Option Message) → HasDistinctMessages t → HasDistinctMessages (with_message t o)
with_message-HasDistinctMessages t none d = d
with_message-HasDistinctMessages t (some m) d = (ensure_history_contains_message_lem t m d).0

apply_event-HasDistinctMessages :
    (t : Task) (e : JournalEvent) → HasDistinctMessages t → HasDistinctMessages (apply_event t e)
unfolding apply_event merge_artifact merge_status
apply_event-HasDistinctMessages t (status_update e) d =
    with_message-HasDistinctMessages (record t { status = e.status }) e.status.message d
apply_event-HasDistinctMessages t (artifact_update e) d = d

-- No event puts a message into the history of a task that is there already.
pub replay-HasDistinctMessages :
    (t : Task) (es : List JournalEvent) → HasDistinctMessages t → HasDistinctMessages (replay t es)
unfolding replay
replay-HasDistinctMessages t [] d = d
replay-HasDistinctMessages t (e ∷ es) d =
    replay-HasDistinctMessages (apply_event t e) es (apply_event-HasDistinctMessages t e d)

ensure_history_contains_message-status :
    (t : Task) (m : Message) → (ensure_history_contains_message t m).status ≡ t.status
unfolding ensure_history_contains_message
ensure_history_contains_message-status t m =
    ground (arith, Bool-cases (has_message m.message_id (or_else t.history [])))

with_message-status : (t : Task) (o : Option Message) → (with_message t o).status ≡ t.status
with_message-status t none = refl
with_message-status t (some m) = ensure_history_contains_message-status t m

-- A status update gives the task its status.
pub apply_event-status :
    (t : Task) (e : TaskStatusUpdateEvent) → (apply_event t (status_update e)).status ≡ e.status
unfolding apply_event merge_status
apply_event-status t e = with_message-status (record t { status = e.status }) e.status.message
