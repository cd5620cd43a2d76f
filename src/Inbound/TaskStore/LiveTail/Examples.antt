-- ===== src/Inbound/TaskStore/LiveTail/Examples.antt =====
-- A live tail of a concrete store.
use openclaw_a2a_plugins.Base.{◌≡◌, refl, arith, true, false, none, some, List, [], ◌∷◌}
use openclaw_a2a_plugins.Base.Text.{codes, text_eq}
use openclaw_a2a_plugins.Base.Dict.{get}
use openclaw_a2a_plugins.Inbound.Samples.{fresh_task, chunk}
use openclaw_a2a_plugins.Inbound.TaskStore.{Store, TaskRecord, prepare_resubscribe, live_tail}
use openclaw_a2a_plugins.Inbound.TaskStore.Wellformed.{Inv}
use openclaw_a2a_plugins.Inbound.TaskStore.Wellformed.Steps.{Call, commits_event}
use openclaw_a2a_plugins.Inbound.TaskStore.Wellformed.Steps
use openclaw_a2a_plugins.Inbound.TaskStore.LiveTail.Complete.{prepare_resubscribe-calls}

abbrev stored : TaskRecord
stored = record { task = fresh_task; binding = none; current_sequence = 0; journal = [] }

abbrev store : Store
store = record {
  records = (codes "t1", stored) ∷ [];
  pending_bindings = [];
  listeners = [];
  subscriptions = [];
  objects = [];
}

store-Inv : Inv store
unfolding get
store-Inv = record {
  unique = (refl, tt);
  good = ((refl, record { ordered = tt; covered = omega arith }), tt);
  heard = tt;
}

abbrev history : List Call
history =
    commits_event (chunk false (codes "ab"))
    ∷ Steps.reads 0 7
    ∷ commits_event (chunk true (codes "c"))
    ∷ []

prepare_resubscribe-calls_example :
    (prepare_resubscribe (codes "t1") true store).1 ≡ some (live_tail fresh_task 0)
unfolding get text_eq
prepare_resubscribe-calls_example =
    (prepare_resubscribe-calls (codes "t1") store stored history store-Inv refl refl
      ((λ e. e), ((λ e. e), ((λ e. e), tt)))).0
