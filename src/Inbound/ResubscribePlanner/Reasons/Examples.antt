-- ===== src/Inbound/ResubscribePlanner/Reasons/Examples.antt =====
-- The planner for a task that no execution runs.
use openclaw_a2a_plugins.Base.{◌≡◌, none, [], ◌∷◌}
use openclaw_a2a_plugins.Base.Text.{codes, text_eq}
use openclaw_a2a_plugins.Base.Dict.{get, has}
use openclaw_a2a_plugins.Inbound.Samples.{fresh_task}
use openclaw_a2a_plugins.Inbound.TaskStore.{Store, TaskRecord}
use openclaw_a2a_plugins.Inbound.LiveExecutions.{LiveExecutions, is_live}
use openclaw_a2a_plugins.Inbound.ResubscribePlanner.{prepare, planned, plan_snapshot, orphaned}
use openclaw_a2a_plugins.Inbound.ResubscribePlanner.Reasons.{prepare_lem}

abbrev stored : TaskRecord
stored = record { task = fresh_task; binding = none; current_sequence = 0; journal = [] }

abbrev store : Store
store = record {
  records = (codes "t1", stored) ∷ [];
  pending_bindings = [];
  listeners = [];
  subscriptions = [];
  objects = [];
}

abbrev idle : LiveExecutions
idle = record { executions = []; request_modes = []; signals = [] }

prepare_lem_example :
    prepare (codes "t1") idle store ≡ (store, planned (plan_snapshot fresh_task orphaned))
unfolding get text_eq is_live has
prepare_lem_example = prepare_lem (codes "t1") idle store
