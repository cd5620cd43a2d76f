-- ===== src/Inbound/ResubscribePlanner.antt =====
-- `A2AResubscribePlanner.prepare` of packages/openclaw-a2a-inbound/src/resubscribe-planner.ts.
pub mod Reasons
use openclaw_a2a_plugins.Base.{Bool, true, false, not, ◌&&◌, Option, none, some, if◌then◌else◌, ℕ}
use openclaw_a2a_plugins.Base.Text.{Text}
use openclaw_a2a_plugins.Inbound.Protocol.{Task, TaskState}
use openclaw_a2a_plugins.Inbound.TaskStates.{
  is_terminal_task_state, is_quiescent_task_state, is_active_execution_task_state,
}
use openclaw_a2a_plugins.Inbound.TaskStore.{
  Store, prepare_resubscribe, PreparedTaskResubscription, snapshot_only, live_tail,
}
use openclaw_a2a_plugins.Inbound.LiveExecutions.{LiveExecutions, is_live}

pub data Reason : Type 0 where
  terminal quiescent orphaned : Reason

pub data ResubscribePlan : Type 0 where
  plan_snapshot : (snapshot : Task) (reason : Reason) → ResubscribePlan
  plan_tail : (snapshot : Task) (subscription : ℕ) → ResubscribePlan

-- `unsupported` is the error that `mapSnapshotOnlyReason` throws.
pub data Planned : Type 0 where
  unknown_task : Planned
  planned : ResubscribePlan → Planned
  unsupported : TaskState → Planned

pub map_snapshot_only_reason : TaskState → Bool → Option Reason
map_snapshot_only_reason state allow =
    if is_terminal_task_state state
    then some terminal
    else if is_quiescent_task_state state
    then some quiescent
    else if is_active_execution_task_state state && not allow
    then some orphaned
    else none

abbrev with_reason : Task → Option Reason → Planned
with_reason snapshot (some reason) = planned (plan_snapshot snapshot reason)
with_reason snapshot none = unsupported snapshot.status.state

abbrev pub plan_of : Bool → Option PreparedTaskResubscription → Planned
plan_of allow none = unknown_task
plan_of allow (some (live_tail snapshot subscription)) = planned (plan_tail snapshot subscription)
plan_of allow (some (snapshot_only snapshot)) =
    with_reason snapshot (map_snapshot_only_reason snapshot.status.state allow)

pub prepare : Text → LiveExecutions → Store → Store × Planned
prepare id live s =
    let allow = is_live id live in
    let (s', prepared) = prepare_resubscribe id allow s in (s', plan_of allow prepared)
