-- ===== src/Inbound/TaskStates.antt =====
-- The classes of task states of packages/openclaw-a2a-inbound/src/response-mapping.ts.
use openclaw_a2a_plugins.Base.{◌≡◌, ◌⊎◌, ◌↔◌, Bool, true, false, arith, if◌then◌else◌}
use openclaw_a2a_plugins.Inbound.Protocol.{
  TaskState, submitted, working, input_required, completed, canceled, failed, rejected,
  auth_required, unknown,
}

pub data TaskLifecycleClass : Type 0 where
  active quiescent terminal : TaskLifecycleClass

abbrev pub is_terminal_task_state : TaskState → Bool
is_terminal_task_state completed = true
is_terminal_task_state failed = true
is_terminal_task_state canceled = true
is_terminal_task_state rejected = true
is_terminal_task_state _ = false

abbrev pub is_quiescent_task_state : TaskState → Bool
is_quiescent_task_state input_required = true
is_quiescent_task_state auth_required = true
is_quiescent_task_state _ = false

abbrev pub is_active_execution_task_state : TaskState → Bool
is_active_execution_task_state submitted = true
is_active_execution_task_state working = true
is_active_execution_task_state _ = false

pub classify_task_state : TaskState → TaskLifecycleClass
classify_task_state s =
    if is_active_execution_task_state s
    then active
    else (if is_terminal_task_state s then terminal else quiescent)

-- The class of a state agrees with the three tests, but for `unknown`, which is classified as
-- quiescent and passes none of them.
pub classify_task_state_lem :
    (s : TaskState)
    → ((classify_task_state s ≡ active) ↔ (is_active_execution_task_state s ≡ true))
      × ((classify_task_state s ≡ terminal) ↔ (is_terminal_task_state s ≡ true))
      × ((classify_task_state s ≡ quiescent) ↔ ((is_quiescent_task_state s ≡ true) ⊎ (s ≡ unknown)))
unfolding classify_task_state
classify_task_state_lem submitted = ground arith
classify_task_state_lem _ = ground arith
