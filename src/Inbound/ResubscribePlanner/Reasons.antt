-- ===== src/Inbound/ResubscribePlanner/Reasons.antt =====
-- What the planner answers for each state of the stored task.
mod Examples
use openclaw_a2a_plugins.Base.{
  ℕ, ◌≡◌, refl, Bool, true, false, not, ◌&&◌, ◌||◌, ap, ◌∙◌, Option, none, some, length, arith,
  if◌then◌else◌, Bool-cases, inl, inr,
}
use openclaw_a2a_plugins.Base.Text.{Text}
use openclaw_a2a_plugins.Base.Dict.{get}
use openclaw_a2a_plugins.Inbound.Protocol.{
  Task, TaskState, submitted, working, input_required, completed, canceled, failed, rejected,
  auth_required, unknown,
}
use openclaw_a2a_plugins.Inbound.TaskStates.{is_active_execution_task_state}
use openclaw_a2a_plugins.Inbound.TaskStore.{
  Store, TaskRecord, prepare_resubscribe, create_subscription, is_active,
  PreparedTaskResubscription, snapshot_only, prepare_in, live_tail,
}
use openclaw_a2a_plugins.Inbound.LiveExecutions.{LiveExecutions, is_live}
use openclaw_a2a_plugins.Inbound.ResubscribePlanner.{
  Planned, planned, unsupported, unknown_task, plan_snapshot, plan_tail, Reason, terminal,
  quiescent, orphaned, map_snapshot_only_reason, plan_of, prepare,
}

-- The plan for a task, by its state and by whether its execution is live.
abbrev pub expected : TaskState → Bool → Task → ℕ → Planned
expected completed live t n = planned (plan_snapshot t terminal)
expected failed live t n = planned (plan_snapshot t terminal)
expected canceled live t n = planned (plan_snapshot t terminal)
expected rejected live t n = planned (plan_snapshot t terminal)
expected input_required live t n = planned (plan_snapshot t quiescent)
expected auth_required live t n = planned (plan_snapshot t quiescent)
expected submitted true t n = planned (plan_tail t n)
expected working true t n = planned (plan_tail t n)
expected submitted false t n = planned (plan_snapshot t orphaned)
expected working false t n = planned (plan_snapshot t orphaned)
expected unknown live t n = unsupported unknown

-- The classes of a state that the planner tells apart.
reason-expected :
    (st : TaskState) (live : Bool) (t : Task) (n : ℕ)
    → t.status.state ≡ st
    → (is_active_execution_task_state st && live) ≡ false
    → plan_of live (some (snapshot_only t)) ≡ expected st live t n
unfolding map_snapshot_only_reason
reason-expected submitted true t n e h = cc
reason-expected submitted false t n e h = ground (arith, e)
reason-expected working true t n e h = cc
reason-expected working false t n e h = ground (arith, e)
reason-expected _ live t n e h = ground (arith, e)

tail-expected :
    (st : TaskState) (live : Bool) (t : Task) (n : ℕ)
    → (is_active_execution_task_state st && live) ≡ true
    → planned (plan_tail t n) ≡ expected st live t n
tail-expected submitted true t n h = refl
tail-expected working true t n h = refl
tail-expected submitted false t n h = cc
tail-expected working false t n h = cc
tail-expected _ live t n h = cc

prepare_in-tail :
    (id : Text) (live : Bool) (r : TaskRecord) (s : Store)
    → (is_active r && live) ≡ true
    → prepare_in id live (some r) s
      ≡ ((create_subscription id s).0, some (live_tail r.task (length s.objects)))
unfolding create_subscription
prepare_in-tail id live r s h =
    let no_bar : (not (is_active r) || not live) ≡ false = ground (arith, h) in rw no_bar refl

prepare_in-only :
    (id : Text) (live : Bool) (r : TaskRecord) (s : Store)
    → (is_active r && live) ≡ false
    → prepare_in id live (some r) s ≡ (s, some (snapshot_only r.task))
prepare_in-only id live r s h =
    let bar : (not (is_active r) || not live) ≡ true = ground (arith, h) in rw bar refl

-- The answer by what is stored for the task.
abbrev answer : Text → Bool → Option TaskRecord → Store → Store × Planned
answer id live none s = (s, unknown_task)
answer id live (some r) s = (
  (if is_active r && live then (create_subscription id s).0 else s),
  expected r.task.status.state live r.task (length s.objects),
)

plan_of-answer :
    (id : Text) (live : Bool) (found : Option TaskRecord) (s : Store)
    → ((prepare_in id live found s).0, plan_of live (prepare_in id live found s).1)
      ≡ answer id live found s
plan_of-answer id live none s = refl
plan_of-answer id live (some r) s = elim (Bool-cases (is_active r && live)) [
  | inl tail ↦
      rw (prepare_in-tail id live r s tail, tail)
        (ap (λ (p : Planned). ((create_subscription id s).0, p))
          (tail-expected r.task.status.state live r.task (length s.objects) tail))
  | inr only ↦
      rw (prepare_in-only id live r s only, only)
        (ap (λ (p : Planned). (s, p))
          (reason-expected r.task.status.state live r.task (length s.objects) refl only))
]

-- The plan for a stored task is told by its state and by whether its execution is live: a tail for
-- an active live one, the snapshot with the reason for it otherwise, and an error exactly in the
-- state `unknown`. Only a tail changes the store, by its subscription. A task that is not stored
-- has no plan.
pub prepare_lem :
    (id : Text) (l : LiveExecutions) (s : Store)
    → prepare id l s ≡ answer id (is_live id l) (get id s.records) s
unfolding prepare prepare_resubscribe
prepare_lem id l s = plan_of-answer id (is_live id l) (get id s.records) s
