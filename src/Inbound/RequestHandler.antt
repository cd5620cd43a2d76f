-- ===== src/Inbound/RequestHandler.antt =====
-- `A2AInboundRequestHandler` of packages/openclaw-a2a-inbound/src/request-handler.ts: what its
-- methods do to the task store and the live executions, and what they answer. The calls of the
-- SDK's base handler for the agent card are passed through and not modelled.
pub mod Executions
pub mod Answers
pub mod Contexts
pub mod Cancellations
pub mod Sends
use openclaw_a2a_plugins.Base.{ℕ, Option, none, some, Bool, true, false}
use openclaw_a2a_plugins.Base.Text.{Text}
use openclaw_a2a_plugins.Base.Results.{Result, ok, err}
use openclaw_a2a_plugins.Inbound.Protocol.{
  Message, Task, TaskState, JournalEvent, status_update, artifact_update,
}
use openclaw_a2a_plugins.Inbound.TaskStore.{
  Store, Committed, done, unknown_task, commit_task_snapshot, commit_journal_event,
}
use openclaw_a2a_plugins.Inbound.Coordinator.{
  BusEvent, bus_message, bus_task, bus_status, bus_artifact,
}
use openclaw_a2a_plugins.Inbound.SessionRouting.Parts.{PartError}

-- The errors that a method throws, by what they say. `unknown_task_event` is the store's.
pub data HandlerError : Type 0 where
  task_not_found : Text → HandlerError
  unsupported_operation : HandlerError
  task_not_cancelable : Text → HandlerError
  not_found_after_execution : Text → HandlerError
  not_found_after_cancellation : Text → HandlerError
  no_result : HandlerError
  unknown_task_event : Text → HandlerError
  message_id_required : HandlerError
  refused_part : PartError → HandlerError
  other_context : Text → HandlerError
  no_binding : Text → HandlerError
  terminal_task : Text → TaskState → HandlerError
  unsupported_snapshot_state : TaskState → HandlerError
  execution_failed : Text → HandlerError

abbrev committed_update :
    (JournalEvent → BusEvent)
    → Store
    → Committed JournalEvent
    → Store × Result HandlerError BusEvent
committed_update as_event s (done s' e) = (s', ok (as_event e))
committed_update as_event s (unknown_task id) = (s, err (unknown_task_event id))

abbrev pub bus_update : JournalEvent → BusEvent
bus_update (status_update e) = bus_status e
bus_update (artifact_update e) = bus_artifact e

abbrev committed_task : Store × Task → Store × Result HandlerError BusEvent
committed_task (s, t) = (s, ok (bus_task t))

-- `commitEvent` of the store, for what is no message, and `commitExecutionEvent`.
unfoldable pub commit_execution_event :
    BusEvent → Option Message → Store → Store × Result HandlerError BusEvent
commit_execution_event (bus_message m) latest s = (s, ok (bus_message m))
commit_execution_event (bus_task t) latest s = committed_task (commit_task_snapshot t latest s)
commit_execution_event (bus_status e) latest s =
    committed_update bus_update s (commit_journal_event (status_update e) s)
commit_execution_event (bus_artifact e) latest s =
    committed_update bus_update s (commit_journal_event (artifact_update e) s)

abbrev pub is_durable : BusEvent → Bool
is_durable (bus_message m) = false
is_durable (bus_task t) = true
is_durable (bus_status e) = true
is_durable (bus_artifact e) = true
