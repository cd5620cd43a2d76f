-- ===== src/Inbound/RequestHandler/Sends.antt =====
-- `sendMessage`, `sendMessageStream`, `executeWithFallback`, `getTask` and `resubscribe` of
-- packages/openclaw-a2a-inbound/src/request-handler.ts, put together from their parts. A non-blocking
-- request clears its mode as it answers; the rest of its loop, which does not read the mode, stands
-- before that here.
pub mod Modes
mod Examples
use openclaw_a2a_plugins.Base.{
  ℕ, ◌+◌, Bool, true, false, Option, none, some, List, [], ◌∷◌, ◌++◌, if◌then◌else◌,
}
use openclaw_a2a_plugins.Base.Text.{Text, codes}
use openclaw_a2a_plugins.Base.Results.{Result, ok, err}
use openclaw_a2a_plugins.Inbound.Protocol.{Message, Task, failed, JournalEvent}
use openclaw_a2a_plugins.Inbound.TaskStore.{Store, load, close_subscription}
use openclaw_a2a_plugins.Inbound.LiveExecutions.{
  LiveExecutions, InitialResponseMode, blocking, non_blocking, streaming, clear_request_mode,
}
use openclaw_a2a_plugins.Inbound.Replies.{Ambient}
use openclaw_a2a_plugins.Inbound.Replies.Objects.{
  create_task_snapshot, create_task_status, create_task_status_update,
}
use openclaw_a2a_plugins.Inbound.Coordinator.{BusEvent, bus_task, bus_status}
use openclaw_a2a_plugins.Inbound.RequestHistory.{HistoryLength, trim_task_history}
use openclaw_a2a_plugins.Inbound.RequestHandler.{
  HandlerError, task_not_found, unsupported_snapshot_state,
}
use openclaw_a2a_plugins.Inbound.ResubscribePlanner.{
  Planned, planned, unknown_task, unsupported, plan_snapshot, plan_tail, prepare,
}
use openclaw_a2a_plugins.Inbound.RequestHandler.Contexts.{
  CallContext, Incoming, RequestContext, bootstrap_execution,
}
use openclaw_a2a_plugins.Inbound.RequestHandler.Executions.{
  Turn, Execution, Reply, process_blocking_execution, process_non_blocking_execution, Streamed,
  send_message_stream,
}
use openclaw_a2a_plugins.Inbound.RequestHandler.Cancellations.{is_final_task_event}

-- What happens while a request waits: the turns of its execution, how that ends, and what others do
-- to the store before the last load and to the live executions.
pub record Course : Type 0 where
  pub turns : List Turn
  pub rejection : Option HandlerError
  pub late : Store → Store
  pub on_live : LiveExecutions → LiveExecutions

abbrev pub execution_of : RequestContext → Course → Execution
execution_of context course = record {
  latest_user_message = context.original_message;
  task_id = context.task_id;
  turns = course.turns;
  rejection = course.rejection;
  late = course.late;
}

-- `params.configuration?.blocking !== false`.
abbrev pub waits_for_end : Option Bool → Bool
waits_for_end none = true
waits_for_end (some b) = b

abbrev processed : Bool → Execution → Store → Store × Result HandlerError Reply
processed true x s = process_blocking_execution x s
processed false x s = process_non_blocking_execution x s

abbrev mode_of : Bool → InitialResponseMode
mode_of true = blocking
mode_of false = non_blocking

abbrev cleaned :
    Text
    → LiveExecutions
    → Store × Result HandlerError Reply
    → Store × LiveExecutions × Result HandlerError Reply
cleaned id live (s, answer) = (s, clear_request_mode id live, answer)

abbrev pub after_bootstrap :
    Bool
    → Text
    → (RequestContext → Course)
    → Store × LiveExecutions × Result HandlerError RequestContext
    → Store × LiveExecutions × Result HandlerError Reply
after_bootstrap waits id course (s, live, err e) = (s, live, err e)
after_bootstrap waits id course (s, live, ok context) =
    cleaned id ((course context).on_live live)
      (processed waits (execution_of context (course context)) s)

abbrev stream_of :
    Text
    → Option ℕ
    → (RequestContext → Course)
    → Store × LiveExecutions × Result HandlerError RequestContext
    → LiveExecutions × Result HandlerError Streamed
stream_of id patience course (s, live, err e) = (live, err e)
stream_of id patience course (s, live, ok context) = (
  clear_request_mode id ((course context).on_live live),
  ok (send_message_stream (execution_of context (course context)) patience s),
)

module _ (others : ℕ → Store → Store) (a : Ambient) (n : ℕ) (exposed defaults : List Text) where
  unfoldable pub send_message :
      Option Bool
      → Option CallContext
      → Incoming
      → (RequestContext → Course)
      → Store
      → LiveExecutions
      → Store × LiveExecutions × Result HandlerError Reply
  send_message block call incoming course s live =
      let waits = waits_for_end block in
      after_bootstrap waits incoming.message.message_id course
        (bootstrap_execution others a n exposed defaults (mode_of waits) call incoming s live)

  -- With the client's patience, as in the loop.
  unfoldable pub send_streaming :
      Option CallContext
      → Incoming
      → Option ℕ
      → (RequestContext → Course)
      → Store
      → LiveExecutions
      → LiveExecutions × Result HandlerError Streamed
  send_streaming call incoming patience course s live =
      stream_of incoming.message.message_id patience course
        (bootstrap_execution others a n exposed defaults streaming call incoming s live)

abbrev snapshot_if_new : Ambient → ℕ → RequestContext → Text → Option Task → List BusEvent
snapshot_if_new a n context words (some t) = []
snapshot_if_new a n context words none =
    bus_task
      (record (create_task_snapshot a n context.task_id context.context_id failed
        (some (context.original_message ∷ [])) none none) {
          status =
              create_task_status a n context.context_id context.task_id failed none (some words);
        })
    ∷ []

-- What is published for an execution that threw, with the text of the error; an unsupported content
-- type is thrown on and publishes nothing. Either way the error is thrown again.
pub execute_with_fallback : Ambient → ℕ → RequestContext → Bool → Text → List BusEvent
execute_with_fallback a n context unsupported_content error =
    let words = codes "Agent execution error: " ++ error in
    if unsupported_content
    then []
    else snapshot_if_new a n context words context.task
      ++ bus_status (
          create_task_status_update a (n + 1) context.task_id context.context_id failed true none
            (some words))
        ∷ []

abbrev trimmed_task : Text → Option HistoryLength → Option Task → Result HandlerError Task
trimmed_task id length none = err (task_not_found id)
trimmed_task id length (some t) = ok (trim_task_history t length)

pub get_task : Text → Option HistoryLength → Store → Result HandlerError Task
get_task id length s = trimmed_task id length (load id s)

-- What a client of a tail is given of what its reads are resolved with, and whether the tail is
-- closed then: at the end of the subscription or after a final status.
pub consume_committed_tail : List (Option JournalEvent) → List JournalEvent × Bool
consume_committed_tail [] = ([], false)
consume_committed_tail (none ∷ answers) = ([], true)
consume_committed_tail (some e ∷ answers) =
    let (events, closed) = consume_committed_tail answers in
    if is_final_task_event e then (e ∷ [], true) else (e ∷ events, closed)

-- A client gets the snapshot, and then the events of the tail, if there is one.
abbrev planned_events :
    Text → List (Option JournalEvent) → Planned → Result HandlerError (Task × List JournalEvent)
planned_events id answers unknown_task = err (task_not_found id)
planned_events id answers (unsupported state) = err (unsupported_snapshot_state state)
planned_events id answers (planned (plan_snapshot t reason)) = ok (t, [])
planned_events id answers (planned (plan_tail t handle)) =
    ok (t, (consume_committed_tail answers).0)

-- `answers` is what the reads of the tail are resolved with.
pub resubscribe :
    Text
    → List (Option JournalEvent)
    → LiveExecutions
    → Store
    → Store × Result HandlerError (Task × List JournalEvent)
resubscribe id answers live s =
    let (s', plan) = prepare id live s in (s', planned_events id answers plan)
