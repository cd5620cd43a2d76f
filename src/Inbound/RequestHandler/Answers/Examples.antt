-- ===== src/Inbound/RequestHandler/Answers/Examples.antt =====
-- An execution that says something, and then makes a task and works on it.
use openclaw_a2a_plugins.Base.{refl, false, none, [], ◌∷◌, ◌≡◌, any, or_option}
use mathlib.Core.Option
use openclaw_a2a_plugins.Base.Text.{codes}
use openclaw_a2a_plugins.Inbound.Samples.{hello, fresh_task, chunk}
use openclaw_a2a_plugins.Inbound.TaskStore.{empty_store, prime_binding}
use openclaw_a2a_plugins.Inbound.TaskStore.Examples.{route}
use openclaw_a2a_plugins.Inbound.Coordinator.{bus_message, bus_task}
use openclaw_a2a_plugins.Inbound.RequestHandler.{
  bus_update, is_durable, no_result, not_found_after_execution,
}
use openclaw_a2a_plugins.Inbound.RequestHandler.Executions.{
  Execution, event, others, settled, reply_message, process_blocking_execution,
  process_non_blocking_execution, send_message_stream,
}
use openclaw_a2a_plugins.Inbound.RequestHandler.Answers.{
  commit_turns, last_message, first_reply, by_failure, by_reply, stored_task, process_execution_lem,
  process_execution-store,
}

abbrev execution : Execution
execution = record {
  latest_user_message = hello;
  task_id = codes "t1";
  turns =
      event (bus_message hello)
      ∷ others (prime_binding (codes "t1") route)
      ∷ event (bus_task fresh_task)
      ∷ event (bus_update (chunk false (codes "ab")))
      ∷ [];
  rejection = none;
  late = λ s. s;
}

process_execution_lem_example :
    let c = commit_turns hello execution.turns empty_store in
    let failure = or_option c.failure none in
    ((send_message_stream execution none empty_store).yielded ≡ c.committed)
    × ((send_message_stream execution none empty_store).failure ≡ failure)
    × ((process_blocking_execution execution empty_store).1
        ≡ by_failure failure
            (Option.map reply_message (last_message c.committed))
            (stored_task execution (not_found_after_execution (codes "t1")) c))
    × ((process_non_blocking_execution execution empty_store).1
        ≡ by_reply (first_reply c.committed) failure (stored_task execution no_result c))
process_execution_lem_example = process_execution_lem execution empty_store

process_execution-store_example :
    let c = commit_turns hello execution.turns empty_store in
    let left = settled (any is_durable c.committed) (codes "t1") c.store in
    ((process_blocking_execution execution empty_store).0 ≡ left)
    × ((process_non_blocking_execution execution empty_store).0 ≡ left)
    × ((send_message_stream execution none empty_store).store ≡ left)
process_execution-store_example = process_execution-store execution empty_store (λ u. refl)
