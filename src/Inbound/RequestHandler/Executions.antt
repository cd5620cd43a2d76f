-- ===== src/Inbound/RequestHandler/Executions.antt =====
-- The three ways to answer a request for an execution: `processBlockingExecution`,
-- `processNonBlockingExecution` and the loop of `sendMessageStream` of
-- packages/openclaw-a2a-inbound/src/request-handler.ts.
--
-- What happens is a list of turns: an event of the bus, which is committed, or what others do to the
-- store while the loop waits. The logging of an error after the answer is left out.
use openclaw_a2a_plugins.Base.{
  ℕ, zero, suc, Bool, true, false, ◌||◌, Option, none, some, List, [], ◌∷◌, or_option,
  if◌then◌else◌,
}
use openclaw_a2a_plugins.Base.Text.{Text}
use openclaw_a2a_plugins.Base.Results.{Result, ok, err, on_result}
use openclaw_a2a_plugins.Inbound.Protocol.{Message, Task}
use openclaw_a2a_plugins.Inbound.TaskStore.{Store, load, discard_pending}
use openclaw_a2a_plugins.Inbound.Coordinator.{
  BusEvent, bus_message, bus_task, bus_status, bus_artifact,
}
use openclaw_a2a_plugins.Inbound.RequestHandler.{
  HandlerError, no_result, not_found_after_execution, commit_execution_event, is_durable,
}

pub data Turn : Type 0 where
  event : BusEvent → Turn
  others : (Store → Store) → Turn

-- `rejection` is what the promise of the execution is rejected with, and `late` what others do
-- before the task is loaded at the end.
pub record Execution : Type 0 where
  pub latest_user_message : Message
  pub task_id : Text
  pub turns : List Turn
  pub rejection : Option HandlerError
  pub late : Store → Store

pub data Reply : Type 0 where
  reply_message : Message → Reply
  reply_task : Task → Reply

-- The `finally` of each way.
abbrev pub settled : Bool → Text → Store → Store
settled durable id s = if durable then s else discard_pending id s

abbrev pub loaded : HandlerError → Option Task → Result HandlerError Reply
loaded e (some t) = ok (reply_task t)
loaded e none = err e

-- What the loop of a blocking request leaves.
pub record Blocking : Type 0 where
  pub store : Store
  pub saw_durable_event : Bool
  pub final_message : Result HandlerError (Option Message)

abbrev pub final_of : BusEvent → Option Message → Option Message
final_of (bus_message m) final = some m
final_of (bus_task t) final = final
final_of (bus_status e) final = final
final_of (bus_artifact e) final = final

unfoldable pub blocking_loop : Message → List Turn → Option Message → Bool → Store → Blocking
blocking_loop latest [] final durable s = record {
  store = s;
  saw_durable_event = durable;
  final_message = ok final;
}
blocking_loop latest (others f ∷ turns) final durable s =
    blocking_loop latest turns final durable (f s)
blocking_loop latest (event e ∷ turns) final durable s =
    let (s', result) = commit_execution_event e (some latest) s in
    on_result result
      (λ x. record { store = s'; saw_durable_event = durable; final_message = err x })
      (λ committed.
        blocking_loop latest turns (final_of committed final) (durable || is_durable committed) s')

abbrev pub blocking_answer :
    Execution
    → Store
    → Result HandlerError (Option Message)
    → Option HandlerError
    → Store × Result HandlerError Reply
blocking_answer x s (err e) rejection = (s, err e)
blocking_answer x s (ok final) (some e) = (s, err e)
blocking_answer x s (ok (some m)) none = (s, ok (reply_message m))
blocking_answer x s (ok none) none =
    let s' = x.late s in (s', loaded (not_found_after_execution x.task_id) (load x.task_id s'))

abbrev pub finish_with :
    Bool → Text → Store × Result HandlerError Reply → Store × Result HandlerError Reply
finish_with durable id (s, answer) = (settled durable id s, answer)

unfoldable pub process_blocking_execution : Execution → Store → Store × Result HandlerError Reply
process_blocking_execution x s =
    let b = blocking_loop x.latest_user_message x.turns none false s in
    finish_with b.saw_durable_event x.task_id
      (blocking_answer x b.store b.final_message x.rejection)

-- What the loop of a non-blocking request leaves; `answered` is what its promise was resolved with.
pub record NonBlocking : Type 0 where
  pub store : Store
  pub saw_durable_event : Bool
  pub answered : Option Reply
  pub failure : Option HandlerError

abbrev pub first_result : BusEvent → Option Reply
first_result (bus_message m) = some (reply_message m)
first_result (bus_task t) = some (reply_task t)
first_result (bus_status e) = none
first_result (bus_artifact e) = none

unfoldable pub non_blocking_loop : Message → List Turn → Option Reply → Bool → Store → NonBlocking
non_blocking_loop latest [] answered durable s = record {
  store = s;
  saw_durable_event = durable;
  answered = answered;
  failure = none;
}
non_blocking_loop latest (others f ∷ turns) answered durable s =
    non_blocking_loop latest turns answered durable (f s)
non_blocking_loop latest (event e ∷ turns) answered durable s =
    let (s', result) = commit_execution_event e (some latest) s in
    on_result result
      (λ x. record {
        store = s';
        saw_durable_event = durable;
        answered = answered;
        failure = some x;
      })
      (λ committed.
        non_blocking_loop latest turns (or_option answered (first_result committed))
          (durable || is_durable committed) s')

abbrev pub non_blocking_answer :
    Execution → Store → Option Reply → Option HandlerError → Store × Result HandlerError Reply
non_blocking_answer x s (some reply) failure = (s, ok reply)
non_blocking_answer x s none (some e) = (s, err e)
non_blocking_answer x s none none = let s' = x.late s in (s', loaded no_result (load x.task_id s'))

unfoldable pub process_non_blocking_execution :
    Execution → Store → Store × Result HandlerError Reply
process_non_blocking_execution x s =
    let n = non_blocking_loop x.latest_user_message x.turns none false s in
    finish_with n.saw_durable_event x.task_id
      (non_blocking_answer x n.store n.answered (or_option n.failure x.rejection))

-- What a stream gave: the events that were yielded, and the error that ended it.
pub record Streamed : Type 0 where
  pub store : Store
  pub saw_durable_event : Bool
  pub yielded : List BusEvent
  pub failure : Option HandlerError

abbrev pub yield : BusEvent → Streamed → Streamed
yield e r = record r { yielded = e ∷ r.yielded }

abbrev left_at : Option ℕ → Bool
left_at (some zero) = true
left_at _ = false

abbrev one_less : Option ℕ → Option ℕ
one_less none = none
one_less (some zero) = some zero
one_less (some (suc n)) = some n

-- With `some n` the client leaves as it has taken n + 1 events, which ends the generator there;
-- with `none` it stays.
unfoldable pub stream_loop :
    Message → Option HandlerError → Option ℕ → List Turn → Bool → Store → Streamed
stream_loop latest rejection patience [] durable s = record {
  store = s;
  saw_durable_event = durable;
  yielded = [];
  failure = rejection;
}
stream_loop latest rejection patience (others f ∷ turns) durable s =
    stream_loop latest rejection patience turns durable (f s)
stream_loop latest rejection patience (event e ∷ turns) durable s =
    let (s', result) = commit_execution_event e (some latest) s in
    on_result result
      (λ x. record { store = s'; saw_durable_event = durable; yielded = []; failure = some x })
      (λ committed.
        let seen = durable || is_durable committed in
        let rest = stream_loop latest rejection (one_less patience) turns seen s' in
        if left_at patience
        then record {
          store = s';
          saw_durable_event = seen;
          yielded = committed ∷ [];
          failure = none;
        }
        else yield committed rest)

unfoldable pub send_message_stream : Execution → Option ℕ → Store → Streamed
send_message_stream x patience s =
    let r = stream_loop x.latest_user_message x.rejection patience x.turns false s in
    record r { store = settled r.saw_durable_event x.task_id r.store }
