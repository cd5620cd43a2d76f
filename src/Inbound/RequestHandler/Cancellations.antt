-- ===== src/Inbound/RequestHandler/Cancellations.antt =====
-- `cancelTask`, `cancelQuiescentTask`, `waitForCommittedTerminalTask` and `consumeCommittedTail` of
-- packages/openclaw-a2a-inbound/src/request-handler.ts, with `cancelTask` of
-- packages/openclaw-a2a-inbound/src/openclaw-executor.ts.
--
-- A phase is a call that the method waits for. A step makes the call and goes on to the next one;
-- between two steps anything may happen. What a cancel function of an execution does when it is
-- called happens between steps, so the call is only noted here.
pub mod Safety
pub mod Undisturbed
mod Examples
use openclaw_a2a_plugins.Base.{
  ℕ, ◌+◌, ◌==◌, Bool, true, false, Option, none, some, List, [], ◌∷◌, ◌++◌, get_elem?, update_at,
  if◌then◌else◌,
}
use openclaw_a2a_plugins.Base.Text.{Text, codes}
use openclaw_a2a_plugins.Inbound.Protocol.{
  Task, JournalEvent, status_update, artifact_update, canceled, TaskStatusUpdateEvent,
}
use openclaw_a2a_plugins.Inbound.TaskStates.{is_terminal_task_state, is_quiescent_task_state}
use openclaw_a2a_plugins.Inbound.Subscription.{Subscription}
use openclaw_a2a_plugins.Inbound.TaskStore.{
  Store, load, Committed, done, unknown_task, commit_journal_event, subscribe_to_committed_tail,
  next_event, close_subscription,
}
use openclaw_a2a_plugins.Inbound.LiveExecutions.{
  LiveExecutions, LiveExecutionRecord, task_canceled, abort, is_live, request_cancellation, cleanup,
}
use openclaw_a2a_plugins.Inbound.Replies.{Ambient}
use openclaw_a2a_plugins.Inbound.Replies.Objects.{create_task_status_update}
use openclaw_a2a_plugins.Inbound.RequestHandler.{
  HandlerError, task_not_found, unsupported_operation, task_not_cancelable,
  not_found_after_cancellation, unknown_task_event,
}

-- `cancel_calls` are the cancel functions that were called.
pub record World : Type 0 where
  pub store : Store
  pub live : LiveExecutions
  pub cancel_calls : List ℕ

pub data Phase : Type 0 where
  loads loads_again subscribes loads_untailed loads_last : Phase
  cancels : (handle : ℕ) → Phase
  reads : (handle reader : ℕ) → Phase
  waits : (handle reader : ℕ) → Phase
  commits : Task → Phase
  reloads : Task → Phase

pub data Next : Type 0 where
  again : Phase → Next
  returned : Task → Next
  failed : HandlerError → Next

-- What is done with a task that was loaded: `otherwise` if it is neither terminal nor quiescent.
abbrev pub by_state : Text → Next → Option Task → Next
by_state id otherwise none = failed (task_not_found id)
by_state id otherwise (some t) =
    if is_terminal_task_state t.status.state
    then returned t
    else if is_quiescent_task_state t.status.state
    then again (commits t)
    else otherwise

abbrev pub if_live : Bool → Next
if_live true = again subscribes
if_live false = again loads_again

abbrev pub terminal_only : Text → Option Task → Next
terminal_only id none = failed (not_found_after_cancellation id)
terminal_only id (some t) =
    if is_terminal_task_state t.status.state then returned t else failed (task_not_cancelable id)

abbrev pub any_task : Text → Option Task → Next
any_task id none = failed (not_found_after_cancellation id)
any_task id (some t) = returned t

abbrev pub if_subscribed : Option ℕ → Next
if_subscribed (some handle) = again (cancels handle)
if_subscribed none = again loads_untailed

-- `cancelTask` of the executor: the cancel function if there is one, else the abort controller.
abbrev pub call_off : Option LiveExecutionRecord → Option ℕ → World → World
call_off none cancel w = w
call_off (some r) (some f) w = record w { cancel_calls = w.cancel_calls ++ f ∷ [] }
call_off (some r) none w = record w {
  live = record w.live {
    signals = update_at r.abort_controller (abort task_canceled) w.live.signals;
  };
}

abbrev pub cancel_of : Option LiveExecutionRecord → Option ℕ
cancel_of none = none
cancel_of (some r) = r.cancel

unfoldable pub executor_cancel_task : Text → World → World
executor_cancel_task id w =
    let (live', r) = request_cancellation id w.live in
    call_off r (cancel_of r) (record w { live = live' })

abbrev pub is_final_task_event : JournalEvent → Bool
is_final_task_event (status_update e) = e.final
is_final_task_event (artifact_update e) = false

-- What the promise of a reader was resolved with, if it was.
abbrev answer_in : ℕ → List (ℕ × Option JournalEvent) → Option (Option JournalEvent)
answer_in reader [] = none
answer_in reader ((r, e) ∷ rest) = if r == reader then some e else answer_in reader rest

abbrev pub answer_of : ℕ → Option (Subscription JournalEvent) → Option (Option JournalEvent)
answer_of reader none = none
answer_of reader (some o) = answer_in reader o.resolved

abbrev with_store : World → Store → World
with_store w s = record w { store = s }

abbrev pub close_tail : Text → ℕ → World → World × Next
close_tail id handle w = (with_store w (close_subscription id handle w.store), again loads_last)

-- The loop of `consumeCommittedTail`, whose events are not used.
abbrev pub on_answer : Text → ℕ → ℕ → World → Option (Option JournalEvent) → World × Next
on_answer id handle reader w none = (w, again (waits handle reader))
on_answer id handle reader w (some none) = close_tail id handle w
on_answer id handle reader w (some (some e)) =
    if is_final_task_event e then close_tail id handle w else (w, again (reads handle (reader + 1)))

module _ (a : Ambient) (drawn : ℕ) where
  abbrev pub cancellation_of : Task → TaskStatusUpdateEvent
  cancellation_of t =
      create_task_status_update a drawn t.id t.context_id canceled true none
        (some (codes "Task cancellation requested by the client."))

  abbrev pub after_commit : Task → World → Committed JournalEvent → World × Next
  after_commit t w (done s e) =
      (record w { store = s; live = cleanup t.id w.live }, again (reloads t))
  after_commit t w (unknown_task k) = (w, failed (unknown_task_event k))

  unfoldable pub step : Text → Phase → World → World × Next
  step id loads w = (w, by_state id (if_live (is_live id w.live)) (load id w.store))
  step id loads_again w = (w, by_state id (failed unsupported_operation) (load id w.store))
  step id subscribes w =
      let (s, handle) = subscribe_to_committed_tail id w.store in
      (with_store w s, if_subscribed handle)
  step id loads_untailed w = (w, by_state id (failed (task_not_cancelable id)) (load id w.store))
  step id (cancels handle) w = (executor_cancel_task id w, again (reads handle 0))
  step id (reads handle reader) w =
      (with_store w (next_event handle reader w.store), again (waits handle reader))
  step id (waits handle reader) w =
      on_answer id handle reader w (answer_of reader (get_elem? w.store.objects handle))
  step id loads_last w = (w, terminal_only id (load id w.store))
  step id (commits t) w =
      after_commit t w (commit_journal_event (status_update (cancellation_of t)) w.store)
  step id (reloads t) w = (w, any_task t.id (load t.id w.store))

-- A step of the method, or what others do.
pub data Move : Type 0 where
  ours : Move
  theirs : (World → World) → Move

abbrev pub go_on : (Phase → World × Next) → World × Next → World × Next
go_on rest (w, again p) = rest p
go_on rest (w, returned t) = (w, returned t)
go_on rest (w, failed e) = (w, failed e)

-- Until the method answers, or the moves end.
unfoldable pub run : Ambient → ℕ → Text → List Move → Phase → World → World × Next
run a drawn id [] p w = (w, again p)
run a drawn id (theirs f ∷ moves) p w = run a drawn id moves p (f w)
run a drawn id (ours ∷ moves) p w =
    let next = step a drawn id p w in go_on (λ q. run a drawn id moves q next.0) next

unfoldable pub cancel_task : Ambient → ℕ → Text → List Move → World → World × Next
cancel_task a drawn id moves w = run a drawn id moves loads w
