-- ===== src/Inbound/LiveExecutions.antt =====
-- `A2ALiveExecutionRegistry` of packages/openclaw-a2a-inbound/src/live-execution-registry.ts.
--
-- An abort controller is an object on a heap, given by its index: the reason if it is aborted.
-- A cancel function is given by a number. The caller holds a record by its task's id.
pub mod Cancellation
pub mod RequestModes
use openclaw_a2a_plugins.Base.{
  ℕ, Bool, true, false, Option, none, some, List, [], ◌∷◌, or_option, update_at,
}
use openclaw_a2a_plugins.Base.Text.{Text}
use openclaw_a2a_plugins.Base.Dict.{Dict, get, set, delete, has}

pub data InitialResponseMode : Type 0 where
  blocking non_blocking streaming : InitialResponseMode

pub record LiveExecutionRecord : Type 0 where
  pub task_id : Text
  pub context_id : Text
  pub abort_controller : ℕ
  pub cancel_requested : Bool
  pub cancel : Option ℕ

pub data AbortReason : Type 0 where
  server_shutdown task_canceled : AbortReason

pub record LiveExecutions : Type 0 where
  pub executions : Dict LiveExecutionRecord
  pub request_modes : Dict InitialResponseMode
  pub signals : List (Option AbortReason)

-- A mode is one of the three, so the guard of `setRequestMode` lets it through.
unfoldable pub set_request_mode : Text → InitialResponseMode → LiveExecutions → LiveExecutions
set_request_mode id mode l = record l { request_modes = set id mode l.request_modes }

unfoldable pub get_request_mode : Text → LiveExecutions → Option InitialResponseMode
get_request_mode id l = get id l.request_modes

unfoldable pub clear_request_mode : Text → LiveExecutions → LiveExecutions
clear_request_mode id l = record l { request_modes = delete id l.request_modes }

abbrev pub activated : Text → Text → ℕ → Option ℕ → Option LiveExecutionRecord → LiveExecutionRecord
activated id context controller cancel (some r) = record r {
  context_id = context;
  abort_controller = controller;
  cancel = or_option cancel r.cancel;
}
activated id context controller cancel none = record {
  task_id = id;
  context_id = context;
  abort_controller = controller;
  cancel_requested = false;
  cancel = cancel;
}

-- An existing record is changed in place, so it stands where it stood.
unfoldable pub activate :
    Text → Text → ℕ → Option ℕ → LiveExecutions → LiveExecutions × LiveExecutionRecord
activate id context controller cancel l =
    let r = activated id context controller cancel (get id l.executions) in
    (record l { executions = set id r l.executions }, r)

pub find : Text → LiveExecutions → Option LiveExecutionRecord
find id l = get id l.executions

unfoldable pub is_live : Text → LiveExecutions → Bool
is_live id l = has id l.executions

abbrev pub request_of :
    Text → Option LiveExecutionRecord → LiveExecutions → LiveExecutions × Option LiveExecutionRecord
request_of id none l = (l, none)
request_of id (some r) l =
    let requested = record r { cancel_requested = true } in
    (record l { executions = set id requested l.executions }, some requested)

pub request_cancellation : Text → LiveExecutions → LiveExecutions × Option LiveExecutionRecord
request_cancellation id l = request_of id (get id l.executions) l

-- `abort`, which does nothing to a controller that is aborted.
abbrev pub abort : AbortReason → Option AbortReason → Option AbortReason
abort reason none = some reason
abort reason (some earlier) = some earlier

pub abort_each :
    AbortReason → Dict LiveExecutionRecord → List (Option AbortReason) → List (Option AbortReason)
abort_each reason [] signals = signals
abort_each reason ((id, r) ∷ rest) signals =
    abort_each reason rest (update_at r.abort_controller (abort reason) signals)

pub shutdown_all : AbortReason → LiveExecutions → LiveExecutions
unfolding abort_each
shutdown_all reason l = record l {
  executions = [];
  signals = abort_each reason l.executions l.signals;
}

pub cleanup : Text → LiveExecutions → LiveExecutions
cleanup id l = record l { executions = delete id l.executions }
