-- ===== src/Inbound/LiveExecutions/Cancellation.antt =====
-- Requests to cancel a live execution.
mod Examples
use openclaw_a2a_plugins.Base.{
  ℕ, ◌≡◌, refl, ap, ◌∙◌, Bool, true, false, Option, none, some, List, [], ◌∷◌, arith, All, is_some,
  get_elem?, get_elem?-update_at, get_elem?-update_at_ne, update_at, Option-cases, Bool-cases, inl,
  inr, ◌==◌, ==_iff,
}
use openclaw_a2a_plugins.Base.Text.{Text, text_eq, text_eq_iff}
use openclaw_a2a_plugins.Base.Dict.{Dict, get, set, delete, has, get-set, get-delete}
use openclaw_a2a_plugins.Inbound.LiveExecutions.{
  LiveExecutions, LiveExecutionRecord, AbortReason, abort, activate, activated, find, is_live,
  request_cancellation, request_of, cleanup, shutdown_all, abort_each, InitialResponseMode,
  set_request_mode, clear_request_mode,
}

-- The calls that change the registry.
pub data Call : Type 0 where
  activates : (id context : Text) (controller : ℕ) (cancel : Option ℕ) → Call
  requests : Text → Call
  cleans_up : Text → Call
  shuts_down : AbortReason → Call
  sets_mode : Text → InitialResponseMode → Call
  clears_mode : Text → Call

pub call : LiveExecutions → Call → LiveExecutions
call l (activates id context controller cancel) = (activate id context controller cancel l).0
call l (requests id) = (request_cancellation id l).0
call l (cleans_up id) = cleanup id l
call l (shuts_down reason) = shutdown_all reason l
call l (sets_mode id mode) = set_request_mode id mode l
call l (clears_mode id) = clear_request_mode id l

abbrev pub requested : Option LiveExecutionRecord → Bool
requested none = false
requested (some r) = r.cancel_requested

-- Whether a call ends the life of the task: its cleanup, or a shutdown of all.
abbrev pub Ends : Text → Call → Type 0
Ends id (cleans_up k) = k ≡ id
Ends id (shuts_down reason) = Unit
Ends id _ = ⊥

requested-request_of :
    (id k : Text) (o : Option LiveExecutionRecord) (l : LiveExecutions)
    → get k l.executions ≡ o
    → requested (get id l.executions) ≡ true
    → requested (get id (request_of k o l).0.executions) ≡ true
requested-request_of id k none l e h = h
requested-request_of id k (some r) l e h =
    ground
      (arith, text_eq_iff k id, get-set k id (record r { cancel_requested = true }) l.executions)

-- Activating a task again keeps the request, and another task does not matter.
requested-set-activated :
    (id k context : Text) (controller : ℕ) (cancel : Option ℕ) (o : Option LiveExecutionRecord)
    (l : LiveExecutions)
    → get k l.executions ≡ o
    → requested (get id l.executions) ≡ true
    → requested (get id (set k (activated k context controller cancel o) l.executions)) ≡ true
requested-set-activated id k context controller cancel none l e h = ground (
  arith,
  text_eq_iff k id,
  get-set k id (activated k context controller cancel none) l.executions,
)
requested-set-activated id k context controller cancel (some r) l e h = ground (
  arith,
  text_eq_iff k id,
  get-set k id (activated k context controller cancel (some r)) l.executions,
)

requested-call :
    (id : Text) (l : LiveExecutions) (c : Call)
    → ¬ Ends id c
    → requested (get id l.executions) ≡ true
    → requested (get id (call l c).executions) ≡ true
unfolding call activate request_cancellation cleanup set_request_mode clear_request_mode
requested-call id l (activates k context controller cancel) n h =
    requested-set-activated id k context controller cancel (get k l.executions) l refl h
requested-call id l (requests k) n h = requested-request_of id k (get k l.executions) l refl h
requested-call id l (cleans_up k) n h =
    ground (arith, get-delete k id l.executions, text_eq_iff k id)
requested-call id l (shuts_down reason) n h = absurd (n tt)
requested-call id l (sets_mode k mode) n h = h
requested-call id l (clears_mode k) n h = h

pub calls : LiveExecutions → List Call → LiveExecutions
unfolding call
calls l [] = l
calls l (c ∷ cs) = calls (call l c) cs

requested-calls :
    (id : Text) (l : LiveExecutions) (cs : List Call)
    → All (λ c. ¬ Ends id c) cs
    → requested (get id l.executions) ≡ true
    → requested (get id (calls l cs).executions) ≡ true
unfolding calls
requested-calls id l [] n h = h
requested-calls id l (c ∷ cs) (n, ns) h =
    requested-calls id (call l c) cs ns (requested-call id l c n h)

-- A request to cancel a live task is not forgotten: it stands through later calls, a second
-- activation of the task included, until the task is cleaned up or all executions are shut down.
pub request_cancellation-calls :
    (id : Text) (l : LiveExecutions) (cs : List Call)
    → is_live id l ≡ true
    → All (λ c. ¬ Ends id c) cs
    → requested (find id (calls (request_cancellation id l).0 cs)) ≡ true
unfolding find is_live has request_cancellation
request_cancellation-calls id l cs live ok = elim (Option-cases (get id l.executions)) [
  | inl absent ↦ absurd (ground (arith, absent, live))
  | inr (r, found) ↦ requested-calls id _ cs ok (
      rw found (
        ground (
          arith,
          text_eq_iff id id,
          get-set id id (record r { cancel_requested = true }) l.executions,
        )))
]

abort_each-stays :
    (reason earlier : AbortReason) (d : Dict LiveExecutionRecord) (i : ℕ)
    (signals : List (Option AbortReason))
    → get_elem? signals i ≡ some (some earlier)
    → get_elem? (abort_each reason d signals) i ≡ some (some earlier)
unfolding abort_each
abort_each-stays reason earlier [] i signals h = h
abort_each-stays reason earlier ((id, r) ∷ d) i signals h =
    abort_each-stays reason earlier d i (update_at r.abort_controller (abort reason) signals)
      (elim (Bool-cases (r.abort_controller == i)) [
        | inl same ↦
            rw ((==_iff r.abort_controller i).0 same)
              (get_elem?-update_at i (abort reason) signals h)
        | inr other ↦
            get_elem?-update_at_ne r.abort_controller i (abort reason) signals
              (λ e. ground (arith, ==_iff r.abort_controller i))
            ∙ h
      ])

abbrev IsAborted : List (Option AbortReason) → Text × LiveExecutionRecord → Type 0
IsAborted signals (id, r) =
    (reason : AbortReason) × (get_elem? signals r.abort_controller ≡ some (some reason))

-- The controllers of the records are on the heap.
abbrev HasController : List (Option AbortReason) → Text × LiveExecutionRecord → Type 0
HasController signals (id, r) =
    (signal : Option AbortReason) × (get_elem? signals r.abort_controller ≡ some signal)

HasController-aborted :
    (reason : AbortReason) (i : ℕ) (d : Dict LiveExecutionRecord)
    (signals : List (Option AbortReason))
    → All (HasController signals) d
    → All (HasController (update_at i (abort reason) signals)) d
HasController-aborted reason i [] signals h = tt
HasController-aborted reason i ((id, r) ∷ d) signals ((b, found), h) = (
  elim (Bool-cases (i == r.abort_controller)) [
    | inl same ↦ (
      abort reason b,
      rw ((==_iff i r.abort_controller).0 same)
          (get_elem?-update_at r.abort_controller (abort reason) signals found),
    )
    | inr other ↦ (
      b,
      get_elem?-update_at_ne i r.abort_controller (abort reason) signals
            (λ e. ground (arith, ==_iff i r.abort_controller))
          ∙ found,
    )
  ],
  HasController-aborted reason i d signals h,
)

aborted_somehow :
    (reason : AbortReason) (signal : Option AbortReason)
    → (earlier : AbortReason) × (abort reason signal ≡ some earlier)
aborted_somehow reason none = (reason, refl)
aborted_somehow reason (some earlier) = (earlier, refl)

abort_each-IsAborted :
    (reason : AbortReason) (d : Dict LiveExecutionRecord) (signals : List (Option AbortReason))
    → All (HasController signals) d
    → All (IsAborted (abort_each reason d signals)) d
unfolding abort_each
abort_each-IsAborted reason [] signals h = tt
abort_each-IsAborted reason ((id, r) ∷ d) signals ((b, found), h) =
    let after = update_at r.abort_controller (abort reason) signals in
    let (why, is_why) = aborted_somehow reason b in
    (
      (
        why,
        abort_each-stays reason why d r.abort_controller after
            (get_elem?-update_at r.abort_controller (abort reason) signals found ∙ ap some is_why),
      ),
      abort_each-IsAborted reason d after
          (HasController-aborted reason r.abort_controller d signals h),
    )

-- A shutdown aborts the controller of every live execution, leaves none live, forgets no request
-- mode, and keeps the reason of a controller that was aborted before.
pub shutdown_all_lem :
    (reason earlier : AbortReason) (l : LiveExecutions) (id : Text) (i : ℕ)
    → All (HasController l.signals) l.executions
    → get_elem? l.signals i ≡ some (some earlier)
    → let after = shutdown_all reason l in
      All (IsAborted after.signals) l.executions
      × (is_live id after ≡ false)
      × (after.request_modes ≡ l.request_modes)
      × (get_elem? after.signals i ≡ some (some earlier))
unfolding shutdown_all is_live has get
shutdown_all_lem reason earlier l id i h before = (
  abort_each-IsAborted reason l.executions l.signals h,
  refl,
  refl,
  abort_each-stays reason earlier l.executions i l.signals before,
)
