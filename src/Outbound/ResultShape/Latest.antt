-- ===== src/Outbound/ResultShape/Latest.antt =====
-- What the summary of a stream says of its task: the last that any event told.
use openclaw_a2a_plugins.Base.{
  ◌≡◌, refl, Bool, true, not, Option, none, some, List, [], ◌∷◌, arith, ◌∙◌, ap, or_option, any,
  keep, Bool-cases, inl, inr,
}
use mathlib.Core.Option
use openclaw_a2a_plugins.Base.Text.{Text}
use openclaw_a2a_plugins.Base.Results.{ok}
use openclaw_a2a_plugins.Outbound.Targets.{ResolvedTarget}
use openclaw_a2a_plugins.Outbound.ResultShape.Events.{
  StreamEvent, message, task, status_update, artifact_update, is_terminal_task_status,
}
use openclaw_a2a_plugins.Outbound.ResultShape.Summaries.{
  Summary, SummaryTaskContext, Continuation, TaskContinuation, task_kind, continuation_summary,
  task_continuation, may_stream, continuation_of, continuation_target_of,
}
use openclaw_a2a_plugins.Outbound.ResultShape.Streams.{
  AccumulatedTaskState, nothing_yet, is_task_bearing_event, accumulate_event, accumulate,
  accumulate_task_state, state_summary, summarize_stream_events,
}

-- The last that the events of a list tell, if any tells.
abbrev pub last_told : {A : Type 0} → (StreamEvent → Option A) → List StreamEvent → Option A
last_told f [] = none
last_told f (e ∷ es) = or_option (last_told f es) (f e)

abbrev pub status_told : StreamEvent → Option Text
status_told (task t) = some t.state
status_told (status_update e) = some e.state
status_told _ = none

abbrev pub task_id_told : StreamEvent → Option Text
task_id_told (message m) = m.task_id
task_id_told (task t) = some t.id
task_id_told (status_update e) = e.task_id
task_id_told (artifact_update e) = e.task_id

accumulate-status :
    (s : AccumulatedTaskState) (es : List StreamEvent)
    → (accumulate s es).latest_status ≡ or_option (last_told status_told es) s.latest_status
unfolding accumulate_event
accumulate-status s [] = refl
accumulate-status s (message m ∷ es) =
    ground (arith, accumulate-status (accumulate_event s (message m)) es)
accumulate-status s (task t ∷ es) =
    ground (arith, accumulate-status (accumulate_event s (task t)) es)
accumulate-status s (status_update e ∷ es) =
    ground (arith, accumulate-status (accumulate_event s (status_update e)) es)
accumulate-status s (artifact_update e ∷ es) =
    ground (arith, accumulate-status (accumulate_event s (artifact_update e)) es)

accumulate-task_id :
    (s : AccumulatedTaskState) (es : List StreamEvent)
    → (accumulate s es).latest_task_id ≡ or_option (last_told task_id_told es) s.latest_task_id
unfolding accumulate_event
accumulate-task_id s [] = refl
accumulate-task_id s (message m ∷ es) =
    ground (arith, accumulate-task_id (accumulate_event s (message m)) es)
accumulate-task_id s (task t ∷ es) =
    ground (arith, accumulate-task_id (accumulate_event s (task t)) es)
accumulate-task_id s (status_update e ∷ es) =
    ground (arith, accumulate-task_id (accumulate_event s (status_update e)) es)
accumulate-task_id s (artifact_update e ∷ es) =
    ground (arith, accumulate-task_id (accumulate_event s (artifact_update e)) es)

or_option-none : {A : Type 0} (o : Option A) → or_option o none ≡ o
or_option-none none = refl
or_option-none (some a) = refl

keep-any :
    {A : Type 0} (p : A → Bool) (xs : List A)
    → any p xs ≡ true
    → (x : A) × (rest : List A) × (keep p xs ≡ x ∷ rest)
keep-any p [] h = cc
keep-any p (x ∷ xs) h = elim (Bool-cases (p x)) [
  | inl passes ↦ (x, keep p xs, ground (arith, passes))
  | inr fails ↦
      let (y, rest, split) = keep-any p xs (ground (arith, fails)) in
      (y, rest, ground (arith, fails, split))
]

-- A stream with an event of a task is always summarised, by what its events add up to.
summarize_stream_events-task :
    (target : ResolvedTarget) (es : List StreamEvent) (context : SummaryTaskContext)
    → any is_task_bearing_event es ≡ true
    → summarize_stream_events target es context
      ≡ ok (state_summary target (accumulate_task_state es) context)
unfolding summarize_stream_events
summarize_stream_events-task target [] context h = cc
summarize_stream_events-task target (e ∷ es) context h =
    let (x, rest, split) = keep-any is_task_bearing_event (e ∷ es) h in rw split refl

-- If an event of a stream is of a task and one names its id, the stream is summarised with response
-- kind task. The summary continues the task with the id that was named last and the status that was
-- told last, if any; sending to the task and cancelling it are offered exactly if that is no
-- terminal status, and watching it unless the target is known not to stream.
pub summarize_stream_events_lem :
    (target : ResolvedTarget) (es : List StreamEvent) (context : SummaryTaskContext) (id : Text)
    → any is_task_bearing_event es ≡ true
    → last_told task_id_told es ≡ some id
    → (s : Summary) × (c : Continuation) × (t : TaskContinuation) × (summarize_stream_events target
          es context
        ≡ ok s)
      × (s.response_kind ≡ some task_kind)
      × (s.continuation ≡ some c)
      × (c.task ≡ some t)
      × (t.task_id ≡ id)
      × (t.status ≡ last_told status_told es)
      × (t.can_send ≡ not (is_terminal_task_status (last_told status_told es)))
      × (t.can_cancel ≡ t.can_send)
      × (t.can_watch ≡ may_stream target.streaming_supported)
unfolding accumulate_task_state continuation_summary
summarize_stream_events_lem target es context id bears named =
    let state = accumulate_task_state es in
    let status : state.latest_status ≡ last_told status_told es =
      accumulate-status nothing_yet es ∙ or_option-none (last_told status_told es) in
    let told : or_option state.latest_task_id context.task_id ≡ some id =
      ground (arith, accumulate-task_id nothing_yet es) in
    let t = task_continuation target context.task_handle state.latest_status id in
    let c : Continuation = record {
      target = continuation_target_of target;
      task = some t;
      conversation = or_option state.latest_context_id context.context_id;
    } in
    (
      state_summary target state context,
      c,
      t,
      summarize_stream_events-task target es context bears,
      refl,
      ap
          (λ o.
            continuation_of target
              (Option.map (task_continuation target context.task_handle state.latest_status) o)
              (or_option state.latest_context_id context.context_id))
          told,
      refl,
      refl,
      status,
      ap (λ o. not (is_terminal_task_status o)) status,
      refl,
      refl,
    )
