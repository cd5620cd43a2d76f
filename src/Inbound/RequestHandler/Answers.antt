-- ===== src/Inbound/RequestHandler/Answers.antt =====
-- What the three ways to answer have in common, and where they differ.
mod Examples
use openclaw_a2a_plugins.Base.{
  ◌≡◌, refl, sym, ap, ◌∙◌, Bool, true, false, ◌||◌, Option, none, some, List, [], ◌∷◌, arith, any,
  or_option, if◌then◌else◌, inl, inr,
}
use mathlib.Core.Option
use openclaw_a2a_plugins.Base.Results.{Result, ok, err, on_result, Result-cases}
use openclaw_a2a_plugins.Inbound.Protocol.{Message, Task}
use openclaw_a2a_plugins.Inbound.TaskStore.{Store, load}
use openclaw_a2a_plugins.Inbound.Coordinator.{
  BusEvent, bus_message, bus_task, bus_status, bus_artifact,
}
use openclaw_a2a_plugins.Inbound.RequestHandler.{
  HandlerError, no_result, not_found_after_execution, commit_execution_event, is_durable,
}
use openclaw_a2a_plugins.Inbound.RequestHandler.Executions.{
  Turn, event, others, Execution, Reply, reply_message, reply_task, settled, loaded, Blocking,
  final_of, blocking_loop, blocking_answer, non_blocking_answer, process_blocking_execution,
  NonBlocking, first_result, non_blocking_loop, process_non_blocking_execution, Streamed, yield,
  stream_loop, send_message_stream,
}

-- The events are committed one after another, up to the first that cannot be.
pub record Commits : Type 0 where
  pub store : Store
  pub committed : List BusEvent
  pub failure : Option HandlerError

abbrev and_before : BusEvent → Commits → Commits
and_before e c = record c { committed = e ∷ c.committed }

pub commit_turns : Message → List Turn → Store → Commits
commit_turns latest [] s = record { store = s; committed = []; failure = none }
commit_turns latest (others f ∷ turns) s = commit_turns latest turns (f s)
commit_turns latest (event e ∷ turns) s =
    let (s', result) = commit_execution_event e (some latest) s in
    on_result result (λ x. record { store = s'; committed = []; failure = some x })
      (λ c. and_before c (commit_turns latest turns s'))

-- The last message and the first message or task of a list of events.
abbrev pub last_message : List BusEvent → Option Message
last_message [] = none
last_message (e ∷ es) = or_option (last_message es) (final_of e none)

abbrev pub first_reply : List BusEvent → Option Reply
first_reply [] = none
first_reply (e ∷ es) = or_option (first_result e) (first_reply es)

abbrev blocking_of : Option HandlerError → Option Message → Result HandlerError (Option Message)
blocking_of none final = ok final
blocking_of (some e) final = err e

abbrev after_all : Option Message → Bool → Commits → Blocking
after_all final durable c = record {
  store = c.store;
  saw_durable_event = durable || any is_durable c.committed;
  final_message = blocking_of c.failure (or_option (last_message c.committed) final);
}

after_all-step :
    (final : Option Message) (durable : Bool) (e : BusEvent) (c : Commits)
    → after_all (final_of e final) (durable || is_durable e) c
      ≡ after_all final durable (and_before e c)
after_all-step final durable (bus_message m) c = ground arith
after_all-step final durable (bus_task t) c = ground arith
after_all-step final durable (bus_status e) c = ground arith
after_all-step final durable (bus_artifact e) c = ground arith

blocking_loop-commit_turns :
    (latest : Message) (turns : List Turn) (final : Option Message) (durable : Bool) (s : Store)
    → blocking_loop latest turns final durable s
      ≡ after_all final durable (commit_turns latest turns s)
unfolding blocking_loop commit_turns
blocking_loop-commit_turns latest [] final durable s = ground arith
blocking_loop-commit_turns latest (others f ∷ turns) final durable s =
    blocking_loop-commit_turns latest turns final durable (f s)
blocking_loop-commit_turns latest (event e ∷ turns) final durable s =
    let s' = (commit_execution_event e (some latest) s).0 in
    elim (Result-cases (commit_execution_event e (some latest) s).1) [
      | inl (c, good) ↦ rw good (
          blocking_loop-commit_turns latest turns (final_of c final) (durable || is_durable c) s'
          ∙ after_all-step final durable c (commit_turns latest turns s'))
      | inr (x, bad) ↦ rw bad (ground arith)
    ]

abbrev non_blocking_after : Option Reply → Bool → Commits → NonBlocking
non_blocking_after answered durable c = record {
  store = c.store;
  saw_durable_event = durable || any is_durable c.committed;
  answered = or_option answered (first_reply c.committed);
  failure = c.failure;
}

non_blocking_after-step :
    (answered : Option Reply) (durable : Bool) (e : BusEvent) (c : Commits)
    → non_blocking_after (or_option answered (first_result e)) (durable || is_durable e) c
      ≡ non_blocking_after answered durable (and_before e c)
non_blocking_after-step answered durable (bus_message m) c = ground arith
non_blocking_after-step answered durable (bus_task t) c = ground arith
non_blocking_after-step answered durable (bus_status e) c = ground arith
non_blocking_after-step answered durable (bus_artifact e) c = ground arith

non_blocking_loop-commit_turns :
    (latest : Message) (turns : List Turn) (answered : Option Reply) (durable : Bool) (s : Store)
    → non_blocking_loop latest turns answered durable s
      ≡ non_blocking_after answered durable (commit_turns latest turns s)
unfolding non_blocking_loop commit_turns
non_blocking_loop-commit_turns latest [] answered durable s = ground arith
non_blocking_loop-commit_turns latest (others f ∷ turns) answered durable s =
    non_blocking_loop-commit_turns latest turns answered durable (f s)
non_blocking_loop-commit_turns latest (event e ∷ turns) answered durable s =
    let s' = (commit_execution_event e (some latest) s).0 in
    elim (Result-cases (commit_execution_event e (some latest) s).1) [
      | inl (c, good) ↦ rw good (
          non_blocking_loop-commit_turns latest turns (or_option answered (first_result c))
            (durable || is_durable c) s'
          ∙ non_blocking_after-step answered durable c (commit_turns latest turns s'))
      | inr (x, bad) ↦ rw bad (ground arith)
    ]

abbrev streamed_of : Option HandlerError → Bool → Commits → Streamed
streamed_of rejection durable c = record {
  store = c.store;
  saw_durable_event = durable || any is_durable c.committed;
  yielded = c.committed;
  failure = or_option c.failure rejection;
}

stream_loop-commit_turns :
    (latest : Message) (rejection : Option HandlerError) (turns : List Turn) (durable : Bool)
    (s : Store)
    → stream_loop latest rejection none turns durable s
      ≡ streamed_of rejection durable (commit_turns latest turns s)
unfolding stream_loop commit_turns
stream_loop-commit_turns latest rejection [] durable s = ground arith
stream_loop-commit_turns latest rejection (others f ∷ turns) durable s =
    stream_loop-commit_turns latest rejection turns durable (f s)
stream_loop-commit_turns latest rejection (event e ∷ turns) durable s =
    let s' = (commit_execution_event e (some latest) s).0 in
    elim (Result-cases (commit_execution_event e (some latest) s).1) [
      | inl (c, good) ↦ rw good (
          ap (yield c)
            (stream_loop-commit_turns latest rejection turns (durable || is_durable c) s')
          ∙ ground arith)
      | inr (x, bad) ↦ rw bad (ground arith)
    ]

-- An answer where a failure counts first, and one where a reply that was given counts first.
abbrev pub by_failure :
    Option HandlerError → Option Reply → Result HandlerError Reply → Result HandlerError Reply
by_failure (some e) reply rest = err e
by_failure none (some r) rest = ok r
by_failure none none rest = rest

abbrev pub by_reply :
    Option Reply → Option HandlerError → Result HandlerError Reply → Result HandlerError Reply
by_reply (some r) failure rest = ok r
by_reply none (some e) rest = err e
by_reply none none rest = rest

abbrev pub stored_task : Execution → HandlerError → Commits → Result HandlerError Reply
stored_task x e c = loaded e (load x.task_id (x.late c.store))

blocking_answer_lem :
    (x : Execution) (s : Store) (last : Option Message) (failure rejection : Option HandlerError)
    → (blocking_answer x s (blocking_of failure (or_option last none)) rejection).1
      ≡ by_failure
          (or_option failure rejection)
          (Option.map reply_message last)
          (loaded (not_found_after_execution x.task_id) (load x.task_id (x.late s)))
blocking_answer_lem x s none none none = refl
blocking_answer_lem x s (some m) none none = refl
blocking_answer_lem x s none none (some e) = refl
blocking_answer_lem x s (some m) none (some e) = refl
blocking_answer_lem x s last (some e) rejection = refl

non_blocking_answer_lem :
    (x : Execution) (s : Store) (reply : Option Reply) (failure : Option HandlerError)
    → (non_blocking_answer x s reply failure).1
      ≡ by_reply reply failure (loaded no_result (load x.task_id (x.late s)))
non_blocking_answer_lem x s (some r) failure = refl
non_blocking_answer_lem x s none (some e) = refl
non_blocking_answer_lem x s none none = refl

-- The events of an execution are committed in order, up to the first that cannot be. A stream that
-- the client does not leave yields just those that were, and fails if a commit or the execution
-- did. A blocking request fails then too; else it answers the last message, or the task as it is
-- stored by then. A non-blocking request answers the first message or task that was committed,
-- whatever fails later; if there is none it fails likewise, or answers the stored task.
pub process_execution_lem :
    (x : Execution) (s : Store)
    → let c = commit_turns x.latest_user_message x.turns s in
      let failure = or_option c.failure x.rejection in
      ((send_message_stream x none s).yielded ≡ c.committed)
      × ((send_message_stream x none s).failure ≡ failure)
      × ((process_blocking_execution x s).1
          ≡ by_failure failure
              (Option.map reply_message (last_message c.committed))
              (stored_task x (not_found_after_execution x.task_id) c))
      × ((process_non_blocking_execution x s).1
          ≡ by_reply (first_reply c.committed) failure (stored_task x no_result c))
unfolding send_message_stream process_blocking_execution process_non_blocking_execution
process_execution_lem x s =
    let m = x.latest_user_message in
    let c = commit_turns m x.turns s in
    (
      ap (λ (r : Streamed). r.yielded) (stream_loop-commit_turns m x.rejection x.turns false s),
      ap (λ (r : Streamed). r.failure) (stream_loop-commit_turns m x.rejection x.turns false s),
      ap (λ (b : Blocking). (blocking_answer x b.store b.final_message x.rejection).1)
            (blocking_loop-commit_turns m x.turns none false s)
          ∙ blocking_answer_lem x c.store (last_message c.committed) c.failure x.rejection,
      ap
            (λ (n : NonBlocking).
              (non_blocking_answer x n.store n.answered (or_option n.failure x.rejection)).1)
            (non_blocking_loop-commit_turns m x.turns none false s)
          ∙ non_blocking_answer_lem x c.store (first_reply c.committed)
              (or_option c.failure x.rejection),
    )

blocking_answer-store :
    (x : Execution) (s : Store) (r : Result HandlerError (Option Message))
    (rejection : Option HandlerError)
    → ((u : Store) → x.late u ≡ u)
    → (blocking_answer x s r rejection).0 ≡ s
blocking_answer-store x s (err e) rejection quiet = refl
blocking_answer-store x s (ok final) (some e) quiet = refl
blocking_answer-store x s (ok (some m)) none quiet = refl
blocking_answer-store x s (ok none) none quiet = quiet s

non_blocking_answer-store :
    (x : Execution) (s : Store) (reply : Option Reply) (failure : Option HandlerError)
    → ((u : Store) → x.late u ≡ u)
    → (non_blocking_answer x s reply failure).0 ≡ s
non_blocking_answer-store x s (some r) failure quiet = refl
non_blocking_answer-store x s none (some e) quiet = refl
non_blocking_answer-store x s none none quiet = quiet s

-- However the request is answered, the same execution leaves the same store: all events that could
-- be committed are, and a binding that is pending is dropped if none of them was an event of a
-- task. The client of a stream stays, and nobody else writes between the end and the load.
pub process_execution-store :
    (x : Execution) (s : Store)
    → ((u : Store) → x.late u ≡ u)
    → let c = commit_turns x.latest_user_message x.turns s in
      let left = settled (any is_durable c.committed) x.task_id c.store in
      ((process_blocking_execution x s).0 ≡ left)
      × ((process_non_blocking_execution x s).0 ≡ left)
      × ((send_message_stream x none s).store ≡ left)
unfolding send_message_stream process_blocking_execution process_non_blocking_execution
process_execution-store x s quiet =
    let m = x.latest_user_message in
    let c = commit_turns m x.turns s in
    let settle = λ (durable : Bool) (u : Store). settled durable x.task_id u in
    (
      ap
            (λ (b : Blocking).
              settle b.saw_durable_event (blocking_answer x b.store b.final_message x.rejection).0)
            (blocking_loop-commit_turns m x.turns none false s)
          ∙ ap (settle (any is_durable c.committed)) (
              blocking_answer-store x c.store
                (blocking_of c.failure (or_option (last_message c.committed) none)) x.rejection
                quiet),
      ap
            (λ (n : NonBlocking).
              settle n.saw_durable_event
                (non_blocking_answer x n.store n.answered (or_option n.failure x.rejection)).0)
            (non_blocking_loop-commit_turns m x.turns none false s)
          ∙ ap (settle (any is_durable c.committed)) (
              non_blocking_answer-store x c.store (first_reply c.committed)
                (or_option c.failure x.rejection) quiet),
      ap (λ (r : Streamed). settle r.saw_durable_event r.store)
          (stream_loop-commit_turns m x.rejection x.turns false s),
    )
