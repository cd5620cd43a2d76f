-- ===== src/Inbound/RequestHandler/Contexts.antt =====
-- `createRequestContext`, `filterRequestedExtensions` and `bootstrapExecution` of
-- packages/openclaw-a2a-inbound/src/request-handler.ts. The extensions that the agent card exposes
-- are an argument.
pub mod Resumptions
mod Examples
use openclaw_a2a_plugins.Base.{
  ℕ, ◌+◌, Bool, true, false, not, Option, none, some, List, [], ◌∷◌, keep, is_some, or_else,
  or_option, if◌then◌else◌,
}
use mathlib.Core.Option
use openclaw_a2a_plugins.Base.Text.{Text, text_eq}
use openclaw_a2a_plugins.Base.Strings.{is_filled}
use openclaw_a2a_plugins.Base.Results.{Result, ok, err}
use openclaw_a2a_plugins.Inbound.Protocol.{Json, Message, Task}
use openclaw_a2a_plugins.Inbound.TaskStates.{is_terminal_task_state}
use openclaw_a2a_plugins.Inbound.TaskStore.{
  Store, StoredTaskBinding, load, load_binding, persist_incoming_message,
}
use openclaw_a2a_plugins.Inbound.LiveExecutions.{
  LiveExecutions, InitialResponseMode, set_request_mode, clear_request_mode,
}
use openclaw_a2a_plugins.Inbound.Replies.{Ambient, is_member, normalize_output_modes, truthy_text}
use openclaw_a2a_plugins.Inbound.SessionRouting.Parts.{PartError, validate_inbound_message_parts}
use openclaw_a2a_plugins.Inbound.RequestHandler.{
  HandlerError, task_not_found, message_id_required, refused_part, other_context, no_binding,
  terminal_task,
}

pub record CallContext : Type 0 where
  pub requested_extensions : Option (List Text)
  pub user_name : Option Text

-- A message as it came: its parts are also there as JSON, and it names the tasks that it refers to.
pub record Incoming : Type 0 where
  pub message : Message
  pub parts : List Json
  pub reference_task_ids : List Text
  pub accepted_output_modes : Option (List Text)

pub record RequestContext : Type 0 where
  pub user_message : Message
  pub task_id : Text
  pub context_id : Text
  pub task : Option Task
  pub reference_tasks : Option (List Task)
  pub call_context : Option CallContext
  pub original_message : Message
  pub accepted_output_modes : List Text

abbrev filtered : List Text → Option (List Text) → CallContext → CallContext
filtered exposed none c = c
filtered exposed (some requested) c = record c {
  requested_extensions = some (keep (λ e. is_member e exposed) requested);
}

abbrev filter_requested_extensions : List Text → Option CallContext → Option CallContext
filter_requested_extensions exposed none = none
filter_requested_extensions exposed (some c) = some (filtered exposed c.requested_extensions c)

abbrev pub same_context : Option Text → Text → Bool
same_context none k = true
same_context (some c) k = text_eq c k

abbrev resolve_accepted_output_modes : Ambient → List Text → Option (List Text) → List Text
resolve_accepted_output_modes a defaults none = defaults
resolve_accepted_output_modes a defaults (some modes) = normalize_output_modes a modes

abbrev persisted : Text → Store × Option Task → Store × Result HandlerError Task
persisted id (s, none) = (s, err (task_not_found id))
persisted id (s, some t) = (s, ok t)

abbrev and_task : Option Task → List Task → List Task
and_task none ts = ts
and_task (some t) ts = t ∷ ts

abbrev task_context : Option Task → Option Text
task_context none = none
task_context (some t) = some t.context_id

abbrev context_with :
    Ambient
    → ℕ
    → List Text
    → Option CallContext
    → List Text
    → Incoming
    → Option Task
    → Store × Option (List Task)
    → Store × Result HandlerError RequestContext
context_with a n exposed call modes incoming task (s, references) =
    let m = incoming.message in
    let task_id = or_else m.task_id (a.uuid n) in
    let context_id = or_else (or_option m.context_id (task_context task)) (a.uuid (n + 1)) in
    (
      s,
      ok (record {
        user_message = record m { context_id = some context_id; task_id = some task_id };
        task_id = task_id;
        context_id = context_id;
        task = task;
        reference_tasks = references;
        call_context = filter_requested_extensions exposed call;
        original_message = m;
        accepted_output_modes = modes;
      }),
    )

abbrev pub bootstrapped :
    Text
    → LiveExecutions
    → Store × Result HandlerError RequestContext
    → Store × LiveExecutions × Result HandlerError RequestContext
bootstrapped id live (s, ok context) = (s, live, ok context)
bootstrapped id live (s, err e) = (s, clear_request_mode id live, err e)

abbrev pub if_valid :
    Result PartError (Unit {0})
    → Store × LiveExecutions × Result HandlerError RequestContext
    → Store
    → LiveExecutions
    → Store × LiveExecutions × Result HandlerError RequestContext
if_valid (err e) rest s live = (s, live, err (refused_part e))
if_valid (ok u) rest s live = rest

-- `others n` is what others do to the store before the n-th call of it.
module _ (others : ℕ → Store → Store) where
  abbrev pub with_binding :
      Text → Message → Task → Option StoredTaskBinding → Store → Store × Result HandlerError Task
  with_binding id m t none s = (s, err (no_binding t.id))
  with_binding id m t (some b) s =
      if is_terminal_task_state t.status.state
      then (s, err (terminal_task t.id t.status.state))
      else persisted id (persist_incoming_message id m (others 2 s))

  abbrev pub with_task : Text → Message → Option Task → Store → Store × Result HandlerError Task
  with_task id m none s = (s, err (task_not_found id))
  with_task id m (some t) s =
      if same_context m.context_id t.context_id
      then with_binding id m t (load_binding id (others 1 s)) (others 1 s)
      else (s, err (other_context t.id))

  -- The part of `createRequestContext` for a message that names a task.
  unfoldable pub resume_task : Text → Message → Store → Store × Result HandlerError Task
  resume_task id m s = with_task id m (load id (others 0 s)) (others 0 s)

  unfoldable pub reference_tasks_from : ℕ → List Text → Store → Store × List Task
  reference_tasks_from n [] s = (s, [])
  reference_tasks_from n (id ∷ ids) s =
      let here = others n s in
      let (s', ts) = reference_tasks_from (n + 1) ids here in (s', and_task (load id here) ts)

  abbrev reference_tasks_of : List Text → Store → Store × Option (List Task)
  reference_tasks_of [] s = (s, none)
  reference_tasks_of (id ∷ ids) s =
      let (s', ts) = reference_tasks_from 3 (id ∷ ids) s in (s', some ts)

  abbrev after_resumption :
      Ambient
      → ℕ
      → List Text
      → Option CallContext
      → List Text
      → Incoming
      → Store × Result HandlerError Task
      → Store × Result HandlerError RequestContext
  after_resumption a n exposed call modes incoming (s, err e) = (s, err e)
  after_resumption a n exposed call modes incoming (s, ok t) =
      context_with a n exposed call modes incoming (some t)
        (reference_tasks_of incoming.reference_task_ids s)

  abbrev by_task_id :
      Ambient
      → ℕ
      → List Text
      → Option CallContext
      → List Text
      → Incoming
      → Option Text
      → Store
      → Store × Result HandlerError RequestContext
  by_task_id a n exposed call modes incoming none s =
      context_with a n exposed call modes incoming none
        (reference_tasks_of incoming.reference_task_ids s)
  by_task_id a n exposed call modes incoming (some id) s =
      after_resumption a n exposed call modes incoming (resume_task id incoming.message s)

  -- An empty task id counts as none, but it is then the id of the new task.
  unfoldable pub create_request_context :
      Ambient
      → ℕ
      → List Text
      → Option CallContext
      → List Text
      → Incoming
      → Store
      → Store × Result HandlerError RequestContext
  create_request_context a n exposed call modes incoming s =
      by_task_id a n exposed call modes incoming (truthy_text incoming.message.task_id) s

  abbrev pub with_id :
      Ambient
      → ℕ
      → List Text
      → List Text
      → InitialResponseMode
      → Option CallContext
      → Incoming
      → Text
      → Store
      → LiveExecutions
      → Store × LiveExecutions × Result HandlerError RequestContext
  with_id a n exposed defaults mode call incoming [] s live = (s, live, err message_id_required)
  with_id a n exposed defaults mode call incoming (c ∷ id) s live =
      bootstrapped (c ∷ id) (set_request_mode (c ∷ id) mode live) (
        create_request_context a n exposed call
          (resolve_accepted_output_modes a defaults incoming.accepted_output_modes) incoming s)

  -- Up to the start of the execution.
  unfoldable pub bootstrap_execution :
      Ambient
      → ℕ
      → List Text
      → List Text
      → InitialResponseMode
      → Option CallContext
      → Incoming
      → Store
      → LiveExecutions
      → Store × LiveExecutions × Result HandlerError RequestContext
  bootstrap_execution a n exposed defaults mode call incoming s live =
      if_valid (validate_inbound_message_parts incoming.parts)
        (with_id a n exposed defaults mode call incoming incoming.message.message_id s live) s live
