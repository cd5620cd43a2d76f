-- ===== src/Inbound/Coordinator/Reading.antt =====
-- What the coordinator reads from events and its state, of
-- packages/openclaw-a2a-inbound/src/task-execution-coordinator.ts.
use openclaw_a2a_plugins.Base.{
  ℕ, Bool, true, false, not, ◌&&◌, ◌||◌, Option, none, some, List, [], ◌++◌, get_elem?, is_some,
  or_else, or_option, if◌then◌else◌,
}
use openclaw_a2a_plugins.Base.Text.{Text, codes, text_eq}
use openclaw_a2a_plugins.Base.Strings.{trim, has_text, is_filled, strip_prefix}
use openclaw_a2a_plugins.Base.Dict.{get}
use openclaw_a2a_plugins.Inbound.Protocol.{Json, bool, obj, fields, JsonRecord}
use openclaw_a2a_plugins.Inbound.LiveExecutions.{
  AbortReason, server_shutdown, clear_request_mode, non_blocking, InitialResponseMode,
}
use openclaw_a2a_plugins.Inbound.Replies.{read_text, read_trimmed_string, add_all}
use openclaw_a2a_plugins.Inbound.Replies.Objects.{ToolProgressPhase, started, updated, finished}
use openclaw_a2a_plugins.Inbound.Coordinator.{
  AssistantStage, AgentStyle, task_generating, hybrid, Coordinator,
}
use openclaw_a2a_plugins.Inbound.Coordinator.Publishing.{Params}

pub data ReplyDispatchKind : Type 0 where
  tool block final : ReplyDispatchKind

pub record ExecutionEvent : Type 0 where
  pub run_id : Text
  pub stream : Text
  pub payload : JsonRecord
  pub session_key : Option Text

abbrev pub trimmed : Text → Option Text
trimmed t = if has_text t then some (trim t) else none

abbrev pub read_tool_progress_phase : Option Text → Option ToolProgressPhase
read_tool_progress_phase none = none
read_tool_progress_phase (some t) =
    if text_eq t (codes "start")
    then some started
    else if text_eq t (codes "update")
    then some updated
    else if text_eq t (codes "result")
    then some finished
    else none

abbrev pub trimmed_option : Option Text → Option Text
trimmed_option none = none
trimmed_option (some t) = trimmed t

abbrev pub read_tool_name : JsonRecord → Option Text
read_tool_name d =
    trimmed_option
      (or_option (read_text (get (codes "toolName") d)) (read_text (get (codes "name") d)))

abbrev pub is_json_true : Option Json → Bool
is_json_true (some (bool true)) = true
is_json_true _ = false

abbrev is_text : Text → Option Text → Bool
is_text t none = false
is_text t (some s) = text_eq s t

abbrev record_of : Option Json → JsonRecord
record_of (some (obj fs)) = fields fs
record_of _ = []

abbrev read_approval_from : JsonRecord → Option Text
read_approval_from result =
    let status = read_text (get (codes "status") result) in
    let request = record_of (get (codes "requiresApproval") result) in
    if is_text (codes "approval-pending") status
      || is_text (codes "needs_approval") status
      || is_text (codes "approval_request") (read_text (get (codes "type") request))
    then some (
        or_else (read_trimmed_string (get (codes "prompt") request))
          (codes "OpenClaw is waiting for tool approval to continue."))
    else none

pub read_approval_pause_message : Option Json → Option Text
read_approval_pause_message (some (obj fs)) = read_approval_from (fields fs)
read_approval_pause_message _ = none

pub normalize_assistant_preview_text : Option Text → Text → Text
normalize_assistant_preview_text current incoming =
    let previous = or_else current [] in
    if is_filled previous && is_some (strip_prefix previous incoming)
    then incoming
    else previous ++ incoming

pub merge_media_urls : List Text → List Text → List Text
merge_media_urls current next = add_all (add_all [] current) next

abbrev signal_of : Coordinator → Option AbortReason
signal_of c = elim (get_elem? c.live.signals c.controller) [ none ↦ none | some signal ↦ signal ]

abbrev pub is_aborted : Coordinator → Bool
is_aborted c = is_some (signal_of c)

abbrev is_shutdown : Option AbortReason → Bool
is_shutdown (some server_shutdown) = true
is_shutdown _ = false

-- `error` says whether the error of the call, if there is one, is that of a server shutdown.
abbrev pub is_server_shutdown_abort : Bool → Coordinator → Bool
is_server_shutdown_abort error c = error || is_shutdown (signal_of c)

abbrev pub stage_is_open : Option AssistantStage → Bool
stage_is_open none = false
stage_is_open (some stage) = not stage.completed

abbrev pub new_stage : ℕ → AssistantStage
new_stage index = record {
  index = index;
  block_texts = [];
  streamed_text = none;
  final_text = none;
  media_urls = [];
  has_vendor_content = false;
  final_seen = false;
  completed = false;
  published_artifact = false;
  published_text = [];
  published_non_text_key = none;
  closed_published = false;
}

abbrev pub matches_expected_session_key : Option Text → Option Text → Bool
matches_expected_session_key none key = true
matches_expected_session_key (some expected) none = false
matches_expected_session_key (some expected) (some key) = has_text key && text_eq key expected

abbrev pub other_run : Option Text → Option Text → Bool
other_run (some mine) (some theirs) = not (text_eq theirs mine)
other_run _ _ = false

abbrev pub capture_run_id : Option Text → Coordinator → Coordinator
capture_run_id run c = record c { run_id = or_option c.run_id run }

-- The ends of a stage: all of it, for good, and what there is of it by now.
abbrev pub closing : Bool → Params
closing require = record {
  last_chunk = true;
  prefer_terminal_text = true;
  require_visible_content = require;
}

abbrev pub so_far : Bool → Params
so_far prefer = record {
  last_chunk = false;
  prefer_terminal_text = prefer;
  require_visible_content = false;
}

abbrev pub clear_mode : Coordinator → Coordinator
clear_mode c = record c { live = clear_request_mode c.request.message_id c.live }

abbrev pub is_task_generating : AgentStyle → Bool
is_task_generating task_generating = true
is_task_generating hybrid = false

abbrev pub is_non_blocking : InitialResponseMode → Bool
is_non_blocking non_blocking = true
is_non_blocking _ = false
