-- ===== src/Inbound/Coordinator.antt =====
-- `A2ATaskExecutionCoordinator` of packages/openclaw-a2a-inbound/src/task-execution-coordinator.ts:
-- its state, and what it publishes.
--
-- Assistant stages are objects that two lists and a field share: a stage is its place in
-- `assistant_stages`. The event bus is the list of what was published, the live executions are the
-- registry that the coordinator shares, and the abort controller is its index there. A number
-- stands for the cancel function. The microtask that flushes an artifact is pending while
-- `assistant_flush_scheduled`.
pub mod Publishing
pub mod Reading
pub mod Stages
pub mod Events
pub mod Deliveries
pub mod Finalize
pub mod Stream
pub mod Streaming
use openclaw_a2a_plugins.Base.{
  ℕ, ◌+◌, Bool, true, false, not, ◌&&◌, ◌||◌, Option, none, some, List, [], ◌∷◌, ◌++◌, length,
  get_elem?, update_at, is_some, or_else, if◌then◌else◌,
}
use openclaw_a2a_plugins.Base.Text.{Text}
use openclaw_a2a_plugins.Base.Strings.{has_text}
use openclaw_a2a_plugins.Inbound.Protocol.{
  Message, Task, TaskStatusUpdateEvent, TaskArtifactUpdateEvent,
}
use openclaw_a2a_plugins.Inbound.LiveExecutions.{LiveExecutions, InitialResponseMode}
use openclaw_a2a_plugins.Inbound.Replies.{NormalizedReplyPayload, summarize_buffered_replies}

pub record AssistantStage : Type 0 where
  pub index : ℕ
  pub block_texts : List Text
  pub streamed_text : Option Text
  pub final_text : Option Text
  pub media_urls : List Text
  pub has_vendor_content : Bool
  pub final_seen : Bool
  pub completed : Bool
  pub published_artifact : Bool
  pub published_text : Text
  pub published_non_text_key : Option Text
  pub closed_published : Bool

pub data StagedOutput : Type 0 where
  assistant_stage : ℕ → StagedOutput
  tool_stage : NormalizedReplyPayload → StagedOutput

pub data BusEvent : Type 0 where
  bus_message : Message → BusEvent
  bus_task : Task → BusEvent
  bus_status : TaskStatusUpdateEvent → BusEvent
  bus_artifact : TaskArtifactUpdateEvent → BusEvent

pub data AgentStyle : Type 0 where
  hybrid task_generating : AgentStyle

-- `message` is what `readOriginalUserMessage` returns.
pub record Request : Type 0 where
  pub task_id : Text
  pub context_id : Text
  pub message_id : Text
  pub message : Message
  pub task : Option Task

pub record Coordinator : Type 0 where
  pub request : Request
  pub agent_style : AgentStyle
  pub response_mode : InitialResponseMode
  pub accepted_output_modes : List Text
  pub controller : ℕ
  pub cancel_function : ℕ
  pub run_id : Option Text
  pub expected_session_key : Option Text
  pub staged_outputs : List StagedOutput
  pub assistant_stages : List AssistantStage
  pub current : Option ℕ
  pub artifact_sequence : ℕ
  pub tool_artifact_count : ℕ
  pub task_published : Bool
  pub submitted_published : Bool
  pub working_published : Bool
  pub final_published : Bool
  pub promoted : Bool
  pub cancel_requested : Bool
  pub lifecycle_phase : Option Text
  pub lifecycle_error : Option Text
  pub paused_for_input_required : Bool
  pub input_required_published : Bool
  pub assistant_flush_queued : Bool
  pub assistant_flush_scheduled : Bool
  pub published : List BusEvent
  pub live : LiveExecutions
  pub drawn : ℕ

-- What a method ends with: its value, or the error on unsupported content with the output modes
-- that were available. Either way the state is the one that it has by then.
pub data Outcome (A : Type 0) : Type 0 where
  returned : A → Coordinator → Outcome A
  thrown : List Text → Coordinator → Outcome A

abbrev pub and_then : {A B : Type 0} → Outcome A → (A → Coordinator → Outcome B) → Outcome B
and_then (returned a c) f = f a c
and_then (thrown e c) f = thrown e c

abbrev pub publish : BusEvent → Coordinator → Coordinator
publish e c = record c { published = c.published ++ e ∷ [] }

abbrev pub stage_at : Option ℕ → Coordinator → Option AssistantStage
stage_at none c = none
stage_at (some i) c = get_elem? c.assistant_stages i

abbrev pub change_stage : ℕ → (AssistantStage → AssistantStage) → Coordinator → Coordinator
change_stage i f c = record c { assistant_stages = update_at i f c.assistant_stages }

-- The first candidate with a text that is not blank.
abbrev pick_assistant_text : List (Option Text) → Option Text
pick_assistant_text [] = none
pick_assistant_text (none ∷ rest) = pick_assistant_text rest
pick_assistant_text (some t ∷ rest) = if has_text t then some t else pick_assistant_text rest

pub resolve_assistant_payload : AssistantStage → Bool → NormalizedReplyPayload
resolve_assistant_payload stage prefer_terminal_text =
    let buffered = summarize_buffered_replies stage.block_texts in
    record {
      text =
          if prefer_terminal_text
          then pick_assistant_text (stage.final_text ∷ stage.streamed_text ∷ buffered ∷ [])
          else pick_assistant_text (stage.streamed_text ∷ stage.final_text ∷ buffered ∷ []);
      media_urls = stage.media_urls;
      has_vendor_content = stage.has_vendor_content;
    }

abbrev is_empty : List Text → Bool
is_empty [] = true
is_empty (_ ∷ _) = false

abbrev pub has_assistant_stage_activity : AssistantStage → Bool
has_assistant_stage_activity stage =
    not (is_empty stage.block_texts)
    || is_some stage.streamed_text
    || is_some stage.final_text
    || not (is_empty stage.media_urls)
    || stage.has_vendor_content
    || stage.final_seen
