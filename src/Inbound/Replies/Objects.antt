-- ===== src/Inbound/Replies/Objects.antt =====
-- The messages, statuses and updates that packages/openclaw-a2a-inbound/src/response-mapping.ts
-- creates.
use openclaw_a2a_plugins.Base.{
  ℕ, Bool, true, false, ◌&&◌, ◌||◌, Option, none, some, List, [], ◌∷◌, ◌++◌, map, leb, ◌==◌,
  if◌then◌else◌,
}
use openclaw_a2a_plugins.Base.Text.{Text, codes}
use openclaw_a2a_plugins.Inbound.Protocol.{
  num, nat, str, JsonRecord, Part, data_part, Message, agent, TaskState, TaskStatus, Task, Artifact,
  TaskStatusUpdateEvent, TaskArtifactUpdateEvent,
}
use openclaw_a2a_plugins.Inbound.Replies.{Ambient, BuiltReplyContent, text_part, truthy_text}

module _ (w : Ambient) where
  abbrev pub create_agent_message : ℕ → Text → Option Text → List Part → Message
  create_agent_message n context_id task_id parts = record {
    message_id = w.uuid n;
    role = agent;
    parts = parts;
    context_id = some context_id;
    task_id = task_id;
    metadata = none;
  }

  abbrev status_message : ℕ → Text → Text → Option Message → Option Text → Option Message
  status_message n context_id task_id (some m) words = some m
  status_message n context_id task_id none none = none
  status_message n context_id task_id none (some t) =
      some (create_agent_message n context_id (some task_id) (text_part t ∷ []))

  abbrev pub create_task_status :
      ℕ → Text → Text → TaskState → Option Message → Option Text → TaskStatus
  create_task_status n context_id task_id state message words = record {
    state = state;
    timestamp = w.now n;
    message = status_message n context_id task_id message (truthy_text words);
  }

  abbrev pub create_task_snapshot :
      ℕ
      → Text
      → Text
      → TaskState
      → Option (List Message)
      → Option (List Artifact)
      → Option JsonRecord
      → Task
  create_task_snapshot n task_id context_id state history artifacts metadata = record {
    id = task_id;
    context_id = context_id;
    history = history;
    artifacts = artifacts;
    metadata = metadata;
    status = create_task_status n context_id task_id state none none;
  }

  abbrev pub create_task_status_update :
      ℕ → Text → Text → TaskState → Bool → Option Message → Option Text → TaskStatusUpdateEvent
  create_task_status_update n task_id context_id state final message words = record {
    task_id = task_id;
    context_id = context_id;
    final = final;
    metadata = none;
    status = create_task_status n context_id task_id state message words;
  }

abbrev create_artifact_update :
    Text
    → Text
    → Text
    → Text
    → List Part
    → JsonRecord
    → Option Bool
    → Option Bool
    → TaskArtifactUpdateEvent
create_artifact_update task_id context_id artifact_id name parts metadata append last_chunk =
    record {
      task_id = task_id;
      context_id = context_id;
      append = append;
      last_chunk = last_chunk;
      artifact = record {
        artifact_id = artifact_id;
        name = some name;
        description = none;
        metadata = some metadata;
        parts = parts;
      };
    }

abbrev pub create_reply_artifact_update :
    Text
    → Text
    → Text
    → Text
    → ℕ
    → BuiltReplyContent
    → Option Bool
    → Option Bool
    → TaskArtifactUpdateEvent
create_reply_artifact_update task_id context_id artifact_id name sequence content append
      last_chunk =
    create_artifact_update task_id context_id artifact_id name content.parts
      ((codes "sequence", num (nat sequence)) ∷ (codes "source", str name) ∷ []) append last_chunk

pub data ToolProgressPhase : Type 0 where
  started updated finished : ToolProgressPhase

abbrev is_plain : ℕ → Bool
is_plain c =
    (leb 65 c && leb c 90)
    || (leb 97 c && leb c 122)
    || (leb 48 c && leb c 57)
    || c == 95
    || c == 45

pub sanitize_tool_call_id : Text → Text
sanitize_tool_call_id = map λ c. if is_plain c then c else 95

abbrev progress_text : ToolProgressPhase → Text → Bool → Text
progress_text started name is_error = codes "Started tool " ++ name
progress_text updated name is_error = codes "Updated tool " ++ name
progress_text finished name true = codes "Tool " ++ name ++ codes " failed"
progress_text finished name false = codes "Completed tool " ++ name

abbrev phase_text : ToolProgressPhase → Text
phase_text started = codes "start"
phase_text updated = codes "update"
phase_text finished = codes "result"

abbrev is_finished : ToolProgressPhase → Bool
is_finished finished = true
is_finished _ = false

-- The payload is a JSON record, which `sanitizeJsonRecord` returns as it is.
unfoldable pub create_tool_progress_artifact_update :
    Text → Text → Text → Text → ToolProgressPhase → JsonRecord → ℕ → Bool → TaskArtifactUpdateEvent
create_tool_progress_artifact_update task_id context_id name call_id phase payload sequence
      is_error =
    create_artifact_update task_id context_id
      (codes "tool-progress-" ++ sanitize_tool_call_id call_id) (name ++ codes " progress")
      (text_part (progress_text phase name is_error)
        ∷ record { content = data_part payload; metadata = none }
        ∷ [])
      ((codes "source", str (codes "tool"))
        ∷ (codes "phase", str (phase_text phase))
        ∷ (codes "toolName", str name)
        ∷ (codes "toolCallId", str call_id)
        ∷ (codes "sequence", num (nat sequence))
        ∷ [])
      none (some (is_finished phase))
