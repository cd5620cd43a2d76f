-- ===== src/Inbound/Protocol.antt =====
-- The protocol objects that the inbound plugin builds and stores, with the fields that
-- packages/openclaw-a2a-inbound/src/response-mapping.ts gives them. A field that may be
-- `undefined` is an `Option`; the value of `kind` is the type or the constructor.
use openclaw_a2a_plugins.Base.{ℕ, Bool, true, false, Option, none, some, List, [], ◌∷◌}
use openclaw_a2a_plugins.Base.Text.{Text}
use openclaw_a2a_plugins.Base.Dict.{Dict}

-- A number as the program tells numbers apart: a natural number, a negative integer, and one that
-- is no integer, given by its text.
pub data Number : Type 0 where
  nat : ℕ → Number
  negative : ℕ → Number
  fraction : Text → Number

mutual
  pub data Json : Type 0 where
    null : Json
    bool : Bool → Json
    num : Number → Json
    str : Text → Json
    arr : Items → Json
    obj : Fields → Json

  pub data Items : Type 0 where
    nil : Items
    item : Json → Items → Items

  pub data Fields : Type 0 where
    end : Fields
    field : Text → Json → Fields → Fields

abbrev pub items : Items → List Json
items nil = []
items (item j js) = j ∷ items js

abbrev pub fields : Fields → Dict Json
fields end = []
fields (field k j fs) = (k, j) ∷ fields fs

abbrev pub JsonRecord : Type 0
JsonRecord = Dict Json

pub data PartContent : Type 0 where
  text : Text → PartContent
  data_part : JsonRecord → PartContent
  file : Json → PartContent

pub record Part : Type 0 where
  pub content : PartContent
  pub metadata : Option JsonRecord

pub data Role : Type 0 where
  user agent : Role

pub record Message : Type 0 where
  pub message_id : Text
  pub role : Role
  pub parts : List Part
  pub context_id : Option Text
  pub task_id : Option Text
  pub metadata : Option JsonRecord

pub data TaskState : Type 0 where
  submitted working input_required completed canceled failed rejected auth_required unknown :
      TaskState

pub record TaskStatus : Type 0 where
  pub state : TaskState
  pub timestamp : Text
  pub message : Option Message

pub record Artifact : Type 0 where
  pub artifact_id : Text
  pub name : Option Text
  pub description : Option Text
  pub metadata : Option JsonRecord
  pub parts : List Part

pub record Task : Type 0 where
  pub id : Text
  pub context_id : Text
  pub history : Option (List Message)
  pub artifacts : Option (List Artifact)
  pub metadata : Option JsonRecord
  pub status : TaskStatus

pub record TaskStatusUpdateEvent : Type 0 where
  pub task_id : Text
  pub context_id : Text
  pub final : Bool
  pub metadata : Option JsonRecord
  pub status : TaskStatus

pub record TaskArtifactUpdateEvent : Type 0 where
  pub task_id : Text
  pub context_id : Text
  pub append : Option Bool
  pub last_chunk : Option Bool
  pub artifact : Artifact

-- `JournalEvent` of task-store.ts.
pub data JournalEvent : Type 0 where
  status_update : TaskStatusUpdateEvent → JournalEvent
  artifact_update : TaskArtifactUpdateEvent → JournalEvent

abbrev pub event_task_id : JournalEvent → Text
event_task_id (status_update e) = e.task_id
event_task_id (artifact_update e) = e.task_id

-- A text counts as true unless it is empty.
abbrev pub truthy : Option Text → Bool
truthy none = false
truthy (some []) = false
truthy (some (c ∷ s)) = true

abbrev pub is_true : Option Bool → Bool
is_true (some true) = true
is_true _ = false
