-- ===== src/Outbound/ResultShape/Events.antt =====
-- What a peer sends, with the fields that packages/openclaw-a2a-outbound/src/result-shape.ts reads.
-- The ids of an update are read as if they could be missing, and so is the context of a task. The
-- state of a task is any text. The clones of the source are the values.
use openclaw_a2a_plugins.Base.{Bool, false, ◌||◌, Option, none, some, List, [], ◌∷◌, ◌++◌, or_else}
use openclaw_a2a_plugins.Base.Text.{Text, codes, text_eq}
use openclaw_a2a_plugins.Base.Strings.{joined}
use openclaw_a2a_plugins.Inbound.Protocol.{JsonRecord, Part, PartContent, text, Message}

pub record Artifact : Type 0 where
  pub artifact_id : Text
  pub parts : List Part
  pub description : Option Text
  pub extensions : Option (List Text)
  pub metadata : Option JsonRecord
  pub name : Option Text

pub record Task : Type 0 where
  pub id : Text
  pub context_id : Option Text
  pub history : Option (List Message)
  pub artifacts : Option (List Artifact)
  pub state : Text

pub record StatusUpdate : Type 0 where
  pub task_id : Option Text
  pub context_id : Option Text
  pub state : Text

pub record ArtifactUpdate : Type 0 where
  pub task_id : Option Text
  pub context_id : Option Text
  pub append : Option Bool
  pub artifact : Artifact

pub data StreamEvent : Type 0 where
  message : Message → StreamEvent
  task : Task → StreamEvent
  status_update : StatusUpdate → StreamEvent
  artifact_update : ArtifactUpdate → StreamEvent

abbrev text_of : PartContent → List Text
text_of (text t) = t ∷ []
text_of _ = []

abbrev pub text_parts : List Part → List Text
text_parts [] = []
text_parts (p ∷ ps) = text_of p.content ++ text_parts ps

-- The texts in one, if there are any.
abbrev pub joined_text : List Text → Option Text
joined_text [] = none
joined_text (t ∷ ts) = some (joined (codes "\n\n") (t ∷ ts))

abbrev pub extract_message_text : Message → Option Text
extract_message_text m = joined_text (text_parts m.parts)

abbrev pub some_artifacts : List Artifact → Option (List Artifact)
some_artifacts [] = none
some_artifacts (a ∷ as') = some (a ∷ as')

abbrev pub extract_artifacts : Task → Option (List Artifact)
extract_artifacts t = some_artifacts (or_else t.artifacts [])

abbrev listed : Option Text → List Text
listed none = []
listed (some t) = t ∷ []

abbrev pub message_texts : List Message → List Text
message_texts [] = []
message_texts (m ∷ ms) = listed (extract_message_text m) ++ message_texts ms

abbrev pub history_of : Option Task → List Message
history_of none = []
history_of (some t) = or_else t.history []

abbrev pub extract_task_history_text : Option Task → List Text
extract_task_history_text t = message_texts (history_of t)

abbrev artifact_texts : List Artifact → List Text
artifact_texts [] = []
artifact_texts (a ∷ as') = text_parts a.parts ++ artifact_texts as'

abbrev pub extract_artifact_text : Option (List Artifact) → List Text
extract_artifact_text artifacts = artifact_texts (or_else artifacts [])

abbrev pub extract_task_text : Task → Option Text
extract_task_text t =
    joined_text (extract_task_history_text (some t) ++ extract_artifact_text (extract_artifacts t))

abbrev pub is_terminal_task_status : Option Text → Bool
is_terminal_task_status none = false
is_terminal_task_status (some s) =
    text_eq s (codes "completed")
    || text_eq s (codes "failed")
    || text_eq s (codes "canceled")
    || text_eq s (codes "rejected")
