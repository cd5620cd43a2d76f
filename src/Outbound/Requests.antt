-- ===== src/Outbound/Requests.antt =====
-- packages/openclaw-a2a-outbound/src/request-normalization.ts: a send action becomes the SDK's
-- parameters and options.
--
-- The fields of an input are those that the code reads. The role and the kind of a message are
-- constants of the type. A signal is the time that it waits or the number of the caller's one.
pub mod Options
use openclaw_a2a_plugins.Base.{
  ℕ, Bool, true, false, Option, none, some, List, [], ◌∷◌, map, or_else,
}
use mathlib.Core.Option
use openclaw_a2a_plugins.Base.Text.{Text, codes}
use openclaw_a2a_plugins.Base.Results.{Result, ok, err, and_then}
use openclaw_a2a_plugins.Base.Dict.{Dict, spread}
use openclaw_a2a_plugins.Inbound.Protocol.{JsonRecord}

pub data FileInput : Type 0 where
  file_input : (uri bytes name mime_type : Option Text) → FileInput

pub data PartInput : Type 0 where
  text_input : Text → (metadata : Option JsonRecord) → PartInput
  file_part_input : FileInput → (metadata : Option JsonRecord) → PartInput
  data_input : JsonRecord → (metadata : Option JsonRecord) → PartInput

-- A file of the SDK has a URI or bytes; `bytes!` is `undefined` where the input has neither.
pub data SentFile : Type 0 where
  by_uri : Text → (name mime_type : Option Text) → SentFile
  by_bytes : Option Text → (name mime_type : Option Text) → SentFile

pub data SentPart : Type 0 where
  sent_text : Text → (metadata : Option JsonRecord) → SentPart
  sent_file : SentFile → (metadata : Option JsonRecord) → SentPart
  sent_data : JsonRecord → (metadata : Option JsonRecord) → SentPart

pub record Authentication : Type 0 where
  pub schemes : List Text
  pub credentials : Option Text

pub record PushNotificationConfig : Type 0 where
  pub url : Text
  pub id : Option Text
  pub token : Option Text
  pub authentication : Option Authentication

pub record SendActionInput : Type 0 where
  pub parts : List PartInput
  pub message_id : Option Text
  pub task_id : Option Text
  pub context_id : Option Text
  pub reference_task_ids : Option (List Text)
  pub metadata : Option JsonRecord
  pub accepted_output_modes : Option (List Text)
  pub blocking : Option Bool
  pub history_length : Option ℕ
  pub push_notification_config : Option PushNotificationConfig
  pub timeout_ms : Option ℕ
  pub service_parameters : Option (Dict Text)

pub data Signal : Type 0 where
  timeout : ℕ → Signal
  caller : ℕ → Signal

pub data MergedSignal : Type 0 where
  only : Signal → MergedSignal
  any_of : List Signal → MergedSignal

pub record NormalizationOptions : Type 0 where
  pub default_timeout_ms : ℕ
  pub default_service_parameters : Dict Text
  pub default_accepted_output_modes : List Text
  pub signal : Option Signal

pub record SentMessage : Type 0 where
  pub message_id : Text
  pub parts : List SentPart
  pub task_id : Option Text
  pub context_id : Option Text
  pub reference_task_ids : Option (List Text)

pub record SendConfiguration : Type 0 where
  pub accepted_output_modes : List Text
  pub blocking : Option Bool
  pub history_length : Option ℕ
  pub push_notification_config : Option PushNotificationConfig

pub record RequestOptions : Type 0 where
  pub signal : MergedSignal
  pub service_parameters : Option (Dict Text)

pub record NormalizedSendRequest : Type 0 where
  pub message : SentMessage
  pub metadata : Option JsonRecord
  pub configuration : SendConfiguration
  pub request_options : RequestOptions

abbrev unless_empty : Dict Text → Option (Dict Text)
unless_empty [] = none
unless_empty (entry ∷ m) = some (entry ∷ m)

abbrev pub merge_service_parameters : Dict Text → Option (Dict Text) → Option (Dict Text)
merge_service_parameters base override = unless_empty (spread base (or_else override []))

abbrev available : List (Option Signal) → List Signal
available [] = []
available (none ∷ rest) = available rest
available (some s ∷ rest) = s ∷ available rest

abbrev merged : List Signal → Result Text MergedSignal
merged [] = err (codes "expected at least one signal")
merged (s ∷ []) = ok (only s)
merged (s ∷ t ∷ rest) = ok (any_of (s ∷ t ∷ rest))

abbrev pub merge_signals : List (Option Signal) → Result Text MergedSignal
merge_signals signals = merged (available signals)

abbrev file_of : FileInput → SentFile
file_of (file_input (some uri) bytes name mime_type) = by_uri uri name mime_type
file_of (file_input none bytes name mime_type) = by_bytes bytes name mime_type

abbrev pub clone_part : PartInput → SentPart
clone_part (text_input t metadata) = sent_text t metadata
clone_part (file_part_input f metadata) = sent_file (file_of f) metadata
clone_part (data_input d metadata) = sent_data d metadata

pub build_send_configuration : SendActionInput → List Text → SendConfiguration
build_send_configuration input modes = record {
  accepted_output_modes = or_else input.accepted_output_modes modes;
  blocking = input.blocking;
  history_length = input.history_length;
  push_notification_config = input.push_notification_config;
}

pub build_request_options :
    Option ℕ → ℕ → Dict Text → Option (Dict Text) → Option Signal → Result Text RequestOptions
build_request_options timeout_ms default_ms defaults parameters signal =
    and_then (merge_signals (some (timeout (or_else timeout_ms default_ms)) ∷ signal ∷ [])) λ s.
      ok (record { signal = s; service_parameters = merge_service_parameters defaults parameters })

-- `uuid` is the one that `randomUUID` returns.
pub normalize_send_request :
    Text → SendActionInput → NormalizationOptions → Result Text NormalizedSendRequest
normalize_send_request uuid input options =
    and_then
      (build_request_options input.timeout_ms options.default_timeout_ms
        options.default_service_parameters input.service_parameters options.signal)
      λ request. ok (record {
        message = record {
          message_id = or_else input.message_id uuid;
          parts = map clone_part input.parts;
          task_id = input.task_id;
          context_id = input.context_id;
          reference_task_ids = input.reference_task_ids;
        };
        metadata = input.metadata;
        configuration = build_send_configuration input options.default_accepted_output_modes;
        request_options = request;
      })

abbrev not_blocking : NormalizedSendRequest → NormalizedSendRequest
not_blocking n = record n { configuration = record n.configuration { blocking = some false } }

pub normalize_strict_task_creation_send_request :
    Text → SendActionInput → NormalizationOptions → Result Text NormalizedSendRequest
normalize_strict_task_creation_send_request uuid input options =
    and_then (normalize_send_request uuid input options) λ n. ok (not_blocking n)
