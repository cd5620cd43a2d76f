-- ===== src/Inbound/SessionRouting/Parts.antt =====
-- `classifyMessagePart`, `extractUserText` and `validateInboundMessageParts` of
-- packages/openclaw-a2a-inbound/src/session-routing.ts. A part is the JSON value that came.
use openclaw_a2a_plugins.Base.{
  ℕ, ◌+◌, Bool, false, Option, none, some, List, [], ◌∷◌, ◌++◌, keep, if◌then◌else◌,
}
use openclaw_a2a_plugins.Base.Text.{Text, codes, text_eq}
use openclaw_a2a_plugins.Base.Strings.{has_text, joined}
use openclaw_a2a_plugins.Base.Dict.{get, has}
use openclaw_a2a_plugins.Base.Results.{Result, ok, err}
use openclaw_a2a_plugins.Inbound.Protocol.{Json, str, obj, fields, JsonRecord}
use openclaw_a2a_plugins.Inbound.Replies.{read_text}

pub data FileMember : Type 0 where
  by_kind by_raw by_url : FileMember

pub data InvalidReason : Type 0 where
  no_object ambiguous no_string_text : InvalidReason

pub data Classification : Type 0 where
  is_text : Text → Classification
  is_data : Option Json → Classification
  is_file : FileMember → Classification
  is_invalid : InvalidReason → Classification
  is_other : Classification

abbrev kind_is : Text → Json → Bool
kind_is kind (str t) = text_eq t kind
kind_is kind _ = false

abbrev text_or_other : Option Text → Classification
text_or_other (some t) = is_text t
text_or_other none = is_other

abbrev without_text : Json → JsonRecord → Classification
without_text kind raw =
    if kind_is (codes "data") kind
    then is_data (get (codes "data") raw)
    else if kind_is (codes "file") kind
    then is_file by_kind
    else is_other

abbrev with_text : Json → JsonRecord → Option Text → Classification
with_text kind raw (some t) =
    if kind_is (codes "text") kind then is_text t else without_text kind raw
with_text kind raw none = without_text kind raw

abbrev by_kind_member : Json → JsonRecord → Classification
by_kind_member kind raw = with_text kind raw (read_text (get (codes "text") raw))

abbrev v1_content_members : List Text
v1_content_members = codes "text" ∷ codes "raw" ∷ codes "url" ∷ codes "data" ∷ []

abbrev text_member : Option Text → Classification
text_member (some t) = is_text t
text_member none = is_invalid no_string_text

abbrev by_member : Text → JsonRecord → Classification
by_member member raw =
    if text_eq member (codes "text")
    then text_member (read_text (get (codes "text") raw))
    else if text_eq member (codes "data")
    then is_data (get (codes "data") raw)
    else if text_eq member (codes "raw")
    then is_file by_raw
    else is_file by_url

abbrev by_members : JsonRecord → List Text → Classification
by_members raw [] = is_other
by_members raw (member ∷ []) = by_member member raw
by_members raw (m ∷ n ∷ ms) = is_invalid ambiguous

abbrev by_members_of : JsonRecord → Option Json → Classification
by_members_of raw (some kind) = by_kind_member kind raw
by_members_of raw none = by_members raw (keep (λ member. has member raw) v1_content_members)

unfoldable pub classify_message_part : Json → Classification
classify_message_part (obj fs) = let raw = fields fs in by_members_of raw (get (codes "kind") raw)
classify_message_part _ = is_invalid no_object

abbrev pub text_of : Classification → List Text
text_of (is_text t) = t ∷ []
text_of _ = []

abbrev pub texts_of_parts : List Json → List Text
texts_of_parts [] = []
texts_of_parts (p ∷ ps) = text_of (classify_message_part p) ++ texts_of_parts ps

unfoldable pub build_text_body : List Text → Text
build_text_body texts = let body = joined (codes "\n\n") texts in if has_text body then body else []

pub extract_user_text : List Json → Text
extract_user_text parts = build_text_body (texts_of_parts parts)

-- Both are `A2AError.invalidParams`, with the index of the part in the message.
pub data PartError : Type 0 where
  unsupported_file : ℕ → FileMember → PartError
  invalid_part : ℕ → InvalidReason → PartError

abbrev pub refusal : ℕ → Classification → Option PartError
refusal i (is_file member) = some (unsupported_file i member)
refusal i (is_invalid reason) = some (invalid_part i reason)
refusal i _ = none

abbrev refuse : Option PartError → Result PartError (Unit {0}) → Result PartError (Unit {0})
refuse (some e) rest = err e
refuse none rest = rest

unfoldable pub validate_from : ℕ → List Json → Result PartError (Unit {0})
validate_from i [] = ok tt
validate_from i (p ∷ ps) = refuse (refusal i (classify_message_part p)) (validate_from (i + 1) ps)

unfoldable pub validate_inbound_message_parts : List Json → Result PartError (Unit {0})
validate_inbound_message_parts parts = validate_from 0 parts
