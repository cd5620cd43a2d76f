-- ===== src/Inbound/Replies.antt =====
-- The protocol objects that packages/openclaw-a2a-inbound/src/response-mapping.ts builds from a
-- reply, its payload a JSON value.
--
-- `Ambient` is what the program asks its platform for: the UUID and the time of the n-th request,
-- the last segment of a URL's path if it is one, the extension of a file name, lower case, and the
-- JSON text of parts. A message that is created takes the next number.
pub mod Objects
use openclaw_a2a_plugins.Base.{
  ℕ, Bool, true, false, not, ◌&&◌, ◌||◌, Option, none, some, List, [], ◌∷◌, ◌++◌, map, keep, any,
  leb, ◌==◌, or_option, is_some, if◌then◌else◌,
}
use openclaw_a2a_plugins.Base.Text.{Text, codes, text_eq}
use openclaw_a2a_plugins.Base.Strings.{trim, has_text, is_filled, joined}
use openclaw_a2a_plugins.Base.Dict.{Dict, get}
use openclaw_a2a_plugins.Inbound.Protocol.{
  Json, num, nat, str, bool, arr, obj, items, fields, JsonRecord, Part, text, data_part, Message,
  agent, TaskState, TaskStatus, Task, Artifact, TaskStatusUpdateEvent, TaskArtifactUpdateEvent,
}

pub record Ambient : Type 0 where
  pub uuid : ℕ → Text
  pub now : ℕ → Text
  pub url_name : Text → Option Text
  pub extension : Text → Text
  pub lower_case : Text → Text
  pub stringify : List Part → Text

pub record NormalizedReplyPayload : Type 0 where
  pub text : Option Text
  pub media_urls : List Text
  pub has_vendor_content : Bool

pub record BuiltReplyContent : Type 0 where
  pub parts : List Part
  pub available_output_modes : List Text
  pub has_candidates : Bool

-- A set of texts, in the order of insertion.
abbrev pub is_member : Text → List Text → Bool
is_member t = any (text_eq t)

abbrev pub add_to : List Text → Text → List Text
add_to set t = if is_member t set then set else set ++ t ∷ []

unfoldable pub add_all : List Text → List Text → List Text
add_all set [] = set
add_all set (t ∷ ts) = add_all (add_to set t) ts

abbrev pub read_text : Option Json → Option Text
read_text (some (str t)) = some t
read_text _ = none

abbrev trimmed : Option Text → Option Text
trimmed none = none
trimmed (some t) = if has_text t then some (trim t) else none

abbrev pub read_trimmed_string : Option Json → Option Text
read_trimmed_string value = trimmed (read_text value)

-- The texts of a list, if it holds nothing else.
abbrev texts_of : List Json → Option (List Text)
texts_of [] = some []
texts_of (str t ∷ js) =
    let rest = texts_of js in elim rest [ none ↦ none | some ts ↦ some (t ∷ ts) ]
texts_of (_ ∷ js) = none

abbrev pub read_texts : Option Json → Option (List Text)
read_texts (some (arr js)) = texts_of (items js)
read_texts _ = none

abbrev is_bool : Option Json → Bool
is_bool (some (bool b)) = true
is_bool _ = false

-- Any `channelData` becomes a record, so it counts if it is there.
abbrev detect_vendor_reply_content : JsonRecord → Bool
detect_vendor_reply_content value =
    is_some (get (codes "channelData") value)
    || is_bool (get (codes "isError") value)
    || is_bool (get (codes "audioAsVoice") value)
    || is_some (read_trimmed_string (get (codes "replyToId") value))
    || is_some (read_trimmed_string (get (codes "replyToTag") value))
    || is_bool (get (codes "replyToCurrent") value)

abbrev listed : Option Text → List Text
listed none = []
listed (some t) = t ∷ []

abbrev media_urls_of : Option (List Text) → Option Text → List Text
media_urls_of (some ts) url = keep is_filled (map trim ts)
media_urls_of none url = listed url

abbrev normalize_media_urls : JsonRecord → List Text
normalize_media_urls payload =
    media_urls_of (read_texts (get (codes "mediaUrls") payload))
      (read_trimmed_string (get (codes "mediaUrl") payload))

abbrev filled_text : Option Text → Option Text
filled_text none = none
filled_text (some t) = if has_text t then some t else none

pub normalize_reply_payload : Json → NormalizedReplyPayload
normalize_reply_payload (obj fs) =
    let payload = fields fs in
    record {
      text = filled_text (
          or_option (read_text (get (codes "text") payload))
            (read_text (get (codes "body") payload)));
      media_urls = normalize_media_urls payload;
      has_vendor_content = detect_vendor_reply_content payload;
    }
normalize_reply_payload _ = record { text = none; media_urls = []; has_vendor_content = false }

abbrev summary_of : List Text → Option Text
summary_of [] = none
summary_of (t ∷ ts) = some (joined (codes "\n\n") (t ∷ ts))

pub summarize_buffered_replies : List Text → Option Text
summarize_buffered_replies chunks = summary_of (keep has_text chunks)

-- An empty text is no text.
abbrev pub truthy_text : Option Text → Option Text
truthy_text (some (c ∷ s)) = some (c ∷ s)
truthy_text _ = none

abbrev pub text_part : Text → Part
text_part t = record { content = text t; metadata = none }

abbrev pub file_mime_by_extension : Dict Text
file_mime_by_extension =
    (codes ".csv", codes "text/csv")
    ∷ (codes ".gif", codes "image/gif")
    ∷ (codes ".jpeg", codes "image/jpeg")
    ∷ (codes ".jpg", codes "image/jpeg")
    ∷ (codes ".json", codes "application/json")
    ∷ (codes ".md", codes "text/markdown")
    ∷ (codes ".mp3", codes "audio/mpeg")
    ∷ (codes ".mp4", codes "video/mp4")
    ∷ (codes ".ogg", codes "audio/ogg")
    ∷ (codes ".pdf", codes "application/pdf")
    ∷ (codes ".png", codes "image/png")
    ∷ (codes ".svg", codes "image/svg+xml")
    ∷ (codes ".txt", codes "text/plain")
    ∷ (codes ".wav", codes "audio/wav")
    ∷ (codes ".webm", codes "video/webm")
    ∷ (codes ".webp", codes "image/webp")
    ∷ []

module _ (w : Ambient) where
  abbrev mime_type_of : Option Text → Option Text
  mime_type_of none = none
  mime_type_of (some name) = get (w.lower_case (w.extension name)) file_mime_by_extension

  infer_mime_type_from_uri : Text → Option Text
  infer_mime_type_from_uri uri = mime_type_of (truthy_text (w.url_name uri))

  pub normalize_output_modes : List Text → List Text
  normalize_output_modes modes =
      add_all [] (keep is_filled (map (λ m. w.lower_case (trim m)) modes))

  add_media_modes : List Text → List Text → List Text
  add_media_modes modes [] = modes
  add_media_modes modes (uri ∷ uris) =
      add_media_modes
        (add_all modes (codes "application/octet-stream" ∷ listed (infer_mime_type_from_uri uri)))
        uris

  abbrev text_parts : Option Text → List Text → List Part
  text_parts none accepted = []
  text_parts (some t) accepted =
      if is_member (codes "text/plain") accepted then text_part t ∷ [] else []

  abbrev text_modes : Option Text → List Text
  text_modes none = []
  text_modes (some t) = codes "text/plain" ∷ []

  pub build_reply_content : NormalizedReplyPayload → List Text → BuiltReplyContent
  build_reply_content payload accepted =
      let available = add_media_modes (text_modes (truthy_text payload.text)) payload.media_urls in
      record {
        parts = text_parts (truthy_text payload.text) (normalize_output_modes accepted);
        available_output_modes = available;
        has_candidates =
            not (elim available [ [] ↦ true | _ ∷ _ ↦ false ]) || payload.has_vendor_content;
      }
