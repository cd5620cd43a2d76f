-- ===== src/Outbound/Capabilities.antt =====
-- packages/openclaw-a2a-outbound/src/capability-diagnostics.ts: which modes of a send action the
-- card of its target does not advertise. The platform's URLs, file names and lower case are those
-- of the inbound plugin's Ambient.
pub mod Unsupported
use openclaw_a2a_plugins.Base.{
  ℕ, ◌+◌, Bool, true, false, not, ◌&&◌, Option, none, some, List, [], ◌∷◌, ◌++◌, map, keep, or_else,
  or_option, if◌then◌else◌,
}
use openclaw_a2a_plugins.Base.Text.{Text, codes, text_eq}
use openclaw_a2a_plugins.Base.Strings.{trim, has_text, is_filled}
use openclaw_a2a_plugins.Base.Dict.{get}
use openclaw_a2a_plugins.Inbound.Replies.{
  Ambient, is_member, add_to, add_all, truthy_text, file_mime_by_extension,
}
use openclaw_a2a_plugins.Outbound.Requests.{
  PartInput, text_input, file_part_input, data_input, FileInput, file_input,
}

pub record Skill : Type 0 where
  pub input_modes : Option (List Text)
  pub output_modes : Option (List Text)

pub record TargetCardSnapshot : Type 0 where
  pub default_input_modes : List Text
  pub default_output_modes : List Text
  pub skills : List Skill

pub record CapabilityDiagnostics : Type 0 where
  pub requested_input_modes : List Text
  pub advertised_input_modes : List Text
  pub unsupported_input_modes : List Text
  pub requested_output_modes : List Text
  pub advertised_output_modes : List Text
  pub unsupported_output_modes : List Text
  pub unknown_file_attachments : List ℕ

abbrev pub unknown_mode : Text
unknown_mode = codes "unknown"

-- The loop of the filter, with the modes that stand earlier: `indexOf` finds the first place.
unfoldable pub unsupported_from : List Text → List Text → List Text → List Text
unsupported_from earlier [] advertised = []
unsupported_from earlier (m ∷ ms) advertised =
    let rest = unsupported_from (earlier ++ m ∷ []) ms advertised in
    if not (text_eq m unknown_mode) && not (is_member m advertised) && not (is_member m earlier)
    then m ∷ rest
    else rest

abbrev pub unsupported_modes : List Text → List Text → List Text
unsupported_modes requested advertised = unsupported_from [] requested advertised

abbrev pub all_modes : (Skill → Option (List Text)) → List Skill → List Text
all_modes modes [] = []
all_modes modes (skill ∷ skills) = or_else (modes skill) [] ++ all_modes modes skills

module _ (w : Ambient) where
  abbrev pub normalize_mode : Text → Text
  normalize_mode mode = w.lower_case (trim mode)

  pub normalize_mode_list : List Text → List Text
  normalize_mode_list modes = add_all [] (map normalize_mode (keep has_text modes))

  abbrev by_extension : Text → Option Text
  by_extension [] = none
  by_extension (c ∷ s) = get (c ∷ s) file_mime_by_extension

  abbrev infer_mime_type_from_name : Option Text → Option Text
  infer_mime_type_from_name none = none
  infer_mime_type_from_name (some name) =
      if has_text name then by_extension (w.lower_case (w.extension (trim name))) else none

  abbrev infer_mime_type_from_uri : Option Text → Option Text
  infer_mime_type_from_uri none = none
  infer_mime_type_from_uri (some uri) =
      if has_text uri then infer_mime_type_from_name (truthy_text (w.url_name uri)) else none

  abbrev explicit_mode : Option Text → Option Text
  explicit_mode none = none
  explicit_mode (some t) = if has_text t then some (normalize_mode t) else none

  abbrev file_mode : FileInput → Option Text
  file_mode (file_input uri bytes name mime_type) = truthy_text (
      or_option (explicit_mode mime_type)
        (or_option (infer_mime_type_from_name name) (infer_mime_type_from_uri uri)))

  -- The mode of a part, if it is known.
  abbrev pub part_mode : PartInput → Option Text
  part_mode (text_input t metadata) = some (codes "text/plain")
  part_mode (data_input d metadata) = some (codes "application/json")
  part_mode (file_part_input f metadata) = file_mode f

  pub requested_modes : List Text → List PartInput → List Text
  requested_modes set [] = set
  requested_modes set (p ∷ ps) =
      requested_modes (add_to set (or_else (part_mode p) unknown_mode)) ps

  abbrev unknown_at : ℕ → Option Text → List ℕ → List ℕ
  unknown_at i none rest = i ∷ rest
  unknown_at i (some mode) rest = rest

  pub unknown_attachments : ℕ → List PartInput → List ℕ
  unknown_attachments i [] = []
  unknown_attachments i (p ∷ ps) = unknown_at i (part_mode p) (unknown_attachments (i + 1) ps)

  abbrev pub advertised_input_modes_of : Option TargetCardSnapshot → List Text
  advertised_input_modes_of none = []
  advertised_input_modes_of (some card) =
      normalize_mode_list (card.default_input_modes ++ all_modes (λ s. s.input_modes) card.skills)

  abbrev pub advertised_output_modes_of : Option TargetCardSnapshot → List Text
  advertised_output_modes_of none = []
  advertised_output_modes_of (some card) =
      normalize_mode_list (card.default_output_modes ++ all_modes (λ s. s.output_modes) card.skills)

  pub evaluate_send_compatibility :
      List PartInput → List Text → Option TargetCardSnapshot → CapabilityDiagnostics
  evaluate_send_compatibility parts accepted card =
      let requested_input = requested_modes [] parts in
      let requested_output = normalize_mode_list accepted in
      let advertised_input = advertised_input_modes_of card in
      let advertised_output = advertised_output_modes_of card in
      record {
        requested_input_modes = requested_input;
        advertised_input_modes = advertised_input;
        unsupported_input_modes = unsupported_modes requested_input advertised_input;
        requested_output_modes = requested_output;
        advertised_output_modes = advertised_output;
        unsupported_output_modes = unsupported_modes requested_output advertised_output;
        unknown_file_attachments = unknown_attachments 0 parts;
      }
