-- ===== src/Outbound/TargetCatalog/Cards.antt =====
-- What the catalog keeps of an agent's card, `normalizeAgentCardSnapshot` of
-- packages/openclaw-a2a-outbound/src/target-catalog.ts. The card is the SDK's; a member that may be
-- missing or no string is an `Option`, and a list that is no array is none.
use openclaw_a2a_plugins.Base.{
  Bool, false, ◌||◌, Option, none, some, List, [], ◌∷◌, ◌++◌, map, or_else, if◌then◌else◌,
}
use openclaw_a2a_plugins.Base.Text.{Text, text_eq}
use openclaw_a2a_plugins.Base.Strings.{trim, has_text}
use openclaw_a2a_plugins.Inbound.Protocol.{Json}
use openclaw_a2a_plugins.Inbound.Replies.{add_to}

pub record Capabilities : Type 0 where
  pub streaming : Option Bool
  pub push_notifications : Option Bool
  pub state_transition_history : Option Bool
  pub extensions : Option (List Json)

pub record AgentSkill : Type 0 where
  pub id : Text
  pub name : Text
  pub description : Option Text
  pub tags : Option (List (Option Text))
  pub examples : Option (List (Option Text))
  pub input_modes : Option (List (Option Text))
  pub output_modes : Option (List (Option Text))

pub record AgentCard : Type 0 where
  pub name : Option Text
  pub description : Option Text
  pub preferred_transport : Option Text
  pub additional_interfaces : Option (List (Option Text × Option Text))
  pub capabilities : Capabilities
  pub default_input_modes : Option (List (Option Text))
  pub default_output_modes : Option (List (Option Text))
  pub skills : Option (List AgentSkill)

pub record SkillSnapshot : Type 0 where
  pub id : Text
  pub name : Text
  pub description : Text
  pub tags : List Text
  pub examples : List Text
  pub input_modes : Option (List Text)
  pub output_modes : Option (List Text)

pub record ToolError : Type 0 where
  pub code : Text
  pub message : Text
  pub details : Option Json

pub record CardSnapshot : Type 0 where
  pub display_name : Option Text
  pub description : Option Text
  pub preferred_transport : Option Text
  pub additional_interfaces : List (Text × Text)
  pub capabilities : Capabilities
  pub default_input_modes : List Text
  pub default_output_modes : List Text
  pub skills : List SkillSnapshot
  pub last_refreshed_at : Option Text
  pub last_refresh_error : Option ToolError

abbrev trimmed : Option Text → Option Text
trimmed (some t) = if has_text t then some (trim t) else none
trimmed none = none

abbrev add_trimmed : List Text → Option Text → List Text
add_trimmed set (some t) = add_to set t
add_trimmed set none = set

normalize_strings : List Text → List (Option Text) → List Text
normalize_strings set [] = set
normalize_strings set (v ∷ vs) = normalize_strings (add_trimmed set (trimmed v)) vs

pub normalize_string_array : Option (List (Option Text)) → List Text
unfolding normalize_strings
normalize_string_array values = normalize_strings [] (or_else values [])

-- The key is the two with a 0 between them.
abbrev has_pair : Text → Text → List (Text × Text) → Bool
has_pair transport url [] = false
has_pair transport url ((t, u) ∷ rest) =
    text_eq (t ++ 0 ∷ u) (transport ++ 0 ∷ url) || has_pair transport url rest

abbrev add_interface : List (Text × Text) → Option Text → Option Text → List (Text × Text)
add_interface snapshots (some transport) (some url) =
    if has_pair transport url snapshots then snapshots else snapshots ++ (transport, url) ∷ []
add_interface snapshots _ _ = snapshots

add_interfaces : List (Text × Text) → List (Option Text × Option Text) → List (Text × Text)
add_interfaces snapshots [] = snapshots
add_interfaces snapshots ((transport, url) ∷ entries) =
    add_interfaces (add_interface snapshots (trimmed transport) (trimmed url)) entries

abbrev if_filled {ℓ} : {A : Type ℓ} → List A → Option (List A)
if_filled [] = none
if_filled (x ∷ xs) = some (x ∷ xs)

abbrev normalize_capabilities : Capabilities → Capabilities
normalize_capabilities c = record c { extensions = if_filled (or_else c.extensions []) }

abbrev normalize_skill : AgentSkill → SkillSnapshot
normalize_skill skill = record {
  id = skill.id;
  name = skill.name;
  description = or_else (trimmed skill.description) skill.name;
  tags = normalize_string_array skill.tags;
  examples = normalize_string_array skill.examples;
  input_modes = if_filled (normalize_string_array skill.input_modes);
  output_modes = if_filled (normalize_string_array skill.output_modes);
}

abbrev pub empty_card_snapshot : CardSnapshot
empty_card_snapshot = record {
  display_name = none;
  description = none;
  preferred_transport = none;
  additional_interfaces = [];
  capabilities = record {
    streaming = none;
    push_notifications = none;
    state_transition_history = none;
    extensions = none;
  };
  default_input_modes = [];
  default_output_modes = [];
  skills = [];
  last_refreshed_at = none;
  last_refresh_error = none;
}

unfoldable pub normalize_agent_card_snapshot : AgentCard → CardSnapshot
unfolding add_interfaces
normalize_agent_card_snapshot card = record {
  display_name = trimmed card.name;
  description = trimmed card.description;
  preferred_transport = trimmed card.preferred_transport;
  additional_interfaces = add_interfaces [] (or_else card.additional_interfaces []);
  capabilities = normalize_capabilities card.capabilities;
  default_input_modes = normalize_string_array card.default_input_modes;
  default_output_modes = normalize_string_array card.default_output_modes;
  skills = map normalize_skill (or_else card.skills []);
  last_refreshed_at = none;
  last_refresh_error = none;
}

unfoldable pub refreshed_card_snapshot : AgentCard → Text → CardSnapshot
unfolding normalize_agent_card_snapshot
refreshed_card_snapshot card refreshed_at = record (normalize_agent_card_snapshot card) {
  last_refreshed_at = some refreshed_at;
}
