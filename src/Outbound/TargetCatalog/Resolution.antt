-- ===== src/Outbound/TargetCatalog/Resolution.antt =====
-- The configured targets of `TargetCatalog`, packages/openclaw-a2a-outbound/src/target-catalog.ts, and
-- which of them a raw URL or an alias means.
use openclaw_a2a_plugins.Base.{
  Bool, true, false, not, ◌&&◌, Option, none, some, List, [], ◌∷◌, ◌++◌, map, or_else, or_option,
  if◌then◌else◌,
}
use openclaw_a2a_plugins.Base.Text.{Text}
use openclaw_a2a_plugins.Base.Strings.{trim}
use openclaw_a2a_plugins.Base.Results.{Result, ok, err, and_then}
use openclaw_a2a_plugins.Base.Dict.{Dict, get, set}
use openclaw_a2a_plugins.Outbound.Targets.{ResolvedTarget}
use openclaw_a2a_plugins.Outbound.TargetCatalog.Cards.{CardSnapshot}
use openclaw_a2a_plugins.Outbound.TargetCatalog.Normalization.{
  CatalogError, ClientPool, TargetInput, normalize_target, ambiguous_url_matches, unknown_alias,
  unknown_raw_url, raw_url_disallowed,
}

-- A target of the configuration.
pub record TargetConfig : Type 0 where
  pub alias : Text
  pub base_url : Text
  pub description : Option Text
  pub tags : List Text
  pub card_path : Text
  pub preferred_transports : List Text
  pub examples : List Text
  pub is_default : Bool

abbrev pub input_of : TargetConfig → TargetInput
input_of config = record {
  base_url = config.base_url;
  card_path = some config.card_path;
  preferred_transports = config.preferred_transports;
  alias = some config.alias;
  display_name = none;
  description = config.description;
  streaming_supported = none;
}

pub record ConfiguredEntry : Type 0 where
  pub alias : Text
  pub configured_description : Option Text
  pub is_default : Bool
  pub tags : List Text
  pub examples : List Text
  pub target : ResolvedTarget

-- What a refresh that runs remembers from its start.
pub record Refresh : Type 0 where
  pub refreshed_at : Text
  pub previous : Option CardSnapshot

pub record Catalog : Type 0 where
  pub allows_url_override : Bool
  pub configured_entries : List ConfiguredEntry
  pub targets_by_alias : Dict ConfiguredEntry
  pub targets_by_base_url : Dict (List ConfiguredEntry)
  pub default_target_alias : Option Text
  pub card_cache : Dict CardSnapshot
  pub card_refreshes : Dict Refresh

abbrev pub configured_entry : TargetConfig → ResolvedTarget → ConfiguredEntry
configured_entry config target = record {
  alias = config.alias;
  configured_description = config.description;
  is_default = config.is_default;
  tags = config.tags;
  examples = config.examples;
  target = record target {
    alias = some config.alias;
    description = or_option config.description target.description;
  };
}

abbrev pub add_entry : ConfiguredEntry → Catalog → Catalog
add_entry e c = record c {
  configured_entries = c.configured_entries ++ e ∷ [];
  targets_by_alias = set e.alias e c.targets_by_alias;
  targets_by_base_url =
      set e.target.base_url (or_else (get e.target.base_url c.targets_by_base_url) [] ++ e ∷ [])
        c.targets_by_base_url;
  default_target_alias = if e.is_default then some e.alias else c.default_target_alias;
}

abbrev pub empty_catalog : Bool → Catalog
empty_catalog allows = record {
  allows_url_override = allows;
  configured_entries = [];
  targets_by_alias = [];
  targets_by_base_url = [];
  default_target_alias = none;
  card_cache = [];
  card_refreshes = [];
}

abbrev pub add_configs :
    (Text → Option Text) → ClientPool → List TargetConfig → Catalog → Result CatalogError Catalog
add_configs url pool [] c = ok c
add_configs url pool (config ∷ configs) c =
    and_then (normalize_target url pool (input_of config))
      (λ target. add_configs url pool configs (add_entry (configured_entry config target) c))

unfoldable pub create_target_catalog :
    (Text → Option Text) → ClientPool → Bool → List TargetConfig → Result CatalogError Catalog
create_target_catalog url pool allows configs = add_configs url pool configs (empty_catalog allows)

abbrev cached_or : {A : Type 0} → (CardSnapshot → Option A) → Option CardSnapshot → Option A
cached_or field (some card) = field card
cached_or field none = none

unfoldable pub apply_cached_metadata : Catalog → ResolvedTarget → ResolvedTarget
apply_cached_metadata c target =
    let cached = get target.base_url c.card_cache in
    record target {
      display_name = or_option target.display_name (cached_or (λ s. s.display_name) cached);
      description = or_option target.description (cached_or (λ s. s.description) cached);
      streaming_supported =
          or_option target.streaming_supported (cached_or (λ s. s.capabilities.streaming) cached);
    }

abbrev pub aliases : List ConfiguredEntry → List Text
aliases entries = map (λ e. e.alias) entries

abbrev found_alias : Catalog → Text → Option ConfiguredEntry → Result CatalogError ConfiguredEntry
found_alias c alias (some e) = ok e
found_alias c alias none = err (unknown_alias alias (aliases c.configured_entries))

unfoldable pub require_alias : Catalog → Text → Result CatalogError ConfiguredEntry
require_alias c alias = found_alias c (trim alias) (get (trim alias) c.targets_by_alias)

unfoldable pub resolve_alias : Catalog → Text → Result CatalogError ResolvedTarget
unfolding require_alias apply_cached_metadata
resolve_alias c alias =
    and_then (require_alias c alias) (λ e. ok (apply_cached_metadata c e.target))

abbrev default_of : Catalog → Option Text → Result CatalogError (Option ResolvedTarget)
default_of c (some (a ∷ alias)) = and_then (resolve_alias c (a ∷ alias)) (λ t. ok (some t))
default_of c _ = ok none

pub resolve_default_target : Catalog → Result CatalogError (Option ResolvedTarget)
resolve_default_target c = default_of c c.default_target_alias

abbrev pub only_match : List ConfiguredEntry → Result CatalogError (Option ConfiguredEntry)
only_match [] = ok none
only_match (e ∷ []) = ok (some e)
only_match (e ∷ f ∷ es) = err (ambiguous_url_matches (aliases (e ∷ f ∷ es)))

unfoldable pub find_configured_entry :
    Catalog → ResolvedTarget → Result CatalogError (Option ConfiguredEntry)
find_configured_entry c target = only_match (or_else (get target.base_url c.targets_by_base_url) [])

unfoldable pub resolve_matched_raw_target :
    Catalog → ResolvedTarget → ConfiguredEntry → ResolvedTarget
unfolding apply_cached_metadata
resolve_matched_raw_target c target e = apply_cached_metadata c (record target {
  alias = some e.alias;
  description = or_option e.configured_description target.description;
})

abbrev configured_only :
    Catalog → Text → ResolvedTarget → Option ConfiguredEntry → Result CatalogError ResolvedTarget
configured_only c raw target (some e) = ok (resolve_matched_raw_target c target e)
configured_only c raw target none = err (unknown_raw_url raw target.base_url)

unfoldable pub resolve_configured_raw_target :
    (Text → Option Text) → ClientPool → Catalog → TargetInput → Result CatalogError ResolvedTarget
unfolding find_configured_entry
resolve_configured_raw_target url pool c input =
    and_then (normalize_target url pool input) (λ target.
      and_then (find_configured_entry c target) (configured_only c input.base_url target))

abbrev is_filled_entries : List ConfiguredEntry → Bool
is_filled_entries [] = false
is_filled_entries (e ∷ es) = true

abbrev pub by_policy :
    Catalog → Text → ResolvedTarget → Option ConfiguredEntry → Result CatalogError ResolvedTarget
by_policy c raw target (some e) = ok (resolve_matched_raw_target c target e)
by_policy c raw target none =
    if is_filled_entries c.configured_entries && not c.allows_url_override
    then err (raw_url_disallowed raw target.base_url (aliases c.configured_entries))
    else ok (apply_cached_metadata c target)

unfoldable pub resolve_raw_target :
    (Text → Option Text) → ClientPool → Catalog → TargetInput → Result CatalogError ResolvedTarget
unfolding find_configured_entry
resolve_raw_target url pool c input =
    and_then (normalize_target url pool input)
      (λ target. and_then (find_configured_entry c target) (by_policy c input.base_url target))
