-- ===== src/Outbound/TargetCatalog/Examples.antt =====
-- The theorems on the target catalog at a concrete configuration.
use openclaw_a2a_plugins.Base.{◌≡◌, refl, true, false, Option, none, some, [], ◌∷◌}
use openclaw_a2a_plugins.Base.Text.{Text, codes, text_eq}
use openclaw_a2a_plugins.Base.Strings.{trim}
use openclaw_a2a_plugins.Base.Results.{ok, err}
use openclaw_a2a_plugins.Base.Dict.{get, set}
use openclaw_a2a_plugins.Inbound.Replies.{add_all}
use openclaw_a2a_plugins.Outbound.Targets.{ResolvedTarget}
use openclaw_a2a_plugins.Outbound.TargetCatalog.Normalization.{
  ClientPool, TargetInput, merge_unique_transports, normalize_target,
}
use openclaw_a2a_plugins.Outbound.TargetCatalog.Resolution.{
  TargetConfig, input_of, Catalog, configured_entry, add_entry, empty_catalog,
  create_target_catalog, resolve_raw_target,
}
use openclaw_a2a_plugins.Outbound.TargetCatalog.Loading.{load_card_metadata, finish_refresh, cached}
use openclaw_a2a_plugins.Outbound.TargetCatalog.Cards.{AgentCard, ToolError, empty_card_snapshot}
use openclaw_a2a_plugins.Outbound.TargetCatalog.Matching.{IsRawAnswer, resolve_raw_target_lem}
use openclaw_a2a_plugins.Outbound.TargetCatalog.Refreshes.{
  records, calls, card_after, load_card_metadata-finish_refresh,
}

-- URLs that are their own normal form.
abbrev url : Text → Option Text
url text = some text

abbrev pool : ClientPool
pool = record {
  default_card_path = codes "/card";
  default_preferred_transports = codes "JSONRPC" ∷ [];
  normalizes_base_url = true;
  enforces_supported_transports = true;
}

abbrev config : TargetConfig
config = record {
  alias = codes "main";
  base_url = codes "https://a";
  description = none;
  tags = [];
  card_path = codes "/card";
  preferred_transports = codes "JSONRPC" ∷ [];
  examples = [];
  is_default = true;
}

abbrev target : ResolvedTarget
target = record {
  base_url = codes "https://a";
  card_path = codes "/card";
  preferred_transports = codes "JSONRPC" ∷ [];
  alias = some (codes "main");
  display_name = none;
  description = none;
  streaming_supported = none;
}

abbrev catalog : Catalog
catalog = add_entry (configured_entry config target) (empty_catalog false)

abbrev input : TargetInput
input = record (input_of config) { card_path = none; alias = none }

abbrev raw_target : ResolvedTarget
raw_target = record target { alias = none }

created : create_target_catalog url pool false (config ∷ []) ≡ ok catalog
unfolding create_target_catalog normalize_target merge_unique_transports text_eq trim add_all get
    set
created = refl

normalized : normalize_target url pool input ≡ ok raw_target
unfolding normalize_target merge_unique_transports text_eq trim add_all
normalized = refl

resolve_raw_target_lem_example :
    IsRawAnswer url pool
      (config ∷ [])
      false
      (codes "https://a")
      raw_target
      (resolve_raw_target url pool (record catalog { card_cache = []; card_refreshes = [] }) input)
resolve_raw_target_lem_example =
    resolve_raw_target_lem url pool false (config ∷ []) catalog [] [] input raw_target created
      normalized

abbrev failure : ToolError
failure = record { code = codes "A2A_SDK_ERROR"; message = codes "offline"; details = none }

abbrev card : AgentCard
card = record {
  name = some (codes "Agent");
  description = none;
  preferred_transport = none;
  additional_interfaces = none;
  capabilities = empty_card_snapshot.capabilities;
  default_input_modes = none;
  default_output_modes = none;
  skills = none;
}

-- A card that is recorded during a refresh that fails is lost.
load_card_metadata-finish_refresh_example :
    let d =
      calls
        (load_card_metadata (codes "t1") false (codes "https://a") catalog).0
        (records (codes "t2") target card ∷ []) in
    let done = finish_refresh (codes "https://a") (err failure) d in
    let after = card_after (codes "t1") none (err failure) in
    (get (codes "https://a") done.card_cache ≡ some after)
    × (get (codes "https://a") done.card_refreshes ≡ none)
    × (get (codes "https://b") done.card_cache ≡ get (codes "https://b") d.card_cache)
    × ((load_card_metadata (codes "t3") false (codes "https://a") done).1 ≡ cached after)
unfolding get text_eq load_card_metadata
load_card_metadata-finish_refresh_example =
    load_card_metadata-finish_refresh (codes "t1") (codes "t3") false (codes "https://a")
      (codes "https://b") catalog (records (codes "t2") target card ∷ []) (err failure) refl
      (tt, tt) refl
