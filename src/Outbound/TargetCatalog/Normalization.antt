-- ===== src/Outbound/TargetCatalog/Normalization.antt =====
-- `normalizeTarget` of packages/openclaw-a2a-outbound/src/sdk-client-pool.ts, and the errors of the
-- catalog. `new URL(text).toString()` is given by `url`, which is none if it throws.
use openclaw_a2a_plugins.Base.{
  Bool, true, not, Option, none, some, List, [], ◌∷◌, keep, or_else, if◌then◌else◌,
}
use openclaw_a2a_plugins.Base.Text.{Text, codes}
use openclaw_a2a_plugins.Base.Strings.{trim, has_text}
use openclaw_a2a_plugins.Base.Results.{Result, ok, err, and_then}
use openclaw_a2a_plugins.Inbound.Replies.{is_member, add_all}
use openclaw_a2a_plugins.Outbound.Targets.{ResolvedTarget}

pub data CatalogError : Type 0 where
  invalid_url : Text → CatalogError
  unsupported_transports ambiguous_url_matches : List Text → CatalogError
  unknown_alias : Text → List Text → CatalogError
  unknown_raw_url : Text → Text → CatalogError
  raw_url_disallowed : Text → Text → List Text → CatalogError

-- `SDKClientPool` with its options settled; the clients that it keeps are the SDK's.
pub record ClientPool : Type 0 where
  pub default_card_path : Text
  pub default_preferred_transports : List Text
  pub normalizes_base_url : Bool
  pub enforces_supported_transports : Bool

pub record TargetInput : Type 0 where
  pub base_url : Text
  pub card_path : Option Text
  pub preferred_transports : List Text
  pub alias : Option Text
  pub display_name : Option Text
  pub description : Option Text
  pub streaming_supported : Option Bool

abbrev all_transports : List Text
all_transports = codes "JSONRPC" ∷ codes "HTTP+JSON" ∷ codes "GRPC" ∷ []

abbrev supported_transports : List Text
supported_transports = codes "JSONRPC" ∷ codes "HTTP+JSON" ∷ []

unfoldable pub merge_unique_transports : List Text → List Text
merge_unique_transports values = add_all [] (keep (λ t. is_member t all_transports) values)

abbrev filled_or : List Text → List Text → List Text
filled_or [] others = others
filled_or (t ∷ ts) others = t ∷ ts

unfoldable pub create_client_pool :
    Option Text → Option (List Text) → Option Bool → Option Bool → ClientPool
unfolding merge_unique_transports
create_client_pool card_path transports normalizes enforces = record {
  default_card_path = or_else card_path (codes "/.well-known/agent-card.json");
  default_preferred_transports =
      filled_or (merge_unique_transports (or_else transports supported_transports))
        supported_transports;
  normalizes_base_url = or_else normalizes true;
  enforces_supported_transports = or_else enforces true;
}

abbrev assert_supported : List Text → Result CatalogError (List Text)
assert_supported [] = ok []
assert_supported (t ∷ ts) = err (unsupported_transports (t ∷ ts))

abbrev parsed_url : Text → Option Text → Result CatalogError Text
parsed_url text (some u) = ok u
parsed_url text none = err (invalid_url text)

abbrev if_text : Option Text → Option Text
if_text (some t) = if has_text t then some t else none
if_text none = none

unfoldable pub normalize_target :
    (Text → Option Text) → ClientPool → TargetInput → Result CatalogError ResolvedTarget
unfolding merge_unique_transports
normalize_target url pool input =
    let transports =
      merge_unique_transports
        (filled_or input.preferred_transports pool.default_preferred_transports) in
    let unsupported = keep (λ t. not (is_member t supported_transports)) transports in
    and_then (if pool.enforces_supported_transports then assert_supported unsupported else ok [])
      (λ checked.
        and_then
          (if pool.normalizes_base_url
            then parsed_url input.base_url (url input.base_url)
            else ok (trim input.base_url))
          (λ base_url. ok (record {
            base_url = base_url;
            card_path = or_else input.card_path pool.default_card_path;
            preferred_transports = transports;
            alias = if_text input.alias;
            display_name = if_text input.display_name;
            description = if_text input.description;
            streaming_supported = input.streaming_supported;
          })))
