-- ===== src/Outbound/TargetCatalog/Loading.antt =====
-- How `TargetCatalog` of packages/openclaw-a2a-outbound/src/target-catalog.ts loads and keeps cards.
use openclaw_a2a_plugins.Base.{
  Bool, not, ◌&&◌, ◌||◌, Option, none, some, or_else, if◌then◌else◌, is_some,
}
use openclaw_a2a_plugins.Base.Text.{Text}
use openclaw_a2a_plugins.Base.Results.{Result, ok, err}
use openclaw_a2a_plugins.Base.Dict.{get, set, delete}
use openclaw_a2a_plugins.Outbound.Targets.{ResolvedTarget}
use openclaw_a2a_plugins.Outbound.TargetCatalog.Cards.{
  CardSnapshot, ToolError, AgentCard, empty_card_snapshot, refreshed_card_snapshot,
}
use openclaw_a2a_plugins.Outbound.TargetCatalog.Resolution.{Refresh, Catalog, apply_cached_metadata}

abbrev card_cache_snapshot : Catalog → Text → CardSnapshot
card_cache_snapshot c base_url = or_else (get base_url c.card_cache) empty_card_snapshot

unfoldable pub record_agent_card :
    Text → ResolvedTarget → AgentCard → Catalog → Catalog × ResolvedTarget
unfolding apply_cached_metadata
record_agent_card now target card c =
    let next = record c {
      card_cache = set target.base_url (refreshed_card_snapshot card now) c.card_cache;
    } in
    (next, apply_cached_metadata next target)

-- What a load of metadata begins with: it returns what is cached, waits for the refresh that runs,
-- or starts one.
pub data Load : Type 0 where
  cached : CardSnapshot → Load
  joins starts : Load

abbrev was_refreshed : CardSnapshot → Bool
was_refreshed s = is_some s.last_refreshed_at || is_some s.last_refresh_error

abbrev pub usable : Bool → Option CardSnapshot → Option CardSnapshot
usable force (some s) = if not force && was_refreshed s then some s else none
usable force none = none

abbrev pub join_or_start : Text → Text → Option Refresh → Catalog → Catalog × Load
join_or_start now base_url (some running) c = (c, joins)
join_or_start now base_url none c =
    let refresh : Refresh = record { refreshed_at = now; previous = get base_url c.card_cache } in
    (record c { card_refreshes = set base_url refresh c.card_refreshes }, starts)

abbrev pub load_or_start : Text → Text → Option CardSnapshot → Catalog → Catalog × Load
load_or_start now base_url (some s) c = (c, cached s)
load_or_start now base_url none c = join_or_start now base_url (get base_url c.card_refreshes) c

unfoldable pub load_card_metadata : Text → Bool → Text → Catalog → Catalog × Load
load_card_metadata now force base_url c =
    load_or_start now base_url (usable force (get base_url c.card_cache)) c

abbrev pub next_snapshot : Refresh → Result ToolError AgentCard → CardSnapshot
next_snapshot r (ok card) = refreshed_card_snapshot card r.refreshed_at
next_snapshot r (err error) = record (or_else r.previous empty_card_snapshot) {
  last_refreshed_at = some r.refreshed_at;
  last_refresh_error = some error;
}

abbrev finish_running : Text → Result ToolError AgentCard → Option Refresh → Catalog → Catalog
finish_running base_url fetched (some r) c = record c {
  card_cache = set base_url (next_snapshot r fetched) c.card_cache;
  card_refreshes = delete base_url c.card_refreshes;
}
finish_running base_url fetched none c = c

-- The end of the refresh that runs for a URL, with the card or with what `toToolError` makes of the
-- error.
unfoldable pub finish_refresh : Text → Result ToolError AgentCard → Catalog → Catalog
finish_refresh base_url fetched c =
    finish_running base_url fetched (get base_url c.card_refreshes) c
