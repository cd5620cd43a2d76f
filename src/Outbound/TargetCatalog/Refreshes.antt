-- ===== src/Outbound/TargetCatalog/Refreshes.antt =====
-- Refreshes of cards that run while the catalog is used.
use openclaw_a2a_plugins.Base.{
  ◌≡◌, refl, ◌∙◌, Bool, false, Option, none, some, List, [], ◌∷◌, All, or_else, arith,
}
use openclaw_a2a_plugins.Base.Text.{Text, text_eq, text_eq_refl, text_eq→eq}
use openclaw_a2a_plugins.Base.Results.{Result, ok, err}
use openclaw_a2a_plugins.Base.Dict.{get, set, delete, get-set, get-set_self, get-delete}
use openclaw_a2a_plugins.Outbound.Targets.{ResolvedTarget}
use openclaw_a2a_plugins.Outbound.TargetCatalog.Cards.{
  CardSnapshot, ToolError, AgentCard, empty_card_snapshot, refreshed_card_snapshot,
}
use openclaw_a2a_plugins.Outbound.TargetCatalog.Resolution.{Refresh, Catalog}
use openclaw_a2a_plugins.Outbound.TargetCatalog.Loading.{
  record_agent_card, usable, join_or_start, load_or_start, load_card_metadata, next_snapshot,
  finish_refresh, cached, starts,
}

-- What happens while a refresh runs.
pub data CatalogCall : Type 0 where
  loads : Text → Bool → Text → CatalogCall
  records : Text → ResolvedTarget → AgentCard → CatalogCall
  finishes : Text → Result ToolError AgentCard → CatalogCall

abbrev call : Catalog → CatalogCall → Catalog
call c (loads now force base_url) = (load_card_metadata now force base_url c).0
call c (records now target card) = (record_agent_card now target card c).0
call c (finishes base_url fetched) = finish_refresh base_url fetched c

abbrev pub calls : Catalog → List CatalogCall → Catalog
calls c [] = c
calls c (x ∷ xs) = calls (call c x) xs

-- A call that does not end the refresh of the URL.
abbrev pub Spares : Text → CatalogCall → Type 0
Spares base_url (finishes url fetched) = text_eq url base_url ≡ false
Spares base_url _ = Unit

module _ (base_url : Text) (r : Refresh) where
  join-keeps :
      (now url : Text) (found : Option Refresh) (c : Catalog)
      → get url c.card_refreshes ≡ found
      → get base_url c.card_refreshes ≡ some r
      → get base_url (join_or_start now url found c).0.card_refreshes ≡ some r
  join-keeps now url (some running) c is runs = runs
  join-keeps now url none c is runs = ground (
    arith,
    get-set url base_url (record { refreshed_at = now; previous = get url c.card_cache })
        c.card_refreshes,
    text_eq→eq url base_url,
  )

  load-keeps :
      (now url : Text) (fresh : Option CardSnapshot) (c : Catalog)
      → get base_url c.card_refreshes ≡ some r
      → get base_url (load_or_start now url fresh c).0.card_refreshes ≡ some r
  load-keeps now url (some s) c runs = runs
  load-keeps now url none c runs = join-keeps now url (get url c.card_refreshes) c refl runs

  call-keeps :
      (c : Catalog) (x : CatalogCall)
      → Spares base_url x
      → get base_url c.card_refreshes ≡ some r
      → get base_url (call c x).card_refreshes ≡ some r
  unfolding load_card_metadata record_agent_card finish_refresh
  call-keeps c (loads now force url) spares runs =
      load-keeps now url (usable force (get url c.card_cache)) c runs
  call-keeps c (records now target card) spares runs = runs
  call-keeps c (finishes url fetched) spares runs =
      ground (arith, get-delete url base_url c.card_refreshes)

  calls-keep :
      (c : Catalog) (xs : List CatalogCall)
      → All (Spares base_url) xs
      → get base_url c.card_refreshes ≡ some r
      → get base_url (calls c xs).card_refreshes ≡ some r
  calls-keep c [] spare runs = runs
  calls-keep c (x ∷ xs) (s, spare) runs = calls-keep (call c x) xs spare (call-keeps c x s runs)

-- A load that starts a refresh has the catalog remember the time and the card of the start.
load-starts :
    (now : Text) (force : Bool) (base_url : Text) (c : Catalog)
    → (load_card_metadata now force base_url c).1 ≡ starts
    → get base_url (load_card_metadata now force base_url c).0.card_refreshes
      ≡ some (record { refreshed_at = now; previous = get base_url c.card_cache })
unfolding load_card_metadata
load-starts now force base_url c started =
    let r : Refresh = record { refreshed_at = now; previous = get base_url c.card_cache } in
    ground (arith, get-set_self base_url r c.card_refreshes)

-- The card of a URL after its refresh, by what was cached at the start.
abbrev pub card_after : Text → Option CardSnapshot → Result ToolError AgentCard → CardSnapshot
card_after now before (ok card) = refreshed_card_snapshot card now
card_after now before (err error) = record (or_else before empty_card_snapshot) {
  last_refreshed_at = some now;
  last_refresh_error = some error;
}

-- The end of a refresh, by what the catalog remembers of its start.
IsDone : Text → Text → Text → CardSnapshot → Catalog → Catalog → Type 0
IsDone later base_url other card d done =
    (get base_url done.card_cache ≡ some card)
    × (get base_url done.card_refreshes ≡ none)
    × (get other done.card_cache ≡ get other d.card_cache)
    × ((load_card_metadata later false base_url done).1 ≡ cached card)

load-refreshed :
    (later base_url now : Text) (s : CardSnapshot) (c : Catalog)
    → get base_url c.card_cache ≡ some s
    → s.last_refreshed_at ≡ some now
    → (load_card_metadata later false base_url c).1 ≡ cached s
unfolding load_card_metadata
load-refreshed later base_url now s c here fresh = rw (here, fresh) refl

card_after-refreshed :
    (now : Text) (before : Option CardSnapshot) (fetched : Result ToolError AgentCard)
    → (card_after now before fetched).last_refreshed_at ≡ some now
unfolding refreshed_card_snapshot
card_after-refreshed now before (ok card) = refl
card_after-refreshed now before (err error) = refl

card_after-next :
    (now : Text) (before : Option CardSnapshot) (fetched : Result ToolError AgentCard)
    → next_snapshot (record { refreshed_at = now; previous = before }) fetched
      ≡ card_after now before fetched
card_after-next now before (ok card) = refl
card_after-next now before (err error) = refl

finish_refresh-IsDone :
    (now later base_url other : Text) (before : Option CardSnapshot) (d : Catalog)
    → (fetched : Result ToolError AgentCard)
    → get base_url d.card_refreshes ≡ some (record { refreshed_at = now; previous = before })
    → text_eq base_url other ≡ false
    → IsDone later base_url other
        (card_after now before fetched)
        d
        (finish_refresh base_url fetched d)
unfolding IsDone finish_refresh
finish_refresh-IsDone now later base_url other before d fetched runs apart =
    let card = card_after now before fetched in
    let done : Catalog = record d {
      card_cache = set base_url card d.card_cache;
      card_refreshes = delete base_url d.card_refreshes;
    } in
    let here = get-set_self base_url card d.card_cache in
    rw (runs, card_after-next now before fetched)
      (
        here,
        get-delete base_url base_url d.card_refreshes ∙ rw (text_eq_refl base_url) refl,
        get-set base_url other card d.card_cache ∙ rw apart refl,
        load-refreshed later base_url now card done here (card_after-refreshed now before fetched),
      )

-- When a refresh ends, whatever else the catalog did while it ran, the card of its URL is the one
-- that was fetched, or if that failed the one from before the refresh with the error, also if
-- another card was recorded meanwhile. Then no refresh runs for the URL, the cards of other URLs are
-- as they were, and a load that is not forced returns the card.
pub load_card_metadata-finish_refresh :
    (now later : Text) (force : Bool) (base_url other : Text) (c : Catalog) (xs : List CatalogCall)
    → (fetched : Result ToolError AgentCard) → (load_card_metadata now force base_url c).1 ≡ starts
    → All (Spares base_url) xs
    → text_eq base_url other ≡ false
    → let d = calls (load_card_metadata now force base_url c).0 xs in
      let done = finish_refresh base_url fetched d in
      let card = card_after now (get base_url c.card_cache) fetched in
      (get base_url done.card_cache ≡ some card)
      × (get base_url done.card_refreshes ≡ none)
      × (get other done.card_cache ≡ get other d.card_cache)
      × ((load_card_metadata later false base_url done).1 ≡ cached card)
unfolding IsDone
load_card_metadata-finish_refresh now later force base_url other c xs fetched started spare apart =
    let before = get base_url c.card_cache in
    let begun = (load_card_metadata now force base_url c).0 in
    finish_refresh-IsDone now later base_url other before (calls begun xs) fetched
      (calls-keep base_url (record { refreshed_at = now; previous = before }) begun xs spare
        (load-starts now force base_url c started))
      apart
