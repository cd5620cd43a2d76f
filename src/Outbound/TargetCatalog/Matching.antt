-- ===== src/Outbound/TargetCatalog/Matching.antt =====
-- Which configured target a raw URL means.
use openclaw_a2a_plugins.Base.{
  ◌≤◌, ◌≡◌, ◌≢◌, refl, sym, ap, subst, ◌∙◌, ◌⊎◌, inl, inr, Bool, true, false, Option, none, some,
  List, [], ◌∷◌, ◌++◌, map, keep, keep-append, append-nil, append_assoc, length, or_else,
  if◌then◌else◌, Bool-cases, arith,
}
use openclaw_a2a_plugins.Base.Text.{Text, text_eq, text_eq→eq}
use openclaw_a2a_plugins.Base.Results.{Result, ok, err, and_then, and_then-ok}
use openclaw_a2a_plugins.Base.Dict.{Dict, get, get-set}
use openclaw_a2a_plugins.Outbound.Targets.{ResolvedTarget}
use openclaw_a2a_plugins.Outbound.TargetCatalog.Cards.{CardSnapshot}
use openclaw_a2a_plugins.Outbound.TargetCatalog.Normalization.{
  CatalogError, ClientPool, TargetInput, normalize_target, ambiguous_url_matches,
  raw_url_disallowed,
}
use openclaw_a2a_plugins.Outbound.TargetCatalog.Resolution.{
  TargetConfig, input_of, ConfiguredEntry, Refresh, Catalog, configured_entry, add_entry,
  empty_catalog, add_configs, create_target_catalog, apply_cached_metadata, aliases, only_match,
  find_configured_entry, resolve_matched_raw_target, by_policy, resolve_raw_target,
}

ok-injective : {a b : Catalog} {r : Result CatalogError Catalog} → r ≡ ok a → r ≡ ok b → a ≡ b
ok-injective h k = cc

abbrev is_at : Text → ConfiguredEntry → Bool
is_at u e = text_eq e.target.base_url u

-- The table by URL holds the configured entries, in their order.
abbrev IsIndexed : Catalog → Type 0
IsIndexed c =
    (u : Text) → or_else (get u c.targets_by_base_url) [] ≡ keep (is_at u) c.configured_entries

add_entry-IsIndexed : (e : ConfiguredEntry) (c : Catalog) → IsIndexed c → IsIndexed (add_entry e c)
add_entry-IsIndexed e c is u =
    let here = e.target.base_url in
    let old = or_else (get here c.targets_by_base_url) [] in
    ground (
      arith,
      get-set here u (old ++ e ∷ []) c.targets_by_base_url,
      text_eq→eq here u,
      is u,
      is here,
      append-nil (keep (is_at u) c.configured_entries),
      keep-append (is_at u) c.configured_entries (e ∷ []),
    )

aliases-append : (xs ys : List ConfiguredEntry) → aliases (xs ++ ys) ≡ aliases xs ++ aliases ys
aliases-append [] ys = refl
aliases-append (x ∷ xs) ys = ap (λ rest. x.alias ∷ rest) (aliases-append xs ys)

module _ (url : Text → Option Text) (pool : ClientPool) where
  abbrev lands : Text → Result CatalogError ResolvedTarget → Bool
  lands u (ok target) = text_eq target.base_url u
  lands u (err e) = false

  -- The aliases of the configured targets with a normalised URL.
  abbrev pub aliases_at : Text → List TargetConfig → List Text
  aliases_at u [] = []
  aliases_at u (g ∷ gs) =
      let rest = aliases_at u gs in
      if lands u (normalize_target url pool (input_of g)) then g.alias ∷ rest else rest

  -- What the catalog holds after more of the configuration.
  record Extends (configs : List TargetConfig) (c d : Catalog) : Type 0 where
    indexed : IsIndexed d
    allows : d.allows_url_override ≡ c.allows_url_override
    named :
        aliases d.configured_entries ≡ aliases c.configured_entries ++ map (λ g. g.alias) configs
    at :
        (u : Text)
        → aliases (keep (is_at u) d.configured_entries)
          ≡ aliases (keep (is_at u) c.configured_entries) ++ aliases_at u configs

  add_configs-Extends :
      (configs : List TargetConfig) (c : Catalog) {d : Catalog}
      → IsIndexed c
      → add_configs url pool configs c ≡ ok d
      → Extends configs c d
  add_configs-Extends [] c {d} is made =
      let nothing : Extends [] c c = record {
        indexed = is;
        allows = refl;
        named = sym (append-nil (aliases c.configured_entries));
        at = λ u. sym (append-nil (aliases (keep (is_at u) c.configured_entries)));
      } in
      subst (Extends [] c) (ok-injective refl made) nothing
  add_configs-Extends (g ∷ gs) c {d} is made =
      let (target, lands_at, rest) = and_then-ok (normalize_target url pool (input_of g)) made in
      let e = configured_entry g target in
      let more = add_configs-Extends gs (add_entry e c) (add_entry-IsIndexed e c is) rest in
      record {
        indexed = more.indexed;
        allows = more.allows;
        named = ground (
          arith,
          more.named,
          aliases-append c.configured_entries (e ∷ []),
          append_assoc (aliases c.configured_entries) (g.alias ∷ []) (map (λ g. g.alias) gs),
        );
        at = λ u. ground (
          arith,
          more.at u,
          lands_at,
          keep-append (is_at u) c.configured_entries (e ∷ []),
          aliases-append (keep (is_at u) c.configured_entries) (keep (is_at u) (e ∷ [])),
          append_assoc (aliases (keep (is_at u) c.configured_entries))
              (aliases (keep (is_at u) (e ∷ []))) (aliases_at u gs),
        );
      }

  -- What a raw URL may resolve to, by the aliases of the configured targets that have it.
  abbrev pub IsRawAnswer :
      List TargetConfig → Bool → Text → ResolvedTarget → Result CatalogError ResolvedTarget → Type 0
  IsRawAnswer configs allows raw target (ok r) =
      (r.base_url ≡ target.base_url)
      × (r.card_path ≡ target.card_path)
      × (((aliases_at target.base_url configs ≡ [])
            × ((configs ≡ []) ⊎ (allows ≡ true))
            × (r.alias ≡ target.alias))
          ⊎ ((a : Text) × (aliases_at target.base_url configs ≡ a ∷ []) × (r.alias ≡ some a)))
  IsRawAnswer configs allows raw target (err e) =
      ((aliases_at target.base_url configs ≡ [])
        × (configs ≢ [])
        × (allows ≡ false)
        × (e ≡ raw_url_disallowed raw target.base_url (map (λ g. g.alias) configs)))
      ⊎ ((2 ≤ length (aliases_at target.base_url configs))
          × (e ≡ ambiguous_url_matches (aliases_at target.base_url configs)))

  no_configs : (configs : List TargetConfig) → [] ≡ map (λ g. g.alias) configs → configs ≡ []
  no_configs [] h = refl
  no_configs (g ∷ gs) h = cc

  some_configs :
      (alias : Text) (rest : List Text) (configs : List TargetConfig)
      → alias ∷ rest ≡ map (λ g. g.alias) configs
      → configs ≢ []
  some_configs alias rest [] h = cc
  some_configs alias rest (g ∷ gs) h = λ empty. cc

  module _ (configs : List TargetConfig) (raw : Text) (target : ResolvedTarget) (c : Catalog)
      (named : aliases c.configured_entries ≡ map (λ g. g.alias) configs) where
    unmatched :
        (entries : List ConfiguredEntry)
        → c.configured_entries ≡ entries
        → aliases_at target.base_url configs ≡ []
        → IsRawAnswer configs c.allows_url_override raw target (by_policy c raw target none)
    unfolding apply_cached_metadata
    unmatched [] is away =
        rw is (refl, refl, inl (away, inl (no_configs configs (ap aliases (sym is) ∙ named)), refl))
    unmatched (e ∷ es) is away = elim (Bool-cases c.allows_url_override) [
      | inl allowed ↦ rw (is, allowed) (refl, refl, inl (away, inr refl, refl))
      | inr not_allowed ↦
          rw (is, not_allowed)
            (inl (
              away,
              some_configs e.alias (aliases es) configs (ap aliases (sym is) ∙ named),
              refl,
              ap (raw_url_disallowed raw target.base_url) (ap aliases (sym is) ∙ named),
            ))
    ]

    by_matches :
        (matches : List ConfiguredEntry)
        → aliases matches ≡ aliases_at target.base_url configs
        → IsRawAnswer configs c.allows_url_override raw target
            (and_then (only_match matches) (by_policy c raw target))
    unfolding resolve_matched_raw_target apply_cached_metadata
    by_matches [] are = unmatched c.configured_entries refl (sym are)
    by_matches (e ∷ []) are = (refl, refl, inr (e.alias, sym are, refl))
    by_matches (e ∷ f ∷ es) are = inr (rw (← are) (omega arith), ap ambiguous_url_matches are)

-- In a catalog that was made from a configuration, whatever cards it has by now, a raw URL that can
-- be normalised resolves to a target with that URL: to that of the one configured target with the
-- URL, under its alias; if there is none, to itself, if nothing is configured or the policy allows
-- it. Otherwise something is configured, and the error names all its aliases, if no target has the
-- URL, or those of the several targets that have it.
pub resolve_raw_target_lem :
    (url : Text → Option Text) (pool : ClientPool) (allows : Bool) (configs : List TargetConfig)
    → (c : Catalog) (cards : Dict CardSnapshot) (refreshes : Dict Refresh)
    → (input : TargetInput) (target : ResolvedTarget)
    → create_target_catalog url pool allows configs ≡ ok c
    → normalize_target url pool input ≡ ok target
    → IsRawAnswer url pool configs allows input.base_url target (
        resolve_raw_target url pool
          (record c { card_cache = cards; card_refreshes = refreshes })
          input)
unfolding create_target_catalog resolve_raw_target find_configured_entry get
resolve_raw_target_lem url pool allows configs c cards refreshes input target made normal =
    let ext = add_configs-Extends url pool configs (empty_catalog allows) (λ u. refl) made in
    let d : Catalog = record c { card_cache = cards; card_refreshes = refreshes } in
    rw (normal, ext.indexed target.base_url)
      (subst
        (λ b. IsRawAnswer url pool configs b input.base_url target (
          and_then (only_match (keep (is_at target.base_url) c.configured_entries))
            (by_policy d input.base_url target)))
        ext.allows
        (by_matches url pool configs input.base_url target d ext.named
          (keep (is_at target.base_url) c.configured_entries) (ext.at target.base_url)))
