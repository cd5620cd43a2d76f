-- ===== src/Inbound/SessionRouting/Bodies.antt =====
-- What the agent is given of a message: its texts, or a note that there is data.
use openclaw_a2a_plugins.Base.{
  ℕ, ◌+◌, ◌≡◌, refl, ap, ◌∙◌, sym, Bool, true, false, ◌||◌, Option, none, some, List, [], ◌∷◌, ◌++◌,
  arith, any, keep, append_assoc, append-nil, keep-append, subst, or_else, Bool-cases, ◌⊎◌, inl,
  inr, if◌then◌else◌,
}
use openclaw_a2a_plugins.Base.Text.{Text, codes}
use openclaw_a2a_plugins.Base.Strings.{trim, is_filled, has_text, joined}
use openclaw_a2a_plugins.Base.Dict.{get}
use openclaw_a2a_plugins.Base.Results.{Result, ok, and_then-ok}
use openclaw_a2a_plugins.Inbound.Protocol.{Json}
use openclaw_a2a_plugins.Inbound.SessionRouting.Parts.{
  Classification, is_text, is_data, is_file, is_invalid, is_other, classify_message_part, text_of,
  texts_of_parts, build_text_body, PartError, validate_inbound_message_parts,
}
use openclaw_a2a_plugins.Inbound.SessionRouting.Routes.{
  RoutedRequest, RouteContext, Collected, collect_part, collect_parts, resolve_body_for_agent,
  build_inbound_route_context, with_content, with_metadata, append_array_entry, record_of,
  route_context, nothing_collected, resolve_inbound_peer_identity,
}

abbrev is_data_part : Classification → Bool
is_data_part (is_data value) = true
is_data_part _ = false

abbrev pub has_data : List Json → Bool
has_data = any λ p. is_data_part (classify_message_part p)

-- The texts that are not empty.
abbrev pub filled_texts : List Json → List Text
filled_texts parts = keep is_filled (texts_of_parts parts)

ok_inj : {A : Type 0} {a b : A} → ◌≡◌ {A = Result PartError A} (ok a) (ok b) → a ≡ b
ok_inj h = cc

append_array_entry-keep :
    (ts : List Text) (t : Text) → append_array_entry ts t ≡ ts ++ keep is_filled (t ∷ [])
append_array_entry-keep ts [] = sym (append-nil ts)
append_array_entry-keep ts (c ∷ s) = refl

-- The texts as one, as the agent reads them.
abbrev shown_texts : List Json → Text
shown_texts parts = joined (codes "\n\n") (filled_texts parts)

-- The agent is given the texts, or if they are blank a note that there is data, or else nothing.
abbrev pub IsRoute : List Json → RouteContext → Type 0
IsRoute parts c =
    ((has_text (shown_texts parts) ≡ true)
      × (c.raw_body ≡ shown_texts parts)
      × (c.body_for_agent ≡ shown_texts parts)
      × (c.has_usable_parts ≡ true))
    ⊎ ((has_text (shown_texts parts) ≡ false)
        × (c.raw_body ≡ [])
        × (c.body_for_agent ≡ (if has_data parts then codes "[User sent structured data]" else []))
        × (c.has_usable_parts ≡ has_data parts))

not_blank : (body : Text) → has_text body ≡ true → is_filled body ≡ true
unfolding trim
not_blank [] h = cc
not_blank (c ∷ s) h = refl

body_kept : (body : Text) (b : Bool) → is_filled body ≡ true → resolve_body_for_agent body b ≡ body
body_kept [] b h = cc
body_kept (c ∷ s) b h = refl

body_missing :
    (b : Bool)
    → resolve_body_for_agent [] b ≡ (if b then codes "[User sent structured data]" else [])
body_missing true = refl
body_missing false = refl

-- The bodies, by the texts and by whether there is data.
body_parts :
    (texts : List Text) (b : Bool)
    → let body = joined (codes "\n\n") texts in
      let raw = build_text_body texts in
      ((has_text body ≡ true)
        × (raw ≡ body)
        × (resolve_body_for_agent raw b ≡ body)
        × ((is_filled raw || b) ≡ true))
      ⊎ ((has_text body ≡ false)
          × (raw ≡ [])
          × (resolve_body_for_agent raw b ≡ (if b then codes "[User sent structured data]" else []))
          × ((is_filled raw || b) ≡ b))
unfolding build_text_body
body_parts texts b =
    let body = joined (codes "\n\n") texts in
    elim (Bool-cases (has_text body)) [
      | inl shown ↦ inl (
        shown,
        rw shown refl,
        rw shown (body_kept body b (not_blank body shown)),
        rw (shown, not_blank body shown) refl,
      )
      | inr blank ↦ inr (blank, rw blank refl, rw blank (body_missing b), rw blank refl)
    ]

module _ (pretty : Json → Text) (shown : Json → Text) where
  with_content-text :
      (i : ℕ) (k : Classification) (c : Collected)
      → (with_content pretty shown i k c).text_parts ≡ c.text_parts ++ keep is_filled (text_of k)
  with_content-text i (is_text t) c = append_array_entry-keep c.text_parts t
  with_content-text i (is_data value) c = sym (append-nil c.text_parts)
  with_content-text i (is_file member) c = sym (append-nil c.text_parts)
  with_content-text i (is_invalid reason) c = sym (append-nil c.text_parts)
  with_content-text i is_other c = sym (append-nil c.text_parts)

  with_content-has_data :
      (i : ℕ) (k : Classification) (c : Collected)
      → (with_content pretty shown i k c).has_structured_data
        ≡ (c.has_structured_data || is_data_part k)
  with_content-has_data i (is_text t) c = ground arith
  with_content-has_data i (is_data value) c = ground arith
  with_content-has_data i (is_file member) c = ground arith
  with_content-has_data i (is_invalid reason) c = ground arith
  with_content-has_data i is_other c = ground arith

  with_metadata-rest :
      (i : ℕ) (kind value : Option Json) (c : Collected)
      → ((with_metadata pretty shown i kind value c).text_parts ≡ c.text_parts)
        × ((with_metadata pretty shown i kind value c).has_structured_data ≡ c.has_structured_data)
  with_metadata-rest i kind none c = (refl, refl)
  with_metadata-rest i kind (some value) c = ground arith

  collect_part-text :
      (i : ℕ) (p : Json) (c : Collected)
      → (collect_part pretty shown i p c).text_parts
        ≡ c.text_parts ++ keep is_filled (text_of (classify_message_part p))
  collect_part-text i p c =
      (with_metadata-rest i (get (codes "kind") (record_of p))
        (get (codes "metadata") (record_of p))
        (with_content pretty shown i (classify_message_part p) c)).0
      ∙ with_content-text i (classify_message_part p) c

  collect_part-has_data :
      (i : ℕ) (p : Json) (c : Collected)
      → (collect_part pretty shown i p c).has_structured_data
        ≡ (c.has_structured_data || is_data_part (classify_message_part p))
  collect_part-has_data i p c =
      (with_metadata-rest i (get (codes "kind") (record_of p))
        (get (codes "metadata") (record_of p))
        (with_content pretty shown i (classify_message_part p) c)).1
      ∙ with_content-has_data i (classify_message_part p) c

  collect_parts-text :
      (i : ℕ) (parts : List Json) (c : Collected)
      → (collect_parts pretty shown i parts c).text_parts ≡ c.text_parts ++ filled_texts parts
  unfolding collect_parts
  collect_parts-text i [] c = sym (append-nil c.text_parts)
  collect_parts-text i (p ∷ ps) c =
      collect_parts-text (i + 1) ps (collect_part pretty shown i p c)
      ∙ ap (λ ts. ts ++ filled_texts ps) (collect_part-text i p c)
      ∙ append_assoc c.text_parts (keep is_filled (text_of (classify_message_part p)))
          (filled_texts ps)
      ∙ ap (λ ts. c.text_parts ++ ts)
          (sym (keep-append is_filled (text_of (classify_message_part p)) (texts_of_parts ps)))

  collect_parts-has_data :
      (i : ℕ) (parts : List Json) (c : Collected)
      → (collect_parts pretty shown i parts c).has_structured_data
        ≡ (c.has_structured_data || has_data parts)
  unfolding collect_parts
  collect_parts-has_data i [] c = ground arith
  collect_parts-has_data i (p ∷ ps) c =
      collect_parts-has_data (i + 1) ps (collect_part pretty shown i p c)
      ∙ ground (arith, collect_part-has_data i p c)

  route_context-IsRoute :
      (r : RoutedRequest) (account_id peer_id : Text) (now : ℕ)
      → IsRoute r.parts (route_context pretty shown r account_id peer_id now)
  route_context-IsRoute r account_id peer_id now =
      let nothing = nothing_collected pretty shown r in
      let c = collect_parts pretty shown 0 r.parts nothing in
      rw (← collect_parts-text 0 r.parts nothing, ← collect_parts-has_data 0 r.parts nothing)
        (body_parts c.text_parts c.has_structured_data)

  -- The agent is given the texts of the message that are not empty, with a blank line between them.
  -- If they are blank it is given a note if there is a data part, and nothing if there is none, and
  -- only then is the message not usable.
  pub build_inbound_route_context_lem :
      (r : RoutedRequest) (account_id : Text) (peer_id : Option Text) (now : ℕ) {c : RouteContext}
      → build_inbound_route_context pretty shown r account_id peer_id now ≡ ok c
      → IsRoute r.parts c
  unfolding build_inbound_route_context
  build_inbound_route_context_lem r account_id peer_id now h =
      let (checked, valid, made) = and_then-ok (validate_inbound_message_parts r.parts) h in
      subst (IsRoute r.parts) (ok_inj made) (
        route_context-IsRoute r account_id (or_else peer_id (resolve_inbound_peer_identity r).id)
          now)
