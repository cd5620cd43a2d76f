-- ===== src/Inbound/SessionRouting/Examples.antt =====
-- A message with a text, a data part and metadata, and one with a file.
use openclaw_a2a_plugins.Base.{refl, ◌≡◌, none, [], ◌∷◌, ◌⊎◌, All, ◌≢◌}
use openclaw_a2a_plugins.Base.Text.{Text, codes, text_eq, text_ne}
use openclaw_a2a_plugins.Base.Strings.{trim}
use openclaw_a2a_plugins.Base.Dict.{get, has}
use openclaw_a2a_plugins.Base.Results.{ok, err}
use openclaw_a2a_plugins.Inbound.Protocol.{Json, null, num, nat, str, obj, field, end}
use openclaw_a2a_plugins.Inbound.SessionRouting.Parts.{
  PartError, unsupported_file, by_url, classify_message_part, validate_inbound_message_parts,
  validate_from,
}
use openclaw_a2a_plugins.Inbound.SessionRouting.StableJson.{
  stable, stable_fields, insert_field, key_leb, rank,
}
use openclaw_a2a_plugins.Inbound.SessionRouting.Routes.{
  RoutedRequest, RouteContext, resolve_inbound_peer_identity, route_context,
  build_inbound_route_context,
}
use openclaw_a2a_plugins.Inbound.SessionRouting.Refusals.{
  IsAccepted, Refused, validate_inbound_message_parts_lem,
}
use openclaw_a2a_plugins.Inbound.SessionRouting.Canonical.{Similar, objects, swaps, stable_lem}
use openclaw_a2a_plugins.Inbound.SessionRouting.Bodies.{IsRoute, build_inbound_route_context_lem}

abbrev text_json : Json
text_json = obj (field (codes "text") (str (codes "hi")) end)

abbrev data_json : Json
data_json = obj (field (codes "kind") (str (codes "data")) end)

abbrev url_json : Json
url_json = obj (field (codes "url") (str (codes "x")) end)

validate_inbound_message_parts_lem_example :
    ((validate_inbound_message_parts (text_json ∷ url_json ∷ []) ≡ ok tt)
      × All IsAccepted (text_json ∷ url_json ∷ []))
    ⊎ ((e : PartError) × (validate_inbound_message_parts (text_json ∷ url_json ∷ []) ≡ err e)
        × Refused 0 (text_json ∷ url_json ∷ []) e)
validate_inbound_message_parts_lem_example =
    validate_inbound_message_parts_lem (text_json ∷ url_json ∷ [])

url_refused :
    validate_inbound_message_parts (text_json ∷ url_json ∷ []) ≡ err (unsupported_file 1 by_url)
unfolding validate_inbound_message_parts validate_from classify_message_part get has text_eq
url_refused = refl

-- The same keys in either order.
abbrev forwards : Json
forwards = obj (field (codes "a") null (field (codes "b") (num (nat 1)) end))

abbrev backwards : Json
backwards = obj (field (codes "b") (num (nat 1)) (field (codes "a") null end))

names_differ : codes "a" ≢ codes "b"
unfolding text_eq
names_differ = text_ne {s = codes "a"} {t = codes "b"} refl

stable_lem_example :
    (stable forwards ≡ stable backwards)
    × (stable (stable forwards) ≡ stable forwards)
    × Similar forwards (stable forwards)
stable_lem_example =
    stable_lem (objects (swaps (codes "a") (codes "b") null (num (nat 1)) end names_differ))

-- Indices come first, in the order of their numbers.
indices_first :
    stable (obj (field (codes "b") null (field (codes "10") null (field (codes "9") null end))))
    ≡ obj (field (codes "9") null (field (codes "10") null (field (codes "b") null end)))
unfolding stable stable_fields insert_field key_leb rank
indices_first = refl

abbrev request : RoutedRequest
request = record {
  user_name = none;
  context_id = codes "c1";
  task_id = codes "t1";
  message_id = codes "m1";
  parts = text_json ∷ data_json ∷ [];
  metadata = none;
}

abbrev pretty : Json → Text
pretty j = codes "{}"

abbrev route : RouteContext
route = route_context pretty pretty request (codes "acc") (codes "c1") 7

request_routed : build_inbound_route_context pretty pretty request (codes "acc") none 7 ≡ ok route
unfolding build_inbound_route_context validate_inbound_message_parts validate_from
    classify_message_part resolve_inbound_peer_identity get has text_eq trim
request_routed = refl

build_inbound_route_context_lem_example : IsRoute request.parts route
build_inbound_route_context_lem_example =
    build_inbound_route_context_lem pretty pretty request (codes "acc") none 7 request_routed
