-- ===== src/Inbound/SessionRouting/StableJson.antt =====
-- `toStableJsonValue` of packages/openclaw-a2a-inbound/src/session-routing.ts on JSON values, which
-- have no cycle. The keys of each object are sorted by their code units; the object that
-- `Object.fromEntries` makes of them then has its array indices first, by their numbers.
use openclaw_a2a_plugins.Base.{
  ℕ, ◌+◌, ◌-◌, ◌*◌, Bool, true, false, ◌&&◌, ◌||◌, Option, none, some, [], ◌∷◌, ltb, leb, ◌==◌,
  or_else, if◌then◌else◌,
}
use openclaw_a2a_plugins.Base.Text.{Text}
use openclaw_a2a_plugins.Inbound.Protocol.{
  Json, null, bool, num, str, arr, obj, Items, nil, item, Fields, end, field,
}

abbrev pub text_leb : Text → Text → Bool
text_leb [] t = true
text_leb (a ∷ s) [] = false
text_leb (a ∷ s) (b ∷ t) = ltb a b || (a == b && text_leb s t)

-- The number that digits write, after those that were read.
abbrev digits_value : ℕ → Text → Option ℕ
digits_value read [] = some read
digits_value read (c ∷ s) =
    let rest = digits_value (10 * read + (c - 48)) s in if leb 48 c && leb c 57 then rest else none

abbrev max_array_length : ℕ
max_array_length = 4294967295

abbrev if_index : Option ℕ → Option ℕ
if_index (some n) = if ltb n max_array_length then some n else none
if_index none = none

-- The array index that a key is: its decimal digits without a leading zero.
abbrev array_index : Text → Option ℕ
array_index [] = none
array_index (c ∷ []) = if_index (digits_value 0 (c ∷ []))
array_index (c ∷ d ∷ s) =
    let value = if_index (digits_value 0 (c ∷ d ∷ s)) in if c == 48 then none else value

-- The place of a key: that of its number if it is an index, and behind all indices otherwise.
unfoldable pub rank : Text → ℕ
rank k = or_else (array_index k) max_array_length

unfoldable pub key_leb : Text → Text → Bool
key_leb k l = ltb (rank k) (rank l) || (rank k == rank l && text_leb k l)

-- The insertion of a key into those that are sorted.
unfoldable pub insert_field : Text → Json → Fields → Fields
unfolding key_leb
insert_field k j end = field k j end
insert_field k j (field l i fs) =
    if key_leb k l then field k j (field l i fs) else field l i (insert_field k j fs)

unfoldable mutual
  pub stable : Json → Json
  stable null = null
  stable (bool b) = bool b
  stable (num n) = num n
  stable (str t) = str t
  stable (arr js) = arr (stable_items js)
  stable (obj fs) = obj (stable_fields fs)

  pub stable_items : Items → Items
  stable_items nil = nil
  stable_items (item j js) = item (stable j) (stable_items js)

  pub stable_fields : Fields → Fields
  stable_fields end = end
  stable_fields (field k j fs) = insert_field k (stable j) (stable_fields fs)
