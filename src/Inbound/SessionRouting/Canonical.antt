-- ===== src/Inbound/SessionRouting/Canonical.antt =====
-- The text of a note does not depend on the order in which the keys of its objects came.
use openclaw_a2a_plugins.Base.{
  ◌≡◌, ◌≢◌, refl, ap, sym, ◌∙◌, true, false, inl, inr, [], ◌∷◌, arith, Bool-cases,
}
use openclaw_a2a_plugins.Base.Text.{Text}
use openclaw_a2a_plugins.Inbound.Protocol.{
  Json, null, bool, num, str, arr, obj, Items, nil, item, Fields, end, field,
}
use openclaw_a2a_plugins.Inbound.SessionRouting.StableJson.{
  text_leb, key_leb, insert_field, stable, stable_items, stable_fields,
}

text_leb_refl : (s : Text) → text_leb s s ≡ true
text_leb_refl [] = refl
text_leb_refl (a ∷ s) = ground (arith, text_leb_refl s)

text_leb_total : (s t : Text) → text_leb s t ≡ false → text_leb t s ≡ true
text_leb_total [] t h = cc
text_leb_total (a ∷ s) [] h = refl
text_leb_total (a ∷ s) (b ∷ t) h = ground (arith, text_leb_total s t)

text_leb_antisymm : (s t : Text) → text_leb s t ≡ true → text_leb t s ≡ true → s ≡ t
text_leb_antisymm [] [] h k = refl
text_leb_antisymm [] (b ∷ t) h k = cc
text_leb_antisymm (a ∷ s) [] h k = cc
text_leb_antisymm (a ∷ s) (b ∷ t) h k = ground (arith, text_leb_antisymm s t)

text_leb_trans : (s t u : Text) → text_leb s t ≡ true → text_leb t u ≡ true → text_leb s u ≡ true
text_leb_trans [] t u h k = refl
text_leb_trans (a ∷ s) [] u h k = cc
text_leb_trans (a ∷ s) (b ∷ t) [] h k = cc
text_leb_trans (a ∷ s) (b ∷ t) (c ∷ u) h k = ground (arith, text_leb_trans s t u)

key_leb_refl : (k : Text) → key_leb k k ≡ true
unfolding key_leb
key_leb_refl k = ground (arith, text_leb_refl k)

key_leb_total : (k l : Text) → key_leb k l ≡ false → key_leb l k ≡ true
unfolding key_leb
key_leb_total k l h = ground (arith, text_leb_total k l)

key_leb_antisymm : (k l : Text) → key_leb k l ≡ true → key_leb l k ≡ true → k ≡ l
unfolding key_leb
key_leb_antisymm k l h g = ground (arith, text_leb_antisymm k l)

key_leb_trans : (k l m : Text) → key_leb k l ≡ true → key_leb l m ≡ true → key_leb k m ≡ true
unfolding key_leb
key_leb_trans k l m h g = ground (arith, text_leb_trans k l m)

insert_field_comm :
    (k l : Text) (i j : Json) (fs : Fields)
    → k ≢ l
    → insert_field k i (insert_field l j fs) ≡ insert_field l j (insert_field k i fs)
unfolding insert_field
insert_field_comm k l i j end d = ground (arith, d, key_leb_total k l, key_leb_antisymm k l)
insert_field_comm k l i j (field m x fs) d = ground (
  arith,
  d,
  key_leb_total k l,
  key_leb_total k m,
  key_leb_total l m,
  key_leb_antisymm k l,
  key_leb_trans k l m,
  key_leb_trans l k m,
  key_leb_trans k m l,
  key_leb_trans l m k,
  insert_field_comm k l i j fs d,
)

-- Two values that differ in the order of the entries of objects, at any depth.
mutual
  pub data Similar : Json → Json → Type 0 where
    same : (j : Json) → Similar j j
    arrays : {xs ys : Items} → SimilarItems xs ys → Similar (arr xs) (arr ys)
    objects : {fs gs : Fields} → Reordered fs gs → Similar (obj fs) (obj gs)

  pub data SimilarItems : Items → Items → Type 0 where
    no_items : SimilarItems nil nil
    one_more :
        {j k : Json} {xs ys : Items}
        → Similar j k
        → SimilarItems xs ys
        → SimilarItems (item j xs) (item k ys)

  pub data Reordered : Fields → Fields → Type 0 where
    no_fields : Reordered end end
    keeps :
        (k : Text) {i j : Json} {fs gs : Fields}
        → Similar i j
        → Reordered fs gs
        → Reordered (field k i fs) (field k j gs)
    swaps :
        (k l : Text) (i j : Json) (fs : Fields)
        → k ≢ l
        → Reordered (field k i (field l j fs)) (field l j (field k i fs))
    in_turn : {fs gs hs : Fields} → Reordered fs gs → Reordered gs hs → Reordered fs hs

mutual
  unfolding stable stable_items stable_fields

  Similar-stable : {j k : Json} → Similar j k → stable j ≡ stable k
  Similar-stable (same j) = refl
  Similar-stable (arrays r) = ap arr (SimilarItems-stable r)
  Similar-stable (objects r) = ap obj (Reordered-stable r)

  SimilarItems-stable : {xs ys : Items} → SimilarItems xs ys → stable_items xs ≡ stable_items ys
  SimilarItems-stable no_items = refl
  SimilarItems-stable (one_more s r) = λ i. item (Similar-stable s i) (SimilarItems-stable r i)

  Reordered-stable : {fs gs : Fields} → Reordered fs gs → stable_fields fs ≡ stable_fields gs
  Reordered-stable no_fields = refl
  Reordered-stable (keeps k s r) = λ i. insert_field k (Similar-stable s i) (Reordered-stable r i)
  Reordered-stable (swaps k l i j fs d) =
      insert_field_comm k l (stable i) (stable j) (stable_fields fs) d
  Reordered-stable (in_turn r q) = Reordered-stable r ∙ Reordered-stable q

stable_fields-insert_field :
    (k : Text) (j : Json) (fs : Fields)
    → stable_fields (insert_field k j fs) ≡ insert_field k (stable j) (stable_fields fs)
unfolding stable_fields insert_field
stable_fields-insert_field k j end = refl
stable_fields-insert_field k j (field l x fs) = elim (Bool-cases (key_leb k l)) [
  | inl first ↦ rw first refl
  | inr later ↦
      let differ : k ≢ l = λ e. ground (arith, e, key_leb_refl l) in
      rw later (
        ap (insert_field l (stable x)) (stable_fields-insert_field k j fs)
        ∙ insert_field_comm l k (stable x) (stable j) (stable_fields fs) (λ e. differ (sym e)))
]

mutual
  unfolding stable stable_items stable_fields

  stable-stable : (j : Json) → stable (stable j) ≡ stable j
  stable-stable null = refl
  stable-stable (bool b) = refl
  stable-stable (num n) = refl
  stable-stable (str t) = refl
  stable-stable (arr js) = ap arr (stable_items-stable_items js)
  stable-stable (obj fs) = ap obj (stable_fields-stable_fields fs)

  stable_items-stable_items : (js : Items) → stable_items (stable_items js) ≡ stable_items js
  stable_items-stable_items nil = refl
  stable_items-stable_items (item j js) =
      λ i. item (stable-stable j i) (stable_items-stable_items js i)

  stable_fields-stable_fields : (fs : Fields) → stable_fields (stable_fields fs) ≡ stable_fields fs
  stable_fields-stable_fields end = refl
  stable_fields-stable_fields (field k j fs) =
      stable_fields-insert_field k (stable j) (stable_fields fs) ∙ λ i.
      insert_field k (stable-stable j i) (stable_fields-stable_fields fs i)

Reordered-refl : (fs : Fields) → Reordered fs fs
Reordered-refl end = no_fields
Reordered-refl (field k j fs) = keeps k (same j) (Reordered-refl fs)

insert_field-Reordered :
    (k : Text) (j : Json) (fs : Fields) → Reordered (field k j fs) (insert_field k j fs)
unfolding insert_field
insert_field-Reordered k j end = Reordered-refl (field k j end)
insert_field-Reordered k j (field l x fs) = elim (Bool-cases (key_leb k l)) [
  | inl first ↦ rw first (Reordered-refl (field k j (field l x fs)))
  | inr later ↦
      let differ : k ≢ l = λ e. ground (arith, e, key_leb_refl l) in
      rw later
        (in_turn (swaps k l j x fs differ) (keeps l (same x) (insert_field-Reordered k j fs)))
]

mutual
  unfolding stable stable_items stable_fields

  stable-Similar : (j : Json) → Similar j (stable j)
  stable-Similar null = same null
  stable-Similar (bool b) = same (bool b)
  stable-Similar (num n) = same (num n)
  stable-Similar (str t) = same (str t)
  stable-Similar (arr js) = arrays (stable_items-SimilarItems js)
  stable-Similar (obj fs) = objects (stable_fields-Reordered fs)

  stable_items-SimilarItems : (js : Items) → SimilarItems js (stable_items js)
  stable_items-SimilarItems nil = no_items
  stable_items-SimilarItems (item j js) = one_more (stable-Similar j) (stable_items-SimilarItems js)

  stable_fields-Reordered : (fs : Fields) → Reordered fs (stable_fields fs)
  stable_fields-Reordered end = no_fields
  stable_fields-Reordered (field k j fs) =
      in_turn (keeps k (stable-Similar j) (stable_fields-Reordered fs))
        (insert_field-Reordered k (stable j) (stable_fields fs))

-- Values that differ only in the order of the entries of objects, at any depth, have one stable
-- form; a stable form is its own, and differs from the value only so.
pub stable_lem :
    {j k : Json}
    → Similar j k
    → (stable j ≡ stable k) × (stable (stable j) ≡ stable j) × Similar j (stable j)
stable_lem {j} s = (Similar-stable s, stable-stable j, stable-Similar j)
