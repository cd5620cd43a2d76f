-- ===== src/Base/Dict.antt =====
-- A `Map` with string keys: its entries in the order of insertion. Setting a key that is there
-- keeps its place; deleting it and setting it again puts it last.
use Prim.Native.Nat.{◌≤◌, ◌<◌}
use mathlib.Core.Path.{◌≡◌, refl, subst}
use mathlib.Core.Bool.{Bool, true, false}
use mathlib.Core.Logic.{inl, inr}
use mathlib.Core.Option.{Option, none, some}
use mathlib.Core.List.{List, [], ◌∷◌, ◌++◌}
use native.Mathlib.Omega.{arith}
use openclaw_a2a_plugins.Base.Tests.{if◌then◌else◌, Bool-cases, is_some, or_option}
use openclaw_a2a_plugins.Base.Lists.{length, keep, All}
use openclaw_a2a_plugins.Base.Text.{Text, text_eq, text_eq_iff, text_eq_refl, text_eq→eq}

abbrev pub Dict {ℓ} : Type ℓ → Type ℓ
Dict V = List (Text × V)

module _ {ℓ} {V : Type ℓ} where
  unfoldable pub get : Text → Dict V → Option V
  get k [] = none
  get k ((j, v) ∷ m) = if text_eq j k then some v else get k m

  unfoldable pub set : Text → V → Dict V → Dict V
  set k v [] = (k, v) ∷ []
  set k v ((j, w) ∷ m) = if text_eq j k then (j, v) ∷ m else (j, w) ∷ set k v m

  unfoldable pub delete : Text → Dict V → Dict V
  delete k [] = []
  delete k ((j, w) ∷ m) =
      let rest = delete k m in elim (text_eq j k) [ true ↦ rest | false ↦ (j, w) ∷ rest ]

  unfoldable pub has : Text → Dict V → Bool
  unfolding get
  has k m = is_some (get k m)

  pub get-set :
      (k j : Text) (v : V) (m : Dict V)
      → get j (set k v m) ≡ (if text_eq k j then some v else get j m)
  unfolding get set
  get-set k j v [] = refl
  get-set k j v ((i, w) ∷ m) =
      ground (arith, text_eq_iff k j, text_eq_iff i k, text_eq_iff i j, get-set k j v m)

  pub get-set_self : (k : Text) (v : V) (m : Dict V) → get k (set k v m) ≡ some v
  get-set_self k v m = simp (get-set, text_eq_refl)

  pub get-delete :
      (k j : Text) (m : Dict V) → get j (delete k m) ≡ (if text_eq k j then none else get j m)
  unfolding get delete
  get-delete k j [] = ground (arith, text_eq_iff k j)
  get-delete k j ((i, w) ∷ m) =
      ground (arith, text_eq_iff k j, text_eq_iff i k, text_eq_iff i j, get-delete k j m)

  get-delete_self : (k : Text) (m : Dict V) → get k (delete k m) ≡ none
  get-delete_self k m = simp (get-delete, text_eq_refl)

  -- No key twice, as in every `Map`; the number of entries is then its `size`.
  abbrev pub IsMap : Dict V → Type ℓ
  IsMap [] = Unit
  IsMap ((k, v) ∷ m) = (get k m ≡ none) × IsMap m

  pub set-IsMap : (k : Text) (v : V) (m : Dict V) → IsMap m → IsMap (set k v m)
  unfolding set get
  set-IsMap k v [] h = (refl, tt)
  set-IsMap k v ((j, w) ∷ m) (p, h) =
      ground (arith, p, h, set-IsMap k v m h, text_eq_iff j k, text_eq_iff k j, get-set k j v m)

  pub delete-IsMap : (k : Text) (m : Dict V) → IsMap m → IsMap (delete k m)
  unfolding delete
  delete-IsMap k [] h = tt
  delete-IsMap k ((j, w) ∷ m) (p, h) = ground (arith, p, h, delete-IsMap k m h, get-delete k j m)

  keep-get-none :
      (p : Text × V → Bool) (k : Text) (m : Dict V) → get k m ≡ none → get k (keep p m) ≡ none
  unfolding get
  keep-get-none p k [] h = refl
  keep-get-none p k ((j, w) ∷ m) h = ground (arith, keep-get-none p k m)

  pub keep-IsMap : (p : Text × V → Bool) (m : Dict V) → IsMap m → IsMap (keep p m)
  keep-IsMap p [] h = tt
  keep-IsMap p ((j, w) ∷ m) (q, h) = ground (arith, q, h, keep-IsMap p m h, keep-get-none p j m q)

  -- What a filter on the entries does to a lookup.
  pub get-keep :
      (p : Text × V → Bool) (k : Text) (m : Dict V)
      → IsMap m
      → get k (keep p m)
        ≡ elim (get k m) [ none ↦ none | some v ↦ if p (k, v) then some v else none ]
  unfolding get
  get-keep p k [] h = refl
  get-keep p k ((j, w) ∷ m) (q, h) =
      ground (arith, text_eq_iff j k, get-keep p k m h, keep-get-none p k m)

  length-delete-le : (k : Text) (m : Dict V) → length (delete k m) ≤ length m
  unfolding delete
  length-delete-le k [] = omega arith
  length-delete-le k ((j, w) ∷ m) = ground (arith, length-delete-le k m)

  pub length-delete-lt :
      (k : Text) {v : V} (m : Dict V) → get k m ≡ some v → length (delete k m) < length m
  unfolding delete get
  length-delete-lt k [] h = cc
  length-delete-lt k {v} ((j, w) ∷ m) h =
      ground (arith, length-delete-le k m, length-delete-lt k {v = v} m)

  pub length-set_present :
      (k : Text) (v : V) {w : V} (m : Dict V) → get k m ≡ some w → length (set k v m) ≡ length m
  unfolding set get
  length-set_present k v [] h = cc
  length-set_present k v {w} ((j, u) ∷ m) h = ground (arith, length-set_present k v {w = w} m)

  -- A new key goes last.
  pub set_absent : (k : Text) (v : V) (m : Dict V) → get k m ≡ none → set k v m ≡ m ++ (k, v) ∷ []
  unfolding set get
  set_absent k v [] h = refl
  set_absent k v ((j, u) ∷ m) h = ground (arith, set_absent k v m)

  pub delete-set_absent :
      (k : Text) (v : V) (m : Dict V) → get k m ≡ none → delete k (set k v m) ≡ m
  unfolding set get delete
  delete-set_absent k v [] h = ground (arith, text_eq_refl k)
  delete-set_absent k v ((j, u) ∷ m) h = ground (arith, delete-set_absent k v m)

  pub All-set {κ} :
      (P : Text × V → Type κ) (k : Text) (v : V) (m : Dict V)
      → All P m
      → P (k, v)
      → All P (set k v m)
  unfolding set
  All-set P k v [] h p = (p, tt)
  All-set P k v ((j, w) ∷ m) (q, h) p = elim (Bool-cases (text_eq j k)) [
    | inl e ↦ rw e (rw (text_eq→eq j k e) p, h)
    | inr e ↦ rw e (q, All-set P k v m h p)
  ]

  pub All-delete {κ} :
      (P : Text × V → Type κ) (k : Text) (m : Dict V) → All P m → All P (delete k m)
  unfolding delete
  All-delete P k [] h = tt
  All-delete P k ((j, w) ∷ m) (q, h) = ground (arith, q, All-delete P k m h)

  pub All-get {κ} :
      (P : Text × V → Type κ) (k : Text) {v : V} (m : Dict V)
      → All P m
      → get k m ≡ some v
      → P (k, v)
  unfolding get
  All-get P k [] h e = cc
  All-get P k {v} ((j, w) ∷ m) (q, h) e = elim (Bool-cases (text_eq j k)) [
    | inl t ↦ rw (← text_eq→eq j k t) (subst (λ x. P (j, x)) (ground arith) q)
    | inr t ↦ All-get P k m h (ground arith)
  ]

  -- `{ ...base, ...m }`.
  pub spread : Dict V → Dict V → Dict V
  spread base [] = base
  spread base ((k, v) ∷ m) = spread (set k v base) m

  -- An override wins, and the rest of the base stays.
  pub get-spread :
      (k : Text) (base m : Dict V)
      → IsMap m
      → get k (spread base m) ≡ or_option (get k m) (get k base)
  unfolding spread get
  get-spread k base [] u = refl
  get-spread k base ((j, v) ∷ m) (absent, u) =
      ground (arith, absent, text_eq_iff j k, get-spread k (set j v base) m u, get-set j k v base)

  spread-IsMap : (base m : Dict V) → IsMap base → IsMap (spread base m)
  unfolding spread
  spread-IsMap base [] u = u
  spread-IsMap base ((k, v) ∷ m) u = spread-IsMap (set k v base) m (set-IsMap k v base u)
