-- ===== src/Outbound/TaskHandles/Evict.antt =====
-- Eviction: which entry goes, and how many stay.
use openclaw_a2a_plugins.Base.{
  ℕ, zero, suc, ◌≤◌, ◌≡◌, refl, sym, subst, ◌⊎◌, inl, inr, ◌≢◌, true, Option, none, some, [], ◌∷◌,
  arith, ltb, length, All, Bool-cases, Option-cases,
}
use openclaw_a2a_plugins.Base.Text.{Text, text_eq, text_eq_iff, text_eq_refl}
use openclaw_a2a_plugins.Base.Dict.{
  Dict, get, delete, IsMap, delete-IsMap, get-delete, length-delete-lt, All-delete,
}
use openclaw_a2a_plugins.Outbound.TaskHandles.{
  TaskHandleRecord, oldest_from, evictable, evict_rounds,
}

-- No key is the empty text.
abbrev pub HasNames : Dict TaskHandleRecord → Type 0
HasNames m = All (λ entry. entry.0 ≢ []) m

-- The entry that the scan returns is no younger than any that it saw.
abbrev IsOldest : Option (Text × ℕ) → Dict TaskHandleRecord → Type 0
IsOldest none m = m ≡ []
IsOldest (some (k, t)) m = All (λ entry. t ≤ entry.1.last_accessed_at) m

AtLeast-mono :
    (s t : ℕ) (m : Dict TaskHandleRecord)
    → s ≤ t
    → All (λ entry. t ≤ entry.1.last_accessed_at) m
    → All (λ entry. s ≤ entry.1.last_accessed_at) m
AtLeast-mono s t [] h k = tt
AtLeast-mono s t ((j, e) ∷ m) h (p, k) = (omega arith, AtLeast-mono s t m h k)

oldest_from-bound :
    (b : Text) (t : ℕ) (m : Dict TaskHandleRecord)
    → (k : Text) × (s : ℕ) × (oldest_from (some (b, t)) m ≡ some (k, s))
      × (s ≤ t)
      × All (λ entry. s ≤ entry.1.last_accessed_at) m
unfolding oldest_from
oldest_from-bound b t [] = (b, t, refl, omega arith, tt)
oldest_from-bound b t ((j, e) ∷ m) = elim (Bool-cases (ltb e.last_accessed_at t)) [
  | inl lt ↦
      let (k, s, eq, le, rest) = oldest_from-bound j e.last_accessed_at m in
      (k, s, rw lt eq, ground arith, (le, rest))
  | inr ge ↦
      let (k, s, eq, le, rest) = oldest_from-bound b t m in
      (k, s, rw ge eq, le, (ground arith, rest))
]

module _ (P : Text → ℕ → Type 0) where
  oldest_from-holds :
      (b : Text) (t : ℕ) (m : Dict TaskHandleRecord) {k : Text} {s : ℕ}
      → oldest_from (some (b, t)) m ≡ some (k, s)
      → P b t
      → All (λ entry. P entry.0 entry.1.last_accessed_at) m
      → P k s
  unfolding oldest_from
  oldest_from-holds b t [] eq p h = subst (λ (x : Text × ℕ). P x.0 x.1) (ground (arith, eq)) p
  oldest_from-holds b t ((j, e) ∷ m) eq p (q, h) = elim (Bool-cases (ltb e.last_accessed_at t)) [
    | inl lt ↦ oldest_from-holds j e.last_accessed_at m (rw lt at eq) q h
    | inr ge ↦ oldest_from-holds b t m (rw ge at eq) p h
  ]

-- Each entry of a map is found under its key.
abbrev IsEntry : Dict TaskHandleRecord → Text → ℕ → Type 0
IsEntry m k s = (k ≢ []) × (e : TaskHandleRecord) × (get k m ≡ some e) × (e.last_accessed_at ≡ s)

IsEntry-cons :
    (m : Dict TaskHandleRecord) (j : Text) (f : TaskHandleRecord) (xs : Dict TaskHandleRecord)
    → get j m ≡ none
    → All (λ entry. IsEntry m entry.0 entry.1.last_accessed_at) xs
    → All (λ entry. IsEntry ((j, f) ∷ m) entry.0 entry.1.last_accessed_at) xs
unfolding get
IsEntry-cons m j f [] absent h = tt
IsEntry-cons m j f ((k, e) ∷ xs) absent (p, h) =
    let (named, g, found, same) = p in
    (
      (named, g, ground (arith, text_eq_iff j k, found, absent), same),
      IsEntry-cons m j f xs absent h,
    )

All-IsEntry :
    (m : Dict TaskHandleRecord)
    → IsMap m
    → HasNames m
    → All (λ entry. IsEntry m entry.0 entry.1.last_accessed_at) m
unfolding get
All-IsEntry [] u n = tt
All-IsEntry ((k, e) ∷ m) (absent, u) (named, n) =
    ((named, e, rw (text_eq_refl k) refl, refl), IsEntry-cons m k e m absent (All-IsEntry m u n))

evictable-some : (k : Text) (s : ℕ) → k ≢ [] → evictable (some (k, s)) ≡ some k
evictable-some [] s h = absurd (h refl)
evictable-some (c ∷ k) s h = refl

-- On a map that is not empty the scan returns an entry whose last access is the oldest.
pub oldest_from_lem :
    (m : Dict TaskHandleRecord)
    → IsMap m
    → HasNames m
    → m ≢ []
    → (k : Text) × (e : TaskHandleRecord) × (evictable (oldest_from none m) ≡ some k)
      × (get k m ≡ some e)
      × All (λ entry. e.last_accessed_at ≤ entry.1.last_accessed_at) m
unfolding oldest_from
oldest_from_lem [] u n h = absurd (h refl)
oldest_from_lem ((j, f) ∷ m) u n h =
    let (k, s, eq, le, rest) = oldest_from-bound j f.last_accessed_at m in
    let all = All-IsEntry ((j, f) ∷ m) u n in
    let (named, e, found, same) =
      oldest_from-holds (IsEntry ((j, f) ∷ m)) j f.last_accessed_at m eq all.0 all.1 in
    (
      k,
      e,
      rw eq (evictable-some k s named),
      found,
      subst (λ x. All (λ entry. x ≤ entry.1.last_accessed_at) ((j, f) ∷ m)) (sym same) (le, rest),
    )

-- What every deletion keeps, the eviction keeps.
pub evict_rounds-keeps {ℓ} :
    (P : Dict TaskHandleRecord → Type ℓ) (rounds most : ℕ) (m : Dict TaskHandleRecord)
    → ((k : Text) (n : Dict TaskHandleRecord) → P n → P (delete k n))
    → P m
    → P (evict_rounds rounds most m)
unfolding evict_rounds
evict_rounds-keeps P zero most m step p = p
evict_rounds-keeps P (suc rounds) most m step p = elim (Bool-cases (ltb most (length m))) [
  | inr small ↦ rw (small, evict_rounds) p
  | inl large ↦ elim (Option-cases (evictable (oldest_from none m))) [
    | inl stop ↦ rw (large, stop, evict_rounds) p
    | inr (k, eq) ↦
        rw (large, eq, evict_rounds)
          (evict_rounds-keeps P rounds most (delete k m) step (step k m p))
  ]
]

not_empty : (most : ℕ) (m : Dict TaskHandleRecord) → ltb most (length m) ≡ true → m ≢ []
not_empty most [] h = absurd (ground arith)
not_empty most (x ∷ m) h = λ e. cc

-- With a round for each entry the bound is met.
pub evict_rounds-length :
    (rounds most : ℕ) (m : Dict TaskHandleRecord)
    → IsMap m
    → HasNames m
    → length m ≤ rounds
    → length (evict_rounds rounds most m) ≤ most
unfolding evict_rounds
evict_rounds-length zero most m u n h = omega arith
evict_rounds-length (suc rounds) most m u n h = elim (Bool-cases (ltb most (length m))) [
  | inr small ↦ rw (small, evict_rounds) (ground arith)
  | inl large ↦
      let (k, e, eq, found, _) = oldest_from_lem m u n (not_empty most m large) in
      rw (large, eq, evict_rounds)
        (evict_rounds-length rounds most (delete k m) (delete-IsMap k m u)
          (All-delete (λ entry. entry.0 ≢ []) k m n) (omega (arith, length-delete-lt k m found)))
]

-- Nothing goes while the map is within its bound.
pub evict_rounds_within :
    (rounds most : ℕ) (m : Dict TaskHandleRecord) → length m ≤ most → evict_rounds rounds most m ≡ m
unfolding evict_rounds
evict_rounds_within zero most m h = refl
evict_rounds_within (suc rounds) most m h = ground arith

abbrev pub NoOlder : TaskHandleRecord → Dict TaskHandleRecord → Type 0
NoOlder e m = All (λ entry. e.last_accessed_at ≤ entry.1.last_accessed_at) m

-- An entry either stays as it was, or goes, and then none that stays was used before it.
pub evict_rounds-fate :
    (rounds most : ℕ) (m : Dict TaskHandleRecord) (k : Text) (e : TaskHandleRecord)
    → IsMap m
    → HasNames m
    → get k m ≡ some e
    → (get k (evict_rounds rounds most m) ≡ some e)
      ⊎ ((get k (evict_rounds rounds most m) ≡ none) × NoOlder e (evict_rounds rounds most m))
unfolding evict_rounds
evict_rounds-fate zero most m k e u n found = inl found
evict_rounds-fate (suc rounds) most m k e u n found = elim (Bool-cases (ltb most (length m))) [
  | inr small ↦ rw (small, evict_rounds) (inl found)
  | inl large ↦
      let (j, f, eq, at_j, oldest) = oldest_from_lem m u n (not_empty most m large) in
      rw (large, eq, evict_rounds)
        (elim (Bool-cases (text_eq j k)) [
          | inl same ↦
              let gone : get k (delete j m) ≡ none = rw (get-delete j k m, same) in
              let f_is_e : f ≡ e = ground (arith, text_eq_iff j k, found, at_j) in
              inr (
                evict_rounds-keeps (λ n. get k n ≡ none) rounds most (delete j m)
                    (λ i n absent. rw (get-delete i k n) (ground (arith, absent))) gone,
                evict_rounds-keeps (NoOlder e) rounds most (delete j m) (λ i n. All-delete _ i n)
                    (All-delete _ j m (subst (λ x. NoOlder x m) f_is_e oldest)),
              )
          | inr other ↦
              evict_rounds-fate rounds most (delete j m) k e (delete-IsMap j m u)
                (All-delete (λ entry. entry.0 ≢ []) j m n) (rw (get-delete j k m, other) found)
        ])
]
