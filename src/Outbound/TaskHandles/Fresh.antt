-- ===== src/Outbound/TaskHandles/Fresh.antt =====
-- A handle that was just created is there to be resolved.
use openclaw_a2a_plugins.Base.{
  ℕ, zero, suc, ◌+◌, ◌≤◌, ◌<◌, ◌≡◌, refl, ◌∙◌, ◌≢◌, true, false, none, some, List, [], ◌∷◌, ◌++◌,
  arith, leb, ltb, length, All, All-keep, Bool-cases, if◌then◌else◌, inl, inr,
}
use openclaw_a2a_plugins.Base.Text.{Text, text_eq, text_eq_iff}
use openclaw_a2a_plugins.Base.Dict.{
  Dict, get, delete, IsMap, delete-IsMap, get-set_self, set_absent, get-delete, All-delete,
}
use openclaw_a2a_plugins.Outbound.TaskHandles.{
  TaskHandleRecord, Registry, Created, ok, err, expired_error, unexpired, prune_expired,
  oldest_from, evict_rounds, handle_of, created_record, create, touched, resolve,
}
use openclaw_a2a_plugins.Outbound.TaskHandles.Evict.{HasNames, oldest_from_lem}
use openclaw_a2a_plugins.Outbound.TaskHandles.Invariant.{
  Inv, Inv-names, prune_expired-Inv, get-prune_expired, create-Inv, resolve-Inv,
}
use openclaw_a2a_plugins.Outbound.TaskHandles.Methods.{resolve_lem, create_entries}

-- With room for one entry, the youngest one, which stands last, is never evicted.
module _ (k : Text) (e : TaskHandleRecord) where
  abbrev IsYoungest : Dict TaskHandleRecord → Type 0
  IsYoungest m = All (λ entry. entry.1.last_accessed_at ≤ e.last_accessed_at) m

  oldest_from-last :
      (j : Text) (t : ℕ) (m : Dict TaskHandleRecord)
      → t ≤ e.last_accessed_at
      → IsYoungest m
      → oldest_from (some (j, t)) (m ++ (k, e) ∷ []) ≡ oldest_from (some (j, t)) m
  unfolding oldest_from
  oldest_from-last j t [] h y = ground arith
  oldest_from-last j t ((i, f) ∷ m) h (p, y) =
      ground (arith, p, h, oldest_from-last i f.last_accessed_at m p y, oldest_from-last j t m h y)

  delete-append_last :
      (j : Text) (m : Dict TaskHandleRecord)
      → j ≢ k
      → delete j (m ++ (k, e) ∷ []) ≡ delete j m ++ (k, e) ∷ []
  unfolding delete
  delete-append_last j [] other = ground (arith, text_eq_iff k j)
  delete-append_last j ((i, f) ∷ m) other = ground (arith, delete-append_last j m other)

  get-append_last : (m : Dict TaskHandleRecord) → get k m ≡ none → get k (m ++ (k, e) ∷ []) ≡ some e
  get-append_last m absent = rw (← set_absent k e m absent) (get-set_self k e m)

  same_candidate :
      (m : Dict TaskHandleRecord)
      → m ≢ []
      → IsYoungest m
      → oldest_from none (m ++ (k, e) ∷ []) ≡ oldest_from none m
  unfolding oldest_from
  same_candidate [] filled y = absurd (filled refl)
  same_candidate ((i, f) ∷ m) filled (p, y) = oldest_from-last i f.last_accessed_at m p y

  crowded :
      (most : ℕ) (m : Dict TaskHandleRecord)
      → 0 < most
      → ltb most (length (m ++ (k, e) ∷ [])) ≡ true
      → m ≢ []
  crowded most [] room h = absurd (ground arith)
  crowded most (x ∷ m) room h = λ empty. cc

  youngest_survives :
      (rounds most : ℕ) (m : Dict TaskHandleRecord)
      → 0 < most
      → IsMap m
      → HasNames m
      → get k m ≡ none
      → IsYoungest m
      → get k (evict_rounds rounds most (m ++ (k, e) ∷ [])) ≡ some e
  unfolding evict_rounds
  youngest_survives zero most m room u n absent y = get-append_last m absent
  youngest_survives (suc rounds) most m room u n absent y =
      elim (Bool-cases (ltb most (length (m ++ (k, e) ∷ [])))) [
        | inr small ↦ rw (small, evict_rounds) (get-append_last m absent)
        | inl large ↦
            let filled = crowded most m room large in
            let (j, f, eq, at_j, _) = oldest_from_lem m u n filled in
            let other : j ≢ k = λ same. ground (arith, at_j, absent, same) in
            rw (large, same_candidate m filled y, eq, delete-append_last j m other, evict_rounds)
              (youngest_survives rounds most (delete j m) room (delete-IsMap j m u)
                (All-delete (λ entry. entry.0 ≢ []) j m n)
                (ground (arith, get-delete j k m, text_eq_iff j k))
                (All-delete (λ entry. entry.1.last_accessed_at ≤ e.last_accessed_at) j m y))
      ]

-- Calls of `resolve`, each with its handle and its time.
abbrev pub resolve_each : List (Text × ℕ) → Registry → Registry
resolve_each [] r = r
resolve_each ((handle, now) ∷ calls) r = resolve_each calls (resolve r handle now).0

-- An entry that was only touched.
abbrev IsThere : Text → TaskHandleRecord → Registry → Type 0
IsThere handle made r = (time : ℕ) × (get handle r.entries ≡ some (touched made time))

resolve-IsThere :
    (handle k : Text) (made : TaskHandleRecord) (now : ℕ) (r : Registry)
    → Inv r
    → now < made.expires_at
    → IsThere handle made r
    → IsThere handle made (resolve r k now).0
resolve-IsThere handle k made now r v early (time, there) =
    let after = (resolve_lem k now r v).1 handle in
    let young : leb made.expires_at now ≡ false = ground arith in
    elim (Bool-cases (text_eq k handle)) [
      | inl same ↦ (now, after ∙ rw (same, there, young) refl)
      | inr other ↦ (time, after ∙ rw (other, there, young) refl)
    ]

resolve_each-IsThere :
    (handle : Text) (made : TaskHandleRecord) (calls : List (Text × ℕ)) (r : Registry)
    → Inv r
    → All (λ c. c.1 < made.expires_at) calls
    → IsThere handle made r
    → IsThere handle made (resolve_each calls r) × Inv (resolve_each calls r)
resolve_each-IsThere handle made [] r v early there = (there, v)
resolve_each-IsThere handle made ((k, now) ∷ calls) r v (e, early) there =
    resolve_each-IsThere handle made calls (resolve r k now).0 (resolve-Inv k now v) early
      (resolve-IsThere handle k made now r v e there)

-- With a clock that does not run backwards, a fresh UUID and room for one entry, a new handle is
-- resolved to its record, touched, until its time to live has run out, and then it has expired, if
-- nothing but other calls of `resolve` comes between, and those before its time has run out.
pub create-resolve :
    (r : Registry) (now later : ℕ) (uuid : Text) (input : Created) (calls : List (Text × ℕ))
    → Inv r
    → 0 < r.max_entries
    → get (handle_of uuid) r.entries ≡ none
    → All (λ entry. entry.1.last_accessed_at ≤ now) r.entries
    → All (λ c. c.1 < now + r.ttl_ms) calls
    → let made = created_record r now uuid input in
      (resolve (resolve_each calls (create r now uuid input).0) (handle_of uuid) later).1
      ≡ (if leb (now + r.ttl_ms) later then err (expired_error made) else ok (touched made later))
create-resolve r now later uuid input calls v room fresh clock early =
    let made = created_record r now uuid input in
    let p = prune_expired-Inv now v in
    let old = (prune_expired now r).entries in
    let absent : get (handle_of uuid) old ≡ none =
      ground (arith, get-prune_expired now (handle_of uuid) r v.unique, fresh) in
    let kept : get (handle_of uuid) (create r now uuid input).0.entries ≡ some made =
      rw (create_entries r now uuid input, set_absent (handle_of uuid) made old absent)
        (youngest_survives (handle_of uuid) made (length (old ++ (handle_of uuid, made) ∷ []))
          r.max_entries old room p.unique (Inv-names p) absent
          (unfold prune_expired in All-keep _ (unexpired now) r.entries clock)) in
    let ((time, there), w) =
      resolve_each-IsThere (handle_of uuid) made calls (create r now uuid input).0
        (create-Inv now uuid input v) early (now, kept) in
    (resolve_lem (handle_of uuid) later (resolve_each calls (create r now uuid input).0) w).0
    ∙ rw there refl
