-- ===== src/Outbound/TaskHandles/Methods.antt =====
-- What the methods promise to a client.
use openclaw_a2a_plugins.Base.{
  ℕ, ◌+◌, ◌≤◌, ◌<◌, ◌≡◌, refl, ◌∙◌, ◌≢◌, ◌⊎◌, or_else, or_option, Option, none, some, [], arith,
  leb, length, Bool-cases, Option-cases, if◌then◌else◌, inl, inr,
}
use openclaw_a2a_plugins.Base.Text.{Text, text_eq, text_eq_iff, text_eq_refl}
use openclaw_a2a_plugins.Base.Dict.{Dict, get, set, set-IsMap, get-set, All-set}
use openclaw_a2a_plugins.Outbound.TaskHandles.{
  TaskHandleRecord, Registry, Created, Refreshed, Resolved, ok, err, unknown_error, expired_error,
  prune_expired, evict_rounds, evict_least_recently_used, handle_of, created_record, create,
  touched, resolve, refreshed, refresh,
}
use openclaw_a2a_plugins.Outbound.TaskHandles.Evict.{NoOlder, evict_rounds-fate}
use openclaw_a2a_plugins.Outbound.TaskHandles.Invariant.{
  Inv, Inv-names, prune_expired-Inv, live, get-prune_expired, resolve_steps, resolve-Inv,
  refresh_steps,
}

-- `resolve` of a handle, for the entry that it finds.
abbrev resolved : Text → ℕ → Option TaskHandleRecord → Resolved TaskHandleRecord
resolved handle now none = err (unknown_error handle)
resolved handle now (some e) =
    if leb e.expires_at now then err (expired_error e) else ok (touched e now)

abbrev touch : ℕ → Option TaskHandleRecord → Option TaskHandleRecord
touch now none = none
touch now (some e) = some (touched e now)

-- `resolve` fails with `unknown` where there is no entry, with `expired` and the continuation where
-- the entry has expired, and otherwise returns the entry with its access time moved to now. Every
-- expired entry is dropped on each branch, the resolved one is touched, and the others stay.
pub resolve_lem :
    (handle : Text) (now : ℕ) (r : Registry)
    → Inv r
    → ((resolve r handle now).1 ≡ resolved handle now (get handle r.entries))
      × ((k : Text)
          → get k (resolve r handle now).0.entries ≡ (
              if text_eq handle k
              then touch now (live now (get k r.entries))
              else live now (get k r.entries)))
resolve_lem handle now r v =
    rw (resolve_steps r handle now v.unique) (elim (Option-cases (get handle r.entries)) [
      | inl absent ↦ rw absent (
        refl,
        λ k. ground (arith, text_eq_iff handle k, absent, get-prune_expired now k r v.unique),
      )
      | inr (e, found) ↦ elim (Bool-cases (leb e.expires_at now)) [
        | inl old ↦
            rw (found, old)
              (
                refl,
                λ k.
                    ground
                      (arith, text_eq_iff handle k, found, old, get-prune_expired now k r v.unique),
              )
        | inr fresh ↦
            rw (found, fresh)
              (
                refl,
                λ k. ground (
                  arith,
                  text_eq_iff handle k,
                  found,
                  fresh,
                  get-set handle k (touched e now) (prune_expired now r).entries,
                  get-prune_expired now k r v.unique,
                ),
              )
      ]
    ])

-- The error that an expired handle gives is given once: a later call finds the handle unknown.
pub expired_once :
    (handle : Text) (now later : ℕ) (r : Registry) (e : TaskHandleRecord)
    → Inv r
    → get handle r.entries ≡ some e
    → e.expires_at ≤ now
    → ((resolve r handle now).1 ≡ err (expired_error e))
      × ((resolve (resolve r handle now).0 handle later).1 ≡ err (unknown_error handle))
expired_once handle now later r e v found old =
    let (result, state) = resolve_lem handle now r v in
    let gone : get handle (resolve r handle now).0.entries ≡ none =
      ground (arith, state handle, text_eq_refl handle, found) in
    (
      ground (arith, result, found),
      (resolve_lem handle later (resolve r handle now).0 (resolve-Inv handle now v)).0 ∙ rw gone,
    )

abbrev refresh_result :
    ℕ → Text → ℕ → Refreshed → Option TaskHandleRecord → Resolved TaskHandleRecord
refresh_result ttl handle now input none = err (unknown_error handle)
refresh_result ttl handle now input (some e) =
    if leb e.expires_at now
    then err (expired_error e)
    else ok (record {
      task_handle = e.task_handle;
      target = or_else input.target e.target;
      task_id = or_else input.task_id e.task_id;
      context_id = or_option input.context_id e.context_id;
      created_at = e.created_at;
      last_accessed_at = now;
      expires_at = now + ttl;
    })

-- What stands under a handle after a call, given the call's result and what stood there before.
abbrev stored : Resolved TaskHandleRecord → Option TaskHandleRecord → Option TaskHandleRecord
stored (ok e) before = some e
stored (err e) before = before

prune_expired-ttl_ms : (now : ℕ) (r : Registry) → (prune_expired now r).ttl_ms ≡ r.ttl_ms
unfolding prune_expired
prune_expired-ttl_ms now r = refl

-- `refresh` fails as `resolve` does. On a live handle it renews the time to live, replaces the
-- fields that are given and keeps the others; it drops the expired entries and changes no other,
-- and no entry is evicted.
pub refresh_lem :
    (handle : Text) (input : Refreshed) (now : ℕ) (r : Registry)
    → Inv r
    → let result = refresh_result r.ttl_ms handle now input (get handle r.entries) in
      ((refresh r handle input now).1 ≡ result)
      × ((k : Text)
          → get k (refresh r handle input now).0.entries ≡ (
              if text_eq handle k
              then stored result (live now (get k r.entries))
              else live now (get k r.entries)))
refresh_lem handle input now r v =
    rw (refresh_steps handle input now v) (elim (Option-cases (get handle r.entries)) [
      | inl absent ↦
          rw absent
            (refl, λ k. ground (arith, text_eq_iff handle k, get-prune_expired now k r v.unique))
      | inr (e, found) ↦ elim (Bool-cases (leb e.expires_at now)) [
        | inl old ↦
            rw (found, old)
              (refl, λ k. ground (arith, text_eq_iff handle k, get-prune_expired now k r v.unique))
        | inr fresh ↦
            rw (found, fresh)
              (
                unfold prune_expired in refl,
                λ k. ground (
                  arith,
                  text_eq_iff handle k,
                  get-set handle k (refreshed (prune_expired now r) e now input)
                      (prune_expired now r).entries,
                  get-prune_expired now k r v.unique,
                  prune_expired-ttl_ms now r,
                ),
              )
      ]
    ])

-- The entries at hand when `create` evicts.
abbrev before_eviction : Registry → ℕ → Text → Created → Dict TaskHandleRecord
before_eviction r now uuid input =
    set (handle_of uuid) (created_record r now uuid input) (prune_expired now r).entries

pub create_entries :
    (r : Registry) (now : ℕ) (uuid : Text) (input : Created)
    → let m = before_eviction r now uuid input in
      (create r now uuid input).0.entries ≡ evict_rounds (length m) r.max_entries m
unfolding create prune_expired evict_least_recently_used
create_entries r now uuid input = refl

-- Eviction by `create` is by least recent use: a live entry of another handle either stays as it
-- was, or goes, and then no entry that is left was last used before it.
pub create_evicts_oldest :
    (r : Registry) (now : ℕ) (uuid : Text) (input : Created) (k : Text) (e : TaskHandleRecord)
    → Inv r
    → get k r.entries ≡ some e
    → now < e.expires_at
    → k ≢ handle_of uuid
    → let left = (create r now uuid input).0.entries in
      (get k left ≡ some e) ⊎ ((get k left ≡ none) × NoOlder e left)
create_evicts_oldest r now uuid input k e v found fresh other =
    let p = prune_expired-Inv now v in
    let made = created_record r now uuid input in
    let m = before_eviction r now uuid input in
    rw (create_entries r now uuid input) (
      evict_rounds-fate (length m) r.max_entries m k e
        (set-IsMap (handle_of uuid) made (prune_expired now r).entries p.unique)
        (All-set (λ entry. entry.0 ≢ []) (handle_of uuid) made (prune_expired now r).entries
          (Inv-names p) (λ empty. cc))
        (ground (
          arith,
          text_eq_iff (handle_of uuid) k,
          get-set (handle_of uuid) k made (prune_expired now r).entries,
          get-prune_expired now k r v.unique,
          found,
        )))
