-- ===== src/Outbound/TaskHandles/Invariant.antt =====
-- The invariant of the registry, and every method that keeps it.
use openclaw_a2a_plugins.Base.{
  ℕ, ◌≤◌, ◌≡◌, refl, ◌≢◌, false, Option, none, some, List, [], ◌∷◌, arith, leb, length,
  length-keep-le, All, All-keep, Bool-cases, Option-cases, if◌then◌else◌, inl, inr,
}
use openclaw_a2a_plugins.Base.Text.{Text}
use openclaw_a2a_plugins.Base.Dict.{
  Dict, get, set, IsMap, set-IsMap, delete-IsMap, keep-IsMap, get-keep, All-set, All-delete,
  All-get, length-set_present,
}
use openclaw_a2a_plugins.Outbound.TaskHandles.{
  TaskHandleRecord, Registry, Created, Refreshed, Resolved, ok, err, unknown_error, expired_error,
  empty_registry, unexpired, prune_expired, evict_least_recently_used, handle_of, created_record,
  create, require_live_entry, touched, store_touched, resolve, refreshed, refresh, store_refreshed,
}
use openclaw_a2a_plugins.Outbound.TaskHandles.Evict.{
  HasNames, evict_rounds-keeps, evict_rounds-length, evict_rounds_within,
}

-- A record stands under its own handle, which is not empty.
abbrev IsKeyed : Text × TaskHandleRecord → Type 0
IsKeyed (k, e) = (k ≢ []) × (k ≡ e.task_handle)

pub record Inv (r : Registry) : Type 0 where
  pub unique : IsMap r.entries
  pub keyed : All IsKeyed r.entries
  pub bounded : length r.entries ≤ r.max_entries

All-names : (m : Dict TaskHandleRecord) → All IsKeyed m → HasNames m
All-names [] h = tt
All-names ((k, e) ∷ m) (p, h) = (p.0, All-names m h)

pub Inv-names : {r : Registry} → Inv r → HasNames r.entries
Inv-names {r} v = All-names r.entries v.keyed

empty_registry-Inv : (ttl most : ℕ) → Inv (empty_registry ttl most)
unfolding empty_registry
empty_registry-Inv ttl most = record { unique = tt; keyed = tt; bounded = omega arith }

pub prune_expired-Inv : (now : ℕ) {r : Registry} → Inv r → Inv (prune_expired now r)
unfolding prune_expired
prune_expired-Inv now {r} v = record {
  unique = keep-IsMap (unexpired now) r.entries v.unique;
  keyed = All-keep IsKeyed (unexpired now) r.entries v.keyed;
  bounded = omega (arith, length-keep-le (unexpired now) r.entries, v.bounded);
}

-- An expired record is gone after pruning, and every other one is as it was.
abbrev pub live : ℕ → Option TaskHandleRecord → Option TaskHandleRecord
live now none = none
live now (some e) = if leb e.expires_at now then none else some e

pub get-prune_expired :
    (now : ℕ) (k : Text) (r : Registry)
    → IsMap r.entries
    → get k (prune_expired now r).entries ≡ live now (get k r.entries)
unfolding prune_expired
get-prune_expired now k r u = ground (arith, get-keep (unexpired now) k r.entries u)

-- Eviction restores the bound.
evict-Inv :
    (r : Registry) → IsMap r.entries → All IsKeyed r.entries → Inv (evict_least_recently_used r)
unfolding evict_least_recently_used
evict-Inv r u k = record {
  unique =
      evict_rounds-keeps IsMap (length r.entries) r.max_entries r.entries (λ i n. delete-IsMap i n)
        u;
  keyed =
      evict_rounds-keeps (All IsKeyed) (length r.entries) r.max_entries r.entries
        (λ i n. All-delete IsKeyed i n) k;
  bounded =
      evict_rounds-length (length r.entries) r.max_entries r.entries u (All-names r.entries k)
        (omega arith);
}

pub create-Inv :
    (now : ℕ) (uuid : Text) (input : Created) {r : Registry}
    → Inv r
    → Inv (create r now uuid input).0
unfolding create
create-Inv now uuid input {r} v =
    let made = created_record r now uuid input in
    let p = prune_expired-Inv now v in
    evict-Inv _ (set-IsMap (handle_of uuid) made (prune_expired now r).entries p.unique) (
      All-set IsKeyed (handle_of uuid) made (prune_expired now r).entries p.keyed ((λ e. cc), refl))

-- What `requireLiveEntry` finds, on every branch.
abbrev required : Text → ℕ → Option TaskHandleRecord → Resolved TaskHandleRecord
required handle now none = err (unknown_error handle)
required handle now (some e) = if leb e.expires_at now then err (expired_error e) else ok e

require_live_entry_lem :
    (r : Registry) (handle : Text) (now : ℕ)
    → IsMap r.entries
    → require_live_entry r handle now
      ≡ (prune_expired now r, required handle now (get handle r.entries))
unfolding require_live_entry
require_live_entry_lem r handle now u = ground (arith, get-prune_expired now handle r u)

store_touched-Inv :
    (handle : Text) (now : ℕ) (e : TaskHandleRecord) {r : Registry}
    → Inv r
    → get handle r.entries ≡ some e
    → Inv (record r { entries = set handle (touched e now) r.entries })
store_touched-Inv handle now e {r} v found = record {
  unique = set-IsMap handle (touched e now) r.entries v.unique;
  keyed =
      All-set IsKeyed handle (touched e now) r.entries v.keyed
        (All-get IsKeyed handle r.entries v.keyed found);
  bounded = rw (length-set_present handle (touched e now) r.entries found) v.bounded;
}

-- A handle that is live is found after pruning too.
live_found :
    (r : Registry) (handle : Text) (now : ℕ) {e : TaskHandleRecord}
    → IsMap r.entries
    → get handle r.entries ≡ some e
    → leb e.expires_at now ≡ false
    → get handle (prune_expired now r).entries ≡ some e
live_found r handle now u found fresh =
    ground (arith, get-prune_expired now handle r u, found, fresh)

pub resolve_steps :
    (r : Registry) (handle : Text) (now : ℕ)
    → IsMap r.entries
    → resolve r handle now
      ≡ store_touched handle now (prune_expired now r) (required handle now (get handle r.entries))
unfolding resolve
resolve_steps r handle now u = rw (require_live_entry_lem r handle now u)

pub resolve-Inv : (handle : Text) (now : ℕ) {r : Registry} → Inv r → Inv (resolve r handle now).0
resolve-Inv handle now {r} v =
    rw (resolve_steps r handle now v.unique) (elim (Option-cases (get handle r.entries)) [
      | inl absent ↦ rw absent (prune_expired-Inv now v)
      | inr (e, found) ↦ elim (Bool-cases (leb e.expires_at now)) [
        | inl old ↦ rw (found, old) (prune_expired-Inv now v)
        | inr fresh ↦
            rw (found, fresh)
              (store_touched-Inv handle now e (prune_expired-Inv now v)
                (live_found r handle now v.unique found fresh))
      ]
    ])

-- A refresh replaces an entry, so there is nothing to evict.
refresh_fits :
    (r : Registry) (handle : Text) (f : TaskHandleRecord) {e : TaskHandleRecord}
    → Inv r
    → get handle r.entries ≡ some e
    → evict_least_recently_used (record r { entries = set handle f r.entries })
      ≡ record r { entries = set handle f r.entries }
unfolding evict_least_recently_used
refresh_fits r handle f v found = ground (
  arith,
  evict_rounds_within (length (set handle f r.entries)) r.max_entries (set handle f r.entries)
      (rw (length-set_present handle f r.entries found) v.bounded),
)

-- The state and the result of `refresh`, when the handle is unknown, expired or live.
abbrev refreshed_state :
    Text
    → ℕ
    → Refreshed
    → Registry
    → Resolved TaskHandleRecord
    → Registry × Resolved TaskHandleRecord
refreshed_state handle now input r (ok e) = (
  record r { entries = set handle (refreshed r e now input) r.entries },
  ok (refreshed r e now input),
)
refreshed_state handle now input r (err e) = (r, err e)

pub refresh_steps :
    (handle : Text) (input : Refreshed) (now : ℕ) {r : Registry}
    → Inv r
    → refresh r handle input now
      ≡ refreshed_state handle now input
          (prune_expired now r)
          (required handle now (get handle r.entries))
unfolding refresh store_refreshed
refresh_steps handle input now {r} v =
    rw (require_live_entry_lem r handle now v.unique) (elim (Option-cases (get handle r.entries)) [
      | inl absent ↦ rw absent
      | inr (e, found) ↦ elim (Bool-cases (leb e.expires_at now)) [
        | inl old ↦ rw (found, old)
        | inr fresh ↦
            rw (found, fresh)
              (rw (
                refresh_fits (prune_expired now r) handle
                  (refreshed (prune_expired now r) e now input) (prune_expired-Inv now v)
                  (live_found r handle now v.unique found fresh)))
      ]
    ])

refreshed-Inv :
    (handle : Text) (now : ℕ) (input : Refreshed) (e : TaskHandleRecord) {r : Registry}
    → Inv r
    → get handle r.entries ≡ some e
    → Inv (record r { entries = set handle (refreshed r e now input) r.entries })
refreshed-Inv handle now input e {r} v found = record {
  unique = set-IsMap handle (refreshed r e now input) r.entries v.unique;
  keyed =
      All-set IsKeyed handle (refreshed r e now input) r.entries v.keyed
        (All-get IsKeyed handle r.entries v.keyed found);
  bounded = rw (length-set_present handle (refreshed r e now input) r.entries found) v.bounded;
}

refresh-Inv :
    (handle : Text) (input : Refreshed) (now : ℕ) {r : Registry}
    → Inv r
    → Inv (refresh r handle input now).0
refresh-Inv handle input now {r} v =
    rw (refresh_steps handle input now v) (elim (Option-cases (get handle r.entries)) [
      | inl absent ↦ rw absent (prune_expired-Inv now v)
      | inr (e, found) ↦ elim (Bool-cases (leb e.expires_at now)) [
        | inl old ↦ rw (found, old) (prune_expired-Inv now v)
        | inr fresh ↦
            rw (found, fresh)
              (refreshed-Inv handle now input e (prune_expired-Inv now v)
                (live_found r handle now v.unique found fresh))
      ]
    ])

-- The calls of a client, each with the time at which it is made.
pub data Call : Type 0 where
  creates : (uuid : Text) → Created → Call
  resolves : (handle : Text) → Call
  refreshes : (handle : Text) → Refreshed → Call

pub call : Registry → ℕ × Call → Registry
call r (now, creates uuid input) = (create r now uuid input).0
call r (now, resolves handle) = (resolve r handle now).0
call r (now, refreshes handle input) = (refresh r handle input now).0

pub call-Inv : (c : ℕ × Call) {r : Registry} → Inv r → Inv (call r c)
unfolding call
call-Inv (now, creates uuid input) v = create-Inv now uuid input v
call-Inv (now, resolves handle) v = resolve-Inv handle now v
call-Inv (now, refreshes handle input) v = refresh-Inv handle input now v

pub calls : Registry → List (ℕ × Call) → Registry
calls r [] = r
calls r (c ∷ cs) = calls (call r c) cs

calls-Inv : (cs : List (ℕ × Call)) {r : Registry} → Inv r → Inv (calls r cs)
unfolding calls
calls-Inv [] v = v
calls-Inv (c ∷ cs) v = calls-Inv cs (call-Inv c v)

-- After any calls at any times, failed ones included, the registry holds no handle twice, each
-- record under its own handle, and at most `max_entries` of them.
pub calls-empty_registry-Inv :
    (ttl most : ℕ) (cs : List (ℕ × Call)) → Inv (calls (empty_registry ttl most) cs)
calls-empty_registry-Inv ttl most cs = calls-Inv cs (empty_registry-Inv ttl most)
