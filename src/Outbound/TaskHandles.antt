-- ===== src/Outbound/TaskHandles.antt =====
-- The task handles of packages/openclaw-a2a-outbound/src/task-handle-registry.ts.
--
-- A method takes the registry, the time that `this.now()` reads and, for `create`, the fresh UUID,
-- and returns the new registry with its result. Times are natural numbers of milliseconds. The
-- clones of the source copy values that nothing changes here, so they are the values themselves.
pub mod Evict
pub mod Methods
pub mod Fresh
pub mod Invariant
mod Examples
use openclaw_a2a_plugins.Base.{
  ℕ, zero, suc, ◌+◌, Bool, true, false, not, Option, none, some, List, [], ◌∷◌, ◌++◌, leb, ltb,
  length, keep, or_else, or_option, if◌then◌else◌, is_some,
}
use openclaw_a2a_plugins.Base.Text.{Text, codes}
use openclaw_a2a_plugins.Base.Dict.{Dict, get, set, delete}
use openclaw_a2a_plugins.Outbound.Targets.{ResolvedTarget}

pub record TaskHandleRecord : Type 0 where
  pub task_handle : Text
  pub target : ResolvedTarget
  pub task_id : Text
  pub context_id : Option Text
  pub created_at : ℕ
  pub last_accessed_at : ℕ
  pub expires_at : ℕ

-- `continuationTargetFromResolvedTarget`.
pub record ContinuationTarget : Type 0 where
  pub target_url : Text
  pub card_path : Text
  pub preferred_transports : List Text
  pub target_alias : Option Text

abbrev continuation_target : ResolvedTarget → ContinuationTarget
continuation_target t = record {
  target_url = t.base_url;
  card_path = t.card_path;
  preferred_transports = t.preferred_transports;
  target_alias = t.alias;
}

-- The details that let a client go on; the fixed hint texts are left out.
pub data HandleError : Type 0 where
  unknown_task_handle : (task_handle suggested_action : Text) → HandleError
  expired_task_handle :
      (task_handle : Text) (expires_at : ℕ) (task_id : Text) (context_id : Option Text)
      (target : ContinuationTarget) (suggested_actions : List Text)
      → HandleError

abbrev pub unknown_error : Text → HandleError
unknown_error handle = unknown_task_handle handle (codes "send")

abbrev pub expired_error : TaskHandleRecord → HandleError
expired_error r =
    expired_task_handle r.task_handle r.expires_at r.task_id r.context_id
      (continuation_target r.target) (codes "status" ∷ codes "send" ∷ [])

pub data Resolved (A : Type 0) : Type 0 where
  ok : A → Resolved A
  err : HandleError → Resolved A

pub record Registry : Type 0 where
  pub ttl_ms : ℕ
  pub max_entries : ℕ
  pub entries : Dict TaskHandleRecord

-- The input of `create`, and that of `refresh`, whose fields may be missing.
pub record Created : Type 0 where
  pub target : ResolvedTarget
  pub task_id : Text
  pub context_id : Option Text

pub record Refreshed : Type 0 where
  pub target : Option ResolvedTarget
  pub task_id : Option Text
  pub context_id : Option Text

pub empty_registry : ℕ → ℕ → Registry
empty_registry ttl most = record { ttl_ms = ttl; max_entries = most; entries = [] }

abbrev pub unexpired : ℕ → Text × TaskHandleRecord → Bool
unexpired now (k, e) = not (leb e.expires_at now)

pub prune_expired : ℕ → Registry → Registry
prune_expired now r = record r { entries = keep (unexpired now) r.entries }

-- The `for` loop of `evictLeastRecentlyUsed`: the handle and the access time of the best entry so
-- far, `none` standing for `undefined` and for positive infinity.
pub oldest_from : Option (Text × ℕ) → Dict TaskHandleRecord → Option (Text × ℕ)
oldest_from best [] = best
oldest_from none ((k, e) ∷ m) = oldest_from (some (k, e.last_accessed_at)) m
oldest_from (some (b, t)) ((k, e) ∷ m) =
    oldest_from (if ltb e.last_accessed_at t then some (k, e.last_accessed_at) else some (b, t)) m

-- `if (!evictTaskHandle) return`: an empty handle stops the loop too.
abbrev pub evictable : Option (Text × ℕ) → Option Text
evictable none = none
evictable (some ([], t)) = none
evictable (some (c ∷ h, t)) = some (c ∷ h)

-- The `while` loop; the rounds are bounded by the number of entries.
pub evict_rounds : ℕ → ℕ → Dict TaskHandleRecord → Dict TaskHandleRecord
evict_rounds zero most m = m
evict_rounds (suc rounds) most m = elim (ltb most (length m)) [
  | false ↦ m
  | true ↦ elim (evictable (oldest_from none m)) [
    | none ↦ m
    | some handle ↦ evict_rounds rounds most (delete handle m)
  ]
]

pub evict_least_recently_used : Registry → Registry
evict_least_recently_used r = record r {
  entries = evict_rounds (length r.entries) r.max_entries r.entries;
}

-- The `rah_` prefix and a UUID.
abbrev pub handle_of : Text → Text
handle_of uuid = codes "rah_" ++ uuid

abbrev pub created_record : Registry → ℕ → Text → Created → TaskHandleRecord
created_record r now uuid input = record {
  task_handle = handle_of uuid;
  target = input.target;
  task_id = input.task_id;
  context_id = input.context_id;
  created_at = now;
  last_accessed_at = now;
  expires_at = now + r.ttl_ms;
}

pub create : Registry → ℕ → Text → Created → Registry × TaskHandleRecord
create r now uuid input =
    let pruned = prune_expired now r in
    let made = created_record r now uuid input in
    (
      evict_least_recently_used
          (record pruned { entries = set made.task_handle made pruned.entries }),
      made,
    )

abbrev was_expired : ℕ → Option TaskHandleRecord → Bool
was_expired now none = false
was_expired now (some e) = leb e.expires_at now

abbrev live_or_unknown : Text → Option TaskHandleRecord → Resolved TaskHandleRecord
live_or_unknown handle none = err (unknown_error handle)
live_or_unknown handle (some e) = ok e

abbrev require_from :
    Text → ℕ → Option TaskHandleRecord → Dict TaskHandleRecord → Resolved TaskHandleRecord
require_from handle now none live = live_or_unknown handle (get handle live)
require_from handle now (some e) live =
    if leb e.expires_at now then err (expired_error e) else live_or_unknown handle (get handle live)

-- `requireLiveEntry`: the registry is pruned on every branch.
pub require_live_entry : Registry → Text → ℕ → Registry × Resolved TaskHandleRecord
require_live_entry r handle now =
    let existing = get handle r.entries in
    let pruned = prune_expired now r in (pruned, require_from handle now existing pruned.entries)

abbrev pub touched : TaskHandleRecord → ℕ → TaskHandleRecord
touched e now = record e { last_accessed_at = now }

abbrev pub store_touched :
    Text → ℕ → Registry → Resolved TaskHandleRecord → Registry × Resolved TaskHandleRecord
store_touched handle now r (ok e) =
    (record r { entries = set handle (touched e now) r.entries }, ok (touched e now))
store_touched handle now r (err e) = (r, err e)

pub resolve : Registry → Text → ℕ → Registry × Resolved TaskHandleRecord
resolve r handle now =
    let (pruned, entry) = require_live_entry r handle now in store_touched handle now pruned entry

abbrev pub refreshed : Registry → TaskHandleRecord → ℕ → Refreshed → TaskHandleRecord
refreshed r e now input = record {
  task_handle = e.task_handle;
  target = or_else input.target e.target;
  task_id = or_else input.task_id e.task_id;
  context_id = or_option input.context_id e.context_id;
  created_at = e.created_at;
  last_accessed_at = now;
  expires_at = now + r.ttl_ms;
}

pub store_refreshed :
    Text
    → ℕ
    → Refreshed
    → Registry
    → Resolved TaskHandleRecord
    → Registry × Resolved TaskHandleRecord
store_refreshed handle now input r (ok e) = (
  evict_least_recently_used (record r { entries = set handle (refreshed r e now input) r.entries }),
  ok (refreshed r e now input),
)
store_refreshed handle now input r (err e) = (r, err e)

pub refresh : Registry → Text → Refreshed → ℕ → Registry × Resolved TaskHandleRecord
refresh r handle input now =
    let (pruned, entry) = require_live_entry r handle now in
    store_refreshed handle now input pruned entry
