-- ===== src/Inbound/WriteLock/Reclaims.antt =====
-- Which lock files are taken away.
use openclaw_a2a_plugins.Base.{
  ℕ, ◌+◌, ◌<◌, ◌≡◌, ◌≢◌, ◌⊎◌, ◌↔◌, Bool, true, false, Option, none, some, ◌++◌, arith,
}
use openclaw_a2a_plugins.Inbound.WriteLock.Inspection.{
  ParsedDate, no_date, before_epoch, after_epoch, Host, LockPayload, Stat, changed_at, no_entry,
  stat_failed, is_pid_alive, get_process_start_time, owner_pid, declared_start, created_at_ms,
  owner_reasons, age_reasons, inspection_of, inspect_lock_payload, should_reclaim_lock,
}

-- The process that has the owner's number now started at another time.
abbrev IsOther : Option ℕ → Option ℕ → Type 0
IsOther (some declared) (some current) = current ≢ declared
IsOther _ _ = ⊥

abbrev IsGone : Host → Option ℕ → Option ℕ → Type 0
IsGone h none declared = ⊥
IsGone h (some pid) declared =
    (is_pid_alive h pid ≡ false) ⊎ IsOther declared (get_process_start_time h pid)

abbrev IsOutdated : ParsedDate → ℕ → ℕ → Type 0
IsOutdated no_date stale now = ⊥
IsOutdated (before_epoch ms) stale now = stale < now + ms
IsOutdated (after_epoch ms) stale now = stale + ms < now

abbrev IsOldFile : Stat → ℕ → ℕ → Type 0
IsOldFile (changed_at mtime) stale now = stale + mtime < now
IsOldFile no_entry stale now = ⊥
IsOldFile stat_failed stale now = Unit

-- A lock that an earlier holder of this process left, or whose owner is gone, or that is too old,
-- or, if it does not tell its owner or its time, whose file is too old or cannot be looked up.
abbrev pub IsAbandoned : Host → Option LockPayload → Stat → ℕ → ℕ → Bool → Type 0
IsAbandoned h payload stat stale now orphan =
    (orphan ≡ true)
    ⊎ (IsGone h (owner_pid payload) (declared_start payload)
        ⊎ (IsOutdated (created_at_ms h payload) stale now
            ⊎ ((owner_pid payload ≡ none) ⊎ (created_at_ms h payload ≡ no_date))
              × IsOldFile stat stale now))

-- The verdict by the number of the owner.
by_owner :
    (h : Host) (pid declared : Option ℕ) (created : ParsedDate) (stat : Stat) (stale now : ℕ)
    → (orphan : Bool)
    → (should_reclaim_lock stat
          (inspection_of pid (owner_reasons h pid declared ++ age_reasons created stale now))
          stale
          now
          orphan
        ≡ true)
      ↔ ((orphan ≡ true)
          ⊎ (IsGone h pid declared
              ⊎ (IsOutdated created stale now
                  ⊎ ((pid ≡ none) ⊎ (created ≡ no_date)) × IsOldFile stat stale now)))
unfolding should_reclaim_lock
by_owner h none declared created stat stale now orphan = ground arith
by_owner h (some pid) declared created stat stale now orphan = ground arith

-- A lock file is taken away exactly if it is abandoned.
pub should_reclaim_lock_lem :
    (h : Host) (payload : Option LockPayload) (stat : Stat) (stale now : ℕ) (orphan : Bool)
    → (should_reclaim_lock stat (inspect_lock_payload h payload stale now) stale now orphan ≡ true)
      ↔ IsAbandoned h payload stat stale now orphan
unfolding inspect_lock_payload
should_reclaim_lock_lem h payload stat stale now orphan =
    by_owner h (owner_pid payload) (declared_start payload) (created_at_ms h payload) stat stale now
      orphan
