-- ===== src/Inbound/WriteLock/Respect.antt =====
-- A lock file that is not abandoned is left alone.
use openclaw_a2a_plugins.Base.{
  ℕ, zero, suc, ◌+◌, ◌*◌, ◌≤◌, ◌<◌, ◌≡◌, refl, ◌∙◌, false, Option, none, some, List, [], ◌∷◌,
  length, All, ltb, Bool-cases, inl, inr, arith,
}
use openclaw_a2a_plugins.Base.Text.{Text}
use openclaw_a2a_plugins.Base.Dict.{get, has}
use openclaw_a2a_plugins.Inbound.WriteLock.Inspection.{
  Host, changed_at, read_lock_payload, owner_pid,
}
use openclaw_a2a_plugins.Inbound.WriteLock.Locks.{Locks, LockFile}
use openclaw_a2a_plugins.Inbound.WriteLock.Reclaims.{IsAbandoned, should_reclaim_lock_lem}
use openclaw_a2a_plugins.Inbound.WriteLock.Acquisition.{
  Waited, leaves, Turn, timed_out, waits, reclaims, is_orphan_self_lock, resolve_positive_ms,
  default_timeout_ms, default_stale_ms, acquire_task_store_write_lock, acquire_loop, try_once,
  timeout_error, delay_ms,
}
use openclaw_a2a_plugins.Inbound.WriteLock.Answers.{delay_ms-le}
use openclaw_a2a_plugins.Inbound.WriteLock.Calls.{acquire_task_store_write_lock-unheld}

-- A turn in which nobody changes the file, its time of change can be read, and the decision is
-- taken in time.
abbrev pub IsQuiet : ℕ → Turn → Type 0
IsQuiet patience t = (t.change ≡ leaves) × (t.stat_fails ≡ false) × (t.took ≤ patience)

abbrev pub IsLeft : Host → ℕ → Text → LockFile → Locks → ℕ → Type 0
IsLeft h stale path file l now =
    let payload = read_lock_payload file.content in
    IsAbandoned h payload (changed_at file.mtime) stale now
      (is_orphan_self_lock h payload (has path l.held_locks))

module _ (h : Host) (stale : ℕ) (path : Text) (file : LockFile) (l : Locks)
    (here : get path l.files ≡ some file) where
  try_once-waits :
      (t : Turn) (patience now : ℕ)
      → IsQuiet patience t
      → ¬ IsLeft h stale path file l now
      → try_once h stale path t now l ≡ (l, waits)
  unfolding try_once has reclaims
  try_once-waits t patience now (kept, read, soon) live =
      let payload = read_lock_payload file.content in
      let orphan = is_orphan_self_lock h payload (has path l.held_locks) in
      ground (arith, should_reclaim_lock_lem h payload (changed_at file.mtime) stale now orphan)

  timeout_error-here : timeout_error path l ≡ timed_out (owner_pid (read_lock_payload file.content))
  timeout_error-here = rw here refl

  acquire_loop-times_out :
      (patience deadline : ℕ) (turns : List Turn) (attempt clock : ℕ)
      → All (IsQuiet patience) turns
      → ((now : ℕ) → now < deadline + patience → ¬ IsLeft h stale path file l now)
      → deadline ≤ clock + 50 * length turns
      → acquire_loop h stale deadline path turns (suc attempt) clock l
        ≡ (l, timed_out (owner_pid (read_lock_payload file.content)))
  unfolding acquire_loop
  acquire_loop-times_out patience deadline [] attempt clock quiet live enough =
      ground (arith, timeout_error-here)
  acquire_loop-times_out patience deadline (t ∷ ts) attempt clock ((kept, read, soon), quiet) live
        enough =
      let now = clock + t.took in
      elim (Bool-cases (ltb clock deadline)) [
        | inl early ↦
            rw (early, try_once-waits t patience now (kept, read, soon) (live now (ground arith)))
              (acquire_loop-times_out patience deadline ts (suc attempt)
                (now + delay_ms (suc attempt) + t.overslept) quiet live
                (omega (arith, delay_ms-le attempt)))
        | inr late ↦ rw (late, timeout_error-here) refl
      ]

-- A call that finds no entry of its process, and a lock file that is not abandoned at any time
-- until its time is over, throws the error that names the owner and leaves files and locks as they
-- were, if no one else changes the file, it can be looked up, and there is a turn for each 50 ms.
pub acquire_task_store_write_lock_respects :
    (h : Host) (timeout stale : Option ℕ) (path : Text) (waited : List Waited)
    → (file : LockFile) (l : Locks) (patience : ℕ) (turns : List Turn) (start : ℕ)
    → get path l.held_locks ≡ none
    → get path l.files ≡ some file
    → All (IsQuiet patience) turns
    → ((now : ℕ)
        → now < start + resolve_positive_ms timeout default_timeout_ms + patience
        → ¬ IsLeft h (resolve_positive_ms stale default_stale_ms) path file l now)
    → resolve_positive_ms timeout default_timeout_ms ≤ 50 * length turns
    → acquire_task_store_write_lock h timeout stale path waited turns start l
      ≡ (l, timed_out (owner_pid (read_lock_payload file.content)))
acquire_task_store_write_lock_respects h timeout stale path waited file l patience turns start
      unheld here quiet live enough =
    acquire_task_store_write_lock-unheld h timeout stale path waited turns start l unheld
    ∙ acquire_loop-times_out h (resolve_positive_ms stale default_stale_ms) path file l here
        patience (start + resolve_positive_ms timeout default_timeout_ms) turns zero start quiet
        live (omega arith)
