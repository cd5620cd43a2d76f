-- ===== src/Inbound/WriteLock/Uses.antt =====
-- A lock that is acquired, entered and released, in any order.
use openclaw_a2a_plugins.Base.{
  ℕ, zero, suc, ◌+◌, ◌<◌, ◌≡◌, refl, ◌∙◌, Option, none, some, List, ◌∷◌, length, get_elem?, arith,
}
use openclaw_a2a_plugins.Base.Text.{Text}
use openclaw_a2a_plugins.Base.Dict.{get, set, has, get-set_self, delete-set_absent}
use openclaw_a2a_plugins.Inbound.WriteLock.Inspection.{Host}
use openclaw_a2a_plugins.Inbound.WriteLock.Locks.{Locks, LockFile, own_file, create_lock}
use openclaw_a2a_plugins.Inbound.WriteLock.Leases.{
  Use, use_all, depth, held, IsStage, use_all-IsStage, create_lock-IsLeased,
}
use openclaw_a2a_plugins.Inbound.WriteLock.Calls.{acquire_task_store_write_lock-unheld}
use openclaw_a2a_plugins.Inbound.WriteLock.Acquisition.{
  Waited, leaves, Turn, acquired, resolve_positive_ms, default_stale_ms,
  acquire_task_store_write_lock, acquire_loop, try_once, ends,
}

-- A turn that nobody disturbs and in which no call fails.
abbrev pub IsClear : Turn → Type 0
IsClear t = (t.change ≡ leaves) × (t.open_error ≡ none) × (t.write_error ≡ none)

try_once-free :
    (h : Host) (stale : ℕ) (path : Text) (t : Turn) (now : ℕ) (l : Locks)
    → get path l.files ≡ none
    → IsClear t
    → try_once h stale path t now l ≡ (
        let created = create_lock (own_file h now) path l in (created.0, ends (acquired created.1)))
unfolding try_once has
try_once-free h stale path t now l free (kept, fine, wrote) = rw (kept, free, fine, wrote) refl

resolve_positive_ms-lt : (given : Option ℕ) (n : ℕ) → 0 < resolve_positive_ms given (suc n)
unfolding resolve_positive_ms
resolve_positive_ms-lt given n = ground arith

acquire_task_store_write_lock-free :
    (h : Host) (timeout stale : Option ℕ) (path : Text) (waited : List Waited)
    → (t : Turn) (ts : List Turn) (now : ℕ) (l : Locks) → get path l.held_locks ≡ none
    → get path l.files ≡ none
    → IsClear t
    → acquire_task_store_write_lock h timeout stale path waited (t ∷ ts) now l ≡ (
        let created = create_lock (own_file h (now + t.took)) path l in
        (created.0, acquired created.1))
unfolding acquire_loop
acquire_task_store_write_lock-free h timeout stale path waited t ts now l unheld free clear =
    acquire_task_store_write_lock-unheld h timeout stale path waited (t ∷ ts) now l unheld
    ∙ ground (
      arith,
      resolve_positive_ms-lt timeout 9999,
      try_once-free h (resolve_positive_ms stale default_stale_ms) path t (now + t.took) l free
          clear,
    )

-- Locks and files as they are while the lock is held so often, or as before once it is free.
abbrev pub IsCounted : Text → LockFile → Locks → ℕ → Locks → Type 0
IsCounted path file l zero m = (m.held_locks ≡ l.held_locks) × (m.files ≡ l.files)
IsCounted path file l (suc c) m =
    (m.held_locks ≡ set path (length l.objects) l.held_locks)
    × (m.files ≡ set path file l.files)
    × (get_elem? m.objects (length l.objects) ≡ some (held path (suc c)))

IsStage-IsCounted :
    (path : Text) (file : LockFile) (l : Locks) (c : ℕ) (m : Locks)
    → get path l.held_locks ≡ none
    → get path l.files ≡ none
    → IsStage path (length l.objects) (create_lock file path l).0 c m
    → IsCounted path file l c m
unfolding create_lock
IsStage-IsCounted path file l zero m unheld free (same, files) = (
  same ∙ delete-set_absent path (length l.objects) l.held_locks unheld,
  files ∙ delete-set_absent path file l.files free,
)
IsStage-IsCounted path file l (suc c) m unheld free is = is

-- A call that finds a lock free and is not disturbed acquires it. The lock file and the entry then
-- stay through any entries and releases until there were as many releases as entries, the first
-- included; then all locks and files are as before, and nothing done with the old lease changes
-- them.
pub use_all-acquire_task_store_write_lock :
    (h : Host) (timeout stale : Option ℕ) (path : Text) (waited : List Waited)
    → (t : Turn) (ts : List Turn) (now : ℕ) (l : Locks) (us : List Use)
    → get path l.held_locks ≡ none
    → get path l.files ≡ none
    → IsClear t
    → let call = acquire_task_store_write_lock h timeout stale path waited (t ∷ ts) now l in
      (call.1 ≡ acquired (length l.objects))
      × IsCounted path
          (own_file h (now + t.took))
          l
          (depth us 1)
          (use_all path (length l.objects) us call.0)
unfolding create_lock
use_all-acquire_task_store_write_lock h timeout stale path waited t ts now l us unheld free clear =
    let file = own_file h (now + t.took) in
    let made = (create_lock file path l).0 in
    rw (acquire_task_store_write_lock-free h timeout stale path waited t ts now l unheld free clear)
      (
        refl,
        IsStage-IsCounted path file l (depth us 1) (use_all path (length l.objects) us made) unheld
            free
            (use_all-IsStage path (length l.objects) made
              (get-set_self path (length l.objects) l.held_locks) us 1 made
              (create_lock-IsLeased file path l)),
      )
