-- ===== src/Inbound/WriteLock/Acquisition.antt =====
-- `acquireTaskStoreWriteLock` once its path is normalised. What other processes and the file
-- system do at each turn of its loop is given by a list of turns, one for each; a turn's change of
-- the file comes before the attempt to create it. The call is not interleaved with others of the
-- same process.
use openclaw_a2a_plugins.Base.{
  ℕ, suc, ◌+◌, ◌*◌, min, Bool, true, false, not, ◌&&◌, Option, none, some, List, [], ◌∷◌, ltb, ◌==◌,
  if◌then◌else◌,
}
use openclaw_a2a_plugins.Base.Text.{Text}
use openclaw_a2a_plugins.Base.Dict.{get, set, delete, has}
use openclaw_a2a_plugins.Inbound.Protocol.{Json}
use openclaw_a2a_plugins.Inbound.WriteLock.Inspection.{
  Host, LockPayload, Stat, changed_at, no_entry, stat_failed, read_lock_payload,
  inspect_lock_payload, should_reclaim_lock, owner_pid, declared_start,
}
use openclaw_a2a_plugins.Inbound.WriteLock.Locks.{
  Locks, LockFile, own_file, create_lock, remove_file, finish_release, Entry, awaits_release,
  not_held, entered, enter,
}

pub data Change : Type 0 where
  leaves removes : Change
  puts : LockFile → Change

-- The change of the file, the time from the test of the loop to the decision on the file, and to
-- the wait's end beyond its delay, the errors of `open` (but for `EEXIST`), of the write and of
-- the removal, whether a removal that may fail works, and whether `stat` fails.
pub record Turn : Type 0 where
  pub change : Change
  pub took : ℕ
  pub overslept : ℕ
  pub open_error : Option Text
  pub write_error : Option Text
  pub remove_error : Option Text
  pub cleaned_up : Bool
  pub stat_fails : Bool

-- How a call ends. A call whose turns have run out is still running, and one for
-- which no more releases are given waits for one.
pub data Outcome : Type 0 where
  acquired : ℕ → Outcome
  threw : Text → Outcome
  timed_out : Option ℕ → Outcome
  waits_for_release still_running : Outcome

abbrev pub disturb : Change → Text → Locks → Locks
disturb leaves path l = l
disturb removes path l = record l { files = delete path l.files }
disturb (puts file) path l = record l { files = set path file l.files }

unfoldable pub resolve_positive_ms : Option ℕ → ℕ → ℕ
resolve_positive_ms (some (suc n)) fallback = suc n
resolve_positive_ms _ fallback = fallback

abbrev pub default_timeout_ms : ℕ
default_timeout_ms = 10000

abbrev pub default_stale_ms : ℕ
default_stale_ms = 1800000

unfoldable pub delay_ms : ℕ → ℕ
delay_ms attempt = min 1000 (50 * attempt)

abbrev pub content_of : Option LockFile → Option Json
content_of (some file) = file.content
content_of none = none

abbrev stat_of : Bool → Option LockFile → Stat
stat_of true file = stat_failed
stat_of false (some file) = changed_at file.mtime
stat_of false none = no_entry

abbrev is_own : Host → Option ℕ → Bool
is_own h (some pid) = pid == h.own_pid
is_own h none = false

abbrev has_positive_start : Option ℕ → Bool
has_positive_start (some starttime) = ltb 0 starttime
has_positive_start none = false

abbrev pub is_orphan_self_lock : Host → Option LockPayload → Bool → Bool
is_orphan_self_lock h payload is_held =
    is_own h (owner_pid payload) && not (has_positive_start (declared_start payload)) && not is_held

-- Whether the file that is there is taken away.
unfoldable pub reclaims : Host → ℕ → Text → Turn → ℕ → Locks → Bool
reclaims h stale path t now l =
    let file = get path l.files in
    let payload = read_lock_payload (content_of file) in
    should_reclaim_lock (stat_of t.stat_fails file) (inspect_lock_payload h payload stale now) stale
      now (is_orphan_self_lock h payload (has path l.held_locks))

-- What a turn comes to: an end of the call, another turn at once, or one after a wait.
pub data Attempt : Type 0 where
  ends : Outcome → Attempt
  goes_on waits : Attempt

abbrev pub written : Host → Text → Turn → ℕ → Option Text → Locks → Locks × Attempt
written h path t now (some error) l = (remove_file t.cleaned_up path l, ends (threw error))
written h path t now none l =
    let created = create_lock (own_file h now) path l in (created.0, ends (acquired created.1))

abbrev pub created : Host → Text → Turn → ℕ → Option Text → Locks → Locks × Attempt
created h path t now (some error) l = (l, ends (threw error))
created h path t now none l = written h path t now t.write_error l

abbrev pub removed : Text → Option Text → Locks → Locks × Attempt
removed path (some error) l = (l, ends (threw error))
removed path none l = (remove_file true path l, goes_on)

abbrev pub opened : Host → ℕ → Text → Turn → ℕ → Bool → Locks → Locks × Attempt
opened h stale path t now false l = created h path t now t.open_error l
opened h stale path t now true l =
    if reclaims h stale path t now l then removed path t.remove_error l else (l, waits)

-- One turn of the loop that decides at the time `now`.
unfoldable pub try_once : Host → ℕ → Text → Turn → ℕ → Locks → Locks × Attempt
try_once h stale path t now l =
    let m = disturb t.change path l in opened h stale path t now (has path m.files) m

abbrev pub timeout_error : Text → Locks → Outcome
timeout_error path l = timed_out (owner_pid (read_lock_payload (content_of (get path l.files))))

abbrev pub after_attempt :
    Turn → ℕ → ℕ → (ℕ → Locks → Locks × Outcome) → Locks × Attempt → Locks × Outcome
after_attempt t attempt now rest (l, ends outcome) = (l, outcome)
after_attempt t attempt now rest (l, goes_on) = rest now l
after_attempt t attempt now rest (l, waits) = rest (now + delay_ms attempt + t.overslept) l

-- The loop, at the time `clock`, until the time `deadline`; its first turn is attempt 1.
unfoldable pub acquire_loop : Host → ℕ → ℕ → Text → List Turn → ℕ → ℕ → Locks → Locks × Outcome
acquire_loop h stale deadline path [] attempt clock l =
    (l, if ltb clock deadline then still_running else timeout_error path l)
acquire_loop h stale deadline path (t ∷ ts) attempt clock l =
    let rest = acquire_loop h stale deadline path ts (suc attempt) in
    let now = clock + t.took in
    let turn = after_attempt t attempt now rest (try_once h stale path t now l) in
    if ltb clock deadline then turn else (l, timeout_error path l)

-- A release that a call waited for: whether it removed the file, and when it was over.
pub record Waited : Type 0 where
  pub removed : Bool
  pub over_at : ℕ

abbrev pub entry_outcome : Locks × Entry → (ℕ → Locks × Outcome) → Locks × Outcome → Locks × Outcome
entry_outcome (l, awaits_release i) once_more looped = once_more i
entry_outcome (l, entered i) once_more looped = (l, acquired i)
entry_outcome (l, not_held) once_more looped = looped

-- A call at the time `acquired_at`. One that finds a lock under release waits for it and calls
-- itself again; `waited` has the releases that it waits for.
unfoldable pub acquire_task_store_write_lock :
    Host → Option ℕ → Option ℕ → Text → List Waited → List Turn → ℕ → Locks → Locks × Outcome
unfolding resolve_positive_ms
acquire_task_store_write_lock h timeout_ms stale_ms path [] turns acquired_at l =
    entry_outcome (enter path l) (λ i. (l, waits_for_release))
      (acquire_loop h (resolve_positive_ms stale_ms default_stale_ms)
        (acquired_at + resolve_positive_ms timeout_ms default_timeout_ms) path turns 1 acquired_at
        l)
acquire_task_store_write_lock h timeout_ms stale_ms path (w ∷ waited) turns acquired_at l =
    entry_outcome (enter path l)
      (λ i.
        acquire_task_store_write_lock h timeout_ms stale_ms path waited turns w.over_at
          (finish_release w.removed path i l))
      (acquire_loop h (resolve_positive_ms stale_ms default_stale_ms)
        (acquired_at + resolve_positive_ms timeout_ms default_timeout_ms) path turns 1 acquired_at
        l)
