-- ===== src/Inbound/WriteLock/Locks.antt =====
-- The locks that this process holds and the lock files: `HELD_LOCKS`, `releaseHeldLock`,
-- `releaseAllLocksSync`, and what `acquireTaskStoreWriteLock` does for a lock that is held or that
-- it could create. Held locks are objects on a heap, given by their index.
use openclaw_a2a_plugins.Base.{
  ℕ, suc, ◌-◌, Bool, true, false, Option, none, some, List, [], ◌∷◌, ◌++◌, ltb, ◌==◌, if◌then◌else◌,
  length, get_elem?, update_at,
}
use openclaw_a2a_plugins.Base.Text.{Text, codes}
use openclaw_a2a_plugins.Base.Dict.{Dict, get, set, delete}
use openclaw_a2a_plugins.Inbound.Protocol.{Json, num, nat, str, obj, Fields, end, field}
use openclaw_a2a_plugins.Inbound.WriteLock.Inspection.{Host, get_process_start_time}

-- A promise of a release is there while the release has not ended. The count is 0 at least: a
-- release below it is only compared with 0, and no lock under release is entered again.
pub record HeldLock : Type 0 where
  pub count : ℕ
  pub lock_path : Text
  pub releasing : Bool

-- Its JSON value, if it has one, and the time of its last change.
pub record LockFile : Type 0 where
  pub content : Option Json
  pub mtime : ℕ

pub record Locks : Type 0 where
  pub held_locks : Dict ℕ
  pub objects : List HeldLock
  pub files : Dict LockFile

abbrev start_fields : Option ℕ → Fields
start_fields (some starttime) = field (codes "starttime") (num (nat starttime)) end
start_fields none = end

-- The payload that a new lock file gets.
unfoldable pub own_file : Host → ℕ → LockFile
own_file h now = record {
  content = some (
      obj (
        field (codes "pid") (num (nat h.own_pid)) (
          field (codes "createdAt") (str (h.iso_date now))
            (start_fields (get_process_start_time h h.own_pid)))));
  mtime = now;
}

unfoldable pub create_lock : LockFile → Text → Locks → Locks × ℕ
create_lock file path l = (
  record l {
    held_locks = set path (length l.objects) l.held_locks;
    objects = l.objects ++ (record { count = 1; lock_path = path; releasing = false }) ∷ [];
    files = set path file l.files;
  },
  length l.objects,
)

abbrev pub changed : ℕ → (HeldLock → HeldLock) → Locks → Locks
changed i f l = record l { objects = update_at i f l.objects }

-- What a call finds in `HELD_LOCKS`: a lock under release, for which it waits before it starts
-- again; one that it enters once more; or none.
pub data Entry : Type 0 where
  not_held : Entry
  awaits_release : ℕ → Entry
  entered : ℕ → Entry

abbrev pub one_more : HeldLock → HeldLock
one_more o = record o { count = suc o.count }

abbrev pub enter_object : ℕ → Option HeldLock → Locks → Locks × Entry
enter_object i (some o) l =
    if o.releasing then (l, awaits_release i) else (changed i one_more l, entered i)
enter_object i none l = (l, not_held)

abbrev pub enter_found : Option ℕ → Locks → Locks × Entry
enter_found (some i) l = enter_object i (get_elem? l.objects i) l
enter_found none l = (l, not_held)

unfoldable pub enter : Text → Locks → Locks × Entry
enter path l = enter_found (get path l.held_locks) l

-- What a release has come to when it first waits: it returned, it waits for another release, or
-- it removes the file.
pub data ReleaseStep : Type 0 where
  returned : Bool → ReleaseStep
  awaits_other removes_file : ReleaseStep

abbrev pub one_less : HeldLock → HeldLock
one_less o = record o { count = o.count - 1 }

abbrev pub start_release : HeldLock → HeldLock
start_release o = record o { count = o.count - 1; releasing = true }

abbrev pub begin_object : ℕ → Option HeldLock → Locks → Locks × ReleaseStep
begin_object i (some o) l =
    if ltb 0 (o.count - 1)
    then (changed i one_less l, returned false)
    else if o.releasing
    then (changed i one_less l, awaits_other)
    else (changed i start_release l, removes_file)
begin_object i none l = (l, returned false)

abbrev pub is_current : ℕ → Option ℕ → Bool
is_current i (some j) = i == j
is_current i none = false

unfoldable pub begin_release : Text → ℕ → Locks → Locks × ReleaseStep
begin_release path i l =
    if is_current i (get path l.held_locks)
    then begin_object i (get_elem? l.objects i) l
    else (l, returned false)

abbrev pub remove_file : Bool → Text → Locks → Locks
remove_file removed path l = record l { files = if removed then delete path l.files else l.files }

abbrev pub end_release : HeldLock → HeldLock
end_release o = record o { releasing = false }

-- The rest of a release that removes the file, which may fail without a word.
unfoldable pub finish_release : Bool → Text → ℕ → Locks → Locks
finish_release removed path i l =
    let m = remove_file removed path l in
    record m { held_locks = delete path m.held_locks; objects = update_at i end_release m.objects }

abbrev finished : Bool → Text → ℕ → Locks × ReleaseStep → Locks × Bool
finished removed path i (l, returned answer) = (l, answer)
finished removed path i (l, awaits_other) = (l, true)
finished removed path i (l, removes_file) = (finish_release removed path i l, true)

-- A release that nothing comes between.
unfoldable pub release_held_lock : Bool → Text → ℕ → Locks → Locks × Bool
unfolding begin_release finish_release
release_held_lock removed path i l = finished removed path i (begin_release path i l)

abbrev release_each : (Text → Bool) → List (Text × ℕ) → Locks → Locks
release_each removed [] l = l
release_each removed ((path, i) ∷ rest) l =
    let m = remove_file (removed path) path l in
    release_each removed rest (record m { held_locks = delete path m.held_locks })

-- At the end of the process; `removed` says for which paths the removal works.
unfoldable pub release_all_locks : (Text → Bool) → Locks → Locks
release_all_locks removed l = release_each removed l.held_locks l
