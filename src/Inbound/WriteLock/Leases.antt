-- ===== src/Inbound/WriteLock/Leases.antt =====
-- Leases of one lock: entering it again and releasing it.
use openclaw_a2a_plugins.Base.{
  ℕ, zero, suc, ◌≡◌, refl, Bool, true, false, some, List, [], ◌∷◌, get_elem?, get_elem?-update_at,
  get_elem?-append_last, ==_iff, arith,
}
use openclaw_a2a_plugins.Base.Text.{Text, text_eq_refl}
use openclaw_a2a_plugins.Base.Dict.{get, delete, get-delete}
use openclaw_a2a_plugins.Inbound.WriteLock.Locks.{
  Locks, LockFile, HeldLock, enter, entered, begin_release, one_more, one_less, finish_release,
  release_held_lock, create_lock,
}

abbrev pub held : Text → ℕ → HeldLock
held path c = record { count = c; lock_path = path; releasing = false }

-- The lock under a path is the object `i`, entered `c` times; file and entry are those of `l`.
abbrev pub IsLeased : Text → ℕ → Locks → ℕ → Locks → Type 0
IsLeased path i l c m =
    (m.held_locks ≡ l.held_locks)
    × (m.files ≡ l.files)
    × (get_elem? m.objects i ≡ some (held path c))

-- What the holders of a lease do with it.
pub data Use : Type 0 where
  enters releases : Use

abbrev use_once : Text → ℕ → Use → Locks → Locks
use_once path i enters m = (enter path m).0
use_once path i releases m = (release_held_lock true path i m).0

abbrev pub use_all : Text → ℕ → List Use → Locks → Locks
use_all path i [] m = m
use_all path i (u ∷ us) m = use_all path i us (use_once path i u m)

-- How often it is held then. Once it is free, only a new call takes it.
abbrev next_depth : Use → ℕ → ℕ
next_depth u zero = zero
next_depth enters (suc c) = suc (suc c)
next_depth releases (suc c) = c

abbrev pub depth : List Use → ℕ → ℕ
depth [] c = c
depth (u ∷ us) c = depth us (next_depth u c)

-- A lock that is held so often, in locks that have its entry and its file.
abbrev pub IsStage : Text → ℕ → Locks → ℕ → Locks → Type 0
IsStage path i l zero m =
    (m.held_locks ≡ delete path l.held_locks) × (m.files ≡ delete path l.files)
IsStage path i l (suc c) m = IsLeased path i l (suc c) m

module _ (path : Text) (i : ℕ) (l : Locks) (here : get path l.held_locks ≡ some i) where
  enter-IsLeased :
      (c : ℕ) (m : Locks)
      → IsLeased path i l c m
      → IsLeased path i l (suc c) (enter path m).0 × ((enter path m).1 ≡ entered i)
  unfolding enter
  enter-IsLeased c m (same, files, object) =
      ground (arith, get_elem?-update_at i one_more m.objects object)

  release-IsLeased :
      (removed : Bool) (c : ℕ) (m : Locks)
      → IsLeased path i l (suc (suc c)) m
      → IsLeased path i l (suc c) (release_held_lock removed path i m).0
  unfolding release_held_lock begin_release
  release-IsLeased removed c m (same, files, object) =
      ground (arith, ==_iff i i, get_elem?-update_at i one_less m.objects object)

  -- The last release.
  release-last :
      (m : Locks)
      → IsLeased path i l 1 m
      → ((release_held_lock true path i m).0.held_locks ≡ delete path l.held_locks)
        × ((release_held_lock true path i m).0.files ≡ delete path l.files)
  unfolding release_held_lock begin_release finish_release
  release-last m (same, files, object) = ground (arith, ==_iff i i)

  use_once-IsStage :
      (u : Use) (c : ℕ) (m : Locks)
      → IsStage path i l c m
      → IsStage path i l (next_depth u c) (use_once path i u m)
  unfolding enter release_held_lock begin_release
  use_once-IsStage enters zero m (same, files) =
      ground (arith, get-delete path path l.held_locks, text_eq_refl path)
  use_once-IsStage releases zero m (same, files) =
      ground (arith, get-delete path path l.held_locks, text_eq_refl path)
  use_once-IsStage enters (suc c) m is = (enter-IsLeased (suc c) m is).0
  use_once-IsStage releases (suc zero) m is = release-last m is
  use_once-IsStage releases (suc (suc c)) m is = release-IsLeased true c m is

  pub use_all-IsStage :
      (us : List Use) (c : ℕ) (m : Locks)
      → IsStage path i l c m
      → IsStage path i l (depth us c) (use_all path i us m)
  use_all-IsStage [] c m is = is
  use_all-IsStage (u ∷ us) c m is =
      use_all-IsStage us (next_depth u c) (use_once path i u m) (use_once-IsStage u c m is)

pub create_lock-IsLeased :
    (file : LockFile) (path : Text) (l : Locks)
    → let created = create_lock file path l in IsLeased path created.1 created.0 1 created.0
unfolding create_lock
create_lock-IsLeased file path l = (refl, refl, get_elem?-append_last l.objects (held path 1))
