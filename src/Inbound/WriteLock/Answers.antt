-- ===== src/Inbound/WriteLock/Answers.antt =====
-- The loop that acquires the lock comes to an end.
use openclaw_a2a_plugins.Base.{
  ℕ, suc, get_elem?, get_elem?-append_last, ◌+◌, ◌*◌, ◌≤◌, ◌≡◌, refl, ap, if◌then◌else◌, Bool, true,
  false, Option, none, some, List, [], ◌∷◌, ltb, length, arith,
}
use openclaw_a2a_plugins.Base.Text.{Text, text_eq_refl}
use openclaw_a2a_plugins.Base.Dict.{get, has, get-set_self, get-delete}
use openclaw_a2a_plugins.Inbound.WriteLock.Inspection.{Host}
use openclaw_a2a_plugins.Inbound.WriteLock.Locks.{
  Locks, LockFile, HeldLock, own_file, create_lock, remove_file,
}
use openclaw_a2a_plugins.Inbound.WriteLock.Acquisition.{
  Outcome, acquired, threw, timed_out, waits_for_release, written, created, removed, opened, Change,
  leaves, removes, puts, Turn, disturb, reclaims, after_attempt, timeout_error, Attempt, ends,
  goes_on, waits, try_once, acquire_loop, still_running, delay_ms,
}

abbrev put_count : Change → ℕ
put_count (puts file) = 1
put_count _ = 0

-- How many turns put a file in place.
abbrev pub puts_of : List Turn → ℕ
puts_of [] = 0
puts_of (t ∷ ts) = put_count t.change + puts_of ts

abbrev one_if : Bool → ℕ
one_if true = 1
one_if false = 0

abbrev pub file_count : Text → Locks → ℕ
file_count path l = one_if (has path l.files)

abbrev IsSame : Locks → Locks → Type 0
IsSame k m = (m.held_locks ≡ k.held_locks) × (m.objects ≡ k.objects)

-- The end of a call: a lease of the lock that is entered for the path, or no change of what this
-- process holds.
abbrev pub IsEnd : Text → Locks → Locks × Outcome → Type 0
IsEnd path k (m, acquired i) =
    (get path m.held_locks ≡ some i)
    × (o : HeldLock) × (get_elem? m.objects i ≡ some o)
    × (1 ≤ o.count)
    × (o.releasing ≡ false)
IsEnd path k (m, threw error) = IsSame k m
IsEnd path k (m, timed_out owner) = IsSame k m
IsEnd path k (m, waits_for_release) = ⊥
IsEnd path k (m, still_running) = ⊥

-- One turn ends the call, or takes the file away, or waits with the file in place.
abbrev TurnEnds : Text → Turn → Locks → Locks → Locks × Attempt → Type 0
TurnEnds path t k l (m, ends outcome) = IsEnd path k (m, outcome)
TurnEnds path t k l (m, goes_on) =
    IsSame k m × suc (file_count path m) ≤ put_count t.change + file_count path l
TurnEnds path t k l (m, waits) =
    IsSame k m × file_count path m ≤ put_count t.change + file_count path l

file_count-removed : (path : Text) (l : Locks) → file_count path (remove_file true path l) ≡ 0
unfolding has
file_count-removed path l = ground (arith, get-delete path path l.files, text_eq_refl path)

file_count-disturb :
    (c : Change) (path : Text) (l : Locks)
    → file_count path (disturb c path l) ≤ put_count c + file_count path l
unfolding has
file_count-disturb leaves path l = omega arith
file_count-disturb removes path l = ground (arith, get-delete path path l.files, text_eq_refl path)
file_count-disturb (puts file) path l = ground (arith, get-set_self path file l.files)

IsSame-disturb : (c : Change) (path : Text) (k l : Locks) → IsSame k l → IsSame k (disturb c path l)
IsSame-disturb leaves path k l same = same
IsSame-disturb removes path k l same = same
IsSame-disturb (puts file) path k l same = same

create_lock-IsEnd :
    (file : LockFile) (path : Text) (k l : Locks)
    → let made = create_lock file path l in IsEnd path k (made.0, acquired made.1)
unfolding create_lock
create_lock-IsEnd file path k l =
    let new : HeldLock = record { count = 1; lock_path = path; releasing = false } in
    (
      get-set_self path (length l.objects) l.held_locks,
      new,
      get_elem?-append_last l.objects new,
      omega arith,
      refl,
    )

module _ (h : Host) (stale : ℕ) (path : Text) (t : Turn) (now : ℕ) (k l m : Locks)
    (same : IsSame k m) where
  written-TurnEnds : (error : Option Text) → TurnEnds path t k l (written h path t now error m)
  written-TurnEnds none = create_lock-IsEnd (own_file h now) path k m
  written-TurnEnds (some error) = same

  created-TurnEnds : (error : Option Text) → TurnEnds path t k l (created h path t now error m)
  created-TurnEnds none = written-TurnEnds t.write_error
  created-TurnEnds (some error) = same

  removed-TurnEnds :
      (error : Option Text)
      → 1 ≤ put_count t.change + file_count path l
      → TurnEnds path t k l (removed path error m)
  removed-TurnEnds none there = (same, rw (file_count-removed path m) there)
  removed-TurnEnds (some error) there = same

  opened-TurnEnds :
      (b : Bool)
      → has path m.files ≡ b
      → file_count path m ≤ put_count t.change + file_count path l
      → TurnEnds path t k l (opened h stale path t now b m)
  opened-TurnEnds false is bound = created-TurnEnds t.open_error
  opened-TurnEnds true is bound =
      elim (reclaims h stale path t now m)
        as (λ b. TurnEnds path t k l (if b then removed path t.remove_error m else (m, waits))) [
          | true ↦ removed-TurnEnds t.remove_error (rw (← ap one_if is) bound)
          | false ↦ (same, bound)
        ]

try_once-TurnEnds :
    (h : Host) (stale : ℕ) (path : Text) (t : Turn) (now : ℕ) (k l : Locks)
    → IsSame k l
    → TurnEnds path t k l (try_once h stale path t now l)
unfolding try_once
try_once-TurnEnds h stale path t now k l same =
    let m = disturb t.change path l in
    opened-TurnEnds h stale path t now k l m (IsSame-disturb t.change path k l same)
      (has path m.files) refl (file_count-disturb t.change path l)

pub delay_ms-le : (attempt : ℕ) → 50 ≤ delay_ms (suc attempt)
unfolding delay_ms
delay_ms-le attempt = omega arith

-- Turns for each 50 ms that are left and for each file that can be taken away.
abbrev pub HasTurns : ℕ → Text → List Turn → ℕ → Locks → Type 0
HasTurns deadline path turns clock l =
    deadline + 50 * (file_count path l + puts_of turns) ≤ clock + 50 * length turns

after_attempt-IsEnd :
    (deadline : ℕ) (path : Text) (t : Turn) (ts : List Turn) (attempt clock now : ℕ)
    → (rest : ℕ → Locks → Locks × Outcome) (k l : Locks) (turn : Locks × Attempt)
    → TurnEnds path t k l turn
    → HasTurns deadline path (t ∷ ts) clock l
    → clock ≤ now
    → ((c : ℕ) (m : Locks) → IsSame k m → HasTurns deadline path ts c m → IsEnd path k (rest c m))
    → IsEnd path k (after_attempt t (suc attempt) now rest turn)
after_attempt-IsEnd deadline path t ts attempt clock now rest k l (m, ends outcome) e enough late
      go =
    e
after_attempt-IsEnd deadline path t ts attempt clock now rest k l (m, goes_on) (same, e) enough late
      go =
    go now m same (omega arith)
after_attempt-IsEnd deadline path t ts attempt clock now rest k l (m, waits) (same, e) enough late
      go =
    let slept = delay_ms-le attempt in
    go (now + delay_ms (suc attempt) + t.overslept) m same (omega arith)

pub acquire_loop-IsEnd :
    (h : Host) (stale deadline : ℕ) (path : Text) (turns : List Turn) (attempt clock : ℕ)
    → (k l : Locks) → IsSame k l
    → HasTurns deadline path turns clock l
    → IsEnd path k (acquire_loop h stale deadline path turns (suc attempt) clock l)
unfolding acquire_loop
acquire_loop-IsEnd h stale deadline path [] attempt clock k l same enough = ground arith
acquire_loop-IsEnd h stale deadline path (t ∷ ts) attempt clock k l same enough =
    let now = clock + t.took in
    let rest = acquire_loop h stale deadline path ts (suc (suc attempt)) in
    let turn = try_once h stale path t now l in
    elim (ltb clock deadline)
      as (λ b.
        IsEnd path k
          (if b then after_attempt t (suc attempt) now rest turn else (l, timeout_error path l))) [
            | true ↦
                after_attempt-IsEnd deadline path t ts attempt clock now rest k l turn
                  (try_once-TurnEnds h stale path t now k l same) enough (omega arith)
                  (λ c m s e. acquire_loop-IsEnd h stale deadline path ts (suc attempt) c k m s e)
            | false ↦ same
          ]
