-- ===== src/Inbound/WriteLock/Examples.antt =====
-- The theorems on the lock at concrete files, and runs.
use openclaw_a2a_plugins.Base.{
  ℕ, ◌+◌, ◌*◌, ◌≤◌, length, ◌<◌, ◌==◌, ◌≡◌, refl, ◌↔◌, true, false, Option, none, some, List, [],
  ◌∷◌, if◌then◌else◌, arith,
}
use openclaw_a2a_plugins.Base.Text.{Text, codes, text_eq}
use openclaw_a2a_plugins.Base.Dict.{get, has, delete}
use openclaw_a2a_plugins.Inbound.Protocol.{nat, num, str, obj, end, field}
use openclaw_a2a_plugins.Inbound.WriteLock.Inspection.{
  Host, LockPayload, after_epoch, changed_at, read_lock_payload, inspect_lock_payload,
  should_reclaim_lock, is_pid_alive, get_process_start_time,
}
use openclaw_a2a_plugins.Inbound.WriteLock.Locks.{Locks, LockFile, own_file, create_lock, enter}
use openclaw_a2a_plugins.Inbound.WriteLock.Reclaims.{IsAbandoned, should_reclaim_lock_lem}
use openclaw_a2a_plugins.Inbound.WriteLock.Locks.{finish_release}
use openclaw_a2a_plugins.Inbound.WriteLock.Acquisition.{
  Waited, leaves, puts, Turn, acquired, timed_out, resolve_positive_ms, default_stale_ms,
  default_timeout_ms, acquire_loop, try_once, reclaims, acquire_task_store_write_lock,
}
use openclaw_a2a_plugins.Inbound.WriteLock.Answers.{file_count, puts_of}
use openclaw_a2a_plugins.Inbound.WriteLock.Calls.{HasEnd, acquire_task_store_write_lock-HasEnd}
use openclaw_a2a_plugins.Inbound.WriteLock.Leases.{enters, releases, use_all}
use openclaw_a2a_plugins.Inbound.WriteLock.Uses.{IsCounted, use_all-acquire_task_store_write_lock}
use openclaw_a2a_plugins.Inbound.WriteLock.Respect.{IsLeft, acquire_task_store_write_lock_respects}

-- Process 7 is this one and process 9, which started at 5, another.
abbrev stat_line : Text
stat_line = codes "9 (a b) S 1 2 3 4 5 6 7 8 9 10 11 12 13 14 15 16 17 18 5 20\n"

abbrev host : Host
host = record {
  linux = true;
  own_pid = 7;
  can_signal = λ pid. pid == 9;
  state_letter = λ pid. some (codes "S");
  stat_text = λ pid. some stat_line;
  to_number = λ t. nat (if text_eq t (codes "5") then 5 else 0);
  parse_date = λ t. after_epoch 1000;
  iso_date = λ now. codes "1970";
}

abbrev lock_of : ℕ → ℕ → LockFile
lock_of pid starttime = record {
  content = some (
      obj (
        field (codes "pid") (num (nat pid)) (
          field (codes "createdAt") (str (codes "1970"))
            (field (codes "starttime") (num (nat starttime)) end))));
  mtime = 1000;
}

start_time : get_process_start_time host 9 ≡ some 5
unfolding get_process_start_time text_eq
start_time = refl

abbrev calm : Turn
calm = record {
  change = leaves;
  took = 2;
  overslept = 1;
  open_error = none;
  write_error = none;
  remove_error = none;
  cleaned_up = true;
  stat_fails = false;
}

abbrev path : Text
path = codes "lock"

abbrev none_held : Locks
none_held = record { held_locks = []; objects = []; files = [] }

abbrev with_file : LockFile → Locks
with_file file = record none_held { files = (path, file) ∷ [] }

abbrev payload : ℕ → Option LockPayload
payload starttime =
    some (record { pid = some 9; created_at = some (codes "1970"); starttime = some starttime })

-- The lock of a process that started later under the number of the owner.
should_reclaim_lock_lem_example :
    (should_reclaim_lock
        (changed_at 1000)
        (inspect_lock_payload host (payload 4) 60000 2000)
        60000
        2000
        false
      ≡ true)
    ↔ IsAbandoned host (payload 4) (changed_at 1000) 60000 2000 false
should_reclaim_lock_lem_example =
    should_reclaim_lock_lem host (payload 4) (changed_at 1000) 60000 2000 false

abbrev turns : List Turn
turns = record calm { change = puts (lock_of 9 5) } ∷ calm ∷ calm ∷ calm ∷ []

enough :
    resolve_positive_ms (some 60) default_timeout_ms
      + 50 * (file_count path (with_file (lock_of 9 4)) + puts_of turns)
    ≤ 50 * length turns
unfolding resolve_positive_ms has text_eq
enough = omega arith

abbrev waited : Waited
waited = record { removed = true; over_at = 3100 }

acquire_task_store_write_lock-HasEnd_example : HasEnd path waited (with_file (lock_of 9 4)) (
    acquire_task_store_write_lock host
      (some 60)
      none
      path
      (waited ∷ [])
      turns
      3000
      (with_file (lock_of 9 4)))
acquire_task_store_write_lock-HasEnd_example =
    acquire_task_store_write_lock-HasEnd host (some 60) none path waited [] turns 3000
      (with_file (lock_of 9 4)) enough

-- A lock under release is acquired once that is over.
abbrev releasing : Locks
releasing = record {
  held_locks = (path, 0) ∷ [];
  objects = record { count = 0; lock_path = path; releasing = true } ∷ [];
  files = (path, lock_of 7 5) ∷ [];
}

after_release :
    (acquire_task_store_write_lock host none none path (waited ∷ []) (calm ∷ []) 3000 releasing).1
    ≡ acquired 1
unfolding acquire_task_store_write_lock acquire_loop try_once has get text_eq enter create_lock
    resolve_positive_ms delete finish_release
after_release = refl

-- A lock that was left behind is taken over at the second turn.
takes_over :
    (acquire_task_store_write_lock host
      (some 60)
      none
      path
      []
      (calm ∷ calm ∷ [])
      3000
      (with_file (lock_of 9 4))).1
    ≡ acquired 0
unfolding acquire_task_store_write_lock acquire_loop try_once has get text_eq enter reclaims
    inspect_lock_payload should_reclaim_lock read_lock_payload is_pid_alive get_process_start_time
    create_lock resolve_positive_ms delete
takes_over = refl

use_all-acquire_task_store_write_lock_example :
    let call = acquire_task_store_write_lock host none none path [] (calm ∷ []) 3000 none_held in
    (call.1 ≡ acquired 0)
    × IsCounted path
        (own_file host 3002)
        none_held
        1
        (use_all path 0 (enters ∷ releases ∷ []) call.0)
unfolding get
use_all-acquire_task_store_write_lock_example =
    use_all-acquire_task_store_write_lock host none none path [] calm [] 3000 none_held
      (enters ∷ releases ∷ []) refl refl (refl, refl, refl)

lives :
    (now : ℕ)
    → now < 3000 + resolve_positive_ms (some 60) default_timeout_ms + 2
    → ¬ IsLeft host
        (resolve_positive_ms none default_stale_ms)
        path
        (lock_of 9 5)
        (with_file (lock_of 9 5))
        now
unfolding resolve_positive_ms read_lock_payload is_pid_alive get_process_start_time has get text_eq
lives now early = λ left. ground arith

acquire_task_store_write_lock_respects_example :
    acquire_task_store_write_lock host
      (some 60)
      none
      path
      []
      (calm ∷ calm ∷ [])
      3000
      (with_file (lock_of 9 5))
    ≡ (with_file (lock_of 9 5), timed_out (some 9))
unfolding get text_eq read_lock_payload resolve_positive_ms
acquire_task_store_write_lock_respects_example =
    acquire_task_store_write_lock_respects host (some 60) none path [] (lock_of 9 5)
      (with_file (lock_of 9 5)) 2 (calm ∷ calm ∷ []) 3000 refl refl
      ((refl, refl, omega arith), ((refl, refl, omega arith), tt)) lives (omega arith)
