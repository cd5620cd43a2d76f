-- ===== src/Inbound/WriteLock/Calls.antt =====
-- A call that acquires the lock comes to an end.
use openclaw_a2a_plugins.Base.{
  ℕ, zero, get_elem?, get_elem?-update_at, ◌+◌, ◌*◌, ◌≤◌, ◌≡◌, ◌∙◌, ◌⊎◌, inl, inr, refl, Bool, true,
  false, Option, none, some, List, [], ◌∷◌, length, Bool-cases, arith,
}
use openclaw_a2a_plugins.Base.Text.{Text, text_eq_refl}
use openclaw_a2a_plugins.Base.Dict.{get, has, get-delete}
use openclaw_a2a_plugins.Inbound.WriteLock.Inspection.{Host}
use openclaw_a2a_plugins.Inbound.WriteLock.Locks.{
  Locks, HeldLock, enter, enter_found, enter_object, one_more, finish_release,
}
use openclaw_a2a_plugins.Inbound.WriteLock.Acquisition.{
  Waited, Outcome, resolve_positive_ms, default_timeout_ms, default_stale_ms, entry_outcome,
  acquire_task_store_write_lock, removed, Turn, acquire_loop,
}
use openclaw_a2a_plugins.Inbound.WriteLock.Answers.{puts_of, file_count, IsEnd, acquire_loop-IsEnd}

-- A lock that is not held is acquired by the loop.
pub acquire_task_store_write_lock-unheld :
    (h : Host) (timeout stale : Option ℕ) (path : Text) (waited : List Waited) (turns : List Turn)
    → (start : ℕ) (l : Locks) → get path l.held_locks ≡ none
    → acquire_task_store_write_lock h timeout stale path waited turns start l
      ≡ acquire_loop h
          (resolve_positive_ms stale default_stale_ms)
          (start + resolve_positive_ms timeout default_timeout_ms)
          path
          turns
          1
          start
          l
unfolding acquire_task_store_write_lock enter
acquire_task_store_write_lock-unheld h timeout stale path [] turns start l unheld = rw unheld refl
acquire_task_store_write_lock-unheld h timeout stale path (w ∷ ws) turns start l unheld =
    rw unheld refl

-- What this process holds when the call last looks: a lock under release is given up by then.
abbrev IsBase : Text → Waited → Locks → Locks → Type 0
IsBase path w l k =
    (k ≡ l)
    ⊎ ((i : ℕ) × (o : HeldLock) × (get path l.held_locks ≡ some i)
        × (get_elem? l.objects i ≡ some o)
        × (o.releasing ≡ true)
        × (k ≡ finish_release w.removed path i l))

-- The call has an end, as seen from what the process held then.
abbrev pub HasEnd : Text → Waited → Locks → Locks × Outcome → Type 0
HasEnd path w l end = (k : Locks) × IsBase path w l k × IsEnd path k end

file_count-finish_release :
    (removed : Bool) (path : Text) (i : ℕ) (l : Locks)
    → file_count path (finish_release removed path i l) ≤ file_count path l
unfolding finish_release has
file_count-finish_release true path i l =
    ground (arith, get-delete path path l.files, text_eq_refl path)
file_count-finish_release false path i l = omega arith

released-unheld :
    (removed : Bool) (path : Text) (i : ℕ) (l : Locks)
    → get path (finish_release removed path i l).held_locks ≡ none
unfolding finish_release
released-unheld removed path i l = get-delete path path l.held_locks ∙ rw (text_eq_refl path) refl

module _ (path : Text) (w : Waited) (l : Locks) (looped : Locks × Outcome)
    (once_more : ℕ → Locks × Outcome) (ended : IsEnd path l looped)
    (ended_later : (i : ℕ) → IsEnd path (finish_release w.removed path i l) (once_more i)) where
  object-HasEnd :
      (i : ℕ) (object : Option HeldLock)
      → get path l.held_locks ≡ some i
      → get_elem? l.objects i ≡ object
      → HasEnd path w l (entry_outcome (enter_object i object l) once_more looped)
  object-HasEnd i none here is = (l, inl refl, ended)
  object-HasEnd i (some o) here is = elim (Bool-cases o.releasing) [
    | inl releasing ↦
        rw releasing
          (finish_release w.removed path i l, inr (i, o, here, is, releasing, refl), ended_later i)
    | inr free ↦ rw free (
      l,
      inl refl,
      (here, one_more o, get_elem?-update_at i one_more l.objects is, omega arith, free),
    )
  ]

  entry-HasEnd :
      (found : Option ℕ)
      → get path l.held_locks ≡ found
      → HasEnd path w l (entry_outcome (enter_found found l) once_more looped)
  entry-HasEnd none is = (l, inl refl, ended)
  entry-HasEnd (some i) is = object-HasEnd i (get_elem? l.objects i) is refl

-- A call comes to an end whatever other processes do, if there is a turn for each 50 ms of its time
-- limit, for the file that is there, and for each that others put in place. If it finds a lock under
-- release it waits until that is over, once. If it ends with a lease, the lock is entered for the
-- path, held at least once and not under release; otherwise it leaves what this process holds as it
-- was, but for the lock whose release it waited for.
pub acquire_task_store_write_lock-HasEnd :
    (h : Host) (timeout stale : Option ℕ) (path : Text) (w : Waited) (waited : List Waited)
    → (turns : List Turn) (start : ℕ) (l : Locks)
    → resolve_positive_ms timeout default_timeout_ms + 50 * (file_count path l + puts_of turns)
      ≤ 50 * length turns
    → HasEnd path w l
        (acquire_task_store_write_lock h timeout stale path (w ∷ waited) turns start l)
unfolding acquire_task_store_write_lock enter
acquire_task_store_write_lock-HasEnd h timeout stale path w waited turns start l enough =
    let ms = resolve_positive_ms timeout default_timeout_ms in
    let stale_ms = resolve_positive_ms stale default_stale_ms in
    entry-HasEnd path w l (acquire_loop h stale_ms (start + ms) path turns 1 start l)
      (λ i.
        acquire_task_store_write_lock h timeout stale path waited turns w.over_at
          (finish_release w.removed path i l))
      (acquire_loop-IsEnd h stale_ms (start + ms) path turns zero start l l (refl, refl)
        (omega arith))
      (λ i.
        let m = finish_release w.removed path i l in
        let fewer = file_count-finish_release w.removed path i l in
        rw
          (acquire_task_store_write_lock-unheld h timeout stale path waited turns w.over_at m
            (released-unheld w.removed path i l))
          (acquire_loop-IsEnd h stale_ms (w.over_at + ms) path turns zero w.over_at m m (refl, refl)
            (omega arith)))
      (get path l.held_locks) refl
