-- ===== src/Inbound/WriteLock/Cleanup.antt =====
-- The handlers that give the locks up when the process ends: `registerCleanupHandlers`,
-- `unregisterCleanupHandlers`, `handleTerminationSignal` and the two functions for tests of
-- packages/openclaw-a2a-inbound/src/task-store-write-lock.ts. If `process.on` throws for a signal,
-- the handler stays in the map, so it changes nothing here.
use openclaw_a2a_plugins.Base.{
  ℕ, Bool, true, false, not, ◌&&◌, ◌||◌, List, [], ◌∷◌, ◌++◌, ◌==◌, keep, if◌then◌else◌,
}
use openclaw_a2a_plugins.Base.Text.{Text}
use openclaw_a2a_plugins.Inbound.WriteLock.Locks.{Locks, release_all_locks, release_held_lock}

pub data CleanupSignal : Type 0 where
  sigint sigterm sigquit sigabrt : CleanupSignal

abbrev pub cleanup_signals : List CleanupSignal
cleanup_signals = sigint ∷ sigterm ∷ sigquit ∷ sigabrt ∷ []

pub record CleanupState : Type 0 where
  pub registered : Bool
  pub cleanup_handlers : List CleanupSignal

abbrev is_signal : CleanupSignal → CleanupSignal → Bool
is_signal sigint sigint = true
is_signal sigterm sigterm = true
is_signal sigquit sigquit = true
is_signal sigabrt sigabrt = true
is_signal _ _ = false

abbrev has_handler : CleanupSignal → List CleanupSignal → Bool
has_handler s [] = false
has_handler s (t ∷ ts) = is_signal s t || has_handler s ts

-- A handler goes into the map before `process.on` is called, and stays there if that throws.
abbrev register_each : List CleanupSignal → List CleanupSignal → List CleanupSignal
register_each [] handlers = handlers
register_each (s ∷ ss) handlers =
    register_each ss (if has_handler s handlers then handlers else handlers ++ s ∷ [])

unfoldable pub register_cleanup_handlers : CleanupState → CleanupState
register_cleanup_handlers c = record {
  registered = true;
  cleanup_handlers = register_each cleanup_signals c.cleanup_handlers;
}

abbrev pub unregister_cleanup_handlers : CleanupState
unregister_cleanup_handlers = record { registered = false; cleanup_handlers = [] }

-- The locks are given up; the handler goes and the signal is raised again if no one else listens.
unfoldable pub handle_termination_signal :
    (Text → Bool) → CleanupSignal → ℕ → CleanupState → Locks → (CleanupState × Bool) × Locks
handle_termination_signal removed signal listeners c l = (
  if has_handler signal c.cleanup_handlers && listeners == 1
      then (
        record c { cleanup_handlers = keep (λ s. not (is_signal signal s)) c.cleanup_handlers },
        true,
      )
      else (c, false),
  release_all_locks removed l,
)

abbrev drain_each : (Text → Bool) → List (Text × ℕ) → Locks → Locks
drain_each removed [] l = l
drain_each removed ((path, i) ∷ rest) l =
    drain_each removed rest (release_held_lock (removed path) path i l).0

unfoldable pub drain_task_store_write_lock_state :
    (Text → Bool) → CleanupState → Locks → CleanupState × Locks
drain_task_store_write_lock_state removed c l =
    (unregister_cleanup_handlers, drain_each removed l.held_locks l)

unfoldable pub reset_task_store_write_lock_state :
    (Text → Bool) → CleanupState → Locks → CleanupState × Locks
reset_task_store_write_lock_state removed c l =
    (unregister_cleanup_handlers, release_all_locks removed l)
