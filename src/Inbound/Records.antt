-- ===== src/Inbound/Records.antt =====
-- The stored task record of packages/openclaw-a2a-inbound/src/task-store.ts.
--
-- A record is generic in its task, its binding and its events: the runtime store holds typed ones,
-- and a file holds JSON values that are cast to them unread.
pub mod Format
use openclaw_a2a_plugins.Base.{
  ℕ, ◌+◌, ◌≤◌, ◌<◌, ◌≡◌, refl, ap, Option, List, [], ◌∷◌, ◌++◌, or_else,
}

pub record JournalRecord (E : Type 0) : Type 0 where
  pub sequence : ℕ
  pub event : E

pub record StoredTaskRecord (T B E : Type 0) : Type 0 where
  pub task : T
  pub binding : Option B
  pub current_sequence : ℕ
  pub journal : List (JournalRecord E)

-- `createStoredTaskRecord`.
abbrev pub create_stored_task_record :
    {T B E : Type 0}
    → T
    → Option B
    → Option ℕ
    → Option (List (JournalRecord E))
    → StoredTaskRecord T B E
create_stored_task_record task binding current journal = record {
  task = task;
  binding = binding;
  current_sequence = or_else current 0;
  journal = or_else journal [];
}

module _ {E : Type 0} where
  -- The sequence numbers grow from above `previous`.
  abbrev pub Increasing : ℕ → List (JournalRecord E) → Type 0
  Increasing previous [] = Unit
  Increasing previous (j ∷ js) = (previous < j.sequence) × Increasing j.sequence js

  abbrev pub last_sequence : ℕ → List (JournalRecord E) → ℕ
  last_sequence previous [] = previous
  last_sequence previous (j ∷ js) = last_sequence j.sequence js

  abbrev events_of : List (JournalRecord E) → List E
  events_of [] = []
  events_of (j ∷ js) = j.event ∷ events_of js

  pub Increasing-append :
      (previous : ℕ) (js : List (JournalRecord E)) (j : JournalRecord E)
      → Increasing previous js
      → last_sequence previous js < j.sequence
      → Increasing previous (js ++ j ∷ [])
  Increasing-append previous [] j h lt = (lt, tt)
  Increasing-append previous (i ∷ js) j (p, h) lt = (p, Increasing-append i.sequence js j h lt)

  pub last_sequence-append :
      (previous : ℕ) (js : List (JournalRecord E)) (j : JournalRecord E)
      → last_sequence previous (js ++ j ∷ []) ≡ j.sequence
  last_sequence-append previous [] j = refl
  last_sequence-append previous (i ∷ js) j = last_sequence-append i.sequence js j

  events_of-append :
      (js : List (JournalRecord E)) (j : JournalRecord E)
      → events_of (js ++ j ∷ []) ≡ events_of js ++ j.event ∷ []
  events_of-append [] j = refl
  events_of-append (i ∷ js) j = ap (λ es. i.event ∷ es) (events_of-append js j)

-- What every record satisfies that is read from a file or written by the store.
pub record IsWellFormed {T B E : Type 0} (r : StoredTaskRecord T B E) : Type 0 where
  pub ordered : Increasing 0 r.journal
  pub covered : last_sequence 0 r.journal ≤ r.current_sequence
