-- ===== src/Inbound/Subscription.antt =====
-- `TaskJournalSubscription` of packages/openclaw-a2a-inbound/src/task-store.ts: a queue of events
-- with waiting readers.
--
-- A reader is the number of its call of `next`; `resolved` records, in order, what each promise
-- was resolved with, where `none` is `undefined`.
pub mod Fifo
use openclaw_a2a_plugins.Base.{
  ℕ, Bool, true, false, Option, none, some, List, [], ◌∷◌, ◌++◌, map, if◌then◌else◌,
}

pub record Subscription (E : Type 0) : Type 0 where
  pub events : List E
  pub waiters : List ℕ
  pub closed : Bool
  pub resolved : List (ℕ × Option E)

module _ {E : Type 0} where
  abbrev pub opened : Subscription E
  opened = record { events = []; waiters = []; closed = false; resolved = [] }

  abbrev hand_to : E → List ℕ → Subscription E → Subscription E
  hand_to e [] s = record s { events = s.events ++ e ∷ [] }
  hand_to e (w ∷ ws) s = record s { waiters = ws; resolved = s.resolved ++ (w, some e) ∷ [] }

  pub push : E → Subscription E → Subscription E
  push e s = if s.closed then s else hand_to e s.waiters s

  abbrev read_from : ℕ → List E → Subscription E → Subscription E
  read_from w (e ∷ es) s = record s { events = es; resolved = s.resolved ++ (w, some e) ∷ [] }
  read_from w [] s =
      if s.closed
      then record s { resolved = s.resolved ++ (w, none) ∷ [] }
      else record s { waiters = s.waiters ++ w ∷ [] }

  pub next : ℕ → Subscription E → Subscription E
  next w s = read_from w s.events s

  abbrev turned_away : List ℕ → List (ℕ × Option E)
  turned_away [] = []
  turned_away (w ∷ ws) = (w, none) ∷ turned_away ws

  -- Without the call of `unsubscribe`, which changes the store.
  pub close : Subscription E → Subscription E
  close s = if s.closed then s else record s {
    closed = true;
    resolved = s.resolved ++ turned_away s.waiters;
    waiters = [];
    events = [];
  }
