-- ===== src/Inbound/Coordinator/Stream.antt =====
-- What may appear on the event bus of a coordinator of
-- packages/openclaw-a2a-inbound/src/task-execution-coordinator.ts, as an automaton that reads it.
pub mod Published
pub mod Started
pub mod Starts
pub mod Handled
pub mod Delivered
pub mod Ends
pub mod Histories
pub mod Finishes
pub mod Examples
use openclaw_a2a_plugins.Base.{
  ℕ, ◌+◌, ◌≡◌, refl, ap, ◌∙◌, Bool, true, false, not, ◌&&◌, Option, none, some, List, [], ◌∷◌, ◌++◌,
  ◌==◌, arith, if◌then◌else◌, Bool-cases, inl, inr,
}
use openclaw_a2a_plugins.Base.Text.{Text, codes, text_eq, text_eq_refl}
use openclaw_a2a_plugins.Base.Dict.{get}
use openclaw_a2a_plugins.Inbound.Protocol.{
  Json, JsonRecord, num, nat, Task, TaskStatusUpdateEvent, TaskArtifactUpdateEvent,
}
use openclaw_a2a_plugins.Inbound.Coordinator.{
  BusEvent, bus_message, bus_task, bus_status, bus_artifact, Coordinator, Outcome, returned, thrown,
  and_then,
}

-- Whether the task's snapshot was seen, whether its final status was, and how many artifact updates.
pub record Seen : Type 0 where
  pub has_task : Bool
  pub is_final : Bool
  pub artifacts : ℕ

abbrev nothing_seen : Seen
nothing_seen = record { has_task = false; is_final = false; artifacts = 0 }

abbrev is_number : ℕ → Option Json → Bool
is_number n (some (num (nat m))) = m == n
is_number n _ = false

abbrev pub has_sequence : ℕ → Option JsonRecord → Bool
has_sequence n none = false
has_sequence n (some metadata) = is_number n (get (codes "sequence") metadata)

-- A direct message comes without a task; the task's snapshot comes once, and before every update of
-- it; no status comes after the final one; the n-th artifact update has the sequence number n. All
-- of them are about one task.
abbrev pub step : Text → Seen → BusEvent → Option Seen
step id p (bus_message m) = if p.has_task then none else some p
step id p (bus_task t) =
    if not p.has_task && text_eq t.id id then some (record p { has_task = true }) else none
step id p (bus_status e) =
    if p.has_task && not p.is_final && text_eq e.task_id id
    then some (record p { is_final = e.final })
    else none
step id p (bus_artifact a) =
    if p.has_task && text_eq a.task_id id && has_sequence (p.artifacts + 1) a.artifact.metadata
    then some (record p { artifacts = p.artifacts + 1 })
    else none

abbrev step_from : Text → Option Seen → BusEvent → Option Seen
step_from id none e = none
step_from id (some p) e = step id p e

pub accept : Text → Option Seen → List BusEvent → Option Seen
accept id o [] = o
accept id o (e ∷ es) = accept id (step_from id o e) es

accept-append :
    (id : Text) (o : Option Seen) (es : List BusEvent) (e : BusEvent)
    → accept id o (es ++ e ∷ []) ≡ step_from id (accept id o es) e
unfolding accept
accept-append id o [] e = refl
accept-append id o (d ∷ es) e = accept-append id (step_from id o d) es e

-- One more event after a list that was read.
pub accept-next :
    (id : Text) (es : List BusEvent) (e : BusEvent) {p : Seen} {q : Option Seen}
    → accept id (some nothing_seen) es ≡ some p
    → step id p e ≡ q
    → accept id (some nothing_seen) (es ++ e ∷ []) ≡ q
accept-next id es e h k =
    accept-append id (some nothing_seen) es e ∙ ap (λ o. step_from id o e) h ∙ k

-- The bus is what the automaton accepts, and the coordinator's flags are what it has seen.
abbrev pub Inv : Text → Coordinator → Type 0
Inv id c =
    (c.request.task_id ≡ id)
    × (c.task_published ≡ c.promoted)
    × (accept id (some nothing_seen) c.published
        ≡ some (record {
          has_task = c.promoted;
          is_final = c.final_published;
          artifacts = c.artifact_sequence;
        }))

-- A coordinator with a task that is final or not.
abbrev pub At : Text → Bool → Coordinator → Type 0
At id f c = Inv id c × (c.promoted ≡ true) × (c.final_published ≡ f)

abbrev pub Holds : {A : Type 0} → Text → (Coordinator → Type 0) → Outcome A → Type 0
Holds id P (returned a c) = P c
Holds id P (thrown e c) = Inv id c

pub and_then-Holds :
    {A B : Type 0} (id : Text) (P Q : Coordinator → Type 0) (o : Outcome A)
    (f : A → Coordinator → Outcome B)
    → Holds id P o
    → ((a : A) (c : Coordinator) → P c → Holds id Q (f a c))
    → Holds id Q (and_then o f)
and_then-Holds id P Q (returned a c) f h k = k a c h
and_then-Holds id P Q (thrown e c) f h k = h

pub Holds-weaken :
    {A : Type 0} (id : Text) (P Q : Coordinator → Type 0) (o : Outcome A)
    → ((c : Coordinator) → P c → Q c)
    → Holds id P o
    → Holds id Q o
Holds-weaken id P Q (returned a c) k h = k c h
Holds-weaken id P Q (thrown e c) k h = h

-- A final chunk of work whose value does not matter.
pub and_done-Holds :
    {A : Type 0} (id : Text) (P : Coordinator → Type 0) (o : Outcome A)
    → Holds id P o
    → Holds id P (and_then o λ _ c. returned tt c)
and_done-Holds id P (returned a c) h = h
and_done-Holds id P (thrown e c) h = h

-- A branch, with what its test says.
pub if-Holds :
    {A : Type 0} (id : Text) (P : Coordinator → Type 0) (b : Bool) (x y : Outcome A)
    → (b ≡ true → Holds id P x)
    → (b ≡ false → Holds id P y)
    → Holds id P (if b then x else y)
if-Holds id P true x y k l = k refl
if-Holds id P false x y k l = l refl

pub if-at :
    (P : Coordinator → Type 0) (b : Bool) (x y : Coordinator)
    → (b ≡ true → P x)
    → (b ≡ false → P y)
    → P (if b then x else y)
if-at P true x y k l = k refl
if-at P false x y k l = l refl
