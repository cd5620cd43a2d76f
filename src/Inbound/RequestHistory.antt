-- ===== src/Inbound/RequestHistory.antt =====
-- `trimTaskHistory` of packages/openclaw-a2a-inbound/src/request-handler.ts.
mod Examples
use openclaw_a2a_plugins.Base.{
  ℕ, zero, suc, ◌+◌, ◌-◌, ◌≤◌, ◌≡◌, refl, ap, ◌∙◌, Bool, true, false, Option, none, some, List, [],
  ◌∷◌, ◌++◌, arith, length, min, ◌==◌, if◌then◌else◌, Bool-cases, inl, inr,
}
use mathlib.Core.Option
use openclaw_a2a_plugins.Inbound.Protocol.{Task, Message}

-- A whole number of messages that a client asks for; fractions are not represented.
pub data HistoryLength : Type 0 where
  whole : ℕ → HistoryLength
  below_zero : HistoryLength

abbrev drop : {A : Type 0} → ℕ → List A → List A
drop zero xs = xs
drop (suc n) [] = []
drop (suc n) (x ∷ xs) = drop n xs

-- `slice(-n)`: from the n-th entry from the end, but `-0` is 0, the beginning.
abbrev slice_last : {A : Type 0} → ℕ → List A → List A
slice_last n xs = if n == 0 then xs else drop (length xs - n) xs

pub trim_task_history : Task → Option HistoryLength → Task
trim_task_history task (some (whole n)) = record task {
  history = Option.map (slice_last n) task.history;
}
trim_task_history task _ = record task { history = some [] }

drop-suffix :
    {A : Type 0} (n : ℕ) (xs : List A)
    → n ≤ length xs
    → (before : List A) × (xs ≡ before ++ drop n xs) × (length (drop n xs) ≡ length xs - n)
drop-suffix zero xs h = ([], refl, omega arith)
drop-suffix (suc n) [] h = absurd (omega (arith, h))
drop-suffix (suc n) (x ∷ xs) h =
    let (before, split, size) = drop-suffix n xs (omega (arith, h)) in
    (x ∷ before, ap (λ r. x ∷ r) split, omega (arith, size))

slice_last-suffix :
    {A : Type 0} (n : ℕ) (xs : List A)
    → (before : List A) × (xs ≡ before ++ slice_last n xs)
      × (length (slice_last n xs) ≡ (if n == 0 then length xs else min n (length xs)))
slice_last-suffix n xs = elim (Bool-cases (n == 0)) [
  | inl zero_asked ↦ rw zero_asked ([], refl, refl)
  | inr some_asked ↦
      let (before, split, size) = drop-suffix (length xs - n) xs (omega arith) in
      rw some_asked (before, split, size ∙ omega arith)
]

-- A trimmed history is the end of the task's history: as many messages as were asked for, or all if
-- there are fewer; but all of them also when none was asked for. The rest of the task stays.
pub trim_task_history_lem :
    (task : Task) (n : ℕ) (h : List Message)
    → task.history ≡ some h
    → let trimmed = trim_task_history task (some (whole n)) in
      (before : List Message) × (kept : List Message) × (h ≡ before ++ kept)
      × (length kept ≡ (if n == 0 then length h else min n (length h)))
      × (trimmed ≡ record task { history = some kept })
unfolding trim_task_history
trim_task_history_lem task n h e =
    let (before, split, size) = slice_last-suffix n h in
    (
      before,
      slice_last n h,
      split,
      size,
      ap (λ o. record task { history = Option.map (slice_last n) o }) e,
    )
