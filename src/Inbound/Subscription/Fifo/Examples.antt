-- ===== src/Inbound/Subscription/Fifo/Examples.antt =====
-- The theorems on subscriptions at a concrete one.
use openclaw_a2a_plugins.Base.{ℕ, ◌≡◌, refl, some, List, [], ◌∷◌}
use openclaw_a2a_plugins.Inbound.Subscription.{opened, push, next}
use openclaw_a2a_plugins.Inbound.Subscription.Fifo.{
  Act, pushes, reads, act, run, Matches, run-Matches,
}

abbrev acts : List (Act ℕ)
acts = reads 1 ∷ pushes 70 ∷ pushes 71 ∷ reads 2 ∷ reads 3 ∷ []

run-Matches_example : Matches (1 ∷ 2 ∷ 3 ∷ []) (70 ∷ 71 ∷ []) (run opened acts)
run-Matches_example = run-Matches acts

runs : (run opened acts).resolved ≡ (1, some 70) ∷ (2, some 71) ∷ []
unfolding run act push next
runs = refl
