-- ===== src/Inbound/SessionRouting/Refusals.antt =====
-- Which messages are let in.
use openclaw_a2a_plugins.Base.{
  ℕ, ◌+◌, ◌≡◌, refl, ◌⊎◌, inl, inr, Bool, true, false, none, some, List, [], ◌∷◌, ◌++◌, arith,
  length, All, Option-cases, ap, ◌∙◌,
}
use native.Mathlib.Nat.{add-zero}
use openclaw_a2a_plugins.Base.Results.{ok, err}
use openclaw_a2a_plugins.Inbound.Protocol.{Json}
use openclaw_a2a_plugins.Inbound.SessionRouting.Parts.{
  Classification, is_text, is_data, is_file, is_invalid, is_other, classify_message_part, PartError,
  refusal, validate_from, validate_inbound_message_parts,
}

-- A text, data, or what the code does not know.
abbrev accepts : Classification → Bool
accepts (is_text t) = true
accepts (is_data v) = true
accepts (is_file member) = false
accepts (is_invalid reason) = false
accepts is_other = true

abbrev pub IsAccepted : Json → Type 0
IsAccepted p = accepts (classify_message_part p) ≡ true

-- The first part that is refused.
pub record Refused (i : ℕ) (parts : List Json) (e : PartError) : Type 0 where
  pub before : List Json
  pub part : Json
  pub later : List Json
  pub split : parts ≡ before ++ part ∷ later
  pub before_accepted : All IsAccepted before
  pub reason : refusal (i + length before) (classify_message_part part) ≡ some e

accepts_unrefused : (i : ℕ) (c : Classification) → refusal i c ≡ none → accepts c ≡ true
accepts_unrefused i (is_text t) h = refl
accepts_unrefused i (is_data v) h = refl
accepts_unrefused i (is_file member) h = cc
accepts_unrefused i (is_invalid reason) h = cc
accepts_unrefused i is_other h = refl

abbrev Validated : ℕ → List Json → Type 0
Validated i parts =
    ((validate_from i parts ≡ ok tt) × All IsAccepted parts)
    ⊎ ((e : PartError) × (validate_from i parts ≡ err e) × Refused i parts e)

Refused-first :
    (i : ℕ) (p : Json) (ps : List Json) {e : PartError}
    → refusal i (classify_message_part p) ≡ some e
    → Refused i (p ∷ ps) e
Refused-first i p ps {e} bad = record {
  before = [];
  part = p;
  later = ps;
  split = refl;
  before_accepted = tt;
  reason = ap (λ k. refusal k (classify_message_part p)) (add-zero i) ∙ bad;
}

Refused-later :
    (i : ℕ) (p : Json) (ps : List Json) {e : PartError}
    → IsAccepted p
    → Refused (i + 1) ps e
    → Refused i (p ∷ ps) e
Refused-later i p ps good r = record {
  before = p ∷ r.before;
  part = r.part;
  later = r.later;
  split = ap (λ qs. p ∷ qs) r.split;
  before_accepted = (good, r.before_accepted);
  reason = ap (λ k. refusal k (classify_message_part r.part)) (omega arith) ∙ r.reason;
}

validate_from_lem : (i : ℕ) (parts : List Json) → Validated i parts
unfolding validate_from
validate_from_lem i [] = inl (refl, tt)
validate_from_lem i (p ∷ ps) = elim (Option-cases (refusal i (classify_message_part p))) [
  | inr (e, bad) ↦ inr (e, ground (arith, bad), Refused-first i p ps bad)
  | inl good ↦
      let accepted : IsAccepted p = accepts_unrefused i (classify_message_part p) good in
      elim (validate_from_lem (i + 1) ps) [
        | inl (passes, all_accepted) ↦ inl (ground (arith, good, passes), (accepted, all_accepted))
        | inr (e, fails, r) ↦ inr (e, ground (arith, good, fails), Refused-later i p ps accepted r)
      ]
]

-- A message is let in if each of its parts is a text, data, or of a kind that is not known. Otherwise
-- the error is that of the first other part: it names its place, and the member that makes it a file
-- or what is wrong with it.
pub validate_inbound_message_parts_lem :
    (parts : List Json)
    → ((validate_inbound_message_parts parts ≡ ok tt) × All IsAccepted parts)
      ⊎ ((e : PartError) × (validate_inbound_message_parts parts ≡ err e) × Refused 0 parts e)
unfolding validate_inbound_message_parts
validate_inbound_message_parts_lem parts = validate_from_lem 0 parts
