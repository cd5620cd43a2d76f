-- ===== src/Outbound/Capabilities/Unsupported.antt =====
-- Which modes are reported as unsupported.
mod Examples
use openclaw_a2a_plugins.Base.{
  ◌≡◌, refl, sym, ap, ◌∙◌, Bool, true, false, not, ◌&&◌, ◌||◌, Option, none, some, List, [], ◌∷◌,
  ◌++◌, arith, any, map, keep, or_else, if◌then◌else◌, Bool-cases, inl, inr,
}
use openclaw_a2a_plugins.Base.Text.{Text, text_eq, text_eq_iff}
use openclaw_a2a_plugins.Base.Strings.{trim, has_text}
use openclaw_a2a_plugins.Inbound.Replies.{Ambient, is_member, add_to, add_all}
use openclaw_a2a_plugins.Outbound.Requests.{PartInput}
use openclaw_a2a_plugins.Outbound.Capabilities.{
  Skill, TargetCardSnapshot, unknown_mode, all_modes, normalize_mode, normalize_mode_list,
  part_mode, requested_modes, advertised_input_modes_of, advertised_output_modes_of,
  unsupported_from, unsupported_modes, evaluate_send_compatibility,
}

is_member-append :
    (m k : Text) (earlier : List Text)
    → is_member m (earlier ++ k ∷ []) ≡ (is_member m earlier || text_eq m k)
is_member-append m k [] = ground arith
is_member-append m k (j ∷ earlier) = ground (arith, is_member-append m k earlier)

-- A mode is reported if it was not met before, is not `unknown` and is not advertised.
unsupported_from-member :
    (m : Text) (earlier requested advertised : List Text)
    → is_member m (unsupported_from earlier requested advertised) ≡ (
        is_member m requested
        && not (text_eq m unknown_mode)
        && not (is_member m advertised)
        && not (is_member m earlier))
unfolding unsupported_from
unsupported_from-member m earlier [] advertised = refl
unsupported_from-member m earlier (k ∷ requested) advertised =
    let rest = unsupported_from-member m (earlier ++ k ∷ []) requested advertised in
    let before = is_member-append m k earlier in
    elim (Bool-cases (text_eq m k)) [
      | inl same ↦ ground (arith, same, text_eq_iff m k, rest, before)
      | inr other ↦ ground (arith, other, rest, before)
    ]

is_member-add_to :
    (m t : Text) (set : List Text) → is_member m (add_to set t) ≡ (is_member m set || text_eq m t)
is_member-add_to m t set = elim (Bool-cases (is_member t set)) [
  | inr new ↦ rw new (is_member-append m t set)
  | inl old ↦ elim (Bool-cases (text_eq m t)) [
    | inr other ↦ ground (arith, old, other)
    | inl same ↦ rw (old, (text_eq_iff m t).0 same, old) refl
  ]
]

is_member-add_all :
    (m : Text) (set ts : List Text)
    → is_member m (add_all set ts) ≡ (is_member m set || is_member m ts)
unfolding add_all
is_member-add_all m set [] = ground arith
is_member-add_all m set (t ∷ ts) =
    ground (arith, is_member-add_all m (add_to set t) ts, is_member-add_to m t set)

any-append :
    {A : Type 0} (p : A → Bool) (xs ys : List A) → any p (xs ++ ys) ≡ (any p xs || any p ys)
any-append p [] ys = refl
any-append p (x ∷ xs) ys = ground (arith, any-append p xs ys)

module _ (w : Ambient) (m : Text) where
  -- Whether a list names a mode, up to case and blanks around it.
  abbrev pub names : List Text → Bool
  names = any λ x. has_text x && text_eq m (w.lower_case (trim x))

  abbrev pub advertises : List Text → (Skill → Option (List Text)) → List Skill → Bool
  advertises defaults modes skills =
      names defaults || any (λ skill. names (or_else (modes skill) [])) skills

  abbrev pub advertises_input : Option TargetCardSnapshot → Bool
  advertises_input none = false
  advertises_input (some card) =
      advertises card.default_input_modes (λ skill. skill.input_modes) card.skills

  abbrev pub advertises_output : Option TargetCardSnapshot → Bool
  advertises_output none = false
  advertises_output (some card) =
      advertises card.default_output_modes (λ skill. skill.output_modes) card.skills

  -- Whether a part has the mode; one whose mode is not known counts as `unknown`.
  abbrev pub sends : List PartInput → Bool
  sends = any λ part. text_eq m (or_else (part_mode w part) unknown_mode)

  is_member-normalized :
      (modes : List Text) → is_member m (map (normalize_mode w) (keep has_text modes)) ≡ names modes
  is_member-normalized [] = refl
  is_member-normalized (x ∷ modes) = ground (arith, is_member-normalized modes)

  is_member-normalize_mode_list :
      (modes : List Text) → is_member m (normalize_mode_list w modes) ≡ names modes
  unfolding normalize_mode_list
  is_member-normalize_mode_list modes =
      is_member-add_all m [] (map (normalize_mode w) (keep has_text modes))
      ∙ is_member-normalized modes

  names-all_modes :
      (modes : Skill → Option (List Text)) (skills : List Skill)
      → names (all_modes modes skills) ≡ any (λ skill. names (or_else (modes skill) [])) skills
  names-all_modes modes [] = refl
  names-all_modes modes (skill ∷ skills) =
      any-append (λ x. has_text x && text_eq m (w.lower_case (trim x))) (or_else (modes skill) [])
        (all_modes modes skills)
      ∙ ap (λ b. names (or_else (modes skill) []) || b) (names-all_modes modes skills)

  is_member-advertised :
      (defaults : List Text) (modes : Skill → Option (List Text)) (skills : List Skill)
      → is_member m (normalize_mode_list w (defaults ++ all_modes modes skills))
        ≡ advertises defaults modes skills
  is_member-advertised defaults modes skills =
      is_member-normalize_mode_list (defaults ++ all_modes modes skills)
      ∙ any-append (λ x. has_text x && text_eq m (w.lower_case (trim x))) defaults
          (all_modes modes skills)
      ∙ ap (λ b. names defaults || b) (names-all_modes modes skills)

  is_member-advertised_input :
      (card : Option TargetCardSnapshot)
      → is_member m (advertised_input_modes_of w card) ≡ advertises_input card
  is_member-advertised_input none = refl
  is_member-advertised_input (some card) =
      is_member-advertised card.default_input_modes (λ skill. skill.input_modes) card.skills

  is_member-advertised_output :
      (card : Option TargetCardSnapshot)
      → is_member m (advertised_output_modes_of w card) ≡ advertises_output card
  is_member-advertised_output none = refl
  is_member-advertised_output (some card) =
      is_member-advertised card.default_output_modes (λ skill. skill.output_modes) card.skills

  is_member-requested_modes :
      (set : List Text) (parts : List PartInput)
      → is_member m (requested_modes w set parts) ≡ (is_member m set || sends parts)
  unfolding requested_modes
  is_member-requested_modes set [] = ground arith
  is_member-requested_modes set (p ∷ ps) =
      let mode = or_else (part_mode w p) unknown_mode in
      ground (arith, is_member-requested_modes (add_to set mode) ps, is_member-add_to m mode set)

-- What is said of a mode by the diagnostics: it is requested, it is advertised, and it is
-- unsupported, which it is if it is requested, known and not advertised.
abbrev pub IsReported : Text → List Text → Bool → List Text → Bool → List Text → Type 0
IsReported m requested requests advertised advertises unsupported =
    (is_member m requested ≡ requests)
    × (is_member m advertised ≡ advertises)
    × (is_member m unsupported ≡ (requests && not (text_eq m unknown_mode) && not advertises))

unsupported_modes-IsReported :
    (m : Text) (requested advertised : List Text) {requests advertises : Bool}
    → is_member m requested ≡ requests
    → is_member m advertised ≡ advertises
    → IsReported m requested requests advertised advertises (unsupported_modes requested advertised)
unsupported_modes-IsReported m requested advertised r a =
    (r, a, ground (arith, r, a, unsupported_from-member m [] requested advertised))

-- A mode is requested as input if a part has it, and as output if it is among the accepted ones; it
-- is advertised if the card names it, by default or for a skill, for input and for output apart.
-- The modes that are reported as unsupported are exactly those that are requested, known and not
-- advertised.
pub evaluate_send_compatibility_lem :
    (w : Ambient) (parts : List PartInput) (accepted : List Text) (card : Option TargetCardSnapshot)
    (m : Text)
    → let d = evaluate_send_compatibility w parts accepted card in
      IsReported m d.requested_input_modes
        (sends w m parts)
        d.advertised_input_modes
        (advertises_input w m card)
        d.unsupported_input_modes
      × IsReported m d.requested_output_modes
          (names w m accepted)
          d.advertised_output_modes
          (advertises_output w m card)
          d.unsupported_output_modes
unfolding evaluate_send_compatibility
evaluate_send_compatibility_lem w parts accepted card m = (
  unsupported_modes-IsReported m (requested_modes w [] parts) (advertised_input_modes_of w card)
      (is_member-requested_modes w m [] parts) (is_member-advertised_input w m card),
  unsupported_modes-IsReported m (normalize_mode_list w accepted)
      (advertised_output_modes_of w card) (is_member-normalize_mode_list w m accepted)
      (is_member-advertised_output w m card),
)
