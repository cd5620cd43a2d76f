-- ===== src/Inbound/Subscription/Fifo.antt =====
-- Readers and events meet in the order in which they come.
mod Examples
use openclaw_a2a_plugins.Base.{
  ℕ, ◌≡◌, refl, sym, ◌∙◌, ap, Bool, true, false, Option, none, some, List, [], ◌∷◌, ◌++◌, arith,
  append-nil, append_assoc, ◌⊎◌, inl, inr, List-cases,
}
use openclaw_a2a_plugins.Inbound.Subscription.{Subscription, opened, push, next, close}

-- What is left of the first list after one entry for each of the second.
abbrev beyond {ℓ κ} : {A : Type ℓ} {B : Type κ} → List A → List B → List A
beyond [] ys = []
beyond (a ∷ xs) [] = a ∷ xs
beyond (a ∷ xs) (b ∷ ys) = beyond xs ys

beyond-nil {ℓ κ} : {A : Type ℓ} (B : Type κ) (xs : List A) → beyond {B = B} xs [] ≡ xs
beyond-nil B [] = refl
beyond-nil B (x ∷ xs) = refl

-- One of two lists is used up.
beyond-cases {ℓ κ} :
    {A : Type ℓ} {B : Type κ} (xs : List A) (ys : List B)
    → (beyond xs ys ≡ []) ⊎ (beyond ys xs ≡ [])
beyond-cases [] ys = inl refl
beyond-cases (a ∷ xs) [] = inr refl
beyond-cases (a ∷ xs) (b ∷ ys) = beyond-cases xs ys

-- One more entry for the list that may be longer, and one more for the other.
beyond-append {ℓ κ} :
    {A : Type ℓ} {B : Type κ} (xs : List A) (ys : List B) (a : A)
    → beyond ys xs ≡ []
    → beyond (xs ++ a ∷ []) ys ≡ beyond xs ys ++ a ∷ []
beyond-append [] [] a h = refl
beyond-append [] (b ∷ ys) a h = cc
beyond-append (x ∷ xs) [] a h = refl
beyond-append (x ∷ xs) (b ∷ ys) a h = beyond-append xs ys a h

beyond_behind {ℓ κ} :
    {A : Type ℓ} {B : Type κ} (xs : List A) (ys : List B) (a : A) {b : B} {rest : List B}
    → beyond ys xs ≡ b ∷ rest
    → (beyond (xs ++ a ∷ []) ys ≡ []) × (beyond ys (xs ++ a ∷ []) ≡ rest)
beyond_behind [] [] a h = cc
beyond_behind {A} [] (c ∷ ys) a h = ground (arith, beyond-nil A ys)
beyond_behind (x ∷ xs) [] a h = cc
beyond_behind (x ∷ xs) (c ∷ ys) a h = beyond_behind xs ys a h

beyond_ahead {ℓ κ} :
    {A : Type ℓ} {B : Type κ} (xs : List A) (ys : List B) (a : A)
    → beyond ys xs ≡ []
    → beyond ys (xs ++ a ∷ []) ≡ []
beyond_ahead [] [] a h = refl
beyond_ahead [] (b ∷ ys) a h = cc
beyond_ahead (x ∷ xs) [] a h = refl
beyond_ahead (x ∷ xs) (b ∷ ys) a h = beyond_ahead xs ys a h

-- A reader and a writer, in any order.
pub data Act (E : Type 0) : Type 0 where
  pushes : E → Act E
  reads : ℕ → Act E

module _ {E : Type 0} where
  -- The k-th reader with the k-th event.
  abbrev paired : List ℕ → List E → List (ℕ × Option E)
  paired [] es = []
  paired (w ∷ ws) [] = []
  paired (w ∷ ws) (e ∷ es) = (w, some e) ∷ paired ws es

  paired-nil : (ws : List ℕ) → paired ws [] ≡ []
  paired-nil [] = refl
  paired-nil (w ∷ ws) = refl

  paired-push :
      (ws : List ℕ) (es : List E) (e : E)
      → (beyond ws es ≡ [])
      → paired ws (es ++ e ∷ []) ≡ paired ws es
  paired-push [] es e h = refl
  paired-push (w ∷ ws) [] e h = cc
  paired-push (w ∷ ws) (f ∷ es) e h = ground (arith, paired-push ws es e h)

  paired-push_waiting :
      (ws : List ℕ) (es : List E) (e : E) {w : ℕ} {rest : List ℕ}
      → beyond ws es ≡ w ∷ rest
      → paired ws (es ++ e ∷ []) ≡ paired ws es ++ (w, some e) ∷ []
  paired-push_waiting [] es e h = cc
  paired-push_waiting (v ∷ ws) [] e h = ground (arith, paired-nil ws)
  paired-push_waiting (v ∷ ws) (f ∷ es) e h =
      ap (λ r. (v, some f) ∷ r) (paired-push_waiting ws es e h)

  paired-next :
      (ws : List ℕ) (es : List E) (w : ℕ)
      → beyond es ws ≡ []
      → paired (ws ++ w ∷ []) es ≡ paired ws es
  paired-next [] [] w h = refl
  paired-next [] (e ∷ es) w h = cc
  paired-next (v ∷ ws) [] w h = refl
  paired-next (v ∷ ws) (e ∷ es) w h = ap (λ r. (v, some e) ∷ r) (paired-next ws es w h)

  paired-next_ready :
      (ws : List ℕ) (es : List E) (w : ℕ) {e : E} {rest : List E}
      → beyond es ws ≡ e ∷ rest
      → paired (ws ++ w ∷ []) es ≡ paired ws es ++ (w, some e) ∷ []
  paired-next_ready [] [] w h = cc
  paired-next_ready [] (f ∷ es) w h = ground arith
  paired-next_ready (v ∷ ws) [] w h = cc
  paired-next_ready (v ∷ ws) (f ∷ es) w h = ap (λ r. (v, some f) ∷ r) (paired-next_ready ws es w h)

  -- An open subscription after the reads `ws` and the events `es`.
  pub record Matches (ws : List ℕ) (es : List E) (s : Subscription E) : Type 0 where
    pub is_open : s.closed ≡ false
    pub handed : s.resolved ≡ paired ws es
    pub queued : s.events ≡ beyond es ws
    pub waiting : s.waiters ≡ beyond ws es

  opened-Matches : Matches [] [] opened
  opened-Matches = record { is_open = refl; handed = refl; queued = refl; waiting = refl }

  push-Matches_ready :
      (ws : List ℕ) (es : List E) (s : Subscription E) (e : E)
      → Matches ws es s
      → beyond ws es ≡ []
      → Matches ws (es ++ e ∷ []) (push e s)
  unfolding push
  push-Matches_ready ws es s e m b = record {
    is_open = ground (arith, m.is_open, m.waiting, b);
    handed = ground (arith, m.is_open, m.waiting, m.handed, b, paired-push ws es e b);
    queued = ground (arith, m.is_open, m.waiting, m.queued, b, beyond-append es ws e b);
    waiting = ground (arith, m.is_open, m.waiting, b, beyond_ahead es ws e b);
  }

  push-Matches_waiting :
      (ws : List ℕ) (es : List E) (s : Subscription E) (e : E) (w : ℕ) (rest : List ℕ)
      → Matches ws es s
      → beyond es ws ≡ []
      → beyond ws es ≡ w ∷ rest
      → Matches ws (es ++ e ∷ []) (push e s)
  unfolding push
  push-Matches_waiting ws es s e w rest m none_left b = record {
    is_open = ground (arith, m.is_open, m.waiting, b);
    handed = ground (arith, m.is_open, m.waiting, m.handed, b, paired-push_waiting ws es e b);
    queued = ground (arith, m.is_open, m.waiting, m.queued, none_left, b, beyond_behind es ws e b);
    waiting = ground (arith, m.is_open, m.waiting, b, beyond_behind es ws e b);
  }

  push-Matches :
      (ws : List ℕ) (es : List E) (s : Subscription E) (e : E)
      → Matches ws es s
      → Matches ws (es ++ e ∷ []) (push e s)
  push-Matches ws es s e m = elim (List-cases (beyond ws es)) [
    | inl b ↦ push-Matches_ready ws es s e m b
    | inr (w, rest, b) ↦ elim (beyond-cases es ws) [
      | inl none_left ↦ push-Matches_waiting ws es s e w rest m none_left b
      | inr c ↦ absurd (ground (arith, b, c))
    ]
  ]

  next-Matches_ready :
      (ws : List ℕ) (es : List E) (s : Subscription E) (w : ℕ) (e : E) (rest : List E)
      → Matches ws es s
      → beyond ws es ≡ []
      → beyond es ws ≡ e ∷ rest
      → Matches (ws ++ w ∷ []) es (next w s)
  unfolding next
  next-Matches_ready ws es s w e rest m none_left b = record {
    is_open = ground (arith, m.is_open, m.queued, b);
    handed = ground (arith, m.is_open, m.queued, m.handed, b, paired-next_ready ws es w b);
    queued = ground (arith, m.is_open, m.queued, b, beyond_behind ws es w b);
    waiting = ground (arith, m.is_open, m.queued, m.waiting, none_left, b, beyond_behind ws es w b);
  }

  next-Matches_waiting :
      (ws : List ℕ) (es : List E) (s : Subscription E) (w : ℕ)
      → Matches ws es s
      → beyond es ws ≡ []
      → Matches (ws ++ w ∷ []) es (next w s)
  unfolding next
  next-Matches_waiting ws es s w m b = record {
    is_open = ground (arith, m.is_open, m.queued, b);
    handed = ground (arith, m.is_open, m.queued, m.handed, b, paired-next ws es w b);
    queued = ground (arith, m.is_open, m.queued, b, beyond_ahead ws es w b);
    waiting = ground (arith, m.is_open, m.queued, m.waiting, b, beyond-append ws es w b);
  }

  next-Matches :
      (ws : List ℕ) (es : List E) (s : Subscription E) (w : ℕ)
      → Matches ws es s
      → Matches (ws ++ w ∷ []) es (next w s)
  next-Matches ws es s w m = elim (List-cases (beyond es ws)) [
    | inl b ↦ next-Matches_waiting ws es s w m b
    | inr (e, rest, b) ↦ elim (beyond-cases ws es) [
      | inl none_left ↦ next-Matches_ready ws es s w e rest m none_left b
      | inr c ↦ absurd (ground (arith, b, c))
    ]
  ]

  unfoldable pub act : Subscription E → Act E → Subscription E
  act s (pushes e) = push e s
  act s (reads w) = next w s

  unfoldable pub run : Subscription E → List (Act E) → Subscription E
  run s [] = s
  run s (a ∷ acts) = run (act s a) acts

  abbrev pub readers : List (Act E) → List ℕ
  readers [] = []
  readers (pushes e ∷ acts) = readers acts
  readers (reads w ∷ acts) = w ∷ readers acts

  abbrev pub pushed : List (Act E) → List E
  pushed [] = []
  pushed (pushes e ∷ acts) = e ∷ pushed acts
  pushed (reads w ∷ acts) = pushed acts

  run-Matches_from :
      (ws : List ℕ) (es : List E) (s : Subscription E) (acts : List (Act E))
      → Matches ws es s
      → Matches (ws ++ readers acts) (es ++ pushed acts) (run s acts)
  unfolding run act
  run-Matches_from ws es s [] m = rw (append-nil ws, append-nil es) m
  run-Matches_from ws es s (pushes e ∷ acts) m =
      rw (← append_assoc es (e ∷ []) (pushed acts))
        (run-Matches_from ws (es ++ e ∷ []) (push e s) acts (push-Matches ws es s e m))
  run-Matches_from ws es s (reads w ∷ acts) m =
      rw (← append_assoc ws (w ∷ []) (readers acts))
        (run-Matches_from (ws ++ w ∷ []) es (next w s) acts (next-Matches ws es s w m))

  -- However reads and events of an open subscription interleave, the k-th read gets the k-th event
  -- and in that order; what is left over is queued, and so are the readers that are left over.
  pub run-Matches : (acts : List (Act E)) → Matches (readers acts) (pushed acts) (run opened acts)
  run-Matches acts = run-Matches_from [] [] opened acts opened-Matches

  abbrev pub turned_away : List ℕ → List (ℕ × Option E)
  turned_away [] = []
  turned_away (w ∷ ws) = (w, none) ∷ turned_away ws

  -- Closing loses the events that nobody read, turns the waiting readers away with `undefined`, and
  -- from then on events are dropped and every read is turned away at once.
  pub close_ends :
      (ws : List ℕ) (es : List E) (s : Subscription E) (e : E) (w : ℕ)
      → Matches ws es s
      → ((close s).resolved ≡ paired ws es ++ turned_away (beyond ws es))
        × (push e (close s) ≡ close s)
        × (next w (close s) ≡ record (close s) { resolved = (close s).resolved ++ (w, none) ∷ [] })
        × (close (close s) ≡ close s)
  unfolding close push next
  close_ends ws es s e w m = ground (arith, m.is_open, m.handed, m.waiting)
