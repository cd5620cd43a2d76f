-- ===== src/Inbound/Coordinator/Streaming.antt =====
-- What a client reads that puts the artifact updates of a stage together, for the chunks that
-- packages/openclaw-a2a-inbound/src/task-execution-coordinator.ts publishes.
mod Examples
use openclaw_a2a_plugins.Base.{
  ℕ, ◌+◌, ◌≡◌, refl, ap, ◌∙◌, sym, Bool, true, false, not, ◌&&◌, ◌||◌, Option, none, some, List, [],
  ◌∷◌, ◌++◌, append-nil, append_assoc, arith, if◌then◌else◌, Bool-cases, Option-cases, inl, inr,
  get_elem?, get_elem?-update_at, keep, List-cases,
}
use mathlib.Core.Option
use openclaw_a2a_plugins.Base.Text.{Text, text_eq, text_eq_refl}
use openclaw_a2a_plugins.Base.Strings.{strip_prefix, strip_prefix-append}
use openclaw_a2a_plugins.Inbound.Protocol.{
  Part, text, data_part, file, Task, JournalEvent, status_update, artifact_update,
  TaskArtifactUpdateEvent, is_true,
}
use openclaw_a2a_plugins.Inbound.Merge.{replay}
use openclaw_a2a_plugins.Inbound.Merge.Artifacts.{
  artifact_parts, assemble, grown, replay-artifact_parts,
}
use openclaw_a2a_plugins.Inbound.Replies.{Ambient, BuiltReplyContent}
use openclaw_a2a_plugins.Inbound.Replies.Objects.{create_reply_artifact_update}
use openclaw_a2a_plugins.Inbound.Coordinator.{
  AssistantStage, BusEvent, bus_message, bus_task, bus_status, bus_artifact, Coordinator,
}
use openclaw_a2a_plugins.Inbound.Coordinator.Stream.{if-at}
use openclaw_a2a_plugins.Inbound.Coordinator.Publishing.{
  publish_chunk, publish_text, publish_content, continuation, extract_text, is_text_part, words_of,
  with_words, build_delta_reply_content, assistant_artifact_id,
}

-- The updates on the bus, as the store commits them.
abbrev journal_of : List BusEvent → List JournalEvent
journal_of [] = []
journal_of (bus_message m ∷ es) = journal_of es
journal_of (bus_task t ∷ es) = journal_of es
journal_of (bus_status e ∷ es) = status_update e ∷ journal_of es
journal_of (bus_artifact a ∷ es) = artifact_update a ∷ journal_of es

journal_of-append :
    (es : List BusEvent) (a : TaskArtifactUpdateEvent)
    → journal_of (es ++ bus_artifact a ∷ []) ≡ journal_of es ++ artifact_update a ∷ []
journal_of-append [] a = refl
journal_of-append (bus_message m ∷ es) a = journal_of-append es a
journal_of-append (bus_task t ∷ es) a = journal_of-append es a
journal_of-append (bus_status e ∷ es) a = ap (λ js. status_update e ∷ js) (journal_of-append es a)
journal_of-append (bus_artifact b ∷ es) a =
    ap (λ js. artifact_update b ∷ js) (journal_of-append es a)

assemble-append :
    (id : Text) (before : Option (List Part)) (es : List JournalEvent) (a : TaskArtifactUpdateEvent)
    → assemble id before (es ++ artifact_update a ∷ [])
      ≡ assemble id (assemble id before es) (artifact_update a ∷ [])
assemble-append id before [] a = refl
assemble-append id before (status_update e ∷ es) a = assemble-append id before es a
assemble-append id before (artifact_update b ∷ es) a =
    assemble-append id
      (if text_eq b.artifact.artifact_id id
        then some (grown (is_true b.append) before b.artifact.parts)
        else before)
      es a

-- The parts of an artifact for a client that begins with a task and merges what is on the bus.
abbrev pub shown : Text → Task → List BusEvent → Option (List Part)
shown id t es = artifact_parts id (replay t (journal_of es))

shown-append :
    (id : Text) (t : Task) (es : List BusEvent) (a : TaskArtifactUpdateEvent)
    → a.artifact.artifact_id ≡ id
    → shown id t (es ++ bus_artifact a ∷ [])
      ≡ some (grown (is_true a.append) (shown id t es) a.artifact.parts)
shown-append id t es a same =
    replay-artifact_parts id t (journal_of (es ++ bus_artifact a ∷ []))
    ∙ ap (assemble id (artifact_parts id t)) (journal_of-append es a)
    ∙ assemble-append id (artifact_parts id t) (journal_of es) a
    ∙ rw (← replay-artifact_parts id t (journal_of es), same, text_eq_refl id) refl

abbrev pub shown_text : Text → Task → List BusEvent → Option Text
shown_text id t es = Option.map extract_text (shown id t es)

extract_text-append :
    (ps qs : List Part) → extract_text (ps ++ qs) ≡ extract_text ps ++ extract_text qs
unfolding extract_text
extract_text-append [] qs = refl
extract_text-append (p ∷ ps) qs =
    ap (λ s. words_of p ++ s) (extract_text-append ps qs)
    ∙ sym (append_assoc (words_of p) (extract_text ps) (extract_text qs))

-- A text comes from a text part.
extract_text-keep : (ps : List Part) → keep is_text_part ps ≡ [] → extract_text ps ≡ []
unfolding extract_text
extract_text-keep [] h = refl
extract_text-keep (p ∷ ps) h = ground (arith, extract_text-keep ps)

with_words-text :
    (delta : Text) (ps : List Part) {p : Part} {rest : List Part}
    → ps ≡ p ∷ rest
    → extract_text (with_words delta ps) ≡ delta
unfolding extract_text
with_words-text delta [] h = cc
with_words-text delta (p ∷ ps) h = append-nil delta

-- A client that has read the whole text so far, where there is some.
abbrev IsCurrent : AssistantStage → Option (List Part) → Type 0
IsCurrent stage parts =
    stage.published_artifact ≡ true → Option.map extract_text parts ≡ some stage.published_text

-- An appended chunk brings its text.
grown-text :
    (before : Option (List Part)) (parts : List Part) {words : Text}
    → Option.map extract_text before ≡ some words
    → Option.map extract_text (some (grown true before parts)) ≡ some (words ++ extract_text parts)
grown-text none parts h = cc
grown-text (some ps) parts h = ground (arith, h, extract_text-append ps parts)

-- A full update brings all of it.
full-text : (before : Option (List Part)) (parts : List Part) → grown false before parts ≡ parts
full-text none parts = refl
full-text (some ps) parts = refl

not_empty : (xs : Text) (a : ℕ) (ys : Text) → ¬ (xs ++ a ∷ ys ≡ [])
not_empty [] a ys h = cc
not_empty (x ∷ xs) a ys h = cc

-- The delta goes out in full: a text that has grown comes from a text part.
delta-text :
    (parts : List Part) (before : Text) (a : ℕ) (delta : Text)
    → extract_text parts ≡ before ++ a ∷ delta
    → extract_text (with_words (a ∷ delta) (keep is_text_part parts)) ≡ a ∷ delta
delta-text parts before a delta h = elim (List-cases (keep is_text_part parts)) [
  | inl nothing ↦ absurd (not_empty before a delta (sym h ∙ extract_text-keep parts nothing))
  | inr (p, rest, e) ↦ with_words-text (a ∷ delta) (keep is_text_part parts) e
]

module _ (w : Ambient) where
  continuation-text :
      (stage : AssistantStage) (next key : Text) {delta : Text}
      → continuation w stage next key ≡ some delta
      → (stage.published_artifact ≡ true) × (next ≡ stage.published_text ++ delta)
  continuation-text stage next key {delta} h =
      ground (arith, h, strip_prefix-append stage.published_text next {rest = delta})

  -- A chunk of a stage, for a client of its artifact.
  shown-publish_chunk :
      (i : ℕ) (stage : AssistantStage) (content : BuiltReplyContent) (append : Option Bool)
      (last : Bool) (c : Coordinator) (t : Task)
      → let id = assistant_artifact_id stage.index in
        shown id t (publish_chunk w i stage content append last c).published
        ≡ some (grown (is_true append) (shown id t c.published) content.parts)
  shown-publish_chunk i stage content append last c t =
      shown-append (assistant_artifact_id stage.index) t c.published _ refl

  publish_text-text :
      (i : ℕ) (stage : AssistantStage) (content : BuiltReplyContent) (last : Bool) (key : Text)
      (found : Option Text) (c : Coordinator) (t : Task)
      → let id = assistant_artifact_id stage.index in
        let next = extract_text content.parts in
        continuation w stage next key ≡ found
        → IsCurrent stage (shown id t c.published)
        → shown_text id t (publish_text w i stage content last found c).published ≡ some next
  unfolding extract_text
  publish_text-text i stage content last key none c t h current =
      let id = assistant_artifact_id stage.index in
      ap (Option.map extract_text) (shown-publish_chunk i stage content none last c t)
      ∙ ap (λ ps. some (extract_text ps)) (full-text (shown id t c.published) content.parts)
  publish_text-text i stage content last key (some (a ∷ delta)) c t h current =
      let next = extract_text content.parts in
      let before = shown (assistant_artifact_id stage.index) t c.published in
      let (going_on, split) = continuation-text stage next key h in
      let chunk = build_delta_reply_content content (a ∷ delta) in
      ap (Option.map extract_text) (shown-publish_chunk i stage chunk (some true) last c t)
      ∙ grown-text before chunk.parts (current going_on)
      ∙ ap (λ s. some (stage.published_text ++ s))
          (delta-text content.parts stage.published_text a delta split)
      ∙ ap some (sym split)
  publish_text-text i stage content last key (some []) c t h current =
      let id = assistant_artifact_id stage.index in
      let next = extract_text content.parts in
      let (going_on, split) = continuation-text stage next key h in
      let whole : stage.published_text ≡ next = sym (append-nil stage.published_text) ∙ sym split in
      if-at (λ d. shown_text id t d.published ≡ some next) (last && not stage.closed_published) _ _
        (λ closing.
          ap (Option.map extract_text)
            (shown-publish_chunk i stage (record content { parts = [] }) (some true) true c t)
          ∙ grown-text (shown id t c.published) [] (current going_on)
          ∙ ap some (sym split))
        (λ nothing. current going_on ∙ ap some whole)

  publish_text-stage :
      (i : ℕ) (stage : AssistantStage) (content : BuiltReplyContent) (last : Bool)
      (found : Option Text) (c : Coordinator) {s : AssistantStage}
      → get_elem? c.assistant_stages i ≡ some s
      → (s' : AssistantStage) × (get_elem?
            (publish_text w i stage content last found c).assistant_stages
            i
          ≡ some s')
  publish_text-stage i stage content last none c h =
      (_, get_elem?-update_at i _ c.assistant_stages h)
  publish_text-stage i stage content last (some (a ∷ delta)) c h =
      (_, get_elem?-update_at i _ c.assistant_stages h)
  publish_text-stage i stage content last (some []) c {s} h =
      if-at (λ d. (s' : AssistantStage) × (get_elem? d.assistant_stages i ≡ some s'))
        (last && not stage.closed_published) _ _
        (λ closing. (_, get_elem?-update_at i _ c.assistant_stages h)) (λ nothing. (s, h))

  -- Content that is published for a stage leaves a client that was up to date with the text of the
  -- content, whether it went out as a new artifact, as a replacement or as the delta to what was
  -- published before; and the stage remembers that text, so the client is up to date again.
  pub publish_content-shown_text :
      (i : ℕ) (stage : AssistantStage) (content : BuiltReplyContent) (last : Bool) (c : Coordinator)
      (t : Task)
      → let id = assistant_artifact_id stage.index in
        let after = publish_content w i stage content last c in
        get_elem? c.assistant_stages i ≡ some stage
        → IsCurrent stage (shown id t c.published)
        → (shown_text id t after.published ≡ some (extract_text content.parts))
          × ((stage' : AssistantStage) × (get_elem? after.assistant_stages i ≡ some stage')
              × (stage'.published_artifact ≡ true)
              × (shown_text id t after.published ≡ some stage'.published_text))
  unfolding publish_content
  publish_content-shown_text i stage content last c t h current =
      let next = extract_text content.parts in
      let key = w.stringify (keep (λ p. not (is_text_part p)) content.parts) in
      let found = continuation w stage next key in
      let read = publish_text-text i stage content last key found c t refl current in
      let (s', there) = publish_text-stage i stage content last found c h in
      (
        read,
        (
          record s' {
            published_artifact = true;
            published_text = next;
            published_non_text_key = some key;
          },
          get_elem?-update_at i _ (publish_text w i stage content last found c).assistant_stages
              there,
          refl,
          read,
        ),
      )
