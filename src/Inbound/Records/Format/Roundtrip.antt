-- ===== src/Inbound/Records/Format/Roundtrip.antt =====
-- What is read from a file of a task record, and that writing it loses nothing.
use openclaw_a2a_plugins.Base.{
  ℕ, ◌≤◌, ◌<◌, ◌≡◌, refl, sym, ◌∙◌, subst, false, Option, none, some, List, [], ◌∷◌, ◌==◌, arith,
  All, Bool-cases, inl, inr,
}
use openclaw_a2a_plugins.Base.Results.{ok, and_then-ok}
use openclaw_a2a_plugins.Base.Text.{codes, text_eq}
use openclaw_a2a_plugins.Base.Dict.{Dict, get}
use openclaw_a2a_plugins.Inbound.Protocol.{Json, null, bool, num, str, arr, obj, items, fields}
use openclaw_a2a_plugins.Inbound.Records.{
  JournalRecord, create_stored_task_record, last_sequence, Increasing, IsWellFormed,
}
use openclaw_a2a_plugins.Inbound.Records.Format.{
  FileRecord, parse_task, parse_binding, parse_event, parse_sequence, parse_entry, parse_journal,
  parse_version, parse_version2, check_trails, trails, parse_stored_task_record, whole_number,
  write_journal, write_record, entries_of, current_of,
}

-- A record that a file can hold.
pub record IsStorable (r : FileRecord) : Type 0 where
  pub well_formed : IsWellFormed r
  pub task : parse_task (some r.task) ≡ ok r.task
  pub binding : parse_binding r.binding ≡ ok r.binding
  pub events : All (λ j. parse_event (some j.event) ≡ ok j.event) r.journal

parse_task-same : (o : Option Json) {r : Json} → parse_task o ≡ ok r → o ≡ some r
parse_task-same none h = cc
parse_task-same (some null) h = cc
parse_task-same (some (bool _)) h = cc
parse_task-same (some (num _)) h = cc
parse_task-same (some (str _)) h = cc
parse_task-same (some (arr _)) h = cc
parse_task-same (some (obj fs)) h = ground arith

parse_event-same : (o : Option Json) {r : Json} → parse_event o ≡ ok r → o ≡ some r
parse_event-same none h = cc
parse_event-same (some null) h = cc
parse_event-same (some (bool _)) h = cc
parse_event-same (some (num _)) h = cc
parse_event-same (some (str _)) h = cc
parse_event-same (some (arr _)) h = cc
parse_event-same (some (obj fs)) h = ground arith

parse_binding-same : (o : Option Json) {r : Option Json} → parse_binding o ≡ ok r → o ≡ r
parse_binding-same none h = cc
parse_binding-same (some null) h = cc
parse_binding-same (some (bool _)) h = cc
parse_binding-same (some (num _)) h = cc
parse_binding-same (some (str _)) h = cc
parse_binding-same (some (arr _)) h = cc
parse_binding-same (some (obj fs)) h = ground arith

parse_sequence-ok :
    (previous : ℕ) (o : Option ℕ) {n : ℕ} → parse_sequence previous o ≡ ok n → previous < n
parse_sequence-ok previous none h = cc
parse_sequence-ok previous (some m) h = ground arith

parse_entry-ok :
    (previous : ℕ) (j : Json) {r : JournalRecord Json}
    → parse_entry previous j ≡ ok r
    → (previous < r.sequence) × (parse_event (some r.event) ≡ ok r.event)
parse_entry-ok previous null h = cc
parse_entry-ok previous (bool _) h = cc
parse_entry-ok previous (num _) h = cc
parse_entry-ok previous (str _) h = cc
parse_entry-ok previous (arr _) h = cc
parse_entry-ok previous (obj fs) {r} h =
    let sequence = whole_number (get (codes "sequence") (fields fs)) in
    let event = get (codes "event") (fields fs) in
    let (n, at_n, h') = and_then-ok (parse_sequence previous sequence) h in
    let (e, at_e, done) = and_then-ok (parse_event event) h' in
    let made : JournalRecord Json = record { sequence = n; event = e } in
    let same : made ≡ r = cc in
    subst
      (λ (x : JournalRecord Json).
        (previous < x.sequence) × (parse_event (some x.event) ≡ ok x.event))
      same
      (
        parse_sequence-ok previous sequence at_n,
        subst (λ o. parse_event o ≡ ok e) (parse_event-same event at_e) at_e,
      )

-- What the loop makes sure of.
abbrev AreEntries : ℕ → List (JournalRecord Json) → Type 0
AreEntries previous rs =
    Increasing previous rs
    × All (λ (j : JournalRecord Json). parse_event (some j.event) ≡ ok j.event) rs

parse_journal-ok :
    (previous : ℕ) (js : List Json) {rs : List (JournalRecord Json)}
    → parse_journal previous js ≡ ok rs
    → AreEntries previous rs
unfolding parse_journal
parse_journal-ok previous [] {rs} h =
    let same : [] ≡ rs = cc in subst (AreEntries previous) same (tt, tt)
parse_journal-ok previous (j ∷ js) {rs} h =
    let (r, at_r, h') = and_then-ok (parse_entry previous j) h in
    let (rest, at_rest, done) = and_then-ok (parse_journal r.sequence js) h' in
    let same : r ∷ rest ≡ rs = cc in
    let (first, fine) = parse_entry-ok previous j at_r in
    let (later, all_fine) = parse_journal-ok r.sequence js at_rest in
    subst (AreEntries previous) same ((first, later), (fine, all_fine))

-- The last entry of the journal is not ahead of the current sequence number.
trails-covered :
    (n : ℕ) (js : List (JournalRecord Json)) → trails n js ≡ false → last_sequence 0 js ≤ n
trails-covered n [] h = omega arith
trails-covered n (j ∷ js) h = ground arith

check_trails-IsStorable :
    (task : Json) (binding : Option Json) (n : ℕ) (js : List (JournalRecord Json)) {r : FileRecord}
    → parse_task (some task) ≡ ok task
    → parse_binding binding ≡ ok binding
    → AreEntries 0 js
    → check_trails task binding n js ≡ ok r
    → IsStorable r
check_trails-IsStorable task binding n js {r} t b (increasing, fine) h =
    elim (Bool-cases (trails n js)) [
      | inl late ↦ absurd (ground (arith, late, h))
      | inr fits ↦
          let made = create_stored_task_record task binding (some n) (some js) in
          let same : made ≡ r = ground (arith, fits, h) in
          subst IsStorable same (record {
            well_formed = record { ordered = increasing; covered = trails-covered n js fits };
            task = t;
            binding = b;
            events = fine;
          })
    ]

parse_version2-IsStorable :
    (task : Json) (binding : Option Json) (fs : Dict Json) {r : FileRecord}
    → parse_task (some task) ≡ ok task
    → parse_binding binding ≡ ok binding
    → parse_version2 task binding fs ≡ ok r
    → IsStorable r
unfolding parse_version2
parse_version2-IsStorable task binding fs t b h =
    let (n, at_n, h') =
      and_then-ok (current_of (whole_number (get (codes "currentSequence") fs))) h in
    let (js, at_js, h'') = and_then-ok (entries_of (get (codes "journal") fs)) h' in
    let (journal, at_journal, done) = and_then-ok (parse_journal 0 js) h'' in
    check_trails-IsStorable task binding n journal t b (parse_journal-ok 0 js at_journal) done

parse_version-IsStorable :
    (v : Option ℕ) (task : Json) (binding : Option Json) (fs : Dict Json) {r : FileRecord}
    → parse_task (some task) ≡ ok task
    → parse_binding binding ≡ ok binding
    → parse_version v task binding fs ≡ ok r
    → IsStorable r
parse_version-IsStorable none task binding fs t b h = cc
parse_version-IsStorable (some v) task binding fs {r} t b h = elim (Bool-cases (v == 1)) [
  | inl one ↦
      let same : create_stored_task_record task binding none none ≡ r = ground (arith, one, h) in
      subst IsStorable same (record {
        well_formed = record { ordered = tt; covered = omega arith };
        task = t;
        binding = b;
        events = tt;
      })
  | inr later ↦ elim (Bool-cases (v == 2)) [
    | inl two ↦ parse_version2-IsStorable task binding fs t b (ground (arith, later, two, h))
    | inr other ↦ absurd (ground (arith, later, other, h))
  ]
]

-- Whatever is accepted as a record has an ordered journal that its current sequence number covers,
-- a task of the kind `task`, a binding that is an object if there is one, and events of the two
-- known kinds, in either version of the format.
pub parse_stored_task_record-IsStorable :
    (j : Json) {r : FileRecord} → parse_stored_task_record j ≡ ok r → IsStorable r
unfolding parse_stored_task_record
parse_stored_task_record-IsStorable null h = cc
parse_stored_task_record-IsStorable (bool _) h = cc
parse_stored_task_record-IsStorable (num _) h = cc
parse_stored_task_record-IsStorable (str _) h = cc
parse_stored_task_record-IsStorable (arr _) h = cc
parse_stored_task_record-IsStorable (obj fs) h =
    let task_field = get (codes "task") (fields fs) in
    let binding_field = get (codes "binding") (fields fs) in
    let (task, at_task, h') = and_then-ok (parse_task task_field) h in
    let (binding, at_binding, done) = and_then-ok (parse_binding binding_field) h' in
    parse_version-IsStorable (whole_number (get (codes "schemaVersion") (fields fs))) task binding
      (fields fs) (subst (λ o. parse_task o ≡ ok task) (parse_task-same task_field at_task) at_task)
      (subst (λ o. parse_binding o ≡ ok binding) (parse_binding-same binding_field at_binding)
        at_binding)
      done

parse_sequence-next : (previous n : ℕ) → previous < n → parse_sequence previous (some n) ≡ ok n
parse_sequence-next previous n h = ground arith

parse_journal-write :
    (previous : ℕ) (js : List (JournalRecord Json))
    → AreEntries previous js
    → parse_journal previous (items (write_journal js)) ≡ ok js
unfolding parse_journal write_journal get text_eq
parse_journal-write previous [] a = refl
parse_journal-write previous (j ∷ js) ((first, later), (fine, all_fine)) =
    rw
      (
        parse_sequence-next previous j.sequence first,
        fine,
        parse_journal-write j.sequence js (later, all_fine),
      )
      refl

covered-trails :
    (n : ℕ) (js : List (JournalRecord Json)) → last_sequence 0 js ≤ n → trails n js ≡ false
covered-trails n [] h = refl
covered-trails n (j ∷ js) h = ground arith

parse-write :
    (task : Json) (binding : Option Json) (n : ℕ) (js : List (JournalRecord Json))
    → let r = create_stored_task_record task binding (some n) (some js) in
      IsStorable r → parse_stored_task_record (write_record r) ≡ ok r
unfolding parse_stored_task_record parse_version2 write_record get text_eq
parse-write task none n js g =
    rw
      (
        g.task,
        parse_journal-write 0 js (g.well_formed.ordered, g.events),
        covered-trails n js g.well_formed.covered,
      )
      refl
parse-write task (some b) n js g =
    rw
      (
        g.task,
        g.binding,
        parse_journal-write 0 js (g.well_formed.ordered, g.events),
        covered-trails n js g.well_formed.covered,
      )
      refl

-- A record that the store may hold is read back from its file as it was written.
pub write_record-parse :
    (r : FileRecord) → IsStorable r → parse_stored_task_record (write_record r) ≡ ok r
write_record-parse r g = parse-write r.task r.binding r.current_sequence r.journal g

-- A file that is accepted, of the old version or the new one, is read as the same record after the
-- record is written back: an upgrade changes nothing, and happens once.
pub parse-write-parse :
    (j : Json) {r : FileRecord}
    → parse_stored_task_record j ≡ ok r
    → parse_stored_task_record (write_record r) ≡ parse_stored_task_record j
parse-write-parse j {r} h = write_record-parse r (parse_stored_task_record-IsStorable j h) ∙ sym h
