-- ===== src/Inbound/Records/Format.antt =====
-- The file of a task record, `parseStoredTaskRecord` of
-- packages/openclaw-a2a-inbound/src/task-store.ts, on the value that `JSON.parse` returns, and
-- what `saveRecord` writes, as the value that it hands to `JSON.stringify`.
pub mod Roundtrip
mod Examples
use openclaw_a2a_plugins.Base.{
  ℕ, ◌<◌, Bool, true, false, ◌&&◌, ◌||◌, Option, none, some, List, [], ◌∷◌, ltb, leb, ◌==◌,
  if◌then◌else◌,
}
use openclaw_a2a_plugins.Base.Results.{Result, ok, err, and_then}
use openclaw_a2a_plugins.Base.Text.{Text, codes, text_eq}
use openclaw_a2a_plugins.Base.Dict.{Dict, get}
use openclaw_a2a_plugins.Inbound.Protocol.{
  Json, num, nat, str, arr, obj, Items, nil, item, Fields, end, field, items, fields,
}
use openclaw_a2a_plugins.Inbound.Records.{
  JournalRecord, StoredTaskRecord, create_stored_task_record, last_sequence,
}

-- Records with JSON values where the source casts without a look inside.
abbrev pub FileRecord : Type 0
FileRecord = StoredTaskRecord Json Json Json

pub data RecordError : Type 0 where
  missing_payload missing_task invalid_binding missing_schema_version invalid_current_sequence
        invalid_journal invalid_entry invalid_sequence out_of_order invalid_event invalid_event_kind
        trailing :
      RecordError

-- `typeof value === "number" && Number.isInteger(value) && value >= 0`.
abbrev pub whole_number : Option Json → Option ℕ
whole_number (some (num (nat n))) = some n
whole_number _ = none

-- `value === text`.
abbrev pub is_text : Text → Option Json → Bool
is_text t (some (str s)) = text_eq s t
is_text t _ = false

abbrev is_event_kind : Option Json → Bool
is_event_kind kind = is_text (codes "status-update") kind || is_text (codes "artifact-update") kind

abbrev pub parse_task : Option Json → Result RecordError Json
parse_task (some (obj fs)) =
    if is_text (codes "task") (get (codes "kind") (fields fs))
    then ok (obj fs)
    else err missing_task
parse_task _ = err missing_task

abbrev pub parse_binding : Option Json → Result RecordError (Option Json)
parse_binding none = ok none
parse_binding (some (obj fs)) = ok (some (obj fs))
parse_binding _ = err invalid_binding

abbrev pub parse_event : Option Json → Result RecordError Json
parse_event (some (obj fs)) =
    if is_event_kind (get (codes "kind") (fields fs)) then ok (obj fs) else err invalid_event_kind
parse_event _ = err invalid_event

abbrev pub parse_sequence : ℕ → Option ℕ → Result RecordError ℕ
parse_sequence previous none = err invalid_sequence
parse_sequence previous (some n) =
    if n == 0 then err invalid_sequence else if leb n previous then err out_of_order else ok n

-- One turn of the loop over the journal.
abbrev pub parse_entry : ℕ → Json → Result RecordError (JournalRecord Json)
parse_entry previous (obj fs) =
    and_then (parse_sequence previous (whole_number (get (codes "sequence") (fields fs)))) λ n.
      and_then (parse_event (get (codes "event") (fields fs)))
        λ e. ok (record { sequence = n; event = e })
parse_entry previous _ = err invalid_entry

pub parse_journal : ℕ → List Json → Result RecordError (List (JournalRecord Json))
parse_journal previous [] = ok []
parse_journal previous (j ∷ js) =
    and_then (parse_entry previous j)
      λ r. and_then (parse_journal r.sequence js) λ rest. ok (r ∷ rest)

abbrev pub entries_of : Option Json → Result RecordError (List Json)
entries_of (some (arr js)) = ok (items js)
entries_of _ = err invalid_journal

abbrev pub current_of : Option ℕ → Result RecordError ℕ
current_of none = err invalid_current_sequence
current_of (some n) = ok n

-- The current sequence number is behind the last entry.
abbrev pub trails : ℕ → List (JournalRecord Json) → Bool
trails n [] = false
trails n (j ∷ js) = ltb n (last_sequence j.sequence js)

abbrev pub check_trails :
    Json → Option Json → ℕ → List (JournalRecord Json) → Result RecordError FileRecord
check_trails task binding n js =
    if trails n js
    then err trailing
    else ok (create_stored_task_record task binding (some n) (some js))

pub parse_version2 : Json → Option Json → Dict Json → Result RecordError FileRecord
unfolding parse_journal
parse_version2 task binding fs =
    and_then (current_of (whole_number (get (codes "currentSequence") fs))) λ n.
      and_then (entries_of (get (codes "journal") fs))
        λ js. and_then (parse_journal 0 js) λ journal. check_trails task binding n journal

abbrev pub parse_version : Option ℕ → Json → Option Json → Dict Json → Result RecordError FileRecord
parse_version none task binding fs = err missing_schema_version
parse_version (some v) task binding fs =
    if v == 1
    then ok (create_stored_task_record task binding none none)
    else if v == 2
    then parse_version2 task binding fs
    else err missing_schema_version

pub parse_stored_task_record : Json → Result RecordError FileRecord
unfolding parse_version2
parse_stored_task_record (obj fs) = and_then (parse_task (get (codes "task") (fields fs))) λ task.
    and_then (parse_binding (get (codes "binding") (fields fs))) λ binding.
      parse_version (whole_number (get (codes "schemaVersion") (fields fs))) task binding
        (fields fs)
parse_stored_task_record _ = err missing_payload

abbrev write_entry : JournalRecord Json → Json
write_entry j =
    obj (field (codes "sequence") (num (nat j.sequence)) (field (codes "event") j.event end))

pub write_journal : List (JournalRecord Json) → Items
write_journal [] = nil
write_journal (j ∷ js) = item (write_entry j) (write_journal js)

abbrev with_binding : Option Json → Fields → Fields
with_binding none fs = fs
with_binding (some b) fs = field (codes "binding") b fs

-- The record that `cloneTaskRecord` makes for `JSON.stringify`.
pub write_record : FileRecord → Json
unfolding write_journal
write_record r = obj (
    field (codes "schemaVersion") (num (nat 2)) (
      field (codes "task") r.task (
        with_binding r.binding (
          field (codes "currentSequence") (num (nat r.current_sequence))
            (field (codes "journal") (arr (write_journal r.journal)) end)))))
