-- ===== src/Inbound/Records/Format/Examples.antt =====
-- The theorems on the file of a task record at concrete files.
use openclaw_a2a_plugins.Base.{◌≡◌, refl, none, [], ◌∷◌, arith}
use openclaw_a2a_plugins.Base.Results.{ok}
use openclaw_a2a_plugins.Base.Text.{codes, text_eq}
use openclaw_a2a_plugins.Base.Dict.{get}
use openclaw_a2a_plugins.Inbound.Protocol.{Json, num, nat, str, obj, end, field}
use openclaw_a2a_plugins.Inbound.Records.{JournalRecord}
use openclaw_a2a_plugins.Inbound.Records.Format.{FileRecord, parse_stored_task_record, write_record}
use openclaw_a2a_plugins.Inbound.Records.Format.Roundtrip.{
  IsStorable, parse_stored_task_record-IsStorable, write_record-parse, parse-write-parse,
}

abbrev task : Json
task = obj (field (codes "kind") (str (codes "task")) end)

abbrev started : JournalRecord Json
started = record {
  sequence = 1;
  event = obj (field (codes "kind") (str (codes "status-update")) end);
}

abbrev file_record : FileRecord
file_record = record { task = task; binding = none; current_sequence = 2; journal = started ∷ [] }

file_record-IsStorable : IsStorable file_record
unfolding get text_eq
file_record-IsStorable = record {
  well_formed = record { ordered = (omega arith, tt); covered = omega arith };
  task = refl;
  binding = refl;
  events = (refl, tt);
}

write_record-parse_example : parse_stored_task_record (write_record file_record) ≡ ok file_record
write_record-parse_example = write_record-parse file_record file_record-IsStorable

abbrev version1 : Json
version1 = obj (field (codes "schemaVersion") (num (nat 1)) (field (codes "task") task end))

abbrev upgraded : FileRecord
upgraded = record { task = task; binding = none; current_sequence = 0; journal = [] }

parse_stored_task_record-IsStorable_example : IsStorable upgraded
unfolding parse_stored_task_record get text_eq
parse_stored_task_record-IsStorable_example = parse_stored_task_record-IsStorable version1 refl

parse-write-parse_example :
    parse_stored_task_record (write_record upgraded) ≡ parse_stored_task_record version1
unfolding parse_stored_task_record get text_eq
parse-write-parse_example = parse-write-parse version1 refl
