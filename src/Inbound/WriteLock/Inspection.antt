-- ===== src/Inbound/WriteLock/Inspection.antt =====
-- Whether a lock file was left behind: `readLockPayload`, `inspectLockPayload` and
-- `shouldReclaimLock`. Times are whole milliseconds since 1970; a file's time of change is cut to
-- whole ones, which no comparison here can tell.
use openclaw_a2a_plugins.Base.{
  ℕ, zero, suc, ◌+◌, Bool, true, false, not, ◌&&◌, Option, none, some, List, [], ◌∷◌, ◌++◌, ltb,
  ◌==◌, or_option, if◌then◌else◌, get_elem?,
}
use openclaw_a2a_plugins.Base.Text.{Text, codes, text_eq}
use openclaw_a2a_plugins.Base.Strings.{is_space, trim_start}
use openclaw_a2a_plugins.Base.Dict.{get}
use openclaw_a2a_plugins.Inbound.Protocol.{Json, null, str, obj, Number, nat, fields, JsonRecord}
use openclaw_a2a_plugins.Inbound.Records.Format.{whole_number}

-- What `Date.parse` returns.
pub data ParsedDate : Type 0 where
  no_date : ParsedDate
  before_epoch after_epoch : ℕ → ParsedDate

-- The platform, this process, whether a signal 0 reaches a process, the letter that the search in
-- /proc/<pid>/status finds, the text of /proc/<pid>/stat, and `Number`, `Date.parse` and
-- `toISOString`.
pub record Host : Type 0 where
  pub linux : Bool
  pub own_pid : ℕ
  pub can_signal : ℕ → Bool
  pub state_letter : ℕ → Option Text
  pub stat_text : ℕ → Option Text
  pub to_number : Text → Number
  pub parse_date : Text → ParsedDate
  pub iso_date : ℕ → Text

pub record LockPayload : Type 0 where
  pub pid : Option ℕ
  pub created_at : Option Text
  pub starttime : Option ℕ

abbrev positive : Option ℕ → Option ℕ
positive (some (suc n)) = some (suc n)
positive _ = none

abbrev string_of : Option Json → Option Text
string_of (some (str t)) = some t
string_of _ = none

abbrev payload_of : JsonRecord → LockPayload
payload_of parsed = record {
  pid = positive (whole_number (get (codes "pid") parsed));
  created_at = string_of (get (codes "createdAt") parsed);
  starttime = whole_number (get (codes "starttime") parsed);
}

-- None stands for a file that cannot be read or is no JSON.
unfoldable pub read_lock_payload : Option Json → Option LockPayload
read_lock_payload none = none
read_lock_payload (some null) = none
read_lock_payload (some (obj fs)) = some (payload_of (fields fs))
read_lock_payload (some _) = some (payload_of [])

abbrev is_letter_z : Option Text → Bool
is_letter_z (some t) = text_eq t (codes "Z")
is_letter_z none = false

unfoldable is_zombie_process : Host → ℕ → Bool
is_zombie_process h pid = h.linux && is_letter_z (h.state_letter pid)

unfoldable pub is_pid_alive : Host → ℕ → Bool
unfolding is_zombie_process
is_pid_alive h zero = false
is_pid_alive h (suc n) = h.can_signal (suc n) && not (is_zombie_process h (suc n))

-- `stat.slice(stat.lastIndexOf(")") + 1)`, none if there is no bracket.
after_last_bracket : Text → Option Text
after_last_bracket [] = none
after_last_bracket (c ∷ s) = or_option (after_last_bracket s) (if c == 41 then some s else none)

abbrev starts_blank : Text → Bool
starts_blank [] = false
starts_blank (c ∷ s) = is_space c

abbrev onto_first : ℕ → List Text → List Text
onto_first c [] = (c ∷ []) ∷ []
onto_first c (t ∷ ts) = (c ∷ t) ∷ ts

-- `split(/\s+/)`.
split_blank : Text → List Text
split_blank [] = [] ∷ []
split_blank (c ∷ s) =
    let rest = split_blank s in
    if not (is_space c) then onto_first c rest else if starts_blank s then rest else [] ∷ rest

abbrev whole : Number → Option ℕ
whole (nat n) = some n
whole _ = none

abbrev number_field : Host → Option Text → Option ℕ
number_field h (some field) = whole (h.to_number field)
number_field h none = none

abbrev start_field : Host → Option Text → Option ℕ
start_field h (some after_comm) =
    number_field h (get_elem? (split_blank (trim_start after_comm)) 19)
start_field h none = none

abbrev start_of_stat : Host → Option Text → Option ℕ
start_of_stat h (some stat) = start_field h (after_last_bracket stat)
start_of_stat h none = none

unfoldable pub get_process_start_time : Host → ℕ → Option ℕ
unfolding after_last_bracket split_blank trim_start
get_process_start_time h zero = none
get_process_start_time h (suc n) = if h.linux then start_of_stat h (h.stat_text (suc n)) else none

pub data StaleReason : Type 0 where
  missing_pid dead_pid recycled_pid invalid_created_at too_old : StaleReason

pub record LockInspection : Type 0 where
  pub pid : Option ℕ
  pub stale : Bool
  pub stale_reasons : List StaleReason

abbrev pub owner_pid : Option LockPayload → Option ℕ
owner_pid (some p) = positive p.pid
owner_pid none = none

abbrev pub declared_start : Option LockPayload → Option ℕ
declared_start (some p) = p.starttime
declared_start none = none

abbrev date_or_none : Host → Option Text → ParsedDate
date_or_none h (some t) = h.parse_date t
date_or_none h none = no_date

abbrev pub created_at_ms : Host → Option LockPayload → ParsedDate
created_at_ms h (some p) = date_or_none h p.created_at
created_at_ms h none = no_date

abbrev other_start : Option ℕ → Option ℕ → List StaleReason
other_start (some declared) (some current) = if current == declared then [] else recycled_pid ∷ []
other_start _ _ = []

abbrev pub alive_reasons : Bool → Option ℕ → Option ℕ → List StaleReason
alive_reasons true declared current = other_start declared current
alive_reasons false declared current = dead_pid ∷ []

abbrev pub owner_reasons : Host → Option ℕ → Option ℕ → List StaleReason
owner_reasons h none declared = missing_pid ∷ []
owner_reasons h (some pid) declared =
    alive_reasons (is_pid_alive h pid) declared (get_process_start_time h pid)

-- `nowMs - createdAtMs > staleMs`.
abbrev pub age_reasons : ParsedDate → ℕ → ℕ → List StaleReason
age_reasons no_date stale now = invalid_created_at ∷ []
age_reasons (before_epoch ms) stale now = if ltb stale (now + ms) then too_old ∷ [] else []
age_reasons (after_epoch ms) stale now = if ltb (stale + ms) now then too_old ∷ [] else []

abbrev is_filled_list : List StaleReason → Bool
is_filled_list [] = false
is_filled_list (r ∷ rs) = true

abbrev pub inspection_of : Option ℕ → List StaleReason → LockInspection
inspection_of pid reasons = record {
  pid = pid;
  stale = is_filled_list reasons;
  stale_reasons = reasons;
}

unfoldable pub inspect_lock_payload : Host → Option LockPayload → ℕ → ℕ → LockInspection
inspect_lock_payload h payload stale now = inspection_of (owner_pid payload) (
    owner_reasons h (owner_pid payload) (declared_start payload)
    ++ age_reasons (created_at_ms h payload) stale now)

abbrev pub is_soft : StaleReason → Bool
is_soft missing_pid = true
is_soft invalid_created_at = true
is_soft _ = false

abbrev pub all_soft : List StaleReason → Bool
all_soft [] = true
all_soft (r ∷ rs) = is_soft r && all_soft rs

unfoldable pub needs_mtime_fallback : LockInspection → Bool
needs_mtime_fallback inspection = inspection.stale && all_soft inspection.stale_reasons

-- What `fs.stat` answers: the time of the last change, that there is no file, or another error.
pub data Stat : Type 0 where
  changed_at : ℕ → Stat
  no_entry stat_failed : Stat

abbrev pub by_stat : Stat → ℕ → ℕ → Bool
by_stat (changed_at mtime) stale now = ltb (stale + mtime) now
by_stat no_entry stale now = false
by_stat stat_failed stale now = true

unfoldable pub should_reclaim_lock : Stat → LockInspection → ℕ → ℕ → Bool → Bool
unfolding needs_mtime_fallback
should_reclaim_lock stat inspection stale now orphan_self_lock =
    if orphan_self_lock
    then true
    else if not inspection.stale
    then false
    else if not (needs_mtime_fallback inspection)
    then true
    else by_stat stat stale now
