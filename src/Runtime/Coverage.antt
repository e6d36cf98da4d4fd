-- ===== src/Runtime/Coverage.antt =====
-- runtime/coverage.py: which slots of a session's schedule have run. An instant of a day is its
-- minute.
pub mod Complete
use Prim.Native.Char.{code}
use Prim.Native.String.{◌++◌ as append_text}
use text.Mathlib.Text.{starts_with}
use market_brain.Prelude.{
  ℕ, zero, suc, ◌+◌, ◌*◌, ◌/◌, ◌%◌, String, Bool, true, false, ◌&&◌, Option, none, some, List, [],
  ◌∷◌, ◌++◌, map, if◌then◌else◌, leb, ◌==◌, str_eq,
}
use market_brain.Prelude.Lists.{length, text_or, mem_text}
use market_brain.Prelude.Dict.{Dict, lookup, insert}

-- What the schedule evidence reads of an event; a payload that is no dict has no keys.
pub record Evidence : Type 0 where
  pub event_type : String
  pub aggregate_id : String
  pub checkpoint : Option String
  pub status : Option String

-- DISCOVERY_START, DISCOVERY_END and DISCOVERY_INTERVAL
abbrev pub discovery_start : ℕ
discovery_start = 590

abbrev pub discovery_end : ℕ
discovery_end = 950

abbrev pub discovery_interval : ℕ
discovery_interval = 10

-- the loop of `expected_radar_slots`, for as many rounds as the first argument says
unfoldable pub slots_from : ℕ → ℕ → List ℕ
slots_from zero current = []
slots_from (suc rounds) current =
    let rest = slots_from rounds (current + discovery_interval) in
    if leb current discovery_end then current ∷ rest else []

abbrev pub slot_rounds : ℕ
slot_rounds = 37

unfoldable pub expected_radar_slots : List ℕ
unfolding slots_from
expected_radar_slots = slots_from slot_rounds discovery_start

abbrev pub premarket_checkpoints : List String
premarket_checkpoints = "T-30" ∷ "T-12" ∷ "T-3" ∷ []

pub digit : ℕ → String
digit n =
    if n == 0
    then "0"
    else if n == 1
    then "1"
    else if n == 2
    then "2"
    else if n == 3
    then "3"
    else if n == 4
    then "4"
    else if n == 5
    then "5"
    else if n == 6
    then "6"
    else if n == 7
    then "7"
    else if n == 8
    then "8"
    else "9"

abbrev pub two_digits : ℕ → String
two_digits n = append_text (digit (n / 10)) (digit (n % 10))

-- `slot.strftime('%H%M')`
pub slot_text : ℕ → String
unfolding digit
slot_text slot = append_text (two_digits (slot / 60)) (two_digits (slot % 60))

abbrev pub radar_prefix : String → String
radar_prefix date = append_text "radar:" (append_text date ":")

abbrev pub premarket_prefix : String → String
premarket_prefix date = append_text "premarket:" (append_text date ":")

-- what stands behind the last colon, if there is one
pub after_colon : String → Option String
after_colon String.[] = none
after_colon (String.◌∷◌ c s) = elim (after_colon s) [
  | some t ↦ some t
  | none ↦ if code c == b':' then some s else none
]

-- `aggregate_id.rsplit(":", 1)[-1]`
abbrev pub last_part : String → String
last_part s = elim (after_colon s) [ none ↦ s | some t ↦ t ]

abbrev pub Latest : Type 0
Latest = Dict (Option String)

-- one round of the loop over the events: `radar_latest` and `premarket_latest`
unfoldable pub note_event : String → Evidence → Latest × Latest → Latest × Latest
unfolding after_colon insert
note_event date event (radar, premarket) =
    let checkpoint = text_or event.checkpoint (last_part event.aggregate_id) in
    if str_eq event.event_type "RADAR_RUN" && starts_with event.aggregate_id (radar_prefix date)
    then (insert event.aggregate_id event.status radar, premarket)
    else if str_eq event.event_type "PREMARKET_RUN"
        && (starts_with event.aggregate_id (premarket_prefix date)
            && mem_text checkpoint premarket_checkpoints)
    then (radar, insert checkpoint event.status premarket)
    else (radar, premarket)

unfoldable pub note_events : String → List Evidence → Latest × Latest → Latest × Latest
unfolding note_event
note_events date [] latest = latest
note_events date (event ∷ events) latest = note_events date events (note_event date event latest)

-- The counts of a schedule, with the slots that are not ok.
pub record Tally : Type 0 where
  pub ok : ℕ
  pub unavailable : ℕ
  pub missed : ℕ
  pub never_ran : ℕ
  pub incomplete : List String

abbrev pub no_tally : Tally
no_tally = record { ok = 0; unavailable = 0; missed = 0; never_ran = 0; incomplete = [] }

abbrev pub with_reason : String → String → String
with_reason run_id reason = append_text run_id (append_text ":" reason)

-- a slot of the radar
unfoldable pub tally_radar : String → Option (Option String) → Tally → Tally
tally_radar run_id none t = record t {
  never_ran = t.never_ran + 1;
  incomplete = t.incomplete ++ with_reason run_id "NEVER_RAN" ∷ [];
}
tally_radar run_id (some payload) t =
    let status = text_or payload "UNKNOWN" in
    if str_eq status "COMPLETED"
    then record t { ok = t.ok + 1 }
    else if str_eq status "DATA_UNAVAILABLE"
    then record t {
      unavailable = t.unavailable + 1;
      incomplete = t.incomplete ++ with_reason run_id "DATA_UNAVAILABLE" ∷ [];
    }
    else record t {
      missed = t.missed + 1;
      incomplete = t.incomplete ++ with_reason run_id status ∷ [];
    }

-- a checkpoint; one that never ran counts as missed too
unfoldable pub tally_premarket : String → Option (Option String) → Tally → Tally
tally_premarket run_id none t = record t {
  never_ran = t.never_ran + 1;
  missed = t.missed + 1;
  incomplete = t.incomplete ++ with_reason run_id "NEVER_RAN" ∷ [];
}
tally_premarket run_id (some payload) t =
    let status = text_or payload "UNKNOWN" in
    if str_eq status "COMPLETED" then record t { ok = t.ok + 1 } else record t {
      missed = t.missed + 1;
      incomplete = t.incomplete ++ with_reason run_id status ∷ [];
    }

-- the loop over the slots, which finds a row by the slot's key
unfoldable pub tally_all :
    (String → Option (Option String) → Tally → Tally)
    → (String → String)
    → Latest
    → List String
    → Tally
    → Tally
unfolding lookup
tally_all judge run_id latest [] t = t
tally_all judge run_id latest (slot ∷ slots) t =
    tally_all judge run_id latest slots (judge (run_id slot) (lookup slot latest) t)

pub record Coverage : Type 0 where
  pub radar_expected : ℕ
  pub radar : Tally
  pub premarket_expected : ℕ
  pub premarket : Tally
  pub session_status : String
  pub learning_status : String
  pub incomplete_slots : List String

abbrev pub is_nil : List String → Bool
is_nil [] = true
is_nil (_ ∷ _) = false

unfoldable pub session_status_of : ℕ → List String → String
session_status_of attempts incomplete =
    if attempts == 0 then "NEVER_RAN" else if is_nil incomplete then "COMPLETE" else "INCOMPLETE"

abbrev pub learning_status_of : String → String
learning_status_of status = if str_eq status "COMPLETE" then "READY" else "BLOCKED"

abbrev pub radar_run_ids : String → List String
radar_run_ids date =
    map (λ slot. append_text (radar_prefix date) (slot_text slot)) expected_radar_slots

-- what is counted of the rows that the events leave
unfoldable pub coverage_of : String → Latest → Latest → Coverage
unfolding tally_all tally_radar tally_premarket session_status_of
coverage_of date radar_latest premarket_latest =
    let radar = tally_all tally_radar (λ id. id) radar_latest (radar_run_ids date) no_tally in
    let premarket =
      tally_all tally_premarket (append_text (premarket_prefix date)) premarket_latest
        premarket_checkpoints no_tally in
    let incomplete = radar.incomplete ++ premarket.incomplete in
    let status = session_status_of (length radar_latest + length premarket_latest) incomplete in
    record {
      radar_expected = length (radar_run_ids date);
      radar = radar;
      premarket_expected = length premarket_checkpoints;
      premarket = premarket;
      session_status = status;
      learning_status = learning_status_of status;
      incomplete_slots = incomplete;
    }

unfoldable pub coverage_for_events : List Evidence → String → Coverage
unfolding coverage_of note_events
coverage_for_events events date =
    let (radar, premarket) = note_events date events ([], []) in coverage_of date radar premarket
