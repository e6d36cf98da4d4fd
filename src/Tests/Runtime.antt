-- ===== src/Tests/Runtime.antt =====
-- The theorems on the alerts and on src/market_brain/runtime at concrete inputs.
use market_brain.Prelude.{
  ◌≡◌, ◌≢◌, ◌⊎◌, ◌↔◌, ◌≤◌, ◌<◌, ◌+◌, ◌*◌, refl, Bool, true, false, not, ◌&&◌, String, none, some,
  Option, List, [], ◌∷◌, map, is_some, arith, eq_iff,
}
use market_brain.Prelude.Lists.{count, select}
use market_brain.Prelude.Dict.{lookup, insert, values}
use market_brain.Prelude.Result.{ok, err}
use market_brain.Prelude.Sorting.{Ordered, sort_by}
use market_brain.Number.{Cents, cents_double}
use market_brain.Domain.{Instant, AlertRecord, sell_now, minute}
use market_brain.Ledger.Events.{EventType, position_evaluated}
use market_brain.Ledger.Store.{Store, empty_store}
use market_brain.Alerts.{
  refused, raised, send_all, Dispatcher, due_alerts, is_due, list_undelivered, priority, deliver,
  active_sinks,
}
use market_brain.Alerts.Order.{StandsBefore, due_alerts-Ordered}
use market_brain.Alerts.Attempts.{IsAttempted, deliver-IsAttempted}
use market_brain.Alerts.Retry.{retry, is_settled, retry_settles}
use market_brain.Runtime.Lease.{
  LeaseFile, lease_held_by_other, renew_lease, lease_minutes, StateDir, HandoffFile, handoff_keys,
  write_handoff, verify_handoff,
}
use market_brain.Runtime.Lease.Exclusive.{IsFree, IsDead, lease_held_by_other_iff, renew_lease-held}
use market_brain.Runtime.Lease.Handoff.{verify_handoff-write_handoff}
use market_brain.Runtime.Coverage.{Evidence, coverage_for_events}
use market_brain.Runtime.Coverage.Complete.{IsReady, coverage_for_events-Counts}
use market_brain.Runtime.Monitor.{MonitorConfig, Memory, report_action}
use market_brain.Runtime.Monitor.Quiet.{report_action_once}
use market_brain.Runtime.Stream.{RuntimeStatus, Session, Days, is_within, is_stale_at, check}
use market_brain.Runtime.Stream.Flagged.{IsTold, check-IsTold}
use market_brain.Service.Answers.{log_note, queue_alert}
use market_brain.Tests.Data.{usd, config}

abbrev alert : AlertRecord
alert = record {
  kind = "SELL_NOW";
  alert_id = "a1";
  subject = "q1";
  created_at = 5;
  delivered_at = none;
  attempts = 0;
  last_error = none;
  next_attempt_at = none;
}

abbrev store : Store Cents
store = record empty_store { alerts = ("a1", alert) ∷ [] }

-- a sink that is down
abbrev broken : Dispatcher
broken = record {
  sinks = record { name = "webhook"; configured = true } ∷ [];
  max_attempts = 2;
  send = λ at a sink. refused "ConnectError";
}

-- four alerts in the order of the table: the dispatch turns it around
abbrev queue : Store Cents
queue = record empty_store {
  alerts =
      ("b1", record alert { alert_id = "b1"; kind = "BUY_NOW"; created_at = 1 })
      ∷ ("a3", record alert { alert_id = "a3"; created_at = 7 })
      ∷ ("a2", record alert { alert_id = "a2"; delivered_at = some 6 })
      ∷ ("a1", alert)
      ∷ [];
}

due_alerts-Ordered_example :
    Ordered StandsBefore (due_alerts broken 9 queue)
    × ((p : AlertRecord → Bool)
        → count p (due_alerts broken 9 queue)
          ≡ count
              (λ (a : AlertRecord). not (is_some a.delivered_at) && (is_due broken 9 a && p a))
              (values queue.alerts))
due_alerts-Ordered_example = due_alerts-Ordered broken 9 queue

-- what the dispatch takes of them
queue_taken :
    map (λ (a : AlertRecord). a.alert_id) (due_alerts broken 9 queue) ≡ "a1" ∷ "a3" ∷ "b1" ∷ []
unfolding due_alerts list_undelivered values select sort_by priority
queue_taken = refl

abbrev failed : AlertRecord
failed = record alert {
  attempts = 1;
  last_error = some "ConnectError";
  next_attempt_at = some 1_000_009;
}

abbrev failed_store : Store Cents
failed_store = record empty_store { alerts = ("a1", failed) ∷ [] }

deliver-IsAttempted_example : IsAttempted broken 9 9 alert store (false, failed_store)
unfolding deliver lookup insert select
deliver-IsAttempted_example =
    deliver-IsAttempted broken 9 9 alert store {result = (false, failed_store)} refl
      (refl, refl, omega arith) refl

not_raised :
    (at : Instant) (a : AlertRecord) (text : String)
    → send_all broken at a (active_sinks broken) ≡ raised text
    → ⊥
unfolding send_all select
not_raised at a text h = cc

retry_settles_example :
    (t : Store Cents) × (last : AlertRecord) × (retry broken "a1" (9 ∷ 10 ∷ []) store ≡ ok t)
    × (lookup "a1" t.alerts ≡ some last)
    × (is_settled broken last ≡ true)
    × (last.attempts ≤ broken.max_attempts)
unfolding select lookup
retry_settles_example =
    retry_settles broken "a1" refl not_raised (9 ∷ 10 ∷ []) store alert refl refl (omega arith)
      (omega arith)

abbrev lease : LeaseFile
lease = record {
  session_id = "s";
  workflow_run_id = "run 1";
  acquired_at = some 0;
  expires_at = some 100;
}

lease_held_by_other_iff_example :
    (lease_held_by_other (some lease) 7 "s" "run 2" none ≡ false) ↔ IsFree lease 7 "s" "run 2" none
lease_held_by_other_iff_example = lease_held_by_other_iff lease 7 "s" "run 2" none

renew_lease-held_example :
    (lease_held_by_other (some (renew_lease none 7 "s" "run 1")) 9 "s" "run 2" none ≡ false
      → (7 + lease_minutes ≡ 9) ⊎ ((◌≡◌ {A = String} "run 1" "run 2") ⊎ IsDead none "run 1"))
    × (lease_held_by_other (some (renew_lease none 7 "s" "run 1")) 9 "s" "run 1" none ≡ false)
    × ((renew_lease (some (renew_lease none 7 "s" "run 1")) 9 "s" "run 1").acquired_at
        ≡ (renew_lease none 7 "s" "run 1").acquired_at)
renew_lease-held_example =
    renew_lease-held none 7 9 "s" "run 1" "run 2" none
      (λ h. let e : false ≡ true = (eq_iff "run 1" "").1 h in cc) (omega arith)

abbrev dir : StateDir
dir = record { lease = none; handoff = none; dump = some "bytes" }

abbrev handoff : HandoffFile
handoff = record {
  from_phase = "a";
  to_phase = "b";
  session_id = "s";
  workflow_run_id = "run 1";
  last_completed_tick = some "0950";
  state_dump_sha256 = "bytes";
  keys = handoff_keys;
}

abbrev handed : StateDir
handed = record dir { handoff = some handoff }

verify_handoff-write_handoff_example :
    (verify_handoff (λ dump. dump) "s" handed ≡ ok (some handoff))
    × ((dump : String)
        → dump ≢ "bytes"
        → verify_handoff (λ dump. dump) "s" (record handed { dump = some dump })
          ≡ err "HANDOFF_MISMATCH")
    × (verify_handoff (λ dump. dump) "s" (record handed { dump = none }) ≡ err "HANDOFF_MISMATCH")
    × ((other : String) → "s" ≢ other → verify_handoff (λ dump. dump) other handed ≡ ok none)
unfolding write_handoff
verify_handoff-write_handoff_example =
    verify_handoff-write_handoff (λ dump. dump) "s" "run 1" (some "0950") dir {payload = handoff}
      {written = handed} refl

abbrev evidence : List Evidence
evidence =
    record {
      event_type = "RADAR_RUN";
      aggregate_id = "radar:2026-03-02:0950";
      checkpoint = none;
      status = some "COMPLETED";
    }
    ∷ []

coverage_for_events-Counts_example :
    let c = coverage_for_events evidence "2026-03-02" in
    (c.radar.ok + c.radar.unavailable + c.radar.missed + c.radar.never_ran ≡ 37)
    × (c.premarket.ok + c.premarket.missed ≡ 3)
    × ((c.learning_status ≡ "READY") ↔ IsReady c)
coverage_for_events-Counts_example = coverage_for_events-Counts evidence "2026-03-02"

abbrev monitor_config : MonitorConfig Cents
monitor_config = record {
  config = config;
  min_interval = 1_000_000;
  alert_repeat = 5 * minute;
  failed_breakout_buffer_r = usd 1;
  max_quote_age = 5_000_000;
}

abbrev memory : Memory
memory = record { last_eval_at = []; last_action = ("q1", "HOLD") ∷ []; last_alert_at = [] }

report_action_once_example :
    let r = report_action monitor_config "a2" "q1" 9 sell_now memory store in
    (r.1 ≡ queue_alert "SELL_NOW" "a2" "q1" 9 (log_note position_evaluated "q1" 9 store))
    × ((later_id : String) (later : Instant) (t : Store Cents)
        → later < 9 + monitor_config.alert_repeat
        → report_action monitor_config later_id "q1" later sell_now r.0 t ≡ (r.0, t))
unfolding lookup
report_action_once_example =
    report_action_once monitor_config "a2" "q1" 9 sell_now memory store {kind = "SELL_NOW"} refl
      refl

-- a session from 0 to 1000 of a stream whose last message is too old at 100
abbrev session : Session
session = record { opens_at = 0; closes_at = 1000 }

abbrev days : Days
days = record { session_for = some (λ date. some session); date_of = λ now. "2025-01-02" }

abbrev silent : RuntimeStatus
silent = record { last_message_at = some 10; stale = false; session_date = none; changed_at = none }

check-IsTold_example :
    (told : Option EventType) × (status' : RuntimeStatus) × (s' : Store Cents) × (check 50 days 100
        "a2" silent empty_store
      ≡ ok (told, (status', s')))
    × IsTold 50 session "2025-01-02" 100 silent empty_store true told status' s'
    × ((later : Instant) (later_id : String) (t : Store Cents)
        → days.date_of later ≡ "2025-01-02"
        → is_within session later ≡ true
        → is_stale_at 50 status' session later ≡ true
        → check 50 days later later_id status' t ≡ ok (none, (status', t)))
check-IsTold_example = check-IsTold 50 days 100 "a2" silent empty_store refl refl refl
