-- ===== src/Alerts.antt =====
-- alerts/dispatcher.py, with the operations of ledger/store.py on alerts. The payloads, their
-- redaction and the tag of delayed data are free text and left out.
pub mod Order
pub mod Attempts
pub mod Retry
use market_brain.Prelude.{
  ℕ, ◌+◌, ◌-◌, ◌*◌, ◌≤◌, String, Bool, true, false, not, ◌&&◌, ◌||◌, Option, none, some, List, [],
  ◌∷◌, if◌then◌else◌, ltb, leb, ◌==◌, is_some, str_eq,
}
use market_brain.Prelude.Lists.{select}
use market_brain.Prelude.Dict.{lookup, insert, values}
use market_brain.Prelude.Result.{Result, ok, err, ◌>>=◌}
use market_brain.Prelude.Sorting.{sort_by}
use market_brain.Domain.{Instant, second, AlertRecord}
use market_brain.Ledger.Events.{
  LedgerEvent, event_of, empty_payload, alert_delivered, alert_delivery_failed,
}
use market_brain.Ledger.Store.{Store, append}

-- A sink as the dispatcher sees it.
pub record Sink : Type 0 where
  pub name : String
  pub configured : Bool

-- What a call of `send` does: it returns, it raises one of DELIVERY_ERRORS, of which the text is the
-- name of the class, or it raises another exception.
pub data Outcome : Type 0 where
  sent : Outcome
  refused raised : String → Outcome

-- The dispatcher, and `send` of its sinks: an argument, at the time of the attempt.
pub record Dispatcher : Type 0 where
  pub sinks : List Sink
  pub max_attempts : ℕ
  pub send : Instant → AlertRecord → Sink → Outcome

-- `BACKOFF_SECONDS[min(max(attempt_number - 1, 0), len(BACKOFF_SECONDS) - 1)]`
unfoldable pub backoff : ℕ → Instant
backoff attempt_number =
    if leb attempt_number 1
    then second
    else if attempt_number == 2
    then 5 * second
    else if attempt_number == 3
    then 30 * second
    else 120 * second

-- `PRIORITY.get(alert.kind, 3)`
unfoldable pub priority : String → ℕ
priority kind =
    if str_eq kind "SELL_NOW"
    then 0
    else if str_eq kind "PLACE_STOP_NOW"
    then 1
    else if str_eq kind "STREAM_STALE"
    then 2
    else 3

abbrev pub active_sinks : Dispatcher → List Sink
active_sinks d = select (λ (sink : Sink). sink.configured) d.sinks

-- `for sink in sinks: await sink.send(payload)`
unfoldable pub send_all : Dispatcher → Instant → AlertRecord → List Sink → Outcome
send_all d at alert [] = sent
send_all d at alert (sink ∷ sinks) =
    let rest = send_all d at alert sinks in
    elim (d.send at alert sink) [
      | sent ↦ rest
      | refused error ↦ refused error
      | raised text ↦ raised text
    ]

abbrev pub is_sinkless : List Sink → Bool
is_sinkless [] = true
is_sinkless (_ ∷ _) = false

-- the order of `list_undelivered`
abbrev pub is_older : AlertRecord → AlertRecord → Bool
is_older a b = leb a.created_at b.created_at

-- `(PRIORITY.get(alert.kind, 3), alert.created_at)`, compared
abbrev pub is_before : AlertRecord → AlertRecord → Bool
is_before a b =
    ltb (priority a.kind) (priority b.kind)
    || (priority a.kind == priority b.kind && leb a.created_at b.created_at)

abbrev pub is_due : Dispatcher → Instant → AlertRecord → Bool
is_due d now alert =
    ltb alert.attempts d.max_attempts
    && elim alert.next_attempt_at [ none ↦ true | some at ↦ leb at now ]

-- the record behind an attempt that was delivered, and behind one that was not
abbrev pub delivered_record : Instant → AlertRecord → AlertRecord
delivered_record clock alert = record alert {
  attempts = alert.attempts + 1;
  delivered_at = some clock;
  last_error = none;
  next_attempt_at = none;
}

abbrev pub failed_record : String → Option Instant → AlertRecord → AlertRecord
failed_record error next_attempt_at alert = record alert {
  attempts = alert.attempts + 1;
  last_error = some error;
  next_attempt_at = next_attempt_at;
}

abbrev pub next_attempt : Dispatcher → Instant → ℕ → Option Instant
next_attempt d at attempt_number =
    if ltb attempt_number d.max_attempts then some (at + backoff attempt_number) else none

module _ {F : Type 0} where
  -- `alert.… = …` on the stored record; `none` where there is none
  abbrev pub change_alert :
      String → (AlertRecord → AlertRecord) → Store F → Option (AlertRecord × Store F)
  change_alert alert_id change s = elim (lookup alert_id s.alerts) [
    | none ↦ none
    | some alert ↦
        some (change alert, record s { alerts = insert alert_id (change alert) s.alerts })
  ]

  unfoldable pub mark_delivered : String → Instant → Store F → Option (AlertRecord × Store F)
  mark_delivered alert_id clock s = change_alert alert_id (delivered_record clock) s

  unfoldable pub mark_failed :
      String → String → Option Instant → Store F → Option (AlertRecord × Store F)
  mark_failed alert_id error next_attempt_at s =
      change_alert alert_id (failed_record error next_attempt_at) s

  unfoldable pub list_undelivered : Store F → List AlertRecord
  unfolding select sort_by values
  list_undelivered s =
      sort_by is_older
        (select (λ (alert : AlertRecord). not (is_some alert.delivered_at)) (values s.alerts))

  -- one ALERT_DELIVERED for each sink
  unfoldable pub log_delivered : String → Instant → List Sink → Store F → Store F
  log_delivered alert_id at [] s = s
  log_delivered alert_id at (sink ∷ sinks) s =
      log_delivered alert_id at sinks
        (append (event_of alert_delivered alert_id empty_payload at) s)

  unfoldable pub on_sent : Dispatcher → Instant → Instant → AlertRecord → Store F → Bool × Store F
  unfolding mark_delivered log_delivered
  on_sent d clock at alert s = elim (mark_delivered alert.alert_id clock s) [
    | none ↦ (false, s)
    | some (marked, s') ↦ (true, log_delivered alert.alert_id at (active_sinks d) s')
  ]

  unfoldable pub on_refused : Dispatcher → Instant → AlertRecord → String → Store F → Bool × Store F
  unfolding mark_failed backoff
  on_refused d at alert error s =
      elim (mark_failed alert.alert_id error (next_attempt d at (alert.attempts + 1)) s) [
        | none ↦ (false, s)
        | some (failed, s') ↦ (
          false,
          if leb d.max_attempts failed.attempts
              then append (event_of alert_delivery_failed alert.alert_id empty_payload at) s'
              else s',
        )
      ]

  -- `deliver`; `clock` is what `mark_delivered` reads
  unfoldable pub deliver :
      Dispatcher → Instant → Instant → AlertRecord → Store F → Result (Bool × Store F)
  unfolding send_all on_sent on_refused select
  deliver d clock at alert s =
      if is_sinkless (active_sinks d)
        || (is_some alert.delivered_at || leb d.max_attempts alert.attempts)
      then ok (false, s)
      else elim (send_all d at alert (active_sinks d)) [
        | sent ↦ ok (on_sent d clock at alert s)
        | refused error ↦ ok (on_refused d at alert error s)
        | raised text ↦ err text
      ]

  -- the alerts of a dispatch, in its order
  unfoldable pub due_alerts : Dispatcher → Instant → Store F → List AlertRecord
  unfolding list_undelivered priority select sort_by
  due_alerts d now s = sort_by is_before (select (is_due d now) (list_undelivered s))

  unfoldable pub deliver_all :
      Dispatcher → Instant → Instant → List AlertRecord → ℕ → Store F → Result (ℕ × Store F)
  unfolding deliver
  deliver_all d clock now [] delivered s = ok (delivered, s)
  deliver_all d clock now (alert ∷ alerts) delivered s = do
    (done, s') ← deliver d clock now alert s
    deliver_all d clock now alerts (if done then delivered + 1 else delivered) s'

  unfoldable pub dispatch_once : Dispatcher → Instant → Instant → Store F → Result (ℕ × Store F)
  unfolding deliver_all due_alerts
  dispatch_once d clock now s = deliver_all d clock now (due_alerts d now s) 0 s
