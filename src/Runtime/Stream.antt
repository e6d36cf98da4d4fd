-- ===== src/Runtime/Stream.antt =====
-- runtime/stream_health.py: the check that tells when the market stream falls silent, and when it is
-- back.
pub mod Flagged
use market_brain.Prelude.{
  ◌+◌, String, Bool, true, false, not, ◌&&◌, ◌||◌, Option, none, some, if◌then◌else◌, ltb, leb,
  str_eq, max,
}
use market_brain.Prelude.Result.{Result, ok, err, ◌>>=◌, or_raise}
use market_brain.Domain.{Instant, AlertRecord}
use market_brain.Ledger.Events.{
  EventType, LedgerEvent, event_of, empty_payload, stream_stale, stream_recovered,
}
use market_brain.Ledger.Store.{Store, append, save_alert}

-- The entries of the runtime status that the check reads and writes. The last message is `none`
-- where it is missing or does not parse.
pub record RuntimeStatus : Type 0 where
  pub last_message_at : Option Instant
  -- `runtime.get("stream_stale") is True`
  pub stale : Bool
  pub session_date : Option String
  pub changed_at : Option Instant

-- a session of the calendar
pub record Session : Type 0 where
  pub opens_at : Instant
  pub closes_at : Instant

-- What a monitor knows of the days: the calendar, or `none` before `validate_startup`, and the date
-- of New York of an instant.
pub record Days : Type 0 where
  pub session_for : Option (String → Option Session)
  pub date_of : Instant → String

abbrev pub is_within : Session → Instant → Bool
is_within session now = leb session.opens_at now && ltb now session.closes_at

-- `max(last, session_open) if last is not None else session_open`
abbrev pub reference_of : Option Instant → Instant → Instant
reference_of none session_open = session_open
reference_of (some last) session_open = max last session_open

-- `(timestamp - reference) > threshold`
abbrev pub is_stale_at : Instant → RuntimeStatus → Session → Instant → Bool
is_stale_at threshold status session now =
    ltb (reference_of status.last_message_at session.opens_at + threshold) now

abbrev pub is_date : Option String → String → Bool
is_date none date = false
is_date (some known) date = str_eq known date

-- what the status says of the session of the date
abbrev pub was_stale : RuntimeStatus → String → Bool
was_stale status date = status.stale && is_date status.session_date date

abbrev pub kind_of : Bool → EventType
kind_of true = stream_stale
kind_of false = stream_recovered

abbrev pub kind_name : Bool → String
kind_name true = "STREAM_STALE"
kind_name false = "STREAM_RECOVERED"

module _ {F : Type 0} where
  -- the transaction of a change; the last argument before the tables is the identifier of the alert
  unfoldable pub log_change :
      Bool → String → Instant → String → RuntimeStatus → Store F → RuntimeStatus × Store F
  log_change stale date now alert_id status s = (
    record status { stale = stale; session_date = some date; changed_at = some now },
    append (event_of (kind_of stale) "market_stream" empty_payload now) (
        save_alert
          (record {
            kind = kind_name stale;
            alert_id = alert_id;
            subject = "";
            created_at = now;
            delivered_at = none;
            attempts = 0;
            last_error = none;
            next_attempt_at = none;
          })
          s),
  )

  -- within a session: the event that is told, if any, with the status and the store
  unfoldable pub check_session :
      Instant
      → String
      → Session
      → Instant
      → String
      → RuntimeStatus
      → Store F
      → Option EventType × (RuntimeStatus × Store F)
  unfolding log_change
  check_session threshold date session now alert_id status s =
      let stale = is_stale_at threshold status session now in
      if (stale && was_stale status date) || (not stale && not (was_stale status date))
      then (none, (status, s))
      else (some (kind_of stale), log_change stale date now alert_id status s)

  -- the answer of a date that may have a session
  abbrev pub check_day :
      Instant
      → String
      → Option Session
      → Instant
      → String
      → RuntimeStatus
      → Store F
      → Option EventType × (RuntimeStatus × Store F)
  check_day threshold date none now alert_id status s = (none, (status, s))
  check_day threshold date (some session) now alert_id status s =
      if is_within session now
      then check_session threshold date session now alert_id status s
      else (none, (status, s))

  unfoldable pub check :
      Instant
      → Days
      → Instant
      → String
      → RuntimeStatus
      → Store F
      → Result (Option EventType × (RuntimeStatus × Store F))
  unfolding check_session
  check threshold days now alert_id status s = do
    session_for ← or_raise days.session_for "STREAM_STALE_MONITOR_NOT_VALIDATED"
    let date = days.date_of now
    ok (check_day threshold date (session_for date) now alert_id status s)
