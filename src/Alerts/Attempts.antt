-- ===== src/Alerts/Attempts.antt =====
-- The attempts of `deliver` in alerts/dispatcher.py.
use mathlib.Core.Path.{subst}
use market_brain.Prelude.{
  ap, sym, ◌∙◌, ℕ, zero, suc, ◌+◌, ◌*◌, ◌<◌, ◌≤◌, ◌≡◌, ◌≢◌, ◌⊎◌, inl, inr, refl, String, Bool, true,
  false, none, some, List, [], ◌∷◌, arith, ltb, eq_iff, Bool-cases,
}
use market_brain.Prelude.Dict.{Dict, lookup, insert, lookup-insert, lookup-insert_own}
use market_brain.Prelude.Result.{ok}
use market_brain.Domain.{Instant, second, AlertRecord}
use market_brain.Ledger.Events.{event_of, empty_payload, alert_delivered}
use market_brain.Ledger.Store.{Store, append}
use market_brain.Alerts.{
  Dispatcher, Sink, Outcome, sent, refused, raised, active_sinks, is_sinkless, send_all, deliver,
  on_sent, on_refused, mark_delivered, mark_failed, log_delivered, delivered_record, failed_record,
  next_attempt, backoff,
}

-- how long to wait behind the attempt of this number
pub data IsDelay : ℕ → Instant → Type 0 where
  first : IsDelay 1 second
  second_delay : IsDelay 2 (5 * second)
  third : IsDelay 3 (30 * second)
  later : {n : ℕ} → 4 ≤ n → IsDelay n (120 * second)

-- the next attempt of a record that has failed: there is one as long as attempts are left
abbrev pub IsPlanned : Dispatcher → Instant → AlertRecord → Type 0
IsPlanned d at row =
    ((row.attempts < d.max_attempts)
      × (wait : Instant) × IsDelay row.attempts wait
      × (row.next_attempt_at ≡ some (at + wait)))
    ⊎ ((d.max_attempts ≤ row.attempts) × (row.next_attempt_at ≡ none))

insert-others :
    (id : String) (row : AlertRecord) (table : Dict AlertRecord) (other : String)
    → id ≢ other
    → lookup other (insert id row table) ≡ lookup other table
insert-others id row table other n =
    ground (arith, eq_iff id other, lookup-insert id other row table)

IsDelay-backoff : (n : ℕ) → 1 ≤ n → IsDelay n (backoff n)
unfolding backoff
IsDelay-backoff (suc zero) h = first
IsDelay-backoff (suc (suc zero)) h = second_delay
IsDelay-backoff (suc (suc (suc zero))) h = third
IsDelay-backoff (suc (suc (suc (suc n)))) h =
    let e : backoff (suc (suc (suc (suc n)))) ≡ 120 * second = ground arith in
    subst (IsDelay (suc (suc (suc (suc n))))) (sym e) (later (omega arith))
IsDelay-backoff zero h = absurd (omega arith)

failed-IsPlanned :
    (d : Dispatcher) (at : Instant) (alert : AlertRecord) (error : String)
    → IsPlanned d at (failed_record error (next_attempt d at (alert.attempts + 1)) alert)
failed-IsPlanned d at alert error = elim (Bool-cases (ltb (alert.attempts + 1) d.max_attempts)) [
  | inl more ↦ inl (
    ground arith,
    backoff (alert.attempts + 1),
    IsDelay-backoff (alert.attempts + 1) (omega arith),
    ground arith,
  )
  | inr done ↦ inr (ground arith, ground arith)
]

module _ {F : Type 0} where
  -- The alerts behind the events of a delivery, which changes none of them.
  log_delivered-alerts :
      (id : String) (at : Instant) (sinks : List Sink) (s : Store F)
      → (log_delivered id at sinks s).alerts ≡ s.alerts
  unfolding log_delivered
  log_delivered-alerts id at [] s = refl
  log_delivered-alerts id at (sink ∷ sinks) s =
      log_delivered-alerts id at sinks (append (event_of alert_delivered id empty_payload at) s)

  -- An alert of the store that is open: not delivered and with attempts left.
  abbrev pub IsOpen : Dispatcher → Store F → AlertRecord → Type 0
  IsOpen d s alert =
      (lookup alert.alert_id s.alerts ≡ some alert)
      × (alert.delivered_at ≡ none)
      × (alert.attempts < d.max_attempts)

  -- What a delivery leaves of an open alert: the row that stands for it then, and the other rows.
  pub record IsAttempted (d : Dispatcher) (clock at : Instant) (alert : AlertRecord) (s : Store F)
      (result : Bool × Store F) : Type 0 where
    pub row : AlertRecord
    pub stored : lookup alert.alert_id result.1.alerts ≡ some row
    pub others :
        (id : String) → alert.alert_id ≢ id → lookup id result.1.alerts ≡ lookup id s.alerts
    pub counted : row.attempts ≡ alert.attempts + 1
    pub same_id : row.alert_id ≡ alert.alert_id
    pub same_kind : row.kind ≡ alert.kind
    pub same_age : row.created_at ≡ alert.created_at
    pub outcome :
        ((send_all d at alert (active_sinks d) ≡ sent)
          × (result.0 ≡ true)
          × (row.delivered_at ≡ some clock)
          × (row.last_error ≡ none)
          × (row.next_attempt_at ≡ none))
        ⊎ ((error : String) × (send_all d at alert (active_sinks d) ≡ refused error)
            × (result.0 ≡ false)
            × (row.delivered_at ≡ none)
            × (row.last_error ≡ some error)
            × IsPlanned d at row)

  module _ (d : Dispatcher) (clock at : Instant) (alert : AlertRecord) (s : Store F) where
    -- the table of the alerts behind a delivery that was taken
    on_sent-alerts :
        lookup alert.alert_id s.alerts ≡ some alert
        → ((on_sent d clock at alert s).0 ≡ true)
          × ((on_sent d clock at alert s).1.alerts
              ≡ insert alert.alert_id (delivered_record clock alert) s.alerts)
    unfolding on_sent mark_delivered
    on_sent-alerts o = ground (
      arith,
      log_delivered-alerts alert.alert_id at (active_sinks d)
          (record s { alerts = insert alert.alert_id (delivered_record clock alert) s.alerts }),
    )

    -- and behind one that was refused
    on_refused-alerts :
        (error : String)
        → lookup alert.alert_id s.alerts ≡ some alert
        → ((on_refused d at alert error s).0 ≡ false)
          × ((on_refused d at alert error s).1.alerts
              ≡ insert alert.alert_id
                  (failed_record error (next_attempt d at (alert.attempts + 1)) alert)
                  s.alerts)
    unfolding on_refused mark_failed
    on_refused-alerts error o = ground arith

    on_sent-IsAttempted :
        IsOpen d s alert
        → send_all d at alert (active_sinks d) ≡ sent
        → IsAttempted d clock at alert s (on_sent d clock at alert s)
    on_sent-IsAttempted o e =
        let (taken, table) = on_sent-alerts o.0 in
        let row = delivered_record clock alert in
        record {
          row = row;
          stored = ap (lookup alert.alert_id) table ∙ lookup-insert_own alert.alert_id row s.alerts;
          others = λ id n. ap (lookup id) table ∙ insert-others alert.alert_id row s.alerts id n;
          counted = refl;
          same_id = refl;
          same_kind = refl;
          same_age = refl;
          outcome = inl (e, taken, refl, refl, refl);
        }

    on_refused-IsAttempted :
        (error : String)
        → IsOpen d s alert
        → send_all d at alert (active_sinks d) ≡ refused error
        → IsAttempted d clock at alert s (on_refused d at alert error s)
    on_refused-IsAttempted error o e =
        let (lost, table) = on_refused-alerts error o.0 in
        let row = failed_record error (next_attempt d at (alert.attempts + 1)) alert in
        record {
          row = row;
          stored = ap (lookup alert.alert_id) table ∙ lookup-insert_own alert.alert_id row s.alerts;
          others = λ id n. ap (lookup id) table ∙ insert-others alert.alert_id row s.alerts id n;
          counted = refl;
          same_id = refl;
          same_kind = refl;
          same_age = refl;
          outcome = inr (error, e, lost, o.1, refl, failed-IsPlanned d at alert error);
        }

    -- A delivery of an open alert that returns counts one attempt more in the stored record of the
    -- alert, and leaves every other record as it was. Where every sink took the alert it is true, and
    -- the record is delivered at that time, with no error and no next attempt. Where a sink refused
    -- it is false, and the record is not delivered and has the error: if attempts are left, the next
    -- one is a second later behind the first, 5 behind the second, 30 behind the third and 120 behind
    -- any other, and if none is left there is no next one.
    pub deliver-IsAttempted :
        {result : Bool × Store F}
        → is_sinkless (active_sinks d) ≡ false
        → IsOpen d s alert
        → deliver d clock at alert s ≡ ok result
        → IsAttempted d clock at alert s result
    unfolding deliver
    deliver-IsAttempted {result} some_sink o e = outcome (send_all d at alert (active_sinks d)) refl
      where
        outcome :
            (out : Outcome)
            → send_all d at alert (active_sinks d) ≡ out
            → IsAttempted d clock at alert s result
        outcome sent o1 =
            let same : on_sent d clock at alert s ≡ result = ground (arith, o.1, o.2) in
            rw (← same) (on_sent-IsAttempted o o1)
        outcome (refused error) o1 =
            let same : on_refused d at alert error s ≡ result = ground (arith, o.1, o.2) in
            rw (← same) (on_refused-IsAttempted error o o1)
        outcome (raised text) o1 = absurd (ground (arith, o.1, o.2))
