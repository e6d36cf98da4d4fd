-- ===== src/Alerts/Retry.antt =====
-- The deliveries of one alert of alerts/dispatcher.py, one after another.
use market_brain.Prelude.{
  ◌∙◌, sym, ap, ◌+◌, ◌≤◌, ◌≡◌, inl, inr, refl, String, Bool, true, false, ◌||◌, none, some, List,
  [], ◌∷◌, arith, is_some, leb, Bool-cases,
}
use market_brain.Prelude.Lists.{length}
use market_brain.Prelude.Dict.{lookup}
use market_brain.Prelude.Result.{Result, ok, ◌>>=◌}
use market_brain.Domain.{Instant, AlertRecord}
use market_brain.Ledger.Store.{Store}
use market_brain.Alerts.{
  Dispatcher, Outcome, sent, refused, raised, active_sinks, is_sinkless, send_all, deliver, on_sent,
  on_refused,
}
use market_brain.Alerts.Attempts.{IsOpen, deliver-IsAttempted}

-- nothing is left to do for the alert
abbrev pub is_settled : Dispatcher → AlertRecord → Bool
is_settled d alert = is_some alert.delivered_at || leb d.max_attempts alert.attempts

module _ {F : Type 0} where
  -- the deliveries of the stored alert at these times, as far as `run` makes them
  unfoldable pub retry : Dispatcher → String → List Instant → Store F → Result (Store F)
  unfolding deliver
  retry d alert_id [] s = ok s
  retry d alert_id (at ∷ ats) s = elim (lookup alert_id s.alerts) [
    | none ↦ ok s
    | some alert ↦ do (done, s') ← deliver d at at alert s; retry d alert_id ats s'
  ]

  -- A settled alert is not sent again.
  retry-settled :
      (d : Dispatcher) (alert_id : String) (ats : List Instant) (s : Store F) (alert : AlertRecord)
      → lookup alert_id s.alerts ≡ some alert
      → is_settled d alert ≡ true
      → retry d alert_id ats s ≡ ok s
  unfolding retry deliver
  retry-settled d alert_id [] s alert e h = refl
  retry-settled d alert_id (at ∷ ats) s alert e h =
      ground (arith, retry-settled d alert_id ats s alert e h)

  retry_step :
      (d : Dispatcher) (alert_id : String) (at : Instant) (ats : List Instant) (s : Store F)
      (alert : AlertRecord) {done : Bool} {s' : Store F}
      → lookup alert_id s.alerts ≡ some alert
      → deliver d at at alert s ≡ ok (done, s')
      → retry d alert_id (at ∷ ats) s ≡ retry d alert_id ats s'
  unfolding retry
  retry_step d alert_id at ats s alert e h = ground arith

  module _ (d : Dispatcher) (alert_id : String) (some_sink : is_sinkless (active_sinks d) ≡ false)
      (no_raise : (at : Instant) (alert : AlertRecord) (text : String)
        → send_all d at alert (active_sinks d) ≡ raised text
        → ⊥) where
    deliver-returns :
        (at : Instant) (alert : AlertRecord) (s : Store F)
        → (result : Bool × Store F) × (deliver d at at alert s ≡ ok result)
    unfolding deliver
    deliver-returns at alert s =
        elim (Bool-cases (is_sinkless (active_sinks d) || is_settled d alert)) [
          | inl e ↦ ((false, s), rw e)
          | inr e ↦ outcome (send_all d at alert (active_sinks d)) refl e
        ]
      where
        outcome :
            (out : Outcome)
            → send_all d at alert (active_sinks d) ≡ out
            → (is_sinkless (active_sinks d) || is_settled d alert) ≡ false
            → (result : Bool × Store F) × (deliver d at at alert s ≡ ok result)
        outcome sent o e = (on_sent d at at alert s, ground arith)
        outcome (refused error) o e = (on_refused d at alert error s, ground arith)
        outcome (raised text) o e = absurd (no_raise at alert text o)

    -- Where a sink is configured and no send raises anything but a delivery error, as many
    -- deliveries as the alert has attempts left settle it: behind them it is delivered, or it has
    -- had exactly as many attempts as are allowed.
    pub retry_settles :
        (ats : List Instant) (s : Store F) (alert : AlertRecord)
        → lookup alert_id s.alerts ≡ some alert
        → alert.alert_id ≡ alert_id
        → alert.attempts ≤ d.max_attempts
        → d.max_attempts ≤ alert.attempts + length ats
        → (t : Store F) × (last : AlertRecord) × (retry d alert_id ats s ≡ ok t)
          × (lookup alert_id t.alerts ≡ some last)
          × (is_settled d last ≡ true)
          × (last.attempts ≤ d.max_attempts)
    retry_settles [] s alert e own within enough =
        (s, alert, retry-settled d alert_id [] s alert e (ground arith), e, ground arith, within)
    retry_settles (at ∷ ats) s alert e own within enough = elim (Bool-cases (is_settled d alert)) [
      | inl done ↦ (s, alert, retry-settled d alert_id (at ∷ ats) s alert e done, e, done, within)
      | inr open_alert ↦
          let ((done, s'), delivered) = deliver-returns at alert s in
          let step = retry_step d alert_id at ats s alert e delivered in
          let is_open : IsOpen d s alert =
            (ap (λ k. lookup k s.alerts) own ∙ e, ground arith, ground arith) in
          let tried = deliver-IsAttempted d at at alert s some_sink is_open delivered in
          let last = tried.row in
          let found : lookup alert_id s'.alerts ≡ some last =
            sym (ap (λ k. lookup k s'.alerts) own) ∙ tried.stored in
          let counted = tried.counted in
          elim tried.outcome [
            | inl (_, _, delivered_at, _, _) ↦
                let done : is_settled d last ≡ true = ground arith in
                (
                  s',
                  last,
                  step ∙ retry-settled d alert_id ats s' last found done,
                  found,
                  done,
                  ground arith,
                )
            | inr (error, _, _, _, _, _) ↦
                let (t, final, r, l, done, few) =
                  retry_settles ats s' last found (tried.same_id ∙ own) (ground arith)
                    (ground arith) in
                (t, final, step ∙ r, l, done, few)
          ]
    ]
