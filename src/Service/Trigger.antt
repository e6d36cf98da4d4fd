-- ===== src/Service/Trigger.antt =====
-- `record_trigger_hit`, the writes of `build_plan`, `evaluate_position` and `activate` of
-- orchestration/service.py.
use market_brain.Prelude.{
  ◌+◌, ◌*◌, String, Bool, true, false, not, ◌||◌, Option, none, some, [], ◌∷◌, if◌then◌else◌, ltb,
  is_some,
}
use market_brain.Prelude.Result.{Result, ok, err, ◌>>=◌, ◌>>◌, raise_if}
use market_brain.Number.{Double}
use market_brain.Domain.{
  Instant, minute, TradePlan, WalletState, ActivationDecision, SignalState, PositionAction, hold,
  unknown_position, trim, take_profit, sell_now, place_stop_now, reconcile_required, invalid, watch,
  is_active, is_expired, is_filled,
}
use market_brain.Ledger.Events.{
  event_of, empty_payload, plan_issued, trigger_hit, position_evaluated,
}
use market_brain.Ledger.Store.{Store, append, save_plan, get_plan, get_position}
use market_brain.Engines.Wallet.{size_from_wallet}
use market_brain.Engines.Position.{evaluate_position}
use market_brain.Service.Action.{Action, Config}
use market_brain.Service.Capacity.{sweep_expired}
use market_brain.Service.Answers.{Sample, answer, has_levels, log_note, queue_alert, unknown_plan}
use market_brain.Service.Activate.{activate_with_context}

abbrev pub max_instant : Instant → Instant → Instant
max_instant a b = if ltb a b then b else a

-- the actions that queue an alert, with their names
abbrev pub alert_kind : PositionAction → Option String
alert_kind trim = some "TRIM"
alert_kind take_profit = some "TAKE_PROFIT"
alert_kind sell_now = some "SELL_NOW"
alert_kind place_stop_now = some "PLACE_STOP_NOW"
alert_kind reconcile_required = some "RECONCILE_REQUIRED"
alert_kind hold = none
alert_kind unknown_position = none

module _ {F : Type 0} ⦃num : Double F⦄ where
  -- an event whose payload is a plan, and the write before it
  abbrev pub issue_plan : TradePlan F → Store F → Store F
  issue_plan plan s =
      append
        (event_of plan_issued plan.plan_id (record empty_payload { plan = some plan })
          plan.created_at)
        (save_plan plan s)

  -- a plan that waits for its trigger
  abbrev pub is_waiting : Instant → TradePlan F → Bool
  is_waiting at plan =
      not (not (is_active plan.status) || (is_some plan.triggered_at || ltb plan.expires_at at))

  -- `max(plan.expires_at, activation_deadline)`
  abbrev pub triggered : Config F → Instant → TradePlan F → TradePlan F
  triggered cfg at plan = record plan {
    expires_at = max_instant plan.expires_at (at + (cfg.retest_window_minutes + 5) * minute);
    triggered_at = some at;
  }

  -- the order ticket's quantity is read from the wallet, and its text needs the three levels
  abbrev pub check_ticket : Config F → TradePlan F → Option (WalletState F) → Result (Unit {0})
  check_ticket cfg plan none = raise_if (not (has_levels plan)) "TypeError"
  check_ticket cfg plan (some wallet) =
      size_from_wallet cfg.settings wallet plan none (some cfg.max_trade_risk_pct)
        (some cfg.max_daily_loss_pct) (some cfg.max_position_notional_pct)
      >>= λ size. raise_if (not (has_levels plan)) "TypeError"

  -- the writes for the plan that is hit, and the event that carries it
  abbrev pub log_trigger : TradePlan F → String → Instant → Store F → Store F
  log_trigger plan alert_id at s =
      append (event_of trigger_hit plan.plan_id (record empty_payload { plan = some plan }) at)
        (queue_alert "TRIGGER_HIT" alert_id plan.plan_id at (save_plan plan s))

  abbrev pub hit_plan : Config F → String → Instant → Option (TradePlan F) → Action F Bool
  hit_plan cfg alert_id at none s = ok (false, s)
  hit_plan cfg alert_id at (some plan) s =
      if is_waiting at plan
      then (do
        check_ticket cfg (triggered cfg at plan) s.wallet
        ok (true, log_trigger (triggered cfg at plan) alert_id at s))
      else ok (false, s)

  unfoldable pub record_trigger_hit : Config F → String → String → Instant → Action F Bool
  record_trigger_hit cfg plan_id alert_id at s = hit_plan cfg alert_id at (get_plan plan_id s) s

  abbrev pub alert_action : Option String → String → String → Instant → Store F → Store F
  alert_action none alert_id position_id now s = s
  alert_action (some kind) alert_id position_id now s = queue_alert kind alert_id position_id now s

  -- `record_event` and `queue_alert` are the two flags of the method.
  unfoldable pub watch_position :
      Config F
      → String
      → F
      → (below_vwap failed_breakout record_event queues : Bool) → String
      → Instant
      → Action F PositionAction
  watch_position cfg position_id last below_vwap failed_breakout record_event queues alert_id now
        s =
      let action =
        evaluate_position (get_position position_id s) last below_vwap failed_breakout
          cfg.reconciliation_max_age now in
      let noted = if record_event then log_note position_evaluated position_id now s else s in
      ok (
        action,
        if queues then alert_action (alert_kind action) alert_id position_id now noted else noted,
      )

  -- with the plan at hand; `x` is what the provider of market data gives, if there is one
  abbrev pub activate_swept :
      Config F
      → String
      → Option (Sample F)
      → Instant
      → Store F
      → Option (TradePlan F)
      → Result (ActivationDecision F × Store F)
  activate_swept cfg plan_id x now s none = ok (unknown_plan plan_id, s)
  activate_swept cfg plan_id x now s (some plan) =
      if is_expired plan.status || ltb plan.expires_at now
      then ok (answer plan_id plan SignalState.expired ("PLAN_EXPIRED" ∷ []), s)
      else if is_filled plan.status
      then ok (answer plan_id plan invalid ("PLAN_ALREADY_FILLED" ∷ []), s)
      else if is_some s.wallet
      then elim x [
        | none ↦ err "MARKET_DATA_PROVIDER_NOT_CONFIGURED"
        | some sample ↦ activate_with_context cfg plan_id sample now s
      ]
      else ok (answer plan_id plan watch ("WALLET_NOT_SEEDED" ∷ []), s)

  -- The sweep is a transaction of its own, so what it did stays when the rest raises.
  unfoldable pub activate :
      Config F
      → String
      → Option (Sample F)
      → Instant
      → Store F
      → Store F × Result (ActivationDecision F × Store F)
  activate cfg plan_id x now s =
      let t = (sweep_expired now s).1 in
      (t, activate_swept cfg plan_id x now t (get_plan plan_id t))
