-- ===== src/Service/Activate.antt =====
-- `_activate_with_context` of orchestration/service.py: from a sample to a reservation.
pub mod Reserving
use market_brain.Prelude.{
  ℕ, ◌+◌, ◌*◌, String, Bool, true, false, not, ◌&&◌, ◌||◌, Option, none, some, List, [], ◌∷◌, ◌++◌,
  if◌then◌else◌, leb, ltb, is_some, str_eq,
}
use market_brain.Prelude.Lists.{any, length}
use market_brain.Prelude.Result.{Result, ok, err, ◌>>=◌, or_raise}
use market_brain.Number.{Double, ◌⊖◌, ◌⊕◌, ◌⊗◌, ◌≤?◌}
use market_brain.Domain.{
  Instant, second, MarketSnapshot, TradePlan, WalletState, Reservation, ActivationDecision,
  SignalState, PlanStatus, invalid, watch, armed, buy_now, is_expired, is_filled,
}
use market_brain.Ledger.Events.{
  event_of, empty_payload, capacity_reserved, plan_evaluated, buy_now_emitted, EventType,
}
use market_brain.Ledger.Store.{
  Store, append, save_plan, save_wallet, save_reservation, save_alert, get_plan, get_reservation,
}
use market_brain.Engines.Liquidity.{dedupe, is_source, is_keyless_source}
use market_brain.Engines.Activation.{bare, activate_plan}
use market_brain.Service.Action.{Action, Config}
use market_brain.Service.Wallet.{open_positions}
use market_brain.Service.Capacity.{release_reservation}
use market_brain.Service.Answers.{
  Sample, is_buy, unknown_plan, answer, log_note, queue_alert, has_levels, common_reasons,
  on_expired, is_at_limit, on_limit, is_untrusted, repeated, on_held,
}

module _ {F : Type 0} ⦃num : Double F⦄ where
  -- `snapshot.vwap is not None and snapshot.last >= snapshot.vwap`
  abbrev pub above_vwap : MarketSnapshot F → Bool
  above_vwap x = elim x.vwap [ none ↦ false | some vwap ↦ vwap ≤? x.last ]

  abbrev pub age_limit : Config F → MarketSnapshot F → F
  age_limit cfg x =
      if is_keyless_source x.source_id
      then cfg.max_delayed_age_minutes ⊗ num.lit 600 1
      else cfg.max_market_data_age_seconds

  -- `stop` is the plan's; the risk of a share is from the trigger down to it
  abbrev pub reservation_of : Config F → String → TradePlan F → F → ℕ → Instant → Reservation F
  reservation_of cfg plan_id plan stop quantity now = record {
    plan_id = plan_id;
    quantity = quantity;
    reserved_cash = num.round 2 (num.of_int quantity ⊗ plan.entry_zone_high);
    reserved_risk = num.round 2 (num.of_int quantity ⊗ (plan.entry_trigger ⊖ stop));
    expires_at = now + cfg.reservation_ttl_seconds * second;
  }

  abbrev pub charged_wallet : Reservation F → Instant → WalletState F → WalletState F
  charged_wallet held now wallet = record wallet {
    reserved_cash = wallet.reserved_cash ⊕ held.reserved_cash;
    open_risk = wallet.open_risk ⊕ held.reserved_risk;
    version = wallet.version + 1;
    as_of = now;
  }

  -- the writes of a BUY_NOW, and its events
  abbrev pub reserve :
      String → TradePlan F → Reservation F → WalletState F → String → Instant → Store F → Store F
  reserve plan_id plan held wallet alert_id now s =
      let kept = record plan { status = PlanStatus.reserved } in
      let paid = charged_wallet held now wallet in
      log_note buy_now_emitted plan_id now (
        queue_alert "BUY_NOW" alert_id plan_id now (
          append
            (event_of capacity_reserved plan_id
              (record empty_payload {
                wallet = some paid;
                plan = some kept;
                reservation = some held;
              })
              now)
            (save_plan kept (save_reservation held (save_wallet paid s)))))

  -- the answer to the decision of `activate_plan`
  abbrev pub on_decision :
      Config F
      → String
      → TradePlan F
      → WalletState F
      → Sample F
      → Instant
      → Store F
      → ActivationDecision F
      → Result (ActivationDecision F × Store F)
  on_decision cfg plan_id plan wallet x now s d =
      let decision = record d { reasons = dedupe (common_reasons x ++ d.reasons) } in
      let noted = log_note plan_evaluated plan_id now s in
      if is_buy d.state
      then (do
        stop ← or_raise plan.stop "TypeError"
        let held = reservation_of cfg plan_id plan stop d.quantity now
        let t = reserve plan_id plan held wallet x.alert_id now noted
        if has_levels plan then ok (decision, t) else err "PLAN_PROTECTION_LEVELS_MISSING")
      else ok (decision, noted)

  -- the call of `activate_plan`
  unfoldable pub answered :
      Config F → TradePlan F → WalletState F → Sample F → Instant → Result (ActivationDecision F)
  answered cfg plan wallet x now =
      activate_plan cfg.settings plan x.snapshot wallet x.retest_valid (above_vwap x.snapshot) none
        (some (age_limit cfg x.snapshot)) (some cfg.max_trade_risk_pct)
        (some cfg.max_daily_loss_pct) (some cfg.max_position_notional_pct) now

  -- from the call of `activate_plan` on
  unfoldable pub decide :
      Config F
      → String
      → TradePlan F
      → WalletState F
      → Sample F
      → Instant
      → Store F
      → Result (ActivationDecision F × Store F)
  decide cfg plan_id plan wallet x now s =
      answered cfg plan wallet x now >>= on_decision cfg plan_id plan wallet x now s

  -- behind the release of a reservation that ran out, with the wallet that is read again
  abbrev pub refreshed :
      Config F
      → String
      → TradePlan F
      → Sample F
      → Instant
      → Store F
      → Option (WalletState F)
      → Result (ActivationDecision F × Store F)
  refreshed cfg plan_id plan x now s none = err "AssertionError"
  refreshed cfg plan_id plan x now s (some freed) = decide cfg plan_id plan freed x now s

  -- with the plan's reservation, if there is one
  abbrev pub on_reservation :
      Config F
      → String
      → TradePlan F
      → WalletState F
      → Sample F
      → Instant
      → Store F
      → Option (Reservation F)
      → Result (ActivationDecision F × Store F)
  on_reservation cfg plan_id plan wallet x now s none = decide cfg plan_id plan wallet x now s
  on_reservation cfg plan_id plan wallet x now s (some held) =
      let t = (release_reservation plan_id "RESERVATION_EXPIRED" now s).1 in
      if leb now held.expires_at
      then on_held plan_id plan held x now s
      else refreshed cfg plan_id plan x now t t.wallet

  -- with the plan and the wallet at hand, from the test of the open positions on
  unfoldable pub on_wallet :
      Config F
      → String
      → TradePlan F
      → WalletState F
      → Sample F
      → Instant
      → Store F
      → Result (ActivationDecision F × Store F)
  on_wallet cfg plan_id plan wallet x now s =
      if is_at_limit cfg plan_id s
      then ok (on_limit plan_id plan now s)
      else on_reservation cfg plan_id plan wallet x now s (get_reservation plan_id s)

  -- with the plan and the wallet that are read
  abbrev pub on_plan :
      Config F
      → String
      → Sample F
      → Instant
      → Store F
      → Option (TradePlan F)
      → Option (WalletState F)
      → Result (ActivationDecision F × Store F)
  on_plan cfg plan_id x now s none wallet = ok (unknown_plan plan_id, s)
  on_plan cfg plan_id x now s (some plan) none =
      if is_expired plan.status || ltb plan.expires_at now
      then ok (on_expired plan_id plan now s)
      else ok (answer plan_id plan watch ("WALLET_NOT_SEEDED" ∷ []), s)
  on_plan cfg plan_id x now s (some plan) (some wallet) =
      if is_expired plan.status || ltb plan.expires_at now
      then ok (on_expired plan_id plan now s)
      else if is_filled plan.status
      then ok (answer plan_id plan invalid ("PLAN_ALREADY_FILLED" ∷ []), s)
      else on_wallet cfg plan_id plan wallet x now s

  unfoldable pub activate_with_context :
      Config F → String → Sample F → Instant → Action F (ActivationDecision F)
  activate_with_context cfg plan_id x now s =
      on_plan cfg plan_id x now s (get_plan plan_id s) s.wallet
