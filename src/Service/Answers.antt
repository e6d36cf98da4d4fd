-- ===== src/Service/Answers.antt =====
-- The parts of `_activate_with_context` of orchestration/service.py that ask no engine: its
-- arguments, its early answers and the reservation that still stands.
use market_brain.Prelude.{
  String, Bool, true, false, not, ◌&&◌, ◌||◌, none, some, List, [], ◌∷◌, ◌++◌, if◌then◌else◌, leb,
  is_some, str_eq,
}
use market_brain.Prelude.Lists.{any, length}
use market_brain.Prelude.Result.{Result, ok, err}
use market_brain.Number.{Double}
use market_brain.Domain.{
  Instant, MarketSnapshot, TradePlan, Reservation, ActivationDecision, SignalState, PlanStatus,
  invalid, watch, armed, buy_now,
}
use market_brain.Ledger.Events.{event_of, empty_payload, plan_evaluated, buy_now_emitted, EventType}
use market_brain.Ledger.Store.{Store, append, save_plan, save_alert}
use market_brain.Engines.Liquidity.{dedupe, is_source, is_keyless_source}
use market_brain.Engines.Activation.{bare}
use market_brain.Service.Action.{Config}
use market_brain.Service.Wallet.{open_positions}
use market_brain.Service.Capacity.{release_reservation}

-- The arguments of the method, and the random identifier of the alert.
pub record Sample (F : Type 0) : Type 0 where
  pub snapshot : MarketSnapshot F
  pub liquidity_reasons : List String
  pub retest_valid : Bool
  pub retest_reasons : List String
  pub alert_id : String

abbrev pub is_buy : SignalState → Bool
is_buy buy_now = true
is_buy _ = false

module _ {F : Type 0} ⦃num : Double F⦄ where
  abbrev pub unknown_plan : String → ActivationDecision F
  unknown_plan plan_id = record {
    plan_id = plan_id;
    symbol = "UNKNOWN";
    state = invalid;
    reasons = "PLAN_NOT_FOUND" ∷ [];
    quantity = 0;
    entry = none;
    stop = none;
    tp1 = none;
    tp2 = none;
  }

  abbrev pub answer : String → TradePlan F → SignalState → List String → ActivationDecision F
  answer plan_id plan state reasons = record (bare plan state reasons) { plan_id = plan_id }

  -- an event whose payload has nothing that a rebuilding reads
  abbrev pub log_note : EventType → String → Instant → Store F → Store F
  log_note event_type id now s = append (event_of event_type id empty_payload now) s

  -- `_queue_alert`
  abbrev pub queue_alert : String → String → String → Instant → Store F → Store F
  queue_alert kind alert_id subject now s =
      save_alert
        (record {
          kind = kind;
          alert_id = alert_id;
          subject = subject;
          created_at = now;
          delivered_at = none;
          attempts = 0;
          last_error = none;
          next_attempt_at = none;
        })
        s

  -- `_order_ticket` needs all three levels
  abbrev pub has_levels : TradePlan F → Bool
  has_levels plan = is_some plan.stop && (is_some plan.tp1 && is_some plan.tp2)

  abbrev pub common_reasons : Sample F → List String
  common_reasons x = dedupe (x.liquidity_reasons ++ x.retest_reasons)

  -- an expired plan
  abbrev pub on_expired : String → TradePlan F → Instant → Store F → ActivationDecision F × Store F
  on_expired plan_id plan now s =
      let t = (release_reservation plan_id "PLAN_EXPIRED" now s).1 in
      (
        answer plan_id plan SignalState.expired ("PLAN_EXPIRED" ∷ []),
        save_plan (record plan { status = PlanStatus.expired }) t,
      )

  abbrev pub is_at_limit : Config F → String → Store F → Bool
  is_at_limit cfg plan_id s =
      leb cfg.max_concurrent_positions (length (open_positions s))
      && not (any (λ row. str_eq row.plan_id plan_id) (open_positions s))

  abbrev pub on_limit : String → TradePlan F → Instant → Store F → ActivationDecision F × Store F
  on_limit plan_id plan now s = (
    answer plan_id plan watch ("MAX_CONCURRENT_POSITIONS_REACHED" ∷ []),
    (release_reservation plan_id "MAX_CONCURRENT_POSITIONS_REACHED" now s).1,
  )

  -- a source that has to be authoritative and is not
  abbrev pub is_untrusted : MarketSnapshot F → Bool
  is_untrusted x =
      (is_source "ALPACA_IEX" x.source_id || is_keyless_source x.source_id) && not x.authoritative

  -- a decision that repeats a reservation which still stands
  abbrev pub repeated : String → TradePlan F → Reservation F → List String → ActivationDecision F
  repeated plan_id plan held reasons = record {
    plan_id = plan_id;
    symbol = plan.symbol;
    state = buy_now;
    reasons = dedupe ("EXISTING_CAPACITY_RESERVATION" ∷ reasons);
    quantity = held.quantity;
    entry = some plan.entry_trigger;
    stop = plan.stop;
    tp1 = plan.tp1;
    tp2 = plan.tp2;
  }

  abbrev pub on_held :
      String
      → TradePlan F
      → Reservation F
      → Sample F
      → Instant
      → Store F
      → Result (ActivationDecision F × Store F)
  on_held plan_id plan held x now s =
      if not x.retest_valid || is_untrusted x.snapshot
      then ok (
        record (repeated plan_id plan held []) {
          state = armed;
          reasons = common_reasons x;
          quantity = 0;
        },
        log_note plan_evaluated plan_id now s,
      )
      else if has_levels plan
      then ok (
        repeated plan_id plan held (common_reasons x),
        log_note buy_now_emitted plan_id now
            (log_note plan_evaluated plan_id now (queue_alert "BUY_NOW" x.alert_id plan_id now s)),
      )
      else err "PLAN_PROTECTION_LEVELS_MISSING"
