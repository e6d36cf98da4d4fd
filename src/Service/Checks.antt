-- ===== src/Service/Checks.antt =====
-- The arguments and the refusals of `confirm_fill` of orchestration/service.py.
use market_brain.Prelude.{
  ℕ, ◌+◌, String, Bool, not, ◌&&◌, ◌||◌, Option, none, some, if◌then◌else◌, leb, ltb, is_some,
  str_eq,
}
use market_brain.Prelude.Lists.{first}
use market_brain.Prelude.Result.{Result, ok, ◌>>=◌, ◌>>◌, raise_if, or_raise}
use market_brain.Number.{Double, ◌⊕◌, ◌⊖◌, ◌⊗◌, ◌⊘◌, ◌<?◌, zero_f}
use market_brain.Domain.{
  Instant, WalletState, TradePlan, Reservation, PositionState, is_filled, is_reserved,
}
use market_brain.Ledger.Store.{Store, get_plan, get_reservation}
use market_brain.Service.Action.{Config}
use market_brain.Service.Wallet.{open_positions}
use market_brain.Service.Exit.{epsilon, risk_of}

-- The arguments of `confirm_fill`, and the random identifier of a new position.
pub record Fill (F : Type 0) : Type 0 where
  pub plan_id : String
  pub fill_price : F
  pub quantity : ℕ
  pub time_stop_minutes : ℕ
  pub stop_order_placed : Bool
  pub stop_order_price : Option F
  pub broker_order_ref : Option String
  pub position_id : String

module _ {F : Type 0} ⦃num : Double F⦄ where
  -- `plan.entry_zone_high * (1.0 + plan.max_slippage_pct / 100.0)`
  abbrev pub max_fill : TradePlan F → F
  max_fill plan = plan.entry_zone_high ⊗ (num.lit 10 1 ⊕ plan.max_slippage_pct ⊘ num.lit 100 0)

  abbrev pub find_existing : String → Store F → Option (PositionState F)
  find_existing plan_id s = first (λ row. str_eq row.plan_id plan_id) (open_positions s)

  abbrev pub existing_stop : Option (PositionState F) → Option F
  existing_stop none = none
  existing_stop (some row) = row.stop

  -- the refusals of a broker stop
  abbrev pub check_stop : F → Option F → Option F → Result (Unit {0})
  check_stop min_stop current none = ok tt
  check_stop min_stop none (some price) =
      raise_if (price <? min_stop ⊖ epsilon) "STOP_LOOSER_THAN_PLAN"
  check_stop min_stop (some current) (some price) =
      raise_if (price <? current ⊖ epsilon) "STOP_LOOSER_THAN_CURRENT"
      >> raise_if (price <? min_stop ⊖ epsilon) "STOP_LOOSER_THAN_PLAN"

  -- `plan.stop * (1.0 - cfg.stop_tolerance_pct / 100.0)`
  abbrev pub loosest_stop : Config F → F → F
  loosest_stop cfg plan_stop = plan_stop ⊗ (num.lit 10 1 ⊖ cfg.stop_tolerance_pct ⊘ num.lit 100 0)

  -- the reservation that the fill draws on, from the second read of the plan on
  unfoldable pub check_reservation :
      Fill F → Instant → Store F → Result (TradePlan F × WalletState F × Reservation F)
  check_reservation fill now s = do
    plan ← or_raise (get_plan fill.plan_id s) "FILL_CONFIRMATION_CONTEXT_MISSING"
    wallet ← or_raise s.wallet "FILL_CONFIRMATION_CONTEXT_MISSING"
    raise_if (is_filled plan.status) "PLAN_ALREADY_FILLED"
    reservation ← or_raise (get_reservation fill.plan_id s) "FILL_CONFIRMATION_CONTEXT_MISSING"
    raise_if (not (is_reserved plan.status)) "PLAN_NOT_RESERVED"
    raise_if (ltb reservation.expires_at now) "RESERVATION_EXPIRED"
    raise_if (leb fill.quantity 0 || ltb reservation.quantity fill.quantity)
        "QUANTITY_EXCEEDS_RESERVATION"
    ok (plan, wallet, reservation)

  -- the price, the stop's arguments and the cash; the plan's stop is returned
  unfoldable pub check_price : Fill F → TradePlan F → WalletState F → Reservation F → Result F
  check_price fill plan wallet reservation = do
    raise_if (fill.fill_price <? plan.entry_trigger || max_fill plan <? fill.fill_price)
        "FILL_OUTSIDE_PLAN"
    plan_stop ← or_raise plan.stop "PLAN_STOP_MISSING"
    raise_if (fill.stop_order_placed && not (is_some fill.stop_order_price))
        "STOP_ORDER_PRICE_REQUIRED"
    raise_if (not fill.stop_order_placed && is_some fill.stop_order_price)
        "STOP_ORDER_PRICE_WITHOUT_PLACEMENT"
    let cash = fill.fill_price ⊗ num.of_int fill.quantity
    raise_if (wallet.cash_available ⊕ epsilon <? cash) "FILL_EXCEEDS_CASH_AVAILABLE"
    raise_if (reservation.reserved_cash ⊕ epsilon <? cash) "FILL_EXCEEDS_RESERVATION_CASH"
    ok plan_stop

  abbrev pub prior_quantity : Option (PositionState F) → ℕ
  prior_quantity none = 0
  prior_quantity (some row) = row.quantity

  abbrev pub prior_value : Option (PositionState F) → F
  prior_value none = zero_f
  prior_value (some row) = row.average_fill ⊗ num.of_int row.quantity

  -- `entry_avg`
  abbrev pub entry_average : Fill F → Option (PositionState F) → F
  entry_average fill existing =
      (prior_value existing ⊕ fill.fill_price ⊗ num.of_int fill.quantity)
      ⊘ num.of_int (prior_quantity existing + fill.quantity)

  -- the broker's stop where one is placed, else the current stop, else the plan's
  abbrev pub effective_stop : Fill F → Option (PositionState F) → F → Option F
  effective_stop fill existing plan_stop =
      if fill.stop_order_placed
      then fill.stop_order_price
      else elim (existing_stop existing) [ none ↦ some plan_stop | some stop ↦ some stop ]

  -- `allowed_total_risk`
  abbrev pub allowed_risk : Config F → TradePlan F → WalletState F → F
  allowed_risk cfg plan wallet =
      wallet.capital_base
      ⊗ cfg.max_trade_risk_pct
      ⊘ num.lit 100 0
      ⊗ plan.quality_risk_multiplier
      ⊗ (num.lit 10 1 ⊕ cfg.fill_risk_tolerance)

  -- the limits on the position that the fill makes; the stop is returned
  unfoldable pub check_limits :
      Config F → Fill F → TradePlan F → WalletState F → Option (PositionState F) → F → ℕ → Result F
  check_limits cfg fill plan wallet existing plan_stop open_count = do
    raise_if (not (is_some existing) && leb cfg.max_concurrent_positions open_count)
        "MAX_CONCURRENT_POSITIONS_REACHED"
    check_stop (loosest_stop cfg plan_stop) (existing_stop existing) fill.stop_order_price
    let total = prior_quantity existing + fill.quantity
    let average = entry_average fill existing
    raise_if
        (wallet.capital_base ⊗ cfg.max_position_notional_pct ⊘ num.lit 100 0 ⊕ epsilon
          <? average ⊗ num.of_int total)
        "POSITION_NOTIONAL_LIMIT_EXCEEDED"
    stop ← or_raise (effective_stop fill existing plan_stop) "AssertionError"
    raise_if (allowed_risk cfg plan wallet ⊕ epsilon <? risk_of average stop total)
        "FILL_RISK_EXCEEDS_TOLERANCE"
    ok stop
