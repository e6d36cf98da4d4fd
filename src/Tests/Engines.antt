-- ===== src/Tests/Engines.antt =====
-- The theorems on engines/ at concrete inputs.
use market_brain.Prelude.{
  ◌≡◌, ◌↔◌, ◌⊎◌, refl, ◌&&◌, true, false, none, some, List, [], ◌∷◌, is_some, ltb, leb,
}
use market_brain.Prelude.Lists.{length}
use market_brain.Prelude.Result.{ok}
use market_brain.Number.{
  pos, Cents, cents_double, Cents-IsOrdered, Cents-IsMonotone, ◌≼◌, ◌≺◌, ◌≤?◌, ◌<?◌, ◌⊖◌, zero_f,
  max_f,
}
use market_brain.Domain.{
  ActivationDecision, core_momentum, event_momentum, StrategyLane, buy_now, hold,
}
use market_brain.Engines.Wallet.{
  SizeResult, size_from_wallet, size_on_terms, fit_quantity, sizing_terms,
}
use market_brain.Engines.Wallet.Capacity.{FitsWithin, budget_left, size_from_wallet-FitsWithin}
use market_brain.Engines.Activation.{activate_plan, activation_reasons}
use market_brain.Engines.Activation.Signal.{IsEntry, activate_plan-IsEntry}
use market_brain.Engines.Plan.{Structure, build_trade_plan, check_structure, plan_levels, issued}
use market_brain.Engines.Plan.Prices.{IsPriced, build_trade_plan-IsPriced}
use market_brain.Engines.Quality.{lane_risk_multiplier, classify_quality}
use market_brain.Engines.Quality.Multiplier.{lane_risk_multiplier-range}
use market_brain.Engines.Position.{evaluate_position, on_levels, validate_stop_change}
use market_brain.Engines.Position.Priority.{
  IsInOrder, Levels, evaluate_position-IsInOrder, validate_stop_change_iff,
}
use market_brain.Engines.Volatility.{
  volatility_gate_reason, target_atr_budget_reason, apply_volatility_context, profile_atr,
  wilder_atr,
}
use market_brain.Engines.Volatility.Gate.{IsUsed, apply_volatility_context-IsUsed}
use market_brain.Engines.Volatility.Wilder.{all_good, wilder_atr-is_some}
use market_brain.Engines.Liquidity.{
  apply_iex_liquidity_gate, iex_reasons, dedupe, is_keyless_source,
}
use market_brain.Engines.Liquidity.Authority.{IsLiquid, apply_iex_liquidity_gate-IsLiquid}
use market_brain.Tests.Data.{
  usd, settings, plan, snapshot, profile, quality, score, limits, wallet, position,
}

-- what the wallet allows of the plan
abbrev allowed_size : SizeResult Cents
allowed_size = record {
  allowed = true;
  quantity = 20;
  risk_dollars = usd 100;
  cash_required = usd 2020;
  reasons = [];
}

size_from_wallet-FitsWithin_example :
    (entry : Cents) × (risk : Cents) × (sizing_terms plan none ≡ ok (entry, risk))
    × ((wallet.capital_base ≤? zero_f) ≡ false)
    × ((wallet.cash_available ≤? zero_f) ≡ false)
    × ((entry ≤? zero_f) ≡ false)
    × ((risk ≤? zero_f) ≡ false)
    × ((budget_left wallet (usd 3) ≤? zero_f) ≡ false)
    × FitsWithin wallet plan entry risk (usd 1) (usd 3) (usd 50) allowed_size
unfolding size_from_wallet size_on_terms fit_quantity
size_from_wallet-FitsWithin_example =
    size_from_wallet-FitsWithin settings wallet plan none none none none {size = allowed_size} refl
      refl

abbrev entry : ActivationDecision Cents
entry = record {
  plan_id = "p1";
  symbol = "ACME";
  state = buy_now;
  reasons = [];
  quantity = 20;
  entry = some (usd 100);
  stop = some (usd 95);
  tp1 = some (usd 110);
  tp2 = some (usd 120);
}

activate_plan-IsEntry_example :
    IsEntry settings plan snapshot wallet true true none none none none none 0 entry
unfolding activate_plan activation_reasons size_from_wallet size_on_terms fit_quantity dedupe
    is_keyless_source
activate_plan-IsEntry_example =
    activate_plan-IsEntry settings plan snapshot wallet true true none none none none none 0
      {d = entry} refl refl

evaluate_position-IsInOrder_example :
    (order : IsInOrder position (usd 101) 1_000_000_000 10) × Levels hold
      (usd 101)
      order.tp1
      order.tp2
unfolding evaluate_position on_levels
evaluate_position-IsInOrder_example =
    evaluate_position-IsInOrder position (usd 101) false false 1_000_000_000 10 refl

validate_stop_change_iff_example : (validate_stop_change position (usd 96) ≡ ok tt) ↔ (
    (stop : Cents) × (tp1 : Cents) × (position.stop ≡ some stop)
    × (position.tp1 ≡ some tp1)
    × ((usd 96 <? stop) ≡ false)
    × ((tp1 ≤? usd 96) ≡ false))
validate_stop_change_iff_example = validate_stop_change_iff position (usd 96)

lane_risk_multiplier-range_example :
    let m = lane_risk_multiplier event_momentum (classify_quality "ACME" (usd 90) 0) (usd 1) true in
    (usd 0 ≼ m)
    × (m ≼ usd 1)
    × ((StrategyLane.event_momentum ≡ core_momentum) ⊎ (m ≼ some (pos 50)))
lane_risk_multiplier-range_example =
    lane_risk_multiplier-range Cents-IsOrdered event_momentum "ACME" (usd 90) 0 (usd 1) true

apply_volatility_context-IsUsed_example :
    let left = (apply_volatility_context snapshot (some profile)).remaining_atr in
    ((left ≡ none)
      × ((atr prior : Cents)
          → profile_atr (some profile) ≡ some atr
          → snapshot.prior_close ≡ some prior
          → (zero_f <? atr && zero_f <? prior && zero_f <? snapshot.last) ≡ false))
    ⊎ ((atr : Cents) × (prior : Cents) × (used : Cents) × (rest : Cents) × (left ≡ some rest)
        × (profile_atr (some profile) ≡ some atr)
        × (snapshot.prior_close ≡ some prior)
        × (zero_f ≺ atr)
        × (zero_f ≺ prior)
        × (zero_f ≺ snapshot.last)
        × IsUsed snapshot prior used
        × (rest ≡ max_f zero_f (atr ⊖ used))
        × (zero_f ≼ rest))
apply_volatility_context-IsUsed_example =
    apply_volatility_context-IsUsed Cents-IsOrdered snapshot (some profile)

abbrev rows : List (Cents × Cents × Cents)
rows = (usd 102, usd 98, usd 100) ∷ (usd 104, usd 99, usd 103) ∷ []

wilder_atr-is_some_example :
    is_some (wilder_atr 2 ((usd 101, usd 96, usd 99) ∷ rows))
    ≡ (ltb 0 2 && (leb 2 (length rows) && all_good rows))
wilder_atr-is_some_example = wilder_atr-is_some 2 (usd 101, usd 96, usd 99) rows

apply_iex_liquidity_gate-IsLiquid_example : IsLiquid snapshot (some profile) settings
unfolding apply_iex_liquidity_gate iex_reasons
apply_iex_liquidity_gate-IsLiquid_example =
    apply_iex_liquidity_gate-IsLiquid snapshot (some profile) settings refl refl

abbrev structure : Structure Cents
structure = record { entry = usd 100; range_low = usd 96; stop = usd 95 }

abbrev multiplier : Cents
multiplier = usd 1

build_trade_plan-IsPriced_example :
    IsPriced snapshot limits 0
      (usd 100)
      (usd 95)
      (issued snapshot quality core_momentum limits structure multiplier "p1" "h" 0)
unfolding build_trade_plan check_structure plan_levels target_atr_budget_reason
    volatility_gate_reason lane_risk_multiplier
build_trade_plan-IsPriced_example =
    build_trade_plan-IsPriced Cents-IsOrdered Cents-IsMonotone snapshot score quality core_momentum
      limits "p1" "h" 0 {entry = usd 100} {stop = usd 95}
      {plan = issued snapshot quality core_momentum limits structure multiplier "p1" "h" 0} refl
      refl refl refl refl
