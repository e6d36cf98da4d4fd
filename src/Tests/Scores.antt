-- ===== src/Tests/Scores.antt =====
-- The theorems on scores, consensus, screening and the plans of build_plan at concrete inputs.
use market_brain.Prelude.{◌*◌, ◌≡◌, ◌↔◌, ◌≤◌, refl, true, not, none, some, [], ◌∷◌, ◌++◌}
use market_brain.Prelude.Lists.{All, length}
use market_brain.Prelude.Dict.{lookup}
use market_brain.Prelude.Sorting.{Ordered}
use market_brain.Number.{Cents, cents_double, Cents-IsOrdered, Cents-IsMonotone, ◌<?◌, zero_f}
use market_brain.Domain.{TradePlan, core_momentum}
use market_brain.Ledger.Events.{event_of, empty_payload, plan_issued}
use market_brain.Ledger.Store.{empty_store}
use market_brain.Engines.Features.{compute_features}
use market_brain.Engines.Features.Known.{compute_features-catalyst}
use market_brain.Engines.Ranking.{score_features}
use market_brain.Engines.Ranking.Range.{IsWithin, score_features-IsWithin}
use market_brain.Engines.Consensus.{resolve_market_authority}
use market_brain.Engines.Consensus.Agreed.{IsAnswer, resolve_market_authority-IsAnswer}
use market_brain.Engines.Scorer.{Figures, build_quality_score}
use market_brain.Engines.Scorer.Points.{known, is_complete, build_quality_score-known}
use market_brain.Engines.Plan.{Structure, issued, catalyst_of, check_structure, plan_levels}
use market_brain.Engines.Volatility.{volatility_gate_reason, target_atr_budget_reason}
use market_brain.Engines.Plan.Levels.{IsPlannable}
use market_brain.Engines.Quality.{lane_risk_multiplier}
use market_brain.Engines.Intraday.Bars.{Zone}
use market_brain.Selection.Screener.{screen}
use market_brain.Selection.Screener.Ranked.{PassesFirst, IsJudged, screen-PassesFirst}
use market_brain.Service.Trigger.{issue_plan}
use market_brain.Service.Issue.{build_plan, limits_of}
use market_brain.Service.Issue.Issued.{build_plan-IsPlannable}
use market_brain.Tests.Data.{usd, config, snapshot, profile, quality}

score_features-IsWithin_example :
    let score = score_features (compute_features snapshot) (usd 15) (usd 12) in
    IsWithin 20 score.catalyst_or_continuation
    × IsWithin 20 score.price_momentum
    × IsWithin 20 score.volume_liquidity
    × IsWithin 15 score.relative_strength_sector
    × IsWithin 15 score.entry_invalidation_structure
    × IsWithin 10 score.risk_reward
    × IsWithin 100 score.total
    × IsWithin 100 score.discovery_total
score_features-IsWithin_example =
    score_features-IsWithin Cents-IsOrdered Cents-IsMonotone (compute_features snapshot)
      (compute_features-catalyst Cents-IsOrdered snapshot) (usd 15) (usd 12)

resolve_market_authority-IsAnswer_example :
    IsAnswer
      (usd 15)
      (snapshot ∷ snapshot ∷ [])
      (usd 20)
      2
      (resolve_market_authority (snapshot ∷ snapshot ∷ []) (usd 15) (usd 20) 2)
resolve_market_authority-IsAnswer_example =
    resolve_market_authority-IsAnswer (usd 15) (usd 20) 2 (snapshot ∷ snapshot ∷ [])

abbrev figures : Figures Cents
figures = record {
  revenue_growth = some (usd 1);
  operating_margin = some (usd 0);
  leverage = none;
  fcf_margin = some (usd 1);
  dilution = some (usd 0);
  ttm_net_income = some (usd 7);
  growth_date = some 9;
  operating_date = some 9;
  leverage_date = none;
  fcf_date = some 9;
}

build_quality_score-known_example :
    let score = build_quality_score (λ text. text) "ACME" 0 "EDGAR_AUTO" figures in
    (score.quality_score ≤ 25 * known figures)
    × (score.quality_score ≤ 100)
    × (score.is_partial ≡ not (is_complete figures))
    × ((score.profitability_pass ≡ some true)
        ↔ ((income : Cents) × (figures.ttm_net_income ≡ some income) × ((zero_f <? income) ≡ true)))
build_quality_score-known_example =
    build_quality_score-known (λ text. text) "ACME" 0 "EDGAR_AUTO" figures

abbrev clock : Zone
clock = record {
  date_of = λ at. "day";
  time_of_day = λ at. at;
  opens_at = λ date. 0;
  closes_at = λ date. 1;
}

screen-PassesFirst_example :
    let rows =
      screen clock
        (λ text. text)
        (some 36_000_000_000)
        1
        (usd 1)
        (usd 5)
        (usd 5)
        (profile ∷ [])
        (snapshot ∷ snapshot ∷ []) in
    (length rows ≤ 1) × Ordered PassesFirst rows × All (IsJudged (usd 1)) rows
screen-PassesFirst_example =
    screen-PassesFirst clock (λ text. text) (some 36_000_000_000) 1 (usd 1) (usd 5) (usd 5)
      (profile ∷ []) (snapshot ∷ snapshot ∷ [])

abbrev structure : Structure Cents
structure = record { entry = usd 100; range_low = usd 96; stop = usd 95 }

abbrev made : TradePlan Cents
made = issued snapshot quality core_momentum (limits_of config) structure (usd 1) "p1" "h" 0

build_plan-IsPlannable_example :
    (st : Structure Cents) × (let multiplier =
        lane_risk_multiplier core_momentum quality
          (catalyst_of snapshot)
          config.strategy_speculative_enabled in
      let score = score_features (compute_features snapshot) (usd 15) (usd 10) in
      IsPlannable snapshot score quality core_momentum (limits_of config) "p1" "h" 0 st multiplier
      × (made ≡ issued snapshot quality core_momentum (limits_of config) st multiplier "p1" "h" 0))
    × (lookup "p1" (issue_plan made empty_store).plans ≡ some made)
    × ((issue_plan made empty_store).events
        ≡ [] ++ event_of plan_issued "p1" (record empty_payload { plan = some made }) 0 ∷ [])
unfolding build_plan check_structure plan_levels volatility_gate_reason target_atr_budget_reason
    lane_risk_multiplier
build_plan-IsPlannable_example =
    build_plan-IsPlannable config snapshot quality core_momentum (usd 15) (usd 10) "p1" "h" 0
      empty_store {plan = made} {t = issue_plan made empty_store} refl
