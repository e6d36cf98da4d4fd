-- ===== src/Service/Issue.antt =====
-- `build_plan` of orchestration/service.py.
pub mod Issued
use market_brain.Prelude.{String, if◌then◌else◌}
use market_brain.Prelude.Result.{Result, ok, err, ◌>>=◌}
use market_brain.Number.{Double}
use market_brain.Domain.{Instant, MarketSnapshot, QualityProfile, StrategyLane, TradePlan}
use market_brain.Ledger.Store.{Store}
use market_brain.Engines.Features.{compute_features}
use market_brain.Engines.Ranking.{score_features}
use market_brain.Engines.Plan.{PlanLimits, build_trade_plan}
use market_brain.Service.Action.{Action, Config}
use market_brain.Service.Trigger.{issue_plan}

module _ {F : Type 0} ⦃num : Double F⦄ where
  -- the keyword arguments that the settings give
  abbrev pub limits_of : Config F → PlanLimits F
  limits_of cfg = record {
    plan_ttl_seconds =
        if cfg.data_plan_keyless then cfg.keyless_plan_ttl_seconds else cfg.plan_ttl_seconds;
    min_risk_pct = cfg.min_risk_pct;
    min_opening_range_pct = cfg.min_opening_range_pct;
    min_atr_pct = cfg.min_atr_pct;
    atr_target_budget_multiplier = cfg.atr_target_budget_multiplier;
    speculative_enabled = cfg.strategy_speculative_enabled;
  }

  -- The features and the score that it returns beside the plan are those that it is built from.
  unfoldable pub build_plan :
      Config F
      → MarketSnapshot F
      → QualityProfile F
      → StrategyLane
      → F
      → F
      → (plan_id evidence_hash : String) → Instant
      → Action F (TradePlan F)
  unfolding compute_features score_features build_trade_plan
  build_plan cfg snapshot quality lane structure_score rr_score plan_id evidence_hash now s = do
    let score = score_features (compute_features snapshot) structure_score rr_score
    plan ← build_trade_plan snapshot score quality lane (limits_of cfg) plan_id evidence_hash now
    ok (plan, issue_plan plan s)
