-- ===== src/Engines/Plan.antt =====
-- engines/plan.py: a trade plan from a sample, a score and a quality.
pub mod Levels
pub mod Prices
use Prim.Native.String.{◌++◌ as join_text}
use market_brain.Prelude.{
  ℕ, ◌+◌, ◌*◌, String, Bool, true, false, Option, none, some, List, [], ◌∷◌, if◌then◌else◌,
}
use market_brain.Prelude.Result.{Result, ok, err, ◌>>=◌, ◌>>◌, raise_if, or_raise}
use market_brain.Number.{Double, ◌⊕◌, ◌⊖◌, ◌⊗◌, ◌⊘◌, ◌<?◌, ◌≤?◌, zero_f, min_f}
use market_brain.Domain.{
  Instant, second, MarketSnapshot, ScoreCard, QualityProfile, TradePlan, StrategyLane,
  core_momentum, event_momentum, speculative, active,
}
use market_brain.Engines.Quality.{lane_risk_multiplier}
use market_brain.Engines.Volatility.{volatility_gate_reason, target_atr_budget_reason}

-- `str(lane)`
abbrev pub lane_name : StrategyLane → String
lane_name core_momentum = "CORE_MOMENTUM"
lane_name event_momentum = "EVENT_MOMENTUM"
lane_name speculative = "SPECULATIVE"

-- `if reason is not None: raise PlanBuildError(reason)`
abbrev pub raise_reason : Option String → Result (Unit {0})
raise_reason none = ok tt
raise_reason (some reason) = err reason

abbrev pub source_ids_of : Option String → List String
source_ids_of none = []
source_ids_of (some source) = source ∷ []

-- the keyword arguments of `build_trade_plan`
pub record PlanLimits (F : Type 0) : Type 0 where
  pub plan_ttl_seconds : ℕ
  pub min_risk_pct : F
  pub min_opening_range_pct : F
  pub min_atr_pct : F
  pub atr_target_budget_multiplier : F
  pub speculative_enabled : Bool

-- What a plan is built from: the lines of the opening range and of the retest.
pub record Structure (F : Type 0) : Type 0 where
  pub entry : F
  pub range_low : F
  pub stop : F

module _ {F : Type 0} ⦃num : Double F⦄ where
  abbrev pub percent : F → F → F
  percent part whole = part ⊘ whole ⊗ num.lit 100 0

  abbrev pub structure_of : MarketSnapshot F → Result (Structure F)
  structure_of s = do
    entry ← or_raise s.opening_range_high "STRUCTURE_DATA_MISSING"
    low ← or_raise s.opening_range_low "STRUCTURE_DATA_MISSING"
    stop ← or_raise s.retest_low "STRUCTURE_DATA_MISSING"
    ok (record { entry = entry; range_low = low; stop = stop })

  -- the tests of the structure
  unfoldable pub check_structure : PlanLimits F → Structure F → Result (Unit {0})
  check_structure limits st = do
    raise_if (st.entry ≤? zero_f) "INVALID_STRUCTURE"
    raise_if (percent (st.entry ⊖ st.range_low) st.entry <? limits.min_opening_range_pct)
        "OPENING_RANGE_TOO_NARROW"
    raise_if (st.entry ≤? st.stop) "INVALID_STRUCTURE"
    raise_if (st.entry ⊖ st.stop ≤? zero_f) "INVALID_RISK"
    raise_if (percent (st.entry ⊖ st.stop) st.entry <? limits.min_risk_pct) "RISK_TOO_SMALL"

  abbrev pub catalyst_of : MarketSnapshot F → F
  catalyst_of s = if s.catalyst_verified then s.catalyst_strength else zero_f

  -- `extension`, `entry_zone_high`, `tp1` and `tp2`
  abbrev pub zone_high : Structure F → F
  zone_high st =
      num.round 4 (st.entry ⊕ min_f ((st.entry ⊖ st.stop) ⊗ num.lit 25 2) (st.entry ⊗ num.lit 3 3))

  abbrev pub target : Structure F → F → F
  target st multiple = num.round 4 (st.entry ⊕ (st.entry ⊖ st.stop) ⊗ multiple)

  abbrev pub issued :
      MarketSnapshot F
      → QualityProfile F
      → StrategyLane
      → PlanLimits F
      → Structure F
      → F
      → String
      → String
      → Instant
      → TradePlan F
  issued s quality lane limits st multiplier plan_id evidence_hash now = record {
    symbol = s.symbol;
    lane = lane;
    entry_trigger = num.round 4 st.entry;
    entry_zone_high = zone_high st;
    stop = some (num.round 4 st.stop);
    tp1 = some (target st (num.lit 15 1));
    tp2 = some (target st (num.lit 20 1));
    max_spread_pct = num.lit 25 2;
    max_slippage_pct = num.lit 30 2;
    created_at = now;
    expires_at = now + limits.plan_ttl_seconds * second;
    quality_risk_multiplier = multiplier;
    plan_id = plan_id;
    status = active;
    reasons = join_text "QUALITY_TIER_" quality.tier ∷ join_text "LANE_" (lane_name lane) ∷ [];
    evidence_hash = evidence_hash;
    source_ids = source_ids_of s.source_id;
    triggered_at = none;
  }

  -- from the multiplier on
  unfoldable pub plan_levels : MarketSnapshot F → PlanLimits F → Structure F → F → Result (Unit {0})
  plan_levels s limits st multiplier = do
    raise_if (multiplier ≤? zero_f) "QUALITY_OR_LANE_BLOCKED"
    raise_reason
        (target_atr_budget_reason s (target st (num.lit 15 1)) limits.atr_target_budget_multiplier)
    raise_if (target st (num.lit 15 1) ≤? zone_high st) "TARGET_BELOW_ENTRY"

  -- `uuid4` and the SHA-256 of the evidence are the arguments `plan_id` and `evidence_hash`.
  unfoldable pub build_trade_plan :
      MarketSnapshot F
      → ScoreCard F
      → QualityProfile F
      → StrategyLane
      → PlanLimits F
      → (plan_id evidence_hash : String) → Instant
      → Result (TradePlan F)
  build_trade_plan s score quality lane limits plan_id evidence_hash now = do
    raise_if s.halted "HALTED"
    raise_if (score.total <? num.lit 65 0) "SCORE_BELOW_PLAN_THRESHOLD"
    raise_reason (volatility_gate_reason s limits.min_atr_pct)
    st ← structure_of s
    check_structure limits st
    let multiplier = lane_risk_multiplier lane quality (catalyst_of s) limits.speculative_enabled
    plan_levels s limits st multiplier
    ok (issued s quality lane limits st multiplier plan_id evidence_hash now)
