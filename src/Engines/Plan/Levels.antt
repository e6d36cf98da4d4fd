-- ===== src/Engines/Plan/Levels.antt =====
-- What an issued plan of engines/plan.py says.
use market_brain.Prelude.{◌≡◌, String, false, none, some, arith, inl, inr}
use market_brain.Prelude.Result.{ok, Result-cases}
use market_brain.Number.{Double, ◌⊖◌, ◌<?◌, ◌≤?◌, zero_f}
use market_brain.Domain.{
  Instant, MarketSnapshot, ScoreCard, QualityProfile, TradePlan, StrategyLane,
}
use market_brain.Engines.Quality.{lane_risk_multiplier}
use market_brain.Engines.Volatility.{volatility_gate_reason, target_atr_budget_reason}
use market_brain.Engines.Plan.{
  PlanLimits, Structure, percent, structure_of, check_structure, catalyst_of, zone_high, target,
  issued, plan_levels, build_trade_plan,
}

module _ {F : Type 0} ⦃num : Double F⦄ where
  structure_of-lines :
      (s : MarketSnapshot F) {st : Structure F}
      → structure_of s ≡ ok st
      → (s.opening_range_high ≡ some st.entry)
        × (s.opening_range_low ≡ some st.range_low)
        × (s.retest_low ≡ some st.stop)
  structure_of-lines s e = ground arith

  check_structure-tests :
      (limits : PlanLimits F) (st : Structure F) {u : Unit {0}}
      → check_structure limits st ≡ ok u
      → ((st.entry ≤? zero_f) ≡ false)
        × ((percent (st.entry ⊖ st.range_low) st.entry <? limits.min_opening_range_pct) ≡ false)
        × ((st.entry ≤? st.stop) ≡ false)
        × ((st.entry ⊖ st.stop ≤? zero_f) ≡ false)
        × ((percent (st.entry ⊖ st.stop) st.entry <? limits.min_risk_pct) ≡ false)
  unfolding check_structure
  check_structure-tests limits st e = ground arith

  plan_levels-tests :
      (s : MarketSnapshot F) (limits : PlanLimits F) (st : Structure F) (multiplier : F)
      {u : Unit {0}}
      → plan_levels s limits st multiplier ≡ ok u
      → ((multiplier ≤? zero_f) ≡ false)
        × (target_atr_budget_reason s (target st (num.lit 15 1)) limits.atr_target_budget_multiplier
            ≡ none)
        × ((target st (num.lit 15 1) ≤? zone_high st) ≡ false)
  unfolding plan_levels
  plan_levels-tests s limits st multiplier e = ground arith

module _ {F : Type 0} ⦃num : Double F⦄ (s : MarketSnapshot F) (score : ScoreCard F)
    (quality : QualityProfile F) (lane : StrategyLane) (limits : PlanLimits F)
    (plan_id evidence_hash : String) (now : Instant) where
  -- the conditions of a plan, on the structure that it was built from
  pub record IsPlannable (st : Structure F) (multiplier : F) : Type 0 where
    pub trading : s.halted ≡ false
    pub score_reached : (score.total <? num.lit 65 0) ≡ false
    pub volatile : volatility_gate_reason s limits.min_atr_pct ≡ none
    pub high_line : s.opening_range_high ≡ some st.entry
    pub low_line : s.opening_range_low ≡ some st.range_low
    pub stop_line : s.retest_low ≡ some st.stop
    pub entry_positive : (st.entry ≤? zero_f) ≡ false
    pub wide_enough :
        (percent (st.entry ⊖ st.range_low) st.entry <? limits.min_opening_range_pct) ≡ false
    pub stop_below : (st.entry ≤? st.stop) ≡ false
    pub risk_positive : (st.entry ⊖ st.stop ≤? zero_f) ≡ false
    pub risk_enough : (percent (st.entry ⊖ st.stop) st.entry <? limits.min_risk_pct) ≡ false
    pub lane_open : (multiplier ≤? zero_f) ≡ false
    pub in_budget :
        target_atr_budget_reason s (target st (num.lit 15 1)) limits.atr_target_budget_multiplier
        ≡ none
    pub target_above : (target st (num.lit 15 1) ≤? zone_high st) ≡ false

  -- A plan is issued only where every condition holds, and it is then the plan of the structure.
  pub build_trade_plan-IsPlannable :
      {plan : TradePlan F}
      → build_trade_plan s score quality lane limits plan_id evidence_hash now ≡ ok plan
      → (st : Structure F) × let multiplier =
            lane_risk_multiplier lane quality (catalyst_of s) limits.speculative_enabled in
          IsPlannable st multiplier
          × (plan ≡ issued s quality lane limits st multiplier plan_id evidence_hash now)
  unfolding build_trade_plan
  build_trade_plan-IsPlannable {plan} e = elim (Result-cases (structure_of s)) [
    | inr (t, failed) ↦ absurd (ground arith)
    | inl (st, known) ↦
        let m = lane_risk_multiplier lane quality (catalyst_of s) limits.speculative_enabled in
        elim (Result-cases (check_structure limits st)) [
          | inr (t, failed) ↦ absurd (ground arith)
          | inl (u, checked) ↦ elim (Result-cases (plan_levels s limits st m)) [
            | inr (t, failed) ↦ absurd (ground arith)
            | inl (v, levels) ↦
                let (high, low, stop) = structure_of-lines s known in
                let (pos, wide, below, risk, enough) = check_structure-tests limits st checked in
                let (lane_ok, budget, above) = plan_levels-tests s limits st m levels in
                (
                  st,
                  (
                    record {
                      trading = ground arith;
                      score_reached = ground arith;
                      volatile = ground arith;
                      high_line = high;
                      low_line = low;
                      stop_line = stop;
                      entry_positive = pos;
                      wide_enough = wide;
                      stop_below = below;
                      risk_positive = risk;
                      risk_enough = enough;
                      lane_open = lane_ok;
                      in_budget = budget;
                      target_above = above;
                    },
                    ground arith,
                  ),
                )
          ]
        ]
  ]
