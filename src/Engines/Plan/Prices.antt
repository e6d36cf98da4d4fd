-- ===== src/Engines/Plan/Prices.antt =====
-- The prices of an issued plan of engines/plan.py.
use mathlib.Core.Path.{ap₂}
use mathlib.Core.Option.{some_inj}
use market_brain.Prelude.{ap, sym, ◌∙◌, ◌≡◌, ◌+◌, ◌*◌, String, false, some, inl, inr}
use market_brain.Prelude.Result.{ok}
use market_brain.Number.{Double, ◌⊕◌, ◌⊖◌, ◌⊗◌, ◌≤?◌, min_f, IsOrdered, ◌≼◌}
use market_brain.Number.Monotone.{IsMonotone}
use market_brain.Domain.{
  Instant, second, MarketSnapshot, ScoreCard, QualityProfile, TradePlan, StrategyLane,
}
use market_brain.Engines.Plan.{PlanLimits, build_trade_plan}
use market_brain.Engines.Plan.Levels.{build_trade_plan-IsPlannable}

module _ {F : Type 0} ⦃num : Double F⦄ where
  -- the prices of a plan from the top of the opening range and the low of the retest, and its life
  pub record IsPriced (s : MarketSnapshot F) (limits : PlanLimits F) (now : Instant)
      (entry stop : F) (plan : TradePlan F) : Type 0 where
    pub symbol : plan.symbol ≡ s.symbol
    pub trigger : plan.entry_trigger ≡ num.round 4 entry
    pub zone :
        plan.entry_zone_high
        ≡ num.round 4 (entry ⊕ min_f ((entry ⊖ stop) ⊗ num.lit 25 2) (entry ⊗ num.lit 3 3))
    pub stop_price : plan.stop ≡ some (num.round 4 stop)
    pub first_target : plan.tp1 ≡ some (num.round 4 (entry ⊕ (entry ⊖ stop) ⊗ num.lit 15 1))
    pub second_target : plan.tp2 ≡ some (num.round 4 (entry ⊕ (entry ⊖ stop) ⊗ num.lit 20 1))
    pub deadline : plan.expires_at ≡ now + limits.plan_ttl_seconds * second
    pub stop_below : num.round 4 stop ≼ plan.entry_trigger
    pub risk_positive : (entry ⊖ stop ≤? num.lit 0 0) ≡ false
    pub target_above :
        (num.round 4 (entry ⊕ (entry ⊖ stop) ⊗ num.lit 15 1) ≤? plan.entry_zone_high) ≡ false

module _ {F : Type 0} ⦃num : Double F⦄ (laws : IsOrdered F) (mono : IsMonotone F) where
  -- With the laws of comparison and of rounding, where the top of the opening range and the low of the
  -- retest are numbers, a plan that is issued has its trigger at the top of the range and its stop at
  -- the low, both to four places, so the stop is not above the trigger; its targets are one and a half
  -- and two risks above the top, the risk being the top less the low; its entry zone ends a quarter
  -- of the risk or three thousandths of the top above it, whichever is less, and below the first
  -- target; and it lives as long as the limits say.
  pub build_trade_plan-IsPriced :
      (s : MarketSnapshot F) (score : ScoreCard F) (quality : QualityProfile F)
      (lane : StrategyLane) (limits : PlanLimits F) (plan_id evidence_hash : String) (now : Instant)
      {entry stop : F} {plan : TradePlan F}
      → s.opening_range_high ≡ some entry
      → s.retest_low ≡ some stop
      → entry ≼ entry
      → stop ≼ stop
      → build_trade_plan s score quality lane limits plan_id evidence_hash now ≡ ok plan
      → IsPriced s limits now entry stop plan
  build_trade_plan-IsPriced s score quality lane limits plan_id evidence_hash now {entry} {stop}
        {plan} high low n m made =
      let (st, (met, e)) =
        build_trade_plan-IsPlannable s score quality lane limits plan_id evidence_hash now made in
      let entry_is : st.entry ≡ entry = some_inj.0 (sym met.high_line ∙ high) in
      let stop_is : st.stop ≡ stop = some_inj.0 (sym met.stop_line ∙ low) in
      let trigger : plan.entry_trigger ≡ num.round 4 entry =
        ap (λ (q : TradePlan F). q.entry_trigger) e ∙ ap (num.round 4) entry_is in
      let below : (entry ≤? stop) ≡ false =
        ap₂ (λ x y. x ≤? y) (sym entry_is) (sym stop_is) ∙ met.stop_below in
      let zone : plan.entry_zone_high
          ≡ num.round 4 (entry ⊕ min_f ((entry ⊖ stop) ⊗ num.lit 25 2) (entry ⊗ num.lit 3 3)) =
        ap (λ (q : TradePlan F). q.entry_zone_high) e
        ∙ ap₂ (λ x y. num.round 4 (x ⊕ min_f ((x ⊖ y) ⊗ num.lit 25 2) (x ⊗ num.lit 3 3))) entry_is
            stop_is in
      record {
        symbol = ap (λ (q : TradePlan F). q.symbol) e;
        trigger = trigger;
        zone = zone;
        stop_price = ap (λ (q : TradePlan F). q.stop) e ∙ ap (λ x. some (num.round 4 x)) stop_is;
        first_target =
            ap (λ (q : TradePlan F). q.tp1) e
            ∙ ap₂ (λ x y. some (num.round 4 (x ⊕ (x ⊖ y) ⊗ num.lit 15 1))) entry_is stop_is;
        second_target =
            ap (λ (q : TradePlan F). q.tp2) e
            ∙ ap₂ (λ x y. some (num.round 4 (x ⊕ (x ⊖ y) ⊗ num.lit 20 1))) entry_is stop_is;
        deadline = ap (λ (q : TradePlan F). q.expires_at) e;
        stop_below =
            ap (λ x. num.round 4 stop ≤? x) trigger
            ∙ mono.round_mono 4 stop entry (elim (laws.lt_or_le stop entry m n) [
              | inl lt ↦ laws.le_of_lt stop entry lt
              | inr le ↦ absurd (cc)
            ]);
        risk_positive =
            ap₂ (λ x y. x ⊖ y ≤? num.lit 0 0) (sym entry_is) (sym stop_is) ∙ met.risk_positive;
        target_above =
            ap₂ (λ x y. x ≤? y)
              (ap₂ (λ x y. num.round 4 (x ⊕ (x ⊖ y) ⊗ num.lit 15 1)) (sym entry_is) (sym stop_is))
              (ap (λ (q : TradePlan F). q.entry_zone_high) e)
            ∙ met.target_above;
      }
