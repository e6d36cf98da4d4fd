-- ===== src/Service/Issue/Issued.antt =====
-- The plans of `build_plan` in orchestration/service.py.
use market_brain.Prelude.{◌≡◌, ◌∙◌, refl, String, some, [], ◌∷◌, ◌++◌}
use market_brain.Prelude.Dict.{lookup, lookup-insert_own}
use market_brain.Prelude.Result.{ok, >>=-eq-ok}
use market_brain.Number.{Double}
use market_brain.Domain.{Instant, MarketSnapshot, QualityProfile, StrategyLane, TradePlan}
use market_brain.Ledger.Events.{event_of, empty_payload, plan_issued}
use market_brain.Ledger.Store.{Store}
use market_brain.Engines.Features.{compute_features}
use market_brain.Engines.Ranking.{score_features}
use market_brain.Engines.Plan.{Structure, build_trade_plan, issued, catalyst_of}
use market_brain.Engines.Quality.{lane_risk_multiplier}
use market_brain.Engines.Plan.Levels.{IsPlannable, build_trade_plan-IsPlannable}
use market_brain.Service.Action.{Config}
use market_brain.Service.Trigger.{issue_plan}
use market_brain.Service.Issue.{build_plan, limits_of}

module _ {F : Type 0} ⦃num : Double F⦄ (cfg : Config F) (snapshot : MarketSnapshot F)
    (quality : QualityProfile F) (lane : StrategyLane) (structure_score rr_score : F)
    (plan_id evidence_hash : String) (now : Instant) (s : Store F) where
  -- A plan that is returned meets every condition of a plan with the score of the sample's own
  -- features, it is the one that the store then has under its identifier, and the ledger has gained
  -- one event that carries it.
  pub build_plan-IsPlannable :
      {plan : TradePlan F} {t : Store F}
      → build_plan cfg snapshot quality lane structure_score rr_score plan_id evidence_hash now s
        ≡ ok (plan, t)
      → (st : Structure F) × (let multiplier =
            lane_risk_multiplier lane quality
              (catalyst_of snapshot)
              cfg.strategy_speculative_enabled in
          let score = score_features (compute_features snapshot) structure_score rr_score in
          IsPlannable snapshot score quality lane
            (limits_of cfg)
            plan_id
            evidence_hash
            now
            st
            multiplier
          × (plan
              ≡ issued snapshot quality lane
                  (limits_of cfg)
                  st
                  multiplier
                  plan_id
                  evidence_hash
                  now))
        × (lookup plan.plan_id t.plans ≡ some plan)
        × (t.events
            ≡ s.events
              ++ event_of plan_issued plan.plan_id
                  (record empty_payload { plan = some plan })
                  plan.created_at
                ∷ [])
  unfolding build_plan
  build_plan-IsPlannable {plan} {t} e =
      let score = score_features (compute_features snapshot) structure_score rr_score in
      let (built, b, rest) =
        >>=-eq-ok
          (build_trade_plan snapshot score quality lane (limits_of cfg) plan_id evidence_hash now) _
          e in
      let same : plan ≡ built = cc in
      let stored : t ≡ issue_plan plan s = cc in
      let (st, (plannable, is)) =
        build_trade_plan-IsPlannable snapshot score quality lane (limits_of cfg) plan_id
          evidence_hash now b in
      (
        st,
        (plannable, same ∙ is),
        rw stored (lookup-insert_own plan.plan_id plan s.plans),
        rw stored refl,
      )
