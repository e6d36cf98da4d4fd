-- ===== src/Engines/Quality.antt =====
-- engines/quality.py: the tier of a quality score and the risk multiplier of a lane.
pub mod Multiplier
use market_brain.Prelude.{String, Bool, true, false, ◌||◌, ◌&&◌, if◌then◌else◌}
use market_brain.Number.{Double, ◌<?◌, ◌≤?◌, zero_f, max_f, min_f}
use market_brain.Domain.{
  Instant, StrategyLane, core_momentum, event_momentum, speculative, QualityProfile,
}

module _ {F : Type 0} ⦃num : Double F⦄ where
  -- the four tiers
  pub tier_of : F → String × F
  tier_of bounded =
      if num.lit 80 0 ≤? bounded
      then ("A", num.lit 100 2)
      else if num.lit 65 0 ≤? bounded
      then ("B", num.lit 75 2)
      else if num.lit 50 0 ≤? bounded
      then ("C", num.lit 50 2)
      else ("D", num.lit 0 2)

  pub classify_quality : String → F → Instant → QualityProfile F
  unfolding tier_of
  classify_quality symbol score as_of =
      let bounded = max_f zero_f (min_f (num.lit 100 0) score) in
      record {
        symbol = symbol;
        score = bounded;
        tier = (tier_of bounded).0;
        risk_multiplier = (tier_of bounded).1;
        as_of = as_of;
      }

  unfoldable pub lane_risk_multiplier : StrategyLane → QualityProfile F → F → Bool → F
  lane_risk_multiplier core_momentum profile catalyst_strength speculative_enabled =
      profile.risk_multiplier
  lane_risk_multiplier event_momentum profile catalyst_strength speculative_enabled =
      if catalyst_strength <? num.lit 8 1 || profile.score <? num.lit 35 0
      then num.lit 0 2
      else min_f (num.lit 50 2) (max_f (num.lit 25 2) profile.risk_multiplier)
  lane_risk_multiplier speculative profile catalyst_strength speculative_enabled =
      if speculative_enabled && (num.lit 35 0 ≤? profile.score) then num.lit 25 2 else num.lit 0 2
