-- ===== src/Engines/Quality/Multiplier.antt =====
-- The range of the risk multiplier of engines/quality.py.
use market_brain.Prelude.{String, Bool, ◌≡◌, ◌⊎◌, inl, refl, arith}
use market_brain.Number.{Double, zero_f, max_f, min_f, IsOrdered, ◌≼◌}
use market_brain.Domain.{Instant, StrategyLane, core_momentum, event_momentum, speculative}
use market_brain.Engines.Quality.{tier_of, classify_quality, lane_risk_multiplier}

module _ {F : Type 0} ⦃num : Double F⦄ (laws : IsOrdered F) where
  open laws use {le_of_lt, le_trans, lit_mono}

  tier_of-range : (b : F) → (num.lit 0 2 ≼ (tier_of b).1) × ((tier_of b).1 ≼ num.lit 100 2)
  unfolding tier_of
  tier_of-range b = ground (
    arith,
    lit_mono 0 0 2,
    lit_mono 0 50 2,
    lit_mono 0 75 2,
    lit_mono 0 100 2,
    lit_mono 50 100 2,
    lit_mono 75 100 2,
    lit_mono 100 100 2,
  )

  -- `min(0.5, max(0.25, m))`, also where m is NaN
  event-range :
      (m : F)
      → let x = min_f (num.lit 50 2) (max_f (num.lit 25 2) m) in
        (num.lit 0 2 ≼ x) × (x ≼ num.lit 100 2) × (x ≼ num.lit 50 2)
  event-range m =
      let raised = max_f (num.lit 25 2) m in
      ground (
        arith,
        le_of_lt (num.lit 25 2) m,
        le_of_lt raised (num.lit 50 2),
        le_trans (num.lit 0 2) (num.lit 25 2) m,
        le_trans raised (num.lit 50 2) (num.lit 100 2),
        lit_mono 0 25 2,
        lit_mono 0 50 2,
        lit_mono 50 50 2,
        lit_mono 50 100 2,
      )

  pub literals :
      (num.lit 0 2 ≼ num.lit 0 2)
      × (num.lit 0 2 ≼ num.lit 25 2)
      × (num.lit 0 2 ≼ num.lit 50 2)
      × (num.lit 0 2 ≼ num.lit 100 2)
      × (num.lit 25 2 ≼ num.lit 50 2)
      × (num.lit 25 2 ≼ num.lit 100 2)
  literals = ground (
    arith,
    lit_mono 0 0 2,
    lit_mono 0 25 2,
    lit_mono 0 50 2,
    lit_mono 0 100 2,
    lit_mono 25 50 2,
    lit_mono 25 100 2,
  )

  -- With the laws of comparison, the multiplier of a classified symbol lies between 0 and 1 in every
  -- lane, and outside the core lane it is at most one half.
  pub lane_risk_multiplier-range :
      (lane : StrategyLane) (symbol : String) (score : F) (as_of : Instant) (strength : F)
      (enabled : Bool)
      → let m = lane_risk_multiplier lane (classify_quality symbol score as_of) strength enabled in
        (num.lit 0 2 ≼ m) × (m ≼ num.lit 100 2) × ((lane ≡ core_momentum) ⊎ (m ≼ num.lit 50 2))
  unfolding lane_risk_multiplier classify_quality
  lane_risk_multiplier-range core_momentum symbol score as_of strength enabled =
      let (low, high) = tier_of-range (max_f zero_f (min_f (num.lit 100 0) score)) in
      (low, high, inl refl)
  lane_risk_multiplier-range event_momentum symbol score as_of strength enabled =
      let m = (tier_of (max_f zero_f (min_f (num.lit 100 0) score))).1 in
      ground (arith, event-range m, literals)
  lane_risk_multiplier-range speculative symbol score as_of strength enabled =
      ground (arith, literals)
