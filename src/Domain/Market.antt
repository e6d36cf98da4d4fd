-- ===== src/Domain/Market.antt =====
-- Market data, features, scores and quality of domain/models.py.
use market_brain.Prelude.{Bool, String, Option, List}
use market_brain.Domain.Enums.{Instant}

pub record QualityProfile (F : Type 0) : Type 0 where
  pub symbol : String
  pub score : F
  pub tier : String
  pub risk_multiplier : F
  pub as_of : Instant

pub record LiquidityProfile (F : Type 0) : Type 0 where
  pub symbol : String
  pub adv20 : F
  pub close : F
  pub as_of : Instant
  pub refreshed_at : Instant
  pub atr14 : Option F
  pub atr14_pct : Option F
  pub high_52w : Option F

-- The keys of `metadata` that the engines read.
pub record Metadata (F : Type 0) : Type 0 where
  pub independence_group : Option String
  -- `none` where the value is missing or `float` refuses it
  pub last_bar_high : Option F
  pub last_bar_low : Option F
  pub price_cross_check : Option String

pub record MarketSnapshot (F : Type 0) : Type 0 where
  pub symbol : String
  pub last : F
  pub prior_close : Option F
  pub bid : Option F
  pub ask : Option F
  pub volume : Option F
  pub avg_volume : Option F
  pub vwap : Option F
  pub open_price : Option F
  pub high : Option F
  pub low : Option F
  pub opening_range_high : Option F
  pub opening_range_low : Option F
  pub retest_low : Option F
  pub atr14 : Option F
  pub atr14_pct : Option F
  pub remaining_atr : Option F
  pub remaining_atr_pct : Option F
  pub sector_return_pct : Option F
  pub benchmark_return_pct : Option F
  pub catalyst_verified : Bool
  pub catalyst_strength : F
  pub data_age_seconds : Option F
  pub source_id : Option String
  pub delay_minutes : Option F
  pub fetched_at : Option Instant
  pub authoritative : Bool
  pub halted : Bool
  pub metadata : Metadata F

pub record FeatureVector (F : Type 0) : Type 0 where
  pub symbol : String
  pub price_return_pct : Option F
  pub gap_pct : Option F
  pub relative_volume : Option F
  pub spread_pct : Option F
  pub distance_from_vwap_pct : Option F
  pub relative_strength_pct : Option F
  pub catalyst_strength : F
  pub liquidity_ok : Bool
  pub atr14_pct : Option F
  pub remaining_atr_pct : Option F

pub record ScoreCard (F : Type 0) : Type 0 where
  pub symbol : String
  pub catalyst_or_continuation : F
  pub price_momentum : F
  pub volume_liquidity : F
  pub relative_strength_sector : F
  pub entry_invalidation_structure : F
  pub risk_reward : F
  pub total : F
  pub discovery_total : F
  pub reasons : List String
