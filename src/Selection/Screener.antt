-- ===== src/Selection/Screener.antt =====
-- `MarketScreener.screen` of orchestration/screener.py. The snapshots are what the provider returned
-- and the profiles are those of the store.
pub mod Ranked
use market_brain.Prelude.{
  ℕ, zero, suc, String, Bool, true, false, not, ◌&&◌, ◌||◌, Option, none, some, List, [], ◌∷◌, ◌++◌,
  map, if◌then◌else◌, str_eq, is_some,
}
use market_brain.Prelude.Lists.{first}
use market_brain.Prelude.Dict.{Dict, lookup, insert}
use market_brain.Prelude.Sorting.{sort_by}
use market_brain.Number.{Double, ◌<?◌}
use market_brain.Domain.{Instant, MarketSnapshot, LiquidityProfile, FeatureVector, ScoreCard}
use market_brain.Engines.Features.{apply_ranking_context, compute_features, price_return_pct}
use market_brain.Engines.Ranking.{score_features}
use market_brain.Engines.Volatility.{apply_volatility_context, volatility_gate_reason}
use market_brain.Engines.Intraday.Bars.{Zone}

-- a row of the result, whose `gate_pass` says that there is no reason
pub record ScreenRow (F : Type 0) : Type 0 where
  pub snapshot : MarketSnapshot F
  pub features : FeatureVector F
  pub score : ScoreCard F
  pub reason : Option String

-- `rows[:top_n]`
pub take {ℓ} : {A : Type ℓ} → ℕ → List A → List A
take zero xs = []
take (suc n) [] = []
take (suc n) (x ∷ xs) = x ∷ take n xs

abbrev pub noted_reasons : Option String → List String
noted_reasons none = []
noted_reasons (some reason) = reason ∷ []

module _ {F : Type 0} ⦃num : Double F⦄ where
  -- `{profile.symbol.upper(): profile for profile in …}`
  unfoldable pub profiles_by_symbol :
      (String → String)
      → List (LiquidityProfile F)
      → Dict (LiquidityProfile F)
      → Dict (LiquidityProfile F)
  unfolding insert
  profiles_by_symbol upper [] profiles = profiles
  profiles_by_symbol upper (profile ∷ rest) profiles =
      profiles_by_symbol upper rest (insert (upper profile.symbol) profile profiles)

  -- the return of the first SPY
  unfoldable pub benchmark_return : (String → String) → List (MarketSnapshot F) → Option F
  unfolding first price_return_pct
  benchmark_return upper snapshots =
      elim (first (λ (s : MarketSnapshot F). str_eq (upper s.symbol) "SPY") snapshots) [
        | none ↦ none
        | some benchmark ↦ price_return_pct benchmark
      ]

  -- the sample with its context; without a time only that of the volatility
  abbrev pub in_context :
      Zone
      → Option Instant
      → Option F
      → Option (LiquidityProfile F)
      → MarketSnapshot F
      → MarketSnapshot F
  in_context zone none benchmark profile snapshot = apply_volatility_context snapshot profile
  in_context zone (some now) benchmark profile snapshot =
      apply_ranking_context snapshot profile benchmark zone now

  unfoldable pub screen_one :
      Zone
      → Option Instant
      → Option F
      → F
      → F
      → F
      → Option (LiquidityProfile F)
      → MarketSnapshot F
      → ScreenRow F
  unfolding volatility_gate_reason compute_features score_features
  screen_one zone now benchmark min_atr_pct structure_score rr_score profile snapshot =
      let placed = in_context zone now benchmark profile snapshot in
      let features = compute_features placed in
      let score = score_features features structure_score rr_score in
      let reason = volatility_gate_reason placed min_atr_pct in
      record {
        snapshot = placed;
        features = features;
        score = record score { reasons = score.reasons ++ noted_reasons reason };
        reason = reason;
      }

  abbrev pub gate_pass : ScreenRow F → Bool
  gate_pass row = not (is_some row.reason)

  -- the key of one row is less than that of another
  abbrev pub is_less : ScreenRow F → ScreenRow F → Bool
  is_less a b =
      not (gate_pass a) && gate_pass b
      || ((gate_pass a && gate_pass b || not (gate_pass a) && not (gate_pass b))
          && a.score.discovery_total <? b.score.discovery_total)

  -- `reverse=True`: a row stands before another unless its key is less
  abbrev pub stands_before : ScreenRow F → ScreenRow F → Bool
  stands_before a b = not (is_less a b)

  unfoldable pub screen_all :
      Zone
      → (String → String)
      → Option Instant
      → Option F
      → F
      → F
      → F
      → Dict (LiquidityProfile F)
      → List (MarketSnapshot F)
      → List (ScreenRow F)
  unfolding screen_one lookup
  screen_all zone upper now benchmark min_atr_pct structure_score rr_score profiles [] = []
  screen_all zone upper now benchmark min_atr_pct structure_score rr_score profiles
        (s ∷ snapshots) =
      screen_one zone now benchmark min_atr_pct structure_score rr_score
        (lookup (upper s.symbol) profiles) s
      ∷ screen_all zone upper now benchmark min_atr_pct structure_score rr_score profiles snapshots

  unfoldable pub screen :
      Zone
      → (String → String)
      → Option Instant
      → ℕ
      → F
      → F
      → F
      → List (LiquidityProfile F)
      → List (MarketSnapshot F)
      → List (ScreenRow F)
  unfolding screen_all benchmark_return profiles_by_symbol sort_by take
  screen zone upper now top_n min_atr_pct structure_score rr_score profiles snapshots = take top_n (
      sort_by stands_before (
        screen_all zone upper now (benchmark_return upper snapshots) min_atr_pct structure_score
          rr_score (profiles_by_symbol upper profiles []) snapshots))
