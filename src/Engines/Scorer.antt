-- ===== src/Engines/Scorer.antt =====
-- engines/quality_scorer.py: a quality score from the published figures of a company. The reading of
-- the figures out of the JSON of EDGAR is left out.
pub mod Trend
pub mod Points
use market_brain.Prelude.{
  ℕ, ◌+◌, ◌-◌, String, Bool, true, false, Option, none, some, List, [], ◌∷◌, ◌++◌, if◌then◌else◌,
  ltb,
}
use market_brain.Number.{Double, ◌⊕◌, ◌⊖◌, ◌<?◌, ◌≤?◌, zero_f}
use market_brain.Domain.{Instant}
use market_brain.Engines.Scorer.Trend.{
  Series, yoy_growth, annual_yoy_growth, trailing_sum, trailing_margin, latest_ratio,
  yahoo_leverage, date_of, common_date, or_date,
}

pub record MetricScore (F : Type 0) : Type 0 where
  pub name : String
  pub value : Option F
  pub points : ℕ
  pub facts_as_of : Option ℕ

pub record QualityScore (F : Type 0) : Type 0 where
  pub symbol : String
  pub quality_score : ℕ
  pub as_of : Instant
  pub source : String
  pub is_partial : Bool
  pub ttm_net_income : Option F
  pub profitability_pass : Option Bool
  pub metrics : List (MetricScore F)
  pub dilution_penalty : ℕ
  pub missing_metrics : List String

-- the figures that a score is built from
pub record Figures (F : Type 0) : Type 0 where
  pub revenue_growth : Option F
  pub operating_margin : Option F
  pub leverage : Option F
  pub fcf_margin : Option F
  pub dilution : Option F
  pub ttm_net_income : Option F
  pub growth_date : Option ℕ
  pub operating_date : Option ℕ
  pub leverage_date : Option ℕ
  pub fcf_date : Option ℕ

-- The series of a `YahooFundamentalsSnapshot` that are read.
pub record Fundamentals (F : Type 0) : Type 0 where
  pub symbol : String
  pub annual_revenue : Series F
  pub quarterly_revenue : Series F
  pub annual_operating : Series F
  pub quarterly_operating : Series F
  pub quarterly_net_income : Series F
  pub annual_debt : Series F
  pub annual_cash : Series F
  pub annual_fcf : Series F
  pub quarterly_fcf : Series F
  pub annual_shares : Series F
  pub quarterly_shares : Series F

abbrev pub is_nonempty : List String → Bool
is_nonempty [] = false
is_nonempty (_ ∷ _) = true

-- `max(0, min(100, points - penalty))`: a difference below zero is zero
abbrev pub total_of : ℕ → ℕ → ℕ
total_of points penalty = if ltb 100 (points - penalty) then 100 else points - penalty

module _ {F : Type 0} ⦃num : Double F⦄ where
  -- 1e-12
  abbrev pub tiny : F
  tiny = num.lit 1 12

  -- the loop over the thresholds with their points
  unfoldable pub higher_points : F → List (F × ℕ) → ℕ
  higher_points value [] = 0
  higher_points value ((threshold, points) ∷ rest) =
      if threshold ≤? value ⊕ tiny then points else higher_points value rest

  unfoldable pub lower_points : F → List (F × ℕ) → ℕ
  lower_points value [] = 0
  lower_points value ((threshold, points) ∷ rest) =
      if value ≤? threshold ⊕ tiny then points else lower_points value rest

  abbrev pub graded : F → F → F → F → F → List (F × ℕ)
  graded a b c d e = (a, 25) ∷ (b, 20) ∷ (c, 15) ∷ (d, 10) ∷ (e, 5) ∷ []

  unfoldable pub higher_is_better : Option F → List (F × ℕ) → ℕ
  unfolding higher_points
  higher_is_better none thresholds = 0
  higher_is_better (some value) thresholds = higher_points value thresholds

  unfoldable pub lower_is_better : Option F → List (F × ℕ) → ℕ
  unfolding lower_points
  lower_is_better none thresholds = 0
  lower_is_better (some value) thresholds = lower_points value thresholds

  unfoldable pub penalty_of : Option F → ℕ
  penalty_of none = 0
  penalty_of (some value) =
      if value ≤? zero_f
      then 0
      else if value ≤? num.lit 2 2 ⊕ tiny
      then 2
      else if value ≤? num.lit 5 2 ⊕ tiny
      then 5
      else if value ≤? num.lit 10 2 ⊕ tiny
      then 10
      else 15

  abbrev pub metric : String → Option F → ℕ → Option ℕ → MetricScore F
  metric name value points date = record {
    name = name;
    value = value;
    points = points;
    facts_as_of = date;
  }

  -- `-0.10`
  abbrev pub minus_tenth : F
  minus_tenth = zero_f ⊖ num.lit 10 2

  unfoldable pub metrics_of : Figures F → List (MetricScore F)
  unfolding higher_is_better lower_is_better
  metrics_of f =
      metric "revenue_growth_yoy" f.revenue_growth
        (higher_is_better f.revenue_growth
          (graded (num.lit 20 2) (num.lit 10 2) (num.lit 5 2) zero_f minus_tenth))
        f.growth_date
      ∷ metric "operating_margin" f.operating_margin
          (higher_is_better f.operating_margin
            (graded (num.lit 25 2) (num.lit 15 2) (num.lit 10 2) (num.lit 5 2) zero_f))
          f.operating_date
      ∷ metric "leverage" f.leverage
          (lower_is_better f.leverage
            (graded zero_f (num.lit 1 0) (num.lit 2 0) (num.lit 3 0) (num.lit 4 0)))
          f.leverage_date
      ∷ metric "fcf_margin" f.fcf_margin
          (higher_is_better f.fcf_margin
            (graded (num.lit 20 2) (num.lit 15 2) (num.lit 10 2) (num.lit 5 2) zero_f))
          f.fcf_date
      ∷ []

  abbrev pub missing_if : Option F → String → List String
  missing_if none name = name ∷ []
  missing_if (some _) name = []

  pub missing_of : List (MetricScore F) → List String
  missing_of [] = []
  missing_of (m ∷ metrics) = missing_if m.value m.name ++ missing_of metrics

  pub points_of : List (MetricScore F) → ℕ
  points_of [] = 0
  points_of (m ∷ metrics) = m.points + points_of metrics

  unfoldable pub build_quality_score :
      (String → String) → String → Instant → String → Figures F → QualityScore F
  unfolding metrics_of missing_of points_of penalty_of
  build_quality_score upper symbol as_of source f =
      let metrics = metrics_of f in
      let missing =
        missing_of metrics
        ++ (missing_if f.dilution "dilution_yoy" ++ missing_if f.ttm_net_income "ttm_net_income") in
      let penalty = penalty_of f.dilution in
      record {
        symbol = upper symbol;
        quality_score = total_of (points_of metrics) penalty;
        as_of = as_of;
        source = source;
        is_partial = is_nonempty missing;
        ttm_net_income = f.ttm_net_income;
        profitability_pass = elim f.ttm_net_income [
          | none ↦ none
          | some income ↦ some (zero_f <? income)
        ];
        metrics = metrics;
        dilution_penalty = penalty;
        missing_metrics = missing;
      }

  -- the first that is there
  abbrev pub or_else : Option F → Option F → Option F
  or_else none other = other
  or_else (some x) other = some x

  -- `score_yahoo_fundamentals`: the figures of the quarters, or of the years where they are too few
  unfoldable pub yahoo_figures : Fundamentals F → Figures F
  unfolding yoy_growth annual_yoy_growth trailing_sum trailing_margin latest_ratio yahoo_leverage
  yahoo_figures x =
      let growth = yoy_growth x.quarterly_revenue in
      let margin = trailing_margin x.quarterly_operating x.quarterly_revenue in
      let fcf = trailing_margin x.quarterly_fcf x.quarterly_revenue in
      let (leverage, leverage_date) =
        yahoo_leverage x.annual_debt x.annual_cash x.annual_operating in
      record {
        revenue_growth = or_else growth (annual_yoy_growth x.annual_revenue);
        operating_margin = or_else margin (latest_ratio x.annual_operating x.annual_revenue);
        leverage = leverage;
        fcf_margin = or_else fcf (latest_ratio x.annual_fcf x.annual_revenue);
        dilution = or_else (yoy_growth x.quarterly_shares) (annual_yoy_growth x.annual_shares);
        ttm_net_income = trailing_sum x.quarterly_net_income;
        growth_date = or_date growth (date_of x.quarterly_revenue) (date_of x.annual_revenue);
        operating_date =
            or_date margin (common_date x.quarterly_operating x.quarterly_revenue)
              (common_date x.annual_operating x.annual_revenue);
        leverage_date = leverage_date;
        fcf_date =
            or_date fcf (common_date x.quarterly_fcf x.quarterly_revenue)
              (common_date x.annual_fcf x.annual_revenue);
      }

  unfoldable pub score_yahoo_fundamentals :
      (String → String) → Fundamentals F → Instant → QualityScore F
  unfolding build_quality_score yahoo_figures
  score_yahoo_fundamentals upper x as_of =
      build_quality_score upper x.symbol as_of "YAHOO_FUNDAMENTALS" (yahoo_figures x)
