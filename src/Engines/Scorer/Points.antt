-- ===== src/Engines/Scorer/Points.antt =====
-- The bounds of the score of engines/quality_scorer.py.
use market_brain.Prelude.{
  ℕ, ◌+◌, ◌*◌, ◌≤◌, ◌≡◌, ◌↔◌, refl, String, Bool, true, false, not, ◌&&◌, ◌||◌, Option, none, some,
  List, [], ◌∷◌, ◌++◌, arith, is_some,
}
use market_brain.Number.{Double, ◌<?◌, zero_f}
use market_brain.Domain.{Instant}
use market_brain.Engines.Scorer.{
  Figures, metrics_of, higher_points, lower_points, higher_is_better, lower_is_better, graded,
  points_of, minus_tenth, is_nonempty, missing_if, total_of, missing_of, build_quality_score,
  penalty_of,
}

abbrev count : Bool → ℕ
count true = 1
count false = 0

is_nonempty-append :
    (xs ys : List String) → is_nonempty (xs ++ ys) ≡ (is_nonempty xs || is_nonempty ys)
is_nonempty-append [] ys = refl
is_nonempty-append (x ∷ xs) ys = refl

total_of-le :
    (points penalty : ℕ) → (total_of points penalty ≤ points) × (total_of points penalty ≤ 100)
total_of-le points penalty = (ground arith, ground arith)

module _ {F : Type 0} ⦃num : Double F⦄ where
  higher_is_better-le :
      (x : Option F) (a b c d e : F)
      → higher_is_better x (graded a b c d e) ≤ 25 * count (is_some x)
  unfolding higher_is_better higher_points
  higher_is_better-le none a b c d e = omega arith
  higher_is_better-le (some x) a b c d e = ground arith

  lower_is_better-le :
      (x : Option F) (a b c d e : F) → lower_is_better x (graded a b c d e) ≤ 25 * count (is_some x)
  unfolding lower_is_better lower_points
  lower_is_better-le none a b c d e = omega arith
  lower_is_better-le (some x) a b c d e = ground arith

  is_nonempty-missing_if :
      (x : Option F) (name : String) → is_nonempty (missing_if x name) ≡ not (is_some x)
  is_nonempty-missing_if none name = refl
  is_nonempty-missing_if (some x) name = refl

  -- how many of the four graded figures are there
  abbrev pub known : Figures F → ℕ
  known f =
      count (is_some f.revenue_growth)
      + count (is_some f.operating_margin)
      + count (is_some f.leverage)
      + count (is_some f.fcf_margin)

  abbrev pub is_complete : Figures F → Bool
  is_complete f =
      is_some f.revenue_growth
      && (is_some f.operating_margin
          && (is_some f.leverage
              && (is_some f.fcf_margin && (is_some f.dilution && is_some f.ttm_net_income))))

  points_of-le : (f : Figures F) → points_of (metrics_of f) ≤ 25 * known f
  unfolding points_of metrics_of
  points_of-le f = omega (
    arith,
    higher_is_better-le f.revenue_growth (num.lit 20 2) (num.lit 10 2) (num.lit 5 2) zero_f
        minus_tenth,
    higher_is_better-le f.operating_margin (num.lit 25 2) (num.lit 15 2) (num.lit 10 2)
        (num.lit 5 2) zero_f,
    lower_is_better-le f.leverage zero_f (num.lit 1 0) (num.lit 2 0) (num.lit 3 0) (num.lit 4 0),
    higher_is_better-le f.fcf_margin (num.lit 20 2) (num.lit 15 2) (num.lit 10 2) (num.lit 5 2)
        zero_f,
  )

  is_partial-is_complete :
      (f : Figures F)
      → is_nonempty (
          missing_of (metrics_of f)
          ++ (missing_if f.dilution "dilution_yoy" ++ missing_if f.ttm_net_income "ttm_net_income"))
        ≡ not (is_complete f)
  unfolding missing_of metrics_of
  is_partial-is_complete f =
      let rest =
        missing_if f.dilution "dilution_yoy" ++ missing_if f.ttm_net_income "ttm_net_income" in
      let r4 = missing_if f.fcf_margin "fcf_margin" ++ [] in
      let r3 = missing_if f.leverage "leverage" ++ r4 in
      let r2 = missing_if f.operating_margin "operating_margin" ++ r3 in
      let r1 = missing_if f.revenue_growth "revenue_growth_yoy" ++ r2 in
      ground (
        arith,
        is_nonempty-append r1 rest,
        is_nonempty-append (missing_if f.revenue_growth "revenue_growth_yoy") r2,
        is_nonempty-append (missing_if f.operating_margin "operating_margin") r3,
        is_nonempty-append (missing_if f.leverage "leverage") r4,
        is_nonempty-append (missing_if f.fcf_margin "fcf_margin") [],
        is_nonempty-append (missing_if f.dilution "dilution_yoy")
            (missing_if f.ttm_net_income "ttm_net_income"),
        is_nonempty-missing_if f.revenue_growth "revenue_growth_yoy",
        is_nonempty-missing_if f.operating_margin "operating_margin",
        is_nonempty-missing_if f.leverage "leverage",
        is_nonempty-missing_if f.fcf_margin "fcf_margin",
        is_nonempty-missing_if f.dilution "dilution_yoy",
        is_nonempty-missing_if f.ttm_net_income "ttm_net_income",
      )

  -- The quality score is at most 25 for each of the four graded figures that is known, so at most 100;
  -- the score is partial exactly where one of the four, the dilution or the income is missing; and
  -- the test of profitability passes exactly where the income is known and positive.
  pub build_quality_score-known :
      (upper : String → String) (symbol : String) (as_of : Instant) (source : String)
      (f : Figures F)
      → let score = build_quality_score upper symbol as_of source f in
        (score.quality_score ≤ 25 * known f)
        × (score.quality_score ≤ 100)
        × (score.is_partial ≡ not (is_complete f))
        × ((score.profitability_pass ≡ some true)
            ↔ ((income : F) × (f.ttm_net_income ≡ some income) × ((zero_f <? income) ≡ true)))
  unfolding build_quality_score missing_of metrics_of
  build_quality_score-known upper symbol as_of source f = (
    omega (arith, total_of-le (points_of (metrics_of f)) (penalty_of f.dilution), points_of-le f),
    (total_of-le (points_of (metrics_of f)) (penalty_of f.dilution)).1,
    is_partial-is_complete f,
    (passes f.ttm_net_income, λ p. ground arith),
  )
    where
      passes :
          (income : Option F)
          → elim income [ none ↦ none | some x ↦ some (zero_f <? x) ] ≡ some true
          → (x : F) × (income ≡ some x) × ((zero_f <? x) ≡ true)
      passes none h = absurd (cc)
      passes (some x) h = (x, refl, cc)
