-- ===== src/Selection/Screener/Ranked.antt =====
-- The order of the rows of orchestration/screener.py.
use market_brain.Prelude.{ℕ, zero, suc, ◌≤◌, ◌≡◌, refl, String, true, Option, List, [], ◌∷◌, arith}
use market_brain.Prelude.Lists.{All, length}
use market_brain.Prelude.Dict.{Dict}
use market_brain.Prelude.Sorting.{Ordered, sort_by, sort_by-All, sort_by-Ordered}
use market_brain.Number.{Double}
use market_brain.Domain.{Instant, MarketSnapshot, LiquidityProfile}
use market_brain.Engines.Volatility.{volatility_gate_reason}
use market_brain.Engines.Intraday.Bars.{Zone}
use market_brain.Engines.Features.{compute_features}
use market_brain.Selection.Screener.{
  ScreenRow, take, gate_pass, stands_before, screen_one, screen_all, screen, benchmark_return,
  profiles_by_symbol,
}

module _ {ℓ} {A : Type ℓ} where
  length-take : (n : ℕ) (xs : List A) → length (take n xs) ≤ n
  unfolding take
  length-take zero xs = omega arith
  length-take (suc n) [] = omega arith
  length-take (suc n) (x ∷ xs) = omega (arith, length-take n xs)

  take-All {κ} : (P : A → Type κ) (n : ℕ) (xs : List A) → All P xs → All P (take n xs)
  unfolding take
  take-All P zero xs h = tt
  take-All P (suc n) [] h = tt
  take-All P (suc n) (x ∷ xs) h = (h.0, take-All P n xs h.1)

  take-Ordered {κ} :
      (R : A → A → Type κ) (n : ℕ) (xs : List A) → Ordered R xs → Ordered R (take n xs)
  unfolding take
  take-Ordered R zero xs h = tt
  take-Ordered R (suc n) [] h = tt
  take-Ordered R (suc n) (x ∷ xs) h = (take-All (R x) n xs h.0, take-Ordered R n xs h.1)

module _ {F : Type 0} ⦃num : Double F⦄ where
  -- a row that passes the gate comes before one that does not
  abbrev pub PassesFirst : ScreenRow F → ScreenRow F → Type 0
  PassesFirst a b = gate_pass b ≡ true → gate_pass a ≡ true

  -- what a row says is what the engines say of its sample
  abbrev pub IsJudged : F → ScreenRow F → Type 0
  IsJudged min_atr_pct row =
      (row.reason ≡ volatility_gate_reason row.snapshot min_atr_pct)
      × (row.features ≡ compute_features row.snapshot)

  screen_all-IsJudged :
      (zone : Zone) (upper : String → String) (now : Option Instant) (benchmark : Option F)
      (min_atr_pct structure_score rr_score : F) (profiles : Dict (LiquidityProfile F))
      (snapshots : List (MarketSnapshot F))
      → All (IsJudged min_atr_pct) (
          screen_all zone upper now benchmark min_atr_pct structure_score rr_score profiles
            snapshots)
  unfolding screen_all screen_one
  screen_all-IsJudged zone upper now benchmark min_atr_pct structure rr profiles [] = tt
  screen_all-IsJudged zone upper now benchmark min_atr_pct structure rr profiles (s ∷ snapshots) = (
    (refl, refl),
    screen_all-IsJudged zone upper now benchmark min_atr_pct structure rr profiles snapshots,
  )

  -- A screen returns at most the number of rows that was asked for. Every row that passes the gate of
  -- the volatility stands before all that do not, and each row has the features of its sample and the
  -- answer of the gate to it.
  pub screen-PassesFirst :
      (zone : Zone) (upper : String → String) (now : Option Instant) (top_n : ℕ)
      (min_atr_pct structure_score rr_score : F) (profiles : List (LiquidityProfile F))
      (snapshots : List (MarketSnapshot F))
      → let rows =
          screen zone upper now top_n min_atr_pct structure_score rr_score profiles snapshots in
        (length rows ≤ top_n) × Ordered PassesFirst rows × All (IsJudged min_atr_pct) rows
  unfolding screen
  screen-PassesFirst zone upper now top_n min_atr_pct structure rr profiles snapshots =
      let rows =
        screen_all zone upper now (benchmark_return upper snapshots) min_atr_pct structure rr
          (profiles_by_symbol upper profiles []) snapshots in
      let sorted = sort_by stands_before rows in
      (
        length-take top_n sorted,
        take-Ordered PassesFirst top_n sorted (
            sort_by-Ordered stands_before PassesFirst (λ a b h p. ground arith)
              (λ a b h p. ground arith) (λ a b c h k p. h (k p)) rows),
        take-All (IsJudged min_atr_pct) top_n sorted (
            sort_by-All stands_before (IsJudged min_atr_pct) rows (
              screen_all-IsJudged zone upper now (benchmark_return upper snapshots) min_atr_pct
                structure rr (profiles_by_symbol upper profiles []) snapshots)),
      )
