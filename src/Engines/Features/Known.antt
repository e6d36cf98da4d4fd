-- ===== src/Engines/Features/Known.antt =====
-- The bounds of the features of engines/features.py.
use market_brain.Prelude.{◌≡◌, true, false, some, if◌then◌else◌, arith, Option-cases, inl, inr}
use market_brain.Number.{
  Double, ◌⊖◌, ◌⊗◌, ◌⊘◌, zero_f, max_f, min_f, IsOrdered, ◌≼◌, ◌≺◌, zero_refl,
}
use market_brain.Domain.{MarketSnapshot}
use market_brain.Engines.Liquidity.{is_keyless_source}
use market_brain.Engines.Features.{compute_features, spread_of}

module _ {F : Type 0} ⦃num : Double F⦄ where
  -- A sample of a live feed has good liquidity only with both sides of a book that is not crossed,
  -- a positive price, and a spread of at most a quarter of a percent of it.
  pub compute_features-is_tight :
      (snapshot : MarketSnapshot F)
      → is_keyless_source snapshot.source_id ≡ false
      → (compute_features snapshot).liquidity_ok ≡ true
      → (bid : F) × (ask : F) × (snapshot.bid ≡ some bid)
        × (snapshot.ask ≡ some ask)
        × (zero_f ≺ snapshot.last)
        × (bid ≼ ask)
        × ((ask ⊖ bid) ⊘ snapshot.last ⊗ num.lit 100 0 ≼ num.lit 25 2)
  unfolding compute_features spread_of
  compute_features-is_tight snapshot live good = elim (Option-cases snapshot.bid) [
    | inl e ↦ absurd (ground arith)
    | inr (bid, e1) ↦ elim (Option-cases snapshot.ask) [
      | inl e ↦ absurd (ground arith)
      | inr (ask, e2) ↦ (bid, ask, e1, e2, ground arith, ground arith, ground arith)
    ]
  ]

module _ {F : Type 0} ⦃num : Double F⦄ (laws : IsOrdered F) where
  open laws use {le_of_lt, lit_mono}

  unit-IsWithin :
      (x : F)
      → (zero_f ≼ max_f zero_f (min_f (num.lit 1 0) x))
        × (max_f zero_f (min_f (num.lit 1 0) x) ≼ num.lit 1 0)
  unit-IsWithin x = ground (
    arith,
    zero_refl laws,
    lit_mono 0 1 0,
    lit_mono 1 1 0,
    le_of_lt x (num.lit 1 0),
    le_of_lt zero_f x,
    le_of_lt zero_f (num.lit 1 0),
  )

  pub compute_features-catalyst :
      (snapshot : MarketSnapshot F)
      → let strength = (compute_features snapshot).catalyst_strength in
        (zero_f ≼ strength) × (strength ≼ num.lit 1 0)
  unfolding compute_features
  compute_features-catalyst snapshot =
      unit-IsWithin (if snapshot.catalyst_verified then snapshot.catalyst_strength else zero_f)
