-- ===== src/Engines/Intraday/Merge.antt =====
-- `_merged_bars` of engines/intraday.py: one bar for each minute, in order.
pub mod Ascending
use Prim.Native.String.{compare as compare_text}
use text.Mathlib.Text.{find?, is_lt}
use market_brain.Prelude.{
  ℕ, ◌≡◌, ◌≤◌, ◌<◌, String, Bool, true, false, ◌||◌, ◌&&◌, Option, none, some, List, [], ◌∷◌,
  if◌then◌else◌, ltb, leb, ◌==◌, is_some, arith, refl, Bool-cases, inl, inr,
}
use market_brain.Domain.{Instant}
use market_brain.Engines.Intraday.Bars.{Bar, minute_of}

-- `2 if "SIP" in source else 1 if "IEX" in source else 0`
unfoldable pub source_rank : String → ℕ
source_rank source =
    if is_some (find? "SIP" source) then 2 else if is_some (find? "IEX" source) then 1 else 0

-- an entry of `selected` with its key
pub record Row (F : Type 0) : Type 0 where
  pub minute : Instant
  pub stamp : Instant
  pub rank : ℕ
  pub bar : Bar F

module _ {F : Type 0} where
  -- `_bar_stamp`
  abbrev pub bar_stamp : Bar F → Option Instant
  bar_stamp bar = elim bar.stamp [ none ↦ none | some parsed ↦ parsed ]

  abbrev pub row_of : Bar F → Instant → Row F
  row_of bar stamp = record {
    minute = minute_of stamp;
    stamp = stamp;
    rank = source_rank bar.source;
    bar = bar;
  }

  -- `candidate[:2] > existing[:2]`
  abbrev pub beats : Row F → Row F → Bool
  beats a b =
      ltb b.rank a.rank
      || (a.rank == b.rank && is_lt (compare_text b.bar.canonical a.bar.canonical))

  -- `selected[minute] = candidate`, where there is none or a worse one
  pub offer : Row F → List (Row F) → List (Row F)
  offer row [] = row ∷ []
  offer row (x ∷ xs) =
      if x.minute == row.minute then (if beats row x then row else x) ∷ xs else x ∷ offer row xs

  pub offer_all : List (Bar F) → List (Row F) → List (Row F)
  unfolding offer
  offer_all [] selected = selected
  offer_all (bar ∷ bars) selected =
      offer_all bars
        (elim (bar_stamp bar) [ none ↦ selected | some stamp ↦ offer (row_of bar stamp) selected ])

  -- `sorted(selected)`
  pub place : Row F → List (Row F) → List (Row F)
  place row [] = row ∷ []
  place row (x ∷ xs) = if leb row.minute x.minute then row ∷ x ∷ xs else x ∷ place row xs

  pub sort_rows : List (Row F) → List (Row F)
  unfolding place
  sort_rows [] = []
  sort_rows (x ∷ xs) = place x (sort_rows xs)

  unfoldable pub merged_bars : List (Bar F) → List (Row F)
  unfolding offer_all sort_rows
  merged_bars bars = sort_rows (offer_all bars [])
