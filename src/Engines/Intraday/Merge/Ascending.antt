-- ===== src/Engines/Intraday/Merge/Ascending.antt =====
-- The rows of `_merged_bars` in engines/intraday.py.
use market_brain.Prelude.{
  ◌⊎◌, ℕ, ◌≡◌, ◌≤◌, ◌<◌, false, Option, none, some, List, [], ◌∷◌, leb, ◌==◌, arith, refl,
  Bool-cases, inl, inr,
}
use market_brain.Prelude.Lists.{All}
use market_brain.Domain.{Instant}
use market_brain.Engines.Intraday.Bars.{Bar, minute_of}
use market_brain.Engines.Intraday.Merge.{
  Row, bar_stamp, row_of, offer, offer_all, place, sort_rows, merged_bars, source_rank,
}

module _ {F : Type 0} where
  -- no row has this minute
  abbrev Fresh : Instant → List (Row F) → Type 0
  Fresh m [] = Unit
  Fresh m (x ∷ xs) = ((x.minute == m) ≡ false) × Fresh m xs

  abbrev Distinct : List (Row F) → Type 0
  Distinct [] = Unit
  Distinct (x ∷ xs) = Fresh x.minute xs × Distinct xs

  offer-Fresh :
      (row : Row F) (m : Instant) (rows : List (Row F))
      → (row.minute == m) ≡ false
      → Fresh m rows
      → Fresh m (offer row rows)
  unfolding offer
  offer-Fresh row m [] e h = (e, tt)
  offer-Fresh row m (x ∷ xs) e h = ground (arith, offer-Fresh row m xs e h.1)

  offer-Distinct : (row : Row F) (rows : List (Row F)) → Distinct rows → Distinct (offer row rows)
  unfolding offer
  offer-Distinct row [] h = (tt, tt)
  offer-Distinct row (x ∷ xs) (f, h) = elim (Bool-cases (x.minute == row.minute)) [
    | inl same ↦ let e : x.minute ≡ row.minute = ground arith in ground arith
    | inr other ↦
        ground (arith, offer-Distinct row xs h, offer-Fresh row x.minute xs (ground arith) f)
  ]

  -- the minutes ascend, and none stands twice
  abbrev pub IsAscending : List (Row F) → Type 0
  IsAscending [] = Unit
  IsAscending (x ∷ xs) = All (λ (y : Row F). x.minute < y.minute) xs × IsAscending xs

  offer_all-Distinct :
      (bars : List (Bar F)) (rows : List (Row F)) → Distinct rows → Distinct (offer_all bars rows)
  unfolding offer_all
  offer_all-Distinct [] rows h = h
  offer_all-Distinct (bar ∷ bars) rows h = offer_all-Distinct bars _ (offered (bar_stamp bar))
    where
      offered :
          (stamp : Option Instant)
          → Distinct (elim stamp [ none ↦ rows | some at ↦ offer (row_of bar at) rows ])
      offered none = h
      offered (some at) = offer-Distinct (row_of bar at) rows h

  place-Above :
      (m : Instant) (row : Row F) (rows : List (Row F))
      → m < row.minute
      → All (λ (y : Row F). m < y.minute) rows
      → All (λ (y : Row F). m < y.minute) (place row rows)
  unfolding place
  place-Above m row [] h a = (h, tt)
  place-Above m row (x ∷ xs) h a = ground (arith, place-Above m row xs h a.1)

  Above_trans :
      (m n : Instant) (rows : List (Row F))
      → m < n
      → All (λ (y : Row F). n < y.minute) rows
      → All (λ (y : Row F). m < y.minute) rows
  Above_trans m n [] h a = tt
  Above_trans m n (x ∷ xs) h a = (omega arith, Above_trans m n xs h a.1)

  place-IsAscending :
      (row : Row F) (rows : List (Row F))
      → Fresh row.minute rows
      → IsAscending rows
      → IsAscending (place row rows)
  unfolding place
  place-IsAscending row [] f a = (tt, tt)
  place-IsAscending row (x ∷ xs) f a = elim (Bool-cases (leb row.minute x.minute)) [
    | inl first ↦ ground (arith, Above_trans row.minute x.minute xs)
    | inr later ↦
        ground
          (arith, place-IsAscending row xs f.1 a.1, place-Above x.minute row xs (ground arith) a.0)
  ]

  place-Fresh :
      (row : Row F) (m : Instant) (rows : List (Row F))
      → (row.minute == m) ≡ false
      → Fresh m rows
      → Fresh m (place row rows)
  unfolding place
  place-Fresh row m [] e h = (e, tt)
  place-Fresh row m (x ∷ xs) e h = ground (arith, place-Fresh row m xs e h.1)

  sort_rows-Fresh : (m : Instant) (rows : List (Row F)) → Fresh m rows → Fresh m (sort_rows rows)
  unfolding sort_rows
  sort_rows-Fresh m [] h = tt
  sort_rows-Fresh m (x ∷ xs) h = place-Fresh x m (sort_rows xs) h.0 (sort_rows-Fresh m xs h.1)

  sort_rows-IsAscending : (rows : List (Row F)) → Distinct rows → IsAscending (sort_rows rows)
  unfolding sort_rows
  sort_rows-IsAscending [] h = tt
  sort_rows-IsAscending (x ∷ xs) h =
      place-IsAscending x (sort_rows xs) (sort_rows-Fresh x.minute xs h.0)
        (sort_rows-IsAscending xs h.1)

  -- a row of this minute whose source is as good
  abbrev pub Covers : Instant → ℕ → List (Row F) → Type 0
  Covers m rank [] = ⊥
  Covers m rank (x ∷ xs) = ((x.minute ≡ m) × (rank ≤ x.rank)) ⊎ Covers m rank xs

  offer-Covers_own :
      (row : Row F) (rows : List (Row F)) → Covers row.minute row.rank (offer row rows)
  unfolding offer
  offer-Covers_own row [] = inl (refl, omega arith)
  offer-Covers_own row (x ∷ xs) = ground (arith, offer-Covers_own row xs)

  offer-Covers :
      (row : Row F) (m : Instant) (rank : ℕ) (rows : List (Row F))
      → Covers m rank rows
      → Covers m rank (offer row rows)
  unfolding offer
  offer-Covers row m rank [] c = elim c [ ]
  offer-Covers row m rank (x ∷ xs) c = ground (arith, offer-Covers row m rank xs)

  place-Covers :
      (row : Row F) (m : Instant) (rank : ℕ) (rows : List (Row F))
      → Covers m rank (row ∷ rows)
      → Covers m rank (place row rows)
  unfolding place
  place-Covers row m rank [] c = c
  place-Covers row m rank (x ∷ xs) c = ground (arith, place-Covers row m rank xs)

  sort_rows-Covers :
      (m : Instant) (rank : ℕ) (rows : List (Row F))
      → Covers m rank rows
      → Covers m rank (sort_rows rows)
  unfolding sort_rows
  sort_rows-Covers m rank [] c = elim c [ ]
  sort_rows-Covers m rank (x ∷ xs) (inl own) = place-Covers x m rank (sort_rows xs) (inl own)
  sort_rows-Covers m rank (x ∷ xs) (inr c) =
      place-Covers x m rank (sort_rows xs) (inr (sort_rows-Covers m rank xs c))

  offer_all-Covers :
      (bars : List (Bar F)) (m : Instant) (rank : ℕ) (rows : List (Row F))
      → Covers m rank rows
      → Covers m rank (offer_all bars rows)
  unfolding offer_all
  offer_all-Covers [] m rank rows c = c
  offer_all-Covers (bar ∷ bars) m rank rows c =
      offer_all-Covers bars m rank _ (kept (bar_stamp bar))
    where
      kept :
          (stamp : Option Instant)
          → Covers m rank (elim stamp [ none ↦ rows | some at ↦ offer (row_of bar at) rows ])
      kept none = c
      kept (some at) = offer-Covers (row_of bar at) m rank rows c

  -- a bar that parses is in the rows, or one of a source as good for its minute
  abbrev pub IsCovered : List (Row F) → Bar F → Type 0
  IsCovered rows bar = elim (bar_stamp bar) [
    | none ↦ Unit
    | some at ↦ Covers (minute_of at) (source_rank bar.source) rows
  ]

  offer_all-IsCovered :
      (bars : List (Bar F)) (rows : List (Row F)) → All (IsCovered (offer_all bars rows)) bars
  unfolding offer_all
  offer_all-IsCovered [] rows = tt
  offer_all-IsCovered (bar ∷ bars) rows = (covered (bar_stamp bar), offer_all-IsCovered bars _)
    where
      covered : (stamp : Option Instant) → elim stamp as (λ _. Type 0) [
        | none ↦ Unit
        | some at ↦
            Covers
              (minute_of at)
              (source_rank bar.source)
              (offer_all bars (elim stamp [ none ↦ rows | some at ↦ offer (row_of bar at) rows ]))
      ]
      covered none = tt
      covered (some at) =
          offer_all-Covers bars (minute_of at) (source_rank bar.source) _
            (offer-Covers_own (row_of bar at) rows)

  sorted-IsCovered :
      (rows : List (Row F)) (bars : List (Bar F))
      → All (IsCovered rows) bars
      → All (IsCovered (sort_rows rows)) bars
  sorted-IsCovered rows [] c = tt
  sorted-IsCovered rows (bar ∷ bars) c = (one (bar_stamp bar) c.0, sorted-IsCovered rows bars c.1)
    where
      one :
          (stamp : Option Instant)
          → elim stamp as (λ _. Type 0) [
            | none ↦ Unit
            | some at ↦ Covers (minute_of at) (source_rank bar.source) rows
          ]
          → elim stamp as (λ _. Type 0) [
            | none ↦ Unit
            | some at ↦ Covers (minute_of at) (source_rank bar.source) (sort_rows rows)
          ]
      one none c = tt
      one (some at) c = sort_rows-Covers (minute_of at) (source_rank bar.source) rows c

  -- The merged bars ascend by their minutes with one bar for each, and every bar that has a time is
  -- among them or has lost its minute to a bar of a source that ranks as high or higher.
  pub merged_bars-IsAscending :
      (bars : List (Bar F))
      → IsAscending (merged_bars bars) × All (IsCovered (merged_bars bars)) bars
  unfolding merged_bars
  merged_bars-IsAscending bars = (
    sort_rows-IsAscending (offer_all bars []) (offer_all-Distinct bars [] tt),
    sorted-IsCovered (offer_all bars []) bars (offer_all-IsCovered bars []),
  )
