-- ===== src/Engines/Scorer/Trend.antt =====
-- The series of engines/quality_scorer.py: growth, sums and margins over their last items. A series
-- is its items in the order of their days, and a day is a number.
use market_brain.Prelude.{
  ℕ, zero, suc, ◌-◌, Option, none, some, List, [], ◌∷◌, if◌then◌else◌, ltb, ◌==◌, max,
}
use market_brain.Prelude.Lists.{length}
use market_brain.Number.{Double, ◌⊕◌, ◌⊖◌, ◌⊘◌, ◌<?◌, ◌≤?◌, zero_f}

abbrev pub Series : Type 0 → Type 0
Series F = List (ℕ × F)

-- `xs[n:]` and `xs[:n]`
pub drop {ℓ} : {A : Type ℓ} → ℕ → List A → List A
drop zero xs = xs
drop (suc n) [] = []
drop (suc n) (x ∷ xs) = drop n xs

pub take {ℓ} : {A : Type ℓ} → ℕ → List A → List A
take zero xs = []
take (suc n) [] = []
take (suc n) (x ∷ xs) = x ∷ take n xs

-- `xs[-n:]`
abbrev pub last_n {ℓ} : {A : Type ℓ} → ℕ → List A → List A
last_n n xs = drop (length xs - n) xs

module _ {F : Type 0} ⦃num : Double F⦄ where
  -- `sum(value for _day, value in items)`
  pub sum_from : F → Series F → F
  sum_from acc [] = acc
  sum_from acc ((day, value) ∷ items) = sum_from (acc ⊕ value) items

  abbrev pub sum_items : Series F → F
  sum_items = sum_from (num.of_int 0)

  unfoldable pub yoy_growth : Series F → Option F
  unfolding sum_from drop take
  yoy_growth ordered =
      if ltb (length ordered) 8
      then none
      else let latest = sum_items (last_n 4 ordered) in
        let previous = sum_items (take 4 (last_n 8 ordered)) in
        if zero_f <? previous then some (latest ⊘ previous ⊖ num.lit 1 0) else none

  -- the growth between the last two items
  abbrev pub growth_of : Series F → Option F
  growth_of ((_, previous) ∷ (_, latest) ∷ []) =
      if previous ≤? zero_f then none else some (latest ⊘ previous ⊖ num.lit 1 0)
  growth_of _ = none

  unfoldable pub annual_yoy_growth : Series F → Option F
  unfolding drop
  annual_yoy_growth ordered = if ltb (length ordered) 2 then none else growth_of (last_n 2 ordered)

  unfoldable pub trailing_sum : Series F → Option F
  unfolding sum_from drop
  trailing_sum ordered =
      if ltb (length ordered) 4 then none else some (sum_items (last_n 4 ordered))

  pub at_day : ℕ → Series F → Option F
  at_day day [] = none
  at_day day ((d, value) ∷ items) = if d == day then some value else at_day day items

  -- the days of both series, each with the two values
  pub common : Series F → Series F → List (ℕ × F × F)
  unfolding at_day
  common [] others = []
  common ((day, value) ∷ items) others =
      let rest = common items others in
      elim (at_day day others) [ none ↦ rest | some other ↦ (day, value, other) ∷ rest ]

  pub firsts : List (ℕ × F × F) → Series F
  firsts [] = []
  firsts ((day, a, b) ∷ rows) = (day, a) ∷ firsts rows

  pub seconds : List (ℕ × F × F) → Series F
  seconds [] = []
  seconds ((day, a, b) ∷ rows) = (day, b) ∷ seconds rows

  -- the margin over the last four of the common days
  unfoldable pub margin_of : List (ℕ × F × F) → Option F
  unfolding firsts seconds sum_from drop
  margin_of rows =
      if ltb (length rows) 4
      then none
      else let selected = last_n 4 rows in
        let denominator = sum_items (seconds selected) in
        if zero_f <? denominator then some (sum_items (firsts selected) ⊘ denominator) else none

  unfoldable pub trailing_margin : Series F → Series F → Option F
  unfolding margin_of common
  trailing_margin numerator revenue = margin_of (common numerator revenue)

  -- `cfo[day] - capex[day]` on their common days
  pub differences : List (ℕ × F × F) → Series F
  differences [] = []
  differences ((day, a, b) ∷ rows) = (day, a ⊖ b) ∷ differences rows

  unfoldable pub fcf_margin : Series F → Series F → Series F → Option F
  unfolding margin_of common differences
  fcf_margin cfo capex revenue = margin_of (common (differences (common cfo capex)) revenue)

  abbrev pub ratio_of : List (ℕ × F × F) → Option F
  ratio_of ((_, a, b) ∷ []) = if zero_f <? b then some (a ⊘ b) else none
  ratio_of _ = none

  unfoldable pub latest_ratio : Series F → Series F → Option F
  unfolding common drop
  latest_ratio numerator denominator = ratio_of (last_n 1 (common numerator denominator))

  -- the latest item: `max(series)` with its value
  abbrev pub latest : Series F → Option (ℕ × F)
  latest items = elim (last_n 1 items) [ [] ↦ none | item ∷ _ ↦ some item ]

  unfoldable pub yahoo_leverage : Series F → Series F → Series F → Option F × Option ℕ
  unfolding drop
  yahoo_leverage debt cash operating_income = elim (latest debt) [
    | none ↦ (none, none)
    | some (debt_day, owed) ↦ elim (latest cash) [
      | none ↦ (none, none)
      | some (cash_day, held) ↦ elim (latest operating_income) [
        | none ↦ (none, none)
        | some (operating_day, denominator) ↦ if denominator ≤? zero_f then (none, none) else (
          some ((owed ⊖ held) ⊘ denominator),
          some (max (max debt_day cash_day) operating_day),
        )
      ]
    ]
  ]

  abbrev pub date_of : Series F → Option ℕ
  date_of items = elim (latest items) [ none ↦ none | some (day, _) ↦ some day ]

  abbrev pub common_date : Series F → Series F → Option ℕ
  common_date a b = elim (last_n 1 (common a b)) [ [] ↦ none | (day, _, _) ∷ _ ↦ some day ]

  -- the series of a snapshot of the fundamentals
  abbrev pub or_date : Option F → Option ℕ → Option ℕ → Option ℕ
  or_date none quarterly annual = annual
  or_date (some _) quarterly annual = quarterly
