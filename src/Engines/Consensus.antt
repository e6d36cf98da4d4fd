-- ===== src/Engines/Consensus.antt =====
-- engines/consensus.py: when a price of several feeds counts as the market's.
pub mod Agreed
use market_brain.Prelude.{
  ℕ, ◌+◌, ◌/◌, ◌-◌, ◌%◌, zero, suc, String, Bool, true, false, not, ◌&&◌, Option, none, some, List,
  [], ◌∷◌, ◌++◌, map, if◌then◌else◌, ltb, ◌==◌, str_eq, is_some,
}
use market_brain.Prelude.Lists.{length, select, text_or}
use market_brain.Prelude.Dict.{Dict, lookup, insert, values}
use market_brain.Number.{Double, ◌⊕◌, ◌⊖◌, ◌⊗◌, ◌⊘◌, ◌<?◌, ◌≤?◌, zero_f, max_f, min_f, is_zero_f}
use market_brain.Domain.{MarketSnapshot}
use Prim.Native.String.{compare as compare_text, ◌++◌ as append_text}
use text.Mathlib.Text.{is_le}

pub record MarketAuthorityResult (F : Type 0) : Type 0 where
  pub accepted : Bool
  pub snapshot : Option (MarketSnapshot F)
  pub mode : String
  pub reasons : List String
  pub source_ids : List String
  pub divergence_bps : Option F

-- `sorted(source_ids)` and `",".join`
pub place_text : String → List String → List String
place_text s [] = s ∷ []
place_text s (x ∷ xs) = if is_le (compare_text s x) then s ∷ x ∷ xs else x ∷ place_text s xs

pub sort_texts : List String → List String
unfolding place_text
sort_texts [] = []
sort_texts (x ∷ xs) = place_text x (sort_texts xs)

-- `",".join(texts)`
pub join : List String → String
join [] = ""
join (x ∷ []) = x
join (x ∷ y ∷ xs) = append_text x (append_text "," (join (y ∷ xs)))

module _ {F : Type 0} ⦃num : Double F⦄ where
  -- `_group`
  unfoldable pub group_of : MarketSnapshot F → String
  group_of snapshot =
      text_or snapshot.metadata.independence_group (text_or snapshot.source_id "UNKNOWN")

  -- `bid` and `ask` are there and not crossed
  abbrev pub is_book : Option F → Option F → Bool
  is_book none ask = false
  is_book (some bid) none = false
  is_book (some bid) (some ask) = bid ≤? ask

  abbrev pub is_fresh : Option F → F → Bool
  is_fresh none limit = false
  is_fresh (some age) limit = age ≤? limit

  -- `_valid`
  unfoldable pub is_valid : F → MarketSnapshot F → Bool
  is_valid max_age_seconds snapshot =
      zero_f <? snapshot.last
      && (is_book snapshot.bid snapshot.ask
          && (is_fresh snapshot.data_age_seconds max_age_seconds && not snapshot.halted))

  -- `row.data_age_seconds or 10**9`: an age of zero counts as no age
  unfoldable pub age_key : MarketSnapshot F → F
  age_key snapshot = elim snapshot.data_age_seconds [
    | none ↦ num.lit 1_000_000_000 0
    | some age ↦ if is_zero_f age then num.lit 1_000_000_000 0 else age
  ]

  -- `min(rows, key=…)`: the first of the least
  unfoldable pub freshest : MarketSnapshot F → List (MarketSnapshot F) → MarketSnapshot F
  unfolding age_key
  freshest best [] = best
  freshest best (row ∷ rows) = freshest (if age_key row <? age_key best then row else best) rows

  -- one row of the loop over `valid`
  unfoldable pub put_group : MarketSnapshot F → Dict (MarketSnapshot F) → Dict (MarketSnapshot F)
  unfolding group_of age_key lookup insert
  put_group row by_group =
      let group = group_of row in
      elim (lookup group by_group) [
        | none ↦ insert group row by_group
        | some current ↦
            if age_key row <? age_key current then insert group row by_group else by_group
      ]

  unfoldable pub group_rows :
      List (MarketSnapshot F) → Dict (MarketSnapshot F) → Dict (MarketSnapshot F)
  unfolding put_group
  group_rows [] by_group = by_group
  group_rows (row ∷ rows) by_group = group_rows rows (put_group row by_group)

  -- `statistics.median` of some numbers: the middle of the sorted ones, or the mean of the two
  pub place_f : F → List F → List F
  place_f x [] = x ∷ []
  place_f x (y ∷ ys) = if y <? x then y ∷ place_f x ys else x ∷ y ∷ ys

  pub sort_f : List F → List F
  unfolding place_f
  sort_f [] = []
  sort_f (x ∷ xs) = place_f x (sort_f xs)

  pub nth_f : ℕ → List F → F
  nth_f n [] = zero_f
  nth_f zero (x ∷ xs) = x
  nth_f (suc n) (x ∷ xs) = nth_f n xs

  unfoldable pub median : List F → F
  unfolding sort_f nth_f
  median xs =
      let sorted = sort_f xs in
      let n = length xs in
      if n % 2 == 1
      then nth_f (n / 2) sorted
      else (nth_f (n / 2 - 1) sorted ⊕ nth_f (n / 2) sorted) ⊘ num.lit 2 0

  -- `max(prices)` and `min(prices)` from the first price on
  unfoldable pub fold_f : (F → F → F) → F → List F → F
  fold_f f x [] = x
  fold_f f x (y ∷ ys) = fold_f f (f x y) ys

  -- `[row.bid for row in independent if row.bid is not None]`
  pub somes : List (Option F) → List F
  somes [] = []
  somes (none ∷ xs) = somes xs
  somes (some x ∷ xs) = x ∷ somes xs

  abbrev pub source_or : String → MarketSnapshot F → String
  source_or default row = text_or row.source_id default

  abbrev pub rejected : String → String → List String → Option F → MarketAuthorityResult F
  rejected mode reason source_ids divergence = record {
    accepted = false;
    snapshot = none;
    mode = mode;
    reasons = reason ∷ [];
    source_ids = source_ids;
    divergence_bps = divergence;
  }

  -- a valid sample of an authoritative feed
  unfoldable pub full_market : MarketSnapshot F → List (MarketSnapshot F) → MarketAuthorityResult F
  unfolding freshest
  full_market first rows =
      let chosen = freshest first rows in
      record {
        accepted = true;
        snapshot = some chosen;
        mode = "FULL_MARKET";
        reasons = [];
        source_ids = source_or "AUTHORITATIVE" chosen ∷ [];
        divergence_bps = some zero_f;
      }

  -- `(max(prices) - min(prices)) / consensus_price * 10_000.0`
  unfoldable pub divergence_of : MarketSnapshot F → List (MarketSnapshot F) → F
  unfolding median fold_f
  divergence_of first rows =
      let prices = map (λ (row : MarketSnapshot F). row.last) rows in
      (fold_f max_f first.last prices ⊖ fold_f min_f first.last prices)
      ⊘ median (first.last ∷ prices)
      ⊗ num.lit 10_000 0

  -- the sample that several sources make; of its metadata nothing that an engine reads is new
  unfoldable pub synthetic : MarketSnapshot F → List (MarketSnapshot F) → MarketSnapshot F
  unfolding median somes freshest sort_texts join
  synthetic first rows =
      let all = first ∷ rows in
      record (freshest first rows) {
        last = median (map (λ (row : MarketSnapshot F). row.last) all);
        bid = some (median (somes (map (λ (row : MarketSnapshot F). row.bid) all)));
        ask = some (median (somes (map (λ (row : MarketSnapshot F). row.ask) all)));
        source_id =
            some (append_text "QUORUM:" (join (sort_texts (map (source_or "UNKNOWN") all))));
        authoritative = true;
      }

  -- the sources that are independent, of which there is one at least
  unfoldable pub quorum :
      F → ℕ → MarketSnapshot F → List (MarketSnapshot F) → MarketAuthorityResult F
  unfolding divergence_of synthetic
  quorum max_divergence_bps minimum first rows =
      let source_ids = map (source_or "UNKNOWN") (first ∷ rows) in
      if ltb (length rows + 1) minimum
      then rejected "QUORUM_INSUFFICIENT" "INDEPENDENT_SOURCE_QUORUM_REQUIRED" source_ids none
      else let divergence = divergence_of first rows in
        if max_divergence_bps <? divergence
        then rejected "QUORUM_CONFLICT" "MARKET_SOURCE_DIVERGENCE" source_ids
            (some (num.round 4 divergence))
        else record {
          accepted = true;
          snapshot = some (synthetic first rows);
          mode = "INDEPENDENT_QUORUM";
          reasons = [];
          source_ids = source_ids;
          divergence_bps = some (num.round 4 divergence);
        }

  abbrev pub no_sample : MarketAuthorityResult F
  no_sample = rejected "NONE" "NO_FRESH_MARKET_SAMPLE" [] none

  -- the quorum over the groups; it is not called with none
  abbrev pub on_groups : F → ℕ → List (MarketSnapshot F) → MarketAuthorityResult F
  on_groups max_divergence_bps minimum [] = no_sample
  on_groups max_divergence_bps minimum (first ∷ rows) = quorum max_divergence_bps minimum first rows

  unfoldable pub on_valid : F → ℕ → List (MarketSnapshot F) → MarketAuthorityResult F
  unfolding full_market quorum group_rows select values
  on_valid max_divergence_bps minimum valid =
      elim (select (λ (row : MarketSnapshot F). row.authoritative) valid) [
        | first ∷ rows ↦ full_market first rows
        | [] ↦ on_groups max_divergence_bps minimum (values (group_rows valid []))
      ]

  unfoldable pub resolve_market_authority :
      List (MarketSnapshot F) → F → F → ℕ → MarketAuthorityResult F
  unfolding on_valid is_valid select
  resolve_market_authority snapshots max_age_seconds max_divergence_bps minimum =
      elim (select (is_valid max_age_seconds) snapshots) [
        | [] ↦ no_sample
        | first ∷ rows ↦ on_valid max_divergence_bps minimum (first ∷ rows)
      ]
