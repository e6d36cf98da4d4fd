-- ===== src/Engines/Liquidity.antt =====
-- engines/liquidity.py: the gates that make a sample authoritative. A gate returns its reasons and
-- the snapshot with the flag set, where the source sets it in place.
pub mod Authority
use market_brain.Prelude.{
  ◌+◌, String, Bool, true, false, not, ◌||◌, ◌&&◌, Option, none, some, List, [], ◌∷◌, ◌++◌,
  if◌then◌else◌, is_some, str_eq,
}
use market_brain.Prelude.Lists.{reason_if, mem_text}
use market_brain.Number.{Double, ◌⊕◌, ◌⊖◌, ◌⊗◌, ◌⊘◌, ◌<?◌, ◌≤?◌, zero_f, abs_f, quotient}
use market_brain.Domain.{LiquidityProfile, MarketSnapshot}
use market_brain.Settings.{Settings}
use text.Mathlib.Text.{find?}

-- `list(dict.fromkeys(reasons))`: the first of each text, in order
pub without_text : String → List String → List String
without_text s [] = []
without_text s (x ∷ xs) = let rest = without_text s xs in if str_eq x s then rest else x ∷ rest

unfoldable pub dedupe : List String → List String
unfolding without_text
dedupe [] = []
dedupe (x ∷ xs) = x ∷ without_text x (dedupe xs)

-- `"YAHOO" in source_id or "CBOE_DELAYED" in source_id`; no source is no keyless source
unfoldable pub is_keyless_source : Option String → Bool
is_keyless_source none = false
is_keyless_source (some source) =
    is_some (find? "YAHOO" source) || is_some (find? "CBOE_DELAYED" source)

-- `snapshot.source_id == name`
abbrev pub is_source : String → Option String → Bool
is_source name none = false
is_source name (some source) = str_eq source name

-- `not reasons`
abbrev pub is_empty : List String → Bool
is_empty [] = true
is_empty (_ ∷ _) = false

module _ {F : Type 0} ⦃num : Double F⦄ where
  abbrev pub volume_reason : Option (LiquidityProfile F) → F → List String
  volume_reason none floor = "LIQUIDITY_PROFILE_MISSING" ∷ []
  volume_reason (some profile) floor = reason_if (profile.adv20 <? floor) "ADV_TOO_LOW"

  -- an age that is missing, negative or above the limit
  abbrev pub age_reason : Option F → F → String → List String
  age_reason none limit reason = reason ∷ []
  age_reason (some age) limit reason = reason_if (age <? zero_f || limit <? age) reason

  -- `(ask - bid) / mid * 10_000` against the limit; infinite where the mid is not positive
  abbrev pub spread_reason : F → F → F → List String
  spread_reason bid ask limit =
      let mid = (bid ⊕ ask) ⊘ num.lit 20 1 in
      if zero_f <? mid
      then reason_if (limit <? (ask ⊖ bid) ⊘ mid ⊗ num.lit 10_000 0) "SPREAD_TOO_WIDE"
      else "SPREAD_TOO_WIDE" ∷ []

  abbrev pub mid_reason : F → F → F → F → List String
  mid_reason last bid ask tolerance =
      let mid = (bid ⊕ ask) ⊘ num.lit 20 1 in
      reason_if (mid ≤? zero_f || tolerance <? abs_f (last ⊖ mid) ⊘ mid ⊗ num.lit 100 0)
        "PRICE_MID_SANITY_FAILED"

  abbrev pub is_crossed : F → F → Bool
  is_crossed bid ask = bid ≤? zero_f || ask <? bid

  -- both sides of the book are wanted
  abbrev pub book_reasons : F → Option F → Option F → F → F → List String
  book_reasons last none ask limit tolerance = "SPREAD_TOO_WIDE" ∷ []
  book_reasons last (some bid) none limit tolerance = "SPREAD_TOO_WIDE" ∷ []
  book_reasons last (some bid) (some ask) limit tolerance =
      if is_crossed bid ask
      then "SPREAD_TOO_WIDE" ∷ []
      else spread_reason bid ask limit ++ mid_reason last bid ask tolerance

  -- a delayed feed may have no book
  abbrev pub delayed_book_reasons : Option F → Option F → F → List String
  delayed_book_reasons none ask limit = []
  delayed_book_reasons (some bid) none limit = []
  delayed_book_reasons (some bid) (some ask) limit =
      if is_crossed bid ask then "SPREAD_TOO_WIDE" ∷ [] else spread_reason bid ask limit

  -- `range_pct`; `none` where a bound is missing or the price is zero
  abbrev pub range_pct : MarketSnapshot F → Option F
  range_pct snapshot = elim snapshot.metadata.last_bar_high [
    | none ↦ none
    | some high ↦ elim snapshot.metadata.last_bar_low [
      | none ↦ none
      | some low ↦ elim (quotient (high ⊖ low) snapshot.last) [
        | none ↦ none
        | some ratio ↦ some (ratio ⊗ num.lit 100 0)
      ]
    ]
  ]

  abbrev pub range_reason : Option F → F → List String
  range_reason none limit = "KEYLESS_BAR_RANGE_MISSING" ∷ []
  range_reason (some pct) limit =
      if pct <? zero_f
      then "KEYLESS_BAR_RANGE_MISSING" ∷ []
      else reason_if (limit <? pct) "KEYLESS_BAR_RANGE_TOO_WIDE"

  -- the answer of a gate to its reasons
  abbrev pub gated : MarketSnapshot F → List String → List String × MarketSnapshot F
  gated snapshot reasons = (
    if is_empty reasons then "LIQUIDITY_GATE_PASS" ∷ [] else dedupe reasons,
    record snapshot { authoritative = is_empty reasons },
  )

  unfoldable pub iex_reasons :
      MarketSnapshot F → Option (LiquidityProfile F) → Settings F → List String
  iex_reasons snapshot profile cfg =
      volume_reason profile cfg.min_adv
      ++ (reason_if (snapshot.last <? cfg.min_price) "PRICE_TOO_LOW"
          ++ (age_reason snapshot.data_age_seconds cfg.max_quote_age_seconds "QUOTE_STALE"
              ++ book_reasons snapshot.last snapshot.bid snapshot.ask cfg.max_spread_bps
                  cfg.iex_mid_tolerance_pct))

  unfoldable pub apply_iex_liquidity_gate :
      MarketSnapshot F → Option (LiquidityProfile F) → Settings F → List String × MarketSnapshot F
  apply_iex_liquidity_gate snapshot profile cfg =
      if is_source "ALPACA_IEX" snapshot.source_id
      then gated snapshot (iex_reasons snapshot profile cfg)
      else ([], snapshot)

  pub keyless_reasons : MarketSnapshot F → Option (LiquidityProfile F) → Settings F → List String
  keyless_reasons snapshot profile cfg =
      volume_reason profile cfg.min_adv_keyless
      ++ (reason_if (snapshot.last <? cfg.min_price) "PRICE_TOO_LOW"
          ++ (age_reason snapshot.delay_minutes cfg.max_delayed_age_minutes "DELAYED_DATA_STALE"
              ++ (delayed_book_reasons snapshot.bid snapshot.ask cfg.max_spread_bps
                  ++ (range_reason (range_pct snapshot) cfg.keyless_max_bar_range_pct
                      ++ reason_if (is_source "FAIL" snapshot.metadata.price_cross_check)
                          "PRICE_CROSS_CHECK_FAILED"))))

  pub apply_keyless_liquidity_gate :
      MarketSnapshot F → Option (LiquidityProfile F) → Settings F → List String × MarketSnapshot F
  apply_keyless_liquidity_gate snapshot profile cfg =
      if is_keyless_source snapshot.source_id
      then gated snapshot (keyless_reasons snapshot profile cfg)
      else ([], snapshot)
