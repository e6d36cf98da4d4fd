-- ===== src/Engines/Liquidity/Authority.antt =====
-- What the gates of engines/liquidity.py ask of a sample that they make authoritative.
use market_brain.Prelude.{
  ◌≡◌, String, true, false, Option, some, List, [], ◌∷◌, ◌++◌, arith, refl, some_of,
}
use market_brain.Prelude.Lists.{reason_if}
use market_brain.Number.{Double, ◌⊕◌, ◌⊖◌, ◌⊗◌, ◌⊘◌, ◌<?◌, ◌≤?◌, zero_f, abs_f}
use market_brain.Domain.{LiquidityProfile, MarketSnapshot}
use market_brain.Settings.{Settings}
use market_brain.Engines.Liquidity.{
  is_empty, is_source, iex_reasons, apply_iex_liquidity_gate, age_reason, volume_reason,
  book_reasons,
}

is_empty-append :
    (xs ys : List String) → is_empty (xs ++ ys) ≡ true → (is_empty xs ≡ true) × (is_empty ys ≡ true)
is_empty-append [] ys h = (refl, h)
is_empty-append (x ∷ xs) ys h = cc

module _ {F : Type 0} ⦃num : Double F⦄ where
  -- an uncrossed book with a spread in basis points and a distance from the mid within the limits
  pub record IsTight (last bid ask limit tolerance : F) : Type 0 where
    pub bid_positive : (bid ≤? zero_f) ≡ false
    pub uncrossed : (ask <? bid) ≡ false
    pub mid_positive : (zero_f <? (bid ⊕ ask) ⊘ num.lit 20 1) ≡ true
    pub spread : (limit <? (ask ⊖ bid) ⊘ ((bid ⊕ ask) ⊘ num.lit 20 1) ⊗ num.lit 10_000 0) ≡ false
    pub near_mid :
        (tolerance
          <? abs_f (last ⊖ (bid ⊕ ask) ⊘ num.lit 20 1)
            ⊘ ((bid ⊕ ask) ⊘ num.lit 20 1)
            ⊗ num.lit 100 0)
        ≡ false

  -- a live sample with a known volume, a price, an age and an uncrossed book within the limits
  pub record IsLiquid (s : MarketSnapshot F) (profile : Option (LiquidityProfile F))
      (cfg : Settings F) : Type 0 where
    pub known : LiquidityProfile F
    pub age : F
    pub bid : F
    pub ask : F
    pub has_profile : profile ≡ some known
    pub has_age : s.data_age_seconds ≡ some age
    pub has_bid : s.bid ≡ some bid
    pub has_ask : s.ask ≡ some ask
    pub volume : (known.adv20 <? cfg.min_adv) ≡ false
    pub price : (s.last <? cfg.min_price) ≡ false
    pub not_future : (age <? zero_f) ≡ false
    pub fresh : (cfg.max_quote_age_seconds <? age) ≡ false
    pub tight : IsTight s.last bid ask cfg.max_spread_bps cfg.iex_mid_tolerance_pct

  volume_reason-empty :
      (profile : Option (LiquidityProfile F)) (floor : F)
      → is_empty (volume_reason profile floor) ≡ true
      → (known : LiquidityProfile F) × (profile ≡ some known) × ((known.adv20 <? floor) ≡ false)
  volume_reason-empty profile floor h =
      let (known, e) = some_of profile (ground arith) in (known, e, ground arith)

  age_reason-empty :
      (age : Option F) (limit : F) (reason : String)
      → is_empty (age_reason age limit reason) ≡ true
      → (a : F) × (age ≡ some a) × ((a <? zero_f) ≡ false) × ((limit <? a) ≡ false)
  age_reason-empty age limit reason h =
      let (a, e) = some_of age (ground arith) in (a, e, ground arith, ground arith)

  book_reasons-empty :
      (last : F) (bid ask : Option F) (limit tolerance : F)
      → is_empty (book_reasons last bid ask limit tolerance) ≡ true
      → (b : F) × (a : F) × (bid ≡ some b) × (ask ≡ some a) × IsTight last b a limit tolerance
  book_reasons-empty last bid ask limit tolerance h =
      let (b, e1) = some_of bid (ground arith) in
      let (a, e2) = some_of ask (ground arith) in (b, a, e1, e2, ground arith)

  -- A sample of the live feed leaves the gate authoritative only if it is liquid.
  pub apply_iex_liquidity_gate-IsLiquid :
      (s : MarketSnapshot F) (profile : Option (LiquidityProfile F)) (cfg : Settings F)
      → is_source "ALPACA_IEX" s.source_id ≡ true
      → (apply_iex_liquidity_gate s profile cfg).1.authoritative ≡ true
      → IsLiquid s profile cfg
  unfolding apply_iex_liquidity_gate iex_reasons
  apply_iex_liquidity_gate-IsLiquid s profile cfg live h =
      let price = reason_if (s.last <? cfg.min_price) "PRICE_TOO_LOW" in
      let age = age_reason s.data_age_seconds cfg.max_quote_age_seconds "QUOTE_STALE" in
      let book = book_reasons s.last s.bid s.ask cfg.max_spread_bps cfg.iex_mid_tolerance_pct in
      let clean : is_empty (iex_reasons s profile cfg) ≡ true = rw live at h in
      let (h1, r1) =
        is_empty-append (volume_reason profile cfg.min_adv) (price ++ (age ++ book)) clean in
      let (h2, r2) = is_empty-append price (age ++ book) r1 in
      let (h3, h4) = is_empty-append age book r2 in
      let (known, e1, volume) = volume_reason-empty profile cfg.min_adv h1 in
      let (a, e2, not_future, fresh) =
        age_reason-empty s.data_age_seconds cfg.max_quote_age_seconds "QUOTE_STALE" h3 in
      let (bid, ask, e3, e4, tight) =
        book_reasons-empty s.last s.bid s.ask cfg.max_spread_bps cfg.iex_mid_tolerance_pct h4 in
      record {
        known = known;
        age = a;
        bid = bid;
        ask = ask;
        has_profile = e1;
        has_age = e2;
        has_bid = e3;
        has_ask = e4;
        volume = volume;
        price = ground arith;
        not_future = not_future;
        fresh = fresh;
        tight = tight;
      }
