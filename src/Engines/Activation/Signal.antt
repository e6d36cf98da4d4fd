-- ===== src/Engines/Activation/Signal.antt =====
-- What a BUY_NOW, and what a NO_TRADE, of engines/activation.py says.
use market_brain.Prelude.{
  ◌≡◌, ◌≤◌, refl, String, Bool, true, false, Option, some, List, [], ◌∷◌, ◌++◌, arith, str_eq,
  some_of, not, inl, inr,
}
use market_brain.Prelude.Lists.{reason_if}
use market_brain.Prelude.Result.{Result, ok, err, Result-cases, ok-injective}
use market_brain.Number.{Double, ◌<?◌}
use market_brain.Domain.{
  Instant, MarketSnapshot, TradePlan, WalletState, ActivationDecision, buy_now,
}
use market_brain.Settings.{Settings}
use market_brain.Engines.Wallet.{SizeResult, size_from_wallet, or_default}
use market_brain.Engines.Activation.{
  trigger_reasons, age_reasons, spread_reasons, activation_reasons, decide_reasons, activate_plan,
  entry_or,
}

append-nil_of : (xs ys : List String) → xs ++ ys ≡ [] → (xs ≡ []) × (ys ≡ [])
append-nil_of [] ys h = (refl, h)
append-nil_of (x ∷ xs) ys h = absurd (ground arith)

module _ {F : Type 0} ⦃num : Double F⦄ where
  -- A BUY_NOW needs an empty list of reasons and an allowed size.
  decide_reasons-buy_now :
      (plan : TradePlan F) (price : Option F) (size : Result (SizeResult F)) (rs : List String)
      {d : ActivationDecision F}
      → decide_reasons plan price size rs ≡ ok d
      → d.state ≡ buy_now
      → (rs ≡ [])
        × ((sz : SizeResult F) × (size ≡ ok sz)
            × (sz.allowed ≡ true)
            × (d.quantity ≡ sz.quantity)
            × (d.entry ≡ some (entry_or plan price))
            × (d.stop ≡ plan.stop))
  decide_reasons-buy_now plan price (ok sz) [] e b =
      (refl, (sz, refl, ground arith, ground arith, ground arith, ground arith))
  decide_reasons-buy_now plan price (err t) [] e b = absurd (ground arith)
  decide_reasons-buy_now plan price size (r ∷ rs) e b = absurd (ground arith)

  trigger_reasons-nil :
      (plan : TradePlan F) (s : MarketSnapshot F) (retest above : Bool)
      → trigger_reasons plan s retest above ≡ []
      → (above ≡ true)
        × (retest ≡ true)
        × ((s.last <? plan.entry_trigger) ≡ false)
        × ((plan.entry_zone_high <? s.last) ≡ false)
  trigger_reasons-nil plan s retest above h = ground arith

  age_reasons-nil :
      (age : Option F) (limit : F)
      → age_reasons age limit ≡ []
      → (a : F) × (age ≡ some a) × ((limit <? a) ≡ false)
  age_reasons-nil age limit h = let (a, e) = some_of age (ground arith) in (a, e, ground arith)

  activation_reasons-nil :
      (plan : TradePlan F) (s : MarketSnapshot F) (retest above : Bool) (limit : F)
      → activation_reasons plan s retest above limit ≡ ok []
      → (s.authoritative ≡ true)
        × (age_reasons s.data_age_seconds limit ≡ [])
        × (trigger_reasons plan s retest above ≡ [])
  unfolding activation_reasons
  activation_reasons-nil plan s retest above limit h =
      elim (Result-cases (spread_reasons plan s s.bid s.ask)) [
        | inl (spread, e) ↦
            let feed = reason_if (not s.authoritative) "AUTHORITATIVE_MARKET_FEED_REQUIRED" in
            let trigger = trigger_reasons plan s retest above in
            let ages = age_reasons s.data_age_seconds limit in
            let none_left : feed ++ (ages ++ (spread ++ trigger)) ≡ [] = ok-injective (rw e at h) in
            let (h1, r1) = append-nil_of feed (ages ++ (spread ++ trigger)) none_left in
            let (h2, r2) = append-nil_of ages (spread ++ trigger) r1 in
            let (h3, h4) = append-nil_of spread trigger r2 in (ground arith, h2, h4)
        | inr (t, e) ↦ absurd (ground arith)
      ]

module _ {F : Type 0} ⦃num : Double F⦄ (cfg : Settings F) (plan : TradePlan F)
    (s : MarketSnapshot F) (wallet : WalletState F) (retest above : Bool)
    (price age trade daily notional : Option F) (now : Instant) where
  -- every condition of an entry, and the size that the wallet allowed
  pub record IsEntry (d : ActivationDecision F) : Type 0 where
    pub size : SizeResult F
    pub age_seconds : F
    pub in_time : now ≤ plan.expires_at
    pub trading : s.halted ≡ false
    pub same_symbol : str_eq s.symbol plan.symbol ≡ true
    pub authoritative : s.authoritative ≡ true
    pub has_age : s.data_age_seconds ≡ some age_seconds
    pub fresh : (or_default age cfg.max_market_data_age_seconds <? age_seconds) ≡ false
    pub above_vwap : above ≡ true
    pub retest_valid : retest ≡ true
    pub triggered : (s.last <? plan.entry_trigger) ≡ false
    pub no_chase : (plan.entry_zone_high <? s.last) ≡ false
    pub sized : size_from_wallet cfg wallet plan price trade daily notional ≡ ok size
    pub allowed : size.allowed ≡ true
    pub quantity : d.quantity ≡ size.quantity
    pub entry : d.entry ≡ some (entry_or plan price)
    pub stop : d.stop ≡ plan.stop

  -- BUY_NOW is decided only on an entry.
  pub activate_plan-IsEntry :
      {d : ActivationDecision F}
      → activate_plan cfg plan s wallet retest above price age trade daily notional now ≡ ok d
      → d.state ≡ buy_now
      → IsEntry d
  unfolding activate_plan
  activate_plan-IsEntry {d} e b =
      let limit = or_default age cfg.max_market_data_age_seconds in
      let size = size_from_wallet cfg wallet plan price trade daily notional in
      elim (Result-cases (activation_reasons plan s retest above limit)) [
        | inl (rs, known) ↦
            let decided : decide_reasons plan price size rs ≡ ok d = ground arith in
            let (empty, (sz, e1, allowed, q, en, st)) =
              decide_reasons-buy_now plan price size rs decided b in
            let (auth, ages, trig) = activation_reasons-nil plan s retest above limit (cc) in
            let (a, e2, fresh) = age_reasons-nil s.data_age_seconds limit ages in
            let (v, r, t, z) = trigger_reasons-nil plan s retest above trig in
            record {
              size = sz;
              age_seconds = a;
              in_time = ground arith;
              trading = ground arith;
              same_symbol = ground arith;
              authoritative = auth;
              has_age = e2;
              fresh = fresh;
              above_vwap = v;
              retest_valid = r;
              triggered = t;
              no_chase = z;
              sized = e1;
              allowed = allowed;
              quantity = q;
              entry = en;
              stop = st;
            }
        | inr (t, failed) ↦ absurd (ground arith)
      ]
