-- ===== src/Engines/Activation.antt =====
-- engines/activation.py: from a plan and a sample to a decision.
pub mod Signal
use market_brain.Prelude.{
  ℕ, String, Bool, true, false, not, ◌||◌, ◌&&◌, Option, none, some, List, [], ◌∷◌, ◌++◌,
  if◌then◌else◌, ltb, str_eq,
}
use market_brain.Prelude.Lists.{reason_if, mem_text}
use market_brain.Prelude.Result.{Result, ok, err, ◌>>=◌}
use market_brain.Number.{Double, ◌⊖◌, ◌⊗◌, ◌⊘◌, ◌<?◌, ◌≤?◌, zero_f, is_zero_f}
use market_brain.Domain.{
  Instant, MarketSnapshot, TradePlan, WalletState, ActivationDecision, SignalState, expired,
  invalid, no_trade, armed, watch, buy_now,
}
use market_brain.Settings.{Settings}
use market_brain.Engines.Liquidity.{is_keyless_source, is_empty}
use market_brain.Engines.Wallet.{SizeResult, size_from_wallet, or_default}

module _ {F : Type 0} ⦃num : Double F⦄ where
  -- a decision that carries no levels
  abbrev pub bare : TradePlan F → SignalState → List String → ActivationDecision F
  bare plan state reasons = record {
    plan_id = plan.plan_id;
    symbol = plan.symbol;
    state = state;
    reasons = reasons;
    quantity = 0;
    entry = none;
    stop = none;
    tp1 = none;
    tp2 = none;
  }

  abbrev pub age_reasons : Option F → F → List String
  age_reasons none limit = "MARKET_DATA_STALE" ∷ []
  age_reasons (some age) limit = reason_if (limit <? age) "MARKET_DATA_STALE"

  -- no valid pair of bid and ask: only a keyless source may lack one
  abbrev pub no_bbo : MarketSnapshot F → List String
  no_bbo snapshot = reason_if (not (is_keyless_source snapshot.source_id)) "BBO_MISSING"

  -- `none` is the ZeroDivisionError of a price of zero
  abbrev pub spread_reasons :
      TradePlan F → MarketSnapshot F → Option F → Option F → Result (List String)
  spread_reasons plan snapshot none ask = ok (no_bbo snapshot)
  spread_reasons plan snapshot (some bid) none = ok (no_bbo snapshot)
  spread_reasons plan snapshot (some bid) (some ask) =
      if zero_f <? bid && bid ≤? ask
      then if is_zero_f snapshot.last
        then err "ZeroDivisionError"
        else ok (
            reason_if (plan.max_spread_pct <? (ask ⊖ bid) ⊘ snapshot.last ⊗ num.lit 100 0)
              "SPREAD_TOO_WIDE")
      else ok (no_bbo snapshot)

  abbrev pub trigger_reasons : TradePlan F → MarketSnapshot F → Bool → Bool → List String
  trigger_reasons plan snapshot retest_valid above_vwap =
      reason_if (not above_vwap) "ABOVE_VWAP_REQUIRED"
      ++ (reason_if (not retest_valid) "RETEST_REQUIRED"
          ++ (reason_if (snapshot.last <? plan.entry_trigger) "TRIGGER_NOT_REACHED"
              ++ reason_if (plan.entry_zone_high <? snapshot.last) "NO_CHASE_ENTRY_ZONE_EXCEEDED"))

  -- the list `reasons`
  unfoldable pub activation_reasons :
      TradePlan F → MarketSnapshot F → Bool → Bool → F → Result (List String)
  activation_reasons plan snapshot retest_valid above_vwap age_limit = do
    spread ← spread_reasons plan snapshot snapshot.bid snapshot.ask
    ok (
        reason_if (not snapshot.authoritative) "AUTHORITATIVE_MARKET_FEED_REQUIRED"
        ++ (age_reasons snapshot.data_age_seconds age_limit
            ++ (spread ++ trigger_reasons plan snapshot retest_valid above_vwap)))

  -- `sizing_entry_price or plan.entry_trigger`: a price of zero counts as none
  abbrev pub entry_or : TradePlan F → Option F → F
  entry_or plan none = plan.entry_trigger
  entry_or plan (some price) = if is_zero_f price then plan.entry_trigger else price

  -- the answer to a size
  abbrev pub decide_size : TradePlan F → Option F → SizeResult F → ActivationDecision F
  decide_size plan price size =
      if size.allowed
      then record {
        plan_id = plan.plan_id;
        symbol = plan.symbol;
        state = buy_now;
        reasons = [];
        quantity = size.quantity;
        entry = some (entry_or plan price);
        stop = plan.stop;
        tp1 = plan.tp1;
        tp2 = plan.tp2;
      }
      else bare plan watch size.reasons

  -- the answer to the reasons
  abbrev pub decide_reasons :
      TradePlan F → Option F → Result (SizeResult F) → List String → Result (ActivationDecision F)
  decide_reasons plan price size [] = size >>= λ s. ok (decide_size plan price s)
  decide_reasons plan price size (r ∷ rs) = ok (
      bare plan (if mem_text "NO_CHASE_ENTRY_ZONE_EXCEEDED" (r ∷ rs) then no_trade else armed)
        (r ∷ rs))

  unfoldable pub activate_plan :
      Settings F
      → TradePlan F
      → MarketSnapshot F
      → WalletState F
      → (retest_valid above_vwap : Bool)
      → (sizing_entry_price max_data_age max_trade_risk max_daily_loss max_notional : Option F)
      → Instant
      → Result (ActivationDecision F)
  activate_plan cfg plan snapshot wallet retest_valid above_vwap price max_data_age max_trade_risk
        max_daily_loss max_notional now =
      if ltb plan.expires_at now
      then ok (bare plan expired ("PLAN_EXPIRED" ∷ []))
      else if snapshot.halted
      then ok (bare plan invalid ("HALTED" ∷ []))
      else if not (str_eq snapshot.symbol plan.symbol)
      then ok (bare plan invalid ("SYMBOL_MISMATCH" ∷ []))
      else activation_reasons plan snapshot retest_valid above_vwap
          (or_default max_data_age cfg.max_market_data_age_seconds)
        >>= decide_reasons plan price
            (size_from_wallet cfg wallet plan price max_trade_risk max_daily_loss max_notional)
