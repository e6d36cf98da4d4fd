-- ===== src/Backtest/Trade.antt =====
-- replay/engine.py: the virtual trade of a replay, from its fill to its last exit. A transition is
-- the state behind it.
pub mod Sold
pub mod Managed
use market_brain.Prelude.{
  ℕ, zero, suc, ◌+◌, ◌*◌, String, Bool, true, false, ◌||◌, ◌&&◌, Option, none, some, List, [], ◌∷◌,
  ◌++◌, map, if◌then◌else◌,
}
use market_brain.Prelude.Result.{Result, ok, err, ◌>>=◌, ◌>>◌, raise_if, or_raise}
use market_brain.Number.{Double, ◌⊕◌, ◌⊖◌, ◌⊗◌, ◌⊘◌, ◌<?◌, ◌≤?◌, zero_f, max_f, min_f}
use market_brain.Domain.{
  Instant, second, minute, ProtectionState, ReconciliationState, PositionState, TradePlan, hold,
  trim, take_profit, sell_now, unknown_position, place_stop_now, reconcile_required,
}
use market_brain.Engines.Position.{evaluate_position}
use market_brain.Engines.Consensus.{fold_f}

-- A bar of a past session. A number is missing where `float` refuses it.
pub record TradeBar (F : Type 0) : Type 0 where
  -- `none` where the key is missing, `some none` where it does not parse
  pub stamp : Option (Option Instant)
  pub open_price : Option F
  pub high : Option F
  pub low : Option F
  pub close : Option F

pub record ReplayTick (F : Type 0) : Type 0 where
  pub at : Instant
  pub price : F
  pub kind : String

pub record ExitLeg (F : Type 0) : Type 0 where
  pub reason : String
  pub price : F
  pub fraction : F
  pub at : Instant

pub record VirtualTradeState (F : Type 0) : Type 0 where
  pub fill : F
  pub stop : F
  pub tp1 : F
  pub tp2 : F
  pub opened_at : Instant
  pub time_stop_at : Instant
  pub remaining_fraction : F
  pub tp1_taken : Bool
  pub status : String
  pub realized_r : F
  pub exit_legs : List (ExitLeg F)

-- What `_manage_trade` returns, without the constant entries and the score that it passes on.
pub record ManagedTrade (F : Type 0) : Type 0 where
  pub symbol : String
  pub plan_id : String
  pub entry_at : Instant
  pub trigger : F
  pub fill : F
  pub quantity : ℕ
  pub stop : F
  pub tp1 : F
  pub tp2 : F
  pub exit_legs : List (ExitLeg F)
  pub r : F

-- TIME_STOP_MINUTES
abbrev pub time_stop_minutes : ℕ
time_stop_minutes = 30

-- the default age of a reconciliation, 24 hours
abbrev pub max_age : Instant
max_age = 1440 * minute

abbrev pub at_or : Option Instant → Instant → Instant
at_or none default = default
at_or (some at) default = at

-- the last element, or `none` for the IndexError
unfoldable pub last_of {ℓ} : {A : Type ℓ} → List A → Option A
last_of [] = none
last_of (x ∷ []) = some x
last_of (x ∷ y ∷ ys) = last_of (y ∷ ys)

module _ {F : Type 0} ⦃num : Double F⦄ where
  -- `_bar_stamp`
  abbrev pub stamp_of : TradeBar F → Result Instant
  stamp_of bar = do
    parsed ← or_raise bar.stamp "REPLAY_BAR_TIMESTAMP_MISSING"
    or_raise parsed "REPLAY_BAR_TIMESTAMP_INVALID"

  -- `_bar_price`
  abbrev pub price_in : Option F → Result F
  price_in raw = do
    value ← or_raise raw "REPLAY_BAR_INCOMPLETE"
    raise_if (value ≤? zero_f) "REPLAY_BAR_INVALID"
    ok value

  abbrev pub tick_at : Instant → ℕ → String → F → ReplayTick F
  tick_at stamp offset kind price = record {
    at = stamp + offset * second;
    price = price;
    kind = kind;
  }

  -- the path of a price through a bar, by way of the low first where the bar closes higher
  abbrev pub ticks_of : Instant → F → F → F → F → List (ReplayTick F)
  ticks_of stamp open_price high low close =
      if open_price ≤? close
      then tick_at stamp 0 "open" open_price
        ∷ tick_at stamp 20 "low" low
        ∷ tick_at stamp 40 "high" high
        ∷ tick_at stamp 59 "close" close
        ∷ []
      else tick_at stamp 0 "open" open_price
        ∷ tick_at stamp 20 "high" high
        ∷ tick_at stamp 40 "low" low
        ∷ tick_at stamp 59 "close" close
        ∷ []

  unfoldable pub synthesize_bar_ticks : TradeBar F → Result (List (ReplayTick F))
  synthesize_bar_ticks bar = do
    stamp ← stamp_of bar
    open_price ← price_in bar.open_price
    high ← price_in bar.high
    low ← price_in bar.low
    close ← price_in bar.close
    raise_if (high <? max_f open_price close || min_f open_price close <? low) "REPLAY_BAR_INVALID"
    ok (ticks_of stamp open_price high low close)

  -- TP1_FRACTION, of 1.0 at the open
  abbrev pub tp1_fraction : F
  tp1_fraction = num.lit 5 1

  abbrev pub whole : F
  whole = num.lit 10 1

  -- `VirtualTradeState(...)` and its check
  unfoldable pub open_trade : F → F → F → F → Instant → Result (VirtualTradeState F)
  open_trade fill stop tp1 tp2 entry_at = do
    raise_if (fill ≤? stop) "REPLAY_FILL_RISK_INVALID"
    ok (record {
      fill = fill;
      stop = stop;
      tp1 = tp1;
      tp2 = tp2;
      opened_at = entry_at;
      time_stop_at = entry_at + time_stop_minutes * minute;
      remaining_fraction = whole;
      tp1_taken = false;
      status = "OPEN";
      realized_r = zero_f;
      exit_legs = [];
    })

  abbrev pub leg_of : String → F → F → Instant → ExitLeg F
  leg_of reason price fraction at = record {
    reason = reason;
    price = num.round 4 price;
    fraction = num.round 6 fraction;
    at = at;
  }

  -- the sum over the legs, from what is summed before them; the risk is not zero, as the fill is
  -- above the stop
  pub r_from : F → F → F → List (ExitLeg F) → F
  r_from sum fill risk [] = sum
  r_from sum fill risk (leg ∷ legs) =
      r_from (sum ⊕ leg.fraction ⊗ (leg.price ⊖ fill) ⊘ risk) fill risk legs

  -- `round(max(0.0, remaining - fraction), 6)`
  abbrev pub left_after : F → F → F
  left_after remaining fraction = num.round 6 (max_f zero_f (remaining ⊖ fraction))

  -- `_transition`, by its status, its reason, the price, the fraction and the time
  unfoldable pub transition :
      VirtualTradeState F → String → String → F → F → Instant → VirtualTradeState F
  unfolding r_from
  transition s status reason price fraction at =
      let legs = s.exit_legs ++ leg_of reason price fraction at ∷ [] in
      record s {
        exit_legs = legs;
        remaining_fraction = left_after s.remaining_fraction fraction;
        status = status;
        realized_r = num.round 6 (r_from zero_f s.fill (s.fill ⊖ s.stop) legs);
      }

  -- `_virtual_position`
  abbrev pub virtual_position : VirtualTradeState F → PositionState F
  virtual_position s = record {
    position_id = "virtual";
    plan_id = "virtual";
    symbol = "VIRTUAL";
    quantity = 2;
    remaining_quantity = if s.tp1_taken then 1 else 2;
    average_fill = s.fill;
    stop = some s.stop;
    tp1 = some s.tp1;
    tp2 = some s.tp2;
    opened_at = s.opened_at;
    time_stop_at = some s.time_stop_at;
    realized_pnl = zero_f;
    managed = true;
    source = "VIRTUAL_FILL";
    closed_at = none;
    protection = ProtectionState.protected;
    broker_stop_price = some s.stop;
    broker_order_ref = none;
    protected_quantity = if s.tp1_taken then 1 else 2;
    reconciliation_state = ReconciliationState.reconciled;
    last_reconciled_at = some s.opened_at;
  }

  abbrev pub stopped : VirtualTradeState F → Instant → VirtualTradeState F
  stopped s at = transition s "STOPPED" "STOP" s.stop s.remaining_fraction at

  abbrev pub timed_out : VirtualTradeState F → F → Instant → VirtualTradeState F
  timed_out s price at = transition s "TIME_STOP" "TIME_STOP" price s.remaining_fraction at

  abbrev pub took_profit : VirtualTradeState F → Instant → VirtualTradeState F
  took_profit s at = record (transition s "TP2" "TP2" s.tp2 s.remaining_fraction at) {
    tp1_taken = true;
  }

  abbrev pub trimmed : VirtualTradeState F → Instant → VirtualTradeState F
  trimmed s at =
      record (transition s "TP1" "TP1" s.tp1 (min_f tp1_fraction s.remaining_fraction) at) {
        tp1_taken = true;
      }

  -- the loop over the ticks, with the position that it keeps
  unfoldable pub follow_ticks :
      VirtualTradeState F
      → PositionState F
      → List (ReplayTick F)
      → VirtualTradeState F × List (VirtualTradeState F)
  unfolding transition evaluate_position
  follow_ticks s position [] = (s, [])
  follow_ticks s position (tick ∷ ticks) =
      if s.remaining_fraction ≤? zero_f
      then (s, [])
      else elim (evaluate_position (some position) tick.price false false max_age tick.at) [
        | sell_now ↦
            let next =
              if tick.price ≤? s.stop then stopped s tick.at else timed_out s tick.price tick.at in
            (next, next ∷ [])
        | take_profit ↦ (took_profit s tick.at, took_profit s tick.at ∷ [])
        | trim ↦ elim s.tp1_taken [
          | true ↦ follow_ticks s position ticks
          | false ↦
              let (last, more) =
                follow_ticks (trimmed s tick.at) (record position { remaining_quantity = 1 })
                  ticks in
              (last, trimmed s tick.at ∷ more)
        ]
        | hold ↦ follow_ticks s position ticks
        | unknown_position ↦ follow_ticks s position ticks
        | place_stop_now ↦ follow_ticks s position ticks
        | reconcile_required ↦ follow_ticks s position ticks
      ]

  abbrev pub price_at : ReplayTick F → F
  price_at tick = tick.price

  -- the ticks touch the stop and the next target
  unfoldable pub is_conflict : VirtualTradeState F → ReplayTick F → List (ReplayTick F) → Bool
  unfolding fold_f
  is_conflict s first ticks =
      let prices = map price_at ticks in
      fold_f min_f first.price prices ≤? s.stop
      && (if s.tp1_taken then s.tp2 else s.tp1) ≤? fold_f max_f first.price prices

  unfoldable pub advance_virtual_trade_ticks :
      VirtualTradeState F
      → List (ReplayTick F)
      → Option Instant
      → VirtualTradeState F × List (VirtualTradeState F)
  unfolding transition is_conflict follow_ticks
  advance_virtual_trade_ticks s [] conflict_at = (s, [])
  advance_virtual_trade_ticks s (first ∷ ticks) conflict_at =
      if s.remaining_fraction ≤? zero_f
      then (s, [])
      else if is_conflict s first ticks
      then (stopped s (at_or conflict_at first.at), stopped s (at_or conflict_at first.at) ∷ [])
      else follow_ticks s (virtual_position s) (first ∷ ticks)

  unfoldable pub advance_virtual_trade_bar :
      VirtualTradeState F → TradeBar F → Result (VirtualTradeState F × List (VirtualTradeState F))
  unfolding synthesize_bar_ticks advance_virtual_trade_ticks
  advance_virtual_trade_bar s bar = do
    ticks ← synthesize_bar_ticks bar
    stamp ← stamp_of bar
    ok (advance_virtual_trade_ticks s ticks (some stamp))

  -- `finalize_virtual_trade`
  unfoldable pub finalize_virtual_trade :
      VirtualTradeState F → F → Instant → VirtualTradeState F × Option (VirtualTradeState F)
  unfolding transition
  finalize_virtual_trade s price at =
      if s.remaining_fraction ≤? zero_f
      then (s, none)
      else let next = timed_out s price at in (next, some next)

  -- the loop over the bars behind the entry
  unfoldable pub advance_bars :
      VirtualTradeState F → List (TradeBar F) → Result (VirtualTradeState F)
  unfolding advance_virtual_trade_bar
  advance_bars s [] = ok s
  advance_bars s (bar ∷ bars) =
      if s.remaining_fraction ≤? zero_f
      then ok s
      else do (next, passed) ← advance_virtual_trade_bar s bar; advance_bars next bars

  -- `bars[n:]`
  unfoldable pub bars_from : ℕ → List (TradeBar F) → List (TradeBar F)
  bars_from zero bars = bars
  bars_from (suc n) [] = []
  bars_from (suc n) (bar ∷ bars) = bars_from n bars

  -- the rest is sold at the close of the last bar
  unfoldable pub sell_rest : VirtualTradeState F → List (TradeBar F) → Result (VirtualTradeState F)
  unfolding synthesize_bar_ticks finalize_virtual_trade last_of
  sell_rest s bars = do
    bar ← or_raise (last_of bars) "IndexError"
    ticks ← synthesize_bar_ticks bar
    tick ← or_raise (last_of ticks) "IndexError"
    let (closed, passed) = finalize_virtual_trade s tick.price tick.at
    ok closed

  unfoldable pub settle_trade :
      VirtualTradeState F → List (TradeBar F) → Result (VirtualTradeState F)
  unfolding sell_rest
  settle_trade s bars = if zero_f <? s.remaining_fraction then sell_rest s bars else ok s

  -- `_manage_trade`, with the ticks of the entry's bar that are behind the entry
  unfoldable pub manage_trade :
      String
      → TradePlan F
      → F
      → Instant
      → ℕ
      → List (TradeBar F)
      → ℕ
      → List (ReplayTick F)
      → Result (ManagedTrade F)
  unfolding open_trade advance_virtual_trade_ticks advance_bars bars_from settle_trade
  manage_trade symbol plan fill entry_at quantity bars entry_bar_index remaining_entry_ticks = do
    stop ← or_raise plan.stop "AssertionError"
    tp1 ← or_raise plan.tp1 "AssertionError"
    tp2 ← or_raise plan.tp2 "AssertionError"
    opened ← open_trade fill stop tp1 tp2 entry_at
    let (entered, passed) = advance_virtual_trade_ticks opened remaining_entry_ticks none
    advanced ← advance_bars entered (bars_from (entry_bar_index + 1) bars)
    closed ← settle_trade advanced bars
    ok (record {
      symbol = symbol;
      plan_id = plan.plan_id;
      entry_at = entry_at;
      trigger = plan.entry_trigger;
      fill = fill;
      quantity = quantity;
      stop = stop;
      tp1 = tp1;
      tp2 = tp2;
      exit_legs = closed.exit_legs;
      r = closed.realized_r;
    })
