-- ===== src/Backtest/Trade/Managed.antt =====
-- The loops of the virtual trade of replay/engine.py, and what `_manage_trade` returns.
use mathlib.Core.Path.{subst}
use market_brain.Prelude.{
  ap, refl, ◌∙◌, ◌≡◌, ◌⊎◌, inl, inr, ℕ, ◌+◌, String, Bool, true, false, Option, none, some, List,
  [], ◌∷◌, arith, if◌then◌else◌, Bool-cases,
}
use market_brain.Prelude.Result.{ok, ◌>>=◌, >>=-eq-ok, ok-injective, or_raise-eq-ok, raise_if-eq-ok}
use market_brain.Number.{Double, ◌<?◌, ◌≤?◌, zero_f}
use market_brain.Domain.{Instant, PositionState, TradePlan}
use market_brain.Backtest.Trade.{
  VirtualTradeState, ReplayTick, TradeBar, ManagedTrade, transition, stopped, timed_out,
  took_profit, trimmed, follow_ticks, virtual_position, open_trade, advance_virtual_trade_ticks,
  advance_virtual_trade_bar, advance_bars, finalize_virtual_trade, settle_trade, sell_rest,
  manage_trade, synthesize_bar_ticks, stamp_of, at_or, last_of, bars_from,
}
use market_brain.Backtest.Trade.Sold.{
  IsSplit, IsPhased, IsSold, untouched, on_time, exit-IsSold, IsPhase-IsSold, stopped-IsPhased,
  timed_out-IsPhased, took_profit-IsPhased, trimmed-IsPhased,
}

module _ {F : Type 0} ⦃num : Double F⦄ where
  -- where a tick may lead the loop
  follow_ticks-cases :
      (s : VirtualTradeState F) (position : PositionState F) (tick : ReplayTick F)
      (ticks : List (ReplayTick F))
      → let t = (follow_ticks s position (tick ∷ ticks)).0 in
        let trimmed_now = trimmed s tick.at in
        (t ≡ s)
        ⊎ (((s.remaining_fraction ≤? zero_f) ≡ false)
            × ((t ≡ stopped s tick.at)
                ⊎ ((t ≡ timed_out s tick.price tick.at)
                    ⊎ ((t ≡ took_profit s tick.at)
                        ⊎ ((t ≡ (follow_ticks s position ticks).0)
                            ⊎ ((s.tp1_taken ≡ false)
                                × (t
                                    ≡ (follow_ticks trimmed_now
                                        (record position { remaining_quantity = 1 })
                                        ticks).0)))))))
  unfolding follow_ticks
  follow_ticks-cases s position tick ticks = ground arith

  -- where a stretch of ticks may lead
  advance_virtual_trade_ticks-cases :
      (s : VirtualTradeState F) (tick : ReplayTick F) (ticks : List (ReplayTick F))
      (conflict_at : Option Instant)
      → let t = (advance_virtual_trade_ticks s (tick ∷ ticks) conflict_at).0 in
        (t ≡ s)
        ⊎ (((s.remaining_fraction ≤? zero_f) ≡ false)
            × ((t ≡ stopped s (at_or conflict_at tick.at))
                ⊎ (t ≡ (follow_ticks s (virtual_position s) (tick ∷ ticks)).0)))
  unfolding advance_virtual_trade_ticks
  advance_virtual_trade_ticks-cases s tick ticks conflict_at = ground arith

  -- the loop over the bars goes one bar on, or is done
  advance_bars-cases :
      (s : VirtualTradeState F) (bar : TradeBar F) (bars : List (TradeBar F))
      {t : VirtualTradeState F}
      → advance_bars s (bar ∷ bars) ≡ ok t
      → (s ≡ t)
        ⊎ ((ticks : List (ReplayTick F)) × (stamp : Instant) × (advance_bars
                (advance_virtual_trade_ticks s ticks (some stamp)).0
                bars
              ≡ ok t))
  unfolding advance_bars advance_virtual_trade_bar
  advance_bars-cases s bar bars {t} e = on_open (s.remaining_fraction ≤? zero_f) e
    where
      on_open :
          (closed : Bool)
          → (if closed
              then ok s
              else advance_virtual_trade_bar s bar >>= λ r. advance_bars r.0 bars)
            ≡ ok t
          → (s ≡ t)
            ⊎ ((ticks : List (ReplayTick F)) × (stamp : Instant) × (advance_bars
                    (advance_virtual_trade_ticks s ticks (some stamp)).0
                    bars
                  ≡ ok t))
      on_open true e = inl (ok-injective e)
      on_open false e =
          let (next, advanced, rest) = >>=-eq-ok (advance_virtual_trade_bar s bar) _ e in
          let (ticks, read, stamped) = >>=-eq-ok (synthesize_bar_ticks bar) _ advanced in
          let (stamp, at, made) = >>=-eq-ok (stamp_of bar) _ stamped in
          inr (ticks, stamp, ap (λ r. advance_bars r.0 bars) (ok-injective made) ∙ rest)

  finalized :
      (s : VirtualTradeState F) (price : F) (at : Instant) {t : VirtualTradeState F}
      → (finalize_virtual_trade s price at).0 ≡ t
      → ((((zero_f <? s.remaining_fraction) ≡ false) ⊎ ((s.remaining_fraction ≤? zero_f) ≡ true))
          × (s ≡ t))
        ⊎ (((s.remaining_fraction ≤? zero_f) ≡ false)
            × (price : F) × (at : Instant) × (timed_out s price at ≡ t))
  unfolding finalize_virtual_trade
  finalized s price at e = elim (Bool-cases (s.remaining_fraction ≤? zero_f)) [
    | inl none_left ↦ inl (inr none_left, ground arith)
    | inr open_now ↦ inr (open_now, price, at, ground arith)
  ]

  settle_trade-cases :
      (s : VirtualTradeState F) (bars : List (TradeBar F)) {t : VirtualTradeState F}
      → settle_trade s bars ≡ ok t
      → ((((zero_f <? s.remaining_fraction) ≡ false) ⊎ ((s.remaining_fraction ≤? zero_f) ≡ true))
          × (s ≡ t))
        ⊎ (((s.remaining_fraction ≤? zero_f) ≡ false)
            × (price : F) × (at : Instant) × (timed_out s price at ≡ t))
  unfolding settle_trade sell_rest
  settle_trade-cases s bars {t} e = elim (Bool-cases (zero_f <? s.remaining_fraction)) [
    | inr none_left ↦ inl (inl none_left, ok-injective (ground arith))
    | inl some_left ↦
        let (bar, found, e1) = or_raise-eq-ok (last_of bars) "IndexError" _ (sold some_left e) in
        let (ticks, read, e2) = >>=-eq-ok (synthesize_bar_ticks bar) _ e1 in
        let (tick, last, e3) = or_raise-eq-ok (last_of ticks) "IndexError" _ e2 in
        finalized s tick.price tick.at (ok-injective e3)
  ]
    where
      sold :
          (zero_f <? s.remaining_fraction) ≡ true
          → settle_trade s bars ≡ ok t
          → sell_rest s bars ≡ ok t
      sold some_left e = ground arith

  -- The trade starts untouched.
  open_trade-IsPhased :
      (fill stop tp1 tp2 : F) (entry_at : Instant) {s : VirtualTradeState F}
      → open_trade fill stop tp1 tp2 entry_at ≡ ok s
      → IsPhased stop tp1 tp2 s
  unfolding open_trade
  open_trade-IsPhased fill stop tp1 tp2 entry_at e =
      let (above, made) = raise_if-eq-ok (fill ≤? stop) _ _ e in
      subst (IsPhased stop tp1 tp2) (ok-injective made)
        (record { same_stop = refl; same_tp1 = refl; same_tp2 = refl; phase = untouched })

module _ {F : Type 0} ⦃num : Double F⦄ (split : IsSplit F) (stop tp1 tp2 : F) where
  follow_ticks-IsPhased :
      (s : VirtualTradeState F) (position : PositionState F) (ticks : List (ReplayTick F))
      → IsPhased stop tp1 tp2 s
      → IsPhased stop tp1 tp2 (follow_ticks s position ticks).0
  unfolding follow_ticks
  follow_ticks-IsPhased s position [] p = p
  follow_ticks-IsPhased s position (tick ∷ ticks) p =
      elim (follow_ticks-cases s position tick ticks)
        as (λ _. IsPhased stop tp1 tp2 (follow_ticks s position (tick ∷ ticks)).0) [
          | inl e ↦ rw e p
          | inr (o, inl e) ↦ rw e (stopped-IsPhased split stop tp1 tp2 p o tick.at)
          | inr (o, inr (inl e)) ↦
              rw e (timed_out-IsPhased split stop tp1 tp2 p o tick.price tick.at)
          | inr (o, inr (inr (inl e))) ↦ rw e (took_profit-IsPhased split stop tp1 tp2 p o tick.at)
          | inr (o, inr (inr (inr (inl e)))) ↦ rw e (follow_ticks-IsPhased s position ticks p)
          | inr (o, inr (inr (inr (inr (first, e))))) ↦ rw e (
              follow_ticks-IsPhased (trimmed s tick.at) (record position { remaining_quantity = 1 })
                ticks (trimmed-IsPhased split stop tp1 tp2 tick.at p o first))
        ]

  advance_virtual_trade_ticks-IsPhased :
      (s : VirtualTradeState F) (ticks : List (ReplayTick F)) (conflict_at : Option Instant)
      → IsPhased stop tp1 tp2 s
      → IsPhased stop tp1 tp2 (advance_virtual_trade_ticks s ticks conflict_at).0
  unfolding advance_virtual_trade_ticks
  advance_virtual_trade_ticks-IsPhased s [] conflict_at p = p
  advance_virtual_trade_ticks-IsPhased s (tick ∷ ticks) conflict_at p =
      elim (advance_virtual_trade_ticks-cases s tick ticks conflict_at)
        as (λ _.
          IsPhased stop tp1 tp2 (advance_virtual_trade_ticks s (tick ∷ ticks) conflict_at).0) [
            | inl e ↦ rw e p
            | inr (o, inl e) ↦
                rw e (stopped-IsPhased split stop tp1 tp2 p o (at_or conflict_at tick.at))
            | inr (o, inr e) ↦ rw e (follow_ticks-IsPhased s (virtual_position s) (tick ∷ ticks) p)
          ]

  advance_bars-IsPhased :
      (s : VirtualTradeState F) (bars : List (TradeBar F)) {t : VirtualTradeState F}
      → IsPhased stop tp1 tp2 s
      → advance_bars s bars ≡ ok t
      → IsPhased stop tp1 tp2 t
  unfolding advance_bars
  advance_bars-IsPhased s [] {t} p e =
      let same : s ≡ t = ok-injective e in subst (IsPhased stop tp1 tp2) same p
  advance_bars-IsPhased s (bar ∷ bars) {t} p e = elim (advance_bars-cases s bar bars e) [
    | inl same ↦ subst (IsPhased stop tp1 tp2) same p
    | inr (ticks, stamp, rest) ↦
        advance_bars-IsPhased (advance_virtual_trade_ticks s ticks (some stamp)).0 bars
          (advance_virtual_trade_ticks-IsPhased s ticks (some stamp) p) rest
  ]

  -- What is left behind the last bar is sold.
  settle_trade-IsSold :
      (s : VirtualTradeState F) (bars : List (TradeBar F)) {t : VirtualTradeState F}
      → IsPhased stop tp1 tp2 s
      → settle_trade s bars ≡ ok t
      → IsSold stop tp1 tp2 t.exit_legs
  unfolding transition
  settle_trade-IsSold s bars {t} p e = elim (settle_trade-cases s bars e) [
    | inl (none_left, same) ↦
        subst (λ (u : VirtualTradeState F). IsSold stop tp1 tp2 u.exit_legs) same
          (IsPhase-IsSold split stop tp1 tp2 p.phase none_left)
    | inr (open_now, price, at, same) ↦
        subst (λ (u : VirtualTradeState F). IsSold stop tp1 tp2 u.exit_legs) same
          (exit-IsSold split stop tp1 tp2 p.phase open_now (on_time price at))
  ]

module _ {F : Type 0} ⦃num : Double F⦄ (split : IsSplit F) where
  -- Every trade that is managed to its end has sold all of itself: in one exit of the whole, or a half
  -- at the first target and the other half in one exit, which is at the stop, at the second target or
  -- on time. This takes of the numbers that 1 and the two halves of it are positive, and that nothing
  -- is left of either when it is sold.
  pub manage_trade-IsSold :
      (symbol : String) (plan : TradePlan F) (fill : F) (entry_at : Instant) (quantity : ℕ)
      (bars : List (TradeBar F)) (entry_bar_index : ℕ) (remaining_entry_ticks : List (ReplayTick F))
      {trade : ManagedTrade F}
      → manage_trade symbol plan fill entry_at quantity bars entry_bar_index remaining_entry_ticks
        ≡ ok trade
      → IsSold trade.stop trade.tp1 trade.tp2 trade.exit_legs
  unfolding manage_trade open_trade
  manage_trade-IsSold symbol plan fill entry_at quantity bars index ticks {trade} e =
      let (stop, has_stop, e1) = or_raise-eq-ok plan.stop _ _ e in
      let (tp1, has_tp1, e2) = or_raise-eq-ok plan.tp1 _ _ e1 in
      let (tp2, has_tp2, e3) = or_raise-eq-ok plan.tp2 _ _ e2 in
      let (opened, o, e4) = >>=-eq-ok (open_trade fill stop tp1 tp2 entry_at) _ e3 in
      let entered = advance_virtual_trade_ticks opened ticks none in
      let (advanced, a, e5) =
        >>=-eq-ok (advance_bars entered.0 (bars_from (index + 1) bars)) _ e4 in
      let (closed, c, e6) = >>=-eq-ok (settle_trade advanced bars) _ e5 in
      let start =
        advance_virtual_trade_ticks-IsPhased split stop tp1 tp2 opened ticks none
          (open_trade-IsPhased fill stop tp1 tp2 entry_at o) in
      let sold =
        settle_trade-IsSold split stop tp1 tp2 advanced bars
          (advance_bars-IsPhased split stop tp1 tp2 entered.0 (bars_from (index + 1) bars) start a)
          c in
      subst (λ (u : ManagedTrade F). IsSold u.stop u.tp1 u.tp2 u.exit_legs) (ok-injective e6) sold
