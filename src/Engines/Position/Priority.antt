-- ===== src/Engines/Position/Priority.antt =====
-- The order of the answers of engines/position.py.
use market_brain.Prelude.{
  ◌≡◌, ◌↔◌, ◌⊎◌, is_some, Bool, true, false, some, arith, some_of, ◌&&◌, ◌+◌, ◌≤◌,
}
use market_brain.Prelude.Result.{ok}
use market_brain.Number.{Double, ◌<?◌, ◌≤?◌}
use market_brain.Domain.{
  Instant, PositionState, PositionAction, hold, trim, take_profit, sell_now, protected, reconciled,
  is_unprotected, is_reconciled,
}
use market_brain.Engines.Position.{
  is_over, stop_hit, is_stale, on_targets, on_levels, evaluate_position, validate_stop_change,
}

-- HOLD, TRIM and TAKE_PROFIT
abbrev pub is_calm : PositionAction → Bool
is_calm hold = true
is_calm trim = true
is_calm take_profit = true
is_calm _ = false

module _ {F : Type 0} ⦃num : Double F⦄ where
  -- A position that can be held or trimmed: open, managed, protected and lately reconciled, with a
  -- stop that is not hit.
  pub record IsInOrder (p : PositionState F) (last : F) (max_age now : Instant) : Type 0 where
    pub stop : F
    pub tp1 : F
    pub tp2 : F
    pub at : Instant
    pub is_open : is_over p ≡ false
    pub managed : p.managed ≡ true
    pub protected : p.protection ≡ protected
    pub reconciled : p.reconciliation_state ≡ reconciled
    pub has_stop : p.stop ≡ some stop
    pub has_tp1 : p.tp1 ≡ some tp1
    pub has_tp2 : p.tp2 ≡ some tp2
    pub has_reconciled : p.last_reconciled_at ≡ some at
    pub above_stop : (last ≤? stop) ≡ false
    pub recent : now ≤ at + max_age

  -- The levels that each answer which asks for no repair implies.
  abbrev pub Levels : PositionAction → F → F → F → Type 0
  Levels hold last tp1 tp2 = ((tp2 ≤? last) ≡ false) × ((tp1 ≤? last) ≡ false)
  Levels trim last tp1 tp2 = ((tp2 ≤? last) ≡ false) × ((tp1 ≤? last) ≡ true)
  Levels take_profit last tp1 tp2 = (tp2 ≤? last) ≡ true
  Levels _ last tp1 tp2 = Unit

  evaluate_position-on_levels :
      (p : PositionState F) (last : F) (below failed : Bool) (max_age now : Instant)
      → is_calm (evaluate_position (some p) last below failed max_age now) ≡ true
      → (is_over p ≡ false)
        × (stop_hit p last ≡ false)
        × (is_unprotected p.protection ≡ false)
        × (evaluate_position (some p) last below failed max_age now ≡ on_levels p last max_age now)
  unfolding evaluate_position
  evaluate_position-on_levels p last below failed max_age now h = ground arith

  module _ (p : PositionState F) (last : F) (max_age now : Instant) where
    on_levels-Levels :
        is_calm (on_levels p last max_age now) ≡ true
        → (p.managed ≡ true)
          × (is_some p.stop ≡ true)
          × (is_some p.tp1 ≡ true)
          × (is_some p.tp2 ≡ true)
          × (is_some p.time_stop_at ≡ true)
    unfolding on_levels
    on_levels-Levels h = ground arith

    on_levels-on_targets :
        {stop tp1 tp2 : F} {time_stop : Instant}
        → p.managed ≡ true
        → p.stop ≡ some stop
        → p.tp1 ≡ some tp1
        → p.tp2 ≡ some tp2
        → p.time_stop_at ≡ some time_stop
        → on_levels p last max_age now ≡ on_targets p last max_age now tp1 tp2 time_stop
    unfolding on_levels
    on_levels-on_targets m e1 e2 e3 e4 = ground arith

    on_targets-Levels :
        (tp1 tp2 : F) (time_stop : Instant)
        → let action = on_targets p last max_age now tp1 tp2 time_stop in
          is_calm action ≡ true
          → (is_reconciled p.reconciliation_state ≡ true)
            × (is_stale p.last_reconciled_at max_age now ≡ false)
            × Levels action last tp1 tp2
    on_targets-Levels tp1 tp2 time_stop h = ground arith

    recent_of :
        is_stale p.last_reconciled_at max_age now ≡ false
        → (at : Instant) × (p.last_reconciled_at ≡ some at) × (now ≤ at + max_age)
    recent_of h = let (at, e) = some_of p.last_reconciled_at (ground arith) in (at, e, ground arith)

  -- HOLD, TRIM and TAKE_PROFIT are said only of a position in order, and tell where the price stands
  -- to the two targets.
  pub evaluate_position-IsInOrder :
      (p : PositionState F) (last : F) (below failed : Bool) (max_age now : Instant)
      → let action = evaluate_position (some p) last below failed max_age now in
        is_calm action ≡ true
        → (order : IsInOrder p last max_age now) × Levels action last order.tp1 order.tp2
  evaluate_position-IsInOrder p last below failed max_age now h =
      let (o, s, u, e) = evaluate_position-on_levels p last below failed max_age now h in
      let calm : is_calm (on_levels p last max_age now) ≡ true = rw e at h in
      let (m, s1, s2, s3, s4) = on_levels-Levels p last max_age now calm in
      let (stop, e1) = some_of p.stop s1 in
      let (tp1, e2) = some_of p.tp1 s2 in
      let (tp2, e3) = some_of p.tp2 s3 in
      let (time_stop, e4) = some_of p.time_stop_at s4 in
      let same = on_levels-on_targets p last max_age now m e1 e2 e3 e4 in
      let (r, st, levels) =
        on_targets-Levels p last max_age now tp1 tp2 time_stop (rw same at calm) in
      let (at, e5, recent) = recent_of p last max_age now st in
      (
        record {
          stop = stop;
          tp1 = tp1;
          tp2 = tp2;
          at = at;
          is_open = o;
          managed = m;
          protected = ground arith;
          reconciled = ground arith;
          has_stop = e1;
          has_tp1 = e2;
          has_tp2 = e3;
          has_reconciled = e5;
          above_stop = ground arith;
          recent = recent;
        },
        rw (e, same) levels,
      )

  -- A stop that is hit, or a failed breakout below the VWAP, sells an open position before every
  -- other check: its protection, its levels and its reconciliation are not asked.
  pub evaluate_position-stop_hit :
      (p : PositionState F) (last : F) (below failed : Bool) (max_age now : Instant)
      → is_over p ≡ false
      → (stop_hit p last ≡ true) ⊎ ((failed && below) ≡ true)
      → evaluate_position (some p) last below failed max_age now ≡ sell_now
  unfolding evaluate_position
  evaluate_position-stop_hit p last below failed max_age now o h = ground arith

  -- A stop may be moved exactly where the position has both levels, upwards or not at all, and to
  -- below the first target.
  pub validate_stop_change_iff :
      (p : PositionState F) (new : F)
      → (validate_stop_change p new ≡ ok tt) ↔ (
          (stop : F) × (tp1 : F) × (p.stop ≡ some stop)
          × (p.tp1 ≡ some tp1)
          × ((new <? stop) ≡ false)
          × ((tp1 ≤? new) ≡ false))
  unfolding validate_stop_change
  validate_stop_change_iff p new = (validates, λ v. ground arith)
    where
      validates :
          validate_stop_change p new ≡ ok tt
          → (stop : F) × (tp1 : F) × (p.stop ≡ some stop)
            × (p.tp1 ≡ some tp1)
            × ((new <? stop) ≡ false)
            × ((tp1 ≤? new) ≡ false)
      validates h =
          let (stop, e1) = some_of p.stop (ground arith) in
          let (tp1, e2) = some_of p.tp1 (ground arith) in
          (stop, tp1, e1, e2, ground arith, ground arith)
