-- ===== src/Engines/Position.antt =====
-- engines/position.py: what to do with an open position.
pub mod Priority
use market_brain.Prelude.{
  ◌+◌, Bool, true, false, not, ◌||◌, ◌&&◌, Option, none, some, if◌then◌else◌, ltb, leb, is_some,
}
use market_brain.Prelude.Result.{Result, ◌>>=◌, ◌>>◌, raise_if, or_raise}
use market_brain.Number.{Double, ◌<?◌, ◌≤?◌}
use market_brain.Domain.{
  Instant, PositionState, PositionAction, hold, trim, take_profit, sell_now, unknown_position,
  place_stop_now, reconcile_required, is_unprotected, is_reconciled,
}

-- no reconciliation in the last `max_age` microseconds
abbrev pub is_stale : Option Instant → Instant → Instant → Bool
is_stale none max_age now = true
is_stale (some at) max_age now = ltb (at + max_age) now

module _ {F : Type 0} ⦃num : Double F⦄ where
  -- `position.closed_at is not None or position.remaining_quantity <= 0`
  abbrev pub is_over : PositionState F → Bool
  is_over position = is_some position.closed_at || leb position.remaining_quantity 0

  -- `position.stop is not None and last <= position.stop`
  abbrev pub stop_hit : PositionState F → F → Bool
  stop_hit position last = elim position.stop [ none ↦ false | some stop ↦ last ≤? stop ]

  -- from the tests of the levels on
  abbrev pub on_targets : PositionState F → F → Instant → Instant → F → F → Instant → PositionAction
  on_targets position last max_age now tp1 tp2 time_stop =
      if not (is_reconciled position.reconciliation_state)
        || is_stale position.last_reconciled_at max_age now
      then reconcile_required
      else if leb time_stop now && last <? position.average_fill
      then sell_now
      else if tp2 ≤? last
      then take_profit
      else if tp1 ≤? last
      then trim
      else hold

  -- a position that is not managed or lacks a level
  unfoldable pub on_levels : PositionState F → F → Instant → Instant → PositionAction
  on_levels position last max_age now =
      if not position.managed then reconcile_required else elim position.stop [
        | none ↦ reconcile_required
        | some stop ↦ elim position.tp1 [
          | none ↦ reconcile_required
          | some tp1 ↦ elim position.tp2 [
            | none ↦ reconcile_required
            | some tp2 ↦ elim position.time_stop_at [
              | none ↦ reconcile_required
              | some time_stop ↦ on_targets position last max_age now tp1 tp2 time_stop
            ]
          ]
        ]
      ]

  unfoldable pub evaluate_position :
      Option (PositionState F) → F → Bool → Bool → Instant → Instant → PositionAction
  evaluate_position none last below_vwap failed_breakout max_age now = unknown_position
  evaluate_position (some position) last below_vwap failed_breakout max_age now =
      if is_over position
      then unknown_position
      else if stop_hit position last
      then sell_now
      else if failed_breakout && below_vwap
      then sell_now
      else if is_unprotected position.protection
      then place_stop_now
      else on_levels position last max_age now

  pub validate_stop_change : PositionState F → F → Result (Unit {0})
  validate_stop_change position new_stop = do
    stop ← or_raise position.stop "POSITION_STOP_UNDEFINED"
    raise_if (new_stop <? stop) "STOP_WIDENING_FORBIDDEN"
    tp1 ← or_raise position.tp1 "POSITION_TARGET_UNDEFINED"
    raise_if (tp1 ≤? new_stop) "STOP_ABOVE_TARGET_INVALID"
