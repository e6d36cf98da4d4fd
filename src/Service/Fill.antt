-- ===== src/Service/Fill.antt =====
-- `confirm_fill` of orchestration/service.py.
pub mod Drawing
use market_brain.Prelude.{
  ℕ, ◌+◌, ◌-◌, ◌*◌, String, Bool, true, not, ◌&&◌, ◌||◌, Option, none, some, if◌then◌else◌, leb,
  ltb, ◌==◌, is_some, str_eq,
}
use market_brain.Prelude.Lists.{length, first}
use market_brain.Prelude.Result.{Result, ok, ◌>>=◌, ◌>>◌, raise_if, or_raise}
use market_brain.Number.{Double, ◌⊕◌, ◌⊖◌, ◌⊗◌, ◌⊘◌, ◌<?◌, zero_f}
use market_brain.Domain.{
  Instant, minute, WalletState, TradePlan, Reservation, PositionState, PlanStatus, protected,
  unprotected, reconciled, is_filled, is_reserved, is_unprotected,
}
use market_brain.Ledger.Events.{event_of, empty_payload, fill_confirmed}
use market_brain.Ledger.Store.{
  Store, append, save_plan, save_wallet, save_reservation, delete_reservation, save_position,
  get_plan, get_reservation,
}
use market_brain.Service.Action.{Action, Config}
use market_brain.Service.Wallet.{open_positions}
use market_brain.Service.Import.{keep_if, notice, unprotected_event}
use market_brain.Service.Capacity.{sweep_expired}
use market_brain.Service.Exit.{epsilon, risk_of, target_of, snap, is_below}
use market_brain.Service.Checks.{
  max_fill, find_existing, existing_stop, check_stop, loosest_stop, check_reservation, check_price,
  prior_quantity, prior_value, entry_average, effective_stop, allowed_risk, check_limits, Fill,
}

module _ {F : Type 0} ⦃num : Double F⦄ where
  -- a first fill
  abbrev pub opened : Fill F → TradePlan F → F → Instant → PositionState F
  opened fill plan stop now =
      let placed = fill.stop_order_placed in
      record {
        position_id = fill.position_id;
        plan_id = fill.plan_id;
        symbol = plan.symbol;
        quantity = fill.quantity;
        remaining_quantity = fill.quantity;
        average_fill = fill.fill_price;
        stop = some stop;
        tp1 = some (target_of fill.fill_price stop (num.lit 15 1));
        tp2 = some (target_of fill.fill_price stop (num.lit 20 1));
        opened_at = now;
        time_stop_at = some (now + fill.time_stop_minutes * minute);
        realized_pnl = zero_f;
        managed = true;
        source = "FILL_ACK";
        closed_at = none;
        protection = if placed then protected else unprotected;
        broker_stop_price = keep_if placed fill.stop_order_price;
        broker_order_ref = keep_if placed fill.broker_order_ref;
        protected_quantity = if placed then fill.quantity else 0;
        reconciliation_state = reconciled;
        last_reconciled_at = some now;
      }

  -- a further fill of the same plan
  abbrev pub increased : Fill F → PositionState F → F → Instant → PositionState F
  increased fill row stop now =
      let placed = fill.stop_order_placed in
      let average = entry_average fill (some row) in
      let remaining = row.remaining_quantity + fill.quantity in
      let covered = if placed then remaining else row.protected_quantity in
      record row {
        average_fill = average;
        quantity = row.quantity + fill.quantity;
        remaining_quantity = remaining;
        stop = some stop;
        broker_stop_price = if placed then fill.stop_order_price else row.broker_stop_price;
        broker_order_ref = if placed then fill.broker_order_ref else row.broker_order_ref;
        protected_quantity = covered;
        protection = if covered == remaining then protected else unprotected;
        reconciliation_state = reconciled;
        last_reconciled_at = some now;
        tp1 = some (target_of average stop (num.lit 15 1));
        tp2 = some (target_of average stop (num.lit 20 1));
      }

  abbrev pub filled_position :
      Fill F → TradePlan F → Option (PositionState F) → F → Instant → PositionState F
  filled_position fill plan none stop now = opened fill plan stop now
  filled_position fill plan (some row) stop now = increased fill row stop now

  -- `old_position_risk`
  abbrev pub old_risk : Option (PositionState F) → F
  old_risk none = zero_f
  old_risk (some row) = elim row.stop [
    | none ↦ zero_f
    | some stop ↦ risk_of row.average_fill stop row.quantity
  ]

  -- what is left of the reservation
  abbrev pub drawn : Fill F → TradePlan F → F → Reservation F → Reservation F
  drawn fill plan plan_stop reservation =
      let left = reservation.quantity - fill.quantity in
      record reservation {
        quantity = left;
        reserved_cash = num.round 2 (num.of_int left ⊗ plan.entry_zone_high);
        reserved_risk = num.round 2 (num.of_int left ⊗ (plan.entry_trigger ⊖ plan_stop));
      }

  -- the wallet before the small amounts are cleared
  abbrev pub charged :
      Fill F → WalletState F → (old new : Reservation F) → (old_risk new_risk : F) → WalletState F
  charged fill wallet old new before after = record wallet {
    reserved_cash = wallet.reserved_cash ⊖ (old.reserved_cash ⊖ new.reserved_cash);
    open_risk = wallet.open_risk ⊖ old.reserved_risk ⊕ new.reserved_risk ⊖ before ⊕ after;
    cash_available = wallet.cash_available ⊖ fill.fill_price ⊗ num.of_int fill.quantity;
  }

  abbrev pub is_broken : WalletState F → Bool
  is_broken wallet =
      is_below wallet.reserved_cash || is_below wallet.open_risk || is_below wallet.cash_available

  abbrev pub cleared : WalletState F → Instant → WalletState F
  cleared wallet now = record wallet {
    reserved_cash = snap wallet.reserved_cash;
    open_risk = snap wallet.open_risk;
    cash_available = snap wallet.cash_available;
    version = wallet.version + 1;
    as_of = now;
  }

  -- the writes, and the event that carries them
  abbrev pub log_fill :
      String
      → TradePlan F
      → WalletState F
      → Reservation F
      → PositionState F
      → Instant
      → Store F
      → Store F
  log_fill plan_id plan wallet reservation position now s =
      let used_up = reservation.quantity == 0 in
      let kept = record plan {
        status = if used_up then PlanStatus.filled else PlanStatus.reserved;
      } in
      append
        (event_of fill_confirmed position.position_id
          (record empty_payload {
            wallet = some wallet;
            plan = some kept;
            reservation = if used_up then none else some reservation;
            reservation_deleted = used_up;
            position = some position;
          })
          now)
        (save_plan kept (
          save_wallet wallet (
            save_position position
              (if used_up then delete_reservation plan_id s else save_reservation reservation s))))

  -- from the first read behind the sweep on
  unfoldable pub fill_reserved :
      Config F → Fill F → (checked_at now : Instant) → Store F → Result (PositionState F × Store F)
  fill_reserved cfg fill checked_at now s = do
    found ← check_reservation fill checked_at s
    let plan = found.0
    let wallet = found.1
    plan_stop ← check_price fill plan wallet found.2
    let existing = find_existing fill.plan_id s
    stop ← check_limits cfg fill plan wallet existing plan_stop (length (open_positions s))
    let position = filled_position fill plan existing stop now
    let left = drawn fill plan plan_stop found.2
    let after = risk_of position.average_fill stop position.quantity
    let charge = charged fill wallet found.2 left (old_risk existing) after
    raise_if (is_broken charge) "WALLET_ACCOUNTING_INVARIANT_BROKEN"
    let t = log_fill fill.plan_id plan (cleared charge now) left position now s
    ok (position, notice (unprotected_event position now) (is_unprotected position.protection) t)

  -- `sweep_at`, `checked_at` and `now` are the three readings of the clock.
  unfoldable pub confirm_fill :
      Config F → Fill F → (sweep_at checked_at now : Instant) → Action F (PositionState F)
  confirm_fill cfg fill sweep_at checked_at now s =
      fill_reserved cfg fill checked_at now (sweep_expired sweep_at s).1
