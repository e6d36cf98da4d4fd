-- ===== src/Service/Exit.antt =====
-- `protect_position` and `confirm_exit` of orchestration/service.py.
pub mod Closing
use market_brain.Prelude.{
  ℕ, ◌+◌, ◌-◌, String, Bool, ◌||◌, Option, none, some, if◌then◌else◌, leb, ltb, ◌==◌,
}
use market_brain.Prelude.Result.{ok, ◌>>=◌, ◌>>◌, raise_if, or_raise}
use market_brain.Number.{Double, ◌⊕◌, ◌⊖◌, ◌⊗◌, ◌⊘◌, ◌<?◌, zero_f, is_zero_f, max_f, abs_f}
use market_brain.Domain.{Instant, WalletState, TradePlan, PositionState, protected}
use market_brain.Ledger.Events.{
  event_of, position_payload, LedgerEvent, stop_order_confirmed, exit_confirmed,
}
use market_brain.Ledger.Store.{Store, append, save_wallet, save_position, get_position, get_plan}
use market_brain.Service.Action.{Action, Config}

module _ {F : Type 0} ⦃num : Double F⦄ where
  -- `1e-9`
  abbrev pub epsilon : F
  epsilon = num.lit 1 9

  -- `max(0.0, (entry - stop) * quantity)`
  abbrev pub risk_of : F → F → ℕ → F
  risk_of entry stop quantity = max_f zero_f ((entry ⊖ stop) ⊗ num.of_int quantity)

  -- `round(entry + (entry - stop) * multiple, 4)`
  abbrev pub target_of : F → F → F → F
  target_of entry stop multiple = num.round 4 (entry ⊕ (entry ⊖ stop) ⊗ multiple)

  -- `0.0 if abs(x) < 1e-9 else x`
  abbrev pub snap : F → F
  snap x = if abs_f x <? epsilon then zero_f else x

  -- `x < -1e-9`
  abbrev pub is_below : F → Bool
  is_below x = x <? zero_f ⊖ epsilon

  abbrev pub plan_stop_of : Option (TradePlan F) → Option F
  plan_stop_of none = none
  plan_stop_of (some plan) = plan.stop

  abbrev pub first_stop : Option F → Option F → Option F
  first_stop none other = other
  first_stop (some stop) other = some stop

  -- `min_plan_stop`
  abbrev pub min_plan_stop : Config F → Option F → F → F
  min_plan_stop cfg none reference = reference
  min_plan_stop cfg (some stop) reference =
      stop ⊗ (num.lit 10 1 ⊖ cfg.stop_tolerance_pct ⊘ num.lit 100 0)

  -- the two refusals of a stop that is too low
  abbrev pub looser_reason : Option F → F → String
  looser_reason none price = "STOP_LOOSER_THAN_PLAN"
  looser_reason (some stop) price =
      if price <? stop ⊖ epsilon then "STOP_LOOSER_THAN_CURRENT" else "STOP_LOOSER_THAN_PLAN"

  abbrev pub protected_at : PositionState F → F → Option String → PositionState F
  protected_at position price ref = record position {
    stop = some price;
    broker_stop_price = some price;
    broker_order_ref = ref;
    protected_quantity = position.remaining_quantity;
    protection = protected;
    tp1 = some (target_of position.average_fill price (num.lit 15 1));
    tp2 = some (target_of position.average_fill price (num.lit 20 1));
  }

  -- an event that carries a position and a wallet, and the writes before it
  abbrev pub log_position : LedgerEvent F → PositionState F → WalletState F → Store F → Store F
  log_position event position wallet s =
      append event (save_wallet wallet (save_position position s))

  unfoldable pub protect_position :
      Config F → String → F → Option String → Instant → Action F (PositionState F)
  protect_position cfg position_id price ref now s = do
    position ← or_raise (get_position position_id s) "POSITION_OR_WALLET_MISSING"
    wallet ← or_raise s.wallet "POSITION_OR_WALLET_MISSING"
    let plan_stop = plan_stop_of (get_plan position.plan_id s)
    reference ← or_raise (first_stop position.stop plan_stop) "POSITION_STOP_UNDEFINED"
    let min_stop = max_f (min_plan_stop cfg plan_stop reference) reference
    raise_if (price <? min_stop ⊖ epsilon) (looser_reason position.stop price)
    let old_risk = risk_of position.average_fill reference position.remaining_quantity
    let new_risk = risk_of position.average_fill price position.remaining_quantity
    let proposed = wallet.open_risk ⊖ old_risk ⊕ new_risk
    raise_if (is_below proposed) "WALLET_ACCOUNTING_INVARIANT_BROKEN"
    let kept = protected_at position price ref
    let paid = record wallet {
      open_risk = snap proposed;
      version = wallet.version + 1;
      as_of = now;
    }
    let event = event_of stop_order_confirmed position_id (position_payload paid kept) now
    ok (kept, log_position event kept paid s)

  -- `position.stop or position.average_fill`: a stop of zero counts as none
  abbrev pub stop_or_fill : PositionState F → F
  stop_or_fill position = elim position.stop [
    | none ↦ position.average_fill
    | some stop ↦ if is_zero_f stop then position.average_fill else stop
  ]

  abbrev pub sold : PositionState F → F → ℕ → Instant → PositionState F
  sold position pnl quantity now =
      let left = position.remaining_quantity - quantity in
      record position {
        realized_pnl = position.realized_pnl ⊕ pnl;
        remaining_quantity = left;
        closed_at = if left == 0 then some now else position.closed_at;
      }

  abbrev pub paid_out : PositionState F → WalletState F → F → F → ℕ → Instant → WalletState F
  paid_out position wallet price pnl quantity now = record wallet {
    cash_available = wallet.cash_available ⊕ price ⊗ num.of_int quantity;
    open_risk =
        max_f zero_f
          (wallet.open_risk ⊖ risk_of position.average_fill (stop_or_fill position) quantity);
    daily_realized_loss =
        if pnl <? zero_f
        then wallet.daily_realized_loss ⊕ abs_f pnl
        else wallet.daily_realized_loss;
    version = wallet.version + 1;
    as_of = now;
  }

  unfoldable pub confirm_exit : String → F → ℕ → Instant → Action F (PositionState F)
  confirm_exit position_id price quantity now s = do
    position ← or_raise (get_position position_id s) "POSITION_OR_WALLET_MISSING"
    wallet ← or_raise s.wallet "POSITION_OR_WALLET_MISSING"
    raise_if (leb quantity 0 || ltb position.remaining_quantity quantity) "INVALID_EXIT_QUANTITY"
    let pnl = (price ⊖ position.average_fill) ⊗ num.of_int quantity
    let kept = sold position pnl quantity now
    let paid = paid_out position wallet price pnl quantity now
    let event = event_of exit_confirmed position_id (position_payload paid kept) now
    ok (kept, log_position event kept paid s)
