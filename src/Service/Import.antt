-- ===== src/Service/Import.antt =====
-- `import_position` of orchestration/service.py.
use market_brain.Prelude.{
  ℕ, ◌+◌, ◌*◌, String, Bool, true, false, not, ◌&&◌, ◌||◌, Option, none, some, if◌then◌else◌, leb,
  is_some, str_eq,
}
use market_brain.Prelude.Lists.{any}
use market_brain.Prelude.Result.{ok, ◌>>=◌, ◌>>◌, raise_if, or_raise}
use market_brain.Number.{Double, ◌⊕◌, ◌⊖◌, ◌⊗◌, ◌<?◌, ◌≤?◌, zero_f, max_f}
use market_brain.Domain.{
  Instant, minute, WalletState, PositionState, protected, unprotected, reconciled,
}
use market_brain.Ledger.Events.{
  event_of, empty_payload, position_payload, LedgerEvent, position_imported, position_unprotected,
}
use market_brain.Ledger.Store.{Store, append, save_wallet, save_position, list_positions}
use market_brain.Service.Action.{Action, Config}
use market_brain.Service.Wallet.{is_open}

-- The arguments of `import_position`, and the two random identifiers.
pub record Import (F : Type 0) : Type 0 where
  pub symbol : String
  pub quantity : ℕ
  pub average_fill : F
  pub stop_order_price : Option F
  pub broker_order_ref : Option String
  pub opened_at : Option Instant
  pub time_stop_minutes : ℕ
  pub position_id : String
  pub plan_id : String

-- `opened_at or now`
abbrev pub or_instant : Option Instant → Instant → Instant
or_instant none now = now
or_instant (some at) now = at

-- `value if protected else None`
abbrev pub keep_if {ℓ} : {A : Type ℓ} → Bool → Option A → Option A
keep_if true o = o
keep_if false o = none

module _ {F : Type 0} ⦃num : Double F⦄ where
  -- A target of an import: only a stop below the fill gives one.
  abbrev pub import_target : F → F → Option F → Option F
  import_target multiple fill none = none
  import_target multiple fill (some stop) =
      let r_value = fill ⊖ stop in
      if zero_f <? r_value then some (num.round 4 (fill ⊕ r_value ⊗ multiple)) else none

  -- `position_risk`: all of the value where no stop is known
  abbrev pub import_risk : F → ℕ → Option F → F
  import_risk fill quantity none = fill ⊗ num.of_int quantity
  import_risk fill quantity (some stop) = max_f zero_f ((fill ⊖ stop) ⊗ num.of_int quantity)

  abbrev pub is_not_positive : Option F → Bool
  is_not_positive none = false
  is_not_positive (some stop) = stop ≤? zero_f

  -- an open position for the symbol
  abbrev pub has_symbol : Config F → String → Store F → Bool
  has_symbol cfg symbol s =
      any (λ row. str_eq (cfg.upper row.symbol) (cfg.upper symbol) && is_open row)
        (list_positions s)

  abbrev pub imported : Config F → Import F → Instant → PositionState F
  imported cfg i now =
      let protects = is_some i.stop_order_price in
      record {
        position_id = i.position_id;
        plan_id = i.plan_id;
        symbol = cfg.upper i.symbol;
        quantity = i.quantity;
        remaining_quantity = i.quantity;
        average_fill = i.average_fill;
        stop = i.stop_order_price;
        tp1 = import_target (num.lit 15 1) i.average_fill i.stop_order_price;
        tp2 = import_target (num.lit 20 1) i.average_fill i.stop_order_price;
        opened_at = or_instant i.opened_at now;
        time_stop_at = some (or_instant i.opened_at now + i.time_stop_minutes * minute);
        realized_pnl = zero_f;
        managed = true;
        source = "MANUAL_IMPORT";
        closed_at = none;
        protection = if protects then protected else unprotected;
        broker_stop_price = i.stop_order_price;
        broker_order_ref = keep_if protects i.broker_order_ref;
        protected_quantity = if protects then i.quantity else 0;
        reconciliation_state = reconciled;
        last_reconciled_at = some now;
      }

  abbrev pub import_wallet : Import F → Instant → WalletState F → WalletState F
  import_wallet i now wallet = record wallet {
    cash_available = wallet.cash_available ⊖ i.average_fill ⊗ num.of_int i.quantity;
    open_risk = wallet.open_risk ⊕ import_risk i.average_fill i.quantity i.stop_order_price;
    version = wallet.version + 1;
    as_of = now;
  }

  -- an event that carries no table row
  abbrev pub notice : LedgerEvent F → Bool → Store F → Store F
  notice event true s = append event s
  notice event false s = s

  abbrev pub unprotected_event : PositionState F → Instant → LedgerEvent F
  unprotected_event position now = record {
    event_type = position_unprotected;
    aggregate_id = position.position_id;
    payload = empty_payload;
    occurred_at = now;
  }

  unfoldable pub import_position : Config F → Import F → Instant → Action F (PositionState F)
  import_position cfg i now s = do
    wallet ← or_raise s.wallet "WALLET_NOT_SEEDED"
    raise_if (leb i.quantity 0 || i.average_fill ≤? zero_f) "INVALID_IMPORTED_POSITION"
    raise_if (is_not_positive i.stop_order_price) "INVALID_IMPORTED_STOP"
    raise_if (has_symbol cfg i.symbol s) "OPEN_POSITION_ALREADY_EXISTS_FOR_SYMBOL"
    let position = imported cfg i now
    let paid = import_wallet i now wallet
    let event = event_of position_imported i.position_id (position_payload paid position) now
    ok (
      position,
      notice (unprotected_event position now) (not (is_some i.stop_order_price))
          (append event (save_wallet paid (save_position position s))),
    )
