-- ===== src/Ledger/Replay.antt =====
-- ledger/replay.py: `rebuild_state`, one event at a time.
pub mod Append
use market_brain.Prelude.{
  String, Bool, true, false, Option, none, some, List, [], ◌∷◌, if◌then◌else◌,
}
use market_brain.Prelude.Dict.{Dict, insert, erase}
use market_brain.Prelude.Result.{Result, ok, err, ◌>>=◌}
use market_brain.Domain.{WalletState, TradePlan, Reservation, PositionState}
use market_brain.Ledger.Events.{
  EventType, wallet_seeded, wallet_reconciled, position_imported, capacity_reserved,
  capacity_released, fill_confirmed, stop_order_confirmed, exit_confirmed, plan_issued,
  reconciliation_completed, Payload, LedgerEvent,
}
use market_brain.Ledger.Store.{Store}

pub record Rebuilt (F : Type 0) : Type 0 where
  pub wallet : Option (WalletState F)
  pub plans : Dict (TradePlan F)
  pub reservations : Dict (Reservation F)
  pub positions : Dict (PositionState F)

-- `_WALLET_PAYLOAD_PATHS`: an event whose payload is a wallet, one that may carry one, or neither
pub data WalletPath : Type 0 where
  whole key absent : WalletPath

abbrev pub wallet_path : EventType → WalletPath
wallet_path wallet_seeded = whole
wallet_path wallet_reconciled = whole
wallet_path position_imported = key
wallet_path capacity_reserved = key
wallet_path capacity_released = key
wallet_path fill_confirmed = key
wallet_path stop_order_confirmed = key
wallet_path exit_confirmed = key
wallet_path _ = absent

abbrev pub is_plan_issued : EventType → Bool
is_plan_issued plan_issued = true
is_plan_issued _ = false

abbrev pub is_position_imported : EventType → Bool
is_position_imported position_imported = true
is_position_imported _ = false

abbrev pub is_reconciliation_completed : EventType → Bool
is_reconciliation_completed reconciliation_completed = true
is_reconciliation_completed _ = false

module _ {F : Type 0} where
  abbrev pub on_path : WalletPath → Option (WalletState F) → Result (Option (WalletState F))
  on_path whole none = err "INVALID_WALLET_SNAPSHOT"
  on_path whole (some wallet) = ok (some wallet)
  on_path key wallet = ok wallet
  on_path absent wallet = ok none

  -- `_wallet_snapshot`
  abbrev pub wallet_snapshot : LedgerEvent F → Result (Option (WalletState F))
  wallet_snapshot event = on_path (wallet_path event.event_type) event.payload.wallet

  abbrev pub or_else : Option (WalletState F) → Option (WalletState F) → Option (WalletState F)
  or_else none old = old
  or_else (some wallet) old = some wallet

  abbrev pub put_plan : Option (TradePlan F) → Dict (TradePlan F) → Dict (TradePlan F)
  put_plan none plans = plans
  put_plan (some plan) plans = insert plan.plan_id plan plans

  abbrev pub put_reservation : Option (Reservation F) → Dict (Reservation F) → Dict (Reservation F)
  put_reservation none rows = rows
  put_reservation (some row) rows = insert row.plan_id row rows

  -- `plan_payload.get("plan_id", event.aggregate_id)`
  abbrev pub deleted_key : LedgerEvent F → String
  deleted_key event = elim event.payload.plan [
    | none ↦ event.aggregate_id
    | some plan ↦ plan.plan_id
  ]

  abbrev pub put_position :
      Option (PositionState F) → Dict (PositionState F) → Dict (PositionState F)
  put_position none rows = rows
  put_position (some row) rows = insert row.position_id row rows

  unfoldable pub put_positions :
      List (PositionState F) → Dict (PositionState F) → Dict (PositionState F)
  put_positions [] rows = rows
  put_positions (row ∷ more) rows = put_positions more (insert row.position_id row rows)

  -- an import is read from the key `position`; an event without it lacks the fields
  abbrev pub put_imported :
      EventType
      → Option (PositionState F)
      → Dict (PositionState F)
      → Result (Dict (PositionState F))
  put_imported event_type position rows =
      if is_position_imported event_type
      then elim position [ none ↦ err "KeyError" | some row ↦ ok (insert row.position_id row rows) ]
      else ok rows

  -- the body of the loop
  unfoldable pub apply_event : Rebuilt F → LedgerEvent F → Result (Rebuilt F)
  apply_event r event = do
    let payload = event.payload
    wallet ← wallet_snapshot event
    let plans =
        put_plan payload.plan
          (if is_plan_issued event.event_type then put_plan payload.plan r.plans else r.plans)
    let kept = put_reservation payload.reservation r.reservations
    let reservations = if payload.reservation_deleted then erase (deleted_key event) kept else kept
    positions ←
        put_imported event.event_type payload.position (put_position payload.position r.positions)
    let reconciled =
        if is_reconciliation_completed event.event_type
        then put_positions payload.positions positions
        else positions
    ok (record {
      wallet = or_else wallet r.wallet;
      plans = plans;
      reservations = reservations;
      positions = reconciled;
    })

  unfoldable pub apply_events : Rebuilt F → List (LedgerEvent F) → Result (Rebuilt F)
  apply_events r [] = ok r
  apply_events r (event ∷ events) = apply_event r event >>= λ next. apply_events next events

  abbrev pub nothing : Rebuilt F
  nothing = record { wallet = none; plans = []; reservations = []; positions = [] }

  unfoldable pub rebuild_state : List (LedgerEvent F) → Result (Rebuilt F)
  rebuild_state events = apply_events nothing events

  -- the tables of a store that the ledger tells
  abbrev pub view : Store F → Rebuilt F
  view s = record {
    wallet = s.wallet;
    plans = s.plans;
    reservations = s.reservations;
    positions = s.positions;
  }
