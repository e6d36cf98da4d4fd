-- ===== src/Ledger/Events.antt =====
-- ledger/events.py. The payload holds the keys that `rebuild_state` reads, and the records in them as
-- they are: `asdict` and the `_..._from_json` of ledger/store.py are taken to keep every field. Its
-- other keys inform a reader of the ledger and are not modelled, nor is the random `event_id`.
use market_brain.Prelude.{String, Bool, false, Option, none, some, List, []}
use market_brain.Domain.{Instant, WalletState, TradePlan, Reservation, PositionState}

pub data EventType : Type 0 where
  wallet_seeded wallet_reconciled position_imported capacity_reserved capacity_released : EventType
  fill_confirmed stop_order_confirmed exit_confirmed : EventType
  plan_issued plan_expired plan_evaluated trigger_hit buy_now_emitted : EventType
  reconciliation_mismatch unknown_holding reconciliation_completed : EventType
  position_unprotected position_evaluated : EventType
  alert_delivered alert_delivery_failed stream_stale stream_recovered : EventType

pub record Payload (F : Type 0) : Type 0 where
  -- the key `wallet`, or the payload itself for the two events whose payload is a wallet
  pub wallet : Option (WalletState F)
  pub plan : Option (TradePlan F)
  pub reservation : Option (Reservation F)
  pub reservation_deleted : Bool
  pub position : Option (PositionState F)
  pub positions : List (PositionState F)

pub record LedgerEvent (F : Type 0) : Type 0 where
  pub event_type : EventType
  pub aggregate_id : String
  pub payload : Payload F
  pub occurred_at : Instant

module _ {F : Type 0} where
  abbrev pub event_of : EventType → String → Payload F → Instant → LedgerEvent F
  event_of event_type aggregate_id payload occurred_at = record {
    event_type = event_type;
    aggregate_id = aggregate_id;
    payload = payload;
    occurred_at = occurred_at;
  }

  abbrev pub empty_payload : Payload F
  empty_payload = record {
    wallet = none;
    plan = none;
    reservation = none;
    reservation_deleted = false;
    position = none;
    positions = [];
  }

  -- `{"position": asdict(position), "wallet": asdict(wallet)}`
  abbrev pub position_payload : WalletState F → PositionState F → Payload F
  position_payload wallet position = record empty_payload {
    wallet = some wallet;
    position = some position;
  }
