-- ===== src/Domain/Trading.antt =====
-- Plans, the wallet, reservations, decisions, positions and alerts of domain/models.py.
use market_brain.Prelude.{ℕ, Bool, String, Option, List}
use market_brain.Domain.Enums.{
  Instant, StrategyLane, SignalState, PlanStatus, ProtectionState, ReconciliationState,
}

pub record TradePlan (F : Type 0) : Type 0 where
  pub symbol : String
  pub lane : StrategyLane
  pub entry_trigger : F
  pub entry_zone_high : F
  pub stop : Option F
  pub tp1 : Option F
  pub tp2 : Option F
  pub max_spread_pct : F
  pub max_slippage_pct : F
  pub created_at : Instant
  pub expires_at : Instant
  pub quality_risk_multiplier : F
  pub plan_id : String
  pub status : PlanStatus
  pub reasons : List String
  pub evidence_hash : String
  pub source_ids : List String
  pub triggered_at : Option Instant

pub record WalletState (F : Type 0) : Type 0 where
  pub capital_base : F
  pub cash_available : F
  pub daily_realized_loss : F
  pub open_risk : F
  pub reserved_cash : F
  pub version : ℕ
  pub as_of : Instant

pub record Reservation (F : Type 0) : Type 0 where
  pub plan_id : String
  pub quantity : ℕ
  pub reserved_cash : F
  pub reserved_risk : F
  pub expires_at : Instant

pub record ActivationDecision (F : Type 0) : Type 0 where
  pub plan_id : String
  pub symbol : String
  pub state : SignalState
  pub reasons : List String
  pub quantity : ℕ
  pub entry : Option F
  pub stop : Option F
  pub tp1 : Option F
  pub tp2 : Option F

pub record PositionState (F : Type 0) : Type 0 where
  pub position_id : String
  pub plan_id : String
  pub symbol : String
  pub quantity : ℕ
  pub remaining_quantity : ℕ
  pub average_fill : F
  pub stop : Option F
  pub tp1 : Option F
  pub tp2 : Option F
  pub opened_at : Instant
  pub time_stop_at : Option Instant
  pub realized_pnl : F
  pub managed : Bool
  pub source : String
  pub closed_at : Option Instant
  pub protection : ProtectionState
  pub broker_stop_price : Option F
  pub broker_order_ref : Option String
  pub protected_quantity : ℕ
  pub reconciliation_state : ReconciliationState
  pub last_reconciled_at : Option Instant

-- An alert without its payload's free text.
pub record AlertRecord : Type 0 where
  pub kind : String
  pub alert_id : String
  pub subject : String
  pub created_at : Instant
  pub delivered_at : Option Instant
  pub attempts : ℕ
  pub last_error : Option String
  pub next_attempt_at : Option Instant
