-- ===== src/Service/Replay/Consistent.antt =====
-- Stores whose rows stand under their own keys, and those that ledger/replay.py rebuilds.
use market_brain.Prelude.{String}
use market_brain.Prelude.Dict.{Keyed}
use market_brain.Domain.{TradePlan, Reservation, PositionState}
use market_brain.Ledger.Store.{Store}
use market_brain.Ledger.Replay.Append.{IsReplayable, Logs, Logs-IsReplayable}

module _ {F : Type 0} where
  abbrev pub plan_key : TradePlan F → String
  plan_key plan = plan.plan_id

  abbrev pub reservation_key : Reservation F → String
  reservation_key row = row.plan_id

  abbrev pub position_key : PositionState F → String
  position_key row = row.position_id

  abbrev pub IsKeyed : Store F → Type 0
  IsKeyed s =
      Keyed plan_key s.plans × Keyed reservation_key s.reservations × Keyed position_key s.positions

  pub record IsConsistent (s : Store F) : Type 0 where
    pub keyed : IsKeyed s
    pub replayable : IsReplayable s

  -- A step that keeps the keys and logs what it does.
  pub record Keeps (s t : Store F) : Type 0 where
    pub keyed : IsKeyed t
    pub logs : Logs s t

  pub Keeps-IsConsistent : {s t : Store F} → Keeps s t → IsConsistent s → IsConsistent t
  Keeps-IsConsistent k h = record {
    keyed = k.keyed;
    replayable = Logs-IsReplayable k.logs h.replayable;
  }
