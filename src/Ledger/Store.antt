-- ===== src/Ledger/Store.antt =====
-- ledger/store.py: the tables of a store, each a dict, and the operations on them. What `get_*`
-- returns is a copy, as in `PostgresEventStore`: a change is kept by the `save_*` that follows.
use market_brain.Prelude.{String, Option, none, some, List, [], ◌∷◌, ◌++◌}
use market_brain.Prelude.Dict.{Dict, lookup, insert, erase, values}
use market_brain.Domain.{WalletState, TradePlan, Reservation, PositionState, AlertRecord}
use market_brain.Ledger.Events.{LedgerEvent}

pub record Store (F : Type 0) : Type 0 where
  pub events : List (LedgerEvent F)
  pub plans : Dict (TradePlan F)
  pub wallet : Option (WalletState F)
  pub reservations : Dict (Reservation F)
  pub positions : Dict (PositionState F)
  pub alerts : Dict AlertRecord

module _ {F : Type 0} where
  abbrev pub empty_store : Store F
  empty_store = record {
    events = [];
    plans = [];
    wallet = none;
    reservations = [];
    positions = [];
    alerts = [];
  }

  abbrev pub append : LedgerEvent F → Store F → Store F
  append event s = record s { events = s.events ++ event ∷ [] }

  abbrev pub save_plan : TradePlan F → Store F → Store F
  save_plan plan s = record s { plans = insert plan.plan_id plan s.plans }

  abbrev pub get_plan : String → Store F → Option (TradePlan F)
  get_plan plan_id s = lookup plan_id s.plans

  abbrev pub list_plans : Store F → List (TradePlan F)
  list_plans s = values s.plans

  abbrev pub save_wallet : WalletState F → Store F → Store F
  save_wallet wallet s = record s { wallet = some wallet }

  abbrev pub save_reservation : Reservation F → Store F → Store F
  save_reservation reservation s = record s {
    reservations = insert reservation.plan_id reservation s.reservations;
  }

  abbrev pub get_reservation : String → Store F → Option (Reservation F)
  get_reservation plan_id s = lookup plan_id s.reservations

  abbrev pub list_reservations : Store F → List (Reservation F)
  list_reservations s = values s.reservations

  abbrev pub delete_reservation : String → Store F → Store F
  delete_reservation plan_id s = record s { reservations = erase plan_id s.reservations }

  abbrev pub save_position : PositionState F → Store F → Store F
  save_position position s = record s {
    positions = insert position.position_id position s.positions;
  }

  abbrev pub get_position : String → Store F → Option (PositionState F)
  get_position position_id s = lookup position_id s.positions

  abbrev pub list_positions : Store F → List (PositionState F)
  list_positions s = values s.positions

  abbrev pub save_alert : AlertRecord → Store F → Store F
  save_alert alert s = record s { alerts = insert alert.alert_id alert s.alerts }
