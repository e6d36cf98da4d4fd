-- ===== src/Service/Capacity.antt =====
-- `release_reservation` and `sweep_expired` of orchestration/service.py. Neither raises, so each is
-- a function of the store.
pub mod Freed
use market_brain.Prelude.{
  ℕ, ◌+◌, String, Bool, true, false, ◌&&◌, Option, none, some, List, [], ◌∷◌, if◌then◌else◌, ltb,
  str_eq,
}
use market_brain.Prelude.Dict.{Dict, insert}
use market_brain.Prelude.Lists.{any}
use market_brain.Number.{Double, ◌⊖◌, zero_f, max_f}
use market_brain.Domain.{
  Instant, TradePlan, WalletState, Reservation, is_reserved, is_finished, PlanStatus,
}
use market_brain.Ledger.Events.{LedgerEvent, empty_payload, capacity_released, plan_expired}
use market_brain.Ledger.Store.{
  Store, append, save_plan, get_plan, list_plans, save_wallet, get_reservation, list_reservations,
  delete_reservation, list_positions,
}

-- `1` for a release
abbrev pub count : Bool → ℕ
count true = 1
count false = 0

module _ {F : Type 0} ⦃num : Double F⦄ where
  -- the wallet without the reservation
  abbrev pub freed : Instant → Reservation F → WalletState F → WalletState F
  freed now reservation wallet = record wallet {
    reserved_cash = max_f zero_f (wallet.reserved_cash ⊖ reservation.reserved_cash);
    open_risk = max_f zero_f (wallet.open_risk ⊖ reservation.reserved_risk);
    version = wallet.version + 1;
    as_of = now;
  }

  -- `partial_position is not None`
  abbrev pub has_partial : String → Store F → Bool
  has_partial plan_id s =
      any (λ row. str_eq row.plan_id plan_id && ltb 0 row.quantity) (list_positions s)

  -- the status that a released plan falls back to; the others stay
  abbrev pub unreserved : String → String → Store F → TradePlan F → TradePlan F
  unreserved plan_id reason s plan =
      if is_reserved plan.status
      then record plan {
        status =
            if str_eq reason "RESERVATION_EXPIRED" && has_partial plan_id s
            then PlanStatus.filled
            else PlanStatus.active;
      }
      else plan

  -- the table of the plans after the release: the plan is saved where it was reserved
  abbrev pub put_unreserved :
      Option (TradePlan F) → Option (TradePlan F) → Dict (TradePlan F) → Dict (TradePlan F)
  put_unreserved none new plans = plans
  put_unreserved (some old) none plans = plans
  put_unreserved (some old) (some new) plans =
      if is_reserved old.status then insert new.plan_id new plans else plans

  abbrev pub save_unreserved : Option (TradePlan F) → Option (TradePlan F) → Store F → Store F
  save_unreserved old new s = record s { plans = put_unreserved old new s.plans }

  abbrev pub map_plan : (TradePlan F → TradePlan F) → Option (TradePlan F) → Option (TradePlan F)
  map_plan f none = none
  map_plan f (some plan) = some (f plan)

  -- `plan` is the plan after the release.
  abbrev pub release_event :
      String → Instant → Reservation F → WalletState F → Option (TradePlan F) → LedgerEvent F
  release_event plan_id now reservation wallet plan = record {
    event_type = capacity_released;
    aggregate_id = plan_id;
    payload = record empty_payload {
      wallet = some (freed now reservation wallet);
      plan = plan;
      reservation = some reservation;
      reservation_deleted = true;
    };
    occurred_at = now;
  }

  -- the writes, before the event
  abbrev pub released_store :
      String → String → Instant → Reservation F → WalletState F → Store F → Store F
  released_store plan_id reason now reservation wallet s = delete_reservation plan_id (
      save_wallet (freed now reservation wallet) (
        save_unreserved (get_plan plan_id s)
          (map_plan (unreserved plan_id reason s) (get_plan plan_id s)) s))

  -- with the reservation and the wallet at hand
  unfoldable pub release :
      String → String → Instant → Reservation F → WalletState F → Store F → Store F
  release plan_id reason now reservation wallet s =
      append
        (release_event plan_id now reservation wallet
          (map_plan (unreserved plan_id reason s) (get_plan plan_id s)))
        (released_store plan_id reason now reservation wallet s)

  -- nothing is done where the reservation or the wallet is missing
  abbrev pub release_found :
      String
      → String
      → Instant
      → Option (Reservation F)
      → Option (WalletState F)
      → Store F
      → Bool × Store F
  release_found plan_id reason now none wallet s = (false, s)
  release_found plan_id reason now (some row) none s = (false, s)
  release_found plan_id reason now (some row) (some wallet) s =
      (true, release plan_id reason now row wallet s)

  unfoldable pub release_reservation : String → String → Instant → Store F → Bool × Store F
  release_reservation plan_id reason now s =
      release_found plan_id reason now (get_reservation plan_id s) s.wallet s

  -- a plan that has run out: its status and its event
  abbrev pub expire_plan : Instant → TradePlan F → Store F → Store F
  expire_plan now plan s =
      let gone = record plan { status = PlanStatus.expired } in
      append
        (record {
          event_type = plan_expired;
          aggregate_id = plan.plan_id;
          payload = record empty_payload { plan = some gone };
          occurred_at = now;
        })
        (save_plan gone s)

  abbrev pub is_overdue : Instant → TradePlan F → Bool
  is_overdue now plan = if is_finished plan.status then false else ltb plan.expires_at now

  -- the first loop; the counts are the expired plans and the released reservations
  unfoldable pub sweep_plans : Instant → List (TradePlan F) → Store F → ℕ × ℕ × Store F
  sweep_plans now [] s = (0, 0, s)
  sweep_plans now (plan ∷ plans) s =
      let (released, t) = release_reservation plan.plan_id "PLAN_EXPIRED" now s in
      let (expired_plans, releases, u) =
        sweep_plans now plans (if is_overdue now plan then expire_plan now plan t else s) in
      if is_overdue now plan
      then (expired_plans + 1, releases + count released, u)
      else (expired_plans, releases, u)

  -- the second loop
  unfoldable pub sweep_reservations : Instant → List (Reservation F) → Store F → ℕ × Store F
  sweep_reservations now [] s = (0, s)
  sweep_reservations now (row ∷ rows) s =
      let (released, t) = release_reservation row.plan_id "RESERVATION_EXPIRED" now s in
      let late = ltb row.expires_at now in
      let (releases, u) = sweep_reservations now rows (if late then t else s) in
      (if late then releases + count released else releases, u)

  unfoldable pub sweep_expired : Instant → Store F → (ℕ × ℕ) × Store F
  sweep_expired now s =
      let (expired_plans, releases, t) = sweep_plans now (list_plans s) s in
      let (more, u) = sweep_reservations now (list_reservations t) t in
      ((expired_plans, releases + more), u)
