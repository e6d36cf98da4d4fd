-- ===== src/Service/Replay/Sweep.antt =====
-- `release_reservation` and `sweep_expired` of orchestration/service.py against the ledger.
use market_brain.Prelude.{
  ◌≡◌, refl, String, Option, none, some, ◌∙◌, [], ◌∷◌, arith, inl, inr, Bool-cases,
}
use market_brain.Prelude.Dict.{
  insert, Keyed, insert-lookup_own, Keyed-lookup, Keyed-insert, Keyed-erase,
}
use market_brain.Number.{Double}
use market_brain.Domain.{Instant, TradePlan, WalletState, Reservation, is_reserved}
use market_brain.Ledger.Store.{Store, get_plan, get_reservation}
use market_brain.Ledger.Replay.{apply_event, put_plan, deleted_key}
use market_brain.Service.Capacity.{
  release, release_event, released_store, unreserved, save_unreserved, map_plan,
}
use market_brain.Service.Replay.Consistent.{IsKeyed, Keeps, plan_key, reservation_key}
use market_brain.Service.Replay.Writes.{Keeps-refl, Keeps-trans, log-Keeps, expire_plan-Keeps}
use market_brain.Service.Capacity.{
  release_reservation, release_found, sweep_plans, sweep_reservations, sweep_expired, is_overdue,
}
use market_brain.Prelude.{List, ltb}
use market_brain.Ledger.Store.{list_plans, list_reservations}

module _ {F : Type 0} ⦃num : Double F⦄ where
  -- A release: its plan stands under the key of the reservation.
  pub unreserved_plan :
      (plan_id reason : String) (s : Store F) (plan : TradePlan F)
      → (unreserved plan_id reason s plan).plan_id ≡ plan.plan_id
  unreserved_plan plan_id reason s plan = ground arith

  release_plans :
      (plan_id reason : String) (s : Store F) (o : Option (TradePlan F))
      → IsKeyed s
      → get_plan plan_id s ≡ o
      → put_plan (map_plan (unreserved plan_id reason s) o) s.plans
        ≡ (save_unreserved o (map_plan (unreserved plan_id reason s) o) s).plans
  release_plans plan_id reason s none h e = refl
  release_plans plan_id reason s (some plan) h e = elim (Bool-cases (is_reserved plan.status)) [
    | inl r ↦ rw r refl
    | inr r ↦
        let same : insert plan.plan_id plan s.plans ≡ s.plans =
          insert-lookup_own plan_key plan_id s.plans h.0 e in
        rw (r, same) refl
  ]

  release_plan_keys :
      (plan_id reason : String) (s : Store F) (o : Option (TradePlan F))
      → IsKeyed s
      → Keyed plan_key (save_unreserved o (map_plan (unreserved plan_id reason s) o) s).plans
  release_plan_keys plan_id reason s none h = h.0
  release_plan_keys plan_id reason s (some plan) h = elim (Bool-cases (is_reserved plan.status)) [
    | inl r ↦ rw r (Keyed-insert plan_key _ s.plans h.0)
    | inr r ↦ rw r h.0
  ]

  release_key :
      (plan_id reason : String) (now : Instant) (row : Reservation F) (wallet : WalletState F)
      (s : Store F) (o : Option (TradePlan F))
      → IsKeyed s
      → get_plan plan_id s ≡ o
      → deleted_key
          (release_event plan_id now row wallet (map_plan (unreserved plan_id reason s) o))
        ≡ plan_id
  release_key plan_id reason now row wallet s none h e = refl
  release_key plan_id reason now row wallet s (some plan) h e =
      unreserved_plan plan_id reason s plan ∙ Keyed-lookup plan_key plan_id s.plans h.0 e

  pub release-Keeps :
      (plan_id reason : String) (now : Instant) (row : Reservation F) (wallet : WalletState F)
      (s : Store F)
      → IsKeyed s
      → get_reservation plan_id s ≡ some row
      → Keeps s (release plan_id reason now row wallet s)
  unfolding release apply_event
  release-Keeps plan_id reason now row wallet s h e =
      let same : insert row.plan_id row s.reservations ≡ s.reservations =
        insert-lookup_own reservation_key plan_id s.reservations h.1 e in
      log-Keeps _ s (released_store plan_id reason now row wallet s)
        (
          release_plan_keys plan_id reason s (get_plan plan_id s) h,
          Keyed-erase reservation_key plan_id s.reservations h.1,
          h.2,
        )
        refl
        (rw
          (
            release_key plan_id reason now row wallet s (get_plan plan_id s) h refl,
            same,
            release_plans plan_id reason s (get_plan plan_id s) h refl,
          )
          refl)

  release_found-Keeps :
      (plan_id reason : String) (now : Instant) (row : Option (Reservation F))
      (wallet : Option (WalletState F)) (s : Store F)
      → IsKeyed s
      → get_reservation plan_id s ≡ row
      → Keeps s (release_found plan_id reason now row wallet s).1
  release_found-Keeps plan_id reason now none wallet s h e = Keeps-refl s h
  release_found-Keeps plan_id reason now (some row) none s h e = Keeps-refl s h
  release_found-Keeps plan_id reason now (some row) (some wallet) s h e =
      release-Keeps plan_id reason now row wallet s h e

  pub release_reservation-Keeps :
      (plan_id reason : String) (now : Instant) (s : Store F)
      → IsKeyed s
      → Keeps s (release_reservation plan_id reason now s).1
  unfolding release_reservation
  release_reservation-Keeps plan_id reason now s h =
      release_found-Keeps plan_id reason now (get_reservation plan_id s) s.wallet s h refl

  pub sweep_plans-Keeps :
      (now : Instant) (plans : List (TradePlan F)) (s : Store F)
      → IsKeyed s
      → Keeps s (sweep_plans now plans s).2
  unfolding sweep_plans
  sweep_plans-Keeps now [] s h = Keeps-refl s h
  sweep_plans-Keeps now (plan ∷ plans) s h = elim (Bool-cases (is_overdue now plan)) [
    | inl late ↦
        let k = release_reservation-Keeps plan.plan_id "PLAN_EXPIRED" now s h in
        let k2 = Keeps-trans k (expire_plan-Keeps now plan _ k.keyed) in
        rw late (Keeps-trans k2 (sweep_plans-Keeps now plans _ k2.keyed))
    | inr early ↦ rw early (sweep_plans-Keeps now plans s h)
  ]

  sweep_reservations-Keeps :
      (now : Instant) (rows : List (Reservation F)) (s : Store F)
      → IsKeyed s
      → Keeps s (sweep_reservations now rows s).1
  unfolding sweep_reservations
  sweep_reservations-Keeps now [] s h = Keeps-refl s h
  sweep_reservations-Keeps now (row ∷ rows) s h = elim (Bool-cases (ltb row.expires_at now)) [
    | inl late ↦
        let k = release_reservation-Keeps row.plan_id "RESERVATION_EXPIRED" now s h in
        rw late (Keeps-trans k (sweep_reservations-Keeps now rows _ k.keyed))
    | inr early ↦ rw early (sweep_reservations-Keeps now rows s h)
  ]

  pub sweep_expired-Keeps :
      (now : Instant) (s : Store F) → IsKeyed s → Keeps s (sweep_expired now s).1
  unfolding sweep_expired
  sweep_expired-Keeps now s h =
      let t = (sweep_plans now (list_plans s) s).2 in
      let k = sweep_plans-Keeps now (list_plans s) s h in
      Keeps-trans k (sweep_reservations-Keeps now (list_reservations t) t k.keyed)
