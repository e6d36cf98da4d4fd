-- ===== src/Service/Overdue.antt =====
-- The plans of the store behind `sweep_expired` of orchestration/service.py.
use mathlib.Core.Path.{subst}
use market_brain.Prelude.{
  ◌≡◌, refl, ap, ◌∙◌, sym, String, Bool, true, false, Option, none, some, List, [], ◌∷◌, arith, inl,
  inr, ◌⊎◌, ◌≤◌, Bool-cases, str_eq, eq_iff, if◌then◌else◌, ltb,
}
use market_brain.Prelude.Dict.{Dict, Keyed, lookup, insert, values, lookup-insert, Keyed-lookup}
use market_brain.Number.{Double}
use market_brain.Domain.{
  Instant, TradePlan, WalletState, Reservation, PlanStatus, is_finished, is_reserved,
}
use market_brain.Ledger.Store.{Store, get_plan, get_reservation, list_plans, list_reservations}
use market_brain.Service.Capacity.{
  unreserved, map_plan, put_unreserved, release, release_found, release_reservation, expire_plan,
  is_overdue, sweep_plans, sweep_reservations, sweep_expired,
}
use market_brain.Service.Replay.{IsKeyed, plan_key}
use market_brain.Service.Replay.Writes.{Keeps-trans, expire_plan-Keeps}
use market_brain.Service.Replay.Sweep.{
  unreserved_plan, release_reservation-Keeps, sweep_plans-Keeps,
}

some-injective {ℓ} : {A : Type ℓ} {a b : A} → some a ≡ some b → a ≡ b
some-injective h = cc

module _ {F : Type 0} ⦃num : Double F⦄ where
  put_if-lookup :
      (b : Bool) (new : TradePlan F) (plan_id k : String) (plans : Dict (TradePlan F))
      → new.plan_id ≡ plan_id
      → (b ≡ false → lookup plan_id plans ≡ some new)
      → lookup k (if b then insert new.plan_id new plans else plans)
        ≡ (if str_eq plan_id k then some new else lookup k plans)
  put_if-lookup true new plan_id k plans own h =
      lookup-insert new.plan_id k new plans
      ∙ ap (λ i. if str_eq i k then some new else lookup k plans) own
  put_if-lookup false new plan_id k plans own h = ground (arith, eq_iff plan_id k, h refl)

  -- What a release does to the table of the plans: one plan at most has another status.
  put_unreserved-lookup :
      (plan_id reason : String) (s : Store F) (o : Option (TradePlan F)) (k : String)
      → Keyed plan_key s.plans
      → get_plan plan_id s ≡ o
      → let new = map_plan (unreserved plan_id reason s) o in
        lookup k (put_unreserved o new s.plans)
        ≡ (if str_eq plan_id k then new else lookup k s.plans)
  put_unreserved-lookup plan_id reason s none k h e = ground (arith, eq_iff plan_id k)
  put_unreserved-lookup plan_id reason s (some plan) k h e =
      put_if-lookup (is_reserved plan.status) (unreserved plan_id reason s plan) plan_id k s.plans
        (unreserved_plan plan_id reason s plan ∙ Keyed-lookup plan_key plan_id s.plans h e)
        (λ r. rw r e)

  release_found-lookup :
      (plan_id reason : String) (now : Instant) (row : Option (Reservation F))
      (wallet : Option (WalletState F)) (s : Store F) (k : String)
      → Keyed plan_key s.plans
      → (lookup k (release_found plan_id reason now row wallet s).1.plans ≡ lookup k s.plans)
        ⊎ (str_eq plan_id k ≡ true)
          × (lookup k (release_found plan_id reason now row wallet s).1.plans
              ≡ map_plan (unreserved plan_id reason s) (get_plan plan_id s))
  unfolding release
  release_found-lookup plan_id reason now none wallet s k h = inl refl
  release_found-lookup plan_id reason now (some row) none s k h = inl refl
  release_found-lookup plan_id reason now (some row) (some wallet) s k h =
      let same = put_unreserved-lookup plan_id reason s (get_plan plan_id s) k h refl in
      elim (Bool-cases (str_eq plan_id k)) [
        | inl b ↦ inr (b, rw b at same)
        | inr b ↦ inl (rw b at same)
      ]

  -- A plan that a sweep at `now` leaves as it is: finished, or not yet past its deadline.
  abbrev pub IsSettled : Instant → TradePlan F → Type 0
  IsSettled now plan = is_overdue now plan ≡ false

  unreserved-IsSettled :
      (plan_id reason : String) (now : Instant) (s : Store F) (plan : TradePlan F)
      → IsSettled now plan
      → IsSettled now (unreserved plan_id reason s plan)
  unreserved-IsSettled plan_id reason now s plan h = ground arith

  map_plan-IsSettled :
      (plan_id reason : String) (now : Instant) (s : Store F) (o : Option (TradePlan F))
      (p : TradePlan F)
      → ((q : TradePlan F) → o ≡ some q → IsSettled now q)
      → map_plan (unreserved plan_id reason s) o ≡ some p
      → IsSettled now p
  map_plan-IsSettled plan_id reason now s none p h e = absurd (cc)
  map_plan-IsSettled plan_id reason now s (some q) p h e =
      let same : unreserved plan_id reason s q ≡ p = cc in
      subst (IsSettled now) same (unreserved-IsSettled plan_id reason now s q (h q refl))

  pub release_reservation-IsSettled :
      (plan_id reason : String) (now : Instant) (s : Store F)
      → Keyed plan_key s.plans
      → ((k : String) (p : TradePlan F) → lookup k s.plans ≡ some p → IsSettled now p)
      → (k : String) (p : TradePlan F)
      → lookup k (release_reservation plan_id reason now s).1.plans ≡ some p
      → IsSettled now p
  unfolding release_reservation
  release_reservation-IsSettled plan_id reason now s h settled k p e =
      elim (release_found-lookup plan_id reason now (get_reservation plan_id s) s.wallet s k h) [
        | inl same ↦ settled k p (sym same ∙ e)
        | inr (b, same) ↦
            map_plan-IsSettled plan_id reason now s (get_plan plan_id s) p (settled plan_id)
              (sym same ∙ e)
      ]

  -- What a sweep has still to do with `d`: the other plans of the store are settled.
  abbrev pub IsPending : Instant → Dict (TradePlan F) → Store F → Type 0
  IsPending now d s =
      (k : String) (p : TradePlan F)
      → lookup k s.plans ≡ some p
      → IsSettled now p ⊎ (lookup k d ≡ some p)

  IsPending-IsSettled :
      (now : Instant) (s : Store F)
      → IsPending now [] s
      → (k : String) (p : TradePlan F) → lookup k s.plans ≡ some p
      → IsSettled now p
  unfolding lookup
  IsPending-IsSettled now s pending k p e = elim (pending k p e) [
    | inl ok ↦ ok
    | inr absent ↦ absurd (cc)
  ]

  -- one round on a plan that is overdue
  expired-IsPending :
      (now : Instant) (j : String) (plan : TradePlan F) (d : Dict (TradePlan F)) (s : Store F)
      → Keyed plan_key ((j, plan) ∷ d)
      → Keyed plan_key s.plans
      → IsPending now ((j, plan) ∷ d) s
      → IsPending now d
          (expire_plan now plan (release_reservation plan.plan_id "PLAN_EXPIRED" now s).1)
  unfolding lookup release_reservation
  expired-IsPending now j plan d s (own, new, rest) h pending k p e =
      let gone = record plan { status = PlanStatus.expired } in
      let t = (release_reservation plan.plan_id "PLAN_EXPIRED" now s).1 in
      let placed = sym (lookup-insert plan.plan_id k gone t.plans) ∙ e in
      elim (Bool-cases (str_eq plan.plan_id k)) [
        | inl b ↦
            let same : some gone ≡ some p = rw b at placed in
            inl (subst (IsSettled now) (some-injective same) refl)
        | inr b ↦
            let kept : lookup k t.plans ≡ some p = rw b at placed in
            let other : str_eq j k ≡ false = subst (λ i. str_eq i k ≡ false) own b in
            elim (release_found-lookup plan.plan_id "PLAN_EXPIRED" now
              (get_reservation plan.plan_id s) s.wallet s k h) [
                | inl same ↦ elim (pending k p (sym same ∙ kept)) [
                  | inl ok ↦ inl ok
                  | inr found ↦ inr (rw other at found)
                ]
                | inr (b2, same) ↦ absurd (cc)
              ]
      ]

  current-IsPending :
      (now : Instant) (j : String) (plan : TradePlan F) (d : Dict (TradePlan F)) (s : Store F)
      → IsSettled now plan
      → IsPending now ((j, plan) ∷ d) s
      → IsPending now d s
  unfolding lookup
  current-IsPending now j plan d s settled pending k p e = elim (pending k p e) [
    | inl ok ↦ inl ok
    | inr found ↦ elim (Bool-cases (str_eq j k)) [
      | inl b ↦ inl (subst (IsSettled now) (some-injective (rw b at found)) settled)
      | inr b ↦ inr (rw b at found)
    ]
  ]

  sweep_plans-IsPending :
      (now : Instant) (d : Dict (TradePlan F)) (s : Store F)
      → Keyed plan_key d
      → IsKeyed s
      → IsPending now d s
      → IsPending now [] (sweep_plans now (values d) s).2
  unfolding sweep_plans values
  sweep_plans-IsPending now [] s keys h pending = pending
  sweep_plans-IsPending now ((j, plan) ∷ d) s keys h pending =
      elim (Bool-cases (is_overdue now plan)) [
        | inl late ↦
            let k = release_reservation-Keeps plan.plan_id "PLAN_EXPIRED" now s h in
            let k2 = Keeps-trans k (expire_plan-Keeps now plan _ k.keyed) in
            rw late (
              sweep_plans-IsPending now d _ keys.2 k2.keyed
                (expired-IsPending now j plan d s keys h.0 pending))
        | inr early ↦ rw early (
            sweep_plans-IsPending now d s keys.2 h (current-IsPending now j plan d s early pending))
      ]

  sweep_reservations-IsSettled :
      (now : Instant) (rows : List (Reservation F)) (s : Store F)
      → IsKeyed s
      → IsPending now [] s
      → IsPending now [] (sweep_reservations now rows s).1
  unfolding sweep_reservations
  sweep_reservations-IsSettled now [] s h pending = pending
  sweep_reservations-IsSettled now (row ∷ rows) s h pending =
      elim (Bool-cases (ltb row.expires_at now)) [
        | inl late ↦
            let k = release_reservation-Keeps row.plan_id "RESERVATION_EXPIRED" now s h in
            rw late (
              sweep_reservations-IsSettled now rows _ k.keyed (λ i p e. inl (
                release_reservation-IsSettled row.plan_id "RESERVATION_EXPIRED" now s h.0
                  (IsPending-IsSettled now s pending) i p e)))
        | inr early ↦ rw early (sweep_reservations-IsSettled now rows s h pending)
      ]

  -- Behind a sweep of a store whose rows stand under their own keys, every plan of the store is
  -- filled, cancelled or expired, or its deadline is not past.
  pub sweep_expired-expires_at :
      (now : Instant) (s : Store F)
      → IsKeyed s
      → (k : String) (p : TradePlan F) → get_plan k (sweep_expired now s).1 ≡ some p
      → (is_finished p.status ≡ true) ⊎ (now ≤ p.expires_at)
  unfolding sweep_expired
  sweep_expired-expires_at now s h k p e =
      let swept = sweep_plans-IsPending now s.plans s h.0 h (λ i q found. inr found) in
      let t = (sweep_plans now (list_plans s) s).2 in
      let done =
        sweep_reservations-IsSettled now (list_reservations t) t
          (sweep_plans-Keeps now (list_plans s) s h).keyed swept in
      let settled : IsSettled now p =
        IsPending-IsSettled now (sweep_reservations now (list_reservations t) t).1 done k p e in
      ground arith
