-- ===== src/Service/Fill/Drawing.antt =====
-- What `confirm_fill` of orchestration/service.py draws on.
use market_brain.Prelude.{◌≡◌, ◌<◌, ◌≤◌, some, arith, inl, inr, true, false}
use market_brain.Prelude.Result.{ok, Result-cases}
use market_brain.Number.{Double, ◌⊕◌, ◌⊗◌, ◌<?◌}
use market_brain.Domain.{Instant, TradePlan, WalletState, Reservation, PositionState, is_reserved}
use market_brain.Ledger.Store.{Store, get_plan, get_reservation}
use market_brain.Service.Action.{Config}
use market_brain.Service.Exit.{epsilon}
use market_brain.Service.Capacity.{sweep_expired}
use market_brain.Service.Checks.{Fill, check_reservation, check_price, max_fill}
use market_brain.Service.Fill.{fill_reserved, confirm_fill}

module _ {F : Type 0} ⦃num : Double F⦄ where
  check_reservation_sound :
      (fill : Fill F) (now : Instant) (s : Store F)
      {r : TradePlan F × WalletState F × Reservation F}
      → check_reservation fill now s ≡ ok r
      → (get_plan fill.plan_id s ≡ some r.0)
        × (s.wallet ≡ some r.1)
        × (get_reservation fill.plan_id s ≡ some r.2)
        × (is_reserved r.0.status ≡ true)
        × (now ≤ r.2.expires_at)
        × (0 < fill.quantity)
        × (fill.quantity ≤ r.2.quantity)
  unfolding check_reservation
  check_reservation_sound fill now s {r} e = ground arith

  check_price_sound :
      (fill : Fill F) (plan : TradePlan F) (wallet : WalletState F) (held : Reservation F)
      {stop : F}
      → check_price fill plan wallet held ≡ ok stop
      → ((fill.fill_price <? plan.entry_trigger) ≡ false)
        × ((max_fill plan <? fill.fill_price) ≡ false)
        × ((wallet.cash_available ⊕ epsilon <? fill.fill_price ⊗ num.of_int fill.quantity) ≡ false)
        × ((held.reserved_cash ⊕ epsilon <? fill.fill_price ⊗ num.of_int fill.quantity) ≡ false)
  unfolding check_price
  check_price_sound fill plan wallet held {stop} e = ground arith

  -- What a fill draws on: a plan, the wallet and the plan's reservation.
  pub record IsCovered (fill : Fill F) (at : Instant) (s : Store F) : Type 0 where
    pub plan : TradePlan F
    pub wallet : WalletState F
    pub held : Reservation F
    pub found : get_plan fill.plan_id s ≡ some plan
    pub funded : s.wallet ≡ some wallet
    pub reserved : get_reservation fill.plan_id s ≡ some held
    pub is_reserved : is_reserved plan.status ≡ true
    pub live : at ≤ held.expires_at
    pub positive : 0 < fill.quantity
    pub covered : fill.quantity ≤ held.quantity
    pub triggered : (fill.fill_price <? plan.entry_trigger) ≡ false
    pub in_zone : (max_fill plan <? fill.fill_price) ≡ false
    pub affordable :
        (wallet.cash_available ⊕ epsilon <? fill.fill_price ⊗ num.of_int fill.quantity) ≡ false
    pub set_aside :
        (held.reserved_cash ⊕ epsilon <? fill.fill_price ⊗ num.of_int fill.quantity) ≡ false

  fill_reserved-IsCovered :
      (cfg : Config F) (fill : Fill F) (checked_at now : Instant) (s : Store F)
      {position : PositionState F} {t : Store F}
      → fill_reserved cfg fill checked_at now s ≡ ok (position, t)
      → IsCovered fill checked_at s
  unfolding fill_reserved
  fill_reserved-IsCovered cfg fill checked_at now s {position} {t} h =
      elim (Result-cases (check_reservation fill checked_at s)) [
        | inl (found, e) ↦ elim (Result-cases (check_price fill found.0 found.1 found.2)) [
          | inl (stop, e1) ↦
              let (p, w, r, res, live, pos, bound) = check_reservation_sound fill checked_at s e in
              let (a, b, c, d) = check_price_sound fill found.0 found.1 found.2 e1 in
              record {
                plan = found.0;
                wallet = found.1;
                held = found.2;
                found = p;
                funded = w;
                reserved = r;
                is_reserved = res;
                live = live;
                positive = pos;
                covered = bound;
                triggered = a;
                in_zone = b;
                affordable = c;
                set_aside = d;
              }
          | inr (text, e1) ↦ absurd (ground arith)
        ]
        | inr (text, e) ↦ absurd (ground arith)
      ]

  -- A fill that returns draws, in the store behind its sweep, on a RESERVED plan and a reservation
  -- of the plan that has not run out: its quantity is positive and at most the reserved one, its
  -- price is not below the trigger and not above the zone with the slippage, and its cost exceeds
  -- by no more than epsilon neither the cash that is available nor the cash that is reserved.
  pub confirm_fill-IsCovered :
      (cfg : Config F) (fill : Fill F) (sweep_at checked_at now : Instant) (s : Store F)
      {position : PositionState F} {t : Store F}
      → confirm_fill cfg fill sweep_at checked_at now s ≡ ok (position, t)
      → IsCovered fill checked_at (sweep_expired sweep_at s).1
  unfolding confirm_fill
  confirm_fill-IsCovered cfg fill sweep_at checked_at now s {position} {t} h =
      fill_reserved-IsCovered cfg fill checked_at now (sweep_expired sweep_at s).1 h
