-- ===== src/Service/Exit/Closing.antt =====
-- What `confirm_exit` of orchestration/service.py leaves of a position.
use mathlib.Core.Path.{subst}
use market_brain.Prelude.{
  ◌≡◌, refl, ap, ℕ, ◌+◌, ◌<◌, String, some, arith, inl, inr, Option-cases, ◌==◌, if◌then◌else◌, ltb,
  leb, ◌||◌,
}
use market_brain.Prelude.Result.{ok, ok-injective, raise_if-eq-ok}
use market_brain.Number.{Double, ◌⊖◌, ◌⊗◌}
use market_brain.Domain.{Instant, PositionState}
use market_brain.Ledger.Store.{Store, get_position}
use market_brain.Service.Exit.{confirm_exit, sold}

module _ {F : Type 0} ⦃num : Double F⦄ where
  -- An exit that returns was of a positive number of the shares that the position still had; what
  -- it returns has exactly that many fewer, and is closed at once when none is left.
  pub confirm_exit-remaining_quantity :
      (position_id : String) (price : F) (quantity : ℕ) (now : Instant) (s : Store F)
      {kept : PositionState F} {t : Store F}
      → confirm_exit position_id price quantity now s ≡ ok (kept, t)
      → (position : PositionState F) × (get_position position_id s ≡ some position)
        × (0 < quantity)
        × (kept.remaining_quantity + quantity ≡ position.remaining_quantity)
        × (kept.closed_at ≡ (if kept.remaining_quantity == 0 then some now else position.closed_at))
  unfolding confirm_exit
  confirm_exit-remaining_quantity position_id price quantity now s {kept} {t} h =
      elim (Option-cases (get_position position_id s)) [
        | inl e ↦ absurd (ground arith)
        | inr (position, e) ↦ elim (Option-cases s.wallet) [
          | inl w ↦ absurd (ground arith)
          | inr (wallet, w) ↦
              let h1 =
                raise_if-eq-ok (leb quantity 0 || ltb position.remaining_quantity quantity)
                  "INVALID_EXIT_QUANTITY" _ (rw (e, w) at h) in
              let same : sold position ((price ⊖ position.average_fill) ⊗ num.of_int quantity)
                    quantity now
                  ≡ kept =
                ap (λ p. p.0) (ok-injective h1.1) in
              let bound = h1.0 in
              (
                position,
                e,
                ground arith,
                ground arith,
                subst
                    (λ k.
                      k.closed_at
                      ≡ (if k.remaining_quantity == 0 then some now else position.closed_at))
                    same refl,
              )
        ]
      ]
