-- ===== src/Engines/Wallet/Capacity.antt =====
-- What an answer of the sizing says of the wallet.
use market_brain.Prelude.{
  ℕ, ◌≤◌, ◌<◌, ◌≡◌, true, false, Option, some, inl, inr, Option-cases, arith,
}
use market_brain.Prelude.Lists.{length}
use market_brain.Prelude.Result.{ok, Result-cases}
use market_brain.Number.{max_f, min_f, ◌⊖◌, Double, ◌⊗◌, ◌⊘◌, ◌≤?◌, zero_f, ℤ, pos_part, min_ℤ}
use market_brain.Domain.{TradePlan, WalletState}
use market_brain.Settings.{Settings}
use market_brain.Engines.Wallet.{
  SizeResult, sized, fit_quantity, size_from_wallet, size_on_terms, risk_budget, available_cash,
  position_notional, or_default, sizing_terms,
}

min_ℤ_parts : (a b : ℤ) → (pos_part (min_ℤ a b) ≤ pos_part a) × (pos_part (min_ℤ a b) ≤ pos_part b)
min_ℤ_parts a b = ground arith

-- The three bounds of a quantity, each the floor of a quotient.
module _ {F : Type 0} ⦃num : Double F⦄ where
  -- `quantity` is at most the floor of `x`
  pub AtMostFloor : ℕ → F → Type 0
  AtMostFloor quantity x = (k : ℤ) × (num.floor x ≡ some k) × (quantity ≤ pos_part k)

  -- the three amounts, written out
  abbrev pub budget_left : WalletState F → F → F
  budget_left wallet daily =
      wallet.capital_base ⊗ daily ⊘ num.lit 100 0 ⊖ wallet.daily_realized_loss ⊖ wallet.open_risk

  abbrev pub may_lose : WalletState F → TradePlan F → F → F → F
  may_lose wallet plan trade daily =
      min_f (wallet.capital_base ⊗ trade ⊘ num.lit 100 0) (budget_left wallet daily)
      ⊗ plan.quality_risk_multiplier

  abbrev pub free_cash : WalletState F → F
  free_cash wallet = max_f zero_f (wallet.cash_available ⊖ wallet.reserved_cash)

  module _ (wallet : WalletState F) (plan : TradePlan F) (entry risk trade daily notional : F) where
    pub record FitsWithin (size : SizeResult F) : Type 0 where
      pub positive : 0 < size.quantity
      pub by_risk : AtMostFloor size.quantity (may_lose wallet plan trade daily ⊘ risk)
      pub by_cash : AtMostFloor size.quantity (free_cash wallet ⊘ entry)
      pub by_notional :
          AtMostFloor size.quantity (wallet.capital_base ⊗ notional ⊘ num.lit 100 0 ⊘ entry)
      pub risk_dollars : size.risk_dollars ≡ num.round 2 (num.of_int size.quantity ⊗ risk)
      pub cash_required : size.cash_required ≡ num.round 2 (num.of_int size.quantity ⊗ entry)

    sized-FitsWithin :
        (r c n : ℤ) {size : SizeResult F}
        → num.floor (risk_budget wallet plan trade daily ⊘ risk) ≡ some r
        → num.floor (available_cash wallet ⊘ entry) ≡ some c
        → num.floor (position_notional wallet notional ⊘ entry) ≡ some n
        → fit_quantity wallet plan entry risk trade daily notional ≡ ok size
        → size.allowed ≡ true
        → FitsWithin size
    unfolding AtMostFloor fit_quantity
    sized-FitsWithin r c n {size} e1 e2 e3 e a =
        let q = pos_part (min_ℤ (min_ℤ r c) n) in
        let same : ok (sized q entry risk) ≡ ok size = rw (e1, e2, e3) at e in
        let exact : size.quantity ≡ q = ground arith in
        let low = min_ℤ_parts r c in
        let lower = min_ℤ_parts (min_ℤ r c) n in
        record {
          positive = ground arith;
          by_risk = (r, e1, omega arith);
          by_cash = (c, e2, omega arith);
          by_notional = (n, e3, omega arith);
          risk_dollars = ground arith;
          cash_required = ground arith;
        }

    fit_quantity-FitsWithin :
        {size : SizeResult F}
        → fit_quantity wallet plan entry risk trade daily notional ≡ ok size
        → size.allowed ≡ true
        → FitsWithin size
    unfolding fit_quantity
    fit_quantity-FitsWithin e a =
        elim (Option-cases (num.floor (risk_budget wallet plan trade daily ⊘ risk))) [
          | inl e1 ↦ ground arith
          | inr (r, e1) ↦ elim (Option-cases (num.floor (available_cash wallet ⊘ entry))) [
            | inl e2 ↦ ground arith
            | inr (c, e2) ↦
                elim (Option-cases (num.floor (position_notional wallet notional ⊘ entry))) [
                  | inl e3 ↦ ground arith
                  | inr (n, e3) ↦ sized-FitsWithin r c n e1 e2 e3 e a
                ]
          ]
        ]

  -- An allowed size has known terms, both positive, capital, cash and a daily budget left, and it
  -- stays within the floors of the risk budget, of the free cash and of the notional limit.
  pub size_from_wallet-FitsWithin :
      (cfg : Settings F) (wallet : WalletState F) (plan : TradePlan F)
      (price trade daily notional : Option F) {size : SizeResult F}
      → size_from_wallet cfg wallet plan price trade daily notional ≡ ok size
      → size.allowed ≡ true
      → let daily_pct = or_default daily cfg.max_daily_loss_pct in
        (entry : F) × (risk : F) × (sizing_terms plan price ≡ ok (entry, risk))
        × ((wallet.capital_base ≤? zero_f) ≡ false)
        × ((wallet.cash_available ≤? zero_f) ≡ false)
        × ((entry ≤? zero_f) ≡ false)
        × ((risk ≤? zero_f) ≡ false)
        × ((budget_left wallet daily_pct ≤? zero_f) ≡ false)
        × FitsWithin wallet plan entry risk
            (or_default trade cfg.max_trade_risk_pct)
            daily_pct
            (or_default notional cfg.max_position_notional_pct)
            size
  unfolding size_from_wallet size_on_terms
  size_from_wallet-FitsWithin cfg wallet plan price trade daily notional e a =
      elim (Result-cases (sizing_terms plan price)) [
        | inl (terms, known) ↦ (
          terms.0,
          terms.1,
          known,
          ground arith,
          ground arith,
          ground arith,
          ground arith,
          ground arith,
          fit_quantity-FitsWithin wallet plan terms.0 terms.1
              (or_default trade cfg.max_trade_risk_pct) (or_default daily cfg.max_daily_loss_pct)
              (or_default notional cfg.max_position_notional_pct) (ground arith) a,
        )
        | inr (text, failed) ↦ absurd (ground arith)
      ]

  -- A refused size is zero, costs nothing and names one reason.
  pub size_from_wallet-refused :
      (cfg : Settings F) (wallet : WalletState F) (plan : TradePlan F)
      (price trade daily notional : Option F) {size : SizeResult F}
      → size_from_wallet cfg wallet plan price trade daily notional ≡ ok size
      → size.allowed ≡ false
      → (size.quantity ≡ 0)
        × (size.risk_dollars ≡ zero_f)
        × (size.cash_required ≡ zero_f)
        × (length size.reasons ≡ 1)
  unfolding size_from_wallet size_on_terms fit_quantity
  size_from_wallet-refused cfg wallet plan price trade daily notional e a =
      elim (Result-cases (sizing_terms plan price)) [
        | inl (terms, known) ↦ ground arith
        | inr (text, failed) ↦ ground arith
      ]
