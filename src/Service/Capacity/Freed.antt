-- ===== src/Service/Capacity/Freed.antt =====
-- What `release_reservation` of orchestration/service.py leaves of the wallet.
use market_brain.Prelude.{◌≡◌, refl, ◌+◌, String, true, false, Option, none, some, inl, inr, ◌⊎◌}
use market_brain.Number.{Double, ◌⊖◌, zero_f, max_f, IsOrdered, ◌≼◌, zero-le-max_f}
use market_brain.Prelude.Dict.{erase}
use market_brain.Domain.{Instant, Reservation, WalletState}
use market_brain.Ledger.Store.{Store, get_reservation}
use market_brain.Service.Capacity.{release, release_found, release_reservation, freed}

module _ {F : Type 0} ⦃num : Double F⦄ where
  -- the store behind a release
  pub record IsReleased (plan_id : String) (now : Instant) (s t : Store F) : Type 0 where
    pub row : Reservation F
    pub old : WalletState F
    pub wallet : WalletState F
    pub found : get_reservation plan_id s ≡ some row
    pub funded : s.wallet ≡ some old
    pub freed_wallet : t.wallet ≡ some wallet
    pub cash_off : wallet.reserved_cash ≡ max_f zero_f (old.reserved_cash ⊖ row.reserved_cash)
    pub risk_off : wallet.open_risk ≡ max_f zero_f (old.open_risk ⊖ row.reserved_risk)
    pub reserved_cash : zero_f ≼ wallet.reserved_cash
    pub open_risk : zero_f ≼ wallet.open_risk
    pub version : wallet.version ≡ old.version + 1
    pub cash_available : wallet.cash_available ≡ old.cash_available
    pub gone : t.reservations ≡ erase plan_id s.reservations

module _ {F : Type 0} ⦃num : Double F⦄ (laws : IsOrdered F) where
  release_found-IsReleased :
      (plan_id reason : String) (now : Instant) (row : Option (Reservation F))
      (wallet : Option (WalletState F)) (s : Store F)
      → get_reservation plan_id s ≡ row
      → s.wallet ≡ wallet
      → (release_found plan_id reason now row wallet s ≡ (false, s))
        ⊎ ((release_found plan_id reason now row wallet s).0 ≡ true)
          × IsReleased plan_id now s (release_found plan_id reason now row wallet s).1
  unfolding release
  release_found-IsReleased plan_id reason now none wallet s e w = inl refl
  release_found-IsReleased plan_id reason now (some row) none s e w = inl refl
  release_found-IsReleased plan_id reason now (some row) (some wallet) s e w = inr (
    refl,
    record {
      row = row;
      old = wallet;
      wallet = freed now row wallet;
      found = e;
      funded = w;
      freed_wallet = refl;
      cash_off = refl;
      risk_off = refl;
      reserved_cash = zero-le-max_f laws _;
      open_risk = zero-le-max_f laws _;
      version = refl;
      cash_available = refl;
      gone = refl;
    },
  )

  -- With the laws of comparison, a release either answers false and changes nothing, or answers
  -- true: then the plan had a reservation and there was a wallet. The row is deleted, and the new
  -- wallet has its cash and its risk less, neither below zero, with the same cash available and the
  -- next version.
  pub release_reservation-IsReleased :
      (plan_id reason : String) (now : Instant) (s : Store F)
      → (release_reservation plan_id reason now s ≡ (false, s))
        ⊎ ((release_reservation plan_id reason now s).0 ≡ true)
          × IsReleased plan_id now s (release_reservation plan_id reason now s).1
  unfolding release_reservation
  release_reservation-IsReleased plan_id reason now s =
      release_found-IsReleased plan_id reason now (get_reservation plan_id s) s.wallet s refl refl
