-- ===== src/Service/Action.antt =====
-- A `@transactional` method: it returns a value and the new store, or raises, and then the
-- transaction is rolled back and the old store stands. A nested transaction is part of the outer.
use market_brain.Prelude.{◌≡◌, refl, String, Bool, true, false, Option, none, some, if◌then◌else◌}
use market_brain.Prelude.Result.{Result, ok, err, ◌>>=◌, ◌>>◌, raise_if, or_raise}
use market_brain.Ledger.Store.{Store}
use market_brain.Settings.{Settings}

abbrev pub Action : Type 0 → Type 0 → Type 0
Action F A = Store F → Result (A × Store F)

module _ {F : Type 0} where
  -- the store after a call, whether it returned or raised
  abbrev pub committed : {A : Type 0} → Store F → Result (A × Store F) → Store F
  committed s (ok (a, t)) = t
  committed s (err text) = s

  -- A property of the store after a call holds if it holds before the call and where it returned.
  pub record Settles {A : Type 0} (P : Store F → Type 0) (s : Store F) (r : Result (A × Store F))
      : Type 0 where
    pub holds : P (committed s r)

  module _ {A : Type 0} {P : Store F → Type 0} {s : Store F} where
    pub returns : (a : A) (t : Store F) → P t → Settles P s (ok (a, t))
    returns a t h = record { holds = h }

    pub raises : {text : String} → P s → Settles {A = A} P s (err text)
    raises h = record { holds = h }

    pub settle_raise_if :
        P s
        → (b : Bool) (text : String) (rest : Result (A × Store F)) → Settles P s rest
        → Settles P s (raise_if b text >> rest)
    settle_raise_if start true text rest h = record { holds = start }
    settle_raise_if start false text rest h = h

    pub settle_bind :
        {B : Type 0}
        → P s
        → (m : Result B) (rest : B → Result (A × Store F))
        → ((b : B) → m ≡ ok b → Settles P s (rest b))
        → Settles P s (m >>= rest)
    settle_bind start (ok b) rest h = h b refl
    settle_bind start (err text) rest h = record { holds = start }

    pub settle_or_raise :
        {B : Type 0}
        → P s
        → (o : Option B) (text : String) (rest : B → Result (A × Store F))
        → ((b : B) → o ≡ some b → Settles P s (rest b))
        → Settles P s (or_raise o text >>= rest)
    settle_or_raise start none text rest h = record { holds = start }
    settle_or_raise start (some b) text rest h = h b refl

    pub settle_if :
        (b : Bool) (x y : Result (A × Store F))
        → (b ≡ true → Settles P s x)
        → (b ≡ false → Settles P s y)
        → Settles P s (if b then x else y)
    settle_if true x y h k = h refl
    settle_if false x y h k = k refl

-- What the service is configured with; `upper` is Python's `str.upper`.
pub record Config (F : Type 0) : Type 0 where
  pub settings : Settings F
  pub open settings use *
  pub upper : String → String
