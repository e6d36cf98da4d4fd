-- ===== src/Prelude/Result.antt =====
-- A call that may raise: the error is the exception's text, or the name of its class where the
-- interpreter raises it.
use Prim.Native.String.{String}
use mathlib.Core.Path.{◌≡◌, refl}
use mathlib.Core.Logic.{◌⊎◌, inl, inr}
use market_brain.Prelude.Tests.{if◌then◌else◌}
use mathlib.Core.Bool.{Bool, true, false}
use mathlib.Core.Option.{Option, none, some}

pub data Result {ℓ} (Value : Type ℓ) : Type ℓ where
  -- the text of the exception
  err : String → Result Value
  ok : Value → Result Value

-- What follows a call: it is not reached where the call raised.
infixl 5 ◌>>=◌
abbrev pub ◌>>=◌ {κ ℓ} : {A : Type κ} {B : Type ℓ} → Result A → (A → Result B) → Result B
(err text) >>= rest = err text
(ok value) >>= rest = rest value

-- `if test: raise ValueError(text)`
abbrev pub raise_if : Bool → String → Result (Unit {0})
raise_if true text = err text
raise_if false text = ok tt

infixl 5 ◌>>◌
abbrev pub ◌>>◌ {κ} : {A : Type κ} → Result (Unit {0}) → Result A → Result A
check >> rest = check >>= λ done. rest

-- The value of an optional, or the error of the operation that wants one.
abbrev pub or_raise {ℓ} : {A : Type ℓ} → Option A → String → Result A
or_raise none e = err e
or_raise (some a) e = ok a

pub Result-cases {ℓ} :
    {A : Type ℓ} (r : Result A) → ((a : A) × (r ≡ ok a)) ⊎ ((e : String) × (r ≡ err e))
Result-cases (ok a) = inl (a, refl)
Result-cases (err e) = inr (e, refl)

pub ok-injective {ℓ} : {A : Type ℓ} {a b : A} → Result.ok a ≡ ok b → a ≡ b
ok-injective h = cc

-- Inversion of a call that returned.
module _ {ℓ} {A : Type ℓ} where
  pub raise_if-eq-ok :
      (b : Bool) (text : String) (rest : Result A) {a : A}
      → (raise_if b text >> rest) ≡ ok a
      → (b ≡ false) × (rest ≡ ok a)
  raise_if-eq-ok false text rest e = (refl, e)
  raise_if-eq-ok true text rest e = absurd (cc)

  pub or_raise-eq-ok {κ} :
      {B : Type κ} (o : Option B) (text : String) (rest : B → Result A) {a : A}
      → (or_raise o text >>= rest) ≡ ok a
      → (b : B) × (o ≡ some b) × (rest b ≡ ok a)
  or_raise-eq-ok none text rest e = absurd (cc)
  or_raise-eq-ok (some b) text rest e = (b, refl, e)

  pub >>=-eq-ok {κ} :
      {B : Type κ} (m : Result B) (rest : B → Result A) {a : A}
      → (m >>= rest) ≡ ok a
      → (b : B) × (m ≡ ok b) × (rest b ≡ ok a)
  >>=-eq-ok (ok b) rest e = (b, refl, e)
  >>=-eq-ok (err text) rest e = absurd (cc)

  pub if-eq-ok :
      (b : Bool) (x : A) (text : String) {a : A} → (if b then ok x else err text) ≡ ok a → x ≡ a
  if-eq-ok true x text e = ok-injective e
  if-eq-ok false x text e = absurd (cc)
