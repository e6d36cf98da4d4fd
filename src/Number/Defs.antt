-- ===== src/Number/Defs.antt =====
-- Python's `float`. The operations are a parameter of the development, an instance `Double F`; what
-- theorems use of IEEE 754 is the record `IsOrdered` of Number/Order.antt.
use market_brain.Prelude.{ℕ, Bool, Option, none, some, if◌then◌else◌}
use market_brain.Number.Int.{ℤ}

pub record Double (F : Type 0) : Type 0 where
  -- the literal with these digits, the second number of them behind the point: `0.25` is `lit 25 2`
  pub lit : ℕ → ℕ → F
  -- an `int` that meets a `float`
  pub of_int : ℕ → F
  pub add : F → F → F
  pub sub : F → F → F
  pub mul : F → F → F
  -- the quotient by what is not zero: Python raises on a zero divisor
  pub div : F → F → F
  pub lt : F → F → Bool
  pub le : F → F → Bool
  -- `round(x, n)`
  pub round : ℕ → F → F
  -- `math.floor`, which raises on NaN and on an infinity
  pub floor : F → Option ℤ

module _ {F : Type 0} ⦃num : Double F⦄ where
  infixl 65 ◌⊕◌ ◌⊖◌
  infixl 70 ◌⊗◌ ◌⊘◌
  infix 50 ◌<?◌ ◌≤?◌
  abbrev pub ◌⊕◌ : F → F → F
  ◌⊕◌ = num.add

  abbrev pub ◌⊖◌ : F → F → F
  ◌⊖◌ = num.sub

  abbrev pub ◌⊗◌ : F → F → F
  ◌⊗◌ = num.mul

  abbrev pub ◌⊘◌ : F → F → F
  ◌⊘◌ = num.div

  -- `a < b` and `a <= b`; `a > b` and `a >= b` are these with the sides exchanged
  abbrev pub ◌<?◌ : F → F → Bool
  ◌<?◌ = num.lt

  abbrev pub ◌≤?◌ : F → F → Bool
  ◌≤?◌ = num.le

  abbrev pub zero_f : F
  zero_f = num.lit 0 0

  -- `x == 0`
  abbrev pub is_zero_f : F → Bool
  is_zero_f x = if x ≤? zero_f then zero_f ≤? x else Bool.false

  -- Python's `max(a, b)` and `min(a, b)` keep the first unless the second is better.
  abbrev pub max_f : F → F → F
  max_f a b = if a <? b then b else a

  abbrev pub min_f : F → F → F
  min_f a b = if b <? a then b else a

  -- `abs(x)`
  abbrev pub abs_f : F → F
  abs_f x = if x <? zero_f then zero_f ⊖ x else x

  -- `a / b`, and `none` for the ZeroDivisionError
  abbrev pub quotient : F → F → Option F
  quotient a b = if is_zero_f b then none else some (a ⊘ b)
