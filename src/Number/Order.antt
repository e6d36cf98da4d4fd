-- ===== src/Number/Order.antt =====
-- The laws of IEEE 754 comparisons that the theorems use. A comparison with NaN is false, so each
-- law has a comparison that holds among its premises; only `lt_or_le` asks for numbers, values that
-- are `<=` themselves.
use market_brain.Prelude.{ℕ, ◌≤◌, ◌≡◌, ◌⊎◌, true, false, arith}
use market_brain.Number.Defs.{Double, ◌<?◌, ◌≤?◌, zero_f, max_f, min_f}

module _ {F : Type 0} ⦃num : Double F⦄ where
  infix 4 ◌≼◌ ◌≺◌
  abbrev pub ◌≼◌ : F → F → Type 0
  a ≼ b = (a ≤? b) ≡ true

  abbrev pub ◌≺◌ : F → F → Type 0
  a ≺ b = (a <? b) ≡ true

pub record IsOrdered (F : Type 0) ⦃num : Double F⦄ : Type 0 where
  pub le_of_lt : (a b : F) → a ≺ b → a ≼ b
  pub le_trans : (a b c : F) → a ≼ b → b ≼ c → a ≼ c
  pub lt_of_lt_of_le : (a b c : F) → a ≺ b → b ≼ c → a ≺ c
  pub lt_of_le_of_lt : (a b c : F) → a ≼ b → b ≺ c → a ≺ c
  pub not-le_of_lt : (a b : F) → a ≺ b → (b ≤? a) ≡ false
  pub lt_or_le : (a b : F) → a ≼ a → b ≼ b → (a ≺ b) ⊎ (b ≼ a)
  pub refl_of_le : (a b : F) → a ≼ b → (a ≼ a) × (b ≼ b)
  -- two literals with as many digits behind the point
  pub lit_mono : (m n k : ℕ) → m ≤ n → num.lit m k ≼ num.lit n k

module _ {F : Type 0} ⦃num : Double F⦄ (laws : IsOrdered F) where
  open laws use {le_of_lt, le_trans, lt_or_le, refl_of_le, lit_mono}

  pub zero_refl : ◌≼◌ {F = F} zero_f zero_f
  zero_refl = lit_mono 0 0 0 (omega arith)

  -- `max(0.0, x)` is not negative, also where x is NaN.
  pub zero-le-max_f : (x : F) → zero_f ≼ max_f zero_f x
  zero-le-max_f x = ground (arith, le_of_lt zero_f x, zero_refl)

  -- `min(a, b)` is at most either of two numbers.
  pub min_f-le : (a b : F) → a ≼ a → b ≼ b → (min_f a b ≼ a) × (min_f a b ≼ b)
  min_f-le a b p q = ground (arith, lt_or_le b a q p, le_of_lt b a)

  pub le-min_f : (a b c : F) → c ≼ a → c ≼ b → c ≼ min_f a b
  le-min_f a b c p q = ground arith

  pub max_f-le : (a b c : F) → a ≼ c → b ≼ c → max_f a b ≼ c
  max_f-le a b c p q = ground arith

  pub le-max_f : (a b : F) → a ≼ a → b ≼ b → (a ≼ max_f a b) × (b ≼ max_f a b)
  le-max_f a b p q = ground (arith, lt_or_le a b p q, le_of_lt a b)
