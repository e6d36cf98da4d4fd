-- ===== src/Number/Monotone.antt =====
-- The laws of IEEE 754 arithmetic that the theorems on scores use. Sums of numbers that are not
-- negative are monotone under rounding, as are their products and quotients by a positive integer, and
-- `round` is; and the arithmetic of integers is exact. Integers are bounded by 2 ^ 53, where they are
-- finite and exact; the numbers themselves may be infinite.
use market_brain.Prelude.{ℕ, ◌+◌, ◌*◌, ◌^◌, ◌≤◌, ◌<◌, ◌≡◌}
use market_brain.Number.Defs.{Double, ◌⊕◌, ◌⊗◌, ◌⊘◌, zero_f}
use market_brain.Number.Order.{◌≼◌}

pub record IsMonotone (F : Type 0) ⦃num : Double F⦄ : Type 0 where
  pub add_mono : (a b c d : F) → zero_f ≼ a → a ≼ b → zero_f ≼ c → c ≼ d → a ⊕ c ≼ b ⊕ d
  pub mul_mono :
      (n : ℕ) (a b : F)
      → 0 < n
      → n ≤ 2 ^ 53
      → zero_f ≼ a
      → a ≼ b
      → (a ⊗ num.lit n 0 ≼ b ⊗ num.lit n 0) × (num.lit n 0 ⊗ a ≼ num.lit n 0 ⊗ b)
  pub div_mono :
      (n : ℕ) (a b : F)
      → 0 < n
      → n ≤ 2 ^ 53
      → zero_f ≼ a
      → a ≼ b
      → a ⊘ num.lit n 0 ≼ b ⊘ num.lit n 0
  pub round_mono : (k : ℕ) (a b : F) → a ≼ b → num.round k a ≼ num.round k b
  pub lit-add : (m n : ℕ) → m + n ≤ 2 ^ 53 → num.lit m 0 ⊕ num.lit n 0 ≡ num.lit (m + n) 0
  pub lit-mul : (m n : ℕ) → m * n ≤ 2 ^ 53 → num.lit m 0 ⊗ num.lit n 0 ≡ num.lit (m * n) 0
  pub lit-div : (m n : ℕ) → m * n ≤ 2 ^ 53 → 0 < n → num.lit (m * n) 0 ⊘ num.lit n 0 ≡ num.lit m 0
  pub lit-round : (k m : ℕ) → m ≤ 2 ^ 53 → num.round k (num.lit m 0) ≡ num.lit m 0
