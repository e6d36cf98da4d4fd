-- ===== src/Number/Sample.antt =====
-- A type of numbers that meets the laws: hundredths, a float's finite values at two places, with
-- `none` for NaN. It runs the tests and the instances of the theorems.
use native.Mathlib.Nat.{le-div_iff_mul-le, mul-div-le, mul_comm, pow-suc, mul-div_cancel}
use market_brain.Prelude.{
  ap, refl, ◌≡◌, zero, ◌<◌, ℕ, suc, ◌+◌, ◌-◌, ◌*◌, ◌/◌, ◌^◌, ◌≤◌, Bool, false, Option, none, some,
  leb, ltb, if◌then◌else◌, arith,
}
use market_brain.Number.Int.{ℤ, pos, negsuc, pos_part, neg_part, leb_ℤ}
use market_brain.Number.Defs.{Double, ◌⊗◌, ◌⊘◌, zero_f}
use market_brain.Number.Order.{IsOrdered, ◌≼◌}
use market_brain.Number.Monotone.{IsMonotone}

abbrev pub Cents : Type 0
Cents = Option ℤ

abbrev sub_ℕ : ℕ → ℕ → ℤ
sub_ℕ a b = if leb b a then pos (a - b) else negsuc (b - a - 1)

abbrev ltb_ℤ : ℤ → ℤ → Bool
ltb_ℤ a b = ltb (pos_part a + neg_part b) (pos_part b + neg_part a)

abbrev neg_ℤ : ℕ → ℤ
neg_ℤ n = sub_ℕ 0 n

-- The sign and the magnitude of a product or a quotient, cut to two places.
abbrev signed : (ℕ → ℕ → ℕ) → ℤ → ℤ → ℤ
signed f (pos a) (pos b) = pos (f a b)
signed f (pos a) (negsuc b) = neg_ℤ (f a (suc b))
signed f (negsuc a) (pos b) = neg_ℤ (f (suc a) b)
signed f (negsuc a) (negsuc b) = pos (f (suc a) (suc b))

abbrev lift2 : (ℤ → ℤ → ℤ) → Cents → Cents → Cents
lift2 f (some a) (some b) = some (f a b)
lift2 f _ _ = none

abbrev test2 : (ℤ → ℤ → Bool) → Cents → Cents → Bool
test2 f (some a) (some b) = f a b
test2 f _ _ = false

abbrev floor_cents : Cents → Option ℤ
floor_cents none = none
floor_cents (some (pos a)) = some (pos (a / 100))
floor_cents (some (negsuc a)) = some (negsuc (a / 100))

instance abbrev pub cents_double : Double Cents
cents_double = record {
  lit = λ n k. some (pos (n * 100 / 10 ^ k));
  of_int = λ n. some (pos (n * 100));
  add = lift2 λ a b. sub_ℕ (pos_part a + pos_part b) (neg_part a + neg_part b);
  sub = lift2 λ a b. sub_ℕ (pos_part a + neg_part b) (neg_part a + pos_part b);
  mul = lift2 (signed λ a b. a * b / 100);
  div = lift2 (signed λ a b. a * 100 / b);
  lt = test2 ltb_ℤ;
  le = test2 leb_ℤ;
  round = λ n x. x;
  floor = floor_cents;
}

pow_pos : (k : ℕ) → 0 < 10 ^ k
pow_pos zero = omega arith
pow_pos (suc k) = rw pow-suc (omega (arith, pow_pos k))

lit_mono : (m n k : ℕ) → m ≤ n → m * 100 / 10 ^ k ≤ n * 100 / 10 ^ k
lit_mono m n k h =
    (le-div_iff_mul-le (pow_pos k)).1
      (omega (arith, mul-div-le (m * 100) (10 ^ k), mul_comm (10 ^ k) (m * 100 / 10 ^ k)))

pub Cents-IsOrdered : IsOrdered Cents
Cents-IsOrdered = record {
  le_of_lt = λ a b h. ground arith;
  le_trans = λ a b c h k. ground arith;
  lt_of_lt_of_le = λ a b c h k. ground arith;
  lt_of_le_of_lt = λ a b c h k. ground arith;
  not-le_of_lt = λ a b h. ground arith;
  lt_or_le = λ a b h k. ground arith;
  refl_of_le = λ a b h. ground arith;
  lit_mono = λ m n k h. ground (arith, lit_mono m n k h);
}

cut_mono : (a b n : ℕ) → a ≤ b → a * n / 100 ≤ b * n / 100
cut_mono a b n h =
    (le-div_iff_mul-le {k = 100} (omega arith)).1 (grind (arith, mul-div-le (a * n) 100))

scale_mono : (a b n : ℕ) → 0 < n → a ≤ b → a * 100 / n ≤ b * 100 / n
scale_mono a b n p h =
    (le-div_iff_mul-le {k = n} p).1
      (grind (arith, mul-div-le (a * 100) n, mul_comm n (a * 100 / n)))

mul_mono_lem :
    (n : ℕ) (a b : Cents)
    → 0 < n
    → n ≤ 2 ^ 53
    → zero_f ≼ a
    → a ≼ b
    → (a ⊗ cents_double.lit n 0 ≼ b ⊗ cents_double.lit n 0)
      × (cents_double.lit n 0 ⊗ a ≼ cents_double.lit n 0 ⊗ b)
mul_mono_lem n (some (pos x)) (some (pos y)) p small h k =
    let m = n * 100 / 10 ^ 0 in
    (
      ground (arith, cut_mono x y m (ground arith)),
      ground (arith, cut_mono x y m (ground arith), mul_comm m x, mul_comm m y),
    )
mul_mono_lem n none b p small h k = absurd (ground arith)
mul_mono_lem n (some (negsuc x)) b p small h k = absurd (ground arith)
mul_mono_lem n (some (pos x)) none p small h k = absurd (ground arith)
mul_mono_lem n (some (pos x)) (some (negsuc y)) p small h k = absurd (ground arith)

div_mono_lem :
    (n : ℕ) (a b : Cents)
    → 0 < n
    → n ≤ 2 ^ 53
    → zero_f ≼ a
    → a ≼ b
    → a ⊘ cents_double.lit n 0 ≼ b ⊘ cents_double.lit n 0
div_mono_lem n (some (pos x)) (some (pos y)) p small h k =
    ground (arith, scale_mono x y (n * 100 / 10 ^ 0) (omega arith) (ground arith))
div_mono_lem n none b p small h k = absurd (ground arith)
div_mono_lem n (some (negsuc x)) b p small h k = absurd (ground arith)
div_mono_lem n (some (pos x)) none p small h k = absurd (ground arith)
div_mono_lem n (some (pos x)) (some (negsuc y)) p small h k = absurd (ground arith)

cut_exact : (m n : ℕ) → m * 100 * (n * 100) / 100 ≡ m * n * 100
cut_exact m n = grind arith

scale_exact : (m n : ℕ) → 0 < n → m * n * 100 * 100 / (n * 100) ≡ m * 100
scale_exact m n p =
    let e : m * n * 100 * 100 ≡ m * 100 * (n * 100) = grind arith in
    rw e (mul-div_cancel (m * 100) (omega arith))

whole : (n : ℕ) → n * 100 / 10 ^ 0 ≡ n * 100
whole n = omega arith

pub Cents-IsMonotone : IsMonotone Cents
Cents-IsMonotone = record {
  add_mono = λ a b c d h k l m. ground arith;
  mul_mono = mul_mono_lem;
  div_mono = div_mono_lem;
  round_mono = λ k a b h. h;
  lit-add = λ m n h. ground arith;
  lit-mul = λ m n h. rw (whole m, whole n, whole (m * n)) (ap (λ k. some (pos k)) (cut_exact m n));
  lit-div =
      λ m n h p. rw (whole m, whole n, whole (m * n)) (ap (λ k. some (pos k)) (scale_exact m n p));
  lit-round = λ k m h. refl;
}
