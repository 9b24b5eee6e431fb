-- ===== src/Rational.antt =====
-- Exact fractions: the numbers at which the development's theorems are run. A fraction is a triple
-- (p, n, d) for (p - n) / (d + 1), and two of them are one number if their cross products agree.
pub mod Fractions
pub mod Laws
use mathlib.Core.Bool.{Bool-set}
use mathlib.Core.HLevel.{Π_set}
use mathlib.Core.Quot
use mathlib.Core.Quot.{Quot, Quot-set}
use quantora.Prelude.{ℕ, zero, ◌≡◌, fun_ext, Bool, not, ◌&&◌}
use quantora.Float.{Floats}
use Fractions.{
  Frac, frac, Same, add_frac, mul_frac, neg_frac, inv_frac, trunc_frac, lt_frac, add_congr,
  add_congr_right, mul_congr, mul_congr_right, neg_congr, inv_congr, trunc_congr, lt_congr,
  lt_congr_right,
}

abbrev pub ℚ : Type 0
ℚ = Quot Same

abbrev pub of_frac : Frac → ℚ
of_frac = Quot.mk

-- Lifting an operation that respects `Same` to the numbers.
abbrev lift₁ : (f : Frac → Frac) → ((a b : Frac) → Same a b → Same (f a) (f b)) → ℚ → ℚ
lift₁ f h = Quot.lift Quot-set (λ a. of_frac (f a)) (λ a b r. Quot.sound (h a b r))

module _ {B : Type 0} (set : IsSet B) (f : Frac → Frac → B)
    (left : (a b c : Frac) → Same a b → f a c ≡ f b c)
    (right : (a b c : Frac) → Same a b → f c a ≡ f c b) where
  abbrev lift₂ : ℚ → ℚ → B
  lift₂ =
      Quot.lift (Π_set λ _. set) (λ a. Quot.lift set (f a) (λ b c r. right b c a r))
        (λ a b r. fun_ext (Quot.ind (λ _. set _ _) (λ c. left a b c r)))

unfoldable pub add : ℚ → ℚ → ℚ
add =
    lift₂ Quot-set (λ a b. of_frac (add_frac a b)) (λ a b c r. Quot.sound (add_congr a b c r))
      (λ a b c r. Quot.sound (add_congr_right a b c r))

unfoldable pub mul : ℚ → ℚ → ℚ
mul =
    lift₂ Quot-set (λ a b. of_frac (mul_frac a b)) (λ a b c r. Quot.sound (mul_congr a b c r))
      (λ a b c r. Quot.sound (mul_congr_right a b c r))

unfoldable pub neg : ℚ → ℚ
neg = lift₁ neg_frac neg_congr

unfoldable pub inv : ℚ → ℚ
inv = lift₁ inv_frac inv_congr

unfoldable pub trunc : ℚ → ℚ
trunc = lift₁ trunc_frac trunc_congr

unfoldable pub lt : ℚ → ℚ → Bool
lt = lift₂ Bool-set lt_frac lt_congr lt_congr_right

-- The floats of the program, computed exactly.
abbrev pub exact : Floats
exact = record {
  Number = ℚ;
  num = λ n. of_frac (frac n zero zero);
  add = add;
  sub = λ a b. add a (neg b);
  mul = mul;
  div = λ a b. mul a (inv b);
  neg = neg;
  trunc = trunc;
  lt = lt;
  eq = λ a b. not (lt a b) && not (lt b a);
}
