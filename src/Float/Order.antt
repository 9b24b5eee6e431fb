-- ===== src/Float/Order.antt =====
-- The order of exact numbers, and what `abs`, `min` and `max` do.
use native.Mathlib.Nat.{pow-suc}
use quantora.Prelude.{
  ℕ, zero, suc, ◌<◌, ◌^◌, ◌≡◌, ◌≢◌, ◌⊎◌, inl, inr, refl, sym, true, false, ◌||◌, arith, Bool-cases,
}
use quantora.Float.Defs.{Floats}
use quantora.Float.Exact.{IsExact}
use quantora.Float.Ops.{abs, min, tiny}
use quantora.Float.Algebra
use quantora.Float.Algebra.{ring}

pow_pos : (k : ℕ) → 0 < 10 ^ k
pow_pos zero = omega arith
pow_pos (suc k) = rw (pow-suc) (omega (arith, pow_pos k))

module _ (F : Floats) (X : IsExact F) where
  open F use {Number, num, add as ◌+◌, sub as ◌-◌, mul as ◌*◌, div as ◌/◌, neg, lt, eq}

  infixl 65 ◌+◌ ◌-◌
  infixl 70 ◌*◌ ◌/◌
  pub lt_asymm : (a b : Number) → lt a b ≡ true → lt b a ≡ false
  lt_asymm a b h = elim (Bool-cases (lt b a)) [
    | inl k ↦ cc (X.lt_trans a b a h k, X.lt_irrefl a)
    | inr k ↦ k
  ]

  pub lt-ne : (a b : Number) → lt a b ≡ true → a ≢ b
  lt-ne a b h e = cc (X.lt_irrefl b, e, h)

  pub lt_of_lt_of_le : (a b c : Number) → lt a b ≡ true → lt c b ≡ false → lt a c ≡ true
  lt_of_lt_of_le a b c h k = elim (Bool-cases (lt b c)) [
    | inl l ↦ X.lt_trans a b c h l
    | inr l ↦ rw (← X.lt_total b c l k) h
  ]

  pub lt_of_le_of_lt : (a b c : Number) → lt b a ≡ false → lt b c ≡ true → lt a c ≡ true
  lt_of_le_of_lt a b c h k = elim (Bool-cases (lt a b)) [
    | inl l ↦ X.lt_trans a b c l k
    | inr l ↦ rw (X.lt_total a b l h) k
  ]

  -- `a ≤ b` is `lt b a ≡ false`.
  pub le_trans : (a b c : Number) → lt b a ≡ false → lt c b ≡ false → lt c a ≡ false
  le_trans a b c h k = elim (Bool-cases (lt c a)) [
    | inl l ↦ cc (lt_of_lt_of_le c a b l h, k)
    | inr l ↦ l
  ]

  pub le_of_lt : (a b : Number) → lt a b ≡ true → lt b a ≡ false
  le_of_lt = lt_asymm

  pub add-lt_left : (a b c : Number) → lt a b ≡ true → lt (c + a) (c + b) ≡ true
  add-lt_left a b c h = rw (Algebra.add_comm F X c a, Algebra.add_comm F X c b) (X.add-lt a b c h)

  pub add-le : (a b c : Number) → lt b a ≡ false → lt (b + c) (a + c) ≡ false
  add-le a b c h = elim (Bool-cases (lt (b + c) (a + c))) [
    | inl l ↦ cc (simp (ring, X) at (X.add-lt (b + c) (a + c) (neg c) l), h)
    | inr l ↦ l
  ]

  -- Adding two inequalities.
  pub add-le-add : (a b c d : Number) → lt b a ≡ false → lt d c ≡ false → lt (b + d) (a + c) ≡ false
  add-le-add a b c d h k =
      le_trans (a + c) (b + c) (b + d) (add-le a b c h)
        (rw (Algebra.add_comm F X b c, Algebra.add_comm F X b d) (add-le c d b k))

  pub sub_pos : (a b : Number) → lt a b ≡ true → lt (num 0) (b - a) ≡ true
  sub_pos a b h = rw (X.sub-eq-add) (rw (X.add-neg) at (X.add-lt a b (neg a) h))

  pub neg_pos : (a : Number) → lt a (num 0) ≡ true → lt (num 0) (neg a) ≡ true
  neg_pos a h = simp (X.add-neg, Algebra.zero-add F X) at (X.add-lt a (num 0) (neg a) h)

  pub neg_nonpos : (a : Number) → lt a (num 0) ≡ false → lt (num 0) (neg a) ≡ false
  neg_nonpos a h = simp (ring, X) at (add-le (num 0) a (neg a) h)

  pub neg_neg : (a : Number) → lt (num 0) a ≡ true → lt (neg a) (num 0) ≡ true
  neg_neg a h = simp (X.add-neg, Algebra.zero-add F X) at (X.add-lt (num 0) a (neg a) h)

  pub neg-lt : (a b : Number) → lt a b ≡ true → lt (neg b) (neg a) ≡ true
  neg-lt a b h = simp (ring, X) at (X.add-lt a b (neg a + neg b) h)

  pub mul-le : (a b c : Number) → lt b a ≡ false → lt c (num 0) ≡ false → lt (b * c) (a * c) ≡ false
  mul-le a b c h k = elim (Bool-cases (lt (num 0) c)) [
    | inl p ↦ elim (Bool-cases (lt a b)) [
      | inl l ↦ le_of_lt (a * c) (b * c) (X.mul-lt a b c l p)
      | inr l ↦ rw (X.lt_total a b l h) (X.lt_irrefl (b * c))
    ]
    | inr p ↦ rw (X.lt_total c (num 0) k p) (simp (Algebra.mul-zero F X) (X.lt_irrefl (num 0)))
  ]

  pub mul_pos :
      (a b : Number) → lt (num 0) a ≡ true → lt (num 0) b ≡ true → lt (num 0) (a * b) ≡ true
  mul_pos a b h k = rw (Algebra.zero-mul F X) at (X.mul-lt (num 0) a b h k)

  pub mul_nonneg :
      (a b : Number) → lt a (num 0) ≡ false → lt b (num 0) ≡ false → lt (a * b) (num 0) ≡ false
  mul_nonneg a b h k = rw (Algebra.zero-mul F X) at (mul-le (num 0) a b h k)

  -- A number is above zero, below it, or zero.
  pub trichotomy : (a : Number) → (lt (num 0) a ≡ true) ⊎ (lt a (num 0) ≡ true) ⊎ (a ≡ num 0)
  trichotomy a = elim (Bool-cases (lt (num 0) a)) [
    | inl p ↦ inl p
    | inr p ↦ elim (Bool-cases (lt a (num 0))) [
      | inl n ↦ inr (inl n)
      | inr n ↦ inr (inr (X.lt_total a (num 0) n p))
    ]
  ]

  pub abs_of_pos : (a : Number) → lt (num 0) a ≡ true → abs F a ≡ a
  unfolding abs
  abs_of_pos a h = rw (lt_asymm (num 0) a h)

  pub abs_of_neg : (a : Number) → lt a (num 0) ≡ true → abs F a ≡ neg a
  unfolding abs
  abs_of_neg a h = rw h

  pub abs_nonneg : (a : Number) → lt (abs F a) (num 0) ≡ false
  unfolding abs
  abs_nonneg a = elim (Bool-cases (lt a (num 0))) [
    | inl h ↦ rw h (lt_asymm (num 0) (neg a) (neg_pos a h))
    | inr h ↦ rw h h
  ]

  -- What is more than a positive bound in size is so itself, or its opposite is.
  pub lt-abs : (e a : Number) → lt (num 0) e ≡ true → lt e (abs F a) ≡ (lt e a || lt e (neg a))
  unfolding abs
  lt-abs e a pos = elim (Bool-cases (lt a (num 0))) [
    | inl below ↦ rw (below, lt_asymm a e (X.lt_trans a (num 0) e below pos)) refl
    | inr above ↦
        let small =
          le_of_lt (neg a) e (lt_of_le_of_lt (neg a) (num 0) e (neg_nonpos a above) pos) in
        rw (above, small)
          (elim (Bool-cases (lt e a)) [ inl more ↦ rw more refl | inr less ↦ rw less refl ])
  ]

  pub div_pos :
      (a b : Number) → lt (num 0) a ≡ true → lt (num 0) b ≡ true → lt (num 0) (a / b) ≡ true
  div_pos a b h k = elim (Bool-cases (lt (num 0) (a / b))) [
    | inl p ↦ p
    | inr p ↦ cc (
      h,
      rw (X.div-mul a b (λ e. lt-ne (num 0) b k (sym e)), Algebra.zero-mul F X) at
          (mul-le (a / b) (num 0) b p (le_of_lt (num 0) b k)),
    )
  ]

  pub div_nonneg :
      (a b : Number) → lt a (num 0) ≡ false → lt (num 0) b ≡ true → lt (a / b) (num 0) ≡ false
  div_nonneg a b h k = elim (Bool-cases (lt (a / b) (num 0))) [
    | inl p ↦ cc (
      h,
      rw (X.div-mul a b (λ e. lt-ne (num 0) b k (sym e)), Algebra.zero-mul F X) at
          (X.mul-lt (a / b) (num 0) b p k),
    )
    | inr p ↦ p
  ]

  pub tiny_pos : (k : ℕ) → lt (num 0) (tiny F k) ≡ true
  unfolding tiny
  tiny_pos k =
      div_pos (num 1) (num (10 ^ k)) (X.num_pos 1 (omega arith)) (X.num_pos (10 ^ k) (pow_pos k))

  pub num_nonneg : (n : ℕ) → lt (num n) (num 0) ≡ false
  num_nonneg zero = X.lt_irrefl (num 0)
  num_nonneg (suc n) = le_of_lt (num 0) (num (suc n)) (X.num_pos (suc n) (omega arith))

  -- The test `a == b` on numbers that differ.
  pub eq_of_ne : (a b : Number) → a ≢ b → eq a b ≡ false
  eq_of_ne a b h = elim (Bool-cases (eq a b)) [
    | inl e ↦ absurd (h ((X.eq_iff a b).0 e))
    | inr e ↦ e
  ]

  pub eq_refl : (a : Number) → eq a a ≡ true
  eq_refl a = (X.eq_iff a a).1 refl

  pub ne_zero_of_pos : (a : Number) → lt (num 0) a ≡ true → a ≢ num 0
  ne_zero_of_pos a h e = lt-ne (num 0) a h (sym e)

  pub min_of_lt : (a b : Number) → lt b a ≡ true → min F a b ≡ b
  unfolding min
  min_of_lt a b h = rw h

  pub min_of_le : (a b : Number) → lt b a ≡ false → min F a b ≡ a
  unfolding min
  min_of_le a b h = rw h

  pub add_pos :
      (a b : Number) → lt (num 0) a ≡ true → lt (num 0) b ≡ true → lt (num 0) (a + b) ≡ true
  add_pos a b h k =
      X.lt_trans (num 0) a (a + b) h (rw (Algebra.add-zero F X) at (add-lt_left (num 0) b a k))
