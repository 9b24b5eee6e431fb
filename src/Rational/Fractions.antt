-- ===== src/Rational/Fractions.antt =====
-- Fractions as triples of naturals, their operations, and that these respect equality of cross
-- products.
use native.Mathlib.Nat.{
  lt_of_mul-lt-mul_right, mul-lt-mul_of_pos_right, mul-div-mul_right, mul_comm, mul-sub,
}
use quantora.Prelude.{
  ℕ, zero, suc, ◌+◌, ◌-◌, ◌*◌, ◌/◌, ◌<◌, ◌≡◌, sym, ap, ap₂, ◌∙◌, ◌⊎◌, Bool, true, arith, ltb,
  ltb→lt, lt→ltb, Bool_ext,
}

abbrev pub Frac : Type 0
Frac = record { p : ℕ; n : ℕ; d : ℕ }

abbrev pub frac : ℕ → ℕ → ℕ → Frac
frac p n d = record { p = p; n = n; d = d }

abbrev pub Same : Frac → Frac → Type 0
Same a b = a.p * suc b.d + b.n * suc a.d ≡ b.p * suc a.d + a.n * suc b.d

abbrev pub add_frac : Frac → Frac → Frac
add_frac a b =
    frac (a.p * suc b.d + b.p * suc a.d) (a.n * suc b.d + b.n * suc a.d) (a.d * b.d + a.d + b.d)

abbrev pub mul_frac : Frac → Frac → Frac
mul_frac a b = frac (a.p * b.p + a.n * b.n) (a.p * b.n + a.n * b.p) (a.d * b.d + a.d + b.d)

abbrev pub neg_frac : Frac → Frac
neg_frac a = frac a.n a.p a.d

abbrev pub lt_frac : Frac → Frac → Bool
lt_frac a b = ltb (a.p * suc b.d + b.n * suc a.d) (b.p * suc a.d + a.n * suc b.d)

abbrev pub unit : ℕ → ℕ
unit zero = 0
unit (suc n) = 1

-- u + v - 1, where one of the two is zero.
abbrev pub less : ℕ → ℕ → ℕ
less zero zero = 0
less zero (suc v) = v
less (suc u) v = u

-- One over (p - n) / (d + 1), and zero for zero.
abbrev pub inv_frac : Frac → Frac
inv_frac a =
    let u = a.p - a.n in let v = a.n - a.p in frac (unit u * suc a.d) (unit v * suc a.d) (less u v)

-- Towards zero.
abbrev pub trunc_frac : Frac → Frac
trunc_frac a = frac ((a.p - a.n) / suc a.d) ((a.n - a.p) / suc a.d) 0

pub add_congr : (a b c : Frac) → Same a b → Same (add_frac a c) (add_frac b c)
add_congr a b c h = omega (arith, ap (λ (t : ℕ). t * (suc c.d * suc c.d)) h)

pub mul_congr : (a b c : Frac) → Same a b → Same (mul_frac a c) (mul_frac b c)
mul_congr a b c h =
    omega (arith, ap (λ (t : ℕ). t * (c.p * suc c.d)) h, ap (λ (t : ℕ). t * (c.n * suc c.d)) h)

pub add_congr_right : (a b c : Frac) → Same a b → Same (add_frac c a) (add_frac c b)
add_congr_right a b c h = omega (arith, ap (λ (t : ℕ). t * (suc c.d * suc c.d)) h)

pub mul_congr_right : (a b c : Frac) → Same a b → Same (mul_frac c a) (mul_frac c b)
mul_congr_right a b c h =
    omega (arith, ap (λ (t : ℕ). t * (c.p * suc c.d)) h, ap (λ (t : ℕ). t * (c.n * suc c.d)) h)

pub neg_congr : (a b : Frac) → Same a b → Same (neg_frac a) (neg_frac b)
neg_congr a b h = omega arith

lt_step : (a b c : Frac) → Same a b → lt_frac a c ≡ true → lt_frac b c ≡ true
lt_step a b c h r =
    let r' : a.p * suc c.d + c.n * suc a.d < c.p * suc a.d + a.n * suc c.d = ltb→lt _ _ r in
    lt→ltb _ _ (
      lt_of_mul-lt-mul_right (suc a.d) (
        omega (
          arith,
          ap (λ (t : ℕ). t * suc c.d) h,
          mul-lt-mul_of_pos_right {k = suc b.d} r' (omega arith),
        )))

lt_step_right : (a b c : Frac) → Same a b → lt_frac c a ≡ true → lt_frac c b ≡ true
lt_step_right a b c h r =
    let r' : c.p * suc a.d + a.n * suc c.d < a.p * suc c.d + c.n * suc a.d = ltb→lt _ _ r in
    lt→ltb _ _ (
      lt_of_mul-lt-mul_right (suc a.d) (
        omega (
          arith,
          ap (λ (t : ℕ). t * suc c.d) h,
          mul-lt-mul_of_pos_right {k = suc b.d} r' (omega arith),
        )))

pub lt_congr : (a b c : Frac) → Same a b → lt_frac a c ≡ lt_frac b c
lt_congr a b c h = Bool_ext _ _ (lt_step a b c h) (lt_step b a c (sym h))

pub lt_congr_right : (a b c : Frac) → Same a b → lt_frac c a ≡ lt_frac c b
lt_congr_right a b c h = Bool_ext _ _ (lt_step_right a b c h) (lt_step_right b a c (sym h))

excess_congr : (a b : Frac) → Same a b → (a.p - a.n) * suc b.d ≡ (b.p - b.n) * suc a.d
excess_congr a b h = omega (arith, h, mul-sub (suc b.d) a.p a.n, mul-sub (suc a.d) b.p b.n)

deficit_congr : (a b : Frac) → Same a b → (a.n - a.p) * suc b.d ≡ (b.n - b.p) * suc a.d
deficit_congr a b h = excess_congr (neg_frac a) (neg_frac b) (omega (arith, h))

inv_parts :
    (u v s t d e : ℕ)
    → u * suc e ≡ s * suc d
    → v * suc e ≡ t * suc d
    → (u ≡ 0) ⊎ (v ≡ 0)
    → unit u * suc d * suc (less s t) + unit t * suc e * suc (less u v)
      ≡ unit s * suc e * suc (less u v) + unit v * suc d * suc (less s t)
inv_parts zero zero zero zero d e h k z = omega arith
inv_parts zero zero (suc s) t d e h k z = absurd (omega (arith, h))
inv_parts zero zero zero (suc t) d e h k z = absurd (omega (arith, k))
inv_parts (suc u) v zero t d e h k z = absurd (omega (arith, h))
inv_parts (suc u) (suc v) (suc s) t d e h k z = absurd (omega (arith, z))
inv_parts (suc u) zero (suc s) (suc t) d e h k z = absurd (omega (arith, k))
inv_parts (suc u) zero (suc s) zero d e h k z = omega (arith, h)
inv_parts zero (suc v) (suc s) t d e h k z = absurd (omega (arith, h))
inv_parts zero (suc v) zero zero d e h k z = absurd (omega (arith, k))
inv_parts zero (suc v) zero (suc t) d e h k z = omega (arith, k)

pub inv_congr : (a b : Frac) → Same a b → Same (inv_frac a) (inv_frac b)
inv_congr a b h =
    inv_parts (a.p - a.n) (a.n - a.p) (b.p - b.n) (b.n - b.p) a.d b.d (excess_congr a b h)
      (deficit_congr a b h) (omega arith)

quotient_congr : (x y d e : ℕ) → x * suc e ≡ y * suc d → x / suc d ≡ y / suc e
quotient_congr x y d e h =
    sym (mul-div-mul_right x (suc d) (omega arith))
    ∙ ap₂ ◌/◌ h (mul_comm (suc d) (suc e))
    ∙ mul-div-mul_right y (suc e) (omega arith)

pub trunc_congr : (a b : Frac) → Same a b → Same (trunc_frac a) (trunc_frac b)
trunc_congr a b h = omega (
  arith,
  quotient_congr (a.p - a.n) (b.p - b.n) a.d b.d (excess_congr a b h),
  quotient_congr (a.n - a.p) (b.n - b.p) a.d b.d (deficit_congr a b h),
)
