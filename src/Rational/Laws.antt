-- ===== src/Rational/Laws.antt =====
-- Fractions are an ordered field.
use native.Mathlib.Nat.{
  lt_of_mul-lt-mul_right, mul-lt-mul_of_pos_right, div-mul-le_self, lt-div-mul-add,
}
use mathlib.Core.Path.{subst₂}
use mathlib.Core.Bool.{Bool-set}
use mathlib.Core.HLevel.{Π_prop}
use mathlib.Core.Quot
use mathlib.Core.Quot.{Quot, Quot-set}
use quantora.Prelude.{
  ℕ, zero, suc, ◌+◌, ◌-◌, ◌*◌, ◌/◌, ◌≤◌, ◌<◌, ◌≡◌, ◌≢◌, ◌↔◌, refl, sym, ap, ◌∙◌, true, false, not,
  ◌&&◌, arith, ltb, ltb→lt, lt→ltb,
}
use quantora.Float.{IsExact}
use quantora.Rational.{ℚ, of_frac, add, mul, neg, inv, trunc, lt, exact}
use quantora.Rational.Fractions.{
  Frac, frac, Same, add_frac, mul_frac, inv_frac, lt_frac, unit, less,
}

-- Laws of up to three numbers are checked on fractions.
ind₂ :
    {P : ℚ → ℚ → Type 0}
    → ((a b : ℚ) → IsProp (P a b))
    → ((a b : Frac) → P (of_frac a) (of_frac b))
    → (a b : ℚ) → P a b
ind₂ prop f = Quot.ind (λ a. Π_prop λ b. prop a b) (λ a. Quot.ind (λ b. prop _ b) (λ b. f a b))

ind₃ :
    {P : ℚ → ℚ → ℚ → Type 0}
    → ((a b c : ℚ) → IsProp (P a b c))
    → ((a b c : Frac) → P (of_frac a) (of_frac b) (of_frac c))
    → (a b c : ℚ) → P a b c
ind₃ prop f =
    Quot.ind (λ a. Π_prop λ b. Π_prop λ c. prop a b c)
      (λ a. ind₂ (λ b c. prop _ b c) (λ b c. f a b c))

Same-of_scale :
    (a b : Frac) (k : ℕ) → b.p ≡ a.p * k → b.n ≡ a.n * k → suc b.d ≡ suc a.d * k → Same a b
Same-of_scale a b k p n d =
    omega (arith, ap (◌*◌ a.p) d, ap (◌*◌ a.n) d, ap (◌*◌ (suc a.d)) p, ap (◌*◌ (suc a.d)) n)

add_comm : (a b : ℚ) → add a b ≡ add b a
unfolding add
add_comm = ind₂ (λ a b. Quot-set _ _) (λ a b. Quot.sound (omega arith))

add_assoc : (a b c : ℚ) → add (add a b) c ≡ add a (add b c)
unfolding add
add_assoc =
    ind₃ (λ a b c. Quot-set _ _)
      (λ a b c. Quot.sound (Same-of_scale _ _ 1 (omega arith) (omega arith) (omega arith)))

add-zero : (a : ℚ) → add a (of_frac (frac 0 0 0)) ≡ a
unfolding add
add-zero = Quot.ind (λ a. Quot-set _ _) (λ a. Quot.sound (omega arith))

add-neg : (a : ℚ) → add a (neg a) ≡ of_frac (frac 0 0 0)
unfolding add neg
add-neg = Quot.ind (λ a. Quot-set _ _) (λ a. Quot.sound (omega arith))

mul_comm : (a b : ℚ) → mul a b ≡ mul b a
unfolding mul
mul_comm = ind₂ (λ a b. Quot-set _ _) (λ a b. Quot.sound (omega arith))

mul_assoc : (a b c : ℚ) → mul (mul a b) c ≡ mul a (mul b c)
unfolding mul
mul_assoc = ind₃ (λ a b c. Quot-set _ _) (λ a b c. Quot.sound (omega arith))

mul-one : (a : ℚ) → mul a (of_frac (frac 1 0 0)) ≡ a
unfolding mul
mul-one = Quot.ind (λ a. Quot-set _ _) (λ a. Quot.sound (omega arith))

mul-add : (a b c : ℚ) → mul a (add b c) ≡ add (mul a b) (mul a c)
unfolding mul add
mul-add =
    ind₃ (λ a b c. Quot-set _ _)
      (λ a b c. Quot.sound (Same-of_scale _ _ (suc a.d) (omega arith) (omega arith) (omega arith)))

not_lt : (m n : ℕ) → ltb m n ≡ false → n ≤ m
not_lt m n h = ground arith

not_lt_of_le : (m n : ℕ) → n ≤ m → ltb m n ≡ false
not_lt_of_le m n h = ground arith

inv_parts :
    (u v p n d : ℕ)
    → u ≡ p - n
    → v ≡ n - p
    → p ≢ n
    → unit u * suc d * p + unit v * suc d * n
      ≡ suc (less u v) * suc d + (unit u * suc d * n + unit v * suc d * p)
inv_parts zero zero p n d e f h = absurd (omega (arith, h))
inv_parts (suc u) zero p n d e f h =
    let g : p ≡ n + suc u = omega arith in omega (arith, ap (◌*◌ (suc d)) g)
inv_parts zero (suc v) p n d e f h =
    let g : n ≡ p + suc v = omega arith in omega (arith, ap (◌*◌ (suc d)) g)
inv_parts (suc u) (suc v) p n d e f h = absurd (omega arith)

inv-mul : (b : Frac) → b.p ≢ b.n → Same (mul_frac (inv_frac b) b) (frac 1 0 0)
inv-mul b h = omega (arith, inv_parts (b.p - b.n) (b.n - b.p) b.p b.n b.d refl refl h)

div-mul : (a b : ℚ) → b ≢ of_frac (frac 0 0 0) → mul (mul a (inv b)) b ≡ a
unfolding mul inv
div-mul a b h =
    mul_assoc a (inv b) b
    ∙ ap (mul a) (
        Quot.ind {β = λ b. b ≢ of_frac (frac 0 0 0) → mul (inv b) b ≡ of_frac (frac 1 0 0)}
          (λ b. Π_prop λ _. Quot-set _ _)
          (λ b h.
            Quot.sound (inv-mul b (λ e. h (Quot.sound (omega (arith, ap (λ (t : ℕ). t * 1) e))))))
          b h)
    ∙ mul-one a

lt_irrefl : (a : ℚ) → lt a a ≡ false
unfolding lt
lt_irrefl = Quot.ind (λ a. Bool-set _ _) (λ a. ground arith)

lt_trans_frac : (a b c : Frac) → lt_frac a b ≡ true → lt_frac b c ≡ true → lt_frac a c ≡ true
lt_trans_frac a b c h k = lt→ltb _ _ (
    lt_of_mul-lt-mul_right (suc b.d) (
      omega (
        arith,
        mul-lt-mul_of_pos_right {k = suc c.d} (ltb→lt _ _ h) (omega arith),
        mul-lt-mul_of_pos_right {k = suc a.d} (ltb→lt _ _ k) (omega arith),
      )))

lt_trans : (a b c : ℚ) → lt a b ≡ true → lt b c ≡ true → lt a c ≡ true
unfolding lt
lt_trans = ind₃ (λ a b c. Π_prop λ _. Π_prop λ _. Bool-set _ _) lt_trans_frac

lt_total : (a b : ℚ) → lt a b ≡ false → lt b a ≡ false → a ≡ b
unfolding lt
lt_total =
    ind₂ (λ a b. Π_prop λ _. Π_prop λ _. Quot-set _ _)
      (λ a b h k. Quot.sound (omega (arith, not_lt _ _ h, not_lt _ _ k)))

eq_iff : (a b : ℚ) → ((not (lt a b) && not (lt b a)) ≡ true) ↔ (a ≡ b)
eq_iff a b = (λ h. lt_total a b (ground (arith, h)) (ground (arith, h)), λ e. rw (e, lt_irrefl))

add-lt_frac : (a b c : Frac) → lt_frac a b ≡ true → lt_frac (add_frac a c) (add_frac b c) ≡ true
add-lt_frac a b c h =
    lt→ltb _ _
      (omega (arith, mul-lt-mul_of_pos_right {k = suc c.d * suc c.d} (ltb→lt _ _ h) (omega arith)))

add-lt : (a b c : ℚ) → lt a b ≡ true → lt (add a c) (add b c) ≡ true
unfolding lt add
add-lt = ind₃ (λ a b c. Π_prop λ _. Bool-set _ _) add-lt_frac

cross_lt : (r s x y : ℕ) → s < r → x < y → r * x + s * y < r * y + s * x
cross_lt r s x y h k =
    let e : r ≡ s + suc (r - s - 1) = omega arith in
    let f : y ≡ x + suc (y - x - 1) = omega arith in
    subst₂ (λ (r y : ℕ). r * x + s * y < r * y + s * x) (sym e) (sym f) (omega arith)

mul-lt_frac :
    (a b c : Frac)
    → lt_frac a b ≡ true
    → lt_frac (frac 0 0 0) c ≡ true
    → lt_frac (mul_frac a c) (mul_frac b c) ≡ true
mul-lt_frac a b c h k =
    let step =
      cross_lt c.p c.n (a.p * suc b.d + b.n * suc a.d) (b.p * suc a.d + a.n * suc b.d)
        (omega (arith, ltb→lt _ _ k)) (ltb→lt _ _ h) in
    lt→ltb _ _ (omega (arith, mul-lt-mul_of_pos_right {k = suc c.d} step (omega arith)))

mul-lt :
    (a b c : ℚ) → lt a b ≡ true → lt (of_frac (frac 0 0 0)) c ≡ true → lt (mul a c) (mul b c) ≡ true
unfolding lt mul
mul-lt = ind₃ (λ a b c. Π_prop λ _. Π_prop λ _. Bool-set _ _) mul-lt_frac

num-add : (m n : ℕ) → of_frac (frac (m + n) 0 0) ≡ add (of_frac (frac m 0 0)) (of_frac (frac n 0 0))
unfolding add
num-add m n = Quot.sound (omega arith)

num_pos : (n : ℕ) → 0 < n → lt (of_frac (frac 0 0 0)) (of_frac (frac n 0 0)) ≡ true
unfolding lt
num_pos n h = lt→ltb _ _ (omega arith)

trunc_nonneg :
    (a : ℚ) → lt a (of_frac (frac 0 0 0)) ≡ false → lt (trunc a) (of_frac (frac 0 0 0)) ≡ false
unfolding lt trunc
trunc_nonneg =
    Quot.ind (λ a. Π_prop λ _. Bool-set _ _)
      (λ a h.
        let le : a.n ≤ a.p = omega (arith, not_lt _ _ h) in
        let none : (a.n - a.p) / suc a.d ≡ 0 = omega arith in not_lt_of_le _ _ (omega arith))

trunc_le : (a : ℚ) → lt a (of_frac (frac 0 0 0)) ≡ false → lt a (trunc a) ≡ false
unfolding lt trunc
trunc_le =
    Quot.ind (λ a. Π_prop λ _. Bool-set _ _)
      (λ a h.
        let le : a.n ≤ a.p = omega (arith, not_lt _ _ h) in
        not_lt_of_le _ _ (omega (arith, div-mul-le_self (a.p - a.n) (suc a.d))))

trunc_close :
    (a : ℚ)
    → lt a (of_frac (frac 0 0 0)) ≡ false
    → lt a (add (trunc a) (of_frac (frac 1 0 0))) ≡ true
unfolding lt trunc add
trunc_close =
    Quot.ind (λ a. Π_prop λ _. Bool-set _ _)
      (λ a h.
        let le : a.n ≤ a.p = omega (arith, not_lt _ _ h) in
        let none : (a.n - a.p) / suc a.d ≡ 0 = omega arith in
        lt→ltb _ _ (
          omega (
            arith,
            none,
            ap (λ (t : ℕ). t * suc a.d) none,
            lt-div-mul-add {a = a.p - a.n} {b = suc a.d} (omega arith),
          )))

-- Exact fractions satisfy every law.
pub exact-IsExact : IsExact exact
exact-IsExact = record {
  add_comm = add_comm;
  add_assoc = add_assoc;
  add-zero = add-zero;
  add-neg = add-neg;
  sub-eq-add = λ a b. refl;
  mul_comm = mul_comm;
  mul_assoc = mul_assoc;
  mul-one = mul-one;
  mul-add = mul-add;
  div-mul = div-mul;
  eq_iff = eq_iff;
  lt_irrefl = lt_irrefl;
  lt_trans = lt_trans;
  lt_total = lt_total;
  add-lt = add-lt;
  mul-lt = mul-lt;
  num-add = num-add;
  num_pos = num_pos;
  trunc_nonneg = trunc_nonneg;
  trunc_le = trunc_le;
  trunc_close = trunc_close;
}
