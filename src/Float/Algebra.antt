-- ===== src/Float/Algebra.antt =====
-- What follows from the laws of exact arithmetic: the rules by which `simp` puts sums of products in
-- one form, and cancellation.
use quantora.Prelude.{◌≡◌, sym, ap, ◌∙◌}
use quantora.Float.Defs.{Floats}
use quantora.Float.Exact.{IsExact}

module _ (F : Floats) (X : IsExact F) where
  open F use {Number, num, add as ◌+◌, sub as ◌-◌, mul as ◌*◌, div as ◌/◌, neg}

  infixl 65 ◌+◌ ◌-◌
  infixl 70 ◌*◌ ◌/◌
  pub add_comm : (a b : Number) → a + b ≡ b + a
  add_comm = X.add_comm

  pub add_assoc : (a b c : Number) → a + b + c ≡ a + (b + c)
  add_assoc = X.add_assoc

  pub add_left_comm : (a b c : Number) → a + (b + c) ≡ b + (a + c)
  add_left_comm a b c =
      sym (add_assoc a b c) ∙ ap (λ (t : Number). t + c) (add_comm a b) ∙ add_assoc b a c

  pub add-zero : (a : Number) → a + num 0 ≡ a
  add-zero = X.add-zero

  pub zero-add : (a : Number) → num 0 + a ≡ a
  zero-add a = add_comm (num 0) a ∙ add-zero a

  pub add-neg : (a : Number) → a + neg a ≡ num 0
  add-neg = X.add-neg

  pub add-neg-add : (a b : Number) → a + (neg a + b) ≡ b
  add-neg-add a b = rw (← add_assoc, add-neg, zero-add)

  pub neg-add-add : (a b : Number) → neg a + (a + b) ≡ b
  neg-add-add a b = rw (add_left_comm, add-neg-add)

  pub add_cancel : (a b c : Number) → a + c ≡ b + c → a ≡ b
  add_cancel a b c h =
      sym (neg-add-add c a)
      ∙ ap (λ (t : Number). neg c + t) (add_comm c a ∙ h ∙ add_comm b c)
      ∙ neg-add-add c b

  pub neg_of_sum_zero : (a b : Number) → a + b ≡ num 0 → b ≡ neg a
  neg_of_sum_zero a b h =
      add_cancel b (neg a) a (add_comm b a ∙ h ∙ sym (add-neg a) ∙ add_comm a (neg a))

  pub neg-neg : (a : Number) → neg (neg a) ≡ a
  neg-neg a = sym (neg_of_sum_zero (neg a) a (add_comm (neg a) a ∙ add-neg a))

  pub neg-add : (a b : Number) → neg (a + b) ≡ neg a + neg b
  neg-add a b = sym (
      neg_of_sum_zero (a + b) (neg a + neg b)
        (rw (add_assoc, add_left_comm b, add-neg, add-zero, add-neg)))

  pub mul_comm : (a b : Number) → a * b ≡ b * a
  mul_comm = X.mul_comm

  pub mul_assoc : (a b c : Number) → a * b * c ≡ a * (b * c)
  mul_assoc = X.mul_assoc

  pub mul_left_comm : (a b c : Number) → a * (b * c) ≡ b * (a * c)
  mul_left_comm a b c =
      sym (mul_assoc a b c) ∙ ap (λ (t : Number). t * c) (mul_comm a b) ∙ mul_assoc b a c

  pub mul-add : (a b c : Number) → a * (b + c) ≡ a * b + a * c
  mul-add = X.mul-add

  pub add-mul : (a b c : Number) → (a + b) * c ≡ a * c + b * c
  add-mul a b c = rw (mul_comm (a + b) c, mul-add, mul_comm c a, mul_comm c b)

  pub mul-zero : (a : Number) → a * num 0 ≡ num 0
  mul-zero a = add_cancel (a * num 0) (num 0) (a * num 0) (rw (← mul-add, add-zero, zero-add))

  pub zero-mul : (a : Number) → num 0 * a ≡ num 0
  zero-mul a = mul_comm (num 0) a ∙ mul-zero a

  pub mul-neg : (a b : Number) → a * neg b ≡ neg (a * b)
  mul-neg a b = neg_of_sum_zero (a * b) (a * neg b) (rw (← mul-add, add-neg, mul-zero))

  pub neg-mul : (a b : Number) → neg a * b ≡ neg (a * b)
  neg-mul a b = rw (mul_comm (neg a) b, mul-neg, mul_comm b a)

  pub mul-one : (a : Number) → a * num 1 ≡ a
  mul-one = X.mul-one

  pub one-mul : (a : Number) → num 1 * a ≡ a
  one-mul a = mul_comm (num 1) a ∙ mul-one a

  pub neg_zero : neg (num 0) ≡ num 0
  neg_zero = sym (neg_of_sum_zero (num 0) (num 0) (add-zero (num 0)))

  pub sub-eq-add : (a b : Number) → a - b ≡ a + neg b
  sub-eq-add = X.sub-eq-add

  -- A number cancels against its opposite further along in a sum.
  pub cancel_1 : (a b z : Number) → a + (b + (neg a + z)) ≡ b + z
  cancel_1 a b z = ap (λ (t : Number). a + t) (add_left_comm b (neg a) z) ∙ add-neg-add a (b + z)

  pub cancel_end_1 : (a b : Number) → a + (b + neg a) ≡ b
  cancel_end_1 a b = add_left_comm a b (neg a) ∙ ap (λ (t : Number). b + t) (add-neg a) ∙ add-zero b

  pub cancel_2 : (a b c z : Number) → a + (b + (c + (neg a + z))) ≡ b + (c + z)
  cancel_2 a b c z = add_left_comm a b _ ∙ ap (λ (t : Number). b + t) (cancel_1 a c z)

  pub cancel_end_2 : (a b c : Number) → a + (b + (c + neg a)) ≡ b + (c)
  cancel_end_2 a b c = add_left_comm a b _ ∙ ap (λ (t : Number). b + t) (cancel_end_1 a c)

  pub cancel_3 : (a b c d z : Number) → a + (b + (c + (d + (neg a + z)))) ≡ b + (c + (d + z))
  cancel_3 a b c d z = add_left_comm a b _ ∙ ap (λ (t : Number). b + t) (cancel_2 a c d z)

  pub cancel_end_3 : (a b c d : Number) → a + (b + (c + (d + neg a))) ≡ b + (c + (d))
  cancel_end_3 a b c d = add_left_comm a b _ ∙ ap (λ (t : Number). b + t) (cancel_end_2 a c d)

  pub cancel_4 :
      (a b c d e z : Number) → a + (b + (c + (d + (e + (neg a + z))))) ≡ b + (c + (d + (e + z)))
  cancel_4 a b c d e z = add_left_comm a b _ ∙ ap (λ (t : Number). b + t) (cancel_3 a c d e z)

  pub cancel_end_4 : (a b c d e : Number) → a + (b + (c + (d + (e + neg a)))) ≡ b + (c + (d + (e)))
  cancel_end_4 a b c d e = add_left_comm a b _ ∙ ap (λ (t : Number). b + t) (cancel_end_3 a c d e)

  pub cancel_5 :
      (a b c d e f z : Number)
      → a + (b + (c + (d + (e + (f + (neg a + z)))))) ≡ b + (c + (d + (e + (f + z))))
  cancel_5 a b c d e f z = add_left_comm a b _ ∙ ap (λ (t : Number). b + t) (cancel_4 a c d e f z)

  pub cancel_end_5 :
      (a b c d e f : Number) → a + (b + (c + (d + (e + (f + neg a))))) ≡ b + (c + (d + (e + (f))))
  cancel_end_5 a b c d e f =
      add_left_comm a b _ ∙ ap (λ (t : Number). b + t) (cancel_end_4 a c d e f)

  pub cancel_6 :
      (a b c d e f g z : Number)
      → a + (b + (c + (d + (e + (f + (g + (neg a + z))))))) ≡ b + (c + (d + (e + (f + (g + z)))))
  cancel_6 a b c d e f g z =
      add_left_comm a b _ ∙ ap (λ (t : Number). b + t) (cancel_5 a c d e f g z)

  pub cancel_end_6 :
      (a b c d e f g : Number)
      → a + (b + (c + (d + (e + (f + (g + neg a)))))) ≡ b + (c + (d + (e + (f + (g)))))
  cancel_end_6 a b c d e f g =
      add_left_comm a b _ ∙ ap (λ (t : Number). b + t) (cancel_end_5 a c d e f g)

  pub cancel_7 :
      (a b c d e f g h z : Number)
      → a + (b + (c + (d + (e + (f + (g + (h + (neg a + z))))))))
        ≡ b + (c + (d + (e + (f + (g + (h + z))))))
  cancel_7 a b c d e f g h z =
      add_left_comm a b _ ∙ ap (λ (t : Number). b + t) (cancel_6 a c d e f g h z)

  pub cancel_end_7 :
      (a b c d e f g h : Number)
      → a + (b + (c + (d + (e + (f + (g + (h + neg a))))))) ≡ b + (c + (d + (e + (f + (g + (h))))))
  cancel_end_7 a b c d e f g h =
      add_left_comm a b _ ∙ ap (λ (t : Number). b + t) (cancel_end_6 a c d e f g h)

-- `simp (ring, X)` brings both sides of an equation between sums of products to one form.
pub ruleset ring = (
  sub-eq-add, add-mul, mul-add, mul-neg, neg-mul, neg-add, neg-neg, neg_zero, mul_assoc, mul_comm,
  mul_left_comm, add_assoc, add_comm, add_left_comm, add-neg, add-neg-add, neg-add-add, add-zero,
  zero-add, mul-zero, zero-mul, mul-one, one-mul, cancel_1, cancel_end_1, cancel_2, cancel_end_2,
  cancel_3, cancel_end_3, cancel_4, cancel_end_4, cancel_5, cancel_end_5, cancel_6, cancel_end_6,
  cancel_7, cancel_end_7,
)
