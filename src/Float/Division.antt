-- ===== src/Float/Division.antt =====
-- Exact quotients.
use quantora.Prelude.{◌≡◌, ◌≢◌, sym, ap, ◌∙◌}
use quantora.Float.Defs.{Floats}
use quantora.Float.Exact.{IsExact}
use quantora.Float.Algebra
use quantora.Float.Algebra.{ring}

module _ (F : Floats) (X : IsExact F) where
  open F use {Number, num, add as ◌+◌, sub as ◌-◌, mul as ◌*◌, div as ◌/◌, neg}

  infixl 65 ◌+◌ ◌-◌
  infixl 70 ◌*◌ ◌/◌
  pub inverse : (b : Number) → b ≢ num 0 → b * (num 1 / b) ≡ num 1
  inverse b h = Algebra.mul_comm F X b (num 1 / b) ∙ X.div-mul (num 1) b h

  pub div-eq-mul : (a b : Number) → b ≢ num 0 → a / b ≡ a * (num 1 / b)
  div-eq-mul a b h =
      sym (X.mul-one (a / b))
      ∙ ap (λ (t : Number). a / b * t) (sym (inverse b h))
      ∙ sym (X.mul_assoc (a / b) b (num 1 / b))
      ∙ ap (λ (t : Number). t * (num 1 / b)) (X.div-mul a b h)

  pub div_self : (b : Number) → b ≢ num 0 → b / b ≡ num 1
  div_self b h = div-eq-mul b b h ∙ inverse b h

  -- The shares of a whole add up.
  pub div-sub-add : (a b : Number) → b ≢ num 0 → (b - a) / b + a / b ≡ num 1
  div-sub-add a b h = rw (div-eq-mul (b - a) b h, div-eq-mul a b h) (simp (ring, X) (inverse b h))

  pub mul-div : (a b : Number) → b ≢ num 0 → b * (a / b) ≡ a
  mul-div a b h = Algebra.mul_comm F X b (a / b) ∙ X.div-mul a b h
