-- ===== src/Strategies/Parameters/Within.antt =====
-- Accepted values are within their bounds (services/quant/strategies/base.py).
use quantora.Prelude.{
  ◌≡◌, refl, sym, ap, subst, ◌∙◌, false, Option, none, some, Option-cases, inl, inr, Error,
  invalid_parameters, type_error, ok, raise_if, ◌>>◌, raise_if-ok, ok_injective, some_injective,
}
use quantora.Float.{Floats}
use quantora.Strategies.Parameters.{
  Value, integer, decimal, boolean, string, null, of_bool, Reader, ParameterSpec, is_excluded,
  coerced, number_of, below_minimum, above_maximum, bounded, validate,
}

module _ (F : Floats) (reader : Reader F) where
  open F use {Number, lt}

  -- A number that is not less than a bound, and one that is not more, where there is one.
  abbrev IsFrom : Option Number → Number → Type 0
  IsFrom none x = Unit
  IsFrom (some minimum) x = lt x minimum ≡ false

  abbrev IsUpTo : Option Number → Number → Type 0
  IsUpTo none x = Unit
  IsUpTo (some maximum) x = lt maximum x ≡ false

  abbrev pub IsWithin : ParameterSpec F → Number → Type 0
  IsWithin spec x = IsFrom spec.minimum x × IsUpTo spec.maximum x

  below_minimum-IsFrom :
      (bound : Option Number) (x : Number) → below_minimum F bound x ≡ false → IsFrom bound x
  unfolding below_minimum
  below_minimum-IsFrom none x h = tt
  below_minimum-IsFrom (some minimum) x h = h

  above_maximum-IsUpTo :
      (bound : Option Number) (x : Number) → above_maximum F bound x ≡ false → IsUpTo bound x
  unfolding above_maximum
  above_maximum-IsUpTo none x h = tt
  above_maximum-IsUpTo (some maximum) x h = h

  checked-IsWithin :
      (spec : ParameterSpec F) (raised : Error) (y : Number) (v w : Value F)
      → number_of F v ≡ some y
      → (raise_if (below_minimum F spec.minimum y) raised
          >> (raise_if (above_maximum F spec.maximum y) raised >> ok v))
        ≡ ok w
      → (x : Number) → number_of F w ≡ some x
      → IsWithin spec x
  checked-IsWithin spec raised y v w e h x n =
      let (low, k) = raise_if-ok (below_minimum F spec.minimum y) raised _ h in
      let (high, l) = raise_if-ok (above_maximum F spec.maximum y) raised _ k in
      subst (IsWithin spec) (some_injective (sym e ∙ ap (number_of F) (ok_injective l) ∙ n))
        (below_minimum-IsFrom spec.minimum y low, above_maximum-IsUpTo spec.maximum y high)

  unnumbered : (spec : ParameterSpec F) (x : Number) → number_of F null ≡ some x → IsWithin spec x
  unfolding number_of
  unnumbered spec x h = cc

  bounded-IsWithin :
      (spec : ParameterSpec F) (v w : Value F) (x : Number)
      → bounded F spec v ≡ ok w
      → number_of F w ≡ some x
      → IsWithin spec x
  unfolding bounded number_of
  bounded-IsWithin spec (string s) w x h n =
      cc (subst (λ (u : Value F). number_of F u ≡ some x) (sym (ok_injective h)) n)
  bounded-IsWithin spec null w x h n =
      let (_, k) = raise_if-ok _ (type_error spec.name) _ h in
      unnumbered spec x (subst (λ (u : Value F). number_of F u ≡ some x) (sym (ok_injective k)) n)
  bounded-IsWithin spec (integer y) w x h n =
      checked-IsWithin spec (invalid_parameters spec.name) y (integer y) w refl h x n
  bounded-IsWithin spec (decimal y) w x h n =
      checked-IsWithin spec (invalid_parameters spec.name) y (decimal y) w refl h x n
  bounded-IsWithin spec (boolean b) w x h n =
      checked-IsWithin spec (invalid_parameters spec.name) (of_bool F b) (boolean b) w refl h x n

  -- Whatever the type of a specification and whatever it is given: if the value that it accepts is
  -- compared as a number (it is neither a text nor None), that number is not less than the minimum and
  -- not more than the maximum, where there are any.
  pub validate-IsWithin :
      (spec : ParameterSpec F) (v w : Value F) (x : Number)
      → validate F reader spec v ≡ ok w
      → number_of F w ≡ some x
      → IsWithin spec x
  unfolding validate
  validate-IsWithin spec v w x h n =
      let (_, k) = raise_if-ok (is_excluded F v spec.choices) _ _ h in
      elim (Option-cases (coerced F reader spec.type v)) [
        | inl failed ↦ cc (rw failed at k)
        | inr (u, e) ↦ bounded-IsWithin spec u w x (rw e at k) n
      ]
