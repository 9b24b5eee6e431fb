-- ===== src/Analytics/Scenario/Resolved.antt =====
-- The weights of a scenario (services/quant/portfolio/scenario.py), in exact arithmetic.
use quantora.Prelude.{
  ◌≡◌, refl, ap, ◌∙◌, true, false, Bool-cases, inl, inr, Option-cases, List, [], ◌∷◌, map, String,
  All, put, put-All, or-false, subst, ◌==◌, length, ok, >>=-eq-ok, raise_if-ok, ok_injective,
}
use quantora.Float.{Floats, IsExact, le, sum}
use quantora.Float.Order
use quantora.Float.Division
use quantora.Float.Sums
use quantora.Analytics.Holdings.{WeightDict}
use quantora.Analytics.Scenario.{
  weight_epsilon, Overrides, finite_values, has_negative, resolve_symbols, checked_values,
  validate_overrides, combine, normalise, resolve_weights,
}

module _ (F : Floats) (X : IsExact F) where
  open F use {Number, num, div as ◌/◌, lt}

  infixl 70 ◌/◌
  abbrev pub IsNonneg : Number → Type 0
  IsNonneg x = lt x (num 0) ≡ false

  checked-IsNonneg :
      (values : WeightDict F) → has_negative F values ≡ false → All (λ e. IsNonneg e.1) values
  unfolding has_negative
  checked-IsNonneg [] h = tt
  checked-IsNonneg ((symbol, x) ∷ rest) h =
      let (first, others) = or-false _ _ h in (first, checked-IsNonneg rest others)

  -- The values that pass the checks are not negative.
  validate_overrides-IsNonneg :
      (overrides : Overrides F) (values : WeightDict F)
      → validate_overrides F overrides ≡ ok values
      → All (λ e. IsNonneg e.1) values
  unfolding validate_overrides checked_values
  validate_overrides-IsNonneg overrides values h =
      let (_, k) = raise_if-ok (length overrides == 0) _ _ h in
      elim (Option-cases (finite_values F overrides)) [
        | inl none_found ↦ cc (rw none_found at k)
        | inr (found, e) ↦
            let (clean, l) = raise_if-ok (has_negative F found) _ _ (rw e at k) in
            let (_, _, m) = >>=-eq-ok (resolve_symbols F found) _ l in
            subst (All (λ e. IsNonneg e.1)) (ok_injective m) (checked-IsNonneg found clean)
      ]

  combine-IsNonneg :
      (values combined : WeightDict F)
      → All (λ e. IsNonneg e.1) values
      → All (λ e. IsNonneg e.1) combined
      → All (λ e. IsNonneg e.1) (combine F values combined)
  unfolding combine
  combine-IsNonneg [] combined h k = k
  combine-IsNonneg ((symbol, x) ∷ rest) combined (first, others) k =
      combine-IsNonneg rest (put symbol x combined) others
        (put-All IsNonneg symbol x combined first k)

  normalise-IsNonneg :
      (total : Number) (weights : WeightDict F)
      → lt (num 0) total ≡ true
      → All (λ e. IsNonneg e.1) weights
      → All (λ e. IsNonneg e.1) (normalise F total weights)
  unfolding normalise
  normalise-IsNonneg total [] positive h = tt
  normalise-IsNonneg total ((symbol, x) ∷ rest) positive (first, others) =
      (Order.div_nonneg F X x total first positive, normalise-IsNonneg total rest positive others)

  amounts-normalise :
      (total : Number) (weights : WeightDict F)
      → map (λ e. e.1) (normalise F total weights) ≡ map (λ e. e.1 / total) weights
  unfolding normalise
  amounts-normalise total [] = refl
  amounts-normalise total ((symbol, x) ∷ rest) =
      ap (λ t. x / total ∷ t) (amounts-normalise total rest)

  total_pos : (t : Number) → le F t (weight_epsilon F) ≡ false → lt (num 0) t ≡ true
  total_pos t h = elim (Bool-cases (lt (weight_epsilon F) t)) [
    | inl above ↦ X.lt_trans (num 0) (weight_epsilon F) t (Order.tiny_pos F X 9) above
    | inr below ↦ cc (rw below at h)
  ]

  -- In exact arithmetic: when the weights held now are not negative and the request passes, the
  -- weights of the scenario sum to one and none of them is negative.
  pub resolve_weights-normal :
      (base_weights : WeightDict F) (overrides : Overrides F) (weights : WeightDict F)
      (notes : List Number)
      → All (λ e. IsNonneg e.1) base_weights
      → resolve_weights F base_weights overrides ≡ ok (weights, notes)
      → (sum F (map (λ e. e.1) weights) ≡ num 1) × All (λ e. IsNonneg e.1) weights
  unfolding resolve_weights
  resolve_weights-normal base_weights overrides weights notes held h =
      let (values, valid, k) = >>=-eq-ok (validate_overrides F overrides) _ h in
      let combined = combine F values base_weights in
      let total = sum F (map (λ e. e.1) combined) in
      let (enough, l) = raise_if-ok (le F total (weight_epsilon F)) _ _ k in
      let positive = total_pos total enough in
      let nonzero = Order.ne_zero_of_pos F X total positive in
      subst
        (λ (r : WeightDict F × List Number).
          (sum F (map (λ e. e.1) r.0) ≡ num 1) × All (λ e. IsNonneg e.1) r.0)
        (ok_injective l)
        (
          ap (sum F) (amounts-normalise total combined)
              ∙ Sums.sum-shares F X (λ (e : String × Number). e.1) total combined nonzero
              ∙ Division.div_self F X total nonzero,
          normalise-IsNonneg total combined positive (
              combine-IsNonneg values base_weights
                (validate_overrides-IsNonneg overrides values valid) held),
        )
