-- ===== src/Float/Sums.antt =====
-- Sums of exact numbers.
use quantora.Prelude.{◌≡◌, ◌≢◌, refl, sym, ap, ◌∙◌, List, [], ◌∷◌, map, foldl}
use quantora.Float.Defs.{Floats}
use quantora.Float.Exact.{IsExact}
use quantora.Float.Ops.{sum}
use quantora.Float.Algebra
use quantora.Float.Division

module _ (F : Floats) (X : IsExact F) where
  open F use {Number, num, add as ◌+◌, mul as ◌*◌, div as ◌/◌}

  infixl 65 ◌+◌
  infixl 70 ◌*◌ ◌/◌
  pub add-div : (a b t : Number) → t ≢ num 0 → a / t + b / t ≡ (a + b) / t
  add-div a b t h =
      rw
        (
          Division.div-eq-mul F X a t h,
          Division.div-eq-mul F X b t h,
          Division.div-eq-mul F X (a + b) t h,
        )
        (sym (Algebra.add-mul F X a b (num 1 / t)))

  pub zero-div : (t : Number) → t ≢ num 0 → num 0 / t ≡ num 0
  zero-div t h = Division.div-eq-mul F X (num 0) t h ∙ Algebra.zero-mul F X (num 1 / t)

  shares-from {ℓ} :
      {A : Type ℓ} (amount : A → Number) (t : Number) (xs : List A) (a : Number)
      → t ≢ num 0
      → foldl ◌+◌ (a / t) (map (λ x. amount x / t) xs) ≡ foldl ◌+◌ a (map amount xs) / t
  shares-from amount t [] a h = refl
  shares-from amount t (x ∷ xs) a h =
      ap (λ (s : Number). foldl ◌+◌ s (map (λ x. amount x / t) xs)) (add-div a (amount x) t h)
      ∙ shares-from amount t xs (a + amount x) h

  -- The shares of a sum, each divided by the same number.
  pub sum-shares {ℓ} :
      {A : Type ℓ} (amount : A → Number) (t : Number) (xs : List A)
      → t ≢ num 0
      → sum F (map (λ x. amount x / t) xs) ≡ sum F (map amount xs) / t
  unfolding sum
  sum-shares amount t xs h =
      ap (λ (s : Number). foldl ◌+◌ s (map (λ x. amount x / t) xs)) (sym (zero-div t h))
      ∙ shares-from amount t xs (num 0) h
