-- ===== src/Prelude/Lists.antt =====
-- Lists measured by native numbers, under the library's names, and predicates on their members.
use Prim.Native.Nat.{ℕ, zero, suc, ◌+◌}
use mathlib.Core.Path.{◌≡◌}
use mathlib.Core.List.{List, [], ◌∷◌, ◌++◌}
use native.Mathlib.Omega.{arith}

module _ {ℓ} {A : Type ℓ} where
  abbrev pub length : List A → ℕ
  length [] = 0
  length (x ∷ xs) = suc (length xs)

  abbrev pub take : ℕ → List A → List A
  take zero xs = []
  take (suc n) [] = []
  take (suc n) (x ∷ xs) = x ∷ take n xs

  pub length-append : (xs ys : List A) → length (xs ++ ys) ≡ length xs + length ys
  length-append [] ys = omega arith
  length-append (x ∷ xs) ys = omega (arith, length-append xs ys)

  -- A property that each member has.
  abbrev pub All {κ} : (Holds : A → Type κ) → List A → Type κ
  All Holds [] = Unit
  All Holds (member ∷ others) = Holds member × All Holds others

  pub All-snoc {κ} :
      (Holds : A → Type κ) (others : List A) (last : A)
      → All Holds others
      → Holds last
      → All Holds (others ++ (last ∷ []))
  All-snoc Holds [] last held h = (h, tt)
  All-snoc Holds (member ∷ others) last (first, held) h = (first, All-snoc Holds others last held h)

pub All-imp {ℓ κ κ'} :
    {A : Type ℓ} {P : A → Type κ} {Q : A → Type κ'} (f : (a : A) → P a → Q a) (others : List A)
    → All P others
    → All Q others
All-imp f [] h = tt
All-imp f (a ∷ others) (first, h) = (f a first, All-imp f others h)

-- An operation on two columns, row by row.
abbrev pub row_by_row {ℓ κ μ} :
    {A : Type ℓ} {B : Type κ} {C : Type μ} → (A → B → C) → List A → List B → List C
row_by_row op (a ∷ others) (b ∷ bs) = op a b ∷ row_by_row op others bs
row_by_row op _ _ = []
