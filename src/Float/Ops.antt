-- ===== src/Float/Ops.antt =====
-- Python's built-ins on floats, in terms of the operations of `Floats`.
use quantora.Prelude.{ℕ, suc, Bool, not, if◌then◌else◌, List, foldl, ℤ, pos, negsuc, ◌^◌}
use quantora.Float.Defs.{Floats}

module _ (F : Floats) where
  open F use {Number, num, add, mul, div, neg, lt, eq}

  -- `a <= b`; the numbers have no NaN.
  abbrev pub le : Number → Number → Bool
  le a b = not (lt b a)

  -- `bool(a)`
  abbrev pub truthy : Number → Bool
  truthy a = not (eq a (num 0))

  unfoldable pub abs : Number → Number
  abs a = if lt a (num 0) then neg a else a

  -- `min` and `max` keep their first argument on a tie.
  unfoldable pub min : Number → Number → Number
  min a b = if lt b a then b else a

  unfoldable pub max : Number → Number → Number
  max a b = if lt a b then b else a

  -- `sum` adds from the left, from 0.
  unfoldable pub sum : List Number → Number
  sum = foldl add (num 0)

  -- `float(k)` of an integer
  abbrev pub of_int : ℤ → Number
  of_int (pos n) = num n
  of_int (negsuc n) = neg (num (suc n))

  -- The literal `1e-k`.
  unfoldable pub tiny : ℕ → Number
  tiny k = div (num 1) (num (10 ^ k))
