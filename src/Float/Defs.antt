-- ===== src/Float/Defs.antt =====
-- The operations that the code applies to a Python `float`.
use quantora.Prelude.{ℕ, Bool}

-- `num n` is the literal `float(n)`, and `trunc x` is `float(int(x))`.
pub record Floats : Type 1 where
  pub Number : Type 0
  pub num : ℕ → Number
  pub add : Number → Number → Number
  pub sub : Number → Number → Number
  pub mul : Number → Number → Number
  pub div : Number → Number → Number
  pub neg : Number → Number
  pub trunc : Number → Number
  pub lt : Number → Number → Bool
  pub eq : Number → Number → Bool
