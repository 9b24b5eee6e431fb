-- ===== src/Float/Exact.antt =====
-- The laws of exact arithmetic: an ordered field, with truncation towards zero.
use Prim.Native.Nat.{◌+◌ as plus}
use quantora.Prelude.{ℕ, ◌<◌, ◌≡◌, ◌≢◌, ◌↔◌, true, false}
use quantora.Float.Defs.{Floats}

module _ (F : Floats) where
  open F use {Number, num, add as ◌+◌, sub as ◌-◌, mul as ◌*◌, div as ◌/◌, neg, trunc, lt, eq}

  infixl 65 ◌+◌ ◌-◌
  infixl 70 ◌*◌ ◌/◌
  pub record IsExact : Type 0 where
    pub add_comm : (a b : Number) → a + b ≡ b + a
    pub add_assoc : (a b c : Number) → a + b + c ≡ a + (b + c)
    pub add-zero : (a : Number) → a + num 0 ≡ a
    pub add-neg : (a : Number) → a + neg a ≡ num 0
    pub sub-eq-add : (a b : Number) → a - b ≡ a + neg b
    pub mul_comm : (a b : Number) → a * b ≡ b * a
    pub mul_assoc : (a b c : Number) → a * b * c ≡ a * (b * c)
    pub mul-one : (a : Number) → a * num 1 ≡ a
    pub mul-add : (a b c : Number) → a * (b + c) ≡ a * b + a * c
    pub div-mul : (a b : Number) → b ≢ num 0 → a / b * b ≡ a
    pub eq_iff : (a b : Number) → (eq a b ≡ true) ↔ (a ≡ b)
    pub lt_irrefl : (a : Number) → lt a a ≡ false
    pub lt_trans : (a b c : Number) → lt a b ≡ true → lt b c ≡ true → lt a c ≡ true
    pub lt_total : (a b : Number) → lt a b ≡ false → lt b a ≡ false → a ≡ b
    pub add-lt : (a b c : Number) → lt a b ≡ true → lt (a + c) (b + c) ≡ true
    pub mul-lt : (a b c : Number) → lt a b ≡ true → lt (num 0) c ≡ true → lt (a * c) (b * c) ≡ true
    pub num-add : (m n : ℕ) → num (plus m n) ≡ num m + num n
    pub num_pos : (n : ℕ) → 0 < n → lt (num 0) (num n) ≡ true
    pub trunc_nonneg : (a : Number) → lt a (num 0) ≡ false → lt (trunc a) (num 0) ≡ false
    pub trunc_le : (a : Number) → lt a (num 0) ≡ false → lt a (trunc a) ≡ false
    pub trunc_close : (a : Number) → lt a (num 0) ≡ false → lt a (trunc a + num 1) ≡ true
