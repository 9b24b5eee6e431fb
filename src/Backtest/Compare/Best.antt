-- ===== src/Backtest/Compare/Best.antt =====
-- The winner of a metric (services/quant/backtest/compare.py).
use quantora.Prelude.{
  ◌≡◌, refl, true, false, Bool-cases, if◌then◌else◌, inl, inr, some, List, [], ◌∷◌, ◌++◌, String,
  All, All-imp,
}
use quantora.Float.{Floats, IsExact}
use quantora.Float.Order
use quantora.Backtest.Compare.{Direction, higher, lower, prefers, extreme, best_of}

-- An entry stands somewhere in a list.
abbrev pub StandsIn {ℓ} : {A : Type ℓ} → A → List A → Type ℓ
StandsIn {A} e es = (before : List A) × (after : List A) × (es ≡ before ++ (e ∷ after))

second {ℓ} :
    {A : Type ℓ} (e x r : A) (xs before after : List A)
    → e ∷ xs ≡ before ++ (r ∷ after)
    → StandsIn r (e ∷ x ∷ xs)
second e x r xs [] after h = ([], x ∷ after, cc)
second e x r xs (c ∷ before) after h = (c ∷ x ∷ before, after, cc)

module _ (F : Floats) where
  extreme-StandsIn :
      (d : Direction) (e : String × F.Number) (es : List (String × F.Number))
      → StandsIn (extreme F d e es) (e ∷ es)
  unfolding extreme
  extreme-StandsIn d e [] = ([], [], refl)
  extreme-StandsIn d e (x ∷ es) = elim (Bool-cases (prefers F d e.1 x.1)) [
    | inl more ↦ let (before, after, h) = extreme-StandsIn d x es in rw more (e ∷ before, after, cc)
    | inr less ↦
        let (before, after, h) = extreme-StandsIn d e es in rw less (second e x _ es before after h)
  ]

  module _ (X : IsExact F) where
    -- A value that is strictly better than one that is not beaten is not beaten.
    unbeaten :
        (d : Direction) (a b c : F.Number)
        → prefers F d a b ≡ true
        → prefers F d a c ≡ false
        → prefers F d b c ≡ false
    unfolding prefers
    unbeaten higher a b c h k = Order.le_of_lt F X c b (Order.lt_of_le_of_lt F X c a b k h)
    unbeaten lower a b c h k = Order.le_of_lt F X b c (Order.lt_of_lt_of_le F X b a c h k)

    self : (d : Direction) (a : F.Number) → prefers F d a a ≡ false
    unfolding prefers
    self higher a = X.lt_irrefl a
    self lower a = X.lt_irrefl a

    -- What the running best is not beaten by, the final best is not beaten by.
    extreme-keeps :
        (d : Direction) (e : String × F.Number) (es : List (String × F.Number)) (v : F.Number)
        → prefers F d e.1 v ≡ false
        → prefers F d (extreme F d e es).1 v ≡ false
    unfolding extreme
    extreme-keeps d e [] v h = h
    extreme-keeps d e (x ∷ es) v h = elim (Bool-cases (prefers F d e.1 x.1)) [
      | inl more ↦ rw (more, extreme) (extreme-keeps d x es v (unbeaten d e.1 x.1 v more h))
      | inr less ↦ rw (less, extreme) (extreme-keeps d e es v h)
    ]

    extreme-first :
        (d : Direction) (e x : String × F.Number) (es : List (String × F.Number))
        → prefers F d (extreme F d e (x ∷ es)).1 x.1 ≡ false
    unfolding extreme
    extreme-first d e x es = elim (Bool-cases (prefers F d e.1 x.1)) [
      | inl more ↦ rw (more, extreme) (extreme-keeps d x es x.1 (self d x.1))
      | inr less ↦ rw (less, extreme) (extreme-keeps d e es x.1 less)
    ]

    extreme-All :
        (d : Direction) (e : String × F.Number) (es : List (String × F.Number))
        → All (λ x. prefers F d (extreme F d e es).1 x.1 ≡ false) es
    unfolding extreme
    extreme-All d e [] = tt
    extreme-All d e (x ∷ es) =
        (extreme-first d e x es, extreme-All d (if prefers F d e.1 x.1 then x else e) es)

    -- A value that is no worse than another: where higher is better no lower, where lower is better no
    -- higher.
    abbrev pub IsAsGoodAs : Direction → F.Number → F.Number → Type 0
    IsAsGoodAs higher other v = F.lt v other ≡ false
    IsAsGoodAs lower other v = F.lt other v ≡ false

    prefers-IsAsGoodAs :
        (d : Direction) (v other : F.Number) → prefers F d v other ≡ false → IsAsGoodAs d other v
    unfolding prefers
    prefers-IsAsGoodAs higher v other h = h
    prefers-IsAsGoodAs lower v other h = h

    -- In exact arithmetic: the winner of a metric is the label of an entry that can be compared, and
    -- no entry has a greater value where higher is better, or a smaller one where lower is better.
    pub best_of-unbeaten :
        (d : Direction) (es : List (String × F.Number)) (label : String)
        → best_of F (some d) es ≡ some label
        → (v : F.Number) × StandsIn (label, v) es × All (λ x. IsAsGoodAs d x.1 v) es
    unfolding best_of
    best_of-unbeaten d [] label h = cc
    best_of-unbeaten d (e ∷ []) label h = cc
    best_of-unbeaten d (e ∷ f ∷ es) label h =
        let r = extreme F d e (f ∷ es) in
        let (before, after, k) = extreme-StandsIn d e (f ∷ es) in
        (
          r.1,
          (before, after, cc),
          (
            prefers-IsAsGoodAs d r.1 e.1 (extreme-keeps d e (f ∷ es) e.1 (self d e.1)),
            All-imp (λ x. prefers-IsAsGoodAs d r.1 x.1) (f ∷ es) (extreme-All d e (f ∷ es)),
          ),
        )
