-- ===== src/Backtest/Metrics/Drawdown.antt =====
-- The bounds of the drawdown (services/quant/backtest/metrics.py), in exact arithmetic.
use quantora.Prelude.{◌≡◌, true, false, Bool-cases, inl, inr, row_by_row, List, [], ◌∷◌, All, arith}
use quantora.Float.{Floats, IsExact}
use quantora.Float.Algebra
use quantora.Float.Algebra.{ring}
use quantora.Float.Order
use quantora.Backtest.Metrics.{Statistics, drawdown_curve, max_drawdown}

module _ (F : Floats) where
  open F use {Number, num, sub as ◌-◌, mul as ◌*◌, div as ◌/◌, neg, lt}

  infixl 65 ◌-◌
  infixl 70 ◌*◌ ◌/◌
  -- Each value is at most the peak beside it.
  abbrev pub IsBelow : List Number → List Number → Type 0
  IsBelow [] [] = Unit
  IsBelow (e ∷ es) (peak ∷ peaks) = (lt peak e ≡ false) × IsBelow es peaks
  IsBelow _ _ = ⊥

  -- As documented: a running maximum is nowhere below its column, and a minimum is one of the values.
  pub record IsStatistics (S : Statistics Number) : Type 1 where
    pub cummax-IsBelow : (es : List Number) → IsBelow es (S.cummax es)
    pub minimum_among :
        (Holds : Number → Type 0) (e : Number) (es : List Number)
        → All Holds (e ∷ es)
        → Holds (S.minimum (e ∷ es))

  module _ (X : IsExact F) where
    -- From a loss of everything, which is not reached, to none.
    abbrev pub IsDrawdown : Number → Type 0
    IsDrawdown d = (lt (num 0 - num 1) d ≡ true) × (lt (num 0) d ≡ false)

    share_le_one :
        (e peak : Number)
        → lt (num 0) peak ≡ true
        → lt peak e ≡ false
        → lt (num 1) (e / peak) ≡ false
    share_le_one e peak above below = elim (Bool-cases (lt (num 1) (e / peak))) [
      | inl more ↦ cc (
        rw (Algebra.one-mul F X, X.div-mul e peak (Order.ne_zero_of_pos F X peak above)) at
            (X.mul-lt (num 1) (e / peak) peak more above),
        below,
      )
      | inr less ↦ less
    ]

    fall-IsDrawdown :
        (e peak : Number) → lt (num 0) e ≡ true → lt peak e ≡ false → IsDrawdown (e / peak - num 1)
    fall-IsDrawdown e peak positive below =
        let above = Order.lt_of_lt_of_le F X (num 0) e peak positive below in
        let share = e / peak in
        (
          simp (ring, X)
              (simp (ring, X) at
                (X.add-lt (num 0) share (neg (num 1)) (Order.div_pos F X e peak positive above))),
          rw (X.sub-eq-add) (
              rw (X.add-neg) at
                (Order.add-le F X share (num 1) (neg (num 1)) (share_le_one e peak above below))),
        )

    curve-IsDrawdown :
        (es peaks : List Number)
        → All (λ e. lt (num 0) e ≡ true) es
        → IsBelow es peaks
        → All IsDrawdown (row_by_row (λ e peak. e / peak - num 1) es peaks)
    curve-IsDrawdown [] [] positive below = tt
    curve-IsDrawdown [] (p ∷ ps) positive below = elim below [ ]
    curve-IsDrawdown (e ∷ es) [] positive below = elim below [ ]
    curve-IsDrawdown (e ∷ es) (p ∷ ps) (first, others) (under, below) =
        (fall-IsDrawdown e p first under, curve-IsDrawdown es ps others below)

    least-IsDrawdown :
        (S : Statistics Number) (e : Number) (es peaks : List Number)
        → IsStatistics S
        → All (λ e. lt (num 0) e ≡ true) (e ∷ es)
        → IsBelow (e ∷ es) peaks
        → IsDrawdown (S.minimum (row_by_row (λ e peak. e / peak - num 1) (e ∷ es) peaks))
    least-IsDrawdown S e es [] law positive below = elim below [ ]
    least-IsDrawdown S e es (p ∷ ps) law (first, others) (under, below) =
        law.minimum_among IsDrawdown (e / p - num 1) (row_by_row (λ e peak. e / peak - num 1) es ps)
          (fall-IsDrawdown e p first under, curve-IsDrawdown es ps others below)

    -- In exact arithmetic, with the running maximum and the minimum as documented: while equity is
    -- positive at every bar, the maximum drawdown is at most zero and above minus one.
    pub max_drawdown-IsDrawdown :
        (S : Statistics Number) (equity : List Number)
        → IsStatistics S
        → All (λ e. lt (num 0) e ≡ true) equity
        → IsDrawdown (max_drawdown F S equity)
    unfolding max_drawdown drawdown_curve
    max_drawdown-IsDrawdown S [] law positive = (
      rw (X.sub-eq-add, Algebra.zero-add F X, max_drawdown)
          (Order.neg_neg F X (num 1) (X.num_pos 1 (omega arith))),
      X.lt_irrefl (num 0),
    )
    max_drawdown-IsDrawdown S (e ∷ es) law positive =
        least-IsDrawdown S e es (S.cummax (e ∷ es)) law positive (law.cummax-IsBelow (e ∷ es))
