-- ===== src/Analytics/WhatIf.antt =====
-- The theorems on scenarios, applied at concrete inputs (services/quant/portfolio/scenario.py).
use quantora.Prelude.{
  ◌||◌, is_in, ◌≡◌, refl, false, none, some, List, [], ◌∷◌, map, String, ok, All, put,
}
use quantora.Float.{sum, tiny, abs}
use quantora.Rational.{ℚ, exact, add, mul, neg, inv, lt}
use quantora.Rational.Laws.{exact-IsExact}
use quantora.Data.Universe.{get_instrument, lookup}
use quantora.Analytics.Holdings.{WeightDict}
use quantora.Analytics.Examples.{q}
use quantora.Analytics.Scenario.{
  Overrides, finite, resolve_weights, validate_overrides, finite_values, checked_values,
  has_negative, resolve_symbols, combine, normalise, rescaling, weight_in, describe_changes,
}
use quantora.Analytics.Scenario.Resolved.{IsNonneg, resolve_weights-normal}
use quantora.Analytics.Scenario.Changes.{
  reported, reported-describe_changes, IsExplained, describe_changes-IsExplained,
}
use quantora.Analytics.Scenario.Deltas.{Measured, metric_deltas}
use quantora.Analytics.Scenario.Deltas.Swap.{Pairwise, Compares, metric_deltas-Reverse}

-- Half is held in each of two instruments; one is doubled, and a third is bought.
abbrev base_weights : WeightDict exact
base_weights = ("TCS.NS", q 1) ∷ ("NIFTY", q 1) ∷ []

abbrev overrides : Overrides exact
overrides = ("TCS.NS", finite (q 2)) ∷ ("INFY.NS", finite (q 3)) ∷ []

resolved : (r : WeightDict exact × List ℚ) × (resolve_weights exact base_weights overrides ≡ ok r)
unfolding resolve_weights validate_overrides finite_values checked_values has_negative
    resolve_symbols combine normalise rescaling put get_instrument lookup sum tiny abs add mul neg
    inv lt
resolved = (_, refl)

held : All (λ (e : String × ℚ). lt e.1 (q 0) ≡ false) base_weights
unfolding lt
held = (refl, (refl, tt))

resolve_weights-normal_example :
    (sum exact (map (λ (e : String × ℚ). e.1) (resolved.0).0) ≡ q 1)
    × All (λ (e : String × ℚ). IsNonneg exact exact-IsExact e.1) (resolved.0).0
resolve_weights-normal_example =
    resolve_weights-normal exact exact-IsExact base_weights overrides (resolved.0).0 (resolved.0).1
      held resolved.1

reported-describe_changes_example :
    is_in "INFY.NS"
      (reported exact exact-IsExact (describe_changes exact base_weights (resolved.0).0))
    ≡ (exact.lt (tiny exact 9) (
          exact.sub
            (weight_in exact (resolved.0).0 "INFY.NS")
            (weight_in exact base_weights "INFY.NS"))
        || exact.lt (tiny exact 9) (
            exact.sub
              (weight_in exact base_weights "INFY.NS")
              (weight_in exact (resolved.0).0 "INFY.NS")))
reported-describe_changes_example =
    reported-describe_changes exact exact-IsExact base_weights (resolved.0).0 "INFY.NS"

describe_changes-IsExplained_example :
    All
      (IsExplained exact exact-IsExact base_weights (resolved.0).0)
      (describe_changes exact base_weights (resolved.0).0)
describe_changes-IsExplained_example =
    describe_changes-IsExplained exact exact-IsExact base_weights (resolved.0).0 held
      (resolve_weights-normal exact exact-IsExact base_weights overrides (resolved.0).0
        (resolved.0).1 held resolved.1).1

abbrev calm : Measured exact
calm = record {
  values = ("beta", some (q 1)) ∷ ("sharpe", some (q 2)) ∷ ("hhi", none) ∷ [];
  unavailable = ("hhi", "no weights") ∷ [];
}

abbrev bold : Measured exact
bold = record { values = ("sharpe", some (q 1)) ∷ ("hhi", some (q 1)) ∷ []; unavailable = [] }

metric_deltas-Reverse_example :
    All (Compares exact exact-IsExact calm bold) (metric_deltas exact calm bold)
    × Pairwise exact exact-IsExact (metric_deltas exact calm bold) (metric_deltas exact bold calm)
metric_deltas-Reverse_example = metric_deltas-Reverse exact exact-IsExact calm bold
