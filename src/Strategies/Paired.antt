-- ===== src/Strategies/Paired.antt =====
-- The theorems on the indicators and on pair trading, applied at concrete inputs
-- (services/quant/indicators, services/quant/strategies/pair_trading.py), with the rolling statistics as
-- functions. Roots and logarithms are not exact numbers: the identity stands for them.
use quantora.Prelude.{
  ℕ, zero, suc, ◌≡◌, ◌≢◌, refl, ap, ap₂, true, Option, none, some, List, [], ◌∷◌, ◌++◌, length,
  row_by_row, ok, arith,
}
use mathlib.Core.Option
use quantora.Float.{sum, abs}
use quantora.Rational.{ℚ, exact, add, neg, mul, inv, lt}
use quantora.Strategies.Base.{flat}
use quantora.Strategies.Examples.{q}
use quantora.Strategies.Columns.{Column, Agree}
use quantora.Strategies.Traded.{pandas, pandas-IsPandas, column}
use quantora.Indicators.{Rolling, both, validate_window, ema, macd, MacdLines}
use quantora.Indicators.Continued.{Extends}
use quantora.Indicators.Causal.{LinesExtend, macd-Extends}
use quantora.Strategies.PairTrading.{
  Leg, PairParams, PairColumns, PairRow, position_of, close_of, common_bars, pair_columns,
  reindexed_row, pair_row, pair_directions, pair_target, is_unusable, is_decoupled, enters_long,
  enters_short, reverts, pair_signals,
}
use quantora.Strategies.PairTrading.Held.{IsHeld, reindexed_row-IsHeld}
use quantora.Strategies.PairTrading.Causal.{IsRolling}
use quantora.Strategies.PairTrading.Common.{with_later}
use quantora.Strategies.PairTrading.Extended.{pair_signals-Extends}

abbrev pushed : Option ℚ → Option (List ℚ) → Option (List ℚ)
pushed (some x) (some xs) = some (x ∷ xs)
pushed _ _ = none

-- So many values up to a row, none of which may be missing.
abbrev window : ℕ → Column (Option ℚ) → Column (Option (List ℚ))
window zero c i = none
window (suc zero) c i = pushed (c i) (some [])
window (suc (suc w)) c zero = none
window (suc (suc w)) c (suc i) = pushed (c (suc i)) (window (suc w) c i)

window-Agree : (w : ℕ) (c d : Column (Option ℚ)) (i : ℕ) → Agree i c d → window w c i ≡ window w d i
window-Agree zero c d i h = refl
window-Agree (suc zero) c d i h = ap (λ x. pushed x (some [])) (h i (omega arith))
window-Agree (suc (suc w)) c d zero h = refl
window-Agree (suc (suc w)) c d (suc i) h =
    ap₂ pushed (h (suc i) (omega arith)) (window-Agree (suc w) c d i (λ j k. h j (omega arith)))

abbrev average : List ℚ → ℚ
average xs = mul (sum exact xs) (inv (q (length xs)))

abbrev covariance : List ℚ → List ℚ → ℚ
covariance xs ys = add (average (row_by_row mul xs ys)) (neg (mul (average xs) (average ys)))

abbrev covary : Option (List ℚ) → Option (List ℚ) → Option ℚ
covary (some xs) (some ys) = some (covariance xs ys)
covary _ _ = none

abbrev differences : Column (Option ℚ) → Column (Option ℚ)
differences c zero = none
differences c (suc i) = both exact.sub (c (suc i)) (c i)

abbrev rolling : Rolling ℚ
rolling = record {
  rolling_mean = λ w c i. Option.map average (window w c i);
  rolling_deviation = λ w ddof c i. covary (window w c i) (window w c i);
  rolling_variance = λ w c i. covary (window w c i) (window w c i);
  rolling_covariance = λ w c d i. covary (window w c i) (window w d i);
  diff = differences;
  sqrt = λ x. x;
  log = λ x. x;
  mean = average;
}

differences-Agree :
    (c d : Column (Option ℚ)) (i : ℕ) → Agree i c d → differences c i ≡ differences d i
differences-Agree c d zero h = refl
differences-Agree c d (suc i) h = ap₂ (both exact.sub) (h (suc i) (omega arith)) (h i (omega arith))

rolling-IsRolling : IsRolling rolling
rolling-IsRolling = record {
  mean_local = λ w c d i h. ap (Option.map average) (window-Agree w c d i h);
  deviation_local = λ w ddof c d i h. ap (λ x. covary x x) (window-Agree w c d i h);
  variance_local = λ w c d i h. ap (λ x. covary x x) (window-Agree w c d i h);
  covariance_local =
      λ w a b c d i h k. ap₂ covary (window-Agree w a c i h) (window-Agree w b d i k);
  diff_local = differences-Agree;
}

abbrev closes : List ℚ
closes = q 10 ∷ q 12 ∷ q 11 ∷ q 15 ∷ q 14 ∷ []

returned : (lines : MacdLines exact rolling) × (macd exact rolling closes 1 2 2 ≡ ok lines)
unfolding macd ema validate_window
returned = (_, refl)

macd-Extends_example :
    (longer : MacdLines exact rolling) × (macd exact rolling (closes ++ (q 20 ∷ q 3 ∷ [])) 1 2 2
      ≡ ok longer)
    × LinesExtend exact rolling returned.0 longer
macd-Extends_example =
    macd-Extends exact rolling closes (q 20 ∷ q 3 ∷ []) 1 2 2 returned.0 returned.1

abbrev params : PairParams exact
params = record {
  pair_symbol = "INFY.NS";
  lookback = 2;
  entry_z = q 2;
  exit_z = q 1;
  min_correlation = q 0;
  use_hedge_ratio = true;
}

-- The second leg has no bar at 2.
abbrev primary : Leg exact
primary = record {
  symbol = "TCS.NS";
  bars = (1, q 10) ∷ (2, q 11) ∷ (3, q 12) ∷ (4, q 9) ∷ (5, q 12) ∷ [];
}

abbrev second : Leg exact
second = record { symbol = "INFY.NS"; bars = (1, q 5) ∷ (3, q 6) ∷ (4, q 7) ∷ (5, q 6) ∷ [] }

signalled :
    (rows : List (PairRow exact)) × (pair_signals exact rolling pandas
        (λ s. s)
        params
        (some second)
        primary
      ≡ ok rows)
unfolding pair_signals common_bars close_of pair_columns validate_window
signalled = (_, refl)

pair_signals-Extends_example :
    (longer : List (PairRow exact)) × (pair_signals exact rolling pandas
        (λ s. s)
        params
        (some (with_later exact second ((6, q 7) ∷ [])))
        (with_later exact primary ((6, q 20) ∷ (7, q 8) ∷ []))
      ≡ ok longer)
    × Extends signalled.0 longer
unfolding close_of
pair_signals-Extends_example =
    pair_signals-Extends exact rolling pandas rolling-IsRolling pandas-IsPandas (λ s. s) params
      second primary ((6, q 7) ∷ []) ((6, q 20) ∷ (7, q 8) ∷ []) signalled.0
      (refl, (refl, (refl, (refl, (refl, tt))))) (refl, (refl, (refl, (refl, (refl, tt)))))
      signalled.1

-- The pair is entered at row 1, and held at row 2.
abbrev columns : PairColumns exact
columns = record {
  spread = column [];
  zscore = column (none ∷ some (neg (q 3)) ∷ some (neg (q 1)) ∷ some (q 0) ∷ []);
  correlation = column (none ∷ some (q 1) ∷ some (q 1) ∷ some (q 1) ∷ []);
  beta = column [];
}

abbrev common : List (ℕ × ℚ × ℚ)
common = (1, q 10, q 5) ∷ (3, q 12, q 6) ∷ (4, q 9, q 7) ∷ (5, q 12, q 6) ∷ []

is_positioned : (reindexed_row exact rolling pandas params columns common 3).direction ≢ flat
unfolding reindexed_row position_of pair_row pair_directions pair_target is_unusable is_decoupled
    enters_long enters_short reverts abs add neg mul inv lt
is_positioned h = absurd cc

reindexed_row-IsHeld_example :
    (i : ℕ) × (position_of exact 3 common ≡ some i)
    × IsHeld exact params columns
        (reindexed_row exact rolling pandas params columns common 3).direction
        i
reindexed_row-IsHeld_example =
    reindexed_row-IsHeld exact rolling pandas pandas-IsPandas params columns common 3 is_positioned
