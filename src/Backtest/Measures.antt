-- ===== src/Backtest/Measures.antt =====
-- The theorems on the metrics, applied at concrete inputs (services/quant/backtest/metrics.py).
use quantora.Prelude.{
  ◌≡◌, refl, not, false, if◌then◌else◌, Bool-cases, inl, inr, none, List, [], ◌∷◌, map, length,
  String, All, get, is_in,
}
use quantora.Float.{sum}
use quantora.Rational.{ℚ, exact, add, neg, mul, inv, lt}
use quantora.Rational.Laws.{exact-IsExact}
use quantora.Backtest.Examples.{q}
use quantora.Backtest.Metrics.{
  Statistics, is_none, Arguments, compute, max_drawdown, max_drawdown_duration, underwater,
}
use quantora.Backtest.Metrics.Explained.{reported_metrics, compute-explained}
use quantora.Backtest.Metrics.Drawdown.{IsBelow, IsStatistics, IsDrawdown, max_drawdown-IsDrawdown}
use quantora.Backtest.Metrics.Runs.{longest_run, max_drawdown_duration-longest_run}

abbrev peaks_from : ℚ → List ℚ → List ℚ
peaks_from peak [] = []
peaks_from peak (e ∷ es) = if lt peak e then e ∷ peaks_from e es else peak ∷ peaks_from peak es

abbrev peaks : List ℚ → List ℚ
peaks [] = []
peaks (e ∷ es) = e ∷ peaks_from e es

abbrev least_from : ℚ → List ℚ → ℚ
least_from least [] = least
least_from least (x ∷ xs) = if lt x least then least_from x xs else least_from least xs

abbrev least : List ℚ → ℚ
least [] = q 0
least (x ∷ xs) = least_from x xs

-- The relative changes of a column, from the value before it.
abbrev changes_from : ℚ → List ℚ → List ℚ
changes_from last [] = []
changes_from last (x ∷ xs) = add (mul x (inv last)) (neg (q 1)) ∷ changes_from x xs

abbrev changes : List ℚ → List ℚ
changes [] = []
changes (x ∷ xs) = changes_from x xs

-- The deviation and the roots are not exact numbers: the identity stands for them.
abbrev pub statistics : Statistics ℚ
statistics = record {
  pct_change = changes;
  cummax = peaks;
  minimum = least;
  mean = λ xs. mul (sum exact xs) (inv (q (length xs)));
  std = sum exact;
  sqrt = λ x. x;
  pow = λ x n. x;
}

peaks_from-IsBelow : (peak : ℚ) (es : List ℚ) → IsBelow exact es (peaks_from peak es)
peaks_from-IsBelow peak [] = tt
peaks_from-IsBelow peak (e ∷ es) = elim (Bool-cases (lt peak e)) [
  | inl more ↦ rw (more) (exact-IsExact.lt_irrefl e, peaks_from-IsBelow e es)
  | inr less ↦ rw (less) (less, peaks_from-IsBelow peak es)
]

peaks-IsBelow : (es : List ℚ) → IsBelow exact es (peaks es)
peaks-IsBelow [] = tt
peaks-IsBelow (e ∷ es) = (exact-IsExact.lt_irrefl e, peaks_from-IsBelow e es)

least_from-among :
    (Holds : ℚ → Type 0) (e : ℚ) (es : List ℚ) → All Holds (e ∷ es) → Holds (least_from e es)
least_from-among Holds e [] (h, k) = h
least_from-among Holds e (x ∷ es) (h, (k, l)) = elim (Bool-cases (lt x e)) [
  | inl less ↦ rw (less) (least_from-among Holds x es (k, l))
  | inr more ↦ rw (more) (least_from-among Holds e es (h, l))
]

pub statistics-IsStatistics : IsStatistics exact statistics
statistics-IsStatistics = record {
  cummax-IsBelow = peaks-IsBelow;
  minimum_among = least_from-among;
}

abbrev equity : List ℚ
equity = q 100 ∷ q 120 ∷ q 90 ∷ q 110 ∷ q 130 ∷ q 125 ∷ []

max_drawdown-IsDrawdown_example :
    IsDrawdown exact exact-IsExact (max_drawdown exact statistics equity)
unfolding lt
max_drawdown-IsDrawdown_example =
    max_drawdown-IsDrawdown exact exact-IsExact statistics equity statistics-IsStatistics
      (refl, (refl, (refl, (refl, (refl, (refl, tt))))))

max_drawdown_duration-longest_run_example :
    max_drawdown_duration exact statistics equity ≡ longest_run (underwater exact statistics equity)
max_drawdown_duration-longest_run_example =
    max_drawdown_duration-longest_run exact statistics (q 100)
      (q 120 ∷ q 90 ∷ q 110 ∷ q 130 ∷ q 125 ∷ [])

abbrev arguments : Arguments exact statistics
arguments = record {
  equity = equity;
  trades = [];
  periods_per_year = q 252;
  risk_free_rate = q 0;
  initial_cash = q 100;
  total_costs = q 1;
  traded_notional = q 0;
  exposure = none;
}

compute-explained_example :
    All
      (λ e. is_none (get e.0 (compute exact statistics arguments).unavailable) ≡ not (is_none e.1))
      (reported_metrics exact (compute exact statistics arguments))
    × ((key : String)
        → is_in key (map (λ e. e.0) (reported_metrics exact (compute exact statistics arguments)))
          ≡ false
        → get key (compute exact statistics arguments).unavailable ≡ none)
compute-explained_example = compute-explained exact statistics arguments
