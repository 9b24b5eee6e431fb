-- ===== src/Backtest/Metrics/Runs.antt =====
-- The duration of the worst drawdown (services/quant/backtest/metrics.py).
use quantora.Prelude.{ℕ, suc, ◌+◌, ◌≤◌, ◌≡◌, ◌∙◌, Bool, true, false, List, [], ◌∷◌, arith}
use quantora.Float.{Floats}
use quantora.Backtest.Metrics.{Statistics, maximum, longest_from, underwater, max_drawdown_duration}

-- How many bars under water the bars begin with.
unfoldable pub leading : List Bool → ℕ
leading [] = 0
leading (false ∷ bars) = 0
leading (true ∷ bars) = suc (leading bars)

-- The longest run of bars under water: the most that the bars begin with, from any bar on.
unfoldable pub longest_run : List Bool → ℕ
unfolding leading
longest_run [] = 0
longest_run (b ∷ bars) = maximum (leading (b ∷ bars)) (longest_run bars)

maximum_bounds : (a b : ℕ) → (a ≤ maximum a b) × (b ≤ maximum a b)
maximum_bounds a b = ground arith

leading-le : (bars : List Bool) → leading bars ≤ longest_run bars
unfolding leading longest_run
leading-le [] = omega arith
leading-le (false ∷ bars) = omega arith
leading-le (true ∷ bars) = (maximum_bounds (suc (leading bars)) (longest_run bars)).0

-- The two steps of the loop, as equations on maxima.
grown :
    (l c r n : ℕ)
    → maximum (maximum (maximum l (suc c)) (suc c + r)) n
      ≡ maximum (maximum l (c + suc r)) (maximum (suc r) n)
grown l c r n = ground arith

ended :
    (l c r n : ℕ)
    → c ≤ l
    → r ≤ n
    → maximum (maximum (maximum l 0) (0 + r)) n ≡ maximum (maximum l (c + 0)) (maximum 0 n)
ended l c r n h k = ground arith

stopped : (l c : ℕ) → c ≤ l → l ≡ maximum (maximum l (c + 0)) 0
stopped l c h = ground arith

loop-longest_run :
    (l c : ℕ) (bars : List Bool)
    → c ≤ l
    → longest_from l c bars ≡ maximum (maximum l (c + leading bars)) (longest_run bars)
unfolding longest_from leading longest_run
loop-longest_run l c [] h = stopped l c h
loop-longest_run l c (true ∷ bars) h =
    loop-longest_run (maximum l (suc c)) (suc c) bars ((maximum_bounds l (suc c)).1)
    ∙ grown l c (leading bars) (longest_run bars)
loop-longest_run l c (false ∷ bars) h =
    loop-longest_run (maximum l 0) 0 bars ((maximum_bounds l 0).1)
    ∙ ended l c (leading bars) (longest_run bars) h (leading-le bars)

begun : (r n : ℕ) → r ≤ n → maximum (maximum 0 (0 + r)) n ≡ n
begun r n h = ground arith

module _ (F : Floats) where
  open F use {Number}

  -- The duration that the loop counts in one pass is the longest run of bars below the running
  -- maximum: from any bar on, the bars begin with at most so many under water, and from some bar on
  -- with just so many.
  pub max_drawdown_duration-longest_run :
      (S : Statistics Number) (e : Number) (es : List Number)
      → max_drawdown_duration F S (e ∷ es) ≡ longest_run (underwater F S (e ∷ es))
  unfolding max_drawdown_duration
  max_drawdown_duration-longest_run S e es =
      let bars = underwater F S (e ∷ es) in
      loop-longest_run 0 0 bars (omega arith)
      ∙ begun (leading bars) (longest_run bars) (leading-le bars)
