-- ===== src/Strategies/Traded.antt =====
-- The theorems on the strategies' rules, applied at concrete inputs (services/quant/strategies), with
-- the operations of pandas as functions.
use quantora.Prelude.{
  ◌<◌, ℕ, zero, suc, ◌≡◌, refl, ap₂, true, false, Option, none, some, List, [], ◌∷◌, arith,
}
use quantora.Float.{max, min}
use quantora.Rational.{ℚ, exact}
use quantora.Strategies.Base.{short, same_direction}
use quantora.Strategies.Examples.{q}
use quantora.Strategies.Columns.{Column, Agree, or_else, Pandas, IsPandas}
use quantora.Strategies.Macd.Signals.{MacdParams, MacdResult, macd_signals, macd_signals-Agree}
use quantora.Strategies.Bollinger.{BollingerParams, Bands, bollinger_signals}
use quantora.Strategies.Bollinger.Causal.{bollinger_signals-Agree}
use quantora.Strategies.LongOnly.{signals-long}
use quantora.Strategies.DualThrust.{
  DualThrustParams, Bars, dual_thrust_signals, triggers_at, is_up, is_down, broke_up, broke_down,
}
use quantora.Strategies.DualThrust.Causal.{dual_thrust_signals-Agree}

abbrev shift : {A : Type 0} → Column (Option A) → Column (Option A)
shift c zero = none
shift c (suc i) = c i

abbrev ffill : {A : Type 0} → Column (Option A) → Column (Option A)
ffill c zero = c 0
ffill c (suc i) = or_else (c (suc i)) (ffill c i)

abbrev both : (ℚ → ℚ → ℚ) → Option ℚ → Option ℚ → Option ℚ
both op (some x) (some y) = some (op x y)
both op _ _ = none

-- A window of so many rows, none of which may be missing.
abbrev rolling : (ℚ → ℚ → ℚ) → ℕ → Column (Option ℚ) → Column (Option ℚ)
rolling op zero c i = none
rolling op (suc zero) c i = c i
rolling op (suc (suc w)) c zero = none
rolling op (suc (suc w)) c (suc i) = both op (c (suc i)) (rolling op (suc w) c i)

rolling-Agree :
    (op : ℚ → ℚ → ℚ) (w : ℕ) (c d : Column (Option ℚ)) (i : ℕ)
    → Agree i c d
    → rolling op w c i ≡ rolling op w d i
rolling-Agree op zero c d i h = refl
rolling-Agree op (suc zero) c d i h = h i (omega arith)
rolling-Agree op (suc (suc w)) c d zero h = refl
rolling-Agree op (suc (suc w)) c d (suc i) h =
    ap₂ (both op) (h (suc i) (omega arith))
      (rolling-Agree op (suc w) c d i (λ j k. h j (omega arith)))

abbrev pub pandas : Pandas ℚ
pandas = record {
  shift = λ c. shift c;
  ffill = λ c. ffill c;
  rolling_max = rolling (max exact);
  rolling_min = rolling (min exact);
}

pub pandas-IsPandas : IsPandas pandas
pandas-IsPandas = record {
  shift_first = λ c. refl;
  shift_next = λ c i. refl;
  ffill_first = λ c. refl;
  ffill_next = λ c i. refl;
  rolling_max_local = rolling-Agree (max exact);
  rolling_min_local = rolling-Agree (min exact);
}

-- The values of a list, and none after it.
abbrev pub column : List (Option ℚ) → Column (Option ℚ)
column [] i = none
column (x ∷ xs) zero = x
column (x ∷ xs) (suc i) = column xs i

abbrev rising : Column (Option ℚ)
rising = column (none ∷ some (q 0) ∷ some (q 1) ∷ some (q 3) ∷ some (q 2) ∷ [])

-- The same up to row 3.
abbrev falling : Column (Option ℚ)
falling = column (none ∷ some (q 0) ∷ some (q 1) ∷ some (q 3) ∷ some (q 0) ∷ [])

same_start : Agree 3 rising falling
same_start zero h = refl
same_start (suc zero) h = refl
same_start (suc (suc zero)) h = refl
same_start (suc (suc (suc zero))) h = refl
same_start (suc (suc (suc (suc i)))) h = absurd (omega arith)

abbrev macd_params : MacdParams exact
macd_params = record { allow_short = false; require_zero_line = true }

abbrev macd_result : MacdResult exact
macd_result = record { macd = rising; histogram = rising }

macd_signals-Agree_example :
    macd_signals exact pandas macd_params macd_result 3
    ≡ macd_signals exact pandas macd_params (record { macd = falling; histogram = falling }) 3
macd_signals-Agree_example =
    macd_signals-Agree exact pandas pandas-IsPandas macd_params macd_result
      (record { macd = falling; histogram = falling }) 3 same_start same_start

abbrev bollinger_params : BollingerParams exact
bollinger_params = record { exit_at_middle = true; allow_short = false }

abbrev bands : Column (Option ℚ) → Bands exact
bands close = record { close = close; middle = rising; lower = rising; upper = falling }

bollinger_signals-Agree_example :
    bollinger_signals exact pandas bollinger_params (bands rising) 3
    ≡ bollinger_signals exact pandas bollinger_params (bands falling) 3
bollinger_signals-Agree_example =
    bollinger_signals-Agree exact pandas pandas-IsPandas bollinger_params (bands rising)
      (bands falling) 3
      (record {
        close = same_start;
        middle = λ j k. refl;
        lower = λ j k. refl;
        upper = λ j k. refl;
      })

abbrev thrust_params : DualThrustParams exact
thrust_params = record {
  lookback = 2;
  k_upper = q 1;
  k_lower = q 1;
  allow_short = false;
  trigger_on = "intrabar";
}

abbrev bars : Column (Option ℚ) → Bars exact
bars close = record { open_price = rising; high = rising; low = rising; close = close }

-- The same before row 3, and not at it.
abbrev later : Column (Option ℚ)
later = column (none ∷ some (q 0) ∷ some (q 1) ∷ some (q 9) ∷ [])

same_before : (j : ℕ) → j < 3 → rising j ≡ later j
same_before zero h = refl
same_before (suc zero) h = refl
same_before (suc (suc zero)) h = refl
same_before (suc (suc (suc i))) h = absurd (omega arith)

abbrev moved : Bars exact
moved = record { open_price = rising; high = later; low = later; close = later }

dual_thrust_signals-Agree_example :
    (dual_thrust_signals exact pandas thrust_params (bars rising) 3
      ≡ dual_thrust_signals exact pandas thrust_params (bars falling) 3)
    × (triggers_at exact pandas thrust_params (bars rising) 3
        ≡ triggers_at exact pandas thrust_params moved 3)
    × (is_up exact pandas thrust_params moved 3
        ≡ broke_up exact thrust_params
            (triggers_at exact pandas thrust_params (bars rising) 3)
            (some (q 9))
            (some (q 9)))
    × (is_down exact pandas thrust_params moved 3
        ≡ broke_down exact thrust_params
            (triggers_at exact pandas thrust_params (bars rising) 3)
            (some (q 9))
            (some (q 9)))
dual_thrust_signals-Agree_example =
    dual_thrust_signals-Agree exact pandas pandas-IsPandas thrust_params (bars rising)
      (bars falling) moved 3
      (record {
        open_price = λ j k. refl;
        high = λ j k. refl;
        low = λ j k. refl;
        close = same_start;
      })
      (record { open_price = refl; high = same_before; low = same_before; close = same_before })

signals-long_example :
    (same_direction (macd_signals exact pandas macd_params macd_result 4).direction short ≡ false)
    × (same_direction
          (bollinger_signals exact pandas bollinger_params (bands rising) 4).direction
          short
        ≡ false)
    × (same_direction
          (dual_thrust_signals exact pandas thrust_params (bars rising) 4).direction
          short
        ≡ false)
signals-long_example =
    signals-long exact pandas pandas-IsPandas macd_params bollinger_params thrust_params macd_result
      (bands rising) (bars rising) 4 refl refl refl
