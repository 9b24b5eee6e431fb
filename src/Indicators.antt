-- ===== src/Indicators.antt =====
-- The indicators (services/quant/indicators): moving averages, MACD, Bollinger bands, the z-score, the
-- correlation and the hedge ratio. The loops of `ema` and `macd` run on lists; the rolling statistics
-- are columns, and what they take from pandas and numpy is the parameter `Rolling`. A window is a
-- natural number.
pub mod Continued
pub mod Causal
use quantora.Prelude.{
  ℕ, zero, suc, ◌-◌ as minus, Bool, true, false, not, if◌then◌else◌, ltb, Option, none, some, List,
  [], ◌∷◌, ◌++◌, map, length, take, String, Result, ok, err, value_error, ◌>>=◌, ◌>>◌, raise_if,
  row_by_row,
}
use mathlib.Core.Option
use quantora.Float.{Floats, le, min, max}
use quantora.Strategies.Columns.{Column}

-- `rolling(window, min_periods=window)` with `mean`, `std(ddof)`, `var(ddof=0)` and `cov(ddof=0)`,
-- `diff()`, `np.sqrt`, `np.log`, and `mean` of an array
pub record Rolling (Number : Type 0) : Type 0 where
  pub rolling_mean : ℕ → Column (Option Number) → Column (Option Number)
  pub rolling_deviation : ℕ → ℕ → Column (Option Number) → Column (Option Number)
  pub rolling_variance : ℕ → Column (Option Number) → Column (Option Number)
  pub rolling_covariance :
      ℕ → Column (Option Number) → Column (Option Number) → Column (Option Number)
  pub diff : Column (Option Number) → Column (Option Number)
  pub sqrt : Number → Number
  pub log : Number → Number
  pub mean : List Number → Number

-- `_validate_window`
unfoldable pub validate_window : ℕ → ℕ → Result (Unit {0})
validate_window window minimum = raise_if (ltb window minimum) (value_error "window")

unfoldable pub replicate {ℓ} : {A : Type ℓ} → ℕ → A → List A
replicate zero a = []
replicate (suc n) a = a ∷ replicate n a

unfoldable pub drop {ℓ} : {A : Type ℓ} → ℕ → List A → List A
drop zero xs = xs
drop (suc n) [] = []
drop (suc n) (x ∷ xs) = drop n xs

-- `dropna()`
unfoldable pub known_values {ℓ} : {A : Type ℓ} → List (Option A) → List A
known_values [] = []
known_values (none ∷ xs) = known_values xs
known_values (some x ∷ xs) = x ∷ known_values xs

-- `reindex`, of what was computed from the known values of a column, to the rows of the column
unfoldable pub restored {ℓ} : {A : Type ℓ} → List (Option A) → List (Option A) → List (Option A)
restored [] values = []
restored (none ∷ line) values = none ∷ restored line values
restored (some x ∷ line) [] = none ∷ restored line []
restored (some x ∷ line) (v ∷ values) = v ∷ restored line values

-- An operator on two columns, in a row: NaN where a side is.
abbrev pub both {ℓ} : {A B : Type ℓ} → (A → A → B) → Option A → Option A → Option B
both op (some x) (some y) = some (op x y)
both op _ _ = none

module _ (F : Floats) where
  open F use {Number, num, add as ◌+◌, sub as ◌-◌, mul as ◌*◌, div as ◌/◌, neg, lt, eq}

  infixl 65 ◌+◌ ◌-◌
  infixl 70 ◌*◌ ◌/◌
  -- `c.where(c > 0)` in a row
  abbrev pub where_positive : Option Number → Option Number
  where_positive none = none
  where_positive (some x) = if lt (num 0) x then some x else none

  -- `c.replace(0, nan)` in a row
  abbrev pub where_nonzero : Option Number → Option Number
  where_nonzero none = none
  where_nonzero (some x) = if eq x (num 0) then none else some x

  -- `c.clip(-1.0, 1.0)` in a row
  abbrev pub clipped : Option Number → Option Number
  clipped none = none
  clipped (some x) = some (min F (max F x (neg (num 1))) (num 1))

  -- The loop of `ema`, from the current average.
  unfoldable pub ema_from : Number → Number → List Number → List (Option Number)
  ema_from alpha current [] = []
  ema_from alpha current (x ∷ xs) =
      let next = alpha * x + (num 1 - alpha) * current in some next ∷ ema_from alpha next xs

  module _ (R : Rolling Number) where
    unfoldable pub ema_values : ℕ → List Number → List (Option Number)
    unfolding replicate drop ema_from
    ema_values span values =
        let alpha = num 2 / (num span + num 1) in
        let seed = R.mean (take span values) in
        if ltb (length values) span
        then map (λ v. none) values
        else replicate (minus span 1) none ++ (some seed ∷ ema_from alpha seed (drop span values))

    unfoldable pub ema : List Number → ℕ → Result (List (Option Number))
    unfolding validate_window ema_values
    ema values span = do validate_window span 1; ok (ema_values span values)

    -- The columns of `MACDResult`
    pub record MacdLines : Type 0 where
      pub macd : List (Option Number)
      pub signal : List (Option Number)
      pub histogram : List (Option Number)

    unfoldable pub macd_lines : List (Option Number) → List (Option Number) → MacdLines
    unfolding restored
    macd_lines line seeded =
        let signal_line = restored line seeded in
        record {
          macd = line;
          signal = signal_line;
          histogram = row_by_row (both ◌-◌) line signal_line;
        }

    unfoldable pub macd : List Number → ℕ → ℕ → ℕ → Result MacdLines
    unfolding ema known_values macd_lines
    macd series fast slow signal = do
      raise_if (not (ltb fast slow)) (value_error "fast")
      fast_ema ← ema series fast
      slow_ema ← ema series slow
      let line = row_by_row (both ◌-◌) fast_ema slow_ema
      seeded ← ema (known_values line) signal
      ok (macd_lines line seeded)

    unfoldable pub sma : Column (Option Number) → ℕ → Result (Column (Option Number))
    unfolding validate_window
    sma series window = do validate_window window 1; ok (R.rolling_mean window series)

    unfoldable pub rolling_std : Column (Option Number) → ℕ → ℕ → Result (Column (Option Number))
    unfolding validate_window
    rolling_std series window ddof = do
      validate_window window 1
      ok (R.rolling_deviation window ddof series)

    unfoldable pub rolling_zscore : Column (Option Number) → ℕ → Result (Column (Option Number))
    unfolding validate_window sma rolling_std
    rolling_zscore series window = do
      validate_window window 2
      mean ← sma series window
      dispersion ← rolling_std series window 0
      ok (λ i. both ◌/◌ (both ◌-◌ (series i) (mean i)) (where_positive (dispersion i)))

    -- `BollingerResult`
    pub record BollingerBands : Type 0 where
      pub middle : Column (Option Number)
      pub upper : Column (Option Number)
      pub lower : Column (Option Number)
      pub bandwidth : Column (Option Number)
      pub percent_b : Column (Option Number)
      pub window : ℕ
      pub num_std : Number

    -- The width of the band at `upper` and `lower`, and where a value stands in it.
    abbrev bands_of :
        Column (Option Number)
        → Column (Option Number)
        → Column (Option Number)
        → ℕ
        → Number
        → BollingerBands
    bands_of series middle std window num_std =
        let spread = λ (i : ℕ). both ◌*◌ (some num_std) (std i) in
        let upper = λ (i : ℕ). both ◌+◌ (middle i) (spread i) in
        let lower = λ (i : ℕ). both ◌-◌ (middle i) (spread i) in
        let band_width = λ (i : ℕ). both ◌-◌ (upper i) (lower i) in
        record {
          middle = middle;
          upper = upper;
          lower = lower;
          bandwidth = λ i. both ◌/◌ (band_width i) (middle i);
          percent_b = λ i. both ◌/◌ (both ◌-◌ (series i) (lower i)) (where_nonzero (band_width i));
          window = window;
          num_std = num_std;
        }

    unfoldable pub bollinger_bands : Column (Option Number) → ℕ → Number → Result BollingerBands
    unfolding sma rolling_std
    bollinger_bands series window num_std = do
      raise_if (ltb window 2) (value_error "window")
      raise_if (le F num_std (num 0)) (value_error "num_std")
      middle ← sma series window
      std ← rolling_std series window 0
      ok (bands_of series middle std window num_std)

    -- The two series share their index here: they are columns of the same rows.
    unfoldable pub rolling_correlation :
        Column (Option Number) → Column (Option Number) → ℕ → Result (Column (Option Number))
    unfolding validate_window
    rolling_correlation a b window = do
      validate_window window 2
      let covariance = R.rolling_covariance window a b
      let variance_a = R.rolling_variance window a
      let variance_b = R.rolling_variance window b
      ok (λ i. clipped (
          both ◌/◌ (covariance i)
            (where_positive (Option.map R.sqrt (both ◌*◌ (variance_a i) (variance_b i))))))

    unfoldable pub hedge_ratio :
        Column (Option Number) → Column (Option Number) → ℕ → Result (Column (Option Number))
    unfolding validate_window
    hedge_ratio a b window = do
      validate_window window 2
      let covariance = R.rolling_covariance window a b
      let variance_b = R.rolling_variance window b
      ok (λ i. both ◌/◌ (covariance i) (where_positive (variance_b i)))
