-- ===== src/Strategies/Columns.antt =====
-- Columns of a frame, one value per row, and the signal rows that the strategies build from them
-- (services/quant/strategies). A column is a function of the row's position; a NaN is `none`.
-- Operators on columns act row by row; what else pandas does to a column is a parameter.
pub mod Held
use quantora.Prelude.{
  ℕ, zero, suc, ◌≡◌, ◌≤◌, Bool, true, false, not, if◌then◌else◌, Option, none, some, String,
}
use quantora.Float.{Floats, le}
use quantora.Strategies.Base.{SignalDirection, flat, same_direction}

abbrev pub Column {ℓ} : Type ℓ → Type ℓ
Column A = ℕ → A

-- Two columns have the same values up to a row.
abbrev pub Agree {ℓ} : {A : Type ℓ} → ℕ → Column A → Column A → Type ℓ
Agree i c d = (j : ℕ) → j ≤ i → c j ≡ d j

abbrev pub or_else {ℓ} : {A : Type ℓ} → Option A → Option A → Option A
or_else none b = b
or_else (some a) b = some a

-- What the strategies use of pandas: `shift(1)`, `ffill()`, and `rolling(w)` with `max` and `min`.
pub record Pandas (Number : Type 0) : Type 1 where
  pub shift : {A : Type 0} → Column (Option A) → Column (Option A)
  pub ffill : {A : Type 0} → Column (Option A) → Column (Option A)
  pub rolling_max : ℕ → Column (Option Number) → Column (Option Number)
  pub rolling_min : ℕ → Column (Option Number) → Column (Option Number)

-- As documented: a shift moves each value one row on, `ffill` repeats the last value that is known,
-- and a rolling window at a row has no later rows.
pub record IsPandas {Number : Type 0} (P : Pandas Number) : Type 1 where
  pub shift_first : {A : Type 0} (c : Column (Option A)) → P.shift c 0 ≡ none
  pub shift_next : {A : Type 0} (c : Column (Option A)) (i : ℕ) → P.shift c (suc i) ≡ c i
  pub ffill_first : {A : Type 0} (c : Column (Option A)) → P.ffill c 0 ≡ c 0
  pub ffill_next :
      {A : Type 0} (c : Column (Option A)) (i : ℕ)
      → P.ffill c (suc i) ≡ or_else (c (suc i)) (P.ffill c i)
  pub rolling_max_local :
      (w : ℕ) (c d : Column (Option Number)) (i : ℕ)
      → Agree i c d
      → P.rolling_max w c i ≡ P.rolling_max w d i
  pub rolling_min_local :
      (w : ℕ) (c d : Column (Option Number)) (i : ℕ)
      → Agree i c d
      → P.rolling_min w c i ≡ P.rolling_min w d i

abbrev pub is_known {ℓ} : {A : Type ℓ} → Option A → Bool
is_known none = false
is_known (some a) = true

-- `fillna(FLAT)` in a row
abbrev pub or_flat : Option SignalDirection → SignalDirection
or_flat none = flat
or_flat (some d) = d

-- `target.ffill().fillna(FLAT)`
unfoldable pub held_target :
    {Number : Type 0} → Pandas Number → Column (Option SignalDirection) → Column SignalDirection
held_target P target i = or_flat (P.ffill target i)

module _ (F : Floats) where
  open F use {Number, num, lt}

  -- `c > d`, `c < d`, `c >= d` and `c <= d` in a row: false where a side is NaN.
  abbrev pub is_above : Option Number → Option Number → Bool
  is_above (some x) (some y) = lt y x
  is_above _ _ = false

  abbrev pub is_below : Option Number → Option Number → Bool
  is_below (some x) (some y) = lt x y
  is_below _ _ = false

  abbrev pub is_at_least : Option Number → Option Number → Bool
  is_at_least (some x) (some y) = le F y x
  is_at_least _ _ = false

  abbrev pub is_at_most : Option Number → Option Number → Bool
  is_at_most (some x) (some y) = le F x y
  is_at_most _ _ = false

  -- A row of the frame that `empty_signal_frame` begins.
  pub record SignalRow : Type 0 where
    pub direction : SignalDirection
    pub strength : Number
    pub reason : String

  -- `np.where(direction != 0, 1.0, 0.0)`
  unfoldable pub strength_of : SignalDirection → Number
  strength_of direction = if same_direction direction flat then num 0 else num 1

  unfoldable pub row_of : SignalDirection → String → SignalRow
  unfolding strength_of
  row_of direction reason = record {
    direction = direction;
    strength = strength_of direction;
    reason = reason;
  }
