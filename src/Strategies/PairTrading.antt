-- ===== src/Strategies/PairTrading.antt =====
-- Pair trading (services/quant/strategies/pair_trading.py): the second leg, the columns of the spread,
-- and the signals. What Python's `casefold` does to a symbol is a parameter.
pub mod Held
pub mod Causal
pub mod Common
pub mod Extended
pub mod Class
use quantora.Prelude.{
  ℕ, zero, suc, Bool, true, false, not, ◌&&◌, ◌||◌, if◌then◌else◌, ◌==◌, ltb, Option, none, some,
  List, [], ◌∷◌, map, length, String, same_text, Result, ok, err, invalid_parameters,
  insufficient_data, pair_data_missing, ◌>>=◌, ◌>>◌, raise_if,
}
use mathlib.Core.Option
use quantora.Float.{Floats, abs}
use quantora.Strategies.Base.{SignalDirection, short, flat, long}
use quantora.Strategies.Columns.{
  Column, Pandas, is_known, held_target, is_below, is_at_least, is_at_most, strength_of,
}
use quantora.Indicators.{Rolling, both, rolling_zscore, rolling_correlation, hedge_ratio}

-- The value of a row, where there is one.
unfoldable pub row {ℓ} : {A : Type ℓ} → List A → Column (Option A)
row [] i = none
row (x ∷ xs) zero = some x
row (x ∷ xs) (suc i) = row xs i

module _ (F : Floats) where
  open F use {Number, num, sub as ◌-◌, mul as ◌*◌, neg}

  infixl 65 ◌-◌
  infixl 70 ◌*◌
  -- The closes of an instrument, by their timestamps.
  pub record Leg : Type 0 where
    pub symbol : String
    pub bars : List (ℕ × Number)

  pub record PairParams : Type 0 where
    pub pair_symbol : String
    pub lookback : ℕ
    pub entry_z : Number
    pub exit_z : Number
    pub min_correlation : Number
    pub use_hedge_ratio : Bool

  unfoldable pub close_of : ℕ → List (ℕ × Number) → Option Number
  close_of t [] = none
  close_of t ((u, close) ∷ bars) = let rest = close_of t bars in if u == t then some close else rest

  -- `set_pair_series`, which returns the second leg that the strategy holds then
  unfoldable pub set_pair_series : (String → String) → String → Leg → Result (Option Leg)
  set_pair_series casefold pair_symbol series = do
    raise_if (not (same_text (casefold series.symbol) (casefold pair_symbol)))
        (invalid_parameters "pair_symbol")
    ok (some series)

  -- `common`, with the closes of both legs
  unfoldable pub common_bars : List (ℕ × Number) → List (ℕ × Number) → List (ℕ × Number × Number)
  unfolding close_of
  common_bars [] pair = []
  common_bars ((t, close) ∷ bars) pair =
      let rest = common_bars bars pair in
      elim (close_of t pair) [ none ↦ rest | some other ↦ (t, close, other) ∷ rest ]

  -- The columns over the common timestamps.
  pub record PairColumns : Type 0 where
    pub spread : Column (Option Number)
    pub zscore : Column (Option Number)
    pub correlation : Column (Option Number)
    pub beta : Column (Option Number)

  -- What the rule compares, in a row.
  unfoldable pub is_decoupled : PairParams → Option Number → Bool
  is_decoupled params correlation =
      is_known correlation && is_below F correlation (some params.min_correlation)

  unfoldable pub is_unusable : PairParams → Option Number → Option Number → Bool
  unfolding is_decoupled
  is_unusable params z correlation =
      not (is_known z) || not (is_known correlation) || is_decoupled params correlation

  unfoldable pub enters_long : PairParams → Option Number → Option Number → Bool
  unfolding is_unusable
  enters_long params z correlation =
      is_at_most F z (some (neg params.entry_z)) && not (is_unusable params z correlation)

  unfoldable pub enters_short : PairParams → Option Number → Option Number → Bool
  unfolding is_unusable
  enters_short params z correlation =
      is_at_least F z (some params.entry_z) && not (is_unusable params z correlation)

  unfoldable pub reverts : PairParams → Option Number → Option Number → Bool
  unfolding is_unusable
  reverts params z correlation =
      is_at_most F (Option.map (abs F) z) (some params.exit_z)
      && not (is_unusable params z correlation)

  -- `target` before it is filled: what is assigned later wins.
  unfoldable pub pair_target : PairParams → Option Number → Option Number → Option SignalDirection
  unfolding is_unusable enters_long enters_short reverts
  pair_target params z correlation =
      if is_unusable params z correlation
      then some flat
      else (if reverts params z correlation
          then some flat
          else (if enters_short params z correlation
              then some short
              else (if enters_long params z correlation then some long else none)))

  -- The reason of a row, with the value that its text shows.
  pub data PairReason : Type 0 where
    no_reason : PairReason
    is_cheap : Option Number → PairReason
    is_rich : Option Number → PairReason
    has_reverted : Option Number → PairReason
    has_decoupled : Option Number → PairReason

  unfoldable pub pair_reason : PairParams → Option Number → Option Number → PairReason
  unfolding enters_long enters_short reverts is_decoupled
  pair_reason params z correlation =
      if is_decoupled params correlation
      then has_decoupled correlation
      else (if reverts params z correlation
          then has_reverted z
          else (if enters_short params z correlation
              then is_rich z
              else (if enters_long params z correlation then is_cheap z else no_reason)))

  -- A row of the frame, with the indicators of its timestamp.
  pub record PairRow : Type 0 where
    pub timestamp : ℕ
    pub direction : SignalDirection
    pub strength : Number
    pub reason : PairReason
    pub spread : Option Number
    pub zscore : Option Number
    pub correlation : Option Number
    pub hedge_ratio : Option Number

  -- Where a timestamp stands in the common index.
  unfoldable pub position_of : ℕ → List (ℕ × Number × Number) → Option ℕ
  position_of t [] = none
  position_of t ((u, close, other) ∷ bars) =
      let rest = position_of t bars in if u == t then some 0 else Option.map suc rest

  module _ (R : Rolling Number) (P : Pandas Number) where
    unfoldable pub pair_columns :
        PairParams → Column (Option Number) → Column (Option Number) → Result PairColumns
    unfolding rolling_zscore rolling_correlation hedge_ratio
    pair_columns params log_primary log_pair = do
      beta ←
          if params.use_hedge_ratio
          then hedge_ratio F R log_primary log_pair params.lookback
          else ok (λ i. some (num 1))
      let spread = λ (i : ℕ). both ◌-◌ (log_primary i) (both ◌*◌ (beta i) (log_pair i))
      z ← rolling_zscore F R spread params.lookback
      correlation ← rolling_correlation F R (R.diff log_primary) (R.diff log_pair) params.lookback
      ok (record { spread = spread; zscore = z; correlation = correlation; beta = beta })

    unfoldable pub pair_directions : PairParams → PairColumns → Column SignalDirection
    unfolding held_target pair_target
    pair_directions params c =
        held_target P (λ i. pair_target params (c.zscore i) (c.correlation i))

    -- Of a timestamp that stands at a row of the common index.
    unfoldable pub pair_row : PairParams → PairColumns → ℕ → ℕ → PairRow
    unfolding pair_directions pair_reason strength_of
    pair_row params c t i = record {
      timestamp = t;
      direction = pair_directions params c i;
      strength = strength_of F (pair_directions params c i);
      reason = pair_reason params (c.zscore i) (c.correlation i);
      spread = c.spread i;
      zscore = c.zscore i;
      correlation = c.correlation i;
      hedge_ratio = c.beta i;
    }

    -- Of a timestamp without a counterpart.
    unfoldable pub missing_row : ℕ → PairRow
    unfolding strength_of
    missing_row t = record {
      timestamp = t;
      direction = flat;
      strength = strength_of F flat;
      reason = no_reason;
      spread = none;
      zscore = none;
      correlation = none;
      hedge_ratio = none;
    }

    -- `reindex(frame.index).fillna(...)`, in a row
    unfoldable pub reindexed_row :
        PairParams → PairColumns → List (ℕ × Number × Number) → ℕ → PairRow
    unfolding position_of pair_row missing_row
    reindexed_row params c common t = elim (position_of t common) [
      | none ↦ missing_row t
      | some i ↦ pair_row params c t i
    ]

    -- The columns of the two logarithms over the common index.
    unfoldable pub log_columns :
        List (ℕ × Number × Number) → Column (Option Number) × Column (Option Number)
    unfolding row
    log_columns common = (
      λ i. Option.map R.log (row (map (λ e. e.1) common) i),
      λ i. Option.map R.log (row (map (λ e. e.2) common) i),
    )

    -- `generate_signals`, from the second leg that the strategy holds
    unfoldable pub pair_signals :
        (String → String) → PairParams → Option Leg → Leg → Result (List PairRow)
    unfolding common_bars log_columns pair_columns reindexed_row
    pair_signals casefold params none series = err (pair_data_missing params.pair_symbol)
    pair_signals casefold params (some pair) series = do
      raise_if (same_text (casefold pair.symbol) (casefold series.symbol))
          (invalid_parameters "pair_symbol")
      raise_if (ltb (length series.bars) (suc params.lookback)) (insufficient_data "pair_trading")
      let common = common_bars series.bars pair.bars
      raise_if (ltb (length common) (suc params.lookback)) (insufficient_data "pair_trading")
      let logs = log_columns common
      columns ← pair_columns params logs.0 logs.1
      ok (map (λ e. reindexed_row params columns common e.0) series.bars)
