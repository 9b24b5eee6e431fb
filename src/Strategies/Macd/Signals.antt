-- ===== src/Strategies/Macd/Signals.antt =====
-- The signals of the MACD strategy, from the columns of its indicator
-- (services/quant/strategies/macd.py, `generate_signals`).
use quantora.Prelude.{
  ℕ, zero, suc, ◌≤◌, ◌≡◌, refl, ap, ap₂, ◌∙◌, Bool, true, false, not, ◌&&◌, if◌then◌else◌,
  Bool-cases, inl, inr, Option, none, some, String, arith,
}
use quantora.Float.{Floats}
use quantora.Strategies.Base.{SignalDirection, short, flat, long, same_direction}
use quantora.Strategies.Columns.{
  Column, Agree, Pandas, IsPandas, is_known, held_target, is_above, is_below, is_at_least,
  is_at_most, SignalRow, row_of,
}
use quantora.Strategies.Columns.Held.{held_target-Agree, held_target-long, shift-Agree, IsLongOnly}

module _ (F : Floats) where
  open F use {Number, num, lt}

  pub record MacdParams : Type 0 where
    pub allow_short : Bool
    pub require_zero_line : Bool

  -- The columns of `macd_indicator` that the rule reads.
  pub record MacdResult : Type 0 where
    pub macd : Column (Option Number)
    pub histogram : Column (Option Number)

  abbrev zero_line : Option Number
  zero_line = some (num 0)

  -- `crossed_up` and `crossed_down`, of the macd and the histogram in a row and the histogram before
  unfoldable pub crossed_up : MacdParams → Option Number → Option Number → Option Number → Bool
  crossed_up params macd previous histogram =
      is_known histogram
      && is_known previous
      && is_at_most F previous zero_line
      && is_above F histogram zero_line
      && (if params.require_zero_line then is_above F macd zero_line else true)

  unfoldable pub crossed_down : MacdParams → Option Number → Option Number → Option Number → Bool
  crossed_down params macd previous histogram =
      is_known histogram
      && is_known previous
      && is_at_least F previous zero_line
      && is_below F histogram zero_line
      && (if params.require_zero_line then is_below F macd zero_line else true)

  -- `target` before it is filled: the crossing down is assigned last.
  unfoldable pub crossing :
      MacdParams → Option Number → Option Number → Option Number → Option SignalDirection
  unfolding crossed_up crossed_down
  crossing params macd previous histogram =
      if crossed_down params macd previous histogram
      then some (if params.allow_short then short else flat)
      else (if crossed_up params macd previous histogram then some long else none)

  unfoldable pub crossing_reason :
      MacdParams → Option Number → Option Number → Option Number → String
  unfolding crossed_up crossed_down
  crossing_reason params macd previous histogram =
      if crossed_down params macd previous histogram
      then (if params.allow_short
          then "MACD crossed below its signal line — reversing short"
          else "MACD crossed below its signal line — exiting")
      else (if crossed_up params macd previous histogram
          then "MACD crossed above its signal line"
          else "")

  module _ (P : Pandas Number) where
    unfoldable pub crossings : MacdParams → MacdResult → Column (Option SignalDirection)
    unfolding crossing
    crossings params result i =
        crossing params (result.macd i) (P.shift result.histogram i) (result.histogram i)

    -- The frame of `generate_signals`
    unfoldable pub macd_signals : MacdParams → MacdResult → Column (SignalRow F)
    unfolding crossings crossing_reason held_target row_of
    macd_signals params result i =
        row_of F (held_target P (crossings params result) i)
          (crossing_reason params (result.macd i) (P.shift result.histogram i) (result.histogram i))

    module _ (L : IsPandas P) where
      -- A MACD that is known and on one side of zero, where that is asked for.
      abbrev is_confirmed : Bool → (Number → Bool) → Option Number → Bool
      is_confirmed false side macd = true
      is_confirmed true side none = false
      is_confirmed true side (some macd) = side macd

      -- The decision between two histograms: down, from zero or above to below zero, is to be short, or
      -- flat; up, from zero or below to above zero, is to be long.
      abbrev decision_of :
          MacdParams → Option Number → Option Number → Option Number → Option SignalDirection
      decision_of params (some previous) (some histogram) macd =
          if not (lt previous (num 0))
            && lt histogram (num 0)
            && is_confirmed params.require_zero_line (λ x. lt x (num 0)) macd
          then some (if params.allow_short then short else flat)
          else (if not (lt (num 0) previous)
                && lt (num 0) histogram
                && is_confirmed params.require_zero_line (lt (num 0)) macd
              then some long
              else none)
      decision_of params _ _ macd = none

      -- What is decided between a row and the next, with no shift in it.
      unfoldable pub decision_between : MacdParams → MacdResult → Column (Option SignalDirection)
      decision_between params result zero = none
      decision_between params result (suc i) =
          decision_of params (result.histogram i) (result.histogram (suc i)) (result.macd (suc i))

      crossing-long :
          (params : MacdParams) (m p h : Option Number)
          → params.allow_short ≡ false
          → IsLongOnly P L (crossing params m p h)
      unfolding crossing
      crossing-long params m p h off = elim (Bool-cases (crossed_down params m p h)) [
        | inl down ↦ rw (down, off) refl
        | inr other ↦ elim (Bool-cases (crossed_up params m p h)) [
          | inl up ↦ rw (other, up) refl
          | inr still ↦ rw (other, still) tt
        ]
      ]

      -- With pandas as documented: with `allow_short` off, no row has a short target.
      pub macd_signals-long :
          (params : MacdParams) (result : MacdResult) (i : ℕ)
          → params.allow_short ≡ false
          → same_direction (macd_signals params result i).direction short ≡ false
      unfolding macd_signals row_of crossings
      macd_signals-long params result i off =
          held_target-long P L (crossings params result) i (λ j. crossing-long params _ _ _ off)

      -- What is computed from the three cells that the rule reads at a row.
      same_cells :
          {A : Type 0} (r s : MacdResult) (i : ℕ)
          → Agree i r.macd s.macd
          → Agree i r.histogram s.histogram
          → (f : Option Number → Option Number → Option Number → A) (j : ℕ) → j ≤ i
          → f (r.macd j) (P.shift r.histogram j) (r.histogram j)
            ≡ f (s.macd j) (P.shift s.histogram j) (s.histogram j)
      same_cells r s i lines bars f j k =
          ap₂ (f (r.macd j)) (shift-Agree P L r.histogram s.histogram i bars j k) (bars j k)
          ∙ ap (λ m. f m (P.shift s.histogram j) (s.histogram j)) (lines j k)

      -- No look-ahead, with pandas as documented: results whose columns are the same up to a row have the same signal there, its
      -- direction, strength and reason.
      pub macd_signals-Agree :
          (params : MacdParams) (r s : MacdResult) (i : ℕ)
          → Agree i r.macd s.macd
          → Agree i r.histogram s.histogram
          → macd_signals params r i ≡ macd_signals params s i
      unfolding macd_signals crossings
      macd_signals-Agree params r s i lines bars =
          ap₂ (row_of F)
            (held_target-Agree P L (crossings params r) (crossings params s) i
              (same_cells r s i lines bars (crossing params)))
            (same_cells r s i lines bars (crossing_reason params) i (omega arith))
