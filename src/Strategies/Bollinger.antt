-- ===== src/Strategies/Bollinger.antt =====
-- The signals of the Bollinger strategy, from the close and the columns of its indicator
-- (services/quant/strategies/bollinger.py, `generate_signals`).
pub mod Causal
use quantora.Prelude.{
  ℕ, Bool, true, false, not, ◌&&◌, ◌||◌, if◌then◌else◌, Option, none, some, String,
}
use quantora.Float.{Floats}
use quantora.Strategies.Base.{SignalDirection, short, flat, long, same_direction}
use quantora.Strategies.Columns.{
  Column, Pandas, is_known, held_target, is_above, is_below, is_at_least, is_at_most, SignalRow,
  row_of,
}

module _ (F : Floats) where
  open F use {Number}

  pub record BollingerParams : Type 0 where
    pub exit_at_middle : Bool
    pub allow_short : Bool

  -- The close, and the columns of `bollinger_bands` that the rule reads.
  pub record Bands : Type 0 where
    pub close : Column (Option Number)
    pub middle : Column (Option Number)
    pub lower : Column (Option Number)
    pub upper : Column (Option Number)

  -- What the rule compares in a row.
  pub record Cells : Type 0 where
    pub close : Option Number
    pub previous_close : Option Number
    pub middle : Option Number
    pub previous_middle : Option Number
    pub lower : Option Number
    pub upper : Option Number

  unfoldable pub below_lower : Cells → Bool
  below_lower c = is_known c.middle && is_below F c.close c.lower

  unfoldable pub above_upper : Cells → Bool
  above_upper c = is_known c.middle && is_above F c.close c.upper

  unfoldable pub crossed_above_middle : Cells → Bool
  crossed_above_middle c =
      is_known c.middle
      && is_known c.previous_middle
      && is_at_most F c.previous_close c.previous_middle
      && is_above F c.close c.middle

  unfoldable pub crossed_below_middle : Cells → Bool
  crossed_below_middle c =
      is_known c.middle
      && is_known c.previous_middle
      && is_at_least F c.previous_close c.previous_middle
      && is_below F c.close c.middle

  -- `entry_target`: what is assigned later wins.
  unfoldable pub entry_target : BollingerParams → Cells → Option SignalDirection
  unfolding below_lower above_upper crossed_above_middle crossed_below_middle
  entry_target params c =
      if above_upper c
      then some (if params.allow_short then short else flat)
      else (if below_lower c
          then some long
          else (if params.exit_at_middle && (crossed_above_middle c || crossed_below_middle c)
              then some flat
              else none))

  -- `reasons`, of a row whose direction has changed or not
  unfoldable pub entry_reason : BollingerParams → Cells → Bool → String
  unfolding below_lower above_upper crossed_above_middle crossed_below_middle
  entry_reason params c changed =
      if above_upper c && changed
      then (if params.allow_short
          then "close above the upper band — overbought, entering short"
          else "close above the upper band — overbought, exiting/staying flat")
      else (if below_lower c && changed
          then "close below the lower band — oversold, entering long"
          else (if params.exit_at_middle && (crossed_below_middle c && changed)
              then "close crossed below the middle band — exiting short"
              else (if params.exit_at_middle && (crossed_above_middle c && changed)
                  then "close crossed above the middle band — exiting long"
                  else "")))

  -- `direction.ne(direction.shift())` in a row: true where there is no row before
  abbrev is_changed : Option SignalDirection → SignalDirection → Bool
  is_changed none d = true
  is_changed (some previous) d = not (same_direction d previous)

  module _ (P : Pandas Number) where
    unfoldable pub cells_at : Bands → Column Cells
    cells_at b i = record {
      close = b.close i;
      previous_close = P.shift b.close i;
      middle = b.middle i;
      previous_middle = P.shift b.middle i;
      lower = b.lower i;
      upper = b.upper i;
    }

    unfoldable pub entry_targets : BollingerParams → Bands → Column (Option SignalDirection)
    unfolding cells_at entry_target
    entry_targets params b i = entry_target params (cells_at b i)

    unfoldable pub bollinger_directions : BollingerParams → Bands → Column SignalDirection
    unfolding held_target entry_targets
    bollinger_directions params b = held_target P (entry_targets params b)

    -- The frame of `generate_signals`
    unfoldable pub bollinger_signals : BollingerParams → Bands → Column (SignalRow F)
    unfolding cells_at entry_reason bollinger_directions row_of
    bollinger_signals params b i =
        let directions = bollinger_directions params b in
        row_of F (directions i) (
          entry_reason params (cells_at b i)
            (is_changed (P.shift (λ j. some (directions j)) i) (directions i)))
