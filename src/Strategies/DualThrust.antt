-- ===== src/Strategies/DualThrust.antt =====
-- The signals of the Dual Thrust strategy, from the bars
-- (services/quant/strategies/dual_thrust.py, `generate_signals`).
pub mod Causal
use quantora.Prelude.{
  ℕ, Bool, true, false, ◌&&◌, if◌then◌else◌, Option, none, some, String, same_text,
}
use quantora.Float.{Floats, max}
use quantora.Strategies.Base.{SignalDirection, short, flat, long}
use quantora.Strategies.Columns.{
  Column, Pandas, held_target, is_above, is_at_least, is_at_most, SignalRow, row_of,
}

module _ (F : Floats) where
  open F use {Number, num, add, sub, mul}

  pub record DualThrustParams : Type 0 where
    pub lookback : ℕ
    pub k_upper : Number
    pub k_lower : Number
    pub allow_short : Bool
    pub trigger_on : String

  pub record Bars : Type 0 where
    pub open_price : Column (Option Number)
    pub high : Column (Option Number)
    pub low : Column (Option Number)
    pub close : Column (Option Number)

  -- An operation on numbers that may be NaN.
  abbrev lifted : (Number → Number → Number) → Option Number → Option Number → Option Number
  lifted op (some x) (some y) = some (op x y)
  lifted op _ _ = none

  -- What the rule compares in a row.
  pub record Triggers : Type 0 where
    pub range : Option Number
    pub upper_trigger : Option Number
    pub lower_trigger : Option Number

  unfoldable pub broke_up : DualThrustParams → Triggers → Option Number → Option Number → Bool
  broke_up params t high close =
      is_above F t.range (some (num 0))
      && is_at_least F (if same_text params.trigger_on "close" then close else high) t.upper_trigger

  unfoldable pub broke_down : DualThrustParams → Triggers → Option Number → Option Number → Bool
  broke_down params t low close =
      is_above F t.range (some (num 0))
      && is_at_most F (if same_text params.trigger_on "close" then close else low) t.lower_trigger

  -- `target` of a row before it is filled: the break down is assigned last.
  unfoldable pub breakout : DualThrustParams → Bool → Bool → Option SignalDirection
  breakout params up down =
      if down
      then some (if params.allow_short then short else flat)
      else (if up then some long else none)

  unfoldable pub close_reason : DualThrustParams → Bool → Bool → String
  close_reason params up down =
      if down
      then (if params.allow_short
          then "close broke below the lower trigger — reversing short"
          else "close broke below the lower trigger — exiting")
      else (if up then "close broke above the upper trigger — long breakout" else "")

  unfoldable pub intrabar_reason : DualThrustParams → Bool → Bool → String
  intrabar_reason params up down =
      if down
      then (if params.allow_short
          then "low touched the lower trigger — reversing short (intrabar)"
          else "low touched the lower trigger — exiting (intrabar)")
      else (if up then "high touched the upper trigger — long breakout (intrabar)" else "")

  unfoldable pub breakout_reason : DualThrustParams → Bool → Bool → String
  unfolding close_reason intrabar_reason
  breakout_reason params up down =
      if same_text params.trigger_on "intrabar"
      then intrabar_reason params up down
      else close_reason params up down

  module _ (P : Pandas Number) where
    -- `range_`, of windows of the rows before
    unfoldable pub range_at : ℕ → Bars → Column (Option Number)
    range_at lookback bars i =
        let hh = P.rolling_max lookback (P.shift bars.high) i in
        let hc = P.rolling_max lookback (P.shift bars.close) i in
        let lc = P.rolling_min lookback (P.shift bars.close) i in
        let ll = P.rolling_min lookback (P.shift bars.low) i in
        lifted (max F) (lifted sub hh lc) (lifted sub hc ll)

    unfoldable pub triggers_at : DualThrustParams → Bars → Column Triggers
    unfolding range_at
    triggers_at params bars i = record {
      range = range_at params.lookback bars i;
      upper_trigger =
          lifted add (bars.open_price i)
            (lifted mul (some params.k_upper) (range_at params.lookback bars i));
      lower_trigger =
          lifted sub (bars.open_price i)
            (lifted mul (some params.k_lower) (range_at params.lookback bars i));
    }

    unfoldable pub is_up : DualThrustParams → Bars → Column Bool
    unfolding triggers_at broke_up
    is_up params bars i = broke_up params (triggers_at params bars i) (bars.high i) (bars.close i)

    unfoldable pub is_down : DualThrustParams → Bars → Column Bool
    unfolding triggers_at broke_down
    is_down params bars i =
        broke_down params (triggers_at params bars i) (bars.low i) (bars.close i)

    unfoldable pub breakouts : DualThrustParams → Bars → Column (Option SignalDirection)
    unfolding is_up is_down breakout
    breakouts params bars i = breakout params (is_up params bars i) (is_down params bars i)

    -- The frame of `generate_signals`
    unfoldable pub dual_thrust_signals : DualThrustParams → Bars → Column (SignalRow F)
    unfolding breakouts breakout_reason is_up is_down held_target row_of
    dual_thrust_signals params bars i =
        row_of F (held_target P (breakouts params bars) i)
          (breakout_reason params (is_up params bars i) (is_down params bars i))
