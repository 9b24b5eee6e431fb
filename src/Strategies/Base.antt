-- ===== src/Strategies/Base.antt =====
-- The strategy contract: target directions, the contexts a strategy sees, and the default sizing
-- rule (services/quant/strategies/base.py).
pub mod Sizing
use quantora.Prelude.{
  ℕ, Bool, true, false, ◌||◌, if◌then◌else◌, List, String, Result, ℤ, pos, negsuc,
}
use quantora.Float.{Floats, le, min, max, of_int}
use quantora.Backtest.Events.{Timestamp, MarketEvent}

pub data SignalDirection : Type 0 where
  short flat long : SignalDirection

abbrev pub direction_int : SignalDirection → ℤ
direction_int short = negsuc 0
direction_int flat = pos 0
direction_int long = pos 1

-- `a is b` of two directions
abbrev pub same_direction : SignalDirection → SignalDirection → Bool
same_direction short short = true
same_direction flat flat = true
same_direction long long = true
same_direction _ _ = false

unfoldable pub label : SignalDirection → String
label short = "short"
label flat = "flat"
label long = "long"

module _ (F : Floats) where
  open F use {Number, num, mul as ◌*◌, div as ◌/◌, trunc, lt}

  infixl 70 ◌*◌ ◌/◌
  -- An open position, as the strategy sees it.
  pub record Position : Type 0 where
    pub symbol : String
    pub quantity : Number
    pub entry_price : Number
    pub entry_timestamp : Timestamp
    pub bars_held : ℕ

  pub record SizingContext : Type 0 where
    pub timestamp : Timestamp
    pub symbol : String
    pub direction : SignalDirection
    pub strength : Number
    pub price : Number
    pub equity : Number
    pub cash : Number
    pub position : Position
    pub indicators : List (String × Number)

  pub record ExitContext : Type 0 where
    pub timestamp : Timestamp
    pub symbol : String
    pub position : Position
    pub price : Number
    pub bar : MarketEvent F
    pub unrealized_pnl : Number
    pub unrealized_return : Number
    pub indicators : List (String × Number)

  pub record ExitDecision : Type 0 where
    pub should_exit : Bool
    pub reason : String

  abbrev pub hold : ExitDecision
  hold = record { should_exit = false; reason = "" }

  abbrev pub exit : String → ExitDecision
  exit reason = record { should_exit = true; reason = reason }

  -- What the engine uses of a strategy, whose methods may raise.
  pub record Strategy : Type 0 where
    pub name : String
    pub rebalances_continuously : Bool
    pub position_size : SizingContext → Result Number
    pub exit_signal : ExitContext → Result ExitDecision

  -- `default_allocation`, 0.95
  abbrev pub default_allocation : Number
  default_allocation = num 95 / num 100

  -- `strength` clipped to [0, 1]
  unfoldable pub conviction : Number → Number
  conviction strength = min F (max F strength (num 0)) (num 1)

  -- `Strategy.position_size`
  unfoldable pub position_size : SizingContext → Number
  unfolding conviction
  position_size context =
      if same_direction context.direction flat || le F context.price (num 0)
      then num 0
      else trunc (context.equity * default_allocation * conviction context.strength / context.price)
        * of_int F (direction_int context.direction)
