-- ===== src/Backtest/Engine/Simulate.antt =====
-- `simulate`: the decisions of a strategy drive the execution loop
-- (services/quant/backtest/engine.py).
use quantora.Prelude.{
  ℕ, ◌-◌ as minus, ◌&&◌, Bool, true, false, not, if◌then◌else◌, Option, none, some, List, [], ◌∷◌,
  String, same_text, length, ◌==◌, Result, ok, value_error, zero_division, ◌>>=◌, ◌>>◌, raise_if,
}
use mathlib.Core.Option
use Prim.Native.String.{◌++◌ as text_append}
use quantora.Float.{Floats, abs, truthy}
use quantora.Backtest.Config.{BacktestConfig}
use quantora.Backtest.Events.{Timestamp, MarketEvent}
use quantora.Backtest.Portfolio.{
  PositionState, Portfolio, new_portfolio, is_flat, position_unrealized,
}
use quantora.Backtest.Engine.{Bar, Run, DecisionFn}
use quantora.Backtest.Engine.Loop.{index, run_execution, start}
use quantora.Strategies.Base.{
  SignalDirection, short, flat, long, same_direction, label, Position, SizingContext, ExitContext,
  Strategy,
}

module _ (F : Floats) where
  open F use {Number, num, mul as ◌*◌, div as ◌/◌, lt, eq}

  infixl 70 ◌*◌ ◌/◌
  -- `_direction_of`
  unfoldable pub direction_of : Number → SignalDirection
  direction_of quantity =
      if lt (num 0) quantity then long else (if lt quantity (num 0) then short else flat)

  -- A row of the signal frame, with the indicator values that are known at it.
  pub record Signal : Type 0 where
    pub timestamp : Timestamp
    pub direction : SignalDirection
    pub strength : Number
    pub reason : String
    pub indicators : List (String × Number)

  -- `_as_contract_position`, of the position that the loop holds
  unfoldable pub as_contract_position : String → PositionState F → ℕ → Position F
  as_contract_position symbol state bar_index = record {
    symbol = symbol;
    quantity = state.quantity;
    entry_price = state.average_price;
    entry_timestamp = Option.get_or state.entry_timestamp 0;
    bars_held = if not (is_flat F state) then minus bar_index state.entry_bar_index else 0;
  }

  -- A position that cost nothing has no return: the division raises.
  unfoldable pub unrealized_return : MarketEvent F → PositionState F → Result Number
  unrealized_return market state =
      if truthy F state.quantity
      then (let cost = abs F (state.average_price * state.quantity) in
          raise_if (eq cost (num 0)) zero_division
          >> ok (position_unrealized F state market.close / cost))
      else ok (num 0)

  unfoldable pub exit_context :
      String → ℕ → MarketEvent F → PositionState F → Signal → Result (ExitContext F)
  unfolding unrealized_return
  exit_context symbol i market state signal = do
    earned ← unrealized_return market state
    ok (record {
      timestamp = market.timestamp;
      symbol = symbol;
      position = as_contract_position symbol state i;
      price = market.close;
      bar = market;
      unrealized_pnl = position_unrealized F state market.close;
      unrealized_return = earned;
      indicators = signal.indicators;
    })

  unfoldable pub sizing_context :
      String
      → ℕ
      → MarketEvent F
      → Number
      → PositionState F
      → Portfolio F
      → Signal
      → SignalDirection
      → SizingContext F
  sizing_context symbol i market equity state p signal direction = record {
    timestamp = market.timestamp;
    symbol = symbol;
    direction = direction;
    strength = signal.strength;
    price = market.close;
    equity = equity;
    cash = p.cash;
    position = as_contract_position symbol state i;
    indicators = signal.indicators;
  }

  -- The engine has the final say on short positions.
  unfoldable pub permitted : BacktestConfig F → SignalDirection → SignalDirection
  permitted config direction =
      if same_direction direction short && not config.allow_short then flat else direction

  -- After a discretionary exit a direction is suppressed until the signal changes its mind.
  unfoldable pub suppress :
      Option SignalDirection → SignalDirection → SignalDirection × Option SignalDirection
  suppress none direction = (direction, none)
  suppress (some suppressed) direction =
      if same_direction direction suppressed then (flat, some suppressed) else (direction, none)

  -- The target of a bar's signal, where no exit was taken.
  unfoldable pub signal_target :
      Strategy F
      → BacktestConfig F
      → String
      → Option SignalDirection
      → ℕ
      → MarketEvent F
      → Number
      → PositionState F
      → Portfolio F
      → Signal
      → Result ((Number × String) × Option SignalDirection)
  unfolding permitted suppress direction_of sizing_context
  signal_target strategy config symbol suppressed i market equity state p signal =
      let (direction, suppressed') = suppress suppressed (permitted config signal.direction) in
      if same_direction direction (direction_of state.quantity)
        && not strategy.rebalances_continuously
      then ok ((state.quantity, ""), suppressed')
      else (strategy.position_size (sizing_context symbol i market equity state p signal direction)
          >>= λ quantity. ok (
            (
              quantity,
              if same_text signal.reason ""
                  then text_append "target " (label direction)
                  else signal.reason,
            ),
            suppressed',
          ))

  -- The discretionary exit, which only an open position can take: its reason.
  unfoldable pub exit_taken :
      Strategy F → String → ℕ → MarketEvent F → PositionState F → Signal → Result (Option String)
  unfolding exit_context
  exit_taken strategy symbol i market state signal = if is_flat F state then ok none else (do
    context ← exit_context symbol i market state signal
    decision ← strategy.exit_signal context
    ok (
        if decision.should_exit
        then some (if same_text decision.reason "" then "strategy exit signal" else decision.reason)
        else none))

  -- The decision function of `simulate`; its state is `suppressed_direction`.
  unfoldable pub decide_signals :
      Strategy F → BacktestConfig F → String → List Signal → DecisionFn F (Option SignalDirection)
  unfolding index signal_target exit_taken direction_of
  decide_signals strategy config symbol signals suppressed i market equity state p = do
    signal ← index signals i
    taken ← exit_taken strategy symbol i market state signal
    elim taken [
      | some reason ↦ ok ((num 0, reason), some (direction_of state.quantity))
      | none ↦ signal_target strategy config symbol suppressed i market equity state p signal
    ]

  abbrev pub same_index : List (Bar F) → List Signal → Bool
  same_index [] [] = true
  same_index (b ∷ bs) (s ∷ ss) = b.timestamp == s.timestamp && same_index bs ss
  same_index _ _ = false

  unfoldable pub simulate :
      String
      → List (Bar F)
      → Strategy F
      → List Signal
      → BacktestConfig F
      → Result (Run F (Option SignalDirection))
  unfolding new_portfolio run_execution decide_signals
  simulate symbol frame strategy signals config = do
    raise_if (length frame == 0) (value_error "series")
    raise_if (not (same_index frame signals)) (value_error "signals")
    p ← new_portfolio F config.initial_cash
    run_execution F config (decide_signals strategy config symbol signals) symbol frame
        (start F p none)
