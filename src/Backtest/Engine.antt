-- ===== src/Backtest/Engine.antt =====
-- The execution simulator: orders, fills and the bar loop (services/quant/backtest/engine.py).
pub mod Loop
pub mod Simulate
pub mod Causality
pub mod Totality
pub mod Targets
pub mod Signals
pub mod Affordable
pub mod Marks
pub mod Invariant
pub mod Settlement
pub mod LongOnly
pub mod Permission
use quantora.Prelude.{
  ℕ, ◌+◌ as plus, ◌-◌ as minus, Bool, true, false, not, if◌then◌else◌, Option, none, some, List, [],
  ◌∷◌, ◌++◌, String, ◌==◌, Result, ok, err, assertion_error, ◌>>=◌, ◌>>◌, raise_if,
}
use quantora.Float.{Floats, abs, le, of_int, truthy, tiny}
use quantora.Backtest.Costs
use quantora.Backtest.Costs.{bps}
use quantora.Backtest.Config.{BacktestConfig, reference_price}
use quantora.Backtest.Events.{
  Timestamp, OrderSide, buy, sell, sign, MarketEvent, OrderEvent, new_order, FillEvent,
  PositionEvent,
}
use quantora.Backtest.Portfolio.{
  PositionState, Portfolio, is_flat, position, position_value, position_unrealized, equity,
}
use quantora.Backtest.Portfolio.Fills.{apply_fill, can_afford, max_affordable_quantity}

module _ (F : Floats) where
  open F use {Number, num, sub as ◌-◌, mul as ◌*◌, div as ◌/◌, lt}

  infixl 65 ◌-◌
  infixl 70 ◌*◌ ◌/◌
  -- A row of the price frame, with its timestamp.
  pub record Bar : Type 0 where
    pub timestamp : Timestamp
    pub open_price : Number
    pub high : Number
    pub low : Number
    pub close : Number
    pub volume : Number

  unfoldable pub market_event : String → Bar → MarketEvent F
  market_event symbol bar = record {
    timestamp = bar.timestamp;
    symbol = symbol;
    open_price = bar.open_price;
    high = bar.high;
    low = bar.low;
    close = bar.close;
    volume = bar.volume;
  }

  -- A constrained buy, reported as facts; the source words them.
  pub data Warning : Type 0 where
    skipped_buy : Timestamp → String → Number → Number → Warning
    reduced_buy : Timestamp → String → Number → Number → Warning

  -- The order for a change of the position.
  unfoldable pub drafted : Timestamp → Timestamp → String → Number → String → OrderEvent F
  drafted decision_timestamp execution_timestamp symbol delta reason = record {
    decision_timestamp = decision_timestamp;
    timestamp = execution_timestamp;
    symbol = symbol;
    side = if lt (num 0) delta then buy else sell;
    quantity = abs F delta;
    reason = reason;
  }

  -- `_pending_order`: no order for a change below 1e-9.
  unfoldable pub pending_order :
      Timestamp → Timestamp → String → Number → String → Result (Option (OrderEvent F))
  unfolding new_order drafted
  pending_order decision_timestamp execution_timestamp symbol delta reason =
      if lt (abs F delta) (tiny F 9)
      then ok none
      else (new_order F (drafted decision_timestamp execution_timestamp symbol delta reason)
          >>= λ order. ok (some order))

  -- The fill of an order at a quantity, with the commission on that quantity.
  unfoldable pub fill_of :
      BacktestConfig F → OrderEvent F → MarketEvent F → Number → Number → Number → FillEvent F
  fill_of config order market reference price quantity = record {
    timestamp = market.timestamp;
    symbol = order.symbol;
    side = order.side;
    quantity = quantity;
    reference_price = reference;
    fill_price = price;
    commission = Costs.commission F config.cost_model (quantity * price);
    reason = order.reason;
  }

  -- A fill, if there is one, and the warnings.
  abbrev pub Executed : Type 0
  Executed = Option (FillEvent F) × List Warning

  -- The cash constraint of `_execute`: a buy that cannot be afforded is reduced to the whole
  -- quantity that can, or skipped.
  unfoldable pub constrained :
      BacktestConfig F → Portfolio F → OrderEvent F → MarketEvent F → Number → Number → Executed
  unfolding fill_of max_affordable_quantity
  constrained config portfolio order market reference price =
      let commission = Costs.commission F config.cost_model (order.quantity * price) in
      let affordable =
        max_affordable_quantity F portfolio price (config.cost_model.commission_bps / num 10000) in
      if can_afford F portfolio order.side order.quantity price commission
      then (some (fill_of config order market reference price order.quantity), [])
      else (if le F affordable (num 0)
          then (none, skipped_buy market.timestamp order.symbol order.quantity price ∷ [])
          else (
            some (fill_of config order market reference price affordable),
            reduced_buy market.timestamp order.symbol order.quantity affordable ∷ [],
          ))

  -- `_execute`. A sale always passes `can_afford`, which is the `else` branch of the source.
  unfoldable pub execute :
      OrderEvent F → MarketEvent F → Portfolio F → BacktestConfig F → Result Executed
  unfolding constrained reference_price
  execute order market portfolio config = do
    raise_if (not (order.timestamp == market.timestamp)) assertion_error
    let reference = reference_price F config.execution_model market
    price ← Costs.fill_price F config.cost_model reference (sign order.side)
    ok (constrained config portfolio order market reference price)

  -- The local variables of the bar loop, the output that it appends to, and the state that the
  -- decision function keeps.
  pub record Run (D : Type 0) : Type 0 where
    pub portfolio : Portfolio F
    pub pending : Option (OrderEvent F)
    pub decider : D
    pub orders : List (OrderEvent F)
    pub fills : List (FillEvent F × ℕ)
    pub warnings : List Warning
    pub positions : List (PositionEvent F)
    pub equity_values : List Number
    pub exposure_values : List Number

  -- `decide(i, market, equity, position_state)`; it may read the portfolio and keep state.
  abbrev pub DecisionFn : Type 0 → Type 0
  DecisionFn D =
      D
      → ℕ
      → MarketEvent F
      → Number
      → PositionState F
      → Portfolio F
      → Result ((Number × String) × D)
