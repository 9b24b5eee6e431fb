-- ===== src/Backtest/Engine/Loop.antt =====
-- `_run_execution`, `_liquidate` and `simulate_targets` (services/quant/backtest/engine.py).
use quantora.Prelude.{
  ℕ, zero, suc, ◌-◌ as minus, Bool, false, not, if◌then◌else◌, Option, none, some, List, [], ◌∷◌,
  ◌++◌, String, ◌==◌, length, Result, ok, err, value_error, index_error, ◌>>=◌, ◌>>◌, raise_if,
}
use quantora.Float.{Floats, abs, truthy}
use quantora.Backtest.Costs
use quantora.Backtest.Config.{BacktestConfig}
use quantora.Backtest.Events.{Timestamp, buy, sell, sign, OrderEvent, FillEvent}
use quantora.Backtest.Portfolio.{
  PositionState, Portfolio, new_portfolio, is_flat, position, position_value, position_unrealized,
  equity,
}
use quantora.Backtest.Portfolio.Fills.{apply_fill}
use quantora.Backtest.Engine.{Bar, market_event, Executed, execute, pending_order, Run, DecisionFn}

-- `values[-1] = v`
unfoldable pub set_last {ℓ} : {A : Type ℓ} → A → List A → List A
set_last v [] = []
set_last v (x ∷ []) = v ∷ []
set_last v (x ∷ y ∷ xs) = x ∷ set_last v (y ∷ xs)

-- `values[-1]`
unfoldable pub last? {ℓ} : {A : Type ℓ} → List A → Option A
last? [] = none
last? (x ∷ []) = some x
last? (x ∷ y ∷ xs) = last? (y ∷ xs)

-- `values[i]`
unfoldable pub index {ℓ} : {A : Type ℓ} → List A → ℕ → Result A
index [] i = err index_error
index (x ∷ xs) zero = ok x
index (x ∷ xs) (suc i) = index xs i

unfoldable pub reason_at : Option (List String) → ℕ → Result String
unfolding index
reason_at none i = ok ""
reason_at (some texts) i = index texts i

unfoldable pub are_misaligned : ℕ → Option (List String) → Bool
are_misaligned n none = false
are_misaligned n (some texts) = not (length texts == n)

module _ (F : Floats) where
  open F use {Number, num, sub as ◌-◌, mul as ◌*◌, div as ◌/◌, lt}

  infixl 65 ◌-◌
  infixl 70 ◌*◌ ◌/◌
  -- `_liquidate`: the fill that closes the position at the last bar's close.
  unfoldable pub closing_fill :
      BacktestConfig F → String → Bar F → PositionState F → Result (FillEvent F)
  closing_fill config symbol bar state = do
    let side = if lt (num 0) state.quantity then sell else buy
    let amount = abs F state.quantity
    price ← Costs.fill_price F config.cost_model bar.close (sign side)
    ok (record {
      timestamp = bar.timestamp;
      symbol = symbol;
      side = side;
      quantity = amount;
      reference_price = bar.close;
      fill_price = price;
      commission = Costs.commission F config.cost_model (amount * price);
      reason = "backtest ended — position closed at the final close";
    })

  module _ {D : Type 0} where
    -- What the loop does with the outcome of `_execute`.
    unfoldable pub record_execution : ℕ → Executed F → Run F D → Run F D
    record_execution i (none, warned) s = record s {
      pending = none;
      warnings = s.warnings ++ warned;
    }
    record_execution i (some fill, warned) s = record s {
      portfolio = apply_fill F s.portfolio fill i;
      pending = none;
      fills = s.fills ++ ((fill, i) ∷ []);
      warnings = s.warnings ++ warned;
    }

    -- 1. Execute the order decided on the previous bar, if the slot holds one.
    unfoldable pub execute_slot :
        BacktestConfig F → String → ℕ → Bar F → Run F D → Option (OrderEvent F) → Result (Run F D)
    unfolding record_execution
    execute_slot config symbol i bar s none = ok s
    execute_slot config symbol i bar s (some order) =
        execute F order (market_event F symbol bar) s.portfolio config >>= λ done.
        ok (record_execution i done s)

    unfoldable pub execute_pending :
        BacktestConfig F → String → ℕ → Bar F → Run F D → Result (Run F D)
    unfolding execute_slot
    execute_pending config symbol i bar s = execute_slot config symbol i bar s s.pending

    -- 2. Mark to market at the bar's close.
    unfoldable pub mark : String → Bar F → Run F D → Run F D
    unfolding position position_value position_unrealized equity
    mark symbol bar s =
        let value = equity F s.portfolio ((symbol, bar.close) ∷ []) in
        let (state, p) = position F symbol s.portfolio in
        let held = position_value F state bar.close in
        record s {
          portfolio = p;
          equity_values = s.equity_values ++ (value ∷ []);
          exposure_values =
              s.exposure_values ++ ((if truthy F value then held / value else num 0) ∷ []);
          positions =
              s.positions
              ++ (record {
                timestamp = bar.timestamp;
                symbol = symbol;
                quantity = state.quantity;
                average_price = state.average_price;
                cash = p.cash;
                market_value = held;
                unrealized_pnl = position_unrealized F state bar.close;
                realized_pnl = state.realized_pnl;
              }
                  ∷ []);
        }

    -- The order that a decision leads to is appended and left pending.
    unfoldable pub place : Option (OrderEvent F) → D → Run F D → Run F D
    place none d s = record s { decider = d }
    place (some order) d s = record s {
      decider = d;
      orders = s.orders ++ (order ∷ []);
      pending = some order;
    }

    -- 3. Decide the position to hold from the next bar, whose timestamp the order gets.
    unfoldable pub decide_next :
        DecisionFn F D → String → ℕ → Bar F → Timestamp → Run F D → Result (Run F D)
    unfolding place equity position
    decide_next decide symbol i bar next s = do
      let value = equity F s.portfolio ((symbol, bar.close) ∷ [])
      let state = (position F symbol s.portfolio).0
      decided ← decide s.decider i (market_event F symbol bar) value state s.portfolio
      order ← pending_order F bar.timestamp next symbol (decided.0.0 - state.quantity) decided.0.1
      ok (place order decided.1 s)

    -- One pass of the loop up to the decision: what happens at every bar, the last included.
    unfoldable pub open_bar : BacktestConfig F → String → ℕ → Bar F → Run F D → Result (Run F D)
    unfolding execute_pending mark
    open_bar config symbol i bar s =
        execute_pending config symbol i bar s >>= λ t. ok (mark symbol bar t)

    -- The bar loop, from bar `i` on.
    unfoldable pub run_bars :
        BacktestConfig F → DecisionFn F D → String → ℕ → List (Bar F) → Run F D → Result (Run F D)
    unfolding open_bar decide_next
    run_bars config decide symbol i [] s = ok s
    run_bars config decide symbol i (bar ∷ []) s = open_bar config symbol i bar s
    run_bars config decide symbol i (bar ∷ next ∷ bars) s = open_bar config symbol i bar s >>= λ t.
        decide_next decide symbol i bar next.timestamp t >>= λ u.
        run_bars config decide symbol (suc i) (next ∷ bars) u

    unfoldable pub liquidate : BacktestConfig F → String → Bar F → ℕ → Run F D → Result (Run F D)
    unfolding closing_fill position
    liquidate config symbol bar bar_count s =
        let (state, p) = position F symbol s.portfolio in
        if is_flat F state
        then ok (record s { portfolio = p })
        else (closing_fill config symbol bar state >>= λ fill. ok (record s {
          portfolio = apply_fill F p fill (minus bar_count 1);
          fills = s.fills ++ ((fill, minus bar_count 1) ∷ []);
        }))

    -- The final equity and exposure points reflect the liquidation at the last bar.
    unfoldable pub close_at :
        BacktestConfig F → String → ℕ → Run F D → Option (Bar F) → Result (Run F D)
    unfolding liquidate equity set_last
    close_at config symbol bar_count s none = err index_error
    close_at config symbol bar_count s (some bar) = liquidate config symbol bar bar_count s >>= λ t.
        ok (record t {
          equity_values =
              set_last (equity F t.portfolio ((symbol, bar.close) ∷ [])) t.equity_values;
          exposure_values = set_last (num 0) t.exposure_values;
        })

    unfoldable pub close_out : BacktestConfig F → String → List (Bar F) → Run F D → Result (Run F D)
    unfolding close_at last?
    close_out config symbol bars s = close_at config symbol (length bars) s (last? bars)

    -- `_run_execution`
    unfoldable pub run_execution :
        BacktestConfig F → DecisionFn F D → String → List (Bar F) → Run F D → Result (Run F D)
    unfolding run_bars close_out
    run_execution config decide symbol bars s = do
      t ← run_bars config decide symbol 0 bars s
      if config.liquidate_at_end then close_out config symbol bars t else ok t

    -- The state before the first bar.
    abbrev pub start : Portfolio F → D → Run F D
    start p d = record {
      portfolio = p;
      pending = none;
      decider = d;
      orders = [];
      fills = [];
      warnings = [];
      positions = [];
      equity_values = [];
      exposure_values = [];
    }

  -- The decision function of `simulate_targets`; it keeps no state.
  unfoldable pub decide_targets : List Number → Option (List String) → DecisionFn F (Unit {0})
  unfolding index reason_at
  decide_targets targets reasons d i market value state p = do
    target ← index targets i
    reason ← reason_at reasons i
    ok ((target, reason), d)

  unfoldable pub simulate_targets :
      List (Bar F)
      → List Number
      → String
      → Option (List String)
      → BacktestConfig F
      → Result (Run F (Unit {0}))
  unfolding new_portfolio run_execution decide_targets are_misaligned
  simulate_targets frame targets symbol reasons config = do
    raise_if (length frame == 0) (value_error "frame")
    raise_if (not (length targets == length frame)) (value_error "targets")
    raise_if (are_misaligned (length frame) reasons) (value_error "reasons")
    p ← new_portfolio F config.initial_cash
    run_execution config (decide_targets targets reasons) symbol frame (start p tt)
