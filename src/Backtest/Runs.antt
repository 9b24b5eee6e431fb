-- ===== src/Backtest/Runs.antt =====
-- The theorems on whole runs, applied at concrete inputs (services/quant/backtest).
use quantora.Prelude.{
  ℕ, ◌≡◌, refl, false, none, List, [], ◌∷◌, length, ◌+◌, All, ok, err, value_error, subst,
  ok_injective,
}
use quantora.Rational.{ℚ, exact, add, mul, neg, inv, trunc, lt}
use quantora.Rational.Laws.{exact-IsExact}
use quantora.Backtest.Events.{PositionEvent}
use quantora.Backtest.Costs
use quantora.Backtest.Config.{reference_price}
use quantora.Backtest.Events.{new_order, notional, slippage_cost, total_cost, cash_delta}
use quantora.Backtest.Portfolio.{
  opening, quantity, new_portfolio, find, store, position, is_flat, position_sign, position_value,
  position_unrealized, open_position, add_to_position, equity, priced, price_of, market_value,
}
use quantora.Backtest.Portfolio.Fills.{
  apply_fill, settle, charge, close_position, closed_trade, snapped, reduced, entry_cost_share,
  exit_cost_share, reversal, can_afford, max_affordable_quantity,
}
use quantora.Backtest.Engine.{market_event, drafted, pending_order, fill_of, constrained, execute}
use quantora.Backtest.Portfolio.Ledger.{apply_fills}
use quantora.Backtest.Portfolio.Netting.{net, apply_fills-net}
use quantora.Backtest.Engine.Settlement.{skipped, run_bars-settled}
use quantora.Backtest.Examples.{q, log, log-IsClean, config, bar, later, targets, looped}
use quantora.Backtest.Engine.Loop.{
  decide_targets, index, last?, closing_fill, record_execution, execute_slot, execute_pending, mark,
  place, decide_next, open_bar, run_bars, liquidate, close_at, close_out, run_execution, set_last,
}
use quantora.Float.{of_int, abs, tiny, min, max, sum}
use quantora.Backtest.Engine.Simulate.{
  Signal, simulate, direction_of, as_contract_position, unrealized_return, exit_context,
  sizing_context, permitted, suppress, signal_target, exit_taken, decide_signals,
}
use quantora.Backtest.Engine.Totality.{Returns}
use quantora.Backtest.Engine.Signals.{IsTraced, simulate-RaisesAt}
use quantora.Backtest.Engine.Permission.{IsPermitted, simulate-long}
use quantora.Strategies.Base.{
  SignalDirection, short, flat, long, direction_int, hold, SizingContext, Strategy,
}

apply_fills-net_example :
    quantity exact "TCS.NS" (apply_fills exact (opening exact (q 10000)) log)
    ≡ net exact "TCS.NS" log
apply_fills-net_example = apply_fills-net exact exact-IsExact (q 10000) log "TCS.NS" log-IsClean

run_bars-settled_example :
    ((looped.0).pending ≡ none)
    × (length (looped.0).fills + skipped exact (looped.0).warnings ≡ length (looped.0).orders)
run_bars-settled_example =
    run_bars-settled exact config (decide_targets exact targets none) "TCS.NS" (bar 1 100 101) later
      (opening exact (q 1000)) tt looped.0 looped.1

-- A strategy that holds five units in the direction of its signal.
abbrev strategy : Strategy exact
strategy = record {
  name = "five";
  rebalances_continuously = false;
  position_size = λ context. ok (mul (q 5) (of_int exact (direction_int context.direction)));
  exit_signal = λ context. ok (hold exact);
}

abbrev signal : ℕ → SignalDirection → Signal exact
signal time direction = record {
  timestamp = time;
  direction = direction;
  strength = q 1;
  reason = "";
  indicators = [];
}

abbrev signals : List (Signal exact)
signals = signal 1 long ∷ signal 2 short ∷ signal 3 long ∷ []

simulated : Returns (simulate exact "TCS.NS" (bar 1 100 101 ∷ later) strategy signals config)
unfolding index last? closing_fill record_execution execute_slot execute_pending mark place
    decide_next open_bar run_bars liquidate close_at close_out run_execution direction_of
    as_contract_position unrealized_return exit_context sizing_context permitted suppress
    signal_target exit_taken decide_signals simulate market_event drafted pending_order fill_of
    constrained execute Costs.fill_price Costs.penalty Costs.commission reference_price new_order
    new_portfolio find store position is_flat position_sign position_value position_unrealized
    open_position add_to_position apply_fill settle charge close_position closed_trade snapped
    reduced entry_cost_share exit_cost_share reversal notional slippage_cost total_cost cash_delta
    can_afford max_affordable_quantity equity priced price_of market_value set_last abs tiny min max
    sum add mul neg inv trunc lt
simulated = (_, refl)

-- A strategy that cannot size a position.
abbrev sizeless : Strategy exact
sizeless = record strategy { position_size = λ context. err (value_error "size") }

fails :
    simulate exact "TCS.NS" (bar 1 100 101 ∷ later) sizeless signals config
    ≡ err (value_error "size")
unfolding index last? closing_fill record_execution execute_slot execute_pending mark place
    decide_next open_bar run_bars liquidate close_at close_out run_execution direction_of
    as_contract_position unrealized_return exit_context sizing_context permitted suppress
    signal_target exit_taken decide_signals simulate market_event drafted pending_order fill_of
    constrained execute Costs.fill_price Costs.penalty Costs.commission reference_price new_order
    new_portfolio find store position is_flat position_sign position_value position_unrealized
    open_position add_to_position apply_fill settle charge close_position closed_trade snapped
    reduced entry_cost_share exit_cost_share reversal notional slippage_cost total_cost cash_delta
    can_afford max_affordable_quantity equity priced price_of market_value set_last abs tiny min max
    sum add mul neg inv trunc lt
fails = refl

simulate-RaisesAt_example :
    IsTraced exact exact-IsExact "TCS.NS"
      (bar 1 100 101 ∷ later)
      sizeless
      signals
      config
      (value_error "size")
unfolding lt
simulate-RaisesAt_example =
    simulate-RaisesAt exact exact-IsExact "TCS.NS" (bar 1 100 101) later sizeless signals config
      (value_error "size") refl refl fails

sizes_of :
    (d : SignalDirection)
    → IsPermitted d
    → lt (mul (q 5) (of_int exact (direction_int d))) (q 0) ≡ false
unfolding lt mul
sizes_of short h = cc
sizes_of flat h = refl
sizes_of long h = refl

sizes :
    (context : SizingContext exact) (quantity : ℚ)
    → IsPermitted context.direction
    → strategy.position_size context ≡ ok quantity
    → lt quantity (q 0) ≡ false
sizes context quantity h e =
    subst (λ x. lt x (q 0) ≡ false) (ok_injective e) (sizes_of context.direction h)

simulate-long_example :
    All (λ (e : PositionEvent exact). lt e.quantity (q 0) ≡ false) (simulated.0).positions
simulate-long_example =
    simulate-long exact exact-IsExact strategy config refl sizes "TCS.NS" (bar 1 100 101 ∷ later)
      signals simulated.0 simulated.1
