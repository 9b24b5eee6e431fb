-- ===== src/Backtest/Examples.antt =====
-- The theorems on the simulator, applied at concrete inputs (services/quant/backtest).
use quantora.Prelude.{ℕ, ◌≡◌, refl, true, false, none, some, List, [], ◌∷◌, ok, pos, negsuc, length}
use quantora.Float.{abs, min, tiny}
use quantora.Rational.{exact, of_frac, add, mul, neg, inv, lt, ℚ}
use quantora.Rational.Fractions.{frac}
use quantora.Rational.Laws.{exact-IsExact}
use quantora.Backtest.Costs
use quantora.Backtest.Costs.{CostModel, fill_price, as_dict, from_dict}
use quantora.Backtest.Costs.Pricing.{fill_price-adverse}
use quantora.Backtest.Costs.Persistence.{from_dict-as_dict}
use quantora.Backtest.Config
use quantora.Backtest.Config.Persistence.{from_dict-as_dict-checked}
use quantora.Backtest.Config.{BacktestConfig, next_bar_open, reference_price}
use quantora.Backtest.Events.{
  OrderSide, buy, sell, FillEvent, OrderEvent, notional, slippage_cost, total_cost, cash_delta,
}
use quantora.Backtest.Portfolio.{
  opening, realized_pnl, find, store, position, is_flat, position_sign, open_position,
  add_to_position,
}
use quantora.Backtest.Portfolio.Fills.{
  apply_fill, settle, charge, close_position, closed_trade, snapped, reduced, entry_cost_share,
  exit_cost_share, reversal,
}
use quantora.Backtest.Portfolio.Ledger.{apply_fills, IsClean, invested, apply_fills-cash}
use quantora.Backtest.Portfolio.Trades.{reported, apply_fills-trades}
use quantora.Backtest.Engine.{Bar, Executed, execute, market_event}
use quantora.Backtest.Engine.Loop.{run_bars, run_execution, start, decide_targets, simulate_targets}
use quantora.Backtest.Engine.Totality.{Returns, run_bars-Returns, run_execution-Returns}
use quantora.Backtest.Engine.Targets.{decide_targets-Returns, simulate_targets-Returns}
use quantora.Backtest.Engine.Causality.{run_bars-Extends, RunsAlike}
use quantora.Backtest.Engine.Marks.{run_execution-IsMarked}
use quantora.Backtest.Engine.Affordable.{IsCovered, execute-IsCovered}
use quantora.Prelude.{arith}
use quantora.Prelude.{All, String}
use quantora.Backtest.Compare.{higher, prefers, extreme, best_of, held}
use quantora.Backtest.Compare.Best.{StandsIn, best_of-unbeaten, IsAsGoodAs}
use quantora.Backtest.Compare.Benchmark.{reference_fill, held-apply_fills}

abbrev pub q : ℕ → ℚ
q n = of_frac (frac n 0 0)

abbrev fill : OrderSide → ℕ → ℕ → ℕ → FillEvent exact
fill side amount reference price = record {
  timestamp = 1;
  symbol = "TCS.NS";
  side = side;
  quantity = q amount;
  reference_price = q reference;
  fill_price = q price;
  commission = q 1;
  reason = "signal";
}

-- Ten are bought, five are added, and twenty are sold: the position is reversed.
abbrev pub log : List (FillEvent exact × ℕ)
log = (fill buy 10 100 101, 1) ∷ (fill buy 5 109 110, 2) ∷ (fill sell 20 121 120, 5) ∷ []

pub log-IsClean : IsClean exact (opening exact (q 10000)) log
unfolding find store position is_flat position_sign open_position add_to_position apply_fill settle
    charge close_position closed_trade snapped reduced entry_cost_share exit_cost_share reversal
    notional slippage_cost total_cost cash_delta abs min tiny add mul neg inv lt
log-IsClean = (
  refl,
  λ _. (exact-IsExact.eq_iff _ _).0 refl,
  (refl, λ small. cc, (refl, λ _. (exact-IsExact.eq_iff _ _).0 refl, tt)),
)

apply_fills-cash_example :
    let p = apply_fills exact (opening exact (q 10000)) log in
    add p.cash (invested exact p.positions)
    ≡ add (add (q 10000) (realized_pnl exact p)) p.total_slippage
apply_fills-cash_example = apply_fills-cash exact exact-IsExact (q 10000) log log-IsClean

apply_fills-trades_example :
    let p = apply_fills exact (opening exact (q 10000)) log in
    realized_pnl exact p ≡ reported exact p.trades
apply_fills-trades_example = apply_fills-trades exact exact-IsExact (q 10000) log

abbrev costs : CostModel exact
costs = Costs.default exact

fill_price-adverse_example :
    (bought sold : ℚ) × (fill_price exact costs (q 250) (pos 1) ≡ ok bought)
    × (fill_price exact costs (q 250) (negsuc 0) ≡ ok sold)
    × (lt bought (q 250) ≡ false)
    × (lt (q 250) sold ≡ false)
    × (add bought sold ≡ add (q 250) (q 250))
unfolding Costs.checked lt
fill_price-adverse_example = fill_price-adverse exact exact-IsExact costs costs (q 250) refl refl

from_dict-as_dict_example : from_dict exact (some (as_dict exact costs)) ≡ ok costs
unfolding Costs.checked lt
from_dict-as_dict_example = from_dict-as_dict exact costs costs refl

abbrev pub config : BacktestConfig exact
config = record {
  initial_cash = q 1000;
  cost_model = costs;
  execution_model = next_bar_open;
  allow_short = false;
  liquidate_at_end = true;
  risk_free_rate = q 0;
}

abbrev pub bar : ℕ → ℕ → ℕ → Bar exact
bar time open_price close = record {
  timestamp = time;
  open_price = q open_price;
  high = q 200;
  low = q 50;
  close = q close;
  volume = q 100000;
}

-- More is ordered than a thousand pays for.
abbrev order : OrderEvent exact
order = record {
  decision_timestamp = 1;
  timestamp = 2;
  symbol = "TCS.NS";
  side = buy;
  quantity = q 30;
  reason = "enter";
}

execute-IsCovered_example :
    (done : Executed exact) × (execute exact order
        (market_event exact "TCS.NS" (bar 2 101 102))
        (opening exact (q 1000))
        config
      ≡ ok done)
    × IsCovered exact (opening exact (q 1000)) order done
unfolding Costs.checked market_event reference_price lt
execute-IsCovered_example =
    execute-IsCovered exact exact-IsExact config costs refl refl (opening exact (q 1000)) refl order
      (market_event exact "TCS.NS" (bar 2 101 102)) refl refl refl refl

abbrev pub targets : List ℚ
targets = q 10 ∷ q 0 ∷ q 5 ∷ []

abbrev pub later : List (Bar exact)
later = bar 2 101 102 ∷ bar 3 103 104 ∷ []

simulate_targets-Returns_example :
    Returns (simulate_targets exact (bar 1 100 101 ∷ later) targets "TCS.NS" none config)
unfolding lt
simulate_targets-Returns_example =
    simulate_targets-Returns exact exact-IsExact (bar 1 100 101) later targets "TCS.NS" none config
      refl tt refl

-- Two runs over the frame: the whole loop, and its bars alone.
finished : Returns (
    run_execution exact config
      (decide_targets exact targets none)
      "TCS.NS"
      (bar 1 100 101 ∷ later)
      (start exact (opening exact (q 1000)) tt))
finished =
    run_execution-Returns exact exact-IsExact config (decide_targets exact targets none) "TCS.NS"
      (bar 1 100 101) later (opening exact (q 1000)) tt
      (decide_targets-Returns exact targets none 3 refl tt)

run_execution-IsMarked_example :
    (length (finished.0).equity_values ≡ 3)
    × (length (finished.0).exposure_values ≡ 3)
    × (length (finished.0).positions ≡ 3)
run_execution-IsMarked_example =
    run_execution-IsMarked exact config "TCS.NS" (decide_targets exact targets none)
      (bar 1 100 101 ∷ later) (opening exact (q 1000)) tt finished.0 finished.1

pub looped : Returns (
    run_bars exact config
      (decide_targets exact targets none)
      "TCS.NS"
      0
      (bar 1 100 101 ∷ later)
      (start exact (opening exact (q 1000)) tt))
looped =
    run_bars-Returns exact exact-IsExact config (decide_targets exact targets none) "TCS.NS" 3
      (decide_targets-Returns exact targets none 3 refl tt) (bar 1 100 101 ∷ later) 0
      (start exact (opening exact (q 1000)) tt) (omega arith) tt

run_bars-Extends_example :
    RunsAlike exact config
      (decide_targets exact targets none)
      "TCS.NS"
      (bar 1 100 101 ∷ [])
      (bar 2 101 102)
      (bar 3 103 104 ∷ [])
      (bar 3 50 60 ∷ [])
      0
      2
      (start exact (opening exact (q 1000)) tt)
      looped.0
run_bars-Extends_example =
    run_bars-Extends exact config (decide_targets exact targets none) "TCS.NS" (bar 1 100 101 ∷ [])
      (bar 2 101 102) (bar 3 103 104) (bar 3 50 60) [] [] 0
      (start exact (opening exact (q 1000)) tt) looped.0 refl looped.1

-- Three returns, of which the second is the best.
abbrev totals : List (String × ℚ)
totals = ("macd", q 3) ∷ ("bollinger", q 7) ∷ ("dual_thrust", q 5) ∷ []

best_of-unbeaten_example :
    (v : ℚ) × StandsIn ("bollinger", v) totals
    × All (λ x. IsAsGoodAs exact exact-IsExact higher x.1 v) totals
unfolding best_of extreme prefers lt
best_of-unbeaten_example = best_of-unbeaten exact exact-IsExact higher totals "bollinger" refl

held-apply_fills_example :
    (apply_fills exact (opening exact (q 1000)) (
      (reference_fill exact config 1 "TCS.NS" buy (q 9) (q 100) (q 101), 0)
      ∷ (reference_fill exact config 9 "TCS.NS" sell (q 9) (q 121) (q 120), 8)
      ∷ [])).cash
    ≡ (held exact config (q 101) (q 120) (q 9)).final_equity
held-apply_fills_example =
    held-apply_fills exact exact-IsExact config "TCS.NS" 1 9 0 8 (q 100) (q 121) (q 101) (q 120)
      (q 9)

from_dict-as_dict-checked_example : Config.from_dict exact (Config.as_dict exact config) ≡ ok config
unfolding Config.checked Costs.checked lt neg
from_dict-as_dict-checked_example = from_dict-as_dict-checked exact config config refl refl
