-- ===== src/Lib.antt =====
-- Quantora's quantitative engine: the backtester under services/quant/backtest, the part of
-- services/quant/strategies that it stands on, the holdings under services/quant/portfolio, and what
-- makes them correct.
--
-- Parts, and the files that model them:
--   Prelude         names of the libraries passed on; native lists, tests and small integers; the
--                   `Result` of code that raises.
--   Float           the floats of the program as a record `Floats` of operations (Float/Defs),
--                   Python's built-ins on them (Float/Ops), the laws of exact arithmetic as a
--                   record `IsExact` (Float/Exact) and what follows from them (Float/Algebra,
--                   Float/Order, Float/Division). Definitions run on any `Floats`; theorems that
--                   speak of amounts say that they are of exact arithmetic.
--   Rational        exact fractions, a quotient, as one such `Floats`, with the proof of its laws.
--   Backtest.Costs  costs.py: `CostModel`, its constructor's checks, prices, commission, persistence.
--   Backtest.Events events.py: market, order, fill and position events.
--   Backtest.Config config.py: the configuration, its checks, the execution models, persistence
--                   (of payloads whose values have the right types).
--   Backtest.Portfolio
--                   portfolio.py: `Portfolio.apply_fill` and its cases `_open`, `_add`, `_close` and
--                   the reversal (Portfolio/Fills), on a dictionary of positions that is an
--                   association list; Closing, Accounting, Ledger, Trades, Netting and Long hold
--                   the proofs.
--   Backtest.Engine engine.py: `_pending_order` and `_execute`; the bar loop `_run_execution`,
--                   `_liquidate` and `simulate_targets` (Engine/Loop); `simulate` with its
--                   decision function (Engine/Simulate). The loop's local variables and its output
--                   are the record `Run`; a decision function is a parameter with a state of its
--                   own, which for `simulate` is `suppressed_direction`. Engine/Invariant has the
--                   rule for invariants of the loop; the other files hold the proofs.
--   Backtest.Compare
--                   compare.py: the metric table and the buy-and-hold reference.
--   Backtest.Metrics
--                   metrics.py: every metric, and `compute` with the reasons of what is undefined; what
--                   it takes of pandas, numpy and `math` is the parameter `Statistics`. Explained,
--                   Drawdown and Runs hold the proofs.
--   Backtest.Runner runner.py: `run_backtest`, the auxiliary series with their cache, and
--                   `run_backtest_for_symbol`; the world that data is fetched from is passed on, and
--                   strategies are a record `Strategies` of what the runner calls.
--   Backtest.Comparison
--                   compare.py: the labels and `compare_strategies` with its failures; Accounted holds
--                   the proofs.
--   Strategies.Base strategies/base.py: directions, contexts and the default sizing rule; a
--                   strategy is a record of the two methods that the engine calls, which may raise.
--   Strategies.Parameters
--                   strategies/base.py: `ParameterSpec.validate`, `Strategy.__init__`, `describe`; a
--                   strategy class is a record of what it declares, with its cross-parameter rule as
--                   a function. Values are those of JSON that are not lists or dictionaries; what
--                   Python reads in a text as a number is the parameter `Reader`.
--   Strategies.Registry
--                   strategies/registry.py: the registry as a dictionary that is passed on.
--   Strategies.Columns
--                   the columns that the strategies compute with, as functions of a row, and the
--                   operations of pandas on them as the parameter `Pandas`, whose documented
--                   behaviour is the hypothesis `IsPandas`.
--   Strategies.Macd strategies/macd.py: the class, its parameters and their rule; Macd/Signals has
--                   the signals, from the columns of the indicator.
--   Strategies.Bollinger, Strategies.DualThrust
--                   strategies/bollinger.py, dual_thrust.py: the signals, from the columns of the
--                   indicator and from the bars; their Causal holds the proofs.
--   Strategies.PairTrading
--                   strategies/pair_trading.py: the second leg, the columns over the timestamps that the
--                   legs share, and the signals; Class has the class and its constructor. Held, Causal,
--                   Common and Extended hold the proofs. `casefold` is a parameter; a reason is
--                   recorded as a fact, with the value that its text shows.
--   Indicators      services/quant/indicators: the averages and the MACD as loops on lists, the rolling
--                   statistics as columns, over the parameter `Rolling`; Continued and Causal hold the
--                   proofs.
--   Data.Universe   services/quant/data/universe.py: the table of instruments and its lookups.
--   Analytics.Scenario
--                   services/quant/portfolio/scenario.py: the checks on a request, the resolved
--                   weights and the list of changes; Scenario/Deltas has `metric_deltas`, with the
--                   table of metrics of risk.py. Resolved, Changes and Deltas/Swap hold the proofs.
--   Analytics.Risk  services/quant/portfolio/risk.py: `load_window` up to the shared sessions, and
--                   `portfolio_return_series`; Selected holds the proofs.
--   Data.Validation services/quant/data/validation.py: the rules on price bars and the report of gaps;
--                   what pandas says of an index and of days is the parameter `Calendar`.
--   Data.Service    services/quant/data/service.py: `get_prices`, with the provider, and what Python and
--                   pandas make of dates, as parameters; Trusted holds the proofs.
--   Analytics.Holdings
--                   services/quant/portfolio/holdings.py: holdings and concentration; Exposure has
--                   `sector_exposure`, Allocation has `Portfolio.value` and `from_weights`; Weights
--                   and Sectors hold the proofs.
--
-- How they interact: at each bar the loop executes the order decided on the bar before (`execute`,
-- which asks the cost model for the price and the portfolio what it can afford), applies the fill to
-- the portfolio, marks to market, and asks the decision function for the position to hold next.
--
-- Choices: a timestamp is a natural number, since the code only compares timestamps. Numbers have
-- no NaN and no infinities, and the two zeros are one. Warnings are recorded as facts, not as
-- text. A signal carries the indicator values of its bar. A configuration is always given. All
-- loops are structural recursion on the list of bars or of fills, so there is no fuel.
--
-- Not modelled: rounding of floats (the definitions take any `Floats`, the theorems on amounts need
-- `IsExact`), logging, dictionaries for JSON other than those of the cost model and the configuration,
-- the wire format of results, the providers of data, the hash of a series, the classes of the Bollinger
-- and Dual Thrust strategies, the bridge to the compiled simulator, `run_scenario`, and of risk the
-- beta, the correlation matrix and the report.
pub mod Prelude
pub mod Float
pub mod Rational
pub mod Data
pub mod Strategies
pub mod Indicators
pub mod Analytics
pub mod Backtest
