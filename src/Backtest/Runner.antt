-- ===== src/Backtest/Runner.antt =====
-- One backtest, from the data to the metrics (services/quant/backtest/runner.py). The world that data
-- is fetched from is passed on: `fetch` is `get_prices` over the window and interval of the request.
use quantora.Prelude.{
  true, false, Option, none, some, List, [], ◌∷◌, String, same_text, put, get, Result, ok, err,
  invalid_request, ◌>>=◌,
}
use mathlib.Core.Option
use quantora.Float.{Floats}
use quantora.Data.Validation.{QualityReport}
use quantora.Backtest.Config.{BacktestConfig, periods_per_year}
use quantora.Backtest.Engine.{Bar, Run}
use quantora.Backtest.Engine.Simulate.{Signal, simulate}
use quantora.Backtest.Metrics.{Statistics, Arguments, Metrics, compute}
use quantora.Strategies.Base.{SignalDirection, Strategy}
use quantora.Strategies.Parameters.{Parameters}

module _ (F : Floats) where
  open F use {Number, add as ◌+◌}

  infixl 65 ◌+◌
  -- `MarketDataResult`
  pub record MarketData : Type 0 where
    pub symbol : String
    pub interval : String
    pub frame : List (Bar F)
    pub quality : QualityReport

  -- What the runner calls of the registry and of a strategy.
  pub record Strategies : Type 1 where
    pub Instance : Type 0
    pub create : String → Parameters F → Result Instance
    pub contract : Instance → Strategy F
    pub auxiliary_symbols : Instance → List String
    pub attach_auxiliary_series : Instance → MarketData → Result Instance
    pub generate_signals : Instance → MarketData → Result (List (Signal F))

  -- The auxiliary cache, which a caller may leave out.
  abbrev pub Cache : Type 0
  Cache = Option (List (String × MarketData))

  unfoldable pub cached : Cache → String → Option MarketData
  unfolding get
  cached none symbol = none
  cached (some entries) symbol = get symbol entries

  unfoldable pub with_entry : String → MarketData → Cache → Cache
  unfolding put
  with_entry symbol market cache = Option.map (put symbol market) cache

  module _ (O : Strategies) (S : Statistics Number) where
    pub record BacktestRun : Type 0 where
      pub strategy : O.Instance
      pub market : MarketData
      pub signals : List (Signal F)
      pub simulation : Run F (Option SignalDirection)
      pub metrics : Metrics F
      pub config : BacktestConfig F

    -- The arguments of `compute`
    unfoldable pub arguments_of :
        MarketData → BacktestConfig F → Run F (Option SignalDirection) → Arguments F S
    unfolding periods_per_year
    arguments_of market config simulation =
        let p = simulation.portfolio in
        record {
          equity = simulation.equity_values;
          trades = p.trades;
          periods_per_year = periods_per_year F market.interval;
          risk_free_rate = config.risk_free_rate;
          initial_cash = config.initial_cash;
          total_costs = p.total_commission + p.total_slippage;
          traded_notional = p.total_traded_notional;
          exposure = some simulation.exposure_values;
        }

    unfoldable pub run_backtest : MarketData → O.Instance → BacktestConfig F → Result BacktestRun
    unfolding simulate compute arguments_of
    run_backtest market strategy config = do
      signals ← O.generate_signals strategy market
      simulation ← simulate F market.symbol market.frame (O.contract strategy) signals config
      ok (record {
        strategy = strategy;
        market = market;
        signals = signals;
        simulation = simulation;
        metrics = compute F S (arguments_of market config simulation);
        config = config;
      })

    module _ {World : Type 0} (fetch : World → String → Result MarketData × World) where
      -- What a call returns or raises, with the cache and the world that it leaves.
      abbrev pub Outcome : Type 0 → Type 0
      Outcome A = Result A × Cache × World

      unfoldable pub fetched : String → Cache → Result MarketData × World → Outcome MarketData
      unfolding with_entry
      fetched symbol cache (err e, world) = (err e, cache, world)
      fetched symbol cache (ok market, world) = (ok market, with_entry symbol market cache, world)

      unfoldable pub obtain : String → Cache → World → Outcome MarketData
      unfolding cached fetched
      obtain symbol cache world = elim (cached cache symbol) [
        | some market ↦ (ok market, cache, world)
        | none ↦ fetched symbol cache (fetch world symbol)
      ]

      -- The loop of `resolve_auxiliary_series`, which returns the strategy with its series.
      unfoldable pub resolve_auxiliary_series :
          String → List String → O.Instance → Cache → World → Outcome O.Instance
      unfolding obtain
      resolve_auxiliary_series primary [] strategy cache world = (ok strategy, cache, world)
      resolve_auxiliary_series primary (symbol ∷ symbols) strategy cache world =
          elim (same_text symbol primary) [
            | true ↦ (err (invalid_request symbol), cache, world)
            | false ↦
                let (market, cache', world') = obtain symbol cache world in
                elim (market >>= O.attach_auxiliary_series strategy) [
                  | err e ↦ (err e, cache', world')
                  | ok attached ↦ resolve_auxiliary_series primary symbols attached cache' world'
                ]
          ]

      -- `market_data or get_prices(...)`
      unfoldable pub market_data_of : String → Option MarketData → World → Result MarketData × World
      market_data_of symbol (some market) world = (ok market, world)
      market_data_of symbol none world = fetch world symbol

      -- What `run_backtest_for_symbol` does once it has its data.
      unfoldable pub run_on :
          String
          → String
          → Parameters F
          → BacktestConfig F
          → MarketData
          → Cache
          → World
          → Outcome BacktestRun
      unfolding resolve_auxiliary_series run_backtest
      run_on symbol strategy_name parameters config market cache world =
          elim (O.create strategy_name parameters) [
            | err e ↦ (err e, cache, world)
            | ok strategy ↦
                let (resolved, cache', world') =
                  resolve_auxiliary_series symbol (O.auxiliary_symbols strategy) strategy cache
                    world in
                (resolved >>= (λ attached. run_backtest market attached config), cache', world')
          ]

      unfoldable pub run_backtest_for_symbol :
          String
          → String
          → Parameters F
          → BacktestConfig F
          → Option MarketData
          → Cache
          → World
          → Outcome BacktestRun
      unfolding market_data_of run_on
      run_backtest_for_symbol symbol strategy_name parameters config market_data cache world =
          let (found, world') = market_data_of symbol market_data world in
          elim found [
            | err e ↦ (err e, cache, world')
            | ok market ↦ run_on symbol strategy_name parameters config market cache world'
          ]
