-- ===== src/Backtest/Comparison.antt =====
-- Several strategies side by side: the labels, the runs with their failures, and the report
-- (services/quant/backtest/compare.py). What `str` makes of a value and of a number is a parameter.
pub mod Accounted
use Prim.Native.String.{◌++◌ as text_append}
use quantora.Prelude.{
  ℕ, suc, if◌then◌else◌, ltb, ◌==◌, Option, none, some, List, [], ◌∷◌, ◌++◌, map, length, String,
  is_empty, put, get, sorted_texts, Result, ok, err, Error, invalid_request, ◌>>=◌,
}
use quantora.Float.{Floats}
use quantora.Backtest.Config.{BacktestConfig}
use quantora.Backtest.Metrics.{Statistics, Metrics}
use quantora.Backtest.Compare.{Entry, Row, BuyAndHold, build_metric_table, buy_and_hold}
use quantora.Backtest.Runner.{MarketData, Strategies, Cache, BacktestRun, run_backtest_for_symbol}
use quantora.Strategies.Parameters.{Value, Parameters}

module _ (F : Floats) where
  open F use {Number, num}

  -- `str(value)`, and `str` of a positive integer
  pub record Texts : Type 0 where
    pub text_of : Option (Value F) → String
    pub numeral : ℕ → String

  pub record StrategySpec : Type 0 where
    pub strategy : String
    pub parameters : Parameters F
    pub label : Option String

  abbrev comma_joined : List String → String
  comma_joined [] = ""
  comma_joined (t ∷ []) = t
  comma_joined (t ∷ u ∷ ts) = text_append t (text_append ", " (comma_joined (u ∷ ts)))

  -- `", ".join(f"{k}={v}" for k, v in sorted(self.parameters.items()))`
  unfoldable pub parameter_detail : Texts → Parameters F → String
  unfolding get sorted_texts
  parameter_detail texts parameters = comma_joined (
      map (λ key. text_append key (text_append "=" (texts.text_of (get key parameters))))
        (sorted_texts (map (λ e. e.0) parameters)))

  -- Without a label, or with one that is empty.
  unfoldable pub described : Texts → StrategySpec → String
  unfolding parameter_detail
  described texts spec = elim spec.parameters [
    | [] ↦ spec.strategy
    | parameter ∷ parameters ↦
        text_append spec.strategy
          (text_append " (" (text_append (parameter_detail texts spec.parameters) ")"))
  ]

  unfoldable pub display_label : Texts → StrategySpec → String
  unfolding described
  display_label texts spec = elim spec.label [
    | none ↦ described texts spec
    | some label ↦ if is_empty label then described texts spec else label
  ]

  -- `seen.get(base, 0)`
  unfoldable pub times_seen : String → List (String × ℕ) → ℕ
  unfolding get
  times_seen base seen = elim (get base seen) [ none ↦ 0 | some count ↦ count ]

  unfoldable pub numbered : Texts → String → ℕ → String
  numbered texts base count =
      if count == 0 then base else text_append base (text_append " #" (texts.numeral (suc count)))

  -- The loop of `_unique_labels`
  unfoldable pub unique_labels : Texts → List StrategySpec → List (String × ℕ) → List String
  unfolding display_label times_seen numbered put
  unique_labels texts [] seen = []
  unique_labels texts (spec ∷ specs) seen =
      let base = display_label texts spec in
      let count = times_seen base seen in
      numbered texts base count ∷ unique_labels texts specs (put base (suc count) seen)

  -- `zip(labels, specs)`
  unfoldable pub labelled : List String → List StrategySpec → List (String × StrategySpec)
  labelled (label ∷ labels) (spec ∷ specs) = (label, spec) ∷ labelled labels specs
  labelled _ _ = []

  pub record Failure : Type 0 where
    pub label : String
    pub strategy : String
    pub parameters : Parameters F
    pub error : Error

  -- The metrics of `as_dict` that the table compares.
  unfoldable pub metric_values : Metrics F → List (String × Option Number)
  metric_values k =
      ("total_return", some k.total_return)
      ∷ ("cagr", k.cagr)
      ∷ ("annualized_volatility", k.annualized_volatility)
      ∷ ("sharpe", k.sharpe)
      ∷ ("sortino", k.sortino)
      ∷ ("max_drawdown", some k.max_drawdown)
      ∷ ("max_drawdown_duration_bars", some (num k.max_drawdown_duration_bars))
      ∷ ("calmar", k.calmar)
      ∷ ("win_rate", k.win_rate)
      ∷ ("profit_factor", k.profit_factor)
      ∷ ("trade_count", some (num k.trade_count))
      ∷ ("winning_trades", some (num k.winning_trades))
      ∷ ("losing_trades", some (num k.losing_trades))
      ∷ ("average_win", k.average_win)
      ∷ ("average_loss", k.average_loss)
      ∷ ("turnover", k.turnover)
      ∷ ("exposure", some k.exposure)
      ∷ ("total_costs", some k.total_costs)
      ∷ ("cost_drag", some k.cost_drag)
      ∷ ("final_equity", some k.final_equity)
      ∷ []

  module _ (O : Strategies F) (S : Statistics Number) where
    -- `runs`
    pub record LabelledRun : Type 0 where
      pub label : String
      pub spec : StrategySpec
      pub run : BacktestRun F O S

    unfoldable pub entry_of : LabelledRun → Entry F
    unfolding metric_values
    entry_of r = record {
      label = r.label;
      metrics = metric_values r.run.metrics;
      unavailable = r.run.metrics.unavailable;
    }

    pub record Comparison : Type 0 where
      pub market : MarketData F
      pub runs : List LabelledRun
      pub metric_table : List (Row F)
      pub equity_curves : List (String × List Number)
      pub benchmark : Option (BuyAndHold F)
      pub failures : List Failure

    unfoldable pub equity_curves_of :
        List LabelledRun → List (String × List Number) → List (String × List Number)
    unfolding put
    equity_curves_of [] curves = curves
    equity_curves_of (r ∷ runs) curves =
        equity_curves_of runs (put r.label r.run.simulation.equity_values curves)

    -- What stands after the loop.
    unfoldable pub comparison_of :
        BacktestConfig F → MarketData F → List LabelledRun → List Failure → Result Comparison
    unfolding build_metric_table entry_of equity_curves_of buy_and_hold
    comparison_of config market [] failures = err (invalid_request "specs")
    comparison_of config market (r ∷ runs) failures = do
      benchmark ← buy_and_hold F market.frame config
      ok (record {
        market = market;
        runs = r ∷ runs;
        metric_table = build_metric_table F (map entry_of (r ∷ runs));
        equity_curves = equity_curves_of (r ∷ runs) [];
        benchmark = benchmark;
        failures = failures;
      })

    abbrev failure_of : String → StrategySpec → Error → Failure
    failure_of label spec e = record {
      label = label;
      strategy = spec.strategy;
      parameters = spec.parameters;
      error = e;
    }

    module _ {World : Type 0} (fetch : World → String → Result (MarketData F) × World) where
      -- The loop over the specifications.
      unfoldable pub run_specs :
          BacktestConfig F
          → String
          → MarketData F
          → List (String × StrategySpec)
          → List LabelledRun
          → List Failure
          → Cache F
          → World
          → List LabelledRun × List Failure × World
      unfolding run_backtest_for_symbol
      run_specs config symbol market [] runs failures cache world = (runs, failures, world)
      run_specs config symbol market ((label, spec) ∷ specs) runs failures cache world =
          let (run, cache', world') =
            run_backtest_for_symbol F O S fetch symbol spec.strategy spec.parameters config
              (some market) cache world in
          elim run [
            | err e ↦
                run_specs config symbol market specs runs
                  (failures ++ (failure_of label spec e ∷ [])) cache' world'
            | ok r ↦
                run_specs config symbol market specs
                  (runs ++ (record { label = label; spec = spec; run = r } ∷ [])) failures cache'
                  world'
          ]

      -- What `compare_strategies` does once it has its data.
      unfoldable pub compared :
          Texts
          → BacktestConfig F
          → String
          → List StrategySpec
          → MarketData F
          → World
          → Result Comparison × World
      unfolding unique_labels labelled run_specs comparison_of
      compared texts config symbol specs market world =
          let (runs, failures, world') =
            run_specs config symbol market (labelled (unique_labels texts specs []) specs) [] []
              (some []) world in
          (comparison_of config market runs failures, world')

      unfoldable pub compare_strategies :
          Texts → BacktestConfig F → String → List StrategySpec → World → Result Comparison × World
      unfolding compared
      compare_strategies texts config symbol specs world =
          if ltb (length specs) 2
          then (err (invalid_request "specs"), world)
          else (let (found, world') = fetch world symbol in
              elim found [
                | err e ↦ (err e, world')
                | ok market ↦ compared texts config symbol specs market world'
              ])
