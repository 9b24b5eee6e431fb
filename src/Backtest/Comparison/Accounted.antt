-- ===== src/Backtest/Comparison/Accounted.antt =====
-- No strategy is lost in a comparison, and all see the same bars (services/quant/backtest/compare.py,
-- runner.py).
use quantora.Prelude.{
  ℕ, ◌<◌, ◌≤◌, invalid_request, ◌≡◌, ◌≢◌, ◌⊎◌, arith, refl, sym, ap, ap₂, ◌∙◌, ltb, Bool-cases, inl,
  inr, some, List, [], ◌∷◌, ◌++◌, append-nil, append_assoc, map, length, String, Result, ok, err,
  Error, ◌>>=◌, >>=-eq-ok, ok_injective, subst,
}
use quantora.Float.{Floats}
use quantora.Backtest.Config.{BacktestConfig}
use quantora.Backtest.Metrics.{Statistics}
use quantora.Backtest.Engine.Simulate.{simulate}
use quantora.Backtest.Compare.{buy_and_hold}
use quantora.Backtest.Runner.{
  MarketData, Strategies, Cache, BacktestRun, run_backtest, run_on, resolve_auxiliary_series,
  run_backtest_for_symbol, market_data_of,
}
use quantora.Backtest.Comparison.{
  Texts, StrategySpec, unique_labels, labelled, Failure, LabelledRun, Comparison, comparison_of,
  failure_of, run_specs, compared, compare_strategies,
}
use quantora.Strategies.Parameters.{Parameters}

Result-cases {ℓ} :
    {V : Type ℓ} (r : Result V) → ((e : Error) × (r ≡ err e)) ⊎ ((v : V) × (r ≡ ok v))
Result-cases (err e) = inl (e, refl)
Result-cases (ok v) = inr (v, refl)

module _ (F : Floats) where
  open F use {Number}

  labelled-specs :
      (texts : Texts F) (specs : List (StrategySpec F)) (seen : List (String × ℕ))
      → map (λ e. e.1) (labelled F (unique_labels F texts specs seen) specs) ≡ specs
  unfolding labelled unique_labels
  labelled-specs texts [] seen = refl
  labelled-specs texts (spec ∷ specs) seen = ap (λ t. spec ∷ t) (labelled-specs texts specs _)

  module _ (O : Strategies F) (S : Statistics Number) where
    run_backtest-market :
        (market : MarketData F) (strategy : O.Instance) (config : BacktestConfig F)
        (r : BacktestRun F O S)
        → run_backtest F O S market strategy config ≡ ok r
        → r.market ≡ market
    unfolding run_backtest
    run_backtest-market market strategy config r h =
        let (signals, made, h₁) = >>=-eq-ok (O.generate_signals strategy market) _ h in
        let (simulation, simulated, h₂) =
          >>=-eq-ok (simulate F market.symbol market.frame (O.contract strategy) signals config) _
            h₁ in
        sym (ap (λ r. r.market) (ok_injective h₂))

    module _ {World : Type 0} (fetch : World → String → Result (MarketData F) × World) where
      run_on-created :
          (symbol strategy_name : String) (parameters : Parameters F) (config : BacktestConfig F)
          (market : MarketData F) (cache : Cache F) (world : World) (strategy : O.Instance)
          → O.create strategy_name parameters ≡ ok strategy
          → (run_on F O S fetch symbol strategy_name parameters config market cache world).0 ≡ (
              (resolve_auxiliary_series F O S fetch symbol
                (O.auxiliary_symbols strategy)
                strategy
                cache
                world).0
              >>= (λ attached. run_backtest F O S market attached config))
      unfolding run_on
      run_on-created symbol strategy_name parameters config market cache world strategy created =
          rw (created, run_on) refl

      run_on-market :
          (symbol strategy_name : String) (parameters : Parameters F) (config : BacktestConfig F)
          (market : MarketData F) (cache : Cache F) (world : World) (r : BacktestRun F O S)
          → (run_on F O S fetch symbol strategy_name parameters config market cache world).0 ≡ ok r
          → r.market ≡ market
      unfolding run_on
      run_on-market symbol strategy_name parameters config market cache world r h =
          elim (Result-cases (O.create strategy_name parameters)) [
            | inl (e, failed) ↦ absurd cc (rw (failed, run_on) at h)
            | inr (strategy, created) ↦
                let (attached, resolved, ran) =
                  >>=-eq-ok
                    (resolve_auxiliary_series F O S fetch symbol (O.auxiliary_symbols strategy)
                      strategy cache world).0
                    (λ attached. run_backtest F O S market attached config)
                    (sym (
                        run_on-created symbol strategy_name parameters config market cache world
                          strategy created)
                      ∙ h) in
                run_backtest-market market attached config r ran
          ]

      -- What the run of a specification on these bars gives, with the cache and the world after it.
      abbrev ran_on :
          BacktestConfig F
          → String
          → MarketData F
          → StrategySpec F
          → Cache F
          → World
          → Result (BacktestRun F O S) × Cache F × World
      ran_on config symbol market spec cache world =
          run_on F O S fetch symbol spec.strategy spec.parameters config market cache world

      -- Each specification, in order, has given the next run, which is on these bars, or has raised the
      -- error of the next failure, from the cache and the world that the one before has left.
      abbrev pub IsAccounted :
          BacktestConfig F
          → String
          → MarketData F
          → List (String × StrategySpec F)
          → Cache F
          → World
          → List (LabelledRun F O S)
          → List (Failure F)
          → Type 0
      IsAccounted config symbol market [] cache world runs failures = (runs ≡ []) × (failures ≡ [])
      IsAccounted config symbol market ((label, spec) ∷ specs) cache world runs failures =
          let (ran, cache', world') = ran_on config symbol market spec cache world in
          ((r : BacktestRun F O S) × (others : List (LabelledRun F O S)) × (ran ≡ ok r)
            × (r.market ≡ market)
            × (runs ≡ record { label = label; spec = spec; run = r } ∷ others)
            × IsAccounted config symbol market specs cache' world' others failures)
          ⊎ ((e : Error) × (others : List (Failure F)) × (ran ≡ err e)
              × (failures
                  ≡ record {
                    label = label;
                    strategy = spec.strategy;
                    parameters = spec.parameters;
                    error = e;
                  }
                    ∷ others)
              × IsAccounted config symbol market specs cache' world' runs others)

      -- A turn of the loop, by what its run has given.
      run_specs-failed :
          (config : BacktestConfig F) (symbol : String) (market : MarketData F) (label : String)
          (spec : StrategySpec F) (specs : List (String × StrategySpec F))
          (runs : List (LabelledRun F O S)) (failures : List (Failure F)) (cache : Cache F)
          (world : World) (e : Error)
          → (run_on F O S fetch symbol spec.strategy spec.parameters config market cache world).0
            ≡ err e
          → run_specs F O S fetch config symbol market
              ((label, spec) ∷ specs)
              runs
              failures
              cache
              world
            ≡ run_specs F O S fetch config symbol market specs runs
                (failures ++ (failure_of F O S label spec e ∷ []))
                (ran_on config symbol market spec cache world).1
                (ran_on config symbol market spec cache world).2
      unfolding run_specs run_backtest_for_symbol market_data_of
      run_specs-failed config symbol market label spec specs runs failures cache world e failed =
          rw (failed, run_specs, run_backtest_for_symbol, market_data_of) refl

      run_specs-ran :
          (config : BacktestConfig F) (symbol : String) (market : MarketData F) (label : String)
          (spec : StrategySpec F) (specs : List (String × StrategySpec F))
          (runs : List (LabelledRun F O S)) (failures : List (Failure F)) (cache : Cache F)
          (world : World) (r : BacktestRun F O S)
          → (run_on F O S fetch symbol spec.strategy spec.parameters config market cache world).0
            ≡ ok r
          → run_specs F O S fetch config symbol market
              ((label, spec) ∷ specs)
              runs
              failures
              cache
              world
            ≡ run_specs F O S fetch config symbol market specs
                (runs ++ (record { label = label; spec = spec; run = r } ∷ []))
                failures
                (ran_on config symbol market spec cache world).1
                (ran_on config symbol market spec cache world).2
      unfolding run_specs run_backtest_for_symbol market_data_of
      run_specs-ran config symbol market label spec specs runs failures cache world r returned =
          rw (returned, run_specs, run_backtest_for_symbol, market_data_of) refl

      run_specs-IsAccounted :
          (config : BacktestConfig F) (symbol : String) (market : MarketData F)
          (specs : List (String × StrategySpec F)) (runs : List (LabelledRun F O S))
          (failures : List (Failure F)) (cache : Cache F) (world : World)
          → (new : List (LabelledRun F O S)) × (lost : List (Failure F)) × (after : World)
            × (run_specs F O S fetch config symbol market specs runs failures cache world
                ≡ (runs ++ new, failures ++ lost, after))
            × IsAccounted config symbol market specs cache world new lost
      unfolding run_specs run_backtest_for_symbol market_data_of
      run_specs-IsAccounted config symbol market [] runs failures cache world = (
        [],
        [],
        world,
        ap₂ (λ r f. (r, f, world)) (sym (append-nil runs)) (sym (append-nil failures)),
        (refl, refl),
      )
      run_specs-IsAccounted config symbol market ((label, spec) ∷ specs) runs failures cache world =
          let next = ran_on config symbol market spec cache world in
          elim (Result-cases next.0) [
            | inl (e, failed) ↦
                let step =
                  run_specs-failed config symbol market label spec specs runs failures cache world e
                    failed in
                let (new, lost, last, rest, accounted) =
                  run_specs-IsAccounted config symbol market specs runs
                    (failures ++ (failure_of F O S label spec e ∷ [])) next.1 next.2 in
                (
                  new,
                  failure_of F O S label spec e ∷ lost,
                  last,
                  step ∙ rest ∙ ap (λ f. (runs ++ new, f, last)) (append_assoc failures _ lost),
                  inr (e, lost, failed, refl, accounted),
                )
            | inr (r, returned) ↦
                let step =
                  run_specs-ran config symbol market label spec specs runs failures cache world r
                    returned in
                let (new, lost, last, rest, accounted) =
                  run_specs-IsAccounted config symbol market specs
                    (runs ++ (record { label = label; spec = spec; run = r } ∷ [])) failures next.1
                    next.2 in
                (
                  record { label = label; spec = spec; run = r } ∷ new,
                  lost,
                  last,
                  step ∙ rest ∙ ap (λ f. (f, failures ++ lost, last)) (append_assoc runs _ new),
                  inl (
                    r,
                    new,
                    returned,
                    run_on-market symbol spec.strategy spec.parameters config market cache world r
                        returned,
                    refl,
                    accounted,
                  ),
                )
          ]

      -- The runs and the failures account for all specifications, with a new cache, in the world that the
      -- fetch of the bars has left.
      abbrev AccountFor :
          Texts F
          → BacktestConfig F
          → String
          → List (StrategySpec F)
          → World
          → MarketData F
          → List (LabelledRun F O S)
          → List (Failure F)
          → Type 0
      AccountFor texts config symbol specs world market runs failures =
          IsAccounted config symbol market (labelled F (unique_labels F texts specs []) specs)
            (some []) (fetch world symbol).1 runs failures

      -- What a comparison tells: the error is that of fewer than two specifications, of the fetch, of
      -- specifications that all have failed, or of a reference that cannot be priced although one has run;
      -- what it returns accounts for each specification on the bars that were fetched, and has a run.
      abbrev pub IsReported :
          Texts F
          → BacktestConfig F
          → String
          → List (StrategySpec F)
          → World
          → Result (Comparison F O S)
          → Type 0
      IsReported texts config symbol specs world (err e) =
          ((length specs < 2) × (e ≡ invalid_request "specs"))
          ⊎ ((2 ≤ length specs)
              × (((fetch world symbol).0 ≡ err e)
                  ⊎ ((market : MarketData F) × (runs : List (LabelledRun F O S)) × (failures : List
                        (Failure F))
                      × ((fetch world symbol).0 ≡ ok market)
                      × AccountFor texts config symbol specs world market runs failures
                      × (((runs ≡ []) × (e ≡ invalid_request "specs"))
                          ⊎ ((runs ≢ []) × (buy_and_hold F market.frame config ≡ err e))))))
      IsReported texts config symbol specs world (ok c) =
          (2 ≤ length specs)
          × ((fetch world symbol).0 ≡ ok c.market)
          × (map (λ e. e.1) (labelled F (unique_labels F texts specs []) specs) ≡ specs)
          × AccountFor texts config symbol specs world c.market c.runs c.failures
          × (c.runs ≢ [])

      comparison_of-IsReported :
          (texts : Texts F) (config : BacktestConfig F) (symbol : String)
          (specs : List (StrategySpec F)) (world : World) (market : MarketData F)
          (runs : List (LabelledRun F O S)) (failures : List (Failure F))
          → 2 ≤ length specs
          → (fetch world symbol).0 ≡ ok market
          → AccountFor texts config symbol specs world market runs failures
          → IsReported texts config symbol specs world
              (comparison_of F O S config market runs failures)
      unfolding comparison_of
      comparison_of-IsReported texts config symbol specs world market [] failures enough found
            accounted =
          inr (enough, inr (market, [], failures, found, accounted, inl (refl, refl)))
      comparison_of-IsReported texts config symbol specs world market (r ∷ runs) failures enough
            found accounted =
          elim (Result-cases (buy_and_hold F market.frame config)) [
            | inl (e, raised) ↦
                rw (raised, comparison_of)
                  (inr (
                    enough,
                    inr (
                      market,
                      r ∷ runs,
                      failures,
                      found,
                      accounted,
                      inr (λ none_ran. cc, raised),
                    ),
                  ))
            | inr (b, priced) ↦
                rw (priced, comparison_of)
                  (enough, found, labelled-specs texts specs [], accounted, λ none_ran. cc)
          ]

      compared-IsReported :
          (texts : Texts F) (config : BacktestConfig F) (symbol : String)
          (specs : List (StrategySpec F)) (world : World) (market : MarketData F)
          → 2 ≤ length specs
          → (fetch world symbol).0 ≡ ok market
          → IsReported texts config symbol specs world
              (compared F O S fetch texts config symbol specs market (fetch world symbol).1).0
      unfolding compared
      compared-IsReported texts config symbol specs world market enough found =
          let specifications = labelled F (unique_labels F texts specs []) specs in
          let (new, lost, last, e, accounted) =
            run_specs-IsAccounted config symbol market specifications [] [] (some [])
              (fetch world symbol).1 in
          rw (e, compared)
            (comparison_of-IsReported texts config symbol specs world market new lost enough found
              accounted)

      -- Whatever the strategies and the data do: when the comparison returns, there are at least two
      -- specifications, the bars are those that were fetched, and its runs and failures, in order, are
      -- what each specification gave on these bars, a run or the error that it raised, the cache and the
      -- world passed from one to the next; at least one has run. When it raises, it is the error for
      -- fewer than two specifications, that of the fetch, the error for specifications that have all
      -- raised, or, where one has run, that of the reference.
      pub compare_strategies-IsReported :
          (texts : Texts F) (config : BacktestConfig F) (symbol : String)
          (specs : List (StrategySpec F)) (world : World)
          → IsReported texts config symbol specs world
              (compare_strategies F O S fetch texts config symbol specs world).0
      unfolding compare_strategies
      compare_strategies-IsReported texts config symbol specs world =
          elim (Bool-cases (ltb (length specs) 2)) [
            | inl few ↦ rw (few, compare_strategies) (inl (ground arith, refl))
            | inr enough ↦ elim (Result-cases (fetch world symbol).0) [
              | inl (e, failed) ↦
                  let raised : (compare_strategies F O S fetch texts config symbol specs world).0
                      ≡ err e =
                    rw (enough, failed, compare_strategies) refl in
                  subst (IsReported texts config symbol specs world) (sym raised)
                    (inr (ground arith, inl failed))
              | inr (market, found) ↦
                  let after = (fetch world symbol).1 in
                  let went_on : (compare_strategies F O S fetch texts config symbol specs world).0
                      ≡ (compared F O S fetch texts config symbol specs market after).0 =
                    rw (enough, found, compare_strategies) refl in
                  subst (IsReported texts config symbol specs world) (sym went_on) (
                    compared-IsReported texts config symbol specs world market (ground arith) found)
            ]
          ]
