-- ===== src/Backtest/Engine/Settlement.antt =====
-- Every order is settled (services/quant/backtest/engine.py).
use quantora.Prelude.{
  ℕ, ◌+◌, ◌≡◌, subst, Bool-cases, inl, inr, not, Option, none, some, List, [], ◌∷◌, ◌++◌, String,
  length, length-append, ok, >>=-eq-ok, raise_if-ok, ◌==◌, arith, ok_injective,
}
use quantora.Float.{Floats}
use quantora.Backtest.Costs
use quantora.Backtest.Config.{BacktestConfig, reference_price}
use quantora.Backtest.Events.{sign, OrderEvent, MarketEvent}
use quantora.Backtest.Portfolio.{Portfolio}
use quantora.Backtest.Portfolio.Fills.{can_afford, max_affordable_quantity}
use quantora.Backtest.Engine.{
  Bar, Warning, skipped_buy, reduced_buy, Executed, Run, DecisionFn, constrained, execute,
}
use quantora.Backtest.Engine.Loop.{record_execution, mark, place, run_bars, start}
use quantora.Backtest.Engine.Invariant.{IsKept, run_bars-keeps}

module _ (F : Floats) where
  -- How many orders the warnings report as skipped.
  abbrev pub skipped : List (Warning F) → ℕ
  skipped [] = 0
  skipped (skipped_buy time symbol wanted price ∷ ws) = 1 + skipped ws
  skipped (reduced_buy time symbol wanted got ∷ ws) = skipped ws

  skipped-append : (xs ys : List (Warning F)) → skipped (xs ++ ys) ≡ skipped xs + skipped ys
  skipped-append [] ys = omega arith
  skipped-append (skipped_buy time symbol wanted price ∷ xs) ys =
      omega (arith, skipped-append xs ys)
  skipped-append (reduced_buy time symbol wanted got ∷ xs) ys = skipped-append xs ys

  abbrev occupied {ℓ} : {A : Type ℓ} → Option A → ℕ
  occupied none = 0
  occupied (some a) = 1

  -- An execution fills the order, or says that it was skipped, and not both.
  constrained-skipped :
      (config : BacktestConfig F) (p : Portfolio F) (order : OrderEvent F) (market : MarketEvent F)
      (reference price : F.Number)
      → let done = constrained F config p order market reference price in
        occupied done.0 + skipped done.1 ≡ 1
  unfolding constrained
  constrained-skipped config p order market reference price =
      elim (Bool-cases (
        can_afford F p order.side order.quantity price
          (Costs.commission F config.cost_model (F.mul order.quantity price)))) [
            | inl fits ↦ rw fits (omega arith)
            | inr exceeds ↦
                elim (Bool-cases (
                  F.lt (F.num 0) (
                    max_affordable_quantity F p price
                      (F.div config.cost_model.commission_bps (F.num 10000))))) [
                        | inl some_units ↦ rw (exceeds, some_units) (omega arith)
                        | inr none_left ↦ rw (exceeds, none_left) (omega arith)
                      ]
          ]

  execute-skipped :
      (order : OrderEvent F) (market : MarketEvent F) (p : Portfolio F) (config : BacktestConfig F)
      (done : Executed F)
      → execute F order market p config ≡ ok done
      → occupied done.0 + skipped done.1 ≡ 1
  unfolding execute
  execute-skipped order market p config done h =
      let reference = reference_price F config.execution_model market in
      let (_, e) = raise_if-ok (not (order.timestamp == market.timestamp)) _ _ h in
      let (price, _, f) =
        >>=-eq-ok (Costs.fill_price F config.cost_model reference (sign order.side)) _ e in
      subst (λ (d : Executed F). occupied d.0 + skipped d.1 ≡ 1) (ok_injective f)
        (constrained-skipped config p order market reference price)

  module _ {D : Type 0} (config : BacktestConfig F) (decide : DecisionFn F D)
      (symbol : String) where
    -- Each order has been filled, has been skipped, or waits in the slot.
    abbrev IsAccounted : Run F D → Type 0
    IsAccounted s = length s.fills + skipped s.warnings + occupied s.pending ≡ length s.orders

    record_execution-IsAccounted :
        (i : ℕ) (done : Executed F) (order : OrderEvent F) (s : Run F D)
        → s.pending ≡ some order
        → occupied done.0 + skipped done.1 ≡ 1
        → IsAccounted s
        → IsAccounted (record_execution F i done s)
    unfolding record_execution
    record_execution-IsAccounted i (none, warned) order s e one h =
        omega (arith, rw e at h, skipped-append s.warnings warned)
    record_execution-IsAccounted i (some fill, warned) order s e one h =
        omega (
          arith,
          rw e at h,
          skipped-append s.warnings warned,
          length-append s.fills ((fill, i) ∷ []),
        )

    place-IsAccounted :
        (order : Option (OrderEvent F)) (d : D) (s : Run F D)
        → s.pending ≡ none
        → IsAccounted s
        → IsAccounted (place F order d s)
    unfolding place
    place-IsAccounted none d s e h = h
    place-IsAccounted (some order) d s e h =
        omega (arith, rw e at h, length-append s.orders (order ∷ []))

    IsAccounted-IsKept : IsKept F config decide symbol IsAccounted
    unfolding mark
    IsAccounted-IsKept = record {
      executes = λ i bar order done s e f h.
          record_execution-IsAccounted i done order s e
            (execute-skipped order _ s.portfolio config done f) h;
      marks = λ bar s e h. h;
      decides = λ i bar next s decided order e _ _ h. place-IsAccounted order decided.1 s e h;
    }

    -- Whenever the loop over a frame that is not empty returns, no order is left pending, and each
    -- order that was placed has either become a fill or been reported as skipped: the fills and the
    -- skipped orders are together as many as the orders.
    pub run_bars-settled :
        (bar : Bar F) (bars : List (Bar F)) (p : Portfolio F) (d : D) (t : Run F D)
        → run_bars F config decide symbol 0 (bar ∷ bars) (start F p d) ≡ ok t
        → (t.pending ≡ none) × (length t.fills + skipped t.warnings ≡ length t.orders)
    run_bars-settled bar bars p d t h =
        let (k, e) =
          run_bars-keeps F config decide symbol IsAccounted IsAccounted-IsKept bar bars 0
            (start F p d) t h (omega arith) in
        (e, omega (arith, rw e at k))
