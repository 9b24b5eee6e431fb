-- ===== src/Backtest/Engine/Invariant.antt =====
-- The rule for invariants of the bar loop (services/quant/backtest/engine.py): what the execution of
-- an order, the marking of a bar and a decision preserve, the loop preserves.
use quantora.Prelude.{
  ℕ, suc, ◌≡◌, refl, subst, Option, none, some, List, [], ◌∷◌, String, ok, >>=-eq-ok, ok_injective,
}
use quantora.Float.{Floats}
use quantora.Backtest.Config.{BacktestConfig}
use quantora.Backtest.Events.{Timestamp, OrderEvent}
use quantora.Backtest.Portfolio.{position, equity}
use quantora.Backtest.Engine.{Bar, Executed, Run, DecisionFn, market_event, execute, pending_order}
use quantora.Backtest.Engine.Loop.{
  record_execution, execute_slot, execute_pending, mark, place, decide_next, open_bar, run_bars,
}
use quantora.Backtest.Engine.Totality.{record_execution-pending}

module _ (F : Floats) {D : Type 0} (config : BacktestConfig F) (decide : DecisionFn F D)
    (symbol : String) (P : Run F D → Type 0) where
  open F use {sub}

  -- What an invariant has to satisfy. A decision is taken when no order is pending.
  pub record IsKept : Type 0 where
    pub executes :
        (i : ℕ) (bar : Bar F) (order : OrderEvent F) (done : Executed F) (s : Run F D)
        → s.pending ≡ some order
        → execute F order (market_event F symbol bar) s.portfolio config ≡ ok done
        → P s
        → P (record_execution F i done s)
    pub marks : (bar : Bar F) (s : Run F D) → s.pending ≡ none → P s → P (mark F symbol bar s)
    pub decides :
        (i : ℕ) (bar : Bar F) (next : Timestamp) (s : Run F D) (decided : (F.Number × String) × D)
        (order : Option (OrderEvent F))
        → s.pending ≡ none
        → decide s.decider i
            (market_event F symbol bar)
            (equity F s.portfolio ((symbol, bar.close) ∷ []))
            (position F symbol s.portfolio).0
            s.portfolio
          ≡ ok decided
        → pending_order F bar.timestamp next symbol
            (sub decided.0.0 (position F symbol s.portfolio).0.quantity)
            decided.0.1
          ≡ ok order
        → P s
        → P (place F order decided.1 s)

  module _ (K : IsKept) where
    execute_slot-keeps :
        (i : ℕ) (bar : Bar F) (s t : Run F D) (pending : Option (OrderEvent F))
        → s.pending ≡ pending
        → execute_slot F config symbol i bar s pending ≡ ok t
        → P s
        → P t × (t.pending ≡ none)
    unfolding execute_slot
    execute_slot-keeps i bar s t none e h p =
        subst (λ u. P u × (u.pending ≡ none)) (ok_injective h) (p, e)
    execute_slot-keeps i bar s t (some order) e h p =
        let (done, f, g) =
          >>=-eq-ok (execute F order (market_event F symbol bar) s.portfolio config) _ h in
        subst (λ u. P u × (u.pending ≡ none)) (ok_injective g)
          (K.executes i bar order done s e f p, record_execution-pending F i done s)

    pub open_bar-keeps :
        (i : ℕ) (bar : Bar F) (s t : Run F D)
        → open_bar F config symbol i bar s ≡ ok t
        → P s
        → P t × (t.pending ≡ none)
    unfolding open_bar execute_pending mark
    open_bar-keeps i bar s t h p =
        let (u, e, f) = >>=-eq-ok (execute_pending F config symbol i bar s) _ h in
        let (q, n) = execute_slot-keeps i bar s u s.pending refl e p in
        subst (λ u. P u × (u.pending ≡ none)) (ok_injective f) (K.marks bar u n q, n)

    decide_next-keeps :
        (i : ℕ) (bar : Bar F) (next : Timestamp) (s t : Run F D)
        → s.pending ≡ none
        → decide_next F decide symbol i bar next s ≡ ok t
        → P s
        → P t
    unfolding decide_next
    decide_next-keeps i bar next s t n h p =
        let (decided, d, e) = >>=-eq-ok (decide _ i _ _ _ _) _ h in
        let (order, o, f) = >>=-eq-ok (pending_order F _ next symbol _ _) _ e in
        subst P (ok_injective f) (K.decides i bar next s decided order n d o p)

    -- Over a frame that is not empty the loop keeps the invariant, and ends with no order pending.
    pub run_bars-keeps :
        (bar : Bar F) (bars : List (Bar F)) (i : ℕ) (s t : Run F D)
        → run_bars F config decide symbol i (bar ∷ bars) s ≡ ok t
        → P s
        → P t × (t.pending ≡ none)
    unfolding run_bars
    run_bars-keeps bar [] i s t h p = open_bar-keeps i bar s t h p
    run_bars-keeps bar (next ∷ bars) i s t h p =
        let (u, e, f) = >>=-eq-ok (open_bar F config symbol i bar s) _ h in
        let (v, g, k) = >>=-eq-ok (decide_next F decide symbol i bar next.timestamp u) _ f in
        let (q, n) = open_bar-keeps i bar s u e p in
        run_bars-keeps next bars (suc i) v t k (decide_next-keeps i bar next.timestamp u v n g q)
