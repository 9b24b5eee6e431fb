-- ===== src/Backtest/Engine/Totality.antt =====
-- The simulation does not raise: an order always reaches the bar that it was placed for.
use quantora.Prelude.{
  ℕ, suc, ◌+◌, ◌≤◌, ◌<◌, ◌≡◌, refl, true, false, Option, none, some, List, [], ◌∷◌, String, ==_iff,
  length, Result, ok, arith, Bool-cases, inl, inr, Bool, if◌then◌else◌,
}
use quantora.Float.{Floats, IsExact, abs, tiny}
use quantora.Float.Order
use quantora.Backtest.Costs
use quantora.Backtest.Config.{BacktestConfig, reference_price}
use quantora.Backtest.Events.{
  Timestamp, OrderSide, buy, sell, sign, OrderEvent, new_order, MarketEvent,
}
use quantora.Backtest.Portfolio.{PositionState, Portfolio, position, equity, is_flat}
use quantora.Backtest.Engine.{
  Bar, Executed, Run, DecisionFn, market_event, execute, pending_order, constrained, drafted,
}
use quantora.Backtest.Engine.Loop.{
  record_execution, execute_slot, execute_pending, mark, place, decide_next, open_bar, run_bars,
  close_out, close_at, liquidate, closing_fill, last?, run_execution, start,
}

abbrev pub Returns {ℓ} : {A : Type ℓ} → Result A → Type ℓ
Returns {A} r = (a : A) × (r ≡ ok a)

module _ (F : Floats) where
  open F use {Number, num, lt}

  -- A side of an order is a side that the cost model accepts.
  fill_price-Returns :
      (m : Costs.CostModel F) (x : Number) (side : OrderSide)
      → Returns (Costs.fill_price F m x (sign side))
  unfolding Costs.fill_price
  fill_price-Returns m x buy = (_, refl)
  fill_price-Returns m x sell = (_, refl)

  execute-Returns :
      (order : OrderEvent F) (market : MarketEvent F) (p : Portfolio F) (config : BacktestConfig F)
      → order.timestamp ≡ market.timestamp
      → Returns (execute F order market p config)
  unfolding execute
  execute-Returns order market p config e =
      let (price, f) =
        fill_price-Returns config.cost_model (reference_price F config.execution_model market)
          order.side in
      (
        constrained F config p order market (reference_price F config.execution_model market) price,
        rw ((==_iff order.timestamp market.timestamp).1 e, f),
      )

  -- The pending order, if there is one, is scheduled for the time given.
  abbrev pub IsScheduled : Timestamp → Option (OrderEvent F) → Type 0
  IsScheduled time none = Unit
  IsScheduled time (some order) = order.timestamp ≡ time

  module _ (X : IsExact F) where
    pub pending_order-Returns :
        (now next : Timestamp) (symbol : String) (delta : Number) (reason : String)
        → (order : Option (OrderEvent F)) × (pending_order F now next symbol delta reason
            ≡ ok order)
          × IsScheduled next order
    unfolding pending_order new_order drafted
    pending_order-Returns now next symbol delta reason =
        elim (Bool-cases (lt (abs F delta) (tiny F 9))) [
          | inl small ↦ (none, rw small, tt)
          | inr big ↦
              let above =
                Order.lt_of_lt_of_le F X (num 0) (tiny F 9) (abs F delta) (Order.tiny_pos F X 9)
                  big in
              (some (drafted F now next symbol delta reason), rw (big, above), refl)
        ]

  pub record_execution-pending :
      {D : Type 0} (i : ℕ) (done : Executed F) (s : Run F D)
      → (record_execution F i done s).pending ≡ none
  unfolding record_execution
  record_execution-pending i (none, warned) s = refl
  record_execution-pending i (some fill, warned) s = refl

  -- The slot holds nothing, or an order for the first of the bars that are left.
  abbrev pub StartsAt : List (Bar F) → Option (OrderEvent F) → Type 0
  StartsAt [] pending = Unit
  StartsAt (bar ∷ bars) pending = IsScheduled bar.timestamp pending

  pub place-pending :
      {D : Type 0} (order : Option (OrderEvent F)) (d : D) (s : Run F D) (time : Timestamp)
      → s.pending ≡ none
      → IsScheduled time order
      → IsScheduled time (place F order d s).pending
  unfolding place
  place-pending none d s time e h = rw e tt
  place-pending (some order) d s time e h = h

  module _ {D : Type 0} (X : IsExact F) (config : BacktestConfig F) (decide : DecisionFn F D)
      (symbol : String) where
    execute_slot-Returns :
        (i : ℕ) (bar : Bar F) (s : Run F D) (pending : Option (OrderEvent F))
        → s.pending ≡ pending
        → IsScheduled bar.timestamp pending
        → (t : Run F D) × (execute_slot F config symbol i bar s pending ≡ ok t) × (t.pending ≡ none)
    unfolding execute_slot
    execute_slot-Returns i bar s none e h = (s, refl, e)
    execute_slot-Returns i bar s (some order) e h =
        let (done, f) =
          execute-Returns order (market_event F symbol bar) s.portfolio config
            (unfold market_event in h) in
        (record_execution F i done s, rw f, record_execution-pending i done s)

    pub open_bar-Returns :
        (i : ℕ) (bar : Bar F) (s : Run F D)
        → IsScheduled bar.timestamp s.pending
        → (t : Run F D) × (open_bar F config symbol i bar s ≡ ok t) × (t.pending ≡ none)
    unfolding open_bar execute_pending mark
    open_bar-Returns i bar s h =
        let (t, e, f) = execute_slot-Returns i bar s s.pending refl h in
        (mark F symbol bar t, rw e, f)

    module _ (n : ℕ)
        (decides : (d : D) (i : ℕ) (market : MarketEvent F) (value : Number)
            (state : PositionState F) (p : Portfolio F)
          → i < n
          → Returns (decide d i market value state p)) where
      decide_next-Returns :
          (i : ℕ) (bar : Bar F) (next : Timestamp) (s : Run F D)
          → i < n
          → s.pending ≡ none
          → (t : Run F D) × (decide_next F decide symbol i bar next s ≡ ok t)
            × IsScheduled next t.pending
      unfolding decide_next
      decide_next-Returns i bar next s h e =
          let value = equity F s.portfolio ((symbol, bar.close) ∷ []) in
          let state = (position F symbol s.portfolio).0 in
          let (decided, f) =
            decides s.decider i (market_event F symbol bar) value state s.portfolio h in
          let (order, g, k) =
            pending_order-Returns X bar.timestamp next symbol (F.sub decided.0.0 state.quantity)
              decided.0.1 in
          (place F order decided.1 s, rw (f, g), place-pending order decided.1 s next e k)

      pub run_bars-Returns :
          (bars : List (Bar F)) (i : ℕ) (s : Run F D)
          → i + length bars ≤ n
          → StartsAt bars s.pending
          → Returns (run_bars F config decide symbol i bars s)
      unfolding run_bars
      run_bars-Returns [] i s h k = (s, refl)
      run_bars-Returns (bar ∷ []) i s h k = let (t, e, _) = open_bar-Returns i bar s k in (t, e)
      run_bars-Returns (bar ∷ next ∷ bars) i s h k =
          let (t, e, f) = open_bar-Returns i bar s k in
          let (u, g, l) = decide_next-Returns i bar next.timestamp t (omega arith) f in
          let (v, m) = run_bars-Returns (next ∷ bars) (suc i) u (omega arith) l in (v, rw (e, g) m)

  last-some : (bar : Bar F) (bars : List (Bar F)) → (b : Bar F) × (last? (bar ∷ bars) ≡ some b)
  unfolding last?
  last-some bar [] = (bar, refl)
  last-some bar (next ∷ bars) = last-some next bars

  module _ {D : Type 0} (config : BacktestConfig F) (symbol : String) where
    liquidate-Returns :
        (bar : Bar F) (n : ℕ) (s : Run F D) → Returns (liquidate F config symbol bar n s)
    unfolding liquidate closing_fill
    liquidate-Returns bar n s =
        let state = (position F symbol s.portfolio).0 in
        let (price, e) =
          fill_price-Returns config.cost_model bar.close
            (if lt (num 0) state.quantity then sell else buy) in
        elim (Bool-cases (is_flat F state)) [
          | inl flat ↦ rw flat (_, refl)
          | inr held ↦ rw (held, e) (_, refl)
        ]

    close_at-Returns :
        (n : ℕ) (s : Run F D) (last : Option (Bar F)) (bar : Bar F)
        → last ≡ some bar
        → Returns (close_at F config symbol n s last)
    unfolding close_at
    close_at-Returns n s last bar e =
        let (t, f) = liquidate-Returns bar n s in rw e (rw f (_, refl))

    pub close_out-Returns :
        (bar : Bar F) (bars : List (Bar F)) (s : Run F D)
        → Returns (close_out F config symbol (bar ∷ bars) s)
    unfolding close_out
    close_out-Returns bar bars s =
        let (b, e) = last-some bar bars in
        close_at-Returns (length (bar ∷ bars)) s (last? (bar ∷ bars)) b e

  either-Returns :
      {A : Type 0} {r : Result A} (b : Bool) → Returns r → (t : A) → Returns (if b then r else ok t)
  either-Returns true h t = h
  either-Returns false h t = (t, refl)

  -- Decisions that return on every bar of the frame make the whole loop return.
  pub run_execution-Returns :
      {D : Type 0} (X : IsExact F) (config : BacktestConfig F) (decide : DecisionFn F D)
      (symbol : String) (bar : Bar F) (bars : List (Bar F)) (p : Portfolio F) (d : D)
      → ((d : D) (i : ℕ) (market : MarketEvent F) (value : Number) (state : PositionState F)
            (p : Portfolio F)
          → i < length (bar ∷ bars)
          → Returns (decide d i market value state p))
      → Returns (run_execution F config decide symbol (bar ∷ bars) (start F p d))
  unfolding run_execution
  run_execution-Returns X config decide symbol bar bars p d decides =
      let (t, f) =
        run_bars-Returns X config decide symbol (length (bar ∷ bars)) decides (bar ∷ bars) 0
          (start F p d) (omega arith) tt in
      rw f (either-Returns config.liquidate_at_end (close_out-Returns config symbol bar bars t) t)
