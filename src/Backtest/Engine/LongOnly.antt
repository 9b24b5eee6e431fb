-- ===== src/Backtest/Engine/LongOnly.antt =====
-- A run that never decides on a short position never holds one
-- (services/quant/backtest/engine.py), in exact arithmetic.
use quantora.Prelude.{
  ℕ, ◌≡◌, refl, sym, ap, ◌∙◌, subst, true, false, not, Bool-cases, inl, inr, if◌then◌else◌, Option,
  none, some, List, ◌∷◌, String, All, All-snoc, ok, raise_if-ok, >>=-eq-ok, ◌==◌, ok_injective,
}
use quantora.Float.{Floats, IsExact, le, abs, tiny}
use quantora.Float.Algebra.{ring}
use quantora.Float.Order
use quantora.Backtest.Costs
use quantora.Backtest.Config.{BacktestConfig, reference_price}
use quantora.Backtest.Events.{
  Timestamp, buy, sell, sign, OrderEvent, new_order, MarketEvent, PositionEvent,
}
use quantora.Backtest.Portfolio.{PositionState, Portfolio, opening, find, position, quantity}
use quantora.Backtest.Portfolio.Fills.{apply_fill, can_afford, max_affordable_quantity}
use quantora.Backtest.Portfolio.Ledger.{find-store}
use quantora.Backtest.Portfolio.Long.{IsBacked, apply_fill-long}
use quantora.Backtest.Engine.{
  Bar, Executed, Run, DecisionFn, drafted, pending_order, fill_of, constrained, execute,
}
use quantora.Backtest.Engine.Loop.{record_execution, mark, place, run_bars, start}
use quantora.Backtest.Engine.Invariant.{IsKept, run_bars-keeps}

module _ (F : Floats) where
  open F use {Number, num, add as ◌+◌, sub as ◌-◌, mul as ◌*◌, div as ◌/◌, neg, lt}

  infixl 65 ◌+◌ ◌-◌
  infixl 70 ◌*◌ ◌/◌
  -- An order for the symbol, of a positive quantity, that sells no more than is held.
  abbrev pub IsCoveredOrder : String → Number → Option (OrderEvent F) → Type 0
  IsCoveredOrder symbol held none = Unit
  IsCoveredOrder symbol held (some order) =
      (order.symbol ≡ symbol)
      × (lt (num 0) order.quantity ≡ true)
      × IsBacked F held order.side order.quantity

  -- A fill of an order keeps what makes the order covered.
  abbrev IsCoveredFill : OrderEvent F → Executed F → Type 0
  IsCoveredFill order (none, warned) = Unit
  IsCoveredFill order (some fill, warned) =
      (fill.symbol ≡ order.symbol)
      × (fill.side ≡ order.side)
      × (lt (num 0) fill.quantity ≡ true)
      × (order.side ≡ sell → fill.quantity ≡ order.quantity)

  module _ (X : IsExact F) where
    drafted-IsBacked :
        (held target : Number)
        → lt held (num 0) ≡ false
        → lt target (num 0) ≡ false
        → IsBacked F held (if lt (num 0) (target - held) then buy else sell) (abs F (target - held))
    drafted-IsBacked held target k h = elim (Bool-cases (lt (num 0) (target - held))) [
      | inl more ↦ rw more (λ e. cc)
      | inr less ↦ rw less (λ _. elim (Bool-cases (lt (target - held) (num 0))) [
        | inl below ↦
            rw (Order.abs_of_neg F X (target - held) below) (
              simp (ring, X)
                (simp (ring, X) at (Order.add-le F X (num 0) target (held - target) h)))
        | inr equal ↦
            let same : target - held ≡ num 0 = X.lt_total (target - held) (num 0) equal less in
            let zero : abs F (target - held) ≡ num 0 =
              ap (abs F) same ∙ (unfold abs in rw (X.lt_irrefl (num 0)) refl) in
            rw zero k
      ])
    ]

    pending_order-covered :
        (now next : Timestamp) (symbol : String) (held target : Number) (reason : String)
        (order : Option (OrderEvent F))
        → lt held (num 0) ≡ false
        → lt target (num 0) ≡ false
        → pending_order F now next symbol (target - held) reason ≡ ok order
        → IsCoveredOrder symbol held order
    unfolding pending_order new_order drafted
    pending_order-covered now next symbol held target reason order k h e =
        elim (Bool-cases (lt (abs F (target - held)) (tiny F 9))) [
          | inl small ↦ subst (IsCoveredOrder symbol held) (ok_injective (rw small at e)) tt
          | inr big ↦
              let draft = drafted F now next symbol (target - held) reason in
              let (made, f, g) = >>=-eq-ok (new_order F draft) _ (rw big at e) in
              let (_, same) = raise_if-ok (le F draft.quantity (num 0)) _ _ f in
              let above =
                Order.lt_of_lt_of_le F X (num 0) (tiny F 9) (abs F (target - held))
                  (Order.tiny_pos F X 9) big in
              subst (IsCoveredOrder symbol held) (ap some (ok_injective same) ∙ ok_injective g)
                (refl, above, drafted-IsBacked held target k h)
        ]

  constrained-covered :
      (config : BacktestConfig F) (p : Portfolio F) (order : OrderEvent F) (market : MarketEvent F)
      (reference price : Number)
      → lt (num 0) order.quantity ≡ true
      → IsCoveredFill order (constrained F config p order market reference price)
  unfolding constrained fill_of can_afford
  constrained-covered config p order market reference price filled =
      elim (Bool-cases (
        can_afford F p order.side order.quantity price
          (Costs.commission F config.cost_model (order.quantity * price)))) [
            | inl fits ↦ rw fits (refl, refl, filled, λ _. refl)
            | inr exceeds ↦
                elim (Bool-cases (
                  lt (num 0) (
                    max_affordable_quantity F p price
                      (config.cost_model.commission_bps / num 10000)))) [
                        | inl some_units ↦
                            rw (exceeds, some_units)
                              (refl, refl, some_units, λ e. cc (rw e at exceeds))
                        | inr none_left ↦ rw (exceeds, none_left) tt
                      ]
          ]

  execute-covered :
      (order : OrderEvent F) (market : MarketEvent F) (p : Portfolio F) (config : BacktestConfig F)
      (done : Executed F)
      → lt (num 0) order.quantity ≡ true
      → execute F order market p config ≡ ok done
      → IsCoveredFill order done
  unfolding execute
  execute-covered order market p config done filled h =
      let reference = reference_price F config.execution_model market in
      let (_, e) = raise_if-ok (not (order.timestamp == market.timestamp)) _ _ h in
      let (price, _, f) =
        >>=-eq-ok (Costs.fill_price F config.cost_model reference (sign order.side)) _ e in
      subst (IsCoveredFill order) (ok_injective f)
        (constrained-covered config p order market reference price filled)

  module _ {D : Type 0} (config : BacktestConfig F) (decide : DecisionFn F D)
      (symbol : String) where
    -- The position is not short, the pending order does not make it so, and none was logged short.
    abbrev IsLong : Run F D → Type 0
    IsLong s =
        (lt (quantity F symbol s.portfolio) (num 0) ≡ false)
        × IsCoveredOrder symbol (quantity F symbol s.portfolio) s.pending
        × All (λ (e : PositionEvent F). lt e.quantity (num 0) ≡ false) s.positions

    module _ (X : IsExact F) where
      record_execution-IsLong :
          (i : ℕ) (done : Executed F) (order : OrderEvent F) (s : Run F D)
          → IsCoveredOrder symbol (quantity F symbol s.portfolio) (some order)
          → IsCoveredFill order done
          → IsLong s
          → IsLong (record_execution F i done s)
      unfolding record_execution
      record_execution-IsLong i (none, warned) order s o f (a, _, c) = (a, tt, c)
      record_execution-IsLong i (some fill, warned) order s (same, filled, backed)
            (t, side, above, whole) (a, _, c) =
          let here : fill.symbol ≡ symbol = t ∙ same in
          (
            subst (λ k. lt (quantity F k (apply_fill F s.portfolio fill i)) (num 0) ≡ false) here
                (apply_fill-long F X s.portfolio fill i
                  (subst (λ k. lt (quantity F k s.portfolio) (num 0) ≡ false) (sym here) a) above
                  (λ e.
                    subst (λ k. lt (quantity F k s.portfolio) fill.quantity ≡ false) (sym here)
                      (rw (whole (sym side ∙ e)) (backed (sym side ∙ e))))),
            tt,
            c,
          )

      mark-IsLong : (bar : Bar F) (s : Run F D) → IsLong s → IsLong (mark F symbol bar s)
      unfolding mark position quantity
      mark-IsLong bar s (a, b, c) =
          let found = find F symbol s.portfolio.positions in
          let same = sym (find-store F symbol found s.portfolio.positions) in
          (
            subst (λ (t : PositionState F). lt t.quantity (num 0) ≡ false) same a,
            subst (λ (t : PositionState F). IsCoveredOrder symbol t.quantity s.pending) same b,
            All-snoc (λ (e : PositionEvent F). lt e.quantity (num 0) ≡ false) s.positions _ c a,
          )

      place-IsLong :
          (order : Option (OrderEvent F)) (d : D) (s : Run F D)
          → IsCoveredOrder symbol (quantity F symbol s.portfolio) order
          → IsLong s
          → IsLong (place F order d s)
      unfolding place
      place-IsLong none d s o h = h
      place-IsLong (some order) d s o (a, _, c) = (a, o, c)

      module _
          (decides : (d : D) (i : ℕ) (market : MarketEvent F) (value : Number)
              (state : PositionState F) (p : Portfolio F) (decided : (Number × String) × D)
            → decide d i market value state p ≡ ok decided
            → lt state.quantity (num 0) ≡ false
            → lt decided.0.0 (num 0) ≡ false) where
        IsLong-IsKept : IsKept F config decide symbol IsLong
        unfolding position quantity
        IsLong-IsKept = record {
          executes = λ i bar order done s e f h.
              let covered = subst (IsCoveredOrder symbol (quantity F symbol s.portfolio)) e h.1 in
              record_execution-IsLong i done order s covered
                (execute-covered order _ s.portfolio config done covered.1 f) h;
          marks = λ bar s e h. mark-IsLong bar s h;
          decides = λ i bar next s decided order e f g h.
              place-IsLong order decided.1 s
                (pending_order-covered X bar.timestamp next symbol _ decided.0.0 decided.0.1 order
                  h.0 (decides s.decider i _ _ _ s.portfolio decided f h.0) g)
                h;
        }

        -- In exact arithmetic: if a decision on a position that is not short never has a negative
        -- target, then whenever the loop over a frame that is not empty returns, the final position
        -- is not short, and neither is any position that it logged.
        pub run_bars-long :
            (bar : Bar F) (bars : List (Bar F)) (capital : Number) (d : D) (t : Run F D)
            → run_bars F config decide symbol 0 (bar ∷ bars) (start F (opening F capital) d) ≡ ok t
            → (lt (quantity F symbol t.portfolio) (num 0) ≡ false)
              × All (λ (e : PositionEvent F). lt e.quantity (num 0) ≡ false) t.positions
        unfolding quantity find
        run_bars-long bar bars capital d t h =
            let ((a, _, c), _) =
              run_bars-keeps F config decide symbol IsLong IsLong-IsKept bar bars 0
                (start F (opening F capital) d) t h (X.lt_irrefl (num 0), tt, tt) in
            (a, c)
