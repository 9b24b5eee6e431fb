-- ===== src/Backtest/Engine/Signals.antt =====
-- What a simulation of signals raises (services/quant/backtest/engine.py).
use quantora.Prelude.{
  ℕ, suc, ◌+◌, ◌<◌, ◌≡◌, ◌⊎◌, refl, sym, ap, ◌∙◌, subst, true, false, not, ◌&&◌, Bool-cases,
  Option-cases, inl, inr, Option, none, List, [], ◌∷◌, ◌++◌, String, length, arith, Result, ok, err,
  Error, zero_division, ◌>>=◌,
}
use quantora.Float.{Floats, IsExact, abs, truthy}
use quantora.Backtest.Config.{BacktestConfig}
use quantora.Backtest.Events.{Timestamp, MarketEvent}
use quantora.Backtest.Portfolio.{PositionState, Portfolio, opening, equity, position, is_flat}
use quantora.Backtest.Engine.{Bar, Run, DecisionFn, market_event}
use quantora.Backtest.Engine.Loop.{place, decide_next, open_bar, run_bars, run_execution, start}
use quantora.Backtest.Engine.Simulate.{
  Signal, direction_of, unrealized_return, exit_context, exit_taken, sizing_context, permitted,
  suppress, signal_target, decide_signals, same_index, simulate,
}
use quantora.Backtest.Engine.Totality.{
  IsScheduled, StartsAt, pending_order-Returns, place-pending, open_bar-Returns, close_out-Returns,
}
use quantora.Backtest.Engine.Targets.{index-Returns, new_portfolio-opening, not_empty}
use quantora.Strategies.Base.{SignalDirection, same_direction, SizingContext, ExitContext, Strategy}

Result-cases {ℓ} :
    {V : Type ℓ} (r : Result V) → ((e : Error) × (r ≡ err e)) ⊎ ((v : V) × (r ≡ ok v))
Result-cases (err e) = inl (e, refl)
Result-cases (ok v) = inr (v, refl)

-- What raises in two steps raises in one of them.
>>=-eq-err {ℓ κ} :
    {V : Type ℓ} {W : Type κ} (first : Result V) (next : V → Result W) {e : Error}
    → (first >>= next) ≡ err e
    → (first ≡ err e) ⊎ ((v : V) × (first ≡ ok v) × (next v ≡ err e))
>>=-eq-err (err raised) next h = inl cc
>>=-eq-err (ok v) next h = inr (v, refl, h)

err_injective {ℓ} : {V : Type ℓ} {e e' : Error} → ◌≡◌ {A = Result V} (err e) (err e') → e ≡ e'
err_injective h = cc

module _ (F : Floats) where
  open F use {Number, num, sub, mul as ◌*◌, lt, eq}

  infixl 70 ◌*◌
  same_index-length :
      (bars : List (Bar F)) (signals : List (Signal F))
      → same_index F bars signals ≡ true
      → length signals ≡ length bars
  same_index-length [] [] h = refl
  same_index-length [] (s ∷ ss) h = cc
  same_index-length (b ∷ bs) [] h = cc
  same_index-length (b ∷ bs) (s ∷ ss) h = omega (arith, same_index-length bs ss (ground arith))

  -- Why a decision for a position raised: the position cost nothing, the strategy's exit rule raised, or
  -- its sizing rule did. The first two are only met where a position is open.
  abbrev pub IsCause : Strategy F → PositionState F → Error → Type 0
  IsCause strategy state e =
      ((is_flat F state ≡ false)
        × (e ≡ zero_division)
        × (eq (abs F (state.average_price * state.quantity)) (num 0) ≡ true))
      ⊎ (((context : ExitContext F) × (is_flat F state ≡ false)
            × (strategy.exit_signal context ≡ err e))
          ⊎ ((context : SizingContext F) × (strategy.position_size context ≡ err e)))

  unrealized_return-zero_division :
      (market : MarketEvent F) (state : PositionState F) (e : Error)
      → unrealized_return F market state ≡ err e
      → (e ≡ zero_division) × (eq (abs F (state.average_price * state.quantity)) (num 0) ≡ true)
  unfolding unrealized_return
  unrealized_return-zero_division market state e h = elim (Bool-cases (truthy F state.quantity)) [
    | inr empty ↦ absurd cc (rw empty at h)
    | inl held ↦ elim (Bool-cases (eq (abs F (state.average_price * state.quantity)) (num 0))) [
      | inl free ↦ (err_injective (sym (rw (held, free) at h)), free)
      | inr paid ↦ absurd cc (rw (held, paid) at h)
    ]
  ]

  exit_taken-IsCause :
      (strategy : Strategy F) (symbol : String) (i : ℕ) (market : MarketEvent F)
      (state : PositionState F) (signal : Signal F) (e : Error)
      → exit_taken F strategy symbol i market state signal ≡ err e
      → IsCause strategy state e
  unfolding exit_taken exit_context
  exit_taken-IsCause strategy symbol i market state signal e h =
      elim (Bool-cases (is_flat F state)) [
        | inl flat ↦ absurd cc (rw flat at h)
        | inr held ↦
            elim (>>=-eq-err (exit_context F symbol i market state signal) _ (rw held at h)) [
              | inl failed ↦ elim (>>=-eq-err (unrealized_return F market state) _ failed) [
                | inl free ↦
                    let (zero, cost) = unrealized_return-zero_division market state e free in
                    inl (held, zero, cost)
                | inr (earned, _, never) ↦ absurd cc never
              ]
              | inr (context, _, rest) ↦ elim (>>=-eq-err (strategy.exit_signal context) _ rest) [
                | inl raised ↦ inr (inl (context, held, raised))
                | inr (decision, _, never) ↦ absurd cc never
              ]
            ]
      ]

  signal_target-IsCause :
      (strategy : Strategy F) (config : BacktestConfig F) (symbol : String)
      (d : Option SignalDirection) (i : ℕ) (market : MarketEvent F) (equity : Number)
      (state : PositionState F) (p : Portfolio F) (signal : Signal F) (e : Error)
      → signal_target F strategy config symbol d i market equity state p signal ≡ err e
      → IsCause strategy state e
  unfolding signal_target
  signal_target-IsCause strategy config symbol d i market equity state p signal e h =
      let direction = (suppress F d (permitted F config signal.direction)).0 in
      let context = sizing_context F symbol i market equity state p signal direction in
      elim (Bool-cases (
        same_direction direction (direction_of F state.quantity)
        && not strategy.rebalances_continuously)) [
          | inl same ↦ absurd cc (rw same at h)
          | inr other ↦ elim (>>=-eq-err (strategy.position_size context) _ (rw other at h)) [
            | inl raised ↦ inr (inr (context, raised))
            | inr (quantity, _, never) ↦ absurd cc never
          ]
        ]

  decide_signals-IsCause :
      (strategy : Strategy F) (config : BacktestConfig F) (symbol : String)
      (signals : List (Signal F)) (d : Option SignalDirection) (i : ℕ) (market : MarketEvent F)
      (equity : Number) (state : PositionState F) (p : Portfolio F) (e : Error)
      → i < length signals
      → decide_signals F strategy config symbol signals d i market equity state p ≡ err e
      → IsCause strategy state e
  unfolding decide_signals
  decide_signals-IsCause strategy config symbol signals d i market equity state p e inside h =
      let (signal, f) = index-Returns F signals i inside in
      elim (>>=-eq-err (exit_taken F strategy symbol i market state signal) _ (rw f at h)) [
        | inl raised ↦ exit_taken-IsCause strategy symbol i market state signal e raised
        | inr (taken, _, rest) ↦ elim (Option-cases taken) [
          | inl stays ↦
              signal_target-IsCause strategy config symbol d i market equity state p signal e
                (rw stays at rest)
          | inr (reason, exits) ↦ absurd cc (rw exits at rest)
        ]
      ]

  module _ {D : Type 0} (X : IsExact F) (config : BacktestConfig F) (decide : DecisionFn F D)
      (symbol : String) where
    -- The decision at the close of a bar, in the state that is marked there.
    abbrev pub decision_at : ℕ → Bar F → Run F D → Result ((Number × String) × D)
    decision_at i bar s =
        decide s.decider i (market_event F symbol bar)
          (equity F s.portfolio ((symbol, bar.close) ∷ [])) (position F symbol s.portfolio).0
          s.portfolio

    decide_next-raised :
        (i : ℕ) (bar : Bar F) (next : Timestamp) (s : Run F D) (e : Error)
        → decision_at i bar s ≡ err e
        → decide_next F decide symbol i bar next s ≡ err e
    unfolding decide_next
    decide_next-raised i bar next s e h = rw h refl

    decide_next-decided :
        (i : ℕ) (bar : Bar F) (next : Timestamp) (s : Run F D) (decided : (Number × String) × D)
        → decision_at i bar s ≡ ok decided
        → s.pending ≡ none
        → (t : Run F D) × (decide_next F decide symbol i bar next s ≡ ok t)
          × IsScheduled F next t.pending
    unfolding decide_next
    decide_next-decided i bar next s decided h e =
        let state = (position F symbol s.portfolio).0 in
        let (order, g, k) =
          pending_order-Returns F X bar.timestamp next symbol (sub decided.0.0 state.quantity)
            decided.0.1 in
        (place F order decided.1 s, rw (h, g), place-pending F order decided.1 s next e k)

    -- The loop over the bars up to one of them has left a state in which its decision raises.
    abbrev pub RaisesAt : ℕ → List (Bar F) → Run F D → Error → Type 0
    RaisesAt i bars s e =
        (before : List (Bar F)) × (bar : Bar F) × (after : List (Bar F)) × (u : Run F D) × (bars
          ≡ before ++ (bar ∷ after))
        × (run_bars F config decide symbol i (before ++ (bar ∷ [])) s ≡ ok u)
        × (decision_at (i + length before) bar u ≡ err e)

    preceded :
        (i : ℕ) (first next : Bar F) (bars before : List (Bar F)) (bar : Bar F)
        (after : List (Bar F)) (s t u w : Run F D)
        → next ∷ bars ≡ before ++ (bar ∷ after)
        → open_bar F config symbol i first s ≡ ok t
        → decide_next F decide symbol i first next.timestamp t ≡ ok u
        → run_bars F config decide symbol (suc i) (before ++ (bar ∷ [])) u ≡ ok w
        → run_bars F config decide symbol i (first ∷ (before ++ (bar ∷ []))) s ≡ ok w
    unfolding run_bars
    preceded i first next bars [] bar after s t u w split e g ran =
        let same : next.timestamp ≡ bar.timestamp = cc in
        let decided = subst (λ time. decide_next F decide symbol i first time t ≡ ok u) same g in
        rw (e, decided) ran
    preceded i first next bars (b ∷ before) bar after s t u w split e g ran =
        let same : next.timestamp ≡ b.timestamp = cc in
        let decided = subst (λ time. decide_next F decide symbol i first time t ≡ ok u) same g in
        rw (e, decided) ran

    run_bars-RaisesAt :
        (bars : List (Bar F)) (i : ℕ) (s : Run F D) (e : Error)
        → StartsAt F bars s.pending
        → run_bars F config decide symbol i bars s ≡ err e
        → RaisesAt i bars s e
    unfolding run_bars
    run_bars-RaisesAt [] i s e k h = cc
    run_bars-RaisesAt (bar ∷ []) i s e k h =
        let (t, f, _) = open_bar-Returns F X config decide symbol i bar s k in cc
    run_bars-RaisesAt (bar ∷ next ∷ bars) i s e k h =
        let (t, f, fresh) = open_bar-Returns F X config decide symbol i bar s k in
        elim (Result-cases (decision_at i bar t)) [
          | inl (raised, l) ↦
              let all = decide_next-raised i bar next.timestamp t raised l in
              (
                [],
                bar,
                next ∷ bars,
                t,
                refl,
                f,
                subst (λ n. decision_at n bar t ≡ err e) (omega arith)
                    (l ∙ ap err (err_injective (rw (f, all) at h))),
              )
          | inr (decided, l) ↦
              let (u, g, scheduled) = decide_next-decided i bar next.timestamp t decided l fresh in
              let (before, b, after, w, split, ran, raised) =
                run_bars-RaisesAt (next ∷ bars) (suc i) u e scheduled (rw (f, g) at h) in
              (
                bar ∷ before,
                b,
                after,
                w,
                ap (λ others. bar ∷ others) split,
                preceded i bar next bars before b after s t u w split f g ran,
                subst (λ n. decision_at n b w ≡ err e) (omega arith) raised,
              )
        ]

    run_execution-RaisesAt :
        (bar : Bar F) (bars : List (Bar F)) (p : Portfolio F) (d : D) (e : Error)
        → run_execution F config decide symbol (bar ∷ bars) (start F p d) ≡ err e
        → RaisesAt 0 (bar ∷ bars) (start F p d) e
    unfolding run_execution
    run_execution-RaisesAt bar bars p d e h =
        elim (>>=-eq-err (run_bars F config decide symbol 0 (bar ∷ bars) (start F p d)) _ h) [
          | inl raised ↦ run_bars-RaisesAt (bar ∷ bars) 0 (start F p d) e tt raised
          | inr (t, _, rest) ↦ elim (Bool-cases config.liquidate_at_end) [
            | inl closes ↦
                let (u, f) = close_out-Returns F config symbol bar bars t in
                absurd cc (rw (closes, f) at rest)
            | inr stays ↦ absurd cc (rw stays at rest)
          ]
        ]

  length-before :
      {A : Type 0} (before : List A) (x : A) (after : List A)
      → length before < length (before ++ (x ∷ after))
  length-before [] x after = omega arith
  length-before (y ∷ before) x after = omega (arith, length-before before x after)

  -- A bar up to which the loop returns, and whose decision then raises the error, with its cause.
  abbrev pub IsTraced :
      IsExact F
      → String
      → List (Bar F)
      → Strategy F
      → List (Signal F)
      → BacktestConfig F
      → Error
      → Type 0
  IsTraced X symbol bars strategy signals config e =
      let decide = decide_signals F strategy config symbol signals in
      let first = start F {D = Option SignalDirection} (opening F config.initial_cash) none in
      (before : List (Bar F)) × (last : Bar F) × (after : List (Bar F)) × (u : Run F
        (Option SignalDirection))
      × (bars ≡ before ++ (last ∷ after))
      × (run_bars F config decide symbol 0 (before ++ (last ∷ [])) first ≡ ok u)
      × (decision_at X config decide symbol (length before) last u ≡ err e)
      × IsCause strategy (position F symbol u.portfolio).0 e

  -- In exact arithmetic: on a frame that is not empty, with one signal for each bar, at its timestamp,
  -- and a positive capital, a simulation that raises an error raises it in the decision at a bar up to
  -- which the loop has returned, because the position there is open and cost nothing (a division by
  -- zero), or because a method of the strategy raised it.
  pub simulate-RaisesAt :
      (X : IsExact F) (symbol : String) (bar : Bar F) (bars : List (Bar F)) (strategy : Strategy F)
      (signals : List (Signal F)) (config : BacktestConfig F) (e : Error)
      → same_index F (bar ∷ bars) signals ≡ true
      → lt (num 0) config.initial_cash ≡ true
      → simulate F symbol (bar ∷ bars) strategy signals config ≡ err e
      → IsTraced X symbol (bar ∷ bars) strategy signals config e
  unfolding simulate
  simulate-RaisesAt X symbol bar bars strategy signals config e aligned cash h =
      let decide = decide_signals F strategy config symbol signals in
      let first = start F {D = Option SignalDirection} (opening F config.initial_cash) none in
      let (before, last, after, u, split, ran, raised) =
        run_execution-RaisesAt X config decide symbol bar bars (opening F config.initial_cash) none
          e
          (rw (not_empty F (length bars), aligned, new_portfolio-opening F config.initial_cash cash)
            at h) in
      let here : decision_at X config decide symbol (length before) last u ≡ err e =
        subst (λ n. decision_at X config decide symbol n last u ≡ err e) (omega arith) raised in
      let inside : length before < length signals = omega (
        arith,
        length-before before last after,
        ap (λ (bs : List (Bar F)). length bs) split,
        same_index-length (bar ∷ bars) signals aligned,
      ) in
      (
        before,
        last,
        after,
        u,
        split,
        ran,
        here,
        decide_signals-IsCause strategy config symbol signals u.decider (length before)
            (market_event F symbol last) (equity F u.portfolio ((symbol, last.close) ∷ []))
            (position F symbol u.portfolio).0 u.portfolio e inside here,
      )
