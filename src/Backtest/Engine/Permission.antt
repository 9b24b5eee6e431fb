-- ===== src/Backtest/Engine/Permission.antt =====
-- The engine has the final say on short positions: `simulate` with `allow_short` off
-- (services/quant/backtest/engine.py), in exact arithmetic.
use quantora.Prelude.{
  ℕ, ◌≡◌, refl, sym, ap, ◌∙◌, subst, Bool, true, false, not, ◌&&◌, Bool-cases, Option-cases, inl,
  inr, if◌then◌else◌, Option, none, some, List, [], ◌∷◌, String, All, length, ◌==◌, ok, >>=-eq-ok,
  raise_if-ok, ok_injective,
}
use quantora.Float.{Floats, IsExact, le}
use quantora.Backtest.Config.{BacktestConfig}
use quantora.Backtest.Events.{MarketEvent, PositionEvent}
use quantora.Backtest.Portfolio.{PositionState, Portfolio, new_portfolio, is_flat, position}
use quantora.Backtest.Engine.{Bar, Run}
use quantora.Backtest.Engine.Loop.{
  index, run_bars, closing_fill, liquidate, close_at, close_out, last?, run_execution, start,
}
use quantora.Backtest.Engine.Simulate.{
  Signal, direction_of, exit_taken, sizing_context, permitted, suppress, signal_target,
  decide_signals, same_index, simulate,
}
use quantora.Backtest.Engine.LongOnly.{run_bars-long}
use quantora.Strategies.Base.{
  SignalDirection, short, flat, long, same_direction, SizingContext, Strategy,
}

abbrev pub IsPermitted : SignalDirection → Type 0
IsPermitted d = same_direction d short ≡ false

module _ (F : Floats) where
  open F use {Number, num, lt}

  permitted-IsPermitted :
      (config : BacktestConfig F) (d : SignalDirection)
      → config.allow_short ≡ false
      → IsPermitted (permitted F config d)
  unfolding permitted
  permitted-IsPermitted config short e = rw e refl
  permitted-IsPermitted config flat e = refl
  permitted-IsPermitted config long e = refl

  suppress-IsPermitted :
      (s : Option SignalDirection) (d : SignalDirection)
      → IsPermitted d
      → IsPermitted (suppress F s d).0
  unfolding suppress
  suppress-IsPermitted none d h = h
  suppress-IsPermitted (some s) d h = elim (Bool-cases (same_direction d s)) [
    | inl same ↦ rw same refl
    | inr other ↦ rw other h
  ]

  module _ {D : Type 0} (config : BacktestConfig F) (symbol : String) where
    liquidate-positions :
        (bar : Bar F) (n : ℕ) (s t : Run F D)
        → liquidate F config symbol bar n s ≡ ok t
        → t.positions ≡ s.positions
    unfolding liquidate
    liquidate-positions bar n s t h =
        elim (Bool-cases (is_flat F (position F symbol s.portfolio).0)) [
          | inl empty ↦ sym (ap (λ (u : Run F D). u.positions) (ok_injective (rw empty at h)))
          | inr held ↦
              let (fill, _, f) =
                >>=-eq-ok (closing_fill F config symbol bar (position F symbol s.portfolio).0) _
                  (rw held at h) in
              sym (ap (λ (u : Run F D). u.positions) (ok_injective f))
        ]

    close_at-positions :
        (n : ℕ) (s t : Run F D) (last : Option (Bar F))
        → close_at F config symbol n s last ≡ ok t
        → t.positions ≡ s.positions
    unfolding close_at
    close_at-positions n s t none h = cc
    close_at-positions n s t (some bar) h =
        let (u, e, f) = >>=-eq-ok (liquidate F config symbol bar n s) _ h in
        sym (ap (λ (v : Run F D). v.positions) (ok_injective f)) ∙ liquidate-positions bar n s u e

    finish-positions :
        (close : Bool) (bars : List (Bar F)) (t u : Run F D)
        → (if close then close_out F config symbol bars t else ok t) ≡ ok u
        → u.positions ≡ t.positions
    unfolding close_out
    finish-positions true bars t u h = close_at-positions (length bars) t u (last? bars) h
    finish-positions false bars t u h = sym (ap (λ (v : Run F D). v.positions) (ok_injective h))

  module _ (X : IsExact F) (strategy : Strategy F) (config : BacktestConfig F)
      (long_only : config.allow_short ≡ false)
      (sizes : (context : SizingContext F) (quantity : Number)
        → IsPermitted context.direction
        → strategy.position_size context ≡ ok quantity
        → lt quantity (num 0) ≡ false) where
    -- A decision for a target that is not below zero.
    abbrev IsUnsold : (Number × String) × Option SignalDirection → Type 0
    IsUnsold decided = lt decided.0.0 (num 0) ≡ false

    signal_target-long :
        (symbol : String) (s : Option SignalDirection) (i : ℕ) (market : MarketEvent F)
        (equity : Number) (state : PositionState F) (p : Portfolio F) (signal : Signal F)
        (decided : (Number × String) × Option SignalDirection)
        → signal_target F strategy config symbol s i market equity state p signal ≡ ok decided
        → lt state.quantity (num 0) ≡ false
        → lt decided.0.0 (num 0) ≡ false
    unfolding signal_target sizing_context
    signal_target-long symbol s i market equity state p signal decided e h =
        let (direction, suppressed) = suppress F s (permitted F config signal.direction) in
        elim (Bool-cases (
          same_direction direction (direction_of F state.quantity)
          && not strategy.rebalances_continuously)) [
            | inl same ↦ subst IsUnsold (ok_injective (rw same at e)) h
            | inr other ↦
                let context = sizing_context F symbol i market equity state p signal direction in
                let (quantity, sized, rest) =
                  >>=-eq-ok (strategy.position_size context) _ (rw other at e) in
                subst IsUnsold (ok_injective rest) (
                  sizes context quantity
                    (suppress-IsPermitted s (permitted F config signal.direction)
                      (permitted-IsPermitted config signal.direction long_only))
                    sized)
          ]

    decide_signals-long :
        (symbol : String) (signals : List (Signal F)) (s : Option SignalDirection) (i : ℕ)
        (market : MarketEvent F) (equity : Number) (state : PositionState F) (p : Portfolio F)
        (decided : (Number × String) × Option SignalDirection)
        → decide_signals F strategy config symbol signals s i market equity state p ≡ ok decided
        → lt state.quantity (num 0) ≡ false
        → lt decided.0.0 (num 0) ≡ false
    unfolding decide_signals
    decide_signals-long symbol signals s i market equity state p decided h k =
        let (signal, _, e) = >>=-eq-ok (index signals i) _ h in
        let (taken, _, f) = >>=-eq-ok (exit_taken F strategy symbol i market state signal) _ e in
        elim (Option-cases taken) [
          | inl stays ↦
              signal_target-long symbol s i market equity state p signal decided (rw stays at f) k
          | inr (reason, exits) ↦
              subst IsUnsold (ok_injective (rw exits at f)) (X.lt_irrefl (num 0))
        ]

    -- In exact arithmetic: with `allow_short` off and a strategy that never sizes a long or a flat
    -- target below zero, whatever the signals say and whatever the strategy exits, a simulation that
    -- returns has logged no short position.
    pub simulate-long :
        (symbol : String) (frame : List (Bar F)) (signals : List (Signal F))
        (t : Run F (Option SignalDirection))
        → simulate F symbol frame strategy signals config ≡ ok t
        → All (λ (e : PositionEvent F). lt e.quantity (num 0) ≡ false) t.positions
    unfolding simulate new_portfolio run_execution
    simulate-long symbol [] signals t h = cc
    simulate-long symbol (bar ∷ bars) signals t h =
        let decide = decide_signals F strategy config symbol signals in
        let (_, h1) = raise_if-ok (length (bar ∷ bars) == 0) _ _ h in
        let (_, h2) = raise_if-ok (not (same_index F (bar ∷ bars) signals)) _ _ h1 in
        let (p, made, h3) = >>=-eq-ok (new_portfolio F config.initial_cash) _ h2 in
        let (_, fresh) = raise_if-ok (le F config.initial_cash (num 0)) _ _ made in
        let (u, e, f) =
          >>=-eq-ok (run_bars F config decide symbol 0 (bar ∷ bars) (start F p none)) _ h3 in
        let (_, kept) =
          run_bars-long F config decide symbol X (decide_signals-long symbol signals) bar bars
            config.initial_cash none u
            (subst (λ v. run_bars F config decide symbol 0 (bar ∷ bars) (start F v none) ≡ ok u)
              (sym (ok_injective fresh)) e) in
        subst (All (λ (e : PositionEvent F). lt e.quantity (num 0) ≡ false))
          (sym (finish-positions config symbol config.liquidate_at_end (bar ∷ bars) u t f)) kept
