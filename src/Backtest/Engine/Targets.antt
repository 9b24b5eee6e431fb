-- ===== src/Backtest/Engine/Targets.antt =====
-- `simulate_targets` (services/quant/backtest/engine.py) returns.
use quantora.Prelude.{
  ℕ, zero, suc, ◌<◌, ◌≡◌, refl, true, false, Option, none, some, List, [], ◌∷◌, String, ◌==◌,
  ==_iff, length, ok, arith,
}
use quantora.Float.{Floats, IsExact}
use quantora.Backtest.Config.{BacktestConfig}
use quantora.Backtest.Events.{MarketEvent}
use quantora.Backtest.Portfolio.{PositionState, Portfolio, new_portfolio, opening}
use quantora.Backtest.Engine.{Bar}
use quantora.Backtest.Engine.Loop.{
  reason_at, are_misaligned, index, decide_targets, simulate_targets,
}
use quantora.Backtest.Engine.Totality.{Returns, run_execution-Returns}

module _ (F : Floats) where
  open F use {Number, num, lt}

  pub index-Returns {ℓ} : {A : Type ℓ} (xs : List A) (i : ℕ) → i < length xs → Returns (index xs i)
  unfolding index
  index-Returns [] i h = elim h [ ]
  index-Returns (x ∷ xs) zero h = (x, refl)
  index-Returns (x ∷ xs) (suc i) h = index-Returns xs i (omega arith)

  -- One reason for each bar, where reasons are given.
  abbrev pub HasReasons : ℕ → Option (List String) → Type 0
  HasReasons n none = Unit
  HasReasons n (some texts) = length texts ≡ n

  reasons-aligned :
      (n : ℕ) (reasons : Option (List String))
      → HasReasons n reasons
      → are_misaligned n reasons ≡ false
  unfolding are_misaligned
  reasons-aligned n none h = refl
  reasons-aligned n (some texts) h = rw ((==_iff _ _).1 h) refl

  pub decide_targets-Returns :
      (targets : List Number) (reasons : Option (List String)) (n : ℕ)
      → length targets ≡ n
      → HasReasons n reasons
      → (d : Unit {0}) (i : ℕ) (market : MarketEvent F) (value : Number) (state : PositionState F)
        (p : Portfolio F)
      → i < n
      → Returns (decide_targets F targets reasons d i market value state p)
  unfolding decide_targets reason_at
  decide_targets-Returns targets none n e r d i market value state p h =
      let (x, f) = index-Returns targets i (omega arith) in rw f (_, refl)
  decide_targets-Returns targets (some texts) n e r d i market value state p h =
      let (x, f) = index-Returns targets i (omega arith) in
      let (y, g) = index-Returns texts i (omega arith) in rw (f, g) (_, refl)

  pub new_portfolio-opening :
      (cash : Number) → lt (num 0) cash ≡ true → new_portfolio F cash ≡ ok (opening F cash)
  unfolding new_portfolio
  new_portfolio-opening cash h = rw h refl

  pub not_empty : (n : ℕ) → (suc n == 0) ≡ false
  not_empty n = ground arith

  -- In exact arithmetic: on a frame that is not empty, with one target (and one reason, if any) for each bar and a
  -- positive capital, the simulation of targets returns: no order is invalid, none reaches a bar
  -- other than its own, and no index is out of range.
  pub simulate_targets-Returns :
      (X : IsExact F) (bar : Bar F) (bars : List (Bar F)) (targets : List Number) (symbol : String)
      (reasons : Option (List String)) (config : BacktestConfig F)
      → length targets ≡ length (bar ∷ bars)
      → HasReasons (length (bar ∷ bars)) reasons
      → lt (num 0) config.initial_cash ≡ true
      → Returns (simulate_targets F (bar ∷ bars) targets symbol reasons config)
  unfolding simulate_targets
  simulate_targets-Returns X bar bars targets symbol reasons config e r cash =
      let (t, f) =
        run_execution-Returns F X config (decide_targets F targets reasons) symbol bar bars
          (opening F config.initial_cash) tt
          (decide_targets-Returns targets reasons (length (bar ∷ bars)) e r) in
      (
        t,
        rw
            (
              (==_iff _ _).1 e,
              reasons-aligned _ reasons r,
              new_portfolio-opening config.initial_cash cash,
              not_empty (length bars),
            )
            f,
      )
