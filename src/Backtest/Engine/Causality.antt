-- ===== src/Backtest/Engine/Causality.antt =====
-- No look-ahead: what the loop logs up to a bar does not depend on the bars after it.
use quantora.Prelude.{
  ℕ, suc, ◌+◌, arith, length, ◌≡◌, refl, sym, ap, ◌∙◌, subst, Option, none, some, List, [], ◌∷◌,
  ◌++◌, append-nil, append_assoc, String, ok, >>=-eq-ok, ok_injective,
}
use quantora.Float.{Floats}
use quantora.Backtest.Config.{BacktestConfig}
use quantora.Backtest.Events.{Timestamp, OrderEvent}
use quantora.Backtest.Engine.{Bar, Executed, Run, DecisionFn, market_event, execute, pending_order}
use quantora.Backtest.Engine.Loop.{
  record_execution, execute_slot, execute_pending, mark, place, decide_next, open_bar, run_bars,
}

-- A log that only grew.
abbrev pub Extends {ℓ} : {A : Type ℓ} → List A → List A → Type ℓ
Extends {A} xs ys = (more : List A) × (ys ≡ xs ++ more)

Extends-refl {ℓ} : {A : Type ℓ} (xs : List A) → Extends xs xs
Extends-refl xs = ([], sym (append-nil xs))

Extends-trans {ℓ} : {A : Type ℓ} (xs ys zs : List A) → Extends xs ys → Extends ys zs → Extends xs zs
Extends-trans xs ys zs (a, e) (b, f) = (a ++ b, f ∙ ap (λ t. t ++ b) e ∙ append_assoc xs a b)

module _ (F : Floats) {D : Type 0} where
  open F use {Number}

  -- Every log of the first run stands at the beginning of the second's.
  pub record Continues (s t : Run F D) : Type 0 where
    pub orders : Extends s.orders t.orders
    pub fills : Extends s.fills t.fills
    pub warnings : Extends s.warnings t.warnings
    pub positions : Extends s.positions t.positions
    pub equity_values : Extends s.equity_values t.equity_values
    pub exposure_values : Extends s.exposure_values t.exposure_values

  Continues-refl : (s : Run F D) → Continues s s
  Continues-refl s = record {
    orders = Extends-refl s.orders;
    fills = Extends-refl s.fills;
    warnings = Extends-refl s.warnings;
    positions = Extends-refl s.positions;
    equity_values = Extends-refl s.equity_values;
    exposure_values = Extends-refl s.exposure_values;
  }

  Continues-trans : (s t u : Run F D) → Continues s t → Continues t u → Continues s u
  Continues-trans s t u h k = record {
    orders = Extends-trans _ _ _ h.orders k.orders;
    fills = Extends-trans _ _ _ h.fills k.fills;
    warnings = Extends-trans _ _ _ h.warnings k.warnings;
    positions = Extends-trans _ _ _ h.positions k.positions;
    equity_values = Extends-trans _ _ _ h.equity_values k.equity_values;
    exposure_values = Extends-trans _ _ _ h.exposure_values k.exposure_values;
  }

  record_execution-Continues :
      (i : ℕ) (done : Executed F) (s : Run F D) → Continues s (record_execution F i done s)
  unfolding record_execution
  record_execution-Continues i (none, warned) s = record {
    orders = Extends-refl _;
    fills = Extends-refl _;
    warnings = (warned, refl);
    positions = Extends-refl _;
    equity_values = Extends-refl _;
    exposure_values = Extends-refl _;
  }
  record_execution-Continues i (some fill, warned) s = record {
    orders = Extends-refl _;
    fills = ((fill, i) ∷ [], refl);
    warnings = (warned, refl);
    positions = Extends-refl _;
    equity_values = Extends-refl _;
    exposure_values = Extends-refl _;
  }

  mark-Continues : (symbol : String) (bar : Bar F) (s : Run F D) → Continues s (mark F symbol bar s)
  unfolding mark
  mark-Continues symbol bar s = record {
    orders = Extends-refl _;
    fills = Extends-refl _;
    warnings = Extends-refl _;
    positions = (_, refl);
    equity_values = (_, refl);
    exposure_values = (_, refl);
  }

  place-Continues :
      (order : Option (OrderEvent F)) (d : D) (s : Run F D) → Continues s (place F order d s)
  unfolding place
  place-Continues none d s = record {
    orders = Extends-refl _;
    fills = Extends-refl _;
    warnings = Extends-refl _;
    positions = Extends-refl _;
    equity_values = Extends-refl _;
    exposure_values = Extends-refl _;
  }
  place-Continues (some order) d s = record {
    orders = (order ∷ [], refl);
    fills = Extends-refl _;
    warnings = Extends-refl _;
    positions = Extends-refl _;
    equity_values = Extends-refl _;
    exposure_values = Extends-refl _;
  }

  execute_slot-Continues :
      (config : BacktestConfig F) (symbol : String) (i : ℕ) (bar : Bar F) (s t : Run F D)
      (pending : Option (OrderEvent F))
      → execute_slot F config symbol i bar s pending ≡ ok t
      → Continues s t
  unfolding execute_slot
  execute_slot-Continues config symbol i bar s t none e =
      subst (Continues s) (ok_injective e) (Continues-refl s)
  execute_slot-Continues config symbol i bar s t (some order) e =
      let (done, _, f) =
        >>=-eq-ok (execute F order (market_event F symbol bar) s.portfolio config) _ e in
      subst (Continues s) (ok_injective f) (record_execution-Continues i done s)

  open_bar-Continues :
      (config : BacktestConfig F) (symbol : String) (i : ℕ) (bar : Bar F) (s t : Run F D)
      → open_bar F config symbol i bar s ≡ ok t
      → Continues s t
  unfolding open_bar
  open_bar-Continues config symbol i bar s t h =
      let (u, e, f) = >>=-eq-ok (execute_pending F config symbol i bar s) _ h in
      Continues-trans s u t
        (unfold execute_pending in execute_slot-Continues config symbol i bar s u s.pending e)
        (subst (Continues u) (ok_injective f) (mark-Continues symbol bar u))

  decide_next-Continues :
      (decide : DecisionFn F D) (symbol : String) (i : ℕ) (bar : Bar F) (next : Timestamp)
      (s t : Run F D)
      → decide_next F decide symbol i bar next s ≡ ok t
      → Continues s t
  unfolding decide_next
  decide_next-Continues decide symbol i bar next s t h =
      let (decided, _, e) = >>=-eq-ok (decide _ i _ _ _ _) _ h in
      let (order, _, f) = >>=-eq-ok (pending_order F _ next symbol _ _) _ e in
      subst (Continues s) (ok_injective f) (place-Continues order decided.1 s)

  module _ (config : BacktestConfig F) (decide : DecisionFn F D) (symbol : String) where
    run_bars-Continues :
        (bars : List (Bar F)) (i : ℕ) (s t : Run F D)
        → run_bars F config decide symbol i bars s ≡ ok t
        → Continues s t
    unfolding run_bars
    run_bars-Continues [] i s t h = subst (Continues s) (ok_injective h) (Continues-refl s)
    run_bars-Continues (bar ∷ []) i s t h = open_bar-Continues config symbol i bar s t h
    run_bars-Continues (bar ∷ next ∷ bars) i s t h =
        let (u, e, f) = >>=-eq-ok (open_bar F config symbol i bar s) _ h in
        let (v, g, k) = >>=-eq-ok (decide_next F decide symbol i bar next.timestamp u) _ f in
        Continues-trans s u t (open_bar-Continues config symbol i bar s u e) (
          Continues-trans u v t (decide_next-Continues decide symbol i bar next.timestamp u v g)
            (run_bars-Continues (next ∷ bars) (suc i) v t k))

    -- The index of the bar after those of a list and one more.
    abbrev index_after : List (Bar F) → ℕ → ℕ
    index_after [] i = suc i
    index_after (b ∷ before) i = index_after before (suc i)

    index_after-length :
        (before : List (Bar F)) (i : ℕ) → index_after before i ≡ suc (i + length before)
    index_after-length [] i = omega arith
    index_after-length (b ∷ before) i = index_after-length before (suc i) ∙ omega arith

    -- How far two frames with the same beginning are run alike: `u` stands once the last bar that they
    -- share is marked, `v` once the order for the next bar is decided, and both go on from `v` at
    -- the index `k`.
    abbrev pub RunsAlike :
        List (Bar F) → Bar F → List (Bar F) → List (Bar F) → ℕ → ℕ → Run F D → Run F D → Type 0
    RunsAlike before bar after others i k s t =
        (u : Run F D) × (v : Run F D) × (run_bars F config decide symbol i (before ++ (bar ∷ [])) s
          ≡ ok u)
        × Continues u v
        × Continues v t
        × (run_bars F config decide symbol i (before ++ (bar ∷ after)) s
            ≡ run_bars F config decide symbol k after v)
        × (run_bars F config decide symbol i (before ++ (bar ∷ others)) s
            ≡ run_bars F config decide symbol k others v)

    decided_alike :
        (before : List (Bar F)) (bar next other : Bar F) (after others : List (Bar F)) (i : ℕ)
        (s t : Run F D)
        → other.timestamp ≡ next.timestamp
        → run_bars F config decide symbol i (before ++ (bar ∷ next ∷ after)) s ≡ ok t
        → RunsAlike before bar (next ∷ after) (other ∷ others) i (index_after before i) s t
    unfolding run_bars
    decided_alike [] bar next other after others i s t same h =
        let (u, e, f) = >>=-eq-ok (open_bar F config symbol i bar s) _ h in
        let (v, g, k) = >>=-eq-ok (decide_next F decide symbol i bar next.timestamp u) _ f in
        (
          u,
          v,
          e,
          decide_next-Continues decide symbol i bar next.timestamp u v g,
          run_bars-Continues (next ∷ after) (suc i) v t k,
          rw (e, g) refl,
          rw (e, same, g) refl,
        )
    decided_alike (b ∷ []) bar next other after others i s t same h =
        let (x, e, f) = >>=-eq-ok (open_bar F config symbol i b s) _ h in
        let (y, g, k) = >>=-eq-ok (decide_next F decide symbol i b bar.timestamp x) _ f in
        let (u, v, l, grew, went, first, second) =
          decided_alike [] bar next other after others (suc i) y t same k in
        (u, v, rw (e, g) l, grew, went, rw (e, g) first, rw (e, g) second)
    decided_alike (b ∷ c ∷ before) bar next other after others i s t same h =
        let (x, e, f) = >>=-eq-ok (open_bar F config symbol i b s) _ h in
        let (y, g, k) = >>=-eq-ok (decide_next F decide symbol i b c.timestamp x) _ f in
        let (u, v, l, grew, went, first, second) =
          decided_alike (c ∷ before) bar next other after others (suc i) y t same k in
        (u, v, rw (e, g) l, grew, went, rw (e, g) first, rw (e, g) second)

    -- If the loop over a frame returns: the loop over its bars up to and with `bar` returns `u`, each of
    -- whose logs (orders, fills, warnings, positions, equity and exposure) the longer loop's logs begin
    -- with; and there is a state `v`, whose logs stand between, from which the rest of the frame is run,
    -- and from which the rest of any other frame is run that has the same bars up to and with `bar` and a
    -- next bar with the same timestamp. So the order that is decided at `bar`, and all that is decided
    -- or filled before, are the same whatever the prices of the bars after `bar`.
    pub run_bars-Extends :
        (before : List (Bar F)) (bar next other : Bar F) (after others : List (Bar F)) (i : ℕ)
        (s t : Run F D)
        → other.timestamp ≡ next.timestamp
        → run_bars F config decide symbol i (before ++ (bar ∷ next ∷ after)) s ≡ ok t
        → RunsAlike before bar (next ∷ after) (other ∷ others) i (suc (i + length before)) s t
    run_bars-Extends before bar next other after others i s t same h =
        subst (λ k. RunsAlike before bar (next ∷ after) (other ∷ others) i k s t)
          (index_after-length before i)
          (decided_alike before bar next other after others i s t same h)
