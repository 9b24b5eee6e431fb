-- ===== src/Backtest/Engine/Marks.antt =====
-- One point of each curve per bar (services/quant/backtest/engine.py).
use quantora.Prelude.{
  ℕ, suc, ◌+◌, ◌≡◌, refl, ap, ◌∙◌, subst, Bool, true, false, if◌then◌else◌, Bool-cases, inl, inr,
  Option, none, some, List, [], ◌∷◌, String, length, length-append, ok, >>=-eq-ok, arith,
  ok_injective,
}
use quantora.Float.{Floats}
use quantora.Backtest.Config.{BacktestConfig}
use quantora.Backtest.Events.{Timestamp, OrderEvent}
use quantora.Backtest.Portfolio.{Portfolio, position, is_flat}
use quantora.Backtest.Engine.{Bar, Executed, Run, DecisionFn, market_event, execute, pending_order}
use quantora.Backtest.Engine.Loop.{
  set_last, record_execution, execute_slot, execute_pending, mark, place, decide_next, open_bar,
  run_bars, closing_fill, liquidate, close_at, close_out, run_execution, start,
}

length-set_last {ℓ} : {A : Type ℓ} (v : A) (xs : List A) → length (set_last v xs) ≡ length xs
unfolding set_last
length-set_last v [] = refl
length-set_last v (x ∷ []) = refl
length-set_last v (x ∷ y ∷ xs) = ap suc (length-set_last v (y ∷ xs))

module _ (F : Floats) {D : Type 0} where
  open F use {Number}

  -- The second run has `n` more points than the first in each of the three logs.
  abbrev pub IsMarked : ℕ → Run F D → Run F D → Type 0
  IsMarked n s t =
      (length t.equity_values ≡ length s.equity_values + n)
      × (length t.exposure_values ≡ length s.exposure_values + n)
      × (length t.positions ≡ length s.positions + n)

  IsMarked-refl : (s : Run F D) → IsMarked 0 s s
  IsMarked-refl s = (omega arith, omega arith, omega arith)

  IsMarked-trans :
      (m n k : ℕ) (s t u : Run F D) → k ≡ m + n → IsMarked m s t → IsMarked n t u → IsMarked k s u
  IsMarked-trans m n k s t u e (a, b, c) (x, y, z) = (omega arith, omega arith, omega arith)

  record_execution-IsMarked :
      (i : ℕ) (done : Executed F) (s : Run F D) → IsMarked 0 s (record_execution F i done s)
  unfolding record_execution
  record_execution-IsMarked i (none, warned) s = IsMarked-refl s
  record_execution-IsMarked i (some fill, warned) s = IsMarked-refl s

  place-IsMarked :
      (order : Option (OrderEvent F)) (d : D) (s : Run F D) → IsMarked 0 s (place F order d s)
  unfolding place
  place-IsMarked none d s = IsMarked-refl s
  place-IsMarked (some order) d s = IsMarked-refl s

  mark-IsMarked : (symbol : String) (bar : Bar F) (s : Run F D) → IsMarked 1 s (mark F symbol bar s)
  unfolding mark
  mark-IsMarked symbol bar s = (length-append _ _, length-append _ _, length-append _ _)

  module _ (config : BacktestConfig F) (symbol : String) where
    execute_slot-IsMarked :
        (i : ℕ) (bar : Bar F) (s t : Run F D) (pending : Option (OrderEvent F))
        → execute_slot F config symbol i bar s pending ≡ ok t
        → IsMarked 0 s t
    unfolding execute_slot
    execute_slot-IsMarked i bar s t none e = subst (IsMarked 0 s) (ok_injective e) (IsMarked-refl s)
    execute_slot-IsMarked i bar s t (some order) e =
        let (done, _, f) =
          >>=-eq-ok (execute F order (market_event F symbol bar) s.portfolio config) _ e in
        subst (IsMarked 0 s) (ok_injective f) (record_execution-IsMarked i done s)

    open_bar-IsMarked :
        (i : ℕ) (bar : Bar F) (s t : Run F D)
        → open_bar F config symbol i bar s ≡ ok t
        → IsMarked 1 s t
    unfolding open_bar
    open_bar-IsMarked i bar s t h =
        let (u, e, f) = >>=-eq-ok (execute_pending F config symbol i bar s) _ h in
        IsMarked-trans 0 1 1 s u t (omega arith)
          (unfold execute_pending in execute_slot-IsMarked i bar s u s.pending e)
          (subst (IsMarked 1 u) (ok_injective f) (mark-IsMarked symbol bar u))

    decide_next-IsMarked :
        (decide : DecisionFn F D) (i : ℕ) (bar : Bar F) (next : Timestamp) (s t : Run F D)
        → decide_next F decide symbol i bar next s ≡ ok t
        → IsMarked 0 s t
    unfolding decide_next
    decide_next-IsMarked decide i bar next s t h =
        let (decided, _, e) = >>=-eq-ok (decide _ i _ _ _ _) _ h in
        let (order, _, f) = >>=-eq-ok (pending_order F _ next symbol _ _) _ e in
        subst (IsMarked 0 s) (ok_injective f) (place-IsMarked order decided.1 s)

    run_bars-IsMarked :
        (decide : DecisionFn F D) (bars : List (Bar F)) (i : ℕ) (s t : Run F D)
        → run_bars F config decide symbol i bars s ≡ ok t
        → IsMarked (length bars) s t
    unfolding run_bars
    run_bars-IsMarked decide [] i s t h = subst (IsMarked 0 s) (ok_injective h) (IsMarked-refl s)
    run_bars-IsMarked decide (bar ∷ []) i s t h = open_bar-IsMarked i bar s t h
    run_bars-IsMarked decide (bar ∷ next ∷ bars) i s t h =
        let (u, e, f) = >>=-eq-ok (open_bar F config symbol i bar s) _ h in
        let (v, g, k) = >>=-eq-ok (decide_next F decide symbol i bar next.timestamp u) _ f in
        IsMarked-trans 1 (length (next ∷ bars)) (length (bar ∷ next ∷ bars)) s u t (omega arith)
          (open_bar-IsMarked i bar s u e)
          (IsMarked-trans 0 (length (next ∷ bars)) (length (next ∷ bars)) u v t (omega arith)
            (decide_next-IsMarked decide i bar next.timestamp u v g)
            (run_bars-IsMarked decide (next ∷ bars) (suc i) v t k))

    liquidate-IsMarked :
        (bar : Bar F) (n : ℕ) (s t : Run F D)
        → liquidate F config symbol bar n s ≡ ok t
        → IsMarked 0 s t
    unfolding liquidate
    liquidate-IsMarked bar n s t h =
        elim (Bool-cases (is_flat F (position F symbol s.portfolio).0)) [
          | inl flat ↦ subst (IsMarked 0 s) (ok_injective (rw flat at h)) (IsMarked-refl s)
          | inr held ↦
              let (fill, _, f) =
                >>=-eq-ok (closing_fill F config symbol bar (position F symbol s.portfolio).0) _
                  (rw held at h) in
              subst (IsMarked 0 s) (ok_injective f) (IsMarked-refl s)
        ]

    close_at-IsMarked :
        (n : ℕ) (s t : Run F D) (last : Option (Bar F))
        → close_at F config symbol n s last ≡ ok t
        → IsMarked 0 s t
    unfolding close_at
    close_at-IsMarked n s t none h = cc
    close_at-IsMarked n s t (some bar) h =
        let (u, e, f) = >>=-eq-ok (liquidate F config symbol bar n s) _ h in
        let (a, b, c) = liquidate-IsMarked bar n s u e in
        subst (IsMarked 0 s) (ok_injective f)
          (length-set_last _ u.equity_values ∙ a, length-set_last _ u.exposure_values ∙ b, c)

    finish-IsMarked :
        (close : Bool) (bars : List (Bar F)) (n : ℕ) (s t u : Run F D)
        → IsMarked n s t
        → (if close then close_out F config symbol bars t else ok t) ≡ ok u
        → IsMarked n s u
    unfolding close_out
    finish-IsMarked true bars n s t u m h =
        IsMarked-trans n 0 n s t u (omega arith) m (close_at-IsMarked (length bars) t u _ h)
    finish-IsMarked false bars n s t u m h = subst (IsMarked n s) (ok_injective h) m

    -- Whenever the execution loop returns, whatever decides, and whether or not it liquidates at the
    -- end: it has logged one equity value, one exposure value and one position for each bar.
    pub run_execution-IsMarked :
        (decide : DecisionFn F D) (bars : List (Bar F)) (p : Portfolio F) (d : D) (t : Run F D)
        → run_execution F config decide symbol bars (start F p d) ≡ ok t
        → (length t.equity_values ≡ length bars)
          × (length t.exposure_values ≡ length bars)
          × (length t.positions ≡ length bars)
    unfolding run_execution
    run_execution-IsMarked decide bars p d t h =
        let s = start F p d in
        let (u, e, f) = >>=-eq-ok (run_bars F config decide symbol 0 bars s) _ h in
        let (a, b, c) =
          finish-IsMarked config.liquidate_at_end bars (length bars) s u t
            (run_bars-IsMarked decide bars 0 s u e) f in
        (omega arith, omega arith, omega arith)
