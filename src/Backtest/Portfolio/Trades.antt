-- ===== src/Backtest/Portfolio/Trades.antt =====
-- The trade log and the realized PnL (services/quant/backtest/portfolio.py).
use quantora.Prelude.{
  ℕ, ◌≡◌, refl, sym, ap, ◌∙◌, Bool-cases, inl, inr, List, [], ◌∷◌, ◌++◌, map, foldl, String,
  same_text,
}
use quantora.Float.{Floats, IsExact, sum}
use quantora.Float.Algebra
use quantora.Float.Algebra.{ring}
use quantora.Backtest.Events.{FillEvent}
use quantora.Backtest.Portfolio.{
  Trade, PositionState, Positions, Portfolio, opening, find, store, realized_pnl,
}
use quantora.Backtest.Portfolio.Fills.{settle, apply_fill}
use quantora.Backtest.Portfolio.Accounting.{settle-realized_pnl}
use quantora.Backtest.Portfolio.Ledger.{apply_fills, find-store, foldl-add}

map-append {ℓ κ} :
    {A : Type ℓ} {B : Type κ} (f : A → B) (xs ys : List A) → map f (xs ++ ys) ≡ map f xs ++ map f ys
map-append f [] ys = refl
map-append f (x ∷ xs) ys = ap (λ t. f x ∷ t) (map-append f xs ys)

foldl-append {ℓ κ} :
    {A : Type ℓ} {B : Type κ} (f : B → A → B) (b : B) (xs ys : List A)
    → foldl f b (xs ++ ys) ≡ foldl f (foldl f b xs) ys
foldl-append f b [] ys = refl
foldl-append f b (x ∷ xs) ys = foldl-append f (f b x) xs ys

module _ (F : Floats) where
  open F use {Number, num, add as ◌+◌}

  infixl 65 ◌+◌
  -- What the trades report, summed in the order in which they were closed.
  abbrev pub reported : List (Trade F) → Number
  reported trades = foldl ◌+◌ (num 0) (map (λ t. t.pnl) trades)

  abbrev gains : Positions F → Number
  gains [] = num 0
  gains ((key, p) ∷ ps) = p.realized_pnl + gains ps

  module _ (X : IsExact F) where
    exchange : (a b c : Number) → a + b + c ≡ c + b + a
    exchange a b c = simp (ring, X)

    regroup : (a b c d e : Number) → b + c ≡ d + e → a + b + c ≡ a + d + e
    regroup a b c d e h = X.add_assoc a b c ∙ ap (λ (t : Number). a + t) h ∙ sym (X.add_assoc a d e)

    gains-store :
        (key : String) (new : PositionState F) (ps : Positions F)
        → gains (store F key new ps) + (find F key ps).realized_pnl ≡ gains ps + new.realized_pnl
    unfolding find store
    gains-store key new [] = simp (ring, X)
    gains-store key new ((k, p) ∷ ps) = elim (Bool-cases (same_text k key)) [
      | inl same ↦ rw same (exchange new.realized_pnl (gains ps) p.realized_pnl)
      | inr other ↦ rw other (regroup p.realized_pnl _ _ _ _ (gains-store key new ps))
    ]

    reported-append : (xs ys : List (Trade F)) → reported (xs ++ ys) ≡ reported xs + reported ys
    reported-append xs ys =
        ap (foldl ◌+◌ (num 0)) (map-append (λ (t : Trade F). t.pnl) xs ys)
        ∙ foldl-append ◌+◌ (num 0) (map (λ t. t.pnl) xs) _
        ∙ foldl-add F X (map (λ t. t.pnl) ys) (reported xs)

    -- The step, from what the two writes to the dictionary and the fill do.
    moved :
        (a b c held new closed : Number)
        → a + held ≡ b + held
        → c + held ≡ a + new
        → new ≡ held + closed
        → c ≡ b + closed
    moved a b c held new closed e f g = Algebra.add_cancel F X c (b + closed) held (
        f
        ∙ ap (λ (t : Number). t + new) (Algebra.add_cancel F X a b held e)
        ∙ ap (λ (t : Number). b + t) g
        ∙ (simp (ring, X)))

    apply_fill-gains :
        (p : Portfolio F) (fill : FillEvent F) (i : ℕ)
        → gains (apply_fill F p fill i).positions
          ≡ gains p.positions + reported (settle F (find F fill.symbol p.positions) fill i).1
    unfolding apply_fill
    apply_fill-gains p fill i =
        let held = find F fill.symbol p.positions in
        let (new, closed) = settle F held fill i in
        let there = store F fill.symbol held p.positions in
        moved (gains there) (gains p.positions) _ held.realized_pnl new.realized_pnl
          (reported closed) (gains-store fill.symbol held p.positions)
          (rw (find-store F fill.symbol held p.positions) at (gains-store fill.symbol new there))
          (settle-realized_pnl F held fill i
            ∙ foldl-add F X (map (λ t. t.pnl) closed) held.realized_pnl)

    apply_fills-gains :
        (log : List (FillEvent F × ℕ)) (p : Portfolio F)
        → gains p.positions ≡ reported p.trades
        → gains (apply_fills F p log).positions ≡ reported (apply_fills F p log).trades
    unfolding apply_fills
    apply_fills-gains [] p e = e
    apply_fills-gains ((fill, i) ∷ log) p e =
        let closed = (settle F (find F fill.symbol p.positions) fill i).1 in
        apply_fills-gains log (apply_fill F p fill i) (
          apply_fill-gains p fill i
          ∙ ap (λ (t : Number). t + reported closed) e
          ∙ (unfold apply_fill in sym (reported-append p.trades closed)))

    gains-sum : (ps : Positions F) → foldl ◌+◌ (num 0) (map (λ e. e.1.realized_pnl) ps) ≡ gains ps
    gains-sum [] = refl
    gains-sum ((key, p) ∷ ps) =
        foldl-add F X (map (λ e. e.1.realized_pnl) ps) (num 0 + p.realized_pnl)
        ∙ (ap (λ (t : Number). num 0 + p.realized_pnl + t) (gains-sum ps))
        ∙ ap (λ (t : Number). t + gains ps) (Algebra.zero-add F X p.realized_pnl)

    -- In exact arithmetic: after any log of fills, in any number of symbols, the realized PnL of
    -- the portfolio is the sum of the PnL of its trades.
    pub apply_fills-trades :
        (capital : Number) (log : List (FillEvent F × ℕ))
        → let p = apply_fills F (opening F capital) log in realized_pnl F p ≡ reported p.trades
    unfolding realized_pnl sum
    apply_fills-trades capital log =
        gains-sum (apply_fills F (opening F capital) log).positions
        ∙ apply_fills-gains log (opening F capital) refl
