-- ===== src/Backtest/Portfolio/Ledger.antt =====
-- What a log of fills does to the portfolio.
use text.Mathlib.TextPositions.{eq_refl as same_text_refl}
use quantora.Prelude.{
  ℕ, ◌≡◌, refl, sym, ap, ap₂, ◌∙◌, true, Bool-cases, inl, inr, List, [], ◌∷◌, map, foldl, String,
  same_text, All,
}
use quantora.Float.{Floats, IsExact, sum}
use quantora.Float.Algebra
use quantora.Float.Algebra.{ring}
use quantora.Backtest.Events.{FillEvent, slippage_cost, cash_delta}
use quantora.Backtest.Portfolio.{
  PositionState, Positions, Portfolio, opening, find, store, realized_pnl,
}
use quantora.Backtest.Portfolio.Fills.{settle, charge, apply_fill}
use quantora.Backtest.Portfolio.Closing.{book, IsTidy, IsDustFree}
use quantora.Backtest.Portfolio.Accounting.{settle-book, settle-IsTidy}

module _ (F : Floats) where
  open F use {Number, num, add as ◌+◌, sub as ◌-◌, mul as ◌*◌, lt}

  infixl 65 ◌+◌ ◌-◌
  infixl 70 ◌*◌
  -- A portfolio after a log of fills, each with the index of its bar.
  unfoldable pub apply_fills : Portfolio F → List (FillEvent F × ℕ) → Portfolio F
  unfolding apply_fill
  apply_fills = foldl (λ p e. apply_fill F p e.0 e.1)

  -- The conditions on a log: every fill is of a positive quantity and leaves no dust.
  abbrev pub IsClean : Portfolio F → List (FillEvent F × ℕ) → Type 0
  IsClean p [] = Unit
  IsClean p ((fill, i) ∷ log) =
      (lt (num 0) fill.quantity ≡ true)
      × IsDustFree F (find F fill.symbol p.positions) fill
      × IsClean (apply_fill F p fill i) log

  -- What the open positions have cost: quantity times average price, and the costs still attached.
  unfoldable pub invested : Positions F → Number
  invested [] = num 0
  invested ((key, p) ∷ ps) = p.quantity * p.average_price + p.open_costs + invested ps

  abbrev total_book : Positions F → Number
  total_book [] = num 0
  total_book ((key, p) ∷ ps) = book F p + total_book ps

  abbrev AllTidy : Positions F → Type 0
  AllTidy = All (λ e. IsTidy F e.1)

  apply_fills-initial_cash :
      (log : List (FillEvent F × ℕ)) (p : Portfolio F)
      → (apply_fills p log).initial_cash ≡ p.initial_cash
  unfolding apply_fills
  apply_fills-initial_cash [] p = refl
  apply_fills-initial_cash ((fill, i) ∷ log) p =
      apply_fills-initial_cash log (apply_fill F p fill i)

  pub find-store :
      (key : String) (new : PositionState F) (ps : Positions F)
      → find F key (store F key new ps) ≡ new
  unfolding find store
  find-store key new [] = rw same_text_refl
  find-store key new ((k, p) ∷ ps) = elim (Bool-cases (same_text k key)) [
    | inl same ↦ rw (same, same)
    | inr other ↦ rw (other, other) (find-store key new ps)
  ]

  find-IsTidy : (key : String) (ps : Positions F) → AllTidy ps → IsTidy F (find F key ps)
  unfolding find
  find-IsTidy key [] t = λ z. refl
  find-IsTidy key ((k, p) ∷ ps) t = elim (Bool-cases (same_text k key)) [
    | inl same ↦ rw same t.0
    | inr other ↦ rw other (find-IsTidy key ps t.1)
  ]

  store-IsTidy :
      (key : String) (new : PositionState F) (ps : Positions F)
      → IsTidy F new
      → AllTidy ps
      → AllTidy (store F key new ps)
  unfolding store
  store-IsTidy key new [] n t = (n, tt)
  store-IsTidy key new ((k, p) ∷ ps) n t = elim (Bool-cases (same_text k key)) [
    | inl same ↦ rw same (n, t.1)
    | inr other ↦ rw other (t.0, store-IsTidy key new ps n t.1)
  ]

  module _ (X : IsExact F) where
    regroup : (a b c d e : Number) → b + c ≡ d + e → a + b + c ≡ a + d + e
    regroup a b c d e h = X.add_assoc a b c ∙ ap (λ (t : Number). a + t) h ∙ sym (X.add_assoc a d e)

    exchange : (a b c : Number) → a + b + c ≡ c + b + a
    exchange a b c = simp (ring, X)

    total_book-store :
        (key : String) (new : PositionState F) (ps : Positions F)
        → total_book (store F key new ps) + book F (find F key ps) ≡ total_book ps + book F new
    unfolding find store
    total_book-store key new [] = simp (ring, X)
    total_book-store key new ((k, p) ∷ ps) = elim (Bool-cases (same_text k key)) [
      | inl same ↦ rw same (exchange (book F new) (total_book ps) (book F p))
      | inr other ↦ rw other (regroup (book F p) _ _ _ _ (total_book-store key new ps))
    ]

    -- The dictionary that `setdefault` leaves has the same book value, and the same entry.
    apply_fill-total_book :
        (p : Portfolio F) (fill : FillEvent F) (i : ℕ)
        → let held = find F fill.symbol p.positions in
          total_book (apply_fill F p fill i).positions + book F held
          ≡ total_book p.positions + book F (settle F held fill i).0
    unfolding apply_fill
    apply_fill-total_book p fill i =
        let held = find F fill.symbol p.positions in
        let new = (settle F held fill i).0 in
        let same = total_book-store fill.symbol held p.positions in
        let moved = total_book-store fill.symbol new (store F fill.symbol held p.positions) in
        rw (find-store fill.symbol held p.positions) at moved
        ∙ ap (λ (t : Number). t + book F new) (Algebra.add_cancel F X _ _ (book F held) same)

    -- Cash and book value together are the capital and the slippage so far.
    abbrev IsBalanced : Portfolio F → Type 0
    IsBalanced p = p.cash + total_book p.positions ≡ p.initial_cash + p.total_slippage

    balance_sum :
        (cash total held new capital slip delta cost total' : Number)
        → total' + held ≡ total + new
        → new + delta ≡ held + cost
        → cash + total ≡ capital + slip
        → cash + delta + total' ≡ capital + (slip + cost)
    balance_sum cash total held new capital slip delta cost total' e f g =
        Algebra.add_cancel F X _ _ (held + new + total) (by_parts (ap₂ ◌+◌ (ap₂ ◌+◌ e f) g))
      where
        by_parts :
            total' + held + (new + delta) + (cash + total)
              ≡ total + new + (held + cost) + (capital + slip)
            → cash + delta + total' + (held + new + total)
              ≡ capital + (slip + cost) + (held + new + total)
        by_parts h = (simp (ring, X)) ∙ h ∙ (simp (ring, X))

    apply_fill-IsBalanced :
        (p : Portfolio F) (fill : FillEvent F) (i : ℕ)
        → lt (num 0) fill.quantity ≡ true
        → AllTidy p.positions
        → IsDustFree F (find F fill.symbol p.positions) fill
        → IsBalanced p
        → IsBalanced (apply_fill F p fill i)
    apply_fill-IsBalanced p fill i filled tidy clean balanced =
        let held = find F fill.symbol p.positions in
        unfold apply_fill charge in
        balance_sum p.cash (total_book p.positions) (book F held) (book F (settle F held fill i).0)
          p.initial_cash p.total_slippage (cash_delta F fill) (slippage_cost F fill) _
          (apply_fill-total_book p fill i)
          (settle-book F X held fill i filled (find-IsTidy fill.symbol p.positions tidy) clean)
          balanced

    apply_fill-AllTidy :
        (p : Portfolio F) (fill : FillEvent F) (i : ℕ)
        → lt (num 0) fill.quantity ≡ true
        → AllTidy p.positions
        → AllTidy (apply_fill F p fill i).positions
    unfolding apply_fill
    apply_fill-AllTidy p fill i filled tidy =
        let held = find F fill.symbol p.positions in
        store-IsTidy fill.symbol (settle F held fill i).0 _ (settle-IsTidy F X held fill i filled) (
          store-IsTidy fill.symbol held p.positions (find-IsTidy fill.symbol p.positions tidy) tidy)

    apply_fills-IsBalanced :
        (log : List (FillEvent F × ℕ)) (p : Portfolio F)
        → IsClean p log
        → AllTidy p.positions
        → IsBalanced p
        → IsBalanced (apply_fills p log)
    unfolding apply_fills
    apply_fills-IsBalanced [] p clean tidy balanced = balanced
    apply_fills-IsBalanced ((fill, i) ∷ log) p (filled, dustless, clean) tidy balanced =
        apply_fills-IsBalanced log (apply_fill F p fill i) clean
          (apply_fill-AllTidy p fill i filled tidy)
          (apply_fill-IsBalanced p fill i filled tidy dustless balanced)

    -- The sums that the code computes from the left.
    pub foldl-add : (xs : List Number) (a : Number) → foldl ◌+◌ a xs ≡ a + foldl ◌+◌ (num 0) xs
    foldl-add [] a = sym (X.add-zero a)
    foldl-add (x ∷ xs) a =
        foldl-add xs (a + x)
        ∙ X.add_assoc a x _
        ∙ ap (λ (t : Number). a + t)
            (sym (
              foldl-add xs (num 0 + x)
              ∙ ap (λ (t : Number). t + foldl ◌+◌ (num 0) xs) (Algebra.zero-add F X x)))

    split_sum : (a r t g : Number) → a + (t + g) ≡ a - r + t + (num 0 + r + g)
    split_sum a r t g = simp (ring, X)

    invested-eq :
        (ps : Positions F)
        → invested ps ≡ total_book ps + foldl ◌+◌ (num 0) (map (λ e. e.1.realized_pnl) ps)
    unfolding invested
    invested-eq [] = sym (X.add-zero (num 0))
    invested-eq ((key, p) ∷ ps) =
        let gains =
          foldl ◌+◌ (num 0) (map (λ (e : String × PositionState F). e.1.realized_pnl) ps) in
        ap (λ (t : Number). p.quantity * p.average_price + p.open_costs + t) (invested-eq ps)
        ∙ split_sum (p.quantity * p.average_price + p.open_costs) p.realized_pnl (total_book ps)
            gains
        ∙ ap (λ (t : Number). total_book ((key, p) ∷ ps) + t)
            (sym (foldl-add (map (λ e. e.1.realized_pnl) ps) (num 0 + p.realized_pnl)))

    swap_last : (a b c : Number) → a + b + c ≡ a + c + b
    swap_last a b c = simp (ring, X)

    -- In exact arithmetic: after any log of fills (opening, adding, reducing, closing and reversing
    -- in any number of symbols), each of a positive quantity and leaving no residue below the
    -- code's 1e-12, cash and what is invested in the open positions are the starting capital, the
    -- realized PnL, and the whole slippage once more.
    pub apply_fills-cash :
        (capital : Number) (log : List (FillEvent F × ℕ))
        → IsClean (opening F capital) log
        → let p = apply_fills (opening F capital) log in
          p.cash + invested p.positions ≡ capital + realized_pnl F p + p.total_slippage
    unfolding realized_pnl sum
    apply_fills-cash capital log clean =
        let p = apply_fills (opening F capital) log in
        let balanced = apply_fills-IsBalanced log (opening F capital) clean tt (simp (ring, X)) in
        let gains =
          foldl ◌+◌ (num 0)
            (map (λ (e : String × PositionState F). e.1.realized_pnl) p.positions) in
        ap (λ (t : Number). p.cash + t) (invested-eq p.positions)
        ∙ sym (X.add_assoc p.cash _ gains)
        ∙ ap (λ (t : Number). t + gains) balanced
        ∙ ap (λ (t : Number). t + p.total_slippage + gains)
            (apply_fills-initial_cash log (opening F capital))
        ∙ swap_last capital p.total_slippage gains
