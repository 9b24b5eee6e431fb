-- ===== src/Backtest/Portfolio/Netting.antt =====
-- The portfolio against its abstract view: the net signed quantity of each symbol
-- (services/quant/backtest/portfolio.py).
use quantora.Prelude.{
  ℕ, ◌≡◌, refl, sym, ap, ◌∙◌, subst, true, false, Bool-cases, inl, inr, if◌then◌else◌, List, [],
  ◌∷◌, String, same_text, same_text_iff,
}
use quantora.Float.{Floats, IsExact, abs, min, of_int, tiny}
use quantora.Float.Algebra
use quantora.Float.Algebra.{ring}
use quantora.Float.Order
use quantora.Backtest.Events.{OrderSide, sign, FillEvent}
use quantora.Backtest.Portfolio.{
  PositionState, Positions, Portfolio, opening, find, store, quantity, is_flat, open_position,
  add_to_position,
}
use quantora.Backtest.Portfolio.Fills.{
  snapped, close_position, reduced, settle, settle_elim, apply_fill,
}
use quantora.Backtest.Portfolio.Closing.{heading, IsDustFree, abs_signed}
use quantora.Backtest.Portfolio.Accounting.{opposite_facts}
use quantora.Backtest.Portfolio.Ledger.{apply_fills, IsClean, find-store}

module _ (F : Floats) where
  open F use {Number, num, add as ◌+◌, sub as ◌-◌, mul as ◌*◌, neg, lt}

  infixl 65 ◌+◌ ◌-◌
  infixl 70 ◌*◌
  -- A fill's quantity, with the sign of its side.
  abbrev pub signed : FillEvent F → Number
  signed fill = of_int F (sign fill.side) * fill.quantity

  -- The abstract portfolio: what has been bought of a symbol, less what has been sold.
  unfoldable pub net : String → List (FillEvent F × ℕ) → Number
  net symbol [] = num 0
  net symbol ((fill, i) ∷ log) =
      let rest = net symbol log in if same_text fill.symbol symbol then signed fill + rest else rest

  find-store_other :
      (key symbol : String) (new : PositionState F) (ps : Positions F)
      → same_text key symbol ≡ false
      → find F symbol (store F key new ps) ≡ find F symbol ps
  unfolding find store
  find-store_other key symbol new [] h = rw h refl
  find-store_other key symbol new ((k, p) ∷ ps) h = elim (Bool-cases (same_text k key)) [
    | inl same ↦
        let other : same_text k symbol ≡ false =
          subst (λ t. same_text t symbol ≡ false) (sym ((same_text_iff k key).0 same)) h in
        rw (same, other) refl
    | inr differ ↦ elim (Bool-cases (same_text k symbol)) [
      | inl here ↦ rw (differ, here) refl
      | inr there ↦ rw (differ, there) (find-store_other key symbol new ps h)
    ]
  ]

  module _ (X : IsExact F) where
    pub is_flat-zero : (p : PositionState F) → is_flat F p ≡ true → p.quantity ≡ num 0
    unfolding is_flat
    is_flat-zero p h = (X.eq_iff p.quantity (num 0)).0 h

    -- What is left of a position that a fill on the other side closes, and of the fill.
    opposite_sum : (h q a : Number) → h * a ≡ q → q + neg h * a ≡ num 0
    opposite_sum h q a e = rw (← e) (simp (ring, X))

    turned : (s h amount a q : Number) → s ≡ neg h → h * a ≡ q → s * (amount - a) ≡ q + s * amount
    turned s h amount a q e f = rw (e, ← f) (simp (ring, X))

    -- A fill that is more than the position: what is left of it opens the other side.
    reversing :
        (side : OrderSide) (h amount q : Number)
        → of_int F (sign side) ≡ neg h
        → h * abs F q ≡ q
        → abs F (of_int F (sign side) * amount) ≡ amount
        → lt (num 0) (
            abs F (of_int F (sign side) * amount)
            - min F (abs F (of_int F (sign side) * amount)) (abs F q))
          ≡ true
        → of_int F (sign side)
            * (abs F (of_int F (sign side) * amount)
                - min F (abs F (of_int F (sign side) * amount)) (abs F q))
          ≡ q + of_int F (sign side) * amount
    reversing side h amount q e f a more = elim (Bool-cases (lt (abs F q) amount)) [
      | inl past ↦
          rw (a, Order.min_of_lt F X amount (abs F q) past) (turned _ h amount (abs F q) q e f)
      | inr within ↦ cc (
        rw (a, Order.min_of_le F X amount (abs F q) within, X.sub-eq-add, X.add-neg) at more,
        X.lt_irrefl (num 0),
      )
    ]

    -- A fill that is at most the position is closed in full.
    closing :
        (side : OrderSide) (h amount q : Number)
        → of_int F (sign side) ≡ neg h
        → abs F (of_int F (sign side) * amount) ≡ amount
        → lt (num 0) (
            abs F (of_int F (sign side) * amount)
            - min F (abs F (of_int F (sign side) * amount)) (abs F q))
          ≡ false
        → q + h * neg (min F (abs F (of_int F (sign side) * amount)) (abs F q))
          ≡ q + of_int F (sign side) * amount
    closing side h amount q e a less = elim (Bool-cases (lt (abs F q) amount)) [
      | inl past ↦ cc (
        rw (a, Order.min_of_lt F X amount (abs F q) past) at less,
        Order.sub_pos F X (abs F q) amount past,
      )
      | inr within ↦ rw (a, Order.min_of_le F X amount (abs F q) within, e) (simp (ring, X))
    ]

    snapped-quantity :
        (s : PositionState F)
        → (lt (abs F s.quantity) (tiny F 12) ≡ true → s.quantity ≡ num 0)
        → (snapped F s).quantity ≡ s.quantity
    unfolding snapped
    snapped-quantity s h = elim (Bool-cases (lt (abs F s.quantity) (tiny F 12))) [
      | inl small ↦ rw small (sym (h small))
      | inr big ↦ rw big refl
    ]

    -- In exact arithmetic a fill moves the quantity of a position by its signed quantity.
    pub settle-quantity :
        (p : PositionState F) (fill : FillEvent F) (i : ℕ)
        → lt (num 0) fill.quantity ≡ true
        → IsDustFree F p fill
        → (settle F p fill i).0.quantity ≡ p.quantity + signed fill
    unfolding close_position reduced open_position add_to_position
    settle-quantity p fill i filled clean =
        let amount = abs_signed F X fill.side fill.quantity filled in
        settle_elim F p fill i (λ r. r.0.quantity ≡ p.quantity + signed fill)
          (λ flat. rw (is_flat-zero p flat) (sym (Algebra.zero-add F X (signed fill))))
          (λ held same. refl)
          (λ held other more.
            let (opposite, _, magnitude, _) = opposite_facts F X p fill held other in
            reversing fill.side (heading F p) fill.quantity p.quantity opposite magnitude amount
              more)
          (λ held other less.
            let (opposite, _, magnitude, _) = opposite_facts F X p fill held other in
            snapped-quantity _ clean
            ∙ closing fill.side (heading F p) fill.quantity p.quantity opposite amount less)

    apply_fill-quantity :
        (symbol : String) (p : Portfolio F) (fill : FillEvent F) (i : ℕ)
        → lt (num 0) fill.quantity ≡ true
        → IsDustFree F (find F fill.symbol p.positions) fill
        → quantity F symbol (apply_fill F p fill i) ≡ (
            if same_text fill.symbol symbol
            then quantity F symbol p + signed fill
            else quantity F symbol p)
    unfolding apply_fill quantity
    apply_fill-quantity symbol p fill i filled clean =
        let held = find F fill.symbol p.positions in
        let there = store F fill.symbol held p.positions in
        let new = (settle F held fill i).0 in
        elim (Bool-cases (same_text fill.symbol symbol)) [
          | inl same ↦
              subst
                (λ s. (find F s (store F fill.symbol new there)).quantity ≡ (
                  if same_text fill.symbol symbol
                  then (find F s p.positions).quantity + signed fill
                  else (find F s p.positions).quantity))
                ((same_text_iff fill.symbol symbol).0 same)
                (rw same (
                  ap (λ (t : PositionState F). t.quantity) (find-store F fill.symbol new there)
                  ∙ settle-quantity held fill i filled clean))
          | inr other ↦ rw other (
              ap (λ (t : PositionState F). t.quantity)
                (find-store_other fill.symbol symbol new there other
                  ∙ find-store_other fill.symbol symbol held p.positions other))
        ]

    net_from :
        (symbol : String) (log : List (FillEvent F × ℕ)) (p : Portfolio F)
        → IsClean F p log
        → quantity F symbol (apply_fills F p log) ≡ quantity F symbol p + net symbol log
    unfolding apply_fills net
    net_from symbol [] p clean = sym (X.add-zero (quantity F symbol p))
    net_from symbol ((fill, i) ∷ log) p (filled, dustless, clean) =
        let moved = apply_fill-quantity symbol p fill i filled dustless in
        net_from symbol log (apply_fill F p fill i) clean
        ∙ elim (Bool-cases (same_text fill.symbol symbol)) [
          | inl same ↦ rw same (
              ap (λ (t : Number). t + net symbol log) (rw same at moved)
              ∙ X.add_assoc (quantity F symbol p) (signed fill) (net symbol log))
          | inr other ↦ rw other (ap (λ (t : Number). t + net symbol log) (rw other at moved))
        ]

    -- In exact arithmetic the portfolio refines its abstract view: after any log of fills of positive
    -- quantities that leave no residue below 1e-12, opening, adding, closing and reversing in any
    -- number of symbols, the quantity held of each symbol is what has been bought of it less what has
    -- been sold.
    pub apply_fills-net :
        (capital : Number) (log : List (FillEvent F × ℕ)) (symbol : String)
        → IsClean F (opening F capital) log
        → quantity F symbol (apply_fills F (opening F capital) log) ≡ net symbol log
    unfolding quantity find
    apply_fills-net capital log symbol clean =
        net_from symbol log (opening F capital) clean ∙ Algebra.zero-add F X (net symbol log)
