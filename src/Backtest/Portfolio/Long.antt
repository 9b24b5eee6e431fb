-- ===== src/Backtest/Portfolio/Long.antt =====
-- A fill that sells no more than is held keeps a long position long
-- (services/quant/backtest/portfolio.py), in exact arithmetic.
use quantora.Prelude.{ℕ, ◌≡◌, refl, ap, ◌∙◌, true, false, Bool-cases, inl, inr, pos, same_int}
use quantora.Float.{Floats, IsExact, abs, min, of_int, tiny}
use quantora.Float.Algebra
use quantora.Float.Algebra.{ring}
use quantora.Float.Order
use quantora.Backtest.Events.{OrderSide, buy, sell, sign, FillEvent}
use quantora.Backtest.Portfolio.{
  PositionState, Portfolio, find, store, quantity, open_position, add_to_position,
}
use quantora.Backtest.Portfolio.Fills.{
  snapped, close_position, reduced, settle, settle_elim, apply_fill,
}
use quantora.Backtest.Portfolio.Closing.{abs_signed, sign-cases}
use quantora.Backtest.Portfolio.Ledger.{find-store}

along : (side : OrderSide) → same_int (pos 1) (sign side) ≡ true → side ≡ buy
along buy h = refl
along sell h = cc

against : (side : OrderSide) → same_int (pos 1) (sign side) ≡ false → side ≡ sell
against buy h = cc
against sell h = refl

module _ (F : Floats) where
  open F use {Number, num, add as ◌+◌, sub as ◌-◌, mul as ◌*◌, neg, lt}

  infixl 65 ◌+◌ ◌-◌
  infixl 70 ◌*◌
  -- A sale is of no more than the quantity held.
  abbrev pub IsBacked : Number → OrderSide → Number → Type 0
  IsBacked held side amount = side ≡ sell → lt held amount ≡ false

  module _ (X : IsExact F) where
    opened_nonneg :
        (side : OrderSide) (q amount : Number)
        → q ≡ num 0
        → lt (num 0) amount ≡ true
        → IsBacked q side amount
        → lt (of_int F (sign side) * amount) (num 0) ≡ false
    opened_nonneg buy q amount e h b =
        rw (Algebra.one-mul F X amount) (Order.le_of_lt F X (num 0) amount h)
    opened_nonneg sell q amount e h b = cc (b refl, e, h)

    added_nonneg :
        (side : OrderSide) (q amount : Number)
        → side ≡ buy
        → lt (num 0) q ≡ true
        → lt (num 0) amount ≡ true
        → lt (q + of_int F (sign side) * amount) (num 0) ≡ false
    added_nonneg buy q amount e h k =
        rw (Algebra.one-mul F X amount)
          (Order.le_of_lt F X (num 0) (q + amount) (Order.add_pos F X q amount h k))
    added_nonneg sell q amount e h k = cc

    snapped_nonneg :
        (s : PositionState F)
        → lt s.quantity (num 0) ≡ false
        → lt (snapped F s).quantity (num 0) ≡ false
    unfolding snapped
    snapped_nonneg s h = elim (Bool-cases (lt (abs F s.quantity) (tiny F 12))) [
      | inl small ↦ rw small (X.lt_irrefl (num 0))
      | inr big ↦ rw big h
    ]

    -- What a backed sale closes is the whole of the fill.
    closes_all :
        (side : OrderSide) (q amount : Number)
        → lt (num 0) q ≡ true
        → lt (num 0) amount ≡ true
        → lt q amount ≡ false
        → min F (abs F (of_int F (sign side) * amount)) (abs F q) ≡ amount
    closes_all side q amount h k b =
        rw (abs_signed F X side amount k, Order.abs_of_pos F X q h) (Order.min_of_le F X amount q b)

    no_rest :
        (side : OrderSide) (q amount : Number)
        → lt (num 0) q ≡ true
        → lt (num 0) amount ≡ true
        → lt q amount ≡ false
        → lt (num 0) (
            abs F (of_int F (sign side) * amount)
            - min F (abs F (of_int F (sign side) * amount)) (abs F q))
          ≡ false
    no_rest side q amount h k b =
        rw (closes_all side q amount h k b, abs_signed F X side amount k, X.sub-eq-add, X.add-neg)
          (X.lt_irrefl (num 0))

    closed_nonneg :
        (q amount : Number) → lt q amount ≡ false → lt (q + num 1 * neg amount) (num 0) ≡ false
    closed_nonneg q amount b =
        rw (Algebra.one-mul F X (neg amount))
          (rw (X.add-neg) at (Order.add-le F X amount q (neg amount) b))

    pub settle-long :
        (p : PositionState F) (fill : FillEvent F) (i : ℕ)
        → lt p.quantity (num 0) ≡ false
        → lt (num 0) fill.quantity ≡ true
        → IsBacked p.quantity fill.side fill.quantity
        → lt (settle F p fill i).0.quantity (num 0) ≡ false
    unfolding close_position reduced open_position add_to_position
    settle-long p fill i h k b = elim (sign-cases F X p) [
      | inl (above, e, flat) ↦
          settle_elim F p fill i (λ r. lt r.0.quantity (num 0) ≡ false) (λ f. cc (f, flat))
            (λ _ same.
              added_nonneg fill.side p.quantity fill.quantity (along fill.side (rw e at same)) above
                k)
            (λ _ other more. cc (
              more,
              no_rest fill.side p.quantity fill.quantity above k
                  (b (against fill.side (rw e at other))),
            ))
            (λ _ other less.
              let backed = b (against fill.side (rw e at other)) in
              snapped_nonneg _ (
                rw (e, closes_all fill.side p.quantity fill.quantity above k backed)
                  (closed_nonneg p.quantity fill.quantity backed)))
      | inr (inl (below, _, _)) ↦ cc (below, h)
      | inr (inr (zero, flat)) ↦
          settle_elim F p fill i (λ r. lt r.0.quantity (num 0) ≡ false)
            (λ _. opened_nonneg fill.side p.quantity fill.quantity zero k b) (λ f _. cc (f, flat))
            (λ f _ _. cc (f, flat)) (λ f _ _. cc (f, flat))
    ]

    pub apply_fill-long :
        (p : Portfolio F) (fill : FillEvent F) (i : ℕ)
        → lt (quantity F fill.symbol p) (num 0) ≡ false
        → lt (num 0) fill.quantity ≡ true
        → IsBacked (quantity F fill.symbol p) fill.side fill.quantity
        → lt (quantity F fill.symbol (apply_fill F p fill i)) (num 0) ≡ false
    unfolding apply_fill quantity
    apply_fill-long p fill i h k b =
        let held = find F fill.symbol p.positions in
        ap (λ (t : PositionState F). lt t.quantity (num 0))
          (find-store F fill.symbol (settle F held fill i).0 (store F fill.symbol held p.positions))
        ∙ settle-long held fill i h k b
