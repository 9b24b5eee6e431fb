-- ===== src/Backtest/Portfolio/Accounting.antt =====
-- The accounting of one fill, in exact arithmetic.
use quantora.Prelude.{
  ℕ, ◌≡◌, ◌≢◌, inl, inr, refl, sym, ap, ◌∙◌, subst, true, false, pos, negsuc, same_int, Bool-cases,
  map, foldl,
}
use quantora.Float.{Floats, IsExact, abs, min, of_int, tiny}
use quantora.Float.Algebra
use quantora.Float.Algebra.{ring}
use quantora.Float.Order
use quantora.Backtest.Events.{OrderSide, buy, sell, sign, FillEvent, slippage_cost, cash_delta}
use quantora.Backtest.Portfolio.{
  Trade, PositionState, is_flat, position_sign, open_position, add_to_position,
}
use quantora.Backtest.Portfolio.Fills.{
  snapped, close_position, settle, settle_elim, snapped-realized_pnl,
}
use quantora.Backtest.Portfolio.Closing.{
  book, IsTidy, heading, IsDustFree, abs_signed, sign-cases, open-book, add-book, close-book,
  reversal-book,
}

module _ (F : Floats) where
  open F use {Number, num, add as ◌+◌, sub as ◌-◌, mul as ◌*◌, div as ◌/◌, neg, lt}

  infixl 65 ◌+◌ ◌-◌
  infixl 70 ◌*◌ ◌/◌
  module _ (X : IsExact F) where
    long_opposite :
        (side : OrderSide)
        → same_int (pos 1) (sign side) ≡ false
        → of_int F (sign side) ≡ neg (num 1)
    long_opposite buy h = cc
    long_opposite sell h = refl

    short_opposite :
        (side : OrderSide)
        → same_int (negsuc 0) (sign side) ≡ false
        → of_int F (sign side) ≡ neg (neg (num 1))
    short_opposite buy h = sym (Algebra.neg-neg F X (num 1))
    short_opposite sell h = cc

    -- The facts that a close needs.
    pub opposite_facts :
        (p : PositionState F) (fill : FillEvent F)
        → is_flat F p ≡ false
        → same_int (position_sign F p) (sign fill.side) ≡ false
        → (of_int F (sign fill.side) ≡ neg (heading F p))
          × (heading F p * heading F p ≡ num 1)
          × (heading F p * abs F p.quantity ≡ p.quantity)
          × (lt (num 0) (abs F p.quantity) ≡ true)
    opposite_facts p fill flat other = elim (sign-cases F X p) [
      | inl (h, e, _) ↦
          rw (e, Order.abs_of_pos F X _ h)
            (
              long_opposite fill.side (rw e at other),
              X.mul-one (num 1),
              Algebra.one-mul F X p.quantity,
              h,
            )
      | inr (inl (h, e, _)) ↦
          rw (e, Order.abs_of_neg F X _ h)
            (
              short_opposite fill.side (rw e at other),
              simp (ring, X),
              simp (ring, X),
              Order.neg_pos F X _ h,
            )
      | inr (inr (h, e)) ↦ cc (e, flat)
    ]

    abs_zero : abs F (num 0) ≡ num 0
    unfolding abs
    abs_zero = rw (X.lt_irrefl (num 0))

    -- Adding to a position keeps it open.
    same_ne_zero :
        (p : PositionState F) (side : OrderSide) (amount : Number)
        → is_flat F p ≡ false
        → same_int (position_sign F p) (sign side) ≡ true
        → lt (num 0) amount ≡ true
        → p.quantity + of_int F (sign side) * amount ≢ num 0
    same_ne_zero p buy amount flat same h = elim (sign-cases F X p) [
      | inl (k, e, _) ↦
          rw (Algebra.one-mul F X amount)
            (Order.ne_zero_of_pos F X _ (Order.add_pos F X p.quantity amount k h))
      | inr (inl (k, e, _)) ↦ cc (rw e at same)
      | inr (inr (k, e)) ↦ cc (e, flat)
    ]
    same_ne_zero p sell amount flat same h = elim (sign-cases F X p) [
      | inl (k, e, _) ↦ cc (rw e at same)
      | inr (inl (k, e, _)) ↦ λ z.
          Order.ne_zero_of_pos F X _
            (Order.add_pos F X amount (neg p.quantity) h (Order.neg_pos F X p.quantity k))
            (simp (ring, X) at (ap neg z))
      | inr (inr (k, e)) ↦ cc (e, flat)
    ]

    signed_ne_zero :
        (side : OrderSide) (amount : Number)
        → lt (num 0) amount ≡ true
        → of_int F (sign side) * amount ≢ num 0
    signed_ne_zero side amount h z =
        Order.ne_zero_of_pos F X amount h
          (sym (abs_signed F X side amount h) ∙ ap (abs F) z ∙ abs_zero)

    snapped-IsTidy : (s : PositionState F) → IsTidy F (snapped F s)
    unfolding snapped
    snapped-IsTidy s = elim (Bool-cases (lt (abs F s.quantity) (tiny F 12))) [
      | inl small ↦ rw small (λ z. refl)
      | inr big ↦ rw big (λ z. cc (
        big,
        ap (λ (t : Number). lt (abs F t) (tiny F 12)) z,
        ap (λ (t : Number). lt t (tiny F 12)) abs_zero,
        Order.tiny_pos F X 12,
      ))
    ]

    -- Whatever a fill does to a position (open, add, close, reverse), the cash that it moves is the
    -- change of the book value, but for the slippage.
    pub settle-book :
        (p : PositionState F) (fill : FillEvent F) (i : ℕ)
        → lt (num 0) fill.quantity ≡ true
        → IsTidy F p
        → IsDustFree F p fill
        → book F (settle F p fill i).0 + cash_delta F fill ≡ book F p + slippage_cost F fill
    unfolding settle
    settle-book p fill i filled tidy clean = elim (Bool-cases (is_flat F p)) [
      | inl flat ↦
          let zero : p.quantity ≡ num 0 = unfold is_flat in (X.eq_iff p.quantity (num 0)).0 flat in
          rw flat (open-book F X p fill i zero (tidy zero))
      | inr held ↦ elim (Bool-cases (same_int (position_sign F p) (sign fill.side))) [
        | inl same ↦
            rw (held, same)
              (add-book F X p fill (same_ne_zero p fill.side fill.quantity held same filled))
        | inr other ↦
            let (opposite, unit, magnitude, above) = opposite_facts p fill held other in
            let amount = abs_signed F X fill.side fill.quantity filled in
            elim (Bool-cases (lt (abs F p.quantity) fill.quantity)) [
              | inl more ↦
                  rw (held, other, amount, Order.min_of_lt F X _ _ more, Order.sub_pos F X _ _ more)
                    (reversal-book F X p fill i opposite unit magnitude above filled)
              | inr less ↦
                  rw
                    (
                      held,
                      other,
                      amount,
                      Order.min_of_le F X _ _ less,
                      X.sub-eq-add fill.quantity fill.quantity,
                      X.add-neg,
                      X.lt_irrefl,
                    )
                    (close-book F X p fill i opposite unit magnitude above filled (
                      subst
                        (λ (t : Number).
                          lt (abs F (p.quantity + heading F p * neg t)) (tiny F 12) ≡ true
                          → p.quantity + heading F p * neg t ≡ num 0)
                        (ap (λ (t : Number). min F t (abs F p.quantity)) amount
                          ∙ Order.min_of_le F X _ _ less)
                        clean))
            ]
      ]
    ]

    -- After a fill, a flat position has no costs attached.
    pub settle-IsTidy :
        (p : PositionState F) (fill : FillEvent F) (i : ℕ)
        → lt (num 0) fill.quantity ≡ true
        → IsTidy F (settle F p fill i).0
    unfolding close_position snapped
    settle-IsTidy p fill i filled =
        settle_elim F p fill i (λ r. IsTidy F r.0)
          (λ flat z.
            absurd (signed_ne_zero fill.side fill.quantity filled (unfold open_position in z)))
          (λ held same z.
            absurd (
              same_ne_zero p fill.side fill.quantity held same filled
                (unfold add_to_position in z)))
          (λ held other more z.
            absurd (signed_ne_zero fill.side _ more (unfold open_position in z)))
          (λ held other less. snapped-IsTidy _)

module _ (F : Floats) where
  open F use {Number, num, add as ◌+◌}

  infixl 65 ◌+◌
  -- What a position has realized is what its closed trades report.
  pub settle-realized_pnl :
      (p : PositionState F) (fill : FillEvent F) (i : ℕ)
      → (settle F p fill i).0.realized_pnl
        ≡ foldl ◌+◌ p.realized_pnl (map (λ (t : Trade F). t.pnl) (settle F p fill i).1)
  settle-realized_pnl p fill i =
      settle_elim F p fill i
        (λ r. r.0.realized_pnl ≡ foldl ◌+◌ p.realized_pnl (map (λ (t : Trade F). t.pnl) r.1))
        (λ _. unfold open_position in refl) (λ _ _. unfold add_to_position in refl)
        (λ _ _ _. unfold open_position close_position in snapped-realized_pnl F _)
        (λ _ _ _. unfold close_position in snapped-realized_pnl F _)
