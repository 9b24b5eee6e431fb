-- ===== src/Backtest/Portfolio/Closing.antt =====
-- The book value of a position, and how one close or reversal moves it, in exact arithmetic.
use quantora.Prelude.{
  ℕ, ◌≡◌, ◌≢◌, ◌⊎◌, inl, inr, sym, ap, ◌∙◌, true, false, pos, negsuc, Bool-cases,
}
use quantora.Float.{Floats, IsExact, abs, min, of_int, tiny}
use quantora.Float.Algebra
use quantora.Float.Algebra.{ring}
use quantora.Float.Order
use quantora.Float.Division
use quantora.Backtest.Events.{
  OrderSide, buy, sell, sign, FillEvent, notional, slippage_cost, total_cost, cash_delta,
}
use quantora.Backtest.Portfolio.{
  Trade, PositionState, is_flat, position_sign, open_position, add_to_position,
}
use quantora.Backtest.Portfolio.Fills.{
  entry_cost_share, exit_cost_share, closed_trade, snapped, reduced, close_position, reversal,
  snapped-realized_pnl,
}

module _ (F : Floats) where
  open F use {Number, num, add as ◌+◌, sub as ◌-◌, mul as ◌*◌, div as ◌/◌, neg, lt}

  infixl 65 ◌+◌ ◌-◌
  infixl 70 ◌*◌ ◌/◌
  -- What an open position has cost so far, its realized PnL taken off.
  abbrev pub book : PositionState F → Number
  book p = p.quantity * p.average_price + p.open_costs - p.realized_pnl

  -- A flat position has no costs attached.
  abbrev pub IsTidy : PositionState F → Type 0
  IsTidy p = p.quantity ≡ num 0 → p.open_costs ≡ num 0

  abbrev pub heading : PositionState F → Number
  heading p = of_int F (position_sign F p)

  -- What a fill on the other side leaves of a position.
  abbrev pub residue : PositionState F → FillEvent F → Number
  residue p fill =
      p.quantity
      + heading p
        * neg (min F (abs F (of_int F (sign fill.side) * fill.quantity)) (abs F p.quantity))

  -- A fill leaves no residue so small that the code drops it.
  abbrev pub IsDustFree : PositionState F → FillEvent F → Type 0
  IsDustFree p fill = lt (abs F (residue p fill)) (tiny F 12) ≡ true → residue p fill ≡ num 0

  module _ (X : IsExact F) where
    pub abs_signed :
        (side : OrderSide) (q : Number) → lt (num 0) q ≡ true → abs F (of_int F (sign side) * q) ≡ q
    abs_signed buy q h = rw (Algebra.one-mul F X q) (Order.abs_of_pos F X q h)
    abs_signed sell q h =
        ap (abs F) (Algebra.neg-mul F X (num 1) q ∙ ap neg (Algebra.one-mul F X q))
        ∙ Order.abs_of_neg F X (neg q) (simp (ring, X) at (Order.neg-lt F X (num 0) q h))
        ∙ Algebra.neg-neg F X q

    -- A position is long, short or flat, and its sign says which.
    pub sign-cases :
        (p : PositionState F)
        → ((lt (num 0) p.quantity ≡ true) × (position_sign F p ≡ pos 1) × (is_flat F p ≡ false))
          ⊎ ((lt p.quantity (num 0) ≡ true)
              × (position_sign F p ≡ negsuc 0)
              × (is_flat F p ≡ false))
          ⊎ ((p.quantity ≡ num 0) × (is_flat F p ≡ true))
    unfolding position_sign is_flat
    sign-cases p = elim (Order.trichotomy F X p.quantity) [
      | inl h ↦ inl (h, rw h, Order.eq_of_ne F X _ _ (Order.ne_zero_of_pos F X _ h))
      | inr (inl h) ↦ inr (
          inl (h, rw (Order.lt_asymm F X _ _ h, h), Order.eq_of_ne F X _ _ (Order.lt-ne F X _ _ h)))
      | inr (inr h) ↦ inr (inr (h, (X.eq_iff _ _).1 h))
    ]

    pub open-book :
        (p : PositionState F) (fill : FillEvent F) (i : ℕ)
        → p.quantity ≡ num 0
        → p.open_costs ≡ num 0
        → let signed = of_int F (sign fill.side) * fill.quantity in
          book (open_position F p fill signed (total_cost F fill) i) + cash_delta F fill
          ≡ book p + slippage_cost F fill
    unfolding open_position total_cost cash_delta notional
    open-book p fill i q c = rw (q, c) (simp (ring, X))

    pub add-book :
        (p : PositionState F) (fill : FillEvent F)
        → let signed = of_int F (sign fill.side) * fill.quantity in
          p.quantity + signed ≢ num 0
          → book (add_to_position F p fill signed (total_cost F fill)) + cash_delta F fill
            ≡ book p + slippage_cost F fill
    unfolding add_to_position total_cost cash_delta notional
    add-book p fill h =
        ap
          (λ (t : Number).
            t + (p.open_costs + total_cost F fill) - p.realized_pnl + cash_delta F fill)
          (Division.mul-div F X _ _ h)
        ∙ simp (ring, X)

    reduced-book :
        (p : PositionState F) (fill : FillEvent F) (c cost : Number) (i : ℕ)
        → book (reduced F p c (closed_trade F p fill c cost i))
          ≡ book p - heading p * c * fill.fill_price + exit_cost_share F fill c cost
    unfolding reduced closed_trade
    reduced-book p fill c cost i = simp (ring, X)

    -- The shares that a close settles.
    exit_cost_share-full :
        (fill : FillEvent F) (cost : Number)
        → lt (num 0) fill.quantity ≡ true
        → exit_cost_share F fill fill.quantity cost ≡ cost
    unfolding exit_cost_share
    exit_cost_share-full fill cost h =
        let ne = Order.ne_zero_of_pos F X fill.quantity h in
        rw (Order.eq_of_ne F X _ _ ne, Division.div_self F X _ ne) (X.mul-one cost)

    exit_cost_share-add :
        (fill : FillEvent F) (c cost : Number)
        → lt (num 0) fill.quantity ≡ true
        → exit_cost_share F fill c cost + cost * ((fill.quantity - c) / fill.quantity) ≡ cost
    unfolding exit_cost_share
    exit_cost_share-add fill c cost h =
        let ne = Order.ne_zero_of_pos F X fill.quantity h in
        rw (Order.eq_of_ne F X _ _ ne)
          (rw (Algebra.add_comm F X, ← X.mul-add, Division.div-sub-add F X _ _ ne) (X.mul-one cost))

    entry_cost_share-full :
        (p : PositionState F)
        → abs F p.quantity ≢ num 0
        → entry_cost_share F p (abs F p.quantity) ≡ p.open_costs
    unfolding entry_cost_share
    entry_cost_share-full p h =
        ap (λ (t : Number). p.open_costs * t) (Division.div_self F X _ h) ∙ X.mul-one p.open_costs

    snapped-book :
        (s : PositionState F)
        → (lt (abs F s.quantity) (tiny F 12) ≡ true → (s.quantity ≡ num 0) × (s.open_costs ≡ num 0))
        → book (snapped F s) ≡ book s
    unfolding snapped
    snapped-book s h = elim (Bool-cases (lt (abs F s.quantity) (tiny F 12))) [
      | inl small ↦ rw (small, (h small).0, (h small).1) (simp (ring, X))
      | inr big ↦ rw big
    ]

    close_sum :
        (d side amount price before commission slippage : Number)
        → side ≡ neg d
        → before
            - d * amount * price
            + (commission + slippage)
            + (neg side * (amount * price) - commission)
          ≡ before + slippage
    close_sum d side amount price before commission slippage e = rw e (simp (ring, X))

    reversal_sum :
        (d c q side amount price average costs realized settled kept commission slippage : Number)
        → side ≡ neg d
        → d * c ≡ q
        → settled + kept ≡ commission + slippage
        → side * (amount - c) * price
            + kept
            - (realized + ((price - average) * c * d - (costs + settled)))
            + (neg side * (amount * price) - commission)
          ≡ q * average + costs - realized + slippage
    reversal_sum d c q side amount price average costs realized settled kept commission slippage e f
          g =
        let rest : kept ≡ commission + slippage - settled =
          Algebra.add_cancel F X kept _ settled
            (Algebra.add_comm F X kept settled ∙ g ∙ simp (ring, X)) in
        rw (e, ← f, rest) (simp (ring, X))

    -- A fill on the other side of a position that is not flat.
    module _ (p : PositionState F) (fill : FillEvent F) (i : ℕ)
        (opposite : of_int F (sign fill.side) ≡ neg (heading p))
        (unit : heading p * heading p ≡ num 1)
        (magnitude : heading p * abs F p.quantity ≡ p.quantity)
        (held : lt (num 0) (abs F p.quantity) ≡ true)
        (filled : lt (num 0) fill.quantity ≡ true) where
      nothing_left : (c : Number) → p.quantity + heading p * neg c ≡ num 0 → abs F p.quantity ≡ c
      nothing_left c e =
          let d = heading p in
          let same : p.quantity ≡ d * c =
            Algebra.add_cancel F X p.quantity (d * c) (d * neg c) (e ∙ simp (ring, X)) in
          let q = abs F p.quantity in
          sym (Algebra.one-mul F X q)
          ∙ ap (λ (t : Number). t * q) (sym unit)
          ∙ X.mul_assoc d d q
          ∙ ap (λ (t : Number). d * t) (magnitude ∙ same)
          ∙ sym (X.mul_assoc d d c)
          ∙ ap (λ (t : Number). t * c) unit
          ∙ Algebra.one-mul F X c

      -- If nothing is left of the position, nothing is left of its costs.
      reduced_costs :
          (c : Number) (trade : Trade F)
          → p.quantity + heading p * neg c ≡ num 0
          → (reduced F p c trade).open_costs ≡ num 0
      unfolding reduced
      reduced_costs c trade e =
          let whole = nothing_left c e in
          let share =
            ap (entry_cost_share F p) (sym whole)
            ∙ entry_cost_share-full p (Order.ne_zero_of_pos F X _ held) in
          ap (λ (t : Number). p.open_costs - t) share ∙ simp (ring, X)

      pub close-book :
          (lt (abs F (p.quantity + heading p * neg fill.quantity)) (tiny F 12) ≡ true
            → p.quantity + heading p * neg fill.quantity ≡ num 0)
          → book (close_position F p fill fill.quantity (total_cost F fill) i).0 + cash_delta F fill
            ≡ book p + slippage_cost F fill
      unfolding close_position reduced
      close-book clean =
          let cost = total_cost F fill in
          let trade = closed_trade F p fill fill.quantity cost i in
          ap (λ (t : Number). t + cash_delta F fill)
            (snapped-book (reduced F p fill.quantity trade)
                (λ small. (clean small, reduced_costs fill.quantity trade (clean small)))
              ∙ reduced-book p fill fill.quantity cost i
              ∙ ap (λ (t : Number). book p - heading p * fill.quantity * fill.fill_price + t)
                  (exit_cost_share-full fill cost filled))
          ∙ unfold cash_delta total_cost notional in
            close_sum (heading p) (of_int F (sign fill.side)) fill.quantity fill.fill_price (book p)
              fill.commission (slippage_cost F fill) opposite

      reversal_pnl :
          let c = abs F p.quantity in
          let cost = total_cost F fill in
          (reduced F p c (closed_trade F p fill c cost i)).realized_pnl
          ≡ p.realized_pnl
            + ((fill.fill_price - p.average_price) * c * heading p
                - (p.open_costs + exit_cost_share F fill c cost))
      unfolding reduced closed_trade
      reversal_pnl =
          let c = abs F p.quantity in
          let gross = (fill.fill_price - p.average_price) * c * heading p in
          ap
            (λ (t : Number).
              p.realized_pnl + (gross - (t + exit_cost_share F fill c (total_cost F fill))))
            (entry_cost_share-full p (Order.ne_zero_of_pos F X _ held))

      -- A reversing fill closes the position and opens another on its own side.
      pub reversal-book :
          let cost = total_cost F fill in
          let c = abs F p.quantity in
          let closed = close_position F p fill c cost i in
          let rest = fill.quantity - c in
          book (
              open_position F closed.0
                (reversal F fill rest)
                (of_int F (sign fill.side) * rest)
                (cost * (rest / fill.quantity))
                i)
            + cash_delta F fill
          ≡ book p + slippage_cost F fill
      unfolding close_position open_position reversal
      reversal-book =
          let cost = total_cost F fill in
          let c = abs F p.quantity in
          let trade = closed_trade F p fill c cost i in
          let rest = fill.quantity - c in
          let kept = cost * (rest / fill.quantity) in
          let opened = of_int F (sign fill.side) * rest * fill.fill_price + kept in
          ap (λ (t : Number). opened - t + cash_delta F fill)
            (snapped-realized_pnl F (reduced F p c trade) ∙ reversal_pnl)
          ∙ unfold cash_delta total_cost notional in
            reversal_sum (heading p) c p.quantity (of_int F (sign fill.side)) fill.quantity
              fill.fill_price p.average_price p.open_costs p.realized_pnl
              (exit_cost_share F fill c cost) kept fill.commission (slippage_cost F fill) opposite
              magnitude (exit_cost_share-add fill c cost filled)
