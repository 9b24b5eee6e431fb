-- ===== src/Backtest/Costs/Pricing.antt =====
-- What a fill costs (services/quant/backtest/costs.py), in exact arithmetic.
use quantora.Prelude.{
  ◌≡◌, refl, sym, ap, ◌∙◌, false, Bool-cases, inl, inr, ok, pos, negsuc, raise_if-ok, arith,
}
use quantora.Float.{Floats, IsExact, abs, max}
use quantora.Float.Algebra.{ring}
use quantora.Float.Order
use quantora.Float.Division
use quantora.Backtest.Costs.{CostModel, checked, penalty, fill_price, commission, bps}

module _ (F : Floats) where
  open F use {Number, num, add as ◌+◌, sub as ◌-◌, mul as ◌*◌, div as ◌/◌, neg, lt}

  infixl 65 ◌+◌ ◌-◌
  infixl 70 ◌*◌ ◌/◌
  -- What the constructor's checks establish.
  pub checked-nonneg :
      (m k : CostModel F)
      → checked F m ≡ ok k
      → (lt m.commission_bps (num 0) ≡ false)
        × (lt m.commission_min (num 0) ≡ false)
        × (lt m.slippage_bps (num 0) ≡ false)
        × (lt m.spread_bps (num 0) ≡ false)
        × (m ≡ k)
  unfolding checked
  checked-nonneg m k h =
      let (a, h1) = raise_if-ok _ _ _ h in
      let (b, h2) = raise_if-ok _ _ _ h1 in
      let (c, h3) = raise_if-ok _ _ _ h2 in let (d, h4) = raise_if-ok _ _ _ h3 in (a, b, c, d, cc)

  module _ (X : IsExact F) where
    pub penalty_nonneg : (m k : CostModel F) → checked F m ≡ ok k → lt (penalty F m) (num 0) ≡ false
    unfolding penalty
    penalty_nonneg m k h =
        let (_, _, slippage, spread, _) = checked-nonneg m k h in
        let half = Order.div_nonneg F X m.spread_bps (num 2) spread (X.num_pos 2 (omega arith)) in
        Order.div_nonneg F X (m.slippage_bps + m.spread_bps / num 2) (bps F)
          (rw (X.add-zero) at (Order.add-le-add F X (num 0) m.slippage_bps (num 0) _ slippage half))
          (X.num_pos 10000 (omega arith))

    scaled_up :
        (x t : Number)
        → lt x (num 0) ≡ false
        → lt t (num 0) ≡ false
        → lt (x * (num 1 + num 1 * t)) x ≡ false
    scaled_up x t h k =
        simp (ring, X)
          (simp (ring, X) at
            (Order.add-le-add F X x x (num 0) (x * t) (X.lt_irrefl x)
              (Order.mul_nonneg F X x t h k)))

    scaled_down :
        (x t : Number)
        → lt x (num 0) ≡ false
        → lt t (num 0) ≡ false
        → lt x (x * (num 1 + neg (num 1) * t)) ≡ false
    scaled_down x t h k =
        simp (ring, X)
          (simp (ring, X) at
            (Order.add-le F X (num 0) (x * t) (x - x * t) (Order.mul_nonneg F X x t h k)))

    around : (x t : Number) → x * (num 1 + num 1 * t) + x * (num 1 + neg (num 1) * t) ≡ x + x
    around x t = simp (ring, X)

    -- In exact arithmetic: with a cost model that the constructor accepts and a reference price that
    -- is not negative, a buy fills at or above the reference, a sale at or below it, and the two
    -- sides lose the same amount (the two prices average to the reference).
    pub fill_price-adverse :
        (m k : CostModel F) (x : Number)
        → checked F m ≡ ok k
        → lt x (num 0) ≡ false
        → (bought sold : Number) × (fill_price F m x (pos 1) ≡ ok bought)
          × (fill_price F m x (negsuc 0) ≡ ok sold)
          × (lt bought x ≡ false)
          × (lt x sold ≡ false)
          × (bought + sold ≡ x + x)
    unfolding fill_price
    fill_price-adverse m k x h positive =
        let t = penalty F m in
        let nonneg = penalty_nonneg m k h in
        (
          x * (num 1 + num 1 * t),
          x * (num 1 + neg (num 1) * t),
          refl,
          refl,
          scaled_up x t positive nonneg,
          scaled_down x t positive nonneg,
          around x t,
        )

    -- Where the minimum is zero, the commission is the rate of the notional.
    pub commission_rate :
        (m k : CostModel F) (n : Number)
        → checked F m ≡ ok k
        → m.commission_min ≡ num 0
        → lt n (num 0) ≡ false
        → commission F m n ≡ n * (m.commission_bps / num 10000)
    unfolding commission max abs
    commission_rate m k n h zero positive =
        let (rate, _, _, _, _) = checked-nonneg m k h in
        let ten_thousand = X.num_pos 10000 (omega arith) in
        let full = n * m.commission_bps / num 10000 in
        let nonneg =
          Order.div_nonneg F X (n * m.commission_bps) (num 10000)
            (Order.mul_nonneg F X n m.commission_bps positive rate) ten_thousand in
        let share : full ≡ n * (m.commission_bps / num 10000) =
          Division.div-eq-mul F X (n * m.commission_bps) (num 10000)
            (Order.ne_zero_of_pos F X (num 10000) ten_thousand)
          ∙ X.mul_assoc n m.commission_bps (num 1 / num 10000)
          ∙ ap (λ (t : Number). n * t)
              (sym (
                Division.div-eq-mul F X m.commission_bps (num 10000)
                  (Order.ne_zero_of_pos F X (num 10000) ten_thousand))) in
        elim (Bool-cases (lt (num 0) full)) [
          | inl above ↦ rw (positive, zero, above) share
          | inr below ↦
              rw (positive, zero, below) (sym (X.lt_total full (num 0) nonneg below) ∙ share)
        ]
