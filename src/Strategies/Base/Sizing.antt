-- ===== src/Strategies/Base/Sizing.antt =====
-- The default sizing rule (services/quant/strategies/base.py), in exact arithmetic.
use quantora.Prelude.{◌≡◌, true, false, Bool-cases, inl, inr, arith}
use quantora.Float.{Floats, IsExact, min, max}
use quantora.Float.Algebra
use quantora.Float.Order
use quantora.Strategies.Base.{long, SizingContext, default_allocation, conviction, position_size}

module _ (F : Floats) (X : IsExact F) where
  open F use {Number, num, mul as ◌*◌, div as ◌/◌, lt, trunc}

  infixl 70 ◌*◌ ◌/◌
  conviction_nonneg : (s : Number) → lt (conviction F s) (num 0) ≡ false
  unfolding conviction min max
  conviction_nonneg s = elim (Bool-cases (lt s (num 0))) [
    | inl below ↦
        rw (below, Order.le_of_lt F X (num 0) (num 1) (X.num_pos 1 (omega arith)))
          (X.lt_irrefl (num 0))
    | inr above ↦ elim (Bool-cases (lt (num 1) s)) [
      | inl more ↦ rw (above, more) (Order.num_nonneg F X 1)
      | inr less ↦ rw (above, less) above
    ]
  ]

  conviction_le_one : (s : Number) → lt (num 1) (conviction F s) ≡ false
  unfolding conviction min
  conviction_le_one s = elim (Bool-cases (lt (num 1) (max F s (num 0)))) [
    | inl more ↦ rw more (X.lt_irrefl (num 1))
    | inr less ↦ rw less less
  ]

  -- In exact arithmetic: at a positive price and with equity that is not negative, the default size
  -- of a long position is not negative, and what it costs at that price is at most the share of equity
  -- that the strategy allocates, 95%.
  pub position_size-long :
      (context : SizingContext F)
      → context.direction ≡ long
      → lt (num 0) context.price ≡ true
      → lt context.equity (num 0) ≡ false
      → (lt (position_size F context) (num 0) ≡ false)
        × (lt (context.equity * default_allocation F) (position_size F context * context.price)
            ≡ false)
  unfolding position_size
  position_size-long context side above solvent =
      let share = context.equity * default_allocation F in
      let budget = share * conviction F context.strength in
      let allocated = Order.mul_nonneg F X context.equity (default_allocation F) solvent (
        Order.div_nonneg F X (num 95) (num 100) (Order.num_nonneg F X 95)
          (X.num_pos 100 (omega arith))) in
      let funded =
        Order.mul_nonneg F X share (conviction F context.strength) allocated
          (conviction_nonneg context.strength) in
      let units = Order.div_nonneg F X budget context.price funded above in
      let spent =
        rw (X.div-mul budget context.price (Order.ne_zero_of_pos F X context.price above)) at (
          Order.mul-le F X (trunc (budget / context.price)) (budget / context.price) context.price
            (X.trunc_le (budget / context.price) units)
            (Order.le_of_lt F X (num 0) context.price above)) in
      let capped =
        rw (Algebra.mul_comm F X (conviction F context.strength) share, Algebra.one-mul F X share)
          at
          (Order.mul-le F X (conviction F context.strength) (num 1) share
            (conviction_le_one context.strength) allocated) in
      rw (side, above, X.mul-one)
        (
          X.trunc_nonneg (budget / context.price) units,
          Order.le_trans F X (trunc (budget / context.price) * context.price) budget share spent
              capped,
        )
