-- ===== src/Backtest/Engine/Affordable.antt =====
-- The cash constraint on a buy (`_execute`, services/quant/backtest/engine.py), in exact arithmetic.
use quantora.Prelude.{
  ◌≡◌, refl, ap, ◌∙◌, true, false, Bool-cases, inl, inr, none, some, ok, arith, ==_iff,
}
use quantora.Float.{Floats, IsExact}
use quantora.Float.Algebra.{ring}
use quantora.Float.Order
use quantora.Backtest.Costs.{CostModel, commission, checked}
use quantora.Backtest.Costs.Pricing
use quantora.Backtest.Config.{BacktestConfig, reference_price}
use quantora.Backtest.Events.{buy, OrderEvent, MarketEvent, notional, cash_delta}
use quantora.Backtest.Portfolio.{Portfolio}
use quantora.Backtest.Portfolio.Fills.{can_afford, max_affordable_quantity}
use quantora.Backtest.Engine.{Executed, fill_of, constrained, execute}

module _ (F : Floats) where
  open F use {Number, num, add as ◌+◌, sub as ◌-◌, mul as ◌*◌, div as ◌/◌, neg, lt, trunc}

  infixl 65 ◌+◌ ◌-◌
  infixl 70 ◌*◌ ◌/◌
  -- A fill is for no more than was ordered, and cash stays at or above zero.
  abbrev pub IsCovered : Portfolio F → OrderEvent F → Executed F → Type 0
  IsCovered p order (none, warned) = Unit
  IsCovered p order (some fill, warned) =
      (lt order.quantity fill.quantity ≡ false) × (lt (p.cash + cash_delta F fill) (num 0) ≡ false)

  module _ (X : IsExact F) where
    spent : (q x c : Number) → neg (num 1) * (q * x) - c ≡ neg (q * x + c)
    spent q x c = simp (ring, X)

    paid : (cash spend : Number) → lt cash spend ≡ false → lt (cash + neg spend) (num 0) ≡ false
    paid cash spend h = rw (X.add-neg) at (Order.add-le F X spend cash (neg spend) h)

    gross : (q x r : Number) → q * x + q * x * r ≡ q * (x * (num 1 + r))
    gross q x r = simp (ring, X)

    per_unit_pos :
        (x r : Number)
        → lt (num 0) x ≡ true
        → lt r (num 0) ≡ false
        → lt (num 0) (x * (num 1 + r)) ≡ true
    per_unit_pos x r h k = Order.mul_pos F X x (num 1 + r) h (
        Order.lt_of_lt_of_le F X (num 0) (num 1) (num 1 + r) (X.num_pos 1 (omega arith))
          (simp (ring, X) (simp (ring, X) at (Order.add-le F X (num 0) r (num 1) k))))

    -- The whole quantity that cash pays for.
    whole :
        (cash per : Number)
        → lt cash (num 0) ≡ false
        → lt (num 0) per ≡ true
        → lt cash (trunc (cash / per) * per) ≡ false
    whole cash per h k = rw (X.div-mul cash per (Order.ne_zero_of_pos F X per k)) at (
        Order.mul-le F X (trunc (cash / per)) (cash / per) per
          (X.trunc_le (cash / per) (Order.div_nonneg F X cash per h k))
          (Order.le_of_lt F X (num 0) per k))

    -- A quantity that costs more than another is not smaller.
    smaller :
        (q order per cash : Number)
        → lt (num 0) per ≡ true
        → lt cash (q * per) ≡ false
        → lt cash (order * per) ≡ true
        → lt order q ≡ false
    smaller q order per cash h fits exceeds = elim (Bool-cases (lt order q)) [
      | inl less ↦
          cc (fits, X.lt_trans cash (order * per) (q * per) exceeds (X.mul-lt order q per less h))
      | inr more ↦ more
    ]

    module _ (config : BacktestConfig F) (m : CostModel F)
        (valid : checked F config.cost_model ≡ ok m)
        (no_minimum : config.cost_model.commission_min ≡ num 0) (p : Portfolio F)
        (solvent : lt p.cash (num 0) ≡ false) where
      -- What a quantity costs, with the commission.
      outlay :
          (q x : Number)
          → lt q (num 0) ≡ false
          → lt (num 0) x ≡ true
          → q * x + commission F config.cost_model (q * x)
            ≡ q * (x * (num 1 + config.cost_model.commission_bps / num 10000))
      outlay q x h k =
          ap (λ (t : Number). q * x + t)
            (Pricing.commission_rate F X config.cost_model m (q * x) valid no_minimum
              (Order.mul_nonneg F X q x h (Order.le_of_lt F X (num 0) x k)))
          ∙ gross q x _

      rate_nonneg : lt (config.cost_model.commission_bps / num 10000) (num 0) ≡ false
      rate_nonneg =
          Order.div_nonneg F X config.cost_model.commission_bps (num 10000)
            (Pricing.checked-nonneg F config.cost_model m valid).0 (X.num_pos 10000 (omega arith))

      -- The price of one unit, with the commission.
      abbrev per_unit : Number → Number
      per_unit x = x * (num 1 + config.cost_model.commission_bps / num 10000)

      covered :
          (q x : Number)
          → lt q (num 0) ≡ false
          → lt (num 0) x ≡ true
          → lt p.cash (q * per_unit x) ≡ false
          → lt (p.cash + (neg (num 1) * (q * x) - commission F config.cost_model (q * x))) (num 0)
            ≡ false
      covered q x h k fits = rw (spent, outlay q x h k) (paid p.cash (q * per_unit x) fits)

      affordable-trunc :
          (x : Number)
          → lt (num 0) x ≡ true
          → max_affordable_quantity F p x (config.cost_model.commission_bps / num 10000)
            ≡ trunc (p.cash / per_unit x)
      unfolding max_affordable_quantity
      affordable-trunc x h = rw (h, per_unit_pos x _ h rate_nonneg) refl

      constrained-IsCovered :
          (order : OrderEvent F) (market : MarketEvent F) (reference x : Number)
          → order.side ≡ buy
          → lt (num 0) order.quantity ≡ true
          → lt (num 0) x ≡ true
          → IsCovered p order (constrained F config p order market reference x)
      unfolding constrained fill_of cash_delta notional can_afford
      constrained-IsCovered order market reference x side filled above =
          let per = per_unit x in
          let q = trunc (p.cash / per) in
          let per_pos = per_unit_pos x _ above rate_nonneg in
          let fits = whole p.cash per solvent per_pos in
          let q_nonneg =
            X.trunc_nonneg (p.cash / per) (Order.div_nonneg F X p.cash per solvent per_pos) in
          let order_nonneg = Order.le_of_lt F X (num 0) order.quantity filled in
          let cost = outlay order.quantity x order_nonneg above in
          elim (Bool-cases (lt p.cash (order.quantity * per))) [
            | inl exceeds ↦
                rw (side, affordable-trunc x above, cost, exceeds)
                  (elim (Bool-cases (lt (num 0) q)) [
                    | inl some_units ↦ rw some_units (
                      smaller q order.quantity per p.cash per_pos fits exceeds,
                      covered q x q_nonneg above fits,
                    )
                    | inr none_left ↦ rw none_left tt
                  ])
            | inr affordable ↦
                rw (side, cost, affordable)
                  (
                    X.lt_irrefl order.quantity,
                    covered order.quantity x order_nonneg above affordable,
                  )
          ]

      -- In exact arithmetic: with a valid cost model that has no minimum commission, cash that is not
      -- negative and a positive reference price, the execution of a buy order of a positive quantity
      -- returns, where its timestamp is the bar's, and any fill is for at most the quantity ordered
      -- and leaves cash, commission paid, at or above zero.
      pub execute-IsCovered :
          (order : OrderEvent F) (market : MarketEvent F)
          → order.timestamp ≡ market.timestamp
          → order.side ≡ buy
          → lt (num 0) order.quantity ≡ true
          → lt (num 0) (reference_price F config.execution_model market) ≡ true
          → (done : Executed F) × (execute F order market p config ≡ ok done)
            × IsCovered p order done
      unfolding execute
      execute-IsCovered order market now side filled above =
          let reference = reference_price F config.execution_model market in
          let (bought, _, e, _, up, _, _) =
            Pricing.fill_price-adverse F X config.cost_model m reference valid
              (Order.le_of_lt F X (num 0) reference above) in
          (
            constrained F config p order market reference bought,
            rw ((==_iff order.timestamp market.timestamp).1 now, side, e),
            constrained-IsCovered order market reference bought side filled
                (Order.lt_of_lt_of_le F X (num 0) reference bought above up),
          )
