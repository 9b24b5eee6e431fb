-- ===== src/Backtest/Portfolio/Fills.antt =====
-- `Portfolio.apply_fill`, its three cases, and the affordability checks
-- (services/quant/backtest/portfolio.py).
use quantora.Prelude.{
  ℕ, ◌-◌ as minus, Bool, true, if◌then◌else◌, none, List, [], ◌∷◌, ◌++◌, same_int, is_positive,
  Bool-cases, inl, inr, ◌≡◌, false,
}
use mathlib.Core.Option
use quantora.Float.{Floats, abs, le, min, of_int, truthy, tiny}
use quantora.Backtest.Events.{
  OrderSide, buy, sell, sign, FillEvent, notional, slippage_cost, total_cost, cash_delta,
}
use quantora.Backtest.Portfolio.{
  Trade, PositionState, Portfolio, is_flat, position_sign, store, position, open_position,
  add_to_position,
}

module _ (F : Floats) where
  open F use {Number, num, add as ◌+◌, sub as ◌-◌, mul as ◌*◌, div as ◌/◌, neg, trunc, lt}

  infixl 65 ◌+◌ ◌-◌
  infixl 70 ◌*◌ ◌/◌
  -- The shares of the entry-side and of the exit-side costs that a close settles.
  unfoldable pub entry_cost_share : PositionState F → Number → Number
  entry_cost_share p closing_quantity =
      let fraction = closing_quantity / abs F p.quantity in p.open_costs * fraction

  unfoldable pub exit_cost_share : FillEvent F → Number → Number → Number
  exit_cost_share fill closing_quantity exit_cost =
      if truthy F fill.quantity then exit_cost * (closing_quantity / fill.quantity) else num 0

  -- The trade that `_close` appends.
  unfoldable pub closed_trade : PositionState F → FillEvent F → Number → Number → ℕ → Trade F
  unfolding position_sign entry_cost_share exit_cost_share
  closed_trade p fill closing_quantity exit_cost bar_index =
      let direction_sign = position_sign F p in
      let gross =
        (fill.fill_price - p.average_price) * closing_quantity * of_int F direction_sign in
      let costs =
        entry_cost_share p closing_quantity + exit_cost_share fill closing_quantity exit_cost in
      let net = gross - costs in
      let entry_notional = p.average_price * closing_quantity in
      record {
        symbol = p.symbol;
        direction = if is_positive direction_sign then "long" else "short";
        quantity = closing_quantity;
        entry_timestamp = Option.get_or p.entry_timestamp fill.timestamp;
        entry_price = p.average_price;
        exit_timestamp = fill.timestamp;
        exit_price = fill.fill_price;
        gross_pnl = gross;
        costs = costs;
        pnl = net;
        return_pct = if truthy F entry_notional then net / entry_notional else num 0;
        bars_held = minus bar_index p.entry_bar_index;
        entry_reason = p.entry_reason;
        exit_reason = fill.reason;
      }

  -- A residue below 1e-12 is dropped, with what was attached to it.
  unfoldable pub snapped : PositionState F → PositionState F
  snapped p =
      if lt (abs F p.quantity) (tiny F 12)
      then record p {
        quantity = num 0;
        average_price = num 0;
        entry_timestamp = none;
        entry_reason = "";
        open_costs = num 0;
      }
      else p

  pub snapped-realized_pnl : (s : PositionState F) → (snapped s).realized_pnl ≡ s.realized_pnl
  unfolding snapped
  snapped-realized_pnl s = elim (Bool-cases (lt (abs F s.quantity) (tiny F 12))) [
    | inl small ↦ rw small
    | inr big ↦ rw big
  ]

  -- What `_close` leaves of the position, before the residue is dropped.
  unfoldable pub reduced : PositionState F → Number → Trade F → PositionState F
  unfolding position_sign entry_cost_share
  reduced p closing_quantity trade = record p {
    quantity = p.quantity + of_int F (position_sign F p) * neg closing_quantity;
    realized_pnl = p.realized_pnl + trade.pnl;
    open_costs = p.open_costs - entry_cost_share p closing_quantity;
  }

  -- `_close`: the position after it, and the trade.
  unfoldable pub close_position :
      PositionState F → FillEvent F → Number → Number → ℕ → PositionState F × Trade F
  unfolding closed_trade snapped reduced
  close_position p fill closing_quantity exit_cost bar_index =
      let trade = closed_trade p fill closing_quantity exit_cost bar_index in
      (snapped (reduced p closing_quantity trade), trade)

  -- The part of a reversing fill that opens the new position.
  unfoldable pub reversal : FillEvent F → Number → FillEvent F
  reversal fill remaining = record fill { quantity = remaining; commission = num 0 }

  -- The three cases of `apply_fill`: the position after the fill, and the trades that it closed.
  unfoldable pub settle : PositionState F → FillEvent F → ℕ → PositionState F × List (Trade F)
  unfolding is_flat position_sign open_position add_to_position close_position reversal total_cost
  settle p fill bar_index =
      let side_sign = of_int F (sign fill.side) in
      let signed_quantity = side_sign * fill.quantity in
      let cost = total_cost F fill in
      let closing_quantity = min F (abs F signed_quantity) (abs F p.quantity) in
      let closed = close_position p fill closing_quantity cost bar_index in
      let remaining = abs F signed_quantity - closing_quantity in
      let opening_cost = cost * (remaining / abs F signed_quantity) in
      if is_flat F p
      then (open_position F p fill signed_quantity cost bar_index, [])
      else (if same_int (position_sign F p) (sign fill.side)
          then (add_to_position F p fill signed_quantity cost, [])
          else (if lt (num 0) remaining
              then (
                open_position F closed.0 (reversal fill remaining) (side_sign * remaining)
                    opening_cost bar_index,
                closed.1 ∷ [],
              )
              else (closed.0, closed.1 ∷ [])))

  -- A property of `settle` is proved case by case.
  pub settle_elim :
      (p : PositionState F) (fill : FillEvent F) (i : ℕ)
      (P : PositionState F × List (Trade F) → Type 0)
      → let side_sign = of_int F (sign fill.side) in
        let signed = side_sign * fill.quantity in
        let cost = total_cost F fill in
        let closing = min F (abs F signed) (abs F p.quantity) in
        let closed = close_position p fill closing cost i in
        let rest = abs F signed - closing in
        let kept = cost * (rest / abs F signed) in
        (is_flat F p ≡ true → P (open_position F p fill signed cost i, []))
        → (is_flat F p ≡ false
            → same_int (position_sign F p) (sign fill.side) ≡ true
            → P (add_to_position F p fill signed cost, []))
        → (is_flat F p ≡ false
            → same_int (position_sign F p) (sign fill.side) ≡ false
            → lt (num 0) rest ≡ true
            → P (
              open_position F closed.0 (reversal fill rest) (side_sign * rest) kept i,
              closed.1 ∷ [],
            ))
        → (is_flat F p ≡ false
            → same_int (position_sign F p) (sign fill.side) ≡ false
            → lt (num 0) rest ≡ false
            → P (closed.0, closed.1 ∷ []))
        → P (settle p fill i)
  unfolding settle
  settle_elim p fill i P opens adds reverses closes = elim (Bool-cases (is_flat F p)) [
    | inl flat ↦ rw flat (opens flat)
    | inr held ↦ elim (Bool-cases (same_int (position_sign F p) (sign fill.side))) [
      | inl same ↦ rw (held, same) (adds held same)
      | inr other ↦
          let signed = of_int F (sign fill.side) * fill.quantity in
          let rest = abs F signed - min F (abs F signed) (abs F p.quantity) in
          elim (Bool-cases (lt (num 0) rest)) [
            | inl more ↦ rw (held, other, more) (reverses held other more)
            | inr less ↦ rw (held, other, less) (closes held other less)
          ]
    ]
  ]

  -- The totals that every fill moves.
  unfoldable pub charge : Portfolio F → FillEvent F → Portfolio F
  unfolding cash_delta slippage_cost notional
  charge p fill = record p {
    cash = p.cash + cash_delta F fill;
    total_commission = p.total_commission + fill.commission;
    total_slippage = p.total_slippage + slippage_cost F fill;
    total_traded_notional = p.total_traded_notional + abs F (notional F fill);
  }

  -- The position is an object of the dictionary, so that writing to it is a `store`.
  unfoldable pub apply_fill : Portfolio F → FillEvent F → ℕ → Portfolio F
  unfolding position charge settle store
  apply_fill p fill bar_index =
      let (held, p1) = position F fill.symbol p in
      let p2 = charge p1 fill in
      let (after, closed) = settle held fill bar_index in
      record p2 { positions = store F fill.symbol after p2.positions; trades = p2.trades ++ closed }

  unfoldable pub can_afford : Portfolio F → OrderSide → Number → Number → Number → Bool
  can_afford p sell quantity fill_price commission = true
  can_afford p buy quantity fill_price commission = le F (quantity * fill_price + commission) p.cash

  unfoldable pub max_affordable_quantity : Portfolio F → Number → Number → Number
  max_affordable_quantity p fill_price commission_rate =
      if le F fill_price (num 0)
      then num 0
      else (let per_unit = fill_price * (num 1 + commission_rate) in
          if lt (num 0) per_unit then trunc (p.cash / per_unit) else num 0)
