-- ===== src/Backtest/Events.antt =====
-- The events of the simulator (services/quant/backtest/events.py).
use quantora.Prelude.{ℕ, ℤ, pos, negsuc, String, Result, ok, value_error, ◌>>◌, raise_if}
use quantora.Float.{Floats, abs, le, of_int}

-- Timestamps are only compared, so they are numbers.
abbrev pub Timestamp : Type 0
Timestamp = ℕ

pub data OrderSide : Type 0 where
  buy sell : OrderSide

abbrev pub sign : OrderSide → ℤ
sign OrderSide.buy = pos 1
sign OrderSide.sell = negsuc 0

module _ (F : Floats) where
  open F use {Number, num, add as ◌+◌, sub as ◌-◌, mul as ◌*◌, neg}

  infixl 65 ◌+◌ ◌-◌
  infixl 70 ◌*◌
  pub record MarketEvent : Type 0 where
    pub timestamp : Timestamp
    pub symbol : String
    pub open_price : Number
    pub high : Number
    pub low : Number
    pub close : Number
    pub volume : Number

  -- The order type is always a market order.
  pub record OrderEvent : Type 0 where
    pub decision_timestamp : Timestamp
    pub timestamp : Timestamp
    pub symbol : String
    pub side : OrderSide
    pub quantity : Number
    pub reason : String

  -- The constructor's `__post_init__`
  unfoldable pub new_order : OrderEvent → Result OrderEvent
  new_order o = do raise_if (le F o.quantity (num 0)) (value_error "quantity"); ok o

  pub record FillEvent : Type 0 where
    pub timestamp : Timestamp
    pub symbol : String
    pub side : OrderSide
    pub quantity : Number
    pub reference_price : Number
    pub fill_price : Number
    pub commission : Number
    pub reason : String

  unfoldable pub notional : FillEvent → Number
  notional f = f.quantity * f.fill_price

  unfoldable pub slippage_cost : FillEvent → Number
  slippage_cost f = abs F (f.fill_price - f.reference_price) * f.quantity

  unfoldable pub total_cost : FillEvent → Number
  total_cost f = f.commission + slippage_cost f

  unfoldable pub cash_delta : FillEvent → Number
  cash_delta f = neg (of_int F (sign f.side)) * notional f - f.commission

  pub record PositionEvent : Type 0 where
    pub timestamp : Timestamp
    pub symbol : String
    pub quantity : Number
    pub average_price : Number
    pub cash : Number
    pub market_value : Number
    pub unrealized_pnl : Number
    pub realized_pnl : Number

  unfoldable pub equity : PositionEvent → Number
  equity p = p.cash + p.market_value
