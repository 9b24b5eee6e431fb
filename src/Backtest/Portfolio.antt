-- ===== src/Backtest/Portfolio.antt =====
-- Portfolio state: cash, positions, realized PnL and closed trades
-- (services/quant/backtest/portfolio.py).
pub mod Fills
pub mod Closing
pub mod Accounting
pub mod Ledger
pub mod Trades
pub mod Netting
pub mod Long
use quantora.Prelude.{
  ℕ, ◌-◌ as minus, Bool, true, false, if◌then◌else◌, Option, none, some, List, [], ◌∷◌, ◌++◌, map,
  String, same_text, ℤ, pos, negsuc, same_int, is_positive, Result, ok, value_error, ◌>>◌, raise_if,
}
use quantora.Float.{Floats, abs, le, min, sum, of_int, truthy, tiny}
use quantora.Backtest.Events.{
  Timestamp, OrderSide, sign, FillEvent, notional, slippage_cost, total_cost, cash_delta,
}

module _ (F : Floats) where
  open F use {Number, num, add as ◌+◌, sub as ◌-◌, mul as ◌*◌, div as ◌/◌, neg, trunc, lt, eq}

  infixl 65 ◌+◌ ◌-◌
  infixl 70 ◌*◌ ◌/◌
  pub record Trade : Type 0 where
    pub symbol : String
    pub direction : String
    pub quantity : Number
    pub entry_timestamp : Timestamp
    pub entry_price : Number
    pub exit_timestamp : Timestamp
    pub exit_price : Number
    pub gross_pnl : Number
    pub costs : Number
    pub pnl : Number
    pub return_pct : Number
    pub bars_held : ℕ
    pub entry_reason : String
    pub exit_reason : String

  unfoldable pub is_win : Trade → Bool
  is_win t = lt (num 0) t.pnl

  pub record PositionState : Type 0 where
    pub symbol : String
    pub quantity : Number
    pub average_price : Number
    pub realized_pnl : Number
    pub entry_timestamp : Option Timestamp
    pub entry_bar_index : ℕ
    pub entry_reason : String
    pub open_costs : Number

  -- A position as the dictionary's `setdefault` makes it.
  abbrev pub empty_position : String → PositionState
  empty_position symbol = record {
    symbol = symbol;
    quantity = num 0;
    average_price = num 0;
    realized_pnl = num 0;
    entry_timestamp = none;
    entry_bar_index = 0;
    entry_reason = "";
    open_costs = num 0;
  }

  unfoldable pub is_flat : PositionState → Bool
  is_flat p = eq p.quantity (num 0)

  unfoldable pub position_sign : PositionState → ℤ
  position_sign p =
      if lt (num 0) p.quantity then pos 1 else (if lt p.quantity (num 0) then negsuc 0 else pos 0)

  unfoldable pub position_value : PositionState → Number → Number
  position_value p price = p.quantity * price

  unfoldable pub position_unrealized : PositionState → Number → Number
  position_unrealized p price = (price - p.average_price) * p.quantity

  abbrev pub Positions : Type 0
  Positions = List (String × PositionState)

  pub record Portfolio : Type 0 where
    pub initial_cash : Number
    pub cash : Number
    pub positions : Positions
    pub trades : List Trade
    pub total_commission : Number
    pub total_slippage : Number
    pub total_traded_notional : Number

  abbrev pub opening : Number → Portfolio
  opening initial_cash = record {
    initial_cash = initial_cash;
    cash = initial_cash;
    positions = [];
    trades = [];
    total_commission = num 0;
    total_slippage = num 0;
    total_traded_notional = num 0;
  }

  unfoldable pub new_portfolio : Number → Result Portfolio
  new_portfolio initial_cash = do
    raise_if (le F initial_cash (num 0)) (value_error "initial_cash")
    ok (opening initial_cash)

  -- The position of a symbol, or the one that `setdefault` would insert.
  unfoldable pub find : String → Positions → PositionState
  find symbol [] = empty_position symbol
  find symbol ((key, p) ∷ ps) = if same_text key symbol then p else find symbol ps

  -- The dictionary with the position of a symbol written: its entry, or a new one at the end.
  unfoldable pub store : String → PositionState → Positions → Positions
  store symbol new [] = (symbol, new) ∷ []
  store symbol new ((key, p) ∷ ps) =
      if same_text key symbol then (key, new) ∷ ps else (key, p) ∷ store symbol new ps

  -- `Portfolio.position`: `setdefault` inserts a missing entry and leaves a present one alone.
  unfoldable pub position : String → Portfolio → PositionState × Portfolio
  unfolding find store
  position symbol p =
      let found = find symbol p.positions in
      (found, record p { positions = store symbol found p.positions })

  unfoldable pub quantity : String → Portfolio → Number
  unfolding find
  quantity symbol p = (find symbol p.positions).quantity

  -- A price from a dictionary of prices
  unfoldable pub price_of : String → List (String × Number) → Option Number
  price_of symbol [] = none
  price_of symbol ((key, x) ∷ prices) =
      if same_text key symbol then some x else price_of symbol prices

  -- What each priced position contributes to a sum over the positions.
  unfoldable pub priced :
      (PositionState → Number → Number) → List (String × Number) → Positions → List Number
  unfolding price_of
  priced f prices [] = []
  priced f prices ((key, p) ∷ ps) =
      let rest = priced f prices ps in
      elim (price_of p.symbol prices) [ none ↦ rest | some x ↦ f p x ∷ rest ]

  unfoldable pub market_value : Portfolio → List (String × Number) → Number
  unfolding priced position_value
  market_value p prices = sum F (priced position_value prices p.positions)

  unfoldable pub equity : Portfolio → List (String × Number) → Number
  unfolding market_value
  equity p prices = p.cash + market_value p prices

  unfoldable pub unrealized_pnl : Portfolio → List (String × Number) → Number
  unfolding priced position_unrealized
  unrealized_pnl p prices = sum F (priced position_unrealized prices p.positions)

  unfoldable pub realized_pnl : Portfolio → Number
  realized_pnl p = sum F (map (λ e. e.1.realized_pnl) p.positions)

  unfoldable pub open_position : PositionState → FillEvent F → Number → Number → ℕ → PositionState
  open_position p fill signed_quantity cost bar_index = record p {
    quantity = signed_quantity;
    average_price = fill.fill_price;
    entry_timestamp = some fill.timestamp;
    entry_bar_index = bar_index;
    entry_reason = fill.reason;
    open_costs = cost;
  }

  unfoldable pub add_to_position : PositionState → FillEvent F → Number → Number → PositionState
  add_to_position p fill signed_quantity cost =
      let new_quantity = p.quantity + signed_quantity in
      record p {
        average_price =
            (p.average_price * p.quantity + fill.fill_price * signed_quantity) / new_quantity;
        quantity = new_quantity;
        open_costs = p.open_costs + cost;
      }
