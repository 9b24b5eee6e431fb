-- ===== src/Backtest/Compare/Benchmark.antt =====
-- The buy-and-hold reference against the portfolio's own accounting
-- (services/quant/backtest/compare.py, services/quant/backtest/portfolio.py).
use quantora.Prelude.{ℕ, ◌≡◌, [], ◌∷◌, String}
use quantora.Float.{Floats, IsExact}
use quantora.Float.Algebra.{ring}
use quantora.Backtest.Costs
use quantora.Backtest.Config.{BacktestConfig}
use quantora.Backtest.Events.{Timestamp, OrderSide, buy, sell, FillEvent, notional, cash_delta}
use quantora.Backtest.Portfolio.{opening}
use quantora.Backtest.Portfolio.Fills.{apply_fill, charge}
use quantora.Backtest.Portfolio.Ledger.{apply_fills}
use quantora.Backtest.Compare.{held}

module _ (F : Floats) where
  open F use {Number, num, add as ◌+◌, sub as ◌-◌, mul as ◌*◌, neg}

  infixl 65 ◌+◌ ◌-◌
  infixl 70 ◌*◌
  -- A fill of the reference, as the simulator would record it.
  abbrev pub reference_fill :
      BacktestConfig F → Timestamp → String → OrderSide → Number → Number → Number → FillEvent F
  reference_fill config time symbol side quantity reference price = record {
    timestamp = time;
    symbol = symbol;
    side = side;
    quantity = quantity;
    reference_price = reference;
    fill_price = price;
    commission = Costs.commission F config.cost_model (quantity * price);
    reason = "Buy and hold";
  }

  module _ (X : IsExact F) where
    two_fills :
        (c q e x a b : Number)
        → c + (neg (num 1) * (q * e) - a) + (neg (neg (num 1)) * (q * x) - b)
          ≡ c - q * e - a + q * x - b
    two_fills c q e x a b = simp (ring, X)

    -- In exact arithmetic: the final equity of the buy-and-hold reference is the cash of a portfolio
    -- with the same capital after two fills, a buy at the entry price and a sale of the same
    -- quantity at the exit price, each with the cost model's commission.
    pub held-apply_fills :
        (config : BacktestConfig F) (symbol : String) (bought sold : Timestamp) (i j : ℕ)
        (open_price close entry_price exit_price quantity : Number)
        → (apply_fills F (opening F config.initial_cash) (
            (reference_fill config bought symbol buy quantity open_price entry_price, i)
            ∷ (reference_fill config sold symbol sell quantity close exit_price, j)
            ∷ [])).cash
          ≡ (held F config entry_price exit_price quantity).final_equity
    unfolding apply_fills apply_fill charge cash_delta notional held
    held-apply_fills config symbol bought sold i j open_price close entry_price exit_price
          quantity =
        two_fills config.initial_cash quantity entry_price exit_price _ _
