-- ===== src/Backtest/Config.antt =====
-- The backtest configuration (services/quant/backtest/config.py).
pub mod Persistence
use mathlib.Core.Option
use quantora.Backtest.Costs
use quantora.Prelude.{
  Option, some, List, [], ◌∷◌, String, same_text, if◌then◌else◌, err, ◌>>=◌, true, false, Bool,
  ◌||◌, Result, ok, value_error, ◌>>◌, raise_if, get,
}
use quantora.Float.{Floats, le}
use quantora.Backtest.Events.{MarketEvent}
use quantora.Backtest.Costs.{CostModel}

pub data ExecutionModel : Type 0 where
  next_bar_open next_bar_close : ExecutionModel

-- `str(model)` and `ExecutionModel(text)`
unfoldable pub execution_name : ExecutionModel → String
execution_name next_bar_open = "next_bar_open"
execution_name next_bar_close = "next_bar_close"

unfoldable pub description : ExecutionModel → String
description next_bar_open =
    "Orders decided at a bar's close fill at the next bar's open. No information from the fill bar is used to make the decision."
description next_bar_close =
    "Orders decided at a bar's close fill at the next bar's close. No information from the fill bar is used to make the decision."

unfoldable pub execution_of : String → Result ExecutionModel
execution_of name =
    if same_text name "next_bar_open"
    then ok next_bar_open
    else (if same_text name "next_bar_close"
        then ok next_bar_close
        else err (value_error "ExecutionModel"))

abbrev has_members : List String → Bool
has_members [] = false
has_members (name ∷ names) = true

module _ (F : Floats) where
  open F use {Number, num, neg, lt}

  -- `getattr(market, execution_model.price_field)`
  unfoldable pub reference_price : ExecutionModel → MarketEvent F → Number
  reference_price next_bar_open market = market.open_price
  reference_price next_bar_close market = market.close

  pub record BacktestConfig : Type 0 where
    pub initial_cash : Number
    pub cost_model : CostModel F
    pub execution_model : ExecutionModel
    pub allow_short : Bool
    pub liquidate_at_end : Bool
    pub risk_free_rate : Number

  -- `__post_init__`
  unfoldable pub checked : BacktestConfig → Result BacktestConfig
  checked c = do
    raise_if (le F c.initial_cash (num 0)) (value_error "initial_cash")
    raise_if (lt c.risk_free_rate (neg (num 1)) || lt (num 1) c.risk_free_rate)
        (value_error "risk_free_rate")
    ok c

  abbrev pub default : BacktestConfig
  default = record {
    initial_cash = num 1000000;
    cost_model = Costs.default F;
    execution_model = next_bar_open;
    allow_short = false;
    liquidate_at_end = true;
    risk_free_rate = num 0;
  }

  -- A saved configuration: the value of each known key that it has, and its other keys.
  pub record Payload : Type 0 where
    pub initial_cash : Option Number
    pub cost_model : Option (List (String × Number))
    pub execution_model : Option String
    pub allow_short : Option Bool
    pub liquidate_at_end : Option Bool
    pub risk_free_rate : Option Number
    pub unknown : List String

  unfoldable pub as_dict : BacktestConfig → Payload
  unfolding Costs.as_dict execution_name
  as_dict c = record {
    initial_cash = some c.initial_cash;
    cost_model = some (Costs.as_dict F c.cost_model);
    execution_model = some (execution_name c.execution_model);
    allow_short = some c.allow_short;
    liquidate_at_end = some c.liquidate_at_end;
    risk_free_rate = some c.risk_free_rate;
    unknown = [];
  }

  -- `from_dict`, of values of the right types. An empty payload falls on the defaults as well.
  unfoldable pub from_dict : Payload → Result BacktestConfig
  unfolding checked Costs.from_dict execution_of
  from_dict p = do
    raise_if (has_members p.unknown) (value_error "Unknown backtest-config field(s)")
    cost_model ← Costs.from_dict F p.cost_model
    execution_model ← execution_of (Option.get_or p.execution_model "next_bar_open")
    checked (record {
      initial_cash = Option.get_or p.initial_cash (num 1000000);
      cost_model = cost_model;
      execution_model = execution_model;
      allow_short = Option.get_or p.allow_short false;
      liquidate_at_end = Option.get_or p.liquidate_at_end true;
      risk_free_rate = Option.get_or p.risk_free_rate (num 0);
    })

  -- `TRADING_DAYS_PER_YEAR`
  abbrev pub trading_days_per_year : Number
  trading_days_per_year = num 252

  -- `PERIODS_PER_YEAR`
  abbrev pub periods_of_interval : List (String × Number)
  periods_of_interval =
      ("1d", trading_days_per_year)
      ∷ ("1wk", num 52)
      ∷ ("1mo", num 12)
      ∷ ("1h", F.mul trading_days_per_year (F.div (num 25) (num 4)))
      ∷ ("30m", F.mul trading_days_per_year (F.div (num 25) (num 2)))
      ∷ ("15m", F.mul trading_days_per_year (num 25))
      ∷ ("5m", F.mul trading_days_per_year (num 75))
      ∷ []

  unfoldable pub periods_per_year : String → Number
  unfolding get
  periods_per_year interval = Option.get_or (get interval periods_of_interval) trading_days_per_year
