-- ===== src/Backtest/Compare.antt =====
-- The comparison of strategies: its metric table and its buy-and-hold reference
-- (services/quant/backtest/compare.py).
pub mod Best
pub mod Benchmark
use quantora.Prelude.{
  ℕ, Bool, if◌then◌else◌, ltb, Option, none, some, List, [], ◌∷◌, String, same_text, length, map,
  Result, ok, pos, negsuc, ◌>>=◌, put, get,
}
use quantora.Float.{Floats, le}
use quantora.Backtest.Costs
use quantora.Backtest.Config.{BacktestConfig}
use quantora.Backtest.Engine.{Bar}
use quantora.Backtest.Engine.Loop.{last?}

pub data Direction : Type 0 where
  higher lower : Direction

-- `COMPARISON_METRICS`
abbrev pub comparison_metrics : List (String × String × Option Direction)
comparison_metrics =
    ("total_return", "Total return", some higher)
    ∷ ("cagr", "CAGR", some higher)
    ∷ ("sharpe", "Sharpe", some higher)
    ∷ ("sortino", "Sortino", some higher)
    ∷ ("max_drawdown", "Max drawdown", some higher)
    ∷ ("calmar", "Calmar", some higher)
    ∷ ("win_rate", "Win rate", some higher)
    ∷ ("profit_factor", "Profit factor", some higher)
    ∷ ("trade_count", "Trades", none)
    ∷ ("turnover", "Turnover (annual)", none)
    ∷ ("exposure", "Avg exposure", none)
    ∷ ("total_costs", "Total costs", some lower)
    ∷ ("cost_drag", "Cost drag", some lower)
    ∷ ("annualized_volatility", "Volatility", some lower)
    ∷ ("final_equity", "Final equity", some higher)
    ∷ []

module _ (F : Floats) where
  open F use {Number, num, add as ◌+◌, sub as ◌-◌, mul as ◌*◌, div as ◌/◌, trunc, lt}

  infixl 65 ◌+◌ ◌-◌
  infixl 70 ◌*◌ ◌/◌
  -- What the table reads of a strategy's result.
  pub record Entry : Type 0 where
    pub label : String
    pub metrics : List (String × Option Number)
    pub unavailable : List (String × String)

  pub record Row : Type 0 where
    pub metric : String
    pub label : String
    pub values : List (String × Option Number)
    pub better : Option Direction
    pub best : Option String
    pub unavailable : List (String × String)

  -- `metrics.get(key)`, of a metric that is missing or None
  unfoldable pub metric_of : String → Entry → Option Number
  unfolding get
  metric_of key e = elim (get key e.metrics) [ none ↦ none | some v ↦ v ]

  unfoldable pub values_of :
      String → List Entry → List (String × Option Number) → List (String × Option Number)
  unfolding metric_of put
  values_of key [] values = values
  values_of key (e ∷ es) values = values_of key es (put e.label (metric_of key e) values)

  -- The reason of one entry, if its metric is None and it gives one that is not empty.
  unfoldable pub note_reason :
      String → Option Number → Option String → List (String × String) → List (String × String)
  unfolding put
  note_reason label none (some reason) notes =
      if same_text reason "" then notes else put label reason notes
  note_reason label none none notes = notes
  note_reason label (some v) reason notes = notes

  unfoldable pub unavailable_of :
      String → List Entry → List (String × String) → List (String × String)
  unfolding metric_of note_reason get
  unavailable_of key [] notes = notes
  unavailable_of key (e ∷ es) notes =
      unavailable_of key es (note_reason e.label (metric_of key e) (get key e.unavailable) notes)

  unfoldable pub comparable : List (String × Option Number) → List (String × Number)
  comparable [] = []
  comparable ((label, none) ∷ values) = comparable values
  comparable ((label, some v) ∷ values) = (label, v) ∷ comparable values

  -- Whether the second value is strictly better.
  unfoldable pub prefers : Direction → Number → Number → Bool
  prefers higher a b = lt a b
  prefers lower a b = lt b a

  -- `max` and `min` by a key keep the first of several best.
  unfoldable pub extreme : Direction → String × Number → List (String × Number) → String × Number
  unfolding prefers
  extreme d best [] = best
  extreme d best (e ∷ es) = extreme d (if prefers d best.1 e.1 then e else best) es

  -- The winner, if more than one value can be compared.
  unfoldable pub best_of : Option Direction → List (String × Number) → Option String
  unfolding extreme
  best_of none es = none
  best_of (some d) [] = none
  best_of (some d) (e ∷ []) = none
  best_of (some d) (e ∷ f ∷ es) = some (extreme d e (f ∷ es)).0

  unfoldable pub row_of : List Entry → String × String × Option Direction → Row
  unfolding values_of comparable best_of unavailable_of
  row_of entries (key, label, direction) =
      let values = values_of key entries [] in
      record {
        metric = key;
        label = label;
        values = values;
        better = direction;
        best = best_of direction (comparable values);
        unavailable = unavailable_of key entries [];
      }

  unfoldable pub build_metric_table : List Entry → List Row
  unfolding row_of
  build_metric_table entries = map (row_of entries) comparison_metrics

  -- The reference that is available: `_buy_and_hold`.
  pub record BuyAndHold : Type 0 where
    pub total_return : Number
    pub final_equity : Number
    pub entry_price : Number
    pub exit_price : Number
    pub quantity : Number
    pub total_costs : Number

  unfoldable pub held : BacktestConfig F → Number → Number → Number → BuyAndHold
  unfolding Costs.commission
  held config entry_price exit_price quantity =
      let entry_commission = Costs.commission F config.cost_model (quantity * entry_price) in
      let exit_commission = Costs.commission F config.cost_model (quantity * exit_price) in
      let cash_left = config.initial_cash - quantity * entry_price - entry_commission in
      let final_equity = cash_left + quantity * exit_price - exit_commission in
      record {
        total_return = final_equity / config.initial_cash - num 1;
        final_equity = final_equity;
        entry_price = entry_price;
        exit_price = exit_price;
        quantity = quantity;
        total_costs = entry_commission + exit_commission;
      }

  -- Of the first and the last bar; `none` is a reference that is not available.
  unfoldable pub reference_of : BacktestConfig F → Bar F → Bar F → Result (Option BuyAndHold)
  unfolding held
  reference_of config first last = do
    entry_price ← Costs.fill_price F config.cost_model first.open_price (pos 1)
    exit_price ← Costs.fill_price F config.cost_model last.close (negsuc 0)
    let quantity = trunc (config.initial_cash / entry_price)
    ok (
        if le F entry_price (num 0)
        then none
        else (if le F quantity (num 0)
            then none
            else some (held config entry_price exit_price quantity)))

  unfoldable pub buy_and_hold : List (Bar F) → BacktestConfig F → Result (Option BuyAndHold)
  unfolding reference_of last?
  buy_and_hold [] config = ok none
  buy_and_hold (bar ∷ []) config = ok none
  buy_and_hold (bar ∷ next ∷ bars) config =
      reference_of config bar (elim (last? (next ∷ bars)) [ none ↦ next | some last ↦ last ])
