-- ===== src/Backtest/Metrics.antt =====
-- Performance and risk metrics (services/quant/backtest/metrics.py). A column of values is a list; what
-- the code takes from pandas, numpy and `math` is the parameter `Statistics`. The periods of a year are
-- positive, as in the table of the configuration.
pub mod Explained
pub mod Drawdown
pub mod Runs
use quantora.Prelude.{
  ℕ, suc, ◌-◌ as minus, Bool, true, false, not, ◌&&◌, ◌||◌, if◌then◌else◌, ltb, Option, none, some,
  List, [], ◌∷◌, map, length, String, put, row_by_row,
}
use quantora.Float.{Floats, le, abs, sum, tiny, truthy}
use quantora.Backtest.Portfolio.{Trade, is_win}
use quantora.Backtest.Engine.Loop.{last?}

-- `pct_change().dropna()`, `cummax()`, `min()`, `mean()`, `std(ddof=1)`, `math.sqrt` and `**`
pub record Statistics (Number : Type 0) : Type 0 where
  pub pct_change : List Number → List Number
  pub cummax : List Number → List Number
  pub minimum : List Number → Number
  pub mean : List Number → Number
  pub std : List Number → Number
  pub sqrt : Number → Number
  pub pow : Number → Number → Number

abbrev pub maximum : ℕ → ℕ → ℕ
maximum a b = if ltb a b then b else a

-- The loop of `max_drawdown_duration`, from the longest and the current run.
unfoldable pub longest_from : ℕ → ℕ → List Bool → ℕ
longest_from longest current [] = longest
longest_from longest current (true ∷ bars) =
    longest_from (maximum longest (suc current)) (suc current) bars
longest_from longest current (false ∷ bars) = longest_from (maximum longest 0) 0 bars

abbrev pub is_none {ℓ} : {A : Type ℓ} → Option A → Bool
is_none none = true
is_none (some a) = false

-- `record(name, value, reason)`, of what is unavailable so far
unfoldable pub note {ℓ} :
    {A : Type ℓ} → String → Option A → String → List (String × String) → List (String × String)
unfolding put
note name none reason unavailable = put name reason unavailable
note name (some value) reason unavailable = unavailable

module _ (F : Floats) where
  open F use {Number, num, add as ◌+◌, sub as ◌-◌, mul as ◌*◌, div as ◌/◌, neg, lt}

  infixl 65 ◌+◌ ◌-◌
  infixl 70 ◌*◌ ◌/◌
  pub record Metrics : Type 0 where
    pub total_return : Number
    pub cagr : Option Number
    pub annualized_volatility : Option Number
    pub sharpe : Option Number
    pub sortino : Option Number
    pub max_drawdown : Number
    pub max_drawdown_duration_bars : ℕ
    pub calmar : Option Number
    pub win_rate : Option Number
    pub profit_factor : Option Number
    pub trade_count : ℕ
    pub winning_trades : ℕ
    pub losing_trades : ℕ
    pub average_win : Option Number
    pub average_loss : Option Number
    pub turnover : Option Number
    pub exposure : Number
    pub total_costs : Number
    pub cost_drag : Number
    pub final_equity : Number
    pub unavailable : List (String × String)

  -- `EPSILON`
  abbrev pub metrics_epsilon : Number
  metrics_epsilon = tiny F 12

  abbrev pub last_of : List Number → Number → Number
  last_of equity default = elim (last? equity) [ none ↦ default | some x ↦ x ]

  unfoldable pub winning_pnls : List (Trade F) → List Number
  winning_pnls [] = []
  winning_pnls (t ∷ ts) =
      let rest = winning_pnls ts in if lt (num 0) t.pnl then t.pnl ∷ rest else rest

  unfoldable pub losing_pnls : List (Trade F) → List Number
  losing_pnls [] = []
  losing_pnls (t ∷ ts) =
      let rest = losing_pnls ts in if lt t.pnl (num 0) then t.pnl ∷ rest else rest

  unfoldable pub count_wins : List (Trade F) → ℕ
  unfolding is_win
  count_wins [] = 0
  count_wins (t ∷ ts) = let rest = count_wins ts in if is_win F t then suc rest else rest

  unfoldable pub win_rate : List (Trade F) → Option Number
  unfolding count_wins
  win_rate [] = none
  win_rate (t ∷ ts) = some (num (count_wins (t ∷ ts)) / num (length (t ∷ ts)))

  unfoldable pub profit_factor : List (Trade F) → Option Number
  unfolding winning_pnls losing_pnls
  profit_factor [] = none
  profit_factor (t ∷ ts) =
      let gross_profit = sum F (winning_pnls (t ∷ ts)) in
      let gross_loss = neg (sum F (losing_pnls (t ∷ ts))) in
      if lt gross_loss metrics_epsilon then none else some (gross_profit / gross_loss)

  module _ (S : Statistics Number) where
    unfoldable pub drawdown_curve : List Number → List Number
    drawdown_curve equity = row_by_row (λ e peak. e / peak - num 1) equity (S.cummax equity)

    unfoldable pub max_drawdown : List Number → Number
    unfolding drawdown_curve
    max_drawdown [] = num 0
    max_drawdown (e ∷ es) = S.minimum (drawdown_curve (e ∷ es))

    unfoldable pub underwater : List Number → List Bool
    underwater equity = row_by_row lt equity (S.cummax equity)

    unfoldable pub max_drawdown_duration : List Number → ℕ
    unfolding longest_from underwater
    max_drawdown_duration [] = 0
    max_drawdown_duration (e ∷ es) = longest_from 0 0 (underwater (e ∷ es))

    abbrev pub years_of : List Number → Number → Number
    years_of equity periods_per_year = num (minus (length equity) 1) / periods_per_year

    -- Of the first value and of the last.
    unfoldable pub growth : Number → Number → Number → Option Number
    growth start final years =
        if le F start (num 0) || le F final (num 0)
        then none
        else (if lt years metrics_epsilon
            then none
            else some (S.pow (final / start) (num 1 / years) - num 1))

    unfoldable pub cagr : List Number → Number → Option Number
    unfolding growth
    cagr [] periods_per_year = none
    cagr (e ∷ []) periods_per_year = none
    cagr (e ∷ f ∷ es) periods_per_year =
        if le F periods_per_year (num 0)
        then none
        else growth e (last_of (f ∷ es) f) (years_of (e ∷ f ∷ es) periods_per_year)

    unfoldable pub annualized_volatility : List Number → Number → Option Number
    annualized_volatility returns periods_per_year =
        if ltb (length returns) 2 then none else some (S.std returns * S.sqrt periods_per_year)

    -- The returns in excess of the risk-free rate of a period.
    unfoldable pub excess_of : List Number → Number → Number → List Number
    excess_of returns periods_per_year risk_free_rate =
        let period_rf = S.pow (num 1 + risk_free_rate) (num 1 / periods_per_year) - num 1 in
        map (λ r. r - period_rf) returns

    unfoldable pub sharpe : List Number → Number → Number → Option Number
    unfolding excess_of
    sharpe returns periods_per_year risk_free_rate =
        let excess = excess_of returns periods_per_year risk_free_rate in
        if ltb (length returns) 2
        then none
        else (if lt (S.std excess) metrics_epsilon
            then none
            else some (S.mean excess / S.std excess * S.sqrt periods_per_year))

    -- `excess.clip(upper=0.0) ** 2`
    abbrev squared_downside : Number → Number
    squared_downside r = if lt (num 0) r then num 0 * num 0 else r * r

    unfoldable pub sortino : List Number → Number → Number → Option Number
    unfolding excess_of
    sortino returns periods_per_year risk_free_rate =
        let excess = excess_of returns periods_per_year risk_free_rate in
        let downside_deviation = S.sqrt (S.mean (map squared_downside excess)) in
        if ltb (length returns) 2
        then none
        else (if lt downside_deviation metrics_epsilon
            then none
            else some (S.mean excess / downside_deviation * S.sqrt periods_per_year))

    unfoldable pub calmar : Option Number → Number → Option Number
    calmar none drawdown = none
    calmar (some growth_rate) drawdown =
        if lt metrics_epsilon (abs F drawdown) then some (growth_rate / abs F drawdown) else none

    unfoldable pub average_of : List Number → Option Number
    average_of [] = none
    average_of (x ∷ xs) = some (S.mean (x ∷ xs))

    unfoldable pub turnover : List Number → Number → Number → Number → Option Number
    turnover equity periods_per_year initial_cash traded_notional =
        let years = years_of equity periods_per_year in
        let average_equity = S.mean equity in
        if lt (num 0) initial_cash && ltb 1 (length equity)
        then (if lt metrics_epsilon years
            then (if lt metrics_epsilon average_equity
                then some (traded_notional / average_equity / years)
                else none)
            else none)
        else none

    unfoldable pub mean_exposure : Option (List Number) → Number
    mean_exposure none = num 0
    mean_exposure (some []) = num 0
    mean_exposure (some (x ∷ xs)) = S.mean (map (abs F) (x ∷ xs))

    -- The arguments of `compute`.
    pub record Arguments : Type 0 where
      pub equity : List Number
      pub trades : List (Trade F)
      pub periods_per_year : Number
      pub risk_free_rate : Number
      pub initial_cash : Number
      pub total_costs : Number
      pub traded_notional : Number
      pub exposure : Option (List Number)

    -- The reason of a ratio that is undefined.
    abbrev ratio_reason : List Number → String → String
    ratio_reason returns reason =
        if ltb (length returns) 2
        then "Fewer than two return observations — the period is too short to measure."
        else reason

    abbrev trade_reason : List (Trade F) → String
    trade_reason [] = "The strategy produced no completed trades in this period."
    trade_reason (t ∷ ts) = "There were no losing trades, so the ratio is unbounded."

    -- The optional metrics, in the order in which the code measures them, with the reasons.
    unfoldable pub optional_metrics : Arguments → List (String × Option Number × String)
    unfolding cagr annualized_volatility sharpe sortino max_drawdown calmar win_rate profit_factor
        winning_pnls losing_pnls average_of turnover
    optional_metrics m =
        let returns = S.pct_change m.equity in
        let growth_rate = cagr m.equity m.periods_per_year in
        (
          "cagr", growth_rate,
          "Too few bars, or equity reached zero — an annualised rate would be meaningless.",
        )
        ∷ (
          "annualized_volatility",
          annualized_volatility returns m.periods_per_year,
          "Fewer than two return observations — the period is too short to measure.",
        )
        ∷ (
          "sharpe",
          sharpe returns m.periods_per_year m.risk_free_rate,
          ratio_reason returns
              "The return series has no variance, so the ratio is undefined (not zero).",
        )
        ∷ (
          "sortino",
          sortino returns m.periods_per_year m.risk_free_rate,
          ratio_reason returns "No downside deviation in the period, so the ratio is undefined.",
        )
        ∷ (
          "calmar",
          calmar growth_rate (max_drawdown m.equity),
          "Requires a CAGR and a non-zero maximum drawdown.",
        )
        ∷ (
          "win_rate",
          win_rate m.trades,
          "The strategy produced no completed trades in this period.",
        )
        ∷ ("profit_factor", profit_factor m.trades, trade_reason m.trades)
        ∷ ("average_win", average_of (winning_pnls m.trades), "No winning trades.")
        ∷ ("average_loss", average_of (losing_pnls m.trades), "No losing trades.")
        ∷ (
          "turnover",
          turnover m.equity m.periods_per_year m.initial_cash m.traded_notional,
          "Requires more than one bar and non-zero average equity.",
        )
        ∷ []

    unfoldable pub noted :
        List (String × Option Number × String) → List (String × String) → List (String × String)
    unfolding note
    noted [] unavailable = unavailable
    noted ((name, value, reason) ∷ rest) unavailable =
        noted rest (note name value reason unavailable)

    unfoldable pub compute : Arguments → Metrics
    unfolding cagr annualized_volatility sharpe sortino max_drawdown calmar win_rate profit_factor
        winning_pnls losing_pnls average_of turnover max_drawdown_duration mean_exposure
        optional_metrics noted
    compute m =
        let returns = S.pct_change m.equity in
        let growth_rate = cagr m.equity m.periods_per_year in
        let final_equity = last_of m.equity m.initial_cash in
        record {
          total_return =
              if truthy F m.initial_cash then final_equity / m.initial_cash - num 1 else num 0;
          cagr = growth_rate;
          annualized_volatility = annualized_volatility returns m.periods_per_year;
          sharpe = sharpe returns m.periods_per_year m.risk_free_rate;
          sortino = sortino returns m.periods_per_year m.risk_free_rate;
          max_drawdown = max_drawdown m.equity;
          max_drawdown_duration_bars = max_drawdown_duration m.equity;
          calmar = calmar growth_rate (max_drawdown m.equity);
          win_rate = win_rate m.trades;
          profit_factor = profit_factor m.trades;
          trade_count = length m.trades;
          winning_trades = length (winning_pnls m.trades);
          losing_trades = length (losing_pnls m.trades);
          average_win = average_of (winning_pnls m.trades);
          average_loss = average_of (losing_pnls m.trades);
          turnover = turnover m.equity m.periods_per_year m.initial_cash m.traded_notional;
          exposure = mean_exposure m.exposure;
          total_costs = m.total_costs;
          cost_drag = if truthy F m.initial_cash then m.total_costs / m.initial_cash else num 0;
          final_equity = final_equity;
          unavailable = noted (optional_metrics m) [];
        }
