-- ===== src/Backtest/Compared.antt =====
-- The theorem on comparisons, applied at concrete strategies (services/quant/backtest/compare.py).
use quantora.Prelude.{
  ℕ, suc, false, if◌then◌else◌, none, [], ◌∷◌, map, String, same_text, Result, ok, err,
  unknown_strategy,
}
use quantora.Rational.{exact, mul}
use quantora.Float.{of_int}
use quantora.Data.Validation.{QualityReport}
use quantora.Strategies.Base.{long, direction_int, hold, Strategy}
use quantora.Backtest.Engine.{Bar}
use quantora.Backtest.Engine.Simulate.{Signal}
use quantora.Backtest.Examples.{q, bar, later, config}
use quantora.Backtest.Measures.{statistics}
use quantora.Backtest.Runner.{MarketData, Strategies}
use quantora.Backtest.Comparison.{Texts, StrategySpec, compare_strategies}
use quantora.Backtest.Comparison.Accounted.{IsReported, compare_strategies-IsReported}

abbrev strategy : String → Strategy exact
strategy name = record {
  name = name;
  rebalances_continuously = false;
  position_size = λ context. ok (mul (q 5) (of_int exact (direction_int context.direction)));
  exit_signal = λ context. ok (hold exact);
}

abbrev long_signal : Bar exact → Signal exact
long_signal b = record {
  timestamp = b.timestamp;
  direction = long;
  strength = q 1;
  reason = "";
  indicators = [];
}

-- Strategies that are always long; one is registered.
abbrev strategies : Strategies exact
strategies = record {
  Instance = String;
  create =
      λ name parameters. if same_text name "five" then ok name else err (unknown_strategy name);
  contract = strategy;
  auxiliary_symbols = λ name. "INFY.NS" ∷ [];
  attach_auxiliary_series = λ name series. ok name;
  generate_signals = λ name series. ok (map long_signal series.frame);
}

abbrev report : QualityReport
report = record { symbol = "TCS.NS"; interval = "1d"; row_count = 3; gaps = []; severity = "ok" }

-- Every fetch is counted.
abbrev fetch : ℕ → String → Result (MarketData exact) × ℕ
fetch n symbol = (
  ok (record { symbol = symbol; interval = "1d"; frame = bar 1 100 101 ∷ later; quality = report }),
  suc n,
)

abbrev texts : Texts exact
texts = record { text_of = λ v. "?"; numeral = λ n. "n" }

abbrev spec : String → StrategySpec exact
spec name = record { strategy = name; parameters = []; label = none }

compare_strategies-IsReported_example :
    IsReported exact strategies statistics fetch texts config "TCS.NS"
      (spec "five" ∷ spec "six" ∷ [])
      0
      (compare_strategies exact strategies statistics fetch texts config "TCS.NS"
        (spec "five" ∷ spec "six" ∷ [])
        0).0
compare_strategies-IsReported_example =
    compare_strategies-IsReported exact strategies statistics fetch texts config "TCS.NS"
      (spec "five" ∷ spec "six" ∷ []) 0
