-- ===== src/Analytics/Scenario/Deltas.antt =====
-- The comparison of the metrics before and after (`metric_deltas` of
-- services/quant/portfolio/scenario.py, `RISK_METRICS` of services/quant/portfolio/risk.py).
pub mod Swap
use quantora.Prelude.{
  Bool, if◌then◌else◌, Option, none, some, List, [], ◌∷◌, ◌++◌, map, String, get,
}
use Prim.Native.String.{◌++◌ as text_append}
use quantora.Float.{Floats, abs}
use quantora.Backtest.Compare.{Direction, higher, lower}
use quantora.Analytics.Scenario.{weight_epsilon}

-- `RISK_METRICS`
abbrev pub risk_metrics : List (String × String × Option Direction)
risk_metrics =
    ("total_return", "Total return", some higher)
    ∷ ("annualized_return", "Annualized return", some higher)
    ∷ ("annualized_volatility", "Annualized volatility", some lower)
    ∷ ("beta", "Beta vs benchmark", none)
    ∷ ("sharpe", "Sharpe", some higher)
    ∷ ("sortino", "Sortino", some higher)
    ∷ ("max_drawdown", "Max drawdown", some higher)
    ∷ ("largest_weight", "Largest position weight", some lower)
    ∷ ("top_n_weight", "Top-3 weight", some lower)
    ∷ ("hhi", "Concentration (HHI)", some lower)
    ∷ ("effective_holdings", "Effective holdings", some higher)
    ∷ []

module _ (F : Floats) where
  open F use {Number, num, sub as ◌-◌, lt}

  infixl 65 ◌-◌
  -- The metrics of a state: those that are numbers, and the reasons of those that are not.
  pub record Measured : Type 0 where
    pub values : List (String × Option Number)
    pub unavailable : List (String × String)

  pub record Delta : Type 0 where
    pub metric : String
    pub label : String
    pub before : Option Number
    pub after : Option Number
    pub delta : Option Number
    pub better : Option Direction
    pub improved : Option Bool
    pub unavailable : Option String

  unfoldable pub measured : String → Measured → Option Number
  unfolding get
  measured key m = elim (get key m.values) [ none ↦ none | some v ↦ v ]

  unfoldable pub delta_of : Option Number → Option Number → Option Number
  delta_of (some left) (some right) = some (right - left)
  delta_of (some left) none = none
  delta_of none right = none

  unfoldable pub is_improved : Direction → Number → Bool
  is_improved higher delta = lt (num 0) delta
  is_improved lower delta = lt delta (num 0)

  unfoldable pub improved_of : Option Direction → Option Number → Option Bool
  unfolding is_improved
  improved_of (some direction) (some delta) =
      if lt (weight_epsilon F) (abs F delta) then some (is_improved direction delta) else none
  improved_of (some direction) none = none
  improved_of none delta = none

  -- A side that has no value, with its reason.
  unfoldable pub missing : String → String → Option Number → Measured → List String
  unfolding get
  missing side key (some v) m = []
  missing side key none m =
      text_append side
        (elim (get key m.unavailable) [ none ↦ "not available" | some reason ↦ reason ])
      ∷ []

  -- `"; ".join(missing)`, of at most two
  unfoldable pub joined : List String → Option String
  joined [] = none
  joined (t ∷ []) = some t
  joined (t ∷ u ∷ ts) = some (text_append t (text_append "; " u))

  unfoldable pub delta_row : Measured → Measured → String × String × Option Direction → Delta
  unfolding measured delta_of improved_of missing joined
  delta_row before after (key, label, direction) =
      let left = measured key before in
      let right = measured key after in
      let delta = delta_of left right in
      record {
        metric = key;
        label = label;
        before = left;
        after = right;
        delta = delta;
        better = direction;
        improved = improved_of direction delta;
        unavailable =
            joined (missing "before: " key left before ++ missing "after: " key right after);
      }

  -- `metric_deltas`
  unfoldable pub metric_deltas : Measured → Measured → List Delta
  unfolding delta_row
  metric_deltas before after = map (delta_row before after) risk_metrics
