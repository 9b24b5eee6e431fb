-- ===== src/Strategies/Macd.antt =====
-- The MACD strategy: its class (services/quant/strategies/macd.py).
pub mod Signals
use quantora.Prelude.{
  ℕ, false, none, some, List, [], ◌∷◌, String, get, Result, ok, err, key_error, type_error,
  invalid_parameters, ◌>>=◌, raise_if,
}
use quantora.Float.{Floats, le}
use quantora.Strategies.Parameters.{
  integer, boolean, number_of, ParameterSpec, Parameters, StrategyClass,
}

module _ (F : Floats) where
  open F use {Number, num, add as ◌+◌}

  infixl 65 ◌+◌
  -- A specification of an integer with bounds, and one of a switch that is off.
  abbrev span : String → ℕ → String → ℕ → ℕ → ParameterSpec F
  span name default description minimum maximum = record {
    name = name;
    type = "int";
    default = integer (num default);
    description = description;
    minimum = some (num minimum);
    maximum = some (num maximum);
    choices = none;
  }

  abbrev switch : String → String → ParameterSpec F
  switch name description = record {
    name = name;
    type = "bool";
    default = boolean false;
    description = description;
    minimum = none;
    maximum = none;
    choices = none;
  }

  abbrev pub parameter_specs : List (ParameterSpec F)
  parameter_specs =
      span "fast" 12 "Fast EMA span" 2 200
      ∷ span "slow" 26 "Slow EMA span" 3 400
      ∷ span "signal" 9 "Signal-line EMA span" 2 100
      ∷ switch "allow_short" "Take the short side on a downward crossover instead of going flat"
      ∷ switch "require_zero_line"
          "Only hold long while the MACD line is above zero (and short while below)"
      ∷ []

  -- `self._parameters[name]`, as a number
  unfoldable pub number_at : String → Parameters F → Result Number
  unfolding get number_of
  number_at name parameters = elim (get name parameters) [
    | none ↦ err (key_error name)
    | some v ↦ elim (number_of F v) [ none ↦ err (type_error name) | some x ↦ ok x ]
  ]

  unfoldable pub validate_parameters : Parameters F → Result (Unit {0})
  unfolding number_at
  validate_parameters parameters = do
    fast ← number_at "fast" parameters
    slow ← number_at "slow" parameters
    raise_if (le F slow fast) (invalid_parameters "fast")

  -- Of resolved parameters, which have all the names.
  abbrev pub number_or_zero : Result Number → Number
  number_or_zero (ok x) = x
  number_or_zero (err e) = num 0

  unfoldable pub warmup_bars : Parameters F → Number
  unfolding number_at
  warmup_bars parameters =
      number_or_zero (number_at "slow" parameters) + number_or_zero (number_at "signal" parameters)

  unfoldable pub macd_class : ℕ → StrategyClass F
  unfolding validate_parameters warmup_bars
  macd_class identity = record {
    identity = identity;
    name = "macd";
    family = "momentum";
    description =
        "Momentum. Goes long when the MACD line crosses above its signal line and exits (or reverses) when it crosses back below.";
    parameter_specs = parameter_specs;
    validate_parameters = validate_parameters;
    warmup_bars = warmup_bars;
    auxiliary_symbols = λ parameters. [];
  }
