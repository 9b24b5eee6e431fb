-- ===== src/Strategies/PairTrading/Class.antt =====
-- The pair trading strategy: its class (services/quant/strategies/pair_trading.py).
use quantora.Prelude.{
  ℕ, true, Option, none, some, List, [], ◌∷◌, String, is_blank, get, Result, ok, err, key_error,
  invalid_parameters, ◌>>=◌, ◌>>◌, raise_if,
}
use quantora.Float.{Floats, le}
use quantora.Strategies.Parameters.{
  Value, integer, decimal, boolean, string, null, Reader, ParameterSpec, Parameters, StrategyClass,
  instantiate,
}
use quantora.Strategies.Macd.{number_at, number_or_zero}
use quantora.Strategies.PairTrading.{Leg, set_pair_series}

module _ (F : Floats) where
  open F use {Number, num, add as ◌+◌, div as ◌/◌, neg}

  infixl 65 ◌+◌
  infixl 70 ◌/◌
  abbrev specified :
      String → String → Value F → String → Option Number → Option Number → ParameterSpec F
  specified name type default description minimum maximum = record {
    name = name;
    type = type;
    default = default;
    description = description;
    minimum = minimum;
    maximum = maximum;
    choices = none;
  }

  abbrev half : Number
  half = num 1 / num 2

  abbrev pub pair_specs : List (ParameterSpec F)
  pair_specs =
      specified "pair_symbol" "str" (string "TCS.NS")
        "The second leg of the pair. Its bars must be supplied via set_pair_series()." none none
      ∷ specified "lookback" "int" (integer (num 60))
          "Bars used for the spread's mean, dispersion, correlation and hedge ratio" (some (num 10))
          (some (num 500))
      ∷ specified "entry_z" "float" (decimal (num 2))
          "Open a position when the spread is this many standard deviations from its mean"
          (some half) (some (num 5))
      ∷ specified "exit_z" "float" (decimal half)
          "Close the position once the spread is back within this many standard deviations"
          (some (num 0)) (some (num 3))
      ∷ specified "min_correlation" "float" (decimal half)
          "Refuse to trade while the legs' rolling return correlation is below this"
          (some (neg (num 1))) (some (num 1))
      ∷ specified "use_hedge_ratio" "bool" (boolean true)
          "Weight the second leg by a rolling OLS beta instead of one-for-one" none none
      ∷ []

  -- `self._parameters["pair_symbol"]`, which has to be a text that is not blank
  unfoldable pub symbol_of : Value F → Result String
  symbol_of (string s) = do raise_if (is_blank s) (invalid_parameters "pair_symbol"); ok s
  symbol_of (integer x) = err (invalid_parameters "pair_symbol")
  symbol_of (decimal x) = err (invalid_parameters "pair_symbol")
  symbol_of (boolean b) = err (invalid_parameters "pair_symbol")
  symbol_of null = err (invalid_parameters "pair_symbol")

  unfoldable pub pair_symbol_at : Parameters F → Result String
  unfolding get symbol_of
  pair_symbol_at parameters = elim (get "pair_symbol" parameters) [
    | none ↦ err (key_error "pair_symbol")
    | some v ↦ symbol_of v
  ]

  unfoldable pub validate_pair_parameters : Parameters F → Result (Unit {0})
  unfolding pair_symbol_at number_at
  validate_pair_parameters parameters = do
    pair_symbol ← pair_symbol_at parameters
    entry_z ← number_at F "entry_z" parameters
    exit_z ← number_at F "exit_z" parameters
    raise_if (le F entry_z exit_z) (invalid_parameters "exit_z")

  -- Of resolved parameters, which have all the names.
  abbrev text_or_empty : Result String → String
  text_or_empty (ok s) = s
  text_or_empty (err e) = ""

  unfoldable pub pair_class : ℕ → StrategyClass F
  unfolding validate_pair_parameters pair_symbol_at number_at
  pair_class identity = record {
    identity = identity;
    name = "pair_trading";
    family = "stat_arb";
    description =
        "Statistical arbitrage. Trades the mean reversion of the log-price spread between two correlated instruments, going long the primary leg when the spread is unusually cheap and short when it is unusually rich.";
    parameter_specs = pair_specs;
    validate_parameters = validate_pair_parameters;
    warmup_bars = λ parameters. number_or_zero F (number_at F "lookback" parameters) + num 1;
    auxiliary_symbols = λ parameters. text_or_empty (pair_symbol_at parameters) ∷ [];
  }

  -- `PairTradingStrategy.__init__`: the parameters, and the second leg that the instance holds
  unfoldable pub instantiate_pair :
      Reader F
      → (String → String)
      → ℕ
      → Option (Leg F)
      → Parameters F
      → Result (Parameters F × Option (Leg F))
  unfolding instantiate pair_class pair_symbol_at set_pair_series
  instantiate_pair reader casefold identity none parameters = do
    resolved ← instantiate F reader (pair_class identity) parameters
    ok (resolved, none)
  instantiate_pair reader casefold identity (some series) parameters = do
    resolved ← instantiate F reader (pair_class identity) parameters
    pair_symbol ← pair_symbol_at resolved
    held ← set_pair_series F casefold pair_symbol series
    ok (resolved, held)
