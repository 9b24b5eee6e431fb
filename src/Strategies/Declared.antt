-- ===== src/Strategies/Declared.antt =====
-- The theorems on parameters and on the registry, applied at concrete inputs
-- (services/quant/strategies/base.py, registry.py).
use quantora.Prelude.{◌≡◌, refl, true, none, some, [], ◌∷◌, map, String, ok, put, get, is_in}
use quantora.Rational.{exact, lt}
use quantora.Strategies.Examples.{q}
use quantora.Strategies.Parameters.{
  Value, integer, number_of, Reader, ParameterSpec, Parameters, StrategyClass, instantiate,
  validate, is_excluded, coerced, to_int, is_true, bounded, below_minimum, above_maximum,
  has_unknown_parameter, is_specified, resolved_values, raw_value,
}
use quantora.Strategies.Parameters.Within.{IsWithin, validate-IsWithin}
use quantora.Strategies.Parameters.Again.{instantiate-again}
use quantora.Strategies.Macd.{parameter_specs, number_at, validate_parameters, macd_class}
use quantora.Strategies.Registry.{
  Registry, registered_over, register, available, get_strategy_class,
}
use quantora.Strategies.Registry.Names.{unchanged, registered, get_strategy_class-kept}

-- Nothing in these examples is read from a text.
abbrev reader : Reader exact
reader = record { read_int = λ s. none; read_float = λ s. none }

abbrev spec : ParameterSpec exact
spec = record {
  name = "slow";
  type = "int";
  default = integer (q 26);
  description = "Slow EMA span";
  minimum = some (q 3);
  maximum = some (q 400);
  choices = none;
}

accepted : validate exact reader spec (integer (q 30)) ≡ ok (integer (q 30))
unfolding validate is_excluded coerced to_int bounded below_minimum above_maximum lt
accepted = refl

validate-IsWithin_example : IsWithin exact reader spec (q 30)
unfolding number_of
validate-IsWithin_example =
    validate-IsWithin exact reader spec (integer (q 30)) (integer (q 30)) (q 30) accepted refl

abbrev chosen : Parameters exact
chosen = ("fast", integer (q 5)) ∷ []

built : (r : Parameters exact) × (instantiate exact reader (macd_class exact 1) chosen ≡ ok r)
unfolding instantiate macd_class has_unknown_parameter is_specified resolved_values raw_value
    validate is_excluded coerced to_int is_true bounded below_minimum above_maximum
    validate_parameters number_at number_of get lt
built = (_, refl)

instantiate-again_example :
    (map (λ (e : String × Value exact). e.0) built.0
      ≡ map (λ (s : ParameterSpec exact). s.name) (parameter_specs exact))
    × (instantiate exact reader (macd_class exact 1) built.0 ≡ ok built.0)
unfolding macd_class is_specified is_excluded
instantiate-again_example =
    instantiate-again exact reader (macd_class exact 1) chosen built.0
      (refl, (refl, (refl, (refl, (refl, tt)))))
      (
        λ v w h k. refl,
        (λ v w h k. refl, (λ v w h k. refl, (λ v w h k. refl, (λ v w h k. refl, tt)))),
      )
      built.1

abbrev one : Registry exact
one = ("macd", macd_class exact 1) ∷ []

abbrev other : StrategyClass exact
other = record {
  identity = 2;
  name = "bollinger";
  family = "mean_reversion";
  description = "";
  parameter_specs = [];
  validate_parameters = λ parameters. ok tt;
  warmup_bars = λ parameters. q 0;
  auxiliary_symbols = λ parameters. [];
}

-- The class is registered once more, as a module that is imported again does, and another after it.
abbrev two : Registry exact
two = ("macd", macd_class exact 1) ∷ ("bollinger", other) ∷ []

get_strategy_class-kept_example :
    (e : StrategyClass exact) × (get_strategy_class exact two "macd" ≡ ok e)
    × (e.identity ≡ 1)
    × (is_in "macd" (available exact two) ≡ true)
unfolding get_strategy_class register registered_over put get macd_class
get_strategy_class-kept_example =
    get_strategy_class-kept exact one two "macd" (macd_class exact 1)
      (registered other (registered (macd_class exact 1) unchanged refl) refl) refl
