-- ===== src/Strategies/Parameters.antt =====
-- The parameters of a strategy: what a specification accepts, and how a strategy resolves the
-- parameters that it is given (services/quant/strategies/base.py).
pub mod Stable
pub mod Within
pub mod Again
use quantora.Prelude.{
  ℕ, Bool, true, false, not, ◌&&◌, ◌||◌, if◌then◌else◌, Option, none, some, List, [], ◌∷◌, map,
  String, same_text, strip, is_empty, ltb, get, has_key, length, Result, ok, err, type_error,
  invalid_parameters, insufficient_data, ◌>>=◌, ◌>>◌, raise_if,
}
use quantora.Float.{Floats, truthy}

module _ (F : Floats) where
  open F use {Number, num, lt, eq, trunc}

  -- A value as it comes out of JSON. An integer is the number that it is equal to.
  pub data Value : Type 0 where
    integer : Number → Value
    decimal : Number → Value
    boolean : Bool → Value
    string : String → Value
    null : Value

  -- What Python's `int` and `float` read in a text.
  pub record Reader : Type 0 where
    pub read_int : String → Option Number
    pub read_float : String → Option Number

  abbrev pub of_bool : Bool → Number
  of_bool true = num 1
  of_bool false = num 0

  -- The number that a value is compared as.
  unfoldable pub number_of : Value → Option Number
  number_of (integer x) = some x
  number_of (decimal x) = some x
  number_of (boolean b) = some (of_bool b)
  number_of (string s) = none
  number_of null = none

  abbrev same_number : Option Number → Option Number → Bool
  same_number (some x) (some y) = eq x y
  same_number _ _ = false

  -- `v == w`
  unfoldable pub same_value : Value → Value → Bool
  unfolding number_of
  same_value (string s) (string t) = same_text s t
  same_value null null = true
  same_value v w = same_number (number_of v) (number_of w)

  unfoldable pub is_choice : Value → List Value → Bool
  unfolding same_value
  is_choice v [] = false
  is_choice v (w ∷ ws) = let rest = is_choice v ws in same_value w v || rest

  -- `value not in self.choices`, of choices that may be None
  unfoldable pub is_excluded : Value → Option (List Value) → Bool
  unfolding is_choice
  is_excluded v none = false
  is_excluded v (some choices) = not (is_choice v choices)

  pub record ParameterSpec : Type 0 where
    pub name : String
    pub type : String
    pub default : Value
    pub description : String
    pub minimum : Option Number
    pub maximum : Option Number
    pub choices : Option (List Value)

  unfoldable pub to_int : Reader → Value → Option Value
  to_int reader (integer x) = some (integer x)
  to_int reader (decimal x) = if eq (trunc x) x then some (integer (trunc x)) else none
  to_int reader (boolean b) = none
  to_int reader (string s) = elim (reader.read_int s) [ none ↦ none | some x ↦ some (integer x) ]
  to_int reader null = none

  unfoldable pub to_float : Reader → Value → Option Value
  to_float reader (integer x) = some (decimal x)
  to_float reader (decimal x) = some (decimal x)
  to_float reader (boolean b) = some (decimal (of_bool b))
  to_float reader (string s) = elim (reader.read_float s) [
    | none ↦ none
    | some x ↦ some (decimal x)
  ]
  to_float reader null = none

  -- `bool(value)`
  unfoldable pub is_true : Value → Bool
  is_true (integer x) = truthy F x
  is_true (decimal x) = truthy F x
  is_true (boolean b) = b
  is_true (string s) = not (is_empty s)
  is_true null = false

  unfoldable pub to_text : Value → Option Value
  unfolding strip
  to_text (string s) = if is_empty (strip s) then none else some (string (strip s))
  to_text (integer x) = none
  to_text (decimal x) = none
  to_text (boolean b) = none
  to_text null = none

  -- The `try` block: the coerced value, or none where it raises.
  unfoldable pub coerced : Reader → String → Value → Option Value
  unfolding to_int to_float is_true to_text
  coerced reader type v =
      if same_text type "int"
      then to_int reader v
      else (if same_text type "float"
          then to_float reader v
          else (if same_text type "bool"
              then some (boolean (is_true v))
              else (if same_text type "str" then to_text v else some v)))

  unfoldable pub below_minimum : Option Number → Number → Bool
  below_minimum none x = false
  below_minimum (some low) x = lt x low

  unfoldable pub above_maximum : Option Number → Number → Bool
  above_maximum none x = false
  above_maximum (some high) x = lt high x

  abbrev is_set : Option Number → Bool
  is_set none = false
  is_set (some x) = true

  -- The bounds; a text has none, and None cannot be compared.
  unfoldable pub bounded : ParameterSpec → Value → Result Value
  unfolding number_of below_minimum above_maximum
  bounded spec (string s) = ok (string s)
  bounded spec null = do
    raise_if (is_set spec.minimum || is_set spec.maximum) (type_error spec.name)
    ok null
  bounded spec (integer x) = do
    raise_if (below_minimum spec.minimum x) (invalid_parameters spec.name)
    raise_if (above_maximum spec.maximum x) (invalid_parameters spec.name)
    ok (integer x)
  bounded spec (decimal x) = do
    raise_if (below_minimum spec.minimum x) (invalid_parameters spec.name)
    raise_if (above_maximum spec.maximum x) (invalid_parameters spec.name)
    ok (decimal x)
  bounded spec (boolean b) = do
    raise_if (below_minimum spec.minimum (of_bool b)) (invalid_parameters spec.name)
    raise_if (above_maximum spec.maximum (of_bool b)) (invalid_parameters spec.name)
    ok (boolean b)

  -- `ParameterSpec.validate`
  unfoldable pub validate : Reader → ParameterSpec → Value → Result Value
  unfolding is_excluded coerced bounded
  validate reader spec v = do
    raise_if (is_excluded v spec.choices) (invalid_parameters spec.name)
    elim (coerced reader spec.type v) [
      | none ↦ err (invalid_parameters spec.name)
      | some w ↦ bounded spec w
    ]

  -- Parameters by name.
  abbrev pub Parameters : Type 0
  Parameters = List (String × Value)

  unfoldable pub is_specified : String → List ParameterSpec → Bool
  is_specified name [] = false
  is_specified name (spec ∷ specs) =
      let rest = is_specified name specs in same_text spec.name name || rest

  unfoldable pub has_unknown_parameter : List ParameterSpec → Parameters → Bool
  unfolding is_specified
  has_unknown_parameter specs [] = false
  has_unknown_parameter specs ((name, v) ∷ rest) =
      not (is_specified name specs) || has_unknown_parameter specs rest

  -- `parameters.get(spec.name, spec.default)`
  unfoldable pub raw_value : ParameterSpec → Parameters → Value
  unfolding get
  raw_value spec parameters = elim (get spec.name parameters) [ none ↦ spec.default | some v ↦ v ]

  -- The names of specifications are distinct, so that each assignment adds to the dictionary.
  unfoldable pub resolved_values : Reader → List ParameterSpec → Parameters → Result Parameters
  unfolding raw_value validate
  resolved_values reader [] parameters = ok []
  resolved_values reader (spec ∷ specs) parameters = do
    v ← validate reader spec (raw_value spec parameters)
    rest ← resolved_values reader specs parameters
    ok ((spec.name, v) ∷ rest)

  -- What a strategy class declares: its specifications, the rules across parameters, and the warm-up
  -- and the further instruments of an instance.
  pub record StrategyClass : Type 0 where
    pub identity : ℕ
    pub name : String
    pub family : String
    pub description : String
    pub parameter_specs : List ParameterSpec
    pub validate_parameters : Parameters → Result (Unit {0})
    pub warmup_bars : Parameters → Number
    pub auxiliary_symbols : Parameters → List String

  -- `Strategy.__init__`, which returns the parameters of the instance
  unfoldable pub instantiate : Reader → StrategyClass → Parameters → Result Parameters
  unfolding has_unknown_parameter resolved_values
  instantiate reader c parameters = do
    raise_if (has_unknown_parameter c.parameter_specs parameters) (invalid_parameters c.name)
    resolved ← resolved_values reader c.parameter_specs parameters
    c.validate_parameters resolved >>= λ checked. ok resolved

  -- `require_warmup`, of a series of so many bars
  unfoldable pub require_warmup : StrategyClass → Parameters → ℕ → Result (Unit {0})
  require_warmup c parameters bars =
      raise_if (lt (num bars) (c.warmup_bars parameters)) (insufficient_data c.name)

  pub record Description : Type 0 where
    pub name : String
    pub family : String
    pub description : String
    pub parameters : Parameters
    pub parameter_specs : List ParameterSpec
    pub warmup_bars : Number
    pub auxiliary_symbols : List String

  -- `Strategy.describe`
  unfoldable pub describe : StrategyClass → Parameters → Description
  describe c parameters = record {
    name = c.name;
    family = c.family;
    description = c.description;
    parameters = parameters;
    parameter_specs = c.parameter_specs;
    warmup_bars = c.warmup_bars parameters;
    auxiliary_symbols = c.auxiliary_symbols parameters;
  }
