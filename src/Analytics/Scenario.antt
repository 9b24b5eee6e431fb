-- ===== src/Analytics/Scenario.antt =====
-- What-if scenarios: the weights that are asked for, the allocation they lead to, and what changes
-- (services/quant/portfolio/scenario.py).
pub mod Resolved
pub mod Changes
pub mod Deltas
use quantora.Prelude.{
  is_in, sorted_texts, Bool, false, ◌&&◌, ◌||◌, if◌then◌else◌, Option, none, some, List, [], ◌∷◌,
  ◌++◌, String, same_text, length, ◌==◌, map, put, get, Result, ok, err, invalid_request, ◌>>=◌,
  ◌>>◌, raise_if,
}
use quantora.Float.{Floats, le, abs, sum, tiny}
use quantora.Data.Universe.{get_instrument}
use quantora.Analytics.Holdings.{WeightDict}

pub data Kind : Type 0 where
  added removed reweighted : Kind

-- `set(texts)`: each text once
unfoldable pub without_repeats : List String → List String
without_repeats [] = []
without_repeats (s ∷ ss) = let rest = without_repeats ss in if is_in s rest then rest else s ∷ rest

module _ (F : Floats) where
  open F use {Number, num, sub as ◌-◌, div as ◌/◌, lt}

  infixl 65 ◌-◌
  infixl 70 ◌/◌
  -- `WEIGHT_EPSILON`
  abbrev pub weight_epsilon : Number
  weight_epsilon = tiny F 9

  -- A value of the request: a finite number, or one of those that the check on finite numbers
  -- rejects (a Boolean, an infinity, a NaN, no number at all).
  pub data Requested : Type 0 where
    finite : Number → Requested
    malformed : Requested

  abbrev pub Overrides : Type 0
  Overrides = List (String × Requested)

  -- The values, where they are all finite.
  unfoldable pub finite_values : Overrides → Option (WeightDict F)
  finite_values [] = some []
  finite_values ((symbol, malformed) ∷ rest) = none
  finite_values ((symbol, finite x) ∷ rest) = elim (finite_values rest) [
    | none ↦ none
    | some values ↦ some ((symbol, x) ∷ values)
  ]

  unfoldable pub has_negative : WeightDict F → Bool
  has_negative [] = false
  has_negative ((symbol, x) ∷ rest) = lt x (num 0) || has_negative rest

  unfoldable pub resolve_symbols : WeightDict F → Result (Unit {0})
  resolve_symbols [] = ok tt
  resolve_symbols ((symbol, x) ∷ rest) = get_instrument symbol >>= λ i. resolve_symbols rest

  -- The checks that follow the one on finite numbers.
  unfoldable pub checked_values : WeightDict F → Result (WeightDict F)
  unfolding has_negative resolve_symbols
  checked_values values = do
    raise_if (has_negative values) (invalid_request "negative")
    resolve_symbols values >>= λ d. ok values

  -- `validate_overrides`; it returns the values that it has found to be numbers.
  unfoldable pub validate_overrides : Overrides → Result (WeightDict F)
  unfolding finite_values checked_values
  validate_overrides overrides = do
    raise_if (length overrides == 0) (invalid_request "overrides")
    elim (finite_values overrides) [
      | none ↦ err (invalid_request "finite")
      | some values ↦ checked_values values
    ]

  -- `combined[symbol] = float(value)`, for each override
  unfoldable pub combine : WeightDict F → WeightDict F → WeightDict F
  unfolding put
  combine [] combined = combined
  combine ((symbol, x) ∷ rest) combined = combine rest (put symbol x combined)

  unfoldable pub normalise : Number → WeightDict F → WeightDict F
  normalise total = map (λ e. (e.0, e.1 / total))

  -- The note of a scenario whose weights were divided by their sum, as that sum.
  unfoldable pub rescaling : Number → List Number
  rescaling total = if lt weight_epsilon (abs F (total - num 1)) then total ∷ [] else []

  unfoldable pub resolve_weights : WeightDict F → Overrides → Result (WeightDict F × List Number)
  unfolding validate_overrides combine normalise rescaling
  resolve_weights base_weights overrides = validate_overrides overrides >>= λ values.
      let combined = combine values base_weights in
      let total = sum F (map (λ e. e.1) combined) in
      raise_if (le F total weight_epsilon) (invalid_request "total")
      >> ok (normalise total combined, rescaling total)

  -- The note, a formatted text, is left out.
  pub record Change : Type 0 where
    pub symbol : String
    pub change : Kind
    pub weight_before : Number
    pub weight_after : Number
    pub delta : Number

  -- `weights.get(symbol, 0.0)`
  unfoldable pub weight_in : WeightDict F → String → Number
  unfolding get
  weight_in weights symbol = elim (get symbol weights) [ none ↦ num 0 | some w ↦ w ]

  unfoldable pub kind_of : Number → Number → Kind
  kind_of before after =
      if le F before weight_epsilon
      then added
      else (if le F after weight_epsilon then removed else reweighted)

  unfoldable pub is_unchanged : Number → Number → Bool
  is_unchanged before after = le F (abs F (after - before)) weight_epsilon

  unfoldable pub change_of : String → Number → Number → Change
  unfolding kind_of
  change_of symbol before after = record {
    symbol = symbol;
    change = kind_of before after;
    weight_before = before;
    weight_after = after;
    delta = after - before;
  }

  unfoldable pub changes_of : WeightDict F → WeightDict F → List String → List Change
  unfolding weight_in is_unchanged change_of
  changes_of base scenario [] = []
  changes_of base scenario (symbol ∷ symbols) =
      let before = weight_in base symbol in
      let after = weight_in scenario symbol in
      let rest = changes_of base scenario symbols in
      if is_unchanged before after then rest else change_of symbol before after ∷ rest

  unfoldable pub describe_changes : WeightDict F → WeightDict F → List Change
  unfolding changes_of without_repeats sorted_texts
  describe_changes base scenario =
      changes_of base scenario
        (sorted_texts (without_repeats (map (λ e. e.0) base ++ map (λ e. e.0) scenario)))
