-- ===== src/Strategies/Registry.antt =====
-- The registry of strategies (services/quant/strategies/registry.py).
pub mod Names
use quantora.Prelude.{
  ℕ, not, if◌then◌else◌, ◌==◌, Option, none, some, List, [], ◌∷◌, map, String, is_empty, put, get,
  sorted_texts, Result, ok, err, value_error, unknown_strategy, ◌>>=◌, ◌>>◌, raise_if,
}
use mathlib.Core.Option
use quantora.Float.{Floats}
use quantora.Strategies.Parameters.{
  Reader, Parameters, StrategyClass, instantiate, Description, describe,
}

module _ (F : Floats) where
  -- `_REGISTRY`
  abbrev pub Registry : Type 0
  Registry = List (String × StrategyClass F)

  -- What `register` does when a class with the name is there already, or none is.
  unfoldable pub registered_over :
      Option (StrategyClass F) → StrategyClass F → Registry → Result Registry
  unfolding put
  registered_over none c registry = ok (put c.name c registry)
  registered_over (some existing) c registry = do
    raise_if (not (existing.identity == c.identity)) (value_error c.name)
    ok (put c.name c registry)

  unfoldable pub register : StrategyClass F → Registry → Result Registry
  unfolding registered_over get
  register c registry = do
    raise_if (is_empty c.name) (value_error "name")
    registered_over (get c.name registry) c registry

  unfoldable pub available : Registry → List String
  unfolding sorted_texts
  available registry = sorted_texts (map (λ e. e.0) registry)

  unfoldable pub get_strategy_class : Registry → String → Result (StrategyClass F)
  unfolding get
  get_strategy_class registry name = elim (get name registry) [
    | none ↦ err (unknown_strategy name)
    | some c ↦ ok c
  ]

  -- `create`; an instance is its class with its resolved parameters.
  unfoldable pub create :
      Reader F → Registry → String → Option (Parameters F) → Result (StrategyClass F × Parameters F)
  unfolding get_strategy_class instantiate
  create reader registry name parameters = do
    c ← get_strategy_class registry name
    resolved ← instantiate F reader c (Option.get_or parameters [])
    ok (c, resolved)

  unfoldable pub describe_names : Reader F → Registry → List String → Result (List (Description F))
  unfolding get_strategy_class instantiate describe
  describe_names reader registry [] = ok []
  describe_names reader registry (name ∷ names) = do
    c ← get_strategy_class registry name
    resolved ← instantiate F reader c []
    rest ← describe_names reader registry names
    ok (describe F c resolved ∷ rest)

  unfoldable pub describe_all : Reader F → Registry → Result (List (Description F))
  unfolding describe_names available
  describe_all reader registry = describe_names reader registry (available registry)
