-- ===== src/Analytics/Holdings/Allocation.antt =====
-- `Portfolio` with its `value` and `from_weights` (services/quant/portfolio/holdings.py).
use quantora.Prelude.{
  ℕ, Bool, false, ◌||◌, if◌then◌else◌, ◌==◌, Option, none, some, List, [], ◌∷◌, map, String,
  same_text, length, Result, ok, err, key_error, zero_division, invalid_request, ◌>>=◌, ◌>>◌,
  raise_if,
}
use quantora.Float.{Floats, le, sum}
use quantora.Data.Universe.{get_instrument}
use quantora.Backtest.Portfolio.{price_of}
use quantora.Analytics.Holdings.{
  Holding, checked_holding, PositionValue, priced_position, WeightDict, epsilon, Concentration,
  concentration,
}
use quantora.Analytics.Holdings.Exposure.{SectorExposure, sector_exposure}

module _ (F : Floats) where
  open F use {Number, num, mul as ◌*◌, div as ◌/◌, lt, eq}

  infixl 70 ◌*◌ ◌/◌
  pub record Allocation : Type 0 where
    pub positions : List (PositionValue F)
    pub total_value : Number
    pub total_cost : Option Number
    pub weights : WeightDict F
    pub concentration : Concentration F
    pub sector_exposure : SectorExposure F

  pub record Portfolio : Type 0 where
    pub holdings : List (Holding F)
    pub name : String
    pub base_currency : String
    pub benchmark : String

  abbrev is_held : String → List (Holding F) → Bool
  is_held symbol [] = false
  is_held symbol (h ∷ hs) = same_text h.symbol symbol || is_held symbol hs

  -- A symbol that `Counter` counts more than once.
  unfoldable pub has_duplicates : List (Holding F) → Bool
  has_duplicates [] = false
  has_duplicates (h ∷ hs) = is_held h.symbol hs || has_duplicates hs

  -- `Portfolio.__post_init__`
  unfoldable pub checked_portfolio : Portfolio → Result Portfolio
  unfolding has_duplicates
  checked_portfolio p = do
    raise_if (length p.holdings == 0) (invalid_request "holdings")
    raise_if (has_duplicates p.holdings) (invalid_request "Duplicate holding(s)")
    get_instrument p.benchmark >>= λ i. ok p

  -- Each holding with its price, where there is one for all.
  unfoldable pub with_prices :
      List (String × Number) → List (Holding F) → Result (List (Holding F × Number))
  unfolding price_of
  with_prices prices [] = ok []
  with_prices prices (h ∷ hs) = elim (price_of F h.symbol prices) [
    | none ↦ err (invalid_request "No price available")
    | some x ↦ with_prices prices hs >>= λ rest. ok ((h, x) ∷ rest)
  ]

  unfoldable pub has_bad_price : List (Holding F × Number) → Bool
  has_bad_price [] = false
  has_bad_price ((h, x) ∷ hs) = le F x (num 0) || has_bad_price hs

  unfoldable pub market_values : List (Holding F × Number) → List Number
  market_values = map (λ e. e.0.quantity * e.1)

  -- The recorded costs, if every holding has one.
  unfoldable pub costs_of : List (Holding F) → Option (List Number)
  costs_of [] = some []
  costs_of (h ∷ hs) =
      let rest = costs_of hs in
      elim h.cost_basis [
        | none ↦ none
        | some c ↦ elim rest [ none ↦ none | some cs ↦ some (h.quantity * c ∷ cs) ]
      ]

  unfoldable pub total_cost_of : List (Holding F) → Option Number
  unfolding costs_of
  total_cost_of hs = elim (costs_of hs) [ none ↦ none | some cs ↦ some (sum F cs) ]

  -- A portfolio holds a symbol once, so the dictionaries by symbol are lists in its order.
  unfoldable pub positions_of : Number → List (Holding F × Number) → List (PositionValue F)
  unfolding priced_position
  positions_of total = map (λ e. priced_position F e.0 e.1 (e.0.quantity * e.1) total)

  -- The rest of `value`, of holdings that all have a price.
  unfoldable pub allocate : Portfolio → List (Holding F × Number) → ℕ → Result Allocation
  unfolding has_bad_price market_values positions_of total_cost_of concentration sector_exposure
  allocate p priced top_n = do
    let total = sum F (market_values priced)
    let positions = positions_of total priced
    let weights = map (λ (v : PositionValue F). (v.symbol, v.weight)) positions
    raise_if (has_bad_price priced) (invalid_request "Non-positive or non-finite price")
    raise_if (le F total (epsilon F)) (invalid_request "total market value is zero")
    focus ← concentration F weights top_n
    sectors ← sector_exposure F weights
    ok (record {
      positions = positions;
      total_value = total;
      total_cost = total_cost_of p.holdings;
      weights = weights;
      concentration = focus;
      sector_exposure = sectors;
    })

  -- `Portfolio.value`
  unfoldable pub value : Portfolio → List (String × Number) → ℕ → Result Allocation
  unfolding with_prices allocate
  value p prices top_n = with_prices prices p.holdings >>= λ priced. allocate p priced top_n

  -- The holding of one positive weight.
  unfoldable pub weighted_holding : String → Number → Number → Option Number → Result (Holding F)
  unfolding checked_holding
  weighted_holding symbol weight total none = err (key_error symbol)
  weighted_holding symbol weight total (some x) = do
    raise_if (eq x (num 0)) zero_division
    checked_holding F (record { symbol = symbol; quantity = weight * total / x; cost_basis = none })

  unfoldable pub weighted_holdings :
      List (String × Number) → Number → WeightDict F → Result (List (Holding F))
  unfolding weighted_holding price_of
  weighted_holdings prices total [] = ok []
  weighted_holdings prices total ((symbol, weight) ∷ weights) =
      let rest = weighted_holdings prices total weights in
      if lt (num 0) weight
      then (weighted_holding symbol weight total (price_of F symbol prices) >>= λ h.
          rest >>= λ hs. ok (h ∷ hs))
      else rest

  -- `Portfolio.from_weights`
  unfoldable pub from_weights :
      WeightDict F → List (String × Number) → Number → String → String → String → Result Portfolio
  unfolding weighted_holdings checked_portfolio
  from_weights weights prices total name base_currency benchmark = do
    holdings ← weighted_holdings prices total weights
    raise_if (length holdings == 0) (invalid_request "no positions")
    checked_portfolio (record {
      holdings = holdings;
      name = name;
      base_currency = base_currency;
      benchmark = benchmark;
    })
