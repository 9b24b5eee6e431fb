-- ===== src/Analytics/Examples.antt =====
-- The theorems on holdings, applied at concrete inputs (services/quant/portfolio).
use quantora.Prelude.{
  sorted_texts, insert_text, ℕ, ◌≡◌, refl, Option, none, some, List, [], ◌∷◌, map, String, ok,
}
use quantora.Float.{sum, tiny}
use quantora.Rational.{ℚ, exact, of_frac, add, mul, neg, inv, lt}
use quantora.Rational.Fractions.{frac}
use quantora.Rational.Laws.{exact-IsExact}
use quantora.Backtest.Portfolio.{price_of}
use quantora.Data.Universe.{get_instrument, lookup}
use quantora.Analytics.Holdings.{
  Holding, priced_position, concentration, WeightDict, holding_pnl, ordered, insert_weight, hhi_of,
  concentration_of,
}
use quantora.Analytics.Holdings.Exposure.{
  SectorExposure, sector_exposure, tally, classify, add_weight, set_weight, exposure_of, classified,
  sorted_sectors, insert_name,
}
use quantora.Analytics.Holdings.Allocation.{
  Allocation, Portfolio, value, allocate, with_prices, has_bad_price, market_values, positions_of,
  total_cost_of, costs_of,
}
use quantora.Analytics.Holdings.Weights.{value-weights}
use quantora.Analytics.Holdings.Sectors.{sector_exposure-accounted}

abbrev pub q : ℕ → ℚ
q n = of_frac (frac n 0 0)

abbrev holding : String → ℕ → Option ℚ → Holding exact
holding symbol quantity cost_basis = record {
  symbol = symbol;
  quantity = q quantity;
  cost_basis = cost_basis;
}

abbrev holdings : Portfolio exact
holdings = record {
  holdings =
      holding "TCS.NS" 10 (some (q 90)) ∷ holding "NIFTY" 5 none ∷ holding "INFY.NS" 20 none ∷ [];
  name = "core";
  base_currency = "INR";
  benchmark = "NIFTY";
}

abbrev prices : List (String × ℚ)
prices = ("TCS.NS", q 100) ∷ ("INFY.NS", q 50) ∷ ("NIFTY", q 200) ∷ []

valued : (a : Allocation exact) × (value exact holdings prices 2 ≡ ok a)
unfolding value allocate with_prices price_of has_bad_price market_values positions_of
    priced_position holding_pnl total_cost_of costs_of concentration ordered insert_weight hhi_of
    concentration_of sector_exposure tally classify add_weight set_weight exposure_of classified
    sorted_sectors insert_name sorted_texts insert_text get_instrument lookup sum tiny add mul neg
    inv lt
valued = (_, refl)

value-weights_example :
    (sum exact (map (λ v. v.weight) valued.0.positions) ≡ q 1)
    × (map (λ v. v.symbol) valued.0.positions ≡ "TCS.NS" ∷ "NIFTY" ∷ "INFY.NS" ∷ [])
value-weights_example = value-weights exact exact-IsExact holdings prices 2 valued.0 valued.1

abbrev weights : WeightDict exact
weights = ("TCS.NS", q 1) ∷ ("NIFTY", q 2) ∷ ("INFY.NS", q 3) ∷ []

exposed : (e : SectorExposure exact) × (sector_exposure exact weights ≡ ok e)
unfolding sector_exposure tally classify add_weight set_weight exposure_of classified sorted_sectors
    insert_name sorted_texts insert_text get_instrument lookup sum tiny add mul neg inv lt
exposed = (_, refl)

sector_exposure-accounted_example :
    add exposed.0.classified_weight exposed.0.unclassified_weight
    ≡ sum exact (map (λ w. w.1) weights)
sector_exposure-accounted_example =
    sector_exposure-accounted exact exact-IsExact weights exposed.0 exposed.1
