-- ===== src/Analytics/Holdings.antt =====
-- Holdings and their allocation (services/quant/portfolio/holdings.py).
pub mod Exposure
pub mod Allocation
pub mod Weights
pub mod Sectors
use quantora.Prelude.{
  ℕ, Bool, true, false, not, ◌&&◌, ◌||◌, if◌then◌else◌, leb, ltb, ◌==◌, Option, none, some, List,
  [], ◌∷◌, ◌++◌, map, String, same_text, length, take, is_blank, Result, ok, err, key_error,
  zero_division, index_error, invalid_request, ◌>>=◌, ◌>>◌, raise_if,
}
use Prim.Native.String.{compare}
use text.Mathlib.Text.{is_lt}
use quantora.Float.{Floats, le, sum, tiny}
use quantora.Data.Universe.{get_instrument}

module _ (F : Floats) where
  open F use {Number, num, sub as ◌-◌, mul as ◌*◌, div as ◌/◌, lt, eq}

  infixl 65 ◌-◌
  infixl 70 ◌*◌ ◌/◌
  pub record Holding : Type 0 where
    pub symbol : String
    pub quantity : Number
    pub cost_basis : Option Number

  abbrev is_negative : Option Number → Bool
  is_negative none = false
  is_negative (some x) = lt x (num 0)

  -- `Holding.__post_init__`
  unfoldable pub checked_holding : Holding → Result Holding
  unfolding get_instrument
  checked_holding h = do
    raise_if (is_blank h.symbol) (invalid_request "symbol")
    get_instrument h.symbol >>= λ i. raise_if (le F h.quantity (num 0)) (invalid_request "quantity")
    raise_if (is_negative h.cost_basis) (invalid_request "cost_basis")
    ok h

  pub record PositionValue : Type 0 where
    pub symbol : String
    pub quantity : Number
    pub price : Number
    pub market_value : Number
    pub weight : Number
    pub cost_basis : Option Number
    pub unrealized_pnl : Option Number
    pub unrealized_return : Option Number

  abbrev pub epsilon : Number
  epsilon = tiny F 9

  -- The PnL of a holding, and its return, where a cost is recorded.
  unfoldable pub holding_pnl : Holding → Number → Option Number → Option Number × Option Number
  holding_pnl h market_value none = (none, none)
  holding_pnl h market_value (some cost_basis) =
      let cost = h.quantity * cost_basis in
      let pnl = market_value - cost in
      (some pnl, if lt epsilon cost then some (pnl / cost) else none)

  -- `_position_value`
  unfoldable pub priced_position : Holding → Number → Number → Number → PositionValue
  unfolding holding_pnl
  priced_position h price market_value total_value =
      let (pnl, pnl_return) = holding_pnl h market_value h.cost_basis in
      record {
        symbol = h.symbol;
        quantity = h.quantity;
        price = price;
        market_value = market_value;
        weight = market_value / total_value;
        cost_basis = h.cost_basis;
        unrealized_pnl = pnl;
        unrealized_return = pnl_return;
      }

  -- A dictionary from symbols to weights, in the order of insertion.
  abbrev pub WeightDict : Type 0
  WeightDict = List (String × Number)

  pub record Concentration : Type 0 where
    pub largest_symbol : String
    pub largest_weight : Number
    pub top_n : ℕ
    pub top_n_weight : Number
    pub top_n_symbols : List String
    pub hhi : Number
    pub effective_holdings : Option Number

  -- `(-v, t) < (-w, u)`, the order of the sort key
  abbrev precedes : String × Number → String × Number → Bool
  precedes (t, v) (u, w) = lt w v || eq v w && is_lt (compare t u)

  unfoldable pub insert_weight : String × Number → WeightDict → WeightDict
  insert_weight e [] = e ∷ []
  insert_weight e (f ∷ fs) = if precedes f e then f ∷ insert_weight e fs else e ∷ f ∷ fs

  unfoldable pub ordered : WeightDict → WeightDict
  unfolding insert_weight
  ordered [] = []
  ordered (e ∷ es) = insert_weight e (ordered es)

  unfoldable pub hhi_of : WeightDict → Number
  hhi_of weights = sum F (map (λ e. e.1 * e.1) weights)

  -- The figures of `concentration`, of the sorted weights; a NaN is `none`.
  unfoldable pub concentration_of : WeightDict → Number → ℕ → Result Concentration
  concentration_of [] hhi top_n = err (invalid_request "weights")
  concentration_of ((symbol, weight) ∷ rest) hhi top_n =
      let all = (symbol, weight) ∷ rest in
      let effective_n = if ltb (length all) top_n then length all else top_n in
      let top = take effective_n all in
      ok (record {
        largest_symbol = symbol;
        largest_weight = weight;
        top_n = effective_n;
        top_n_weight = sum F (map (λ e. e.1) top);
        top_n_symbols = map (λ e. e.0) top;
        hhi = hhi;
        effective_holdings = if lt epsilon hhi then some (num 1 / hhi) else none;
      })

  unfoldable pub concentration : WeightDict → ℕ → Result Concentration
  unfolding ordered hhi_of concentration_of
  concentration weights top_n = concentration_of (ordered weights) (hhi_of weights) top_n
