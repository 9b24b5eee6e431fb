-- ===== src/Backtest/Costs.antt =====
-- The transaction-cost model (services/quant/backtest/costs.py).
pub mod Pricing
pub mod Persistence
use quantora.Prelude.{
  Bool, true, false, not, ◌||◌, if◌then◌else◌, Option, none, some, List, [], ◌∷◌, String, same_text,
  ℤ, pos, negsuc, same_int, Result, ok, value_error, ◌>>◌, raise_if,
}
use quantora.Float.{Floats, abs, max, of_int}

-- `side not in (1, -1)`
abbrev not_a_side : ℤ → Bool
not_a_side side = not (same_int side (pos 1) || same_int side (negsuc 0))

module _ (F : Floats) where
  open F use {Number, num, add as ◌+◌, mul as ◌*◌, div as ◌/◌, lt}

  infixl 65 ◌+◌
  infixl 70 ◌*◌ ◌/◌
  abbrev pub bps : Number
  bps = num 10000

  pub record CostModel : Type 0 where
    pub commission_bps : Number
    pub commission_min : Number
    pub slippage_bps : Number
    pub spread_bps : Number

  -- `__post_init__`: the fields in the order in which they are checked.
  unfoldable pub checked : CostModel → Result CostModel
  checked m = do
    raise_if (lt m.commission_bps (num 0)) (value_error "commission_bps")
    raise_if (lt m.commission_min (num 0)) (value_error "commission_min")
    raise_if (lt m.slippage_bps (num 0)) (value_error "slippage_bps")
    raise_if (lt m.spread_bps (num 0)) (value_error "spread_bps")
    ok m

  abbrev pub default : CostModel
  default = record {
    commission_bps = num 3;
    commission_min = num 0;
    slippage_bps = num 5;
    spread_bps = num 2;
  }

  abbrev pub zero_cost : CostModel
  zero_cost = record {
    commission_bps = num 0;
    commission_min = num 0;
    slippage_bps = num 0;
    spread_bps = num 0;
  }

  -- The known field names, with the value that a model has for each.
  unfoldable pub as_dict : CostModel → List (String × Number)
  as_dict m =
      ("commission_bps", m.commission_bps)
      ∷ ("commission_min", m.commission_min)
      ∷ ("slippage_bps", m.slippage_bps)
      ∷ ("spread_bps", m.spread_bps)
      ∷ []

  -- The value of a keyword argument, or the field's default.
  unfoldable pub argument : String → Number → List (String × Number) → Number
  argument name fallback [] = fallback
  argument name fallback ((key, x) ∷ payload) =
      if same_text key name then x else argument name fallback payload

  unfoldable pub has_unknown : List (String × Number) → Bool
  has_unknown [] = false
  has_unknown ((key, x) ∷ payload) =
      not (
        same_text key "commission_bps"
        || same_text key "commission_min"
        || same_text key "slippage_bps"
        || same_text key "spread_bps")
      || has_unknown payload

  -- `from_dict`, of a payload of numbers; an empty payload counts as none.
  unfoldable pub from_dict : Option (List (String × Number)) → Result CostModel
  unfolding argument has_unknown checked
  from_dict none = ok default
  from_dict (some []) = ok default
  from_dict (some (entry ∷ entries)) = do
    raise_if (has_unknown (entry ∷ entries)) (value_error "Unknown cost-model field(s)")
    checked (record {
      commission_bps = argument "commission_bps" (num 3) (entry ∷ entries);
      commission_min = argument "commission_min" (num 0) (entry ∷ entries);
      slippage_bps = argument "slippage_bps" (num 5) (entry ∷ entries);
      spread_bps = argument "spread_bps" (num 2) (entry ∷ entries);
    })

  -- The fraction of the price that one side loses to slippage and half the spread.
  unfoldable pub penalty : CostModel → Number
  penalty m = (m.slippage_bps + m.spread_bps / num 2) / bps

  unfoldable pub fill_price : CostModel → Number → ℤ → Result Number
  unfolding penalty
  fill_price m reference_price side = do
    raise_if (not_a_side side) (value_error "side")
    ok (reference_price * (num 1 + of_int F side * penalty m))

  unfoldable pub commission : CostModel → Number → Number
  commission m notional = max F m.commission_min (abs F notional * m.commission_bps / bps)
