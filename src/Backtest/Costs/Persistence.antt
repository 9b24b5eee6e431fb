-- ===== src/Backtest/Costs/Persistence.antt =====
-- A cost model that is saved and rebuilt (services/quant/backtest/costs.py).
use quantora.Prelude.{◌≡◌, ok, some}
use quantora.Float.{Floats}
use quantora.Backtest.Costs.{CostModel, checked, as_dict, argument, has_unknown, from_dict}

module _ (F : Floats) where
  -- A cost model that the constructor accepts is rebuilt, unchanged, from the dictionary that it is
  -- saved as.
  pub from_dict-as_dict :
      (m k : CostModel F) → checked F m ≡ ok k → from_dict F (some (as_dict F m)) ≡ ok k
  unfolding from_dict as_dict argument has_unknown
  from_dict-as_dict m k h = h
