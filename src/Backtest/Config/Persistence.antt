-- ===== src/Backtest/Config/Persistence.antt =====
-- A configuration that is saved and rebuilt (services/quant/backtest/config.py).
use quantora.Prelude.{◌≡◌, refl, ok}
use quantora.Float.{Floats}
use quantora.Backtest.Costs
use quantora.Backtest.Costs.Persistence.{from_dict-as_dict}
use quantora.Backtest.Config.{
  ExecutionModel, next_bar_open, next_bar_close, execution_name, execution_of, BacktestConfig,
  checked, as_dict, from_dict,
}

execution_of-execution_name : (m : ExecutionModel) → execution_of (execution_name m) ≡ ok m
unfolding execution_of execution_name
execution_of-execution_name next_bar_open = refl
execution_of-execution_name next_bar_close = refl

module _ (F : Floats) where
  -- A configuration that the constructor accepts, with a cost model that its constructor accepts, is
  -- rebuilt, unchanged, from the dictionary that it is saved as.
  pub from_dict-as_dict-checked :
      (c k : BacktestConfig F)
      → Costs.checked F c.cost_model ≡ ok c.cost_model
      → checked F c ≡ ok k
      → from_dict F (as_dict F c) ≡ ok k
  unfolding from_dict as_dict
  from_dict-as_dict-checked c k costs h =
      rw
        (
          from_dict-as_dict F c.cost_model c.cost_model costs,
          execution_of-execution_name c.execution_model,
        )
        h
