-- ===== src/Strategies/Examples.antt =====
-- The theorems on the strategy contract, applied at concrete inputs (services/quant/strategies).
use quantora.Prelude.{ℕ, ◌≡◌, refl, false, []}
use quantora.Rational.{ℚ, exact, of_frac, mul, lt}
use quantora.Rational.Fractions.{frac}
use quantora.Rational.Laws.{exact-IsExact}
use quantora.Strategies.Base.{long, SizingContext, default_allocation, position_size}
use quantora.Strategies.Base.Sizing.{position_size-long}

abbrev pub q : ℕ → ℚ
q n = of_frac (frac n 0 0)

abbrev context : SizingContext exact
context = record {
  timestamp = 3;
  symbol = "TCS.NS";
  direction = long;
  strength = of_frac (frac 1 0 1);
  price = q 101;
  equity = q 10000;
  cash = q 10000;
  position = record {
    symbol = "TCS.NS";
    quantity = q 0;
    entry_price = q 0;
    entry_timestamp = 0;
    bars_held = 0;
  };
  indicators = [];
}

position_size-long_example :
    (lt (position_size exact context) (q 0) ≡ false)
    × (lt (mul (q 10000) (default_allocation exact)) (mul (position_size exact context) (q 101))
        ≡ false)
unfolding lt
position_size-long_example = position_size-long exact exact-IsExact context refl refl refl
