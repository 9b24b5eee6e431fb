-- ===== src/Strategies/LongOnly.antt =====
-- What `allow_short` means to the strategies that have it (services/quant/strategies).
use quantora.Prelude.{ℕ, ◌≡◌, false}
use quantora.Float.{Floats}
use quantora.Strategies.Base.{short, same_direction}
use quantora.Strategies.Columns.{Pandas, IsPandas}
use quantora.Strategies.Macd.Signals.{MacdParams, MacdResult, macd_signals, macd_signals-long}
use quantora.Strategies.Bollinger.{BollingerParams, Bands, bollinger_signals}
use quantora.Strategies.Bollinger.Causal.{bollinger_signals-long}
use quantora.Strategies.DualThrust.{DualThrustParams, Bars, dual_thrust_signals}
use quantora.Strategies.DualThrust.Causal.{dual_thrust_signals-long}

module _ (F : Floats) (P : Pandas F.Number) (L : IsPandas P) where
  -- With pandas as documented: with `allow_short` off, at no row does the MACD rule, the Bollinger rule or
  -- the Dual Thrust rule target a short position.
  pub signals-long :
      (macd_params : MacdParams F) (bollinger_params : BollingerParams F)
      (thrust_params : DualThrustParams F) (result : MacdResult F) (bands : Bands F) (bars : Bars F)
      (i : ℕ)
      → macd_params.allow_short ≡ false
      → bollinger_params.allow_short ≡ false
      → thrust_params.allow_short ≡ false
      → (same_direction (macd_signals F P macd_params result i).direction short ≡ false)
        × (same_direction (bollinger_signals F P bollinger_params bands i).direction short ≡ false)
        × (same_direction (dual_thrust_signals F P thrust_params bars i).direction short ≡ false)
  signals-long macd_params bollinger_params thrust_params result bands bars i no_macd no_bollinger
        no_thrust =
      (
        macd_signals-long F P L macd_params result i no_macd,
        bollinger_signals-long F P L bollinger_params bands i no_bollinger,
        dual_thrust_signals-long F P L thrust_params bars i no_thrust,
      )
