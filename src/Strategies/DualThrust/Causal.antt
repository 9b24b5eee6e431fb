-- ===== src/Strategies/DualThrust/Causal.antt =====
-- The Dual Thrust rule does not look ahead, and is not short where it may not be
-- (services/quant/strategies/dual_thrust.py).
use quantora.Prelude.{
  ℕ, zero, suc, ◌<◌, ◌≡◌, refl, sym, ap, ap₂, ◌∙◌, Option, Bool, true, false, arith,
}
use quantora.Float.{Floats}
use quantora.Strategies.Base.{short, same_direction}
use quantora.Strategies.Columns.{Column, Agree, Pandas, IsPandas, row_of}
use quantora.Strategies.Columns.Held.{held_target-Agree, held_target-long, IsLongOnly}
use quantora.Strategies.DualThrust.{
  DualThrustParams, Bars, breakout, breakout_reason, range_at, triggers_at, is_up, is_down,
  broke_up, broke_down, breakouts, dual_thrust_signals,
}

module _ (F : Floats) (P : Pandas F.Number) (L : IsPandas P) where
  breakout-long :
      (params : DualThrustParams F) (up down : Bool)
      → params.allow_short ≡ false
      → IsLongOnly P L (breakout F params up down)
  unfolding breakout
  breakout-long params up true off = rw off refl
  breakout-long params true false off = refl
  breakout-long params false false off = tt

  -- With pandas as documented: with `allow_short` off, no row has a short target.
  pub dual_thrust_signals-long :
      (params : DualThrustParams F) (bars : Bars F) (i : ℕ)
      → params.allow_short ≡ false
      → same_direction (dual_thrust_signals F P params bars i).direction short ≡ false
  unfolding dual_thrust_signals row_of breakouts
  dual_thrust_signals-long params bars i off =
      held_target-long P L (breakouts F P params bars) i
        (λ j. breakout-long params (is_up F P params bars j) (is_down F P params bars j) off)

  -- Bars that are the same up to a row.
  pub record HaveSameRows (i : ℕ) (b d : Bars F) : Type 0 where
    pub open_price : Agree i b.open_price d.open_price
    pub high : Agree i b.high d.high
    pub low : Agree i b.low d.low
    pub close : Agree i b.close d.close

  -- Columns that are the same at the rows before a row.
  abbrev AgreeBefore {ℓ} : {A : Type ℓ} → ℕ → Column A → Column A → Type ℓ
  AgreeBefore i c d = (j : ℕ) → j < i → c j ≡ d j

  -- Bars that are the same before a row, and have the same open at it.
  pub record HaveSameHistory (i : ℕ) (b d : Bars F) : Type 0 where
    pub open_price : b.open_price i ≡ d.open_price i
    pub high : AgreeBefore i b.high d.high
    pub low : AgreeBefore i b.low d.low
    pub close : AgreeBefore i b.close d.close

  shift-AgreeBefore :
      {A : Type 0} (c d : Column (Option A)) (i : ℕ)
      → AgreeBefore i c d
      → Agree i (P.shift c) (P.shift d)
  shift-AgreeBefore c d i h zero k = L.shift_first c ∙ sym (L.shift_first d)
  shift-AgreeBefore c d i h (suc j) k =
      L.shift_next c j ∙ h j (omega arith) ∙ sym (L.shift_next d j)

  range_at-before :
      (lookback : ℕ) (b d : Bars F) (i : ℕ)
      → AgreeBefore i b.high d.high
      → AgreeBefore i b.low d.low
      → AgreeBefore i b.close d.close
      → range_at F P lookback b i ≡ range_at F P lookback d i
  unfolding range_at
  range_at-before lookback b d i high low close =
      let closes = shift-AgreeBefore b.close d.close i close in
      rw
        (
          L.rolling_max_local lookback (P.shift b.high) (P.shift d.high) i
              (shift-AgreeBefore b.high d.high i high),
          L.rolling_max_local lookback (P.shift b.close) (P.shift d.close) i closes,
          L.rolling_min_local lookback (P.shift b.close) (P.shift d.close) i closes,
          L.rolling_min_local lookback (P.shift b.low) (P.shift d.low) i
              (shift-AgreeBefore b.low d.low i low),
        )
        refl

  triggers_at-before :
      (params : DualThrustParams F) (b d : Bars F) (i : ℕ)
      → HaveSameHistory i b d
      → triggers_at F P params b i ≡ triggers_at F P params d i
  unfolding triggers_at
  triggers_at-before params b d i same =
      rw (range_at-before params.lookback b d i same.high same.low same.close, same.open_price) refl

  range_at-Agree :
      (lookback : ℕ) (b d : Bars F) (i : ℕ)
      → HaveSameRows i b d
      → Agree i (range_at F P lookback b) (range_at F P lookback d)
  range_at-Agree lookback b d i same j k =
      range_at-before lookback b d j (λ l m. same.high l (omega arith))
        (λ l m. same.low l (omega arith)) (λ l m. same.close l (omega arith))

  is_up-Agree :
      (params : DualThrustParams F) (b d : Bars F) (i : ℕ)
      → HaveSameRows i b d
      → Agree i (is_up F P params b) (is_up F P params d)
  unfolding is_up triggers_at
  is_up-Agree params b d i same j k =
      rw
        (
          range_at-Agree params.lookback b d i same j k,
          same.open_price j k,
          same.high j k,
          same.close j k,
        )
        refl

  is_down-Agree :
      (params : DualThrustParams F) (b d : Bars F) (i : ℕ)
      → HaveSameRows i b d
      → Agree i (is_down F P params b) (is_down F P params d)
  unfolding is_down triggers_at
  is_down-Agree params b d i same j k =
      rw
        (
          range_at-Agree params.lookback b d i same j k,
          same.open_price j k,
          same.low j k,
          same.close j k,
        )
        refl

  signals-same :
      (params : DualThrustParams F) (b d : Bars F) (i : ℕ)
      → HaveSameRows i b d
      → dual_thrust_signals F P params b i ≡ dual_thrust_signals F P params d i
  unfolding dual_thrust_signals breakouts
  signals-same params b d i same =
      let up = is_up-Agree params b d i same in
      let down = is_down-Agree params b d i same in
      ap₂ (row_of F)
        (held_target-Agree P L (breakouts F P params b) (breakouts F P params d) i
          (λ j k. ap₂ (breakout F params) (up j k) (down j k)))
        (ap₂ (breakout_reason F params) (up i (omega arith)) (down i (omega arith)))

  -- No look-ahead, with pandas as documented: bars that are the same up to a row give the same signal
  -- there, its direction, strength and reason; and bars that are the same before a row, with the same
  -- open at it, have the same range and triggers there, so that what is tested at the row, its own
  -- prices, is tested against what was known at its open.
  pub dual_thrust_signals-Agree :
      (params : DualThrustParams F) (b d e : Bars F) (i : ℕ)
      → HaveSameRows i b d
      → HaveSameHistory i b e
      → (dual_thrust_signals F P params b i ≡ dual_thrust_signals F P params d i)
        × (triggers_at F P params b i ≡ triggers_at F P params e i)
        × (is_up F P params e i
            ≡ broke_up F params (triggers_at F P params b i) (e.high i) (e.close i))
        × (is_down F P params e i
            ≡ broke_down F params (triggers_at F P params b i) (e.low i) (e.close i))
  unfolding is_up is_down
  dual_thrust_signals-Agree params b d e i same known =
      let triggers = triggers_at-before params b e i known in
      (
        signals-same params b d i same,
        triggers,
        ap (λ t. broke_up F params t (e.high i) (e.close i)) (sym triggers),
        ap (λ t. broke_down F params t (e.low i) (e.close i)) (sym triggers),
      )
