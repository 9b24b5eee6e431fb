-- ===== src/Strategies/PairTrading/Causal.antt =====
-- The columns of the pair at a row depend on no later row
-- (services/quant/strategies/pair_trading.py, services/quant/indicators).
use quantora.Prelude.{
  ℕ, ◌≡◌, refl, ap₂, Bool, true, false, if◌then◌else◌, ltb, Option, some, Result, ok, err, Error,
  value_error, ◌>>=◌, ◌>>◌, raise_if, arith,
}
use quantora.Float.{Floats}
use quantora.Strategies.Columns.{Column, Agree, Pandas, IsPandas}
use quantora.Strategies.Columns.Held.{held_target-Agree}
use quantora.Indicators.{
  Rolling, validate_window, both, sma, rolling_std, rolling_zscore, rolling_correlation,
  hedge_ratio,
}
use quantora.Strategies.PairTrading.{
  PairParams, PairColumns, pair_target, pair_columns, pair_directions, pair_row,
}

-- As documented: a rolling statistic and a difference at a row have no later rows.
pub record IsRolling {Number : Type 0} (R : Rolling Number) : Type 0 where
  pub mean_local :
      (w : ℕ) (c d : Column (Option Number)) (i : ℕ)
      → Agree i c d
      → R.rolling_mean w c i ≡ R.rolling_mean w d i
  pub deviation_local :
      (w ddof : ℕ) (c d : Column (Option Number)) (i : ℕ)
      → Agree i c d
      → R.rolling_deviation w ddof c i ≡ R.rolling_deviation w ddof d i
  pub variance_local :
      (w : ℕ) (c d : Column (Option Number)) (i : ℕ)
      → Agree i c d
      → R.rolling_variance w c i ≡ R.rolling_variance w d i
  pub covariance_local :
      (w : ℕ) (a b c d : Column (Option Number)) (i : ℕ)
      → Agree i a c
      → Agree i b d
      → R.rolling_covariance w a b i ≡ R.rolling_covariance w c d i
  pub diff_local : (c d : Column (Option Number)) (i : ℕ) → Agree i c d → R.diff c i ≡ R.diff d i

-- Two runs that raise the same error, or return values that are the same as far as `Same` tells.
abbrev pub Alike : {V W : Type 0} → (V → W → Type 0) → Result V → Result W → Type 0
Alike Same (ok v) (ok w) = Same v w
Alike Same (err e) (err f) = e ≡ f
Alike Same _ _ = ⊥

Alike->>= :
    {V W X Y : Type 0} (Same : V → W → Type 0) (After : X → Y → Type 0) (r : Result V)
    (s : Result W) (f : V → Result X) (g : W → Result Y)
    → Alike Same r s
    → ((v : V) (w : W) → Same v w → Alike After (f v) (g w))
    → Alike After (r >>= f) (s >>= g)
Alike->>= Same After (ok v) (ok w) f g same next = next v w same
Alike->>= Same After (err e) (err e') f g same next = same
Alike->>= Same After (ok v) (err e) f g same next = elim same [ ]
Alike->>= Same After (err e) (ok w) f g same next = elim same [ ]

-- The same check before both.
Alike-raise_if :
    {X Y : Type 0} (After : X → Y → Type 0) (test : Bool) (e : Error) (r : Result X) (s : Result Y)
    → Alike After r s
    → Alike After (raise_if test e >> r) (raise_if test e >> s)
Alike-raise_if After true e r s same = refl
Alike-raise_if After false e r s same = same

module _ (F : Floats) (R : Rolling F.Number) (L : IsRolling R) where
  open F use {Number}

  sma-Alike :
      (c d : Column (Option Number)) (w i : ℕ)
      → Agree i c d
      → Alike (Agree i) (sma F R c w) (sma F R d w)
  unfolding sma validate_window
  sma-Alike c d w i same =
      Alike-raise_if (Agree i) (ltb w 1) (value_error "window") _ _
        (λ j h. L.mean_local w c d j (λ k g. same k (omega arith)))

  rolling_std-Alike :
      (c d : Column (Option Number)) (w ddof i : ℕ)
      → Agree i c d
      → Alike (Agree i) (rolling_std F R c w ddof) (rolling_std F R d w ddof)
  unfolding rolling_std validate_window
  rolling_std-Alike c d w ddof i same =
      Alike-raise_if (Agree i) (ltb w 1) (value_error "window") _ _
        (λ j h. L.deviation_local w ddof c d j (λ k g. same k (omega arith)))

  rolling_zscore-Alike :
      (c d : Column (Option Number)) (w i : ℕ)
      → Agree i c d
      → Alike (Agree i) (rolling_zscore F R c w) (rolling_zscore F R d w)
  unfolding rolling_zscore validate_window
  rolling_zscore-Alike c d w i same =
      Alike-raise_if (Agree i) (ltb w 2) (value_error "window") _ _ (
        Alike->>= (Agree i) (Agree i) (sma F R c w) (sma F R d w) _ _ (sma-Alike c d w i same)
          (λ m n means.
            Alike->>= (Agree i) (Agree i) (rolling_std F R c w 0) (rolling_std F R d w 0) _ _
              (rolling_std-Alike c d w 0 i same)
              (λ s t spreads. λ j h. rw (same j h, means j h, spreads j h) refl)))

  hedge_ratio-Alike :
      (a b c d : Column (Option Number)) (w i : ℕ)
      → Agree i a c
      → Agree i b d
      → Alike (Agree i) (hedge_ratio F R a b w) (hedge_ratio F R c d w)
  unfolding hedge_ratio validate_window
  hedge_ratio-Alike a b c d w i first second =
      Alike-raise_if (Agree i) (ltb w 2) (value_error "window") _ _ (λ j h.
        rw
          (
            L.covariance_local w a b c d j (λ k g. first k (omega arith))
                (λ k g. second k (omega arith)),
            L.variance_local w b d j (λ k g. second k (omega arith)),
          )
          refl)

  rolling_correlation-Alike :
      (a b c d : Column (Option Number)) (w i : ℕ)
      → Agree i a c
      → Agree i b d
      → Alike (Agree i) (rolling_correlation F R a b w) (rolling_correlation F R c d w)
  unfolding rolling_correlation validate_window
  rolling_correlation-Alike a b c d w i first second =
      Alike-raise_if (Agree i) (ltb w 2) (value_error "window") _ _ (λ j h.
        rw
          (
            L.covariance_local w a b c d j (λ k g. first k (omega arith))
                (λ k g. second k (omega arith)),
            L.variance_local w a c j (λ k g. first k (omega arith)),
            L.variance_local w b d j (λ k g. second k (omega arith)),
          )
          refl)

  -- The columns of the pair that are the same up to a row.
  pub record HaveSameRows (i : ℕ) (c d : PairColumns F) : Type 0 where
    pub spread : Agree i c.spread d.spread
    pub zscore : Agree i c.zscore d.zscore
    pub correlation : Agree i c.correlation d.correlation
    pub beta : Agree i c.beta d.beta

  beta-Alike :
      (hedged : Bool) (a b c d : Column (Option Number)) (w i : ℕ)
      → Agree i a c
      → Agree i b d
      → Alike
          (Agree i)
          (if hedged then hedge_ratio F R a b w else ok (λ i. some (F.num 1)))
          (if hedged then hedge_ratio F R c d w else ok (λ i. some (F.num 1)))
  beta-Alike true a b c d w i first second = hedge_ratio-Alike a b c d w i first second
  beta-Alike false a b c d w i first second = λ j h. refl

  pub pair_columns-Alike :
      (P : Pandas Number) (params : PairParams F) (a b c d : Column (Option Number)) (i : ℕ)
      → Agree i a c
      → Agree i b d
      → Alike (HaveSameRows i) (pair_columns F R P params a b) (pair_columns F R P params c d)
  unfolding pair_columns
  pair_columns-Alike P params a b c d i first second =
      Alike->>= (Agree i) (HaveSameRows i) _ _ _ _
        (beta-Alike params.use_hedge_ratio a b c d params.lookback i first second)
        (λ β γ betas.
          let spreads : Agree i (λ j. both F.sub (a j) (both F.mul (β j) (b j)))
              (λ j. both F.sub (c j) (both F.mul (γ j) (d j))) =
            λ j h. rw (first j h, second j h, betas j h) refl in
          Alike->>= (Agree i) (HaveSameRows i) _ _ _ _
            (rolling_zscore-Alike _ _ params.lookback i spreads)
            (λ y z zscores.
              Alike->>= (Agree i) (HaveSameRows i) _ _ _ _
                (rolling_correlation-Alike (R.diff a) (R.diff b) (R.diff c) (R.diff d)
                  params.lookback i (λ j h. L.diff_local a c j (λ k g. first k (omega arith)))
                  (λ j h. L.diff_local b d j (λ k g. second k (omega arith))))
                (λ p q correlations. record {
                  spread = spreads;
                  zscore = zscores;
                  correlation = correlations;
                  beta = betas;
                })))

  pub pair_row-same :
      (P : Pandas Number) (params : PairParams F) (c d : PairColumns F) (t i : ℕ)
      → IsPandas P
      → HaveSameRows i c d
      → pair_row F R P params c t i ≡ pair_row F R P params d t i
  unfolding pair_row pair_directions
  pair_row-same P params c d t i law same =
      let target =
        λ (e : PairColumns F) (j : ℕ). pair_target F params (e.zscore j) (e.correlation j) in
      let directions =
        held_target-Agree P law (target c) (target d) i
          (λ j h. ap₂ (pair_target F params) (same.zscore j h) (same.correlation j h)) in
      rw
        (
          directions,
          same.spread i (omega arith),
          same.zscore i (omega arith),
          same.correlation i (omega arith),
          same.beta i (omega arith),
        )
        refl
