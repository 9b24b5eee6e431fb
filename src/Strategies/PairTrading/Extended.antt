-- ===== src/Strategies/PairTrading/Extended.antt =====
-- The signals of the pair on longer series (services/quant/strategies/pair_trading.py).
use quantora.Prelude.{
  ℕ, suc, ◌-◌ as minus, ◌≤◌, ◌<◌, ◌≡◌, refl, sym, ap, ap₂, ◌∙◌, false, ltb, Option-cases, inl, inr,
  none, some, List, [], ◌∷◌, ◌++◌, map, length, length-append, String, same_text, Result, ok, err,
  invalid_parameters, insufficient_data, >>=-eq-ok, raise_if-ok, ok_injective, arith,
}
use mathlib.Core.Option
use quantora.Float.{Floats}
use quantora.Strategies.Columns.{Agree, Pandas, IsPandas}
use quantora.Indicators.{Rolling}
use quantora.Indicators.Continued.{Extends, map-append}
use quantora.Strategies.PairTrading.{
  Leg, PairParams, common_bars, PairColumns, PairRow, position_of, pair_columns, reindexed_row,
  log_columns, pair_signals,
}
use quantora.Strategies.PairTrading.Causal.{
  IsRolling, Alike, HaveSameRows, pair_columns-Alike, pair_row-same,
}
use quantora.Strategies.PairTrading.Common.{
  row-append, row-map, with_later, AreAbsent, common_bars-append, common_bars-same,
  common_bars-absent, position_of-found, position_of-missing,
}

Alike-ok :
    {V W : Type 0} (Same : V → W → Type 0) (r : Result V) (s : Result W) (v : V)
    → r ≡ ok v
    → Alike Same r s
    → (w : W) × (s ≡ ok w) × Same v w
Alike-ok Same (ok u) (ok w) v e same = (w, refl, rw (← ok_injective e) same)
Alike-ok Same (ok u) (err e') v e same = elim same [ ]
Alike-ok Same (err e') s v e same = absurd cc

module _ (F : Floats) where
  open F use {Number}

  -- Rows up to one of them, and columns that are the same up to a later row.
  HaveSameRows-le :
      (R : Rolling Number) (L : IsRolling R) (i j : ℕ) (c d : PairColumns F)
      → j ≤ i
      → HaveSameRows F R L i c d
      → HaveSameRows F R L j c d
  HaveSameRows-le R L i j c d h same = record {
    spread = λ k g. same.spread k (omega arith);
    zscore = λ k g. same.zscore k (omega arith);
    correlation = λ k g. same.correlation k (omega arith);
    beta = λ k g. same.beta k (omega arith);
  }

  module _ (R : Rolling Number) (P : Pandas Number) (L : IsRolling R) (law : IsPandas P) where
    log_columns-Agree :
        (common later : List (ℕ × Number × Number)) (i : ℕ)
        → i < length common
        → Agree i (log_columns F R P common).0 (log_columns F R P (common ++ later)).0
          × Agree i (log_columns F R P common).1 (log_columns F R P (common ++ later)).1
    unfolding log_columns
    log_columns-Agree common later i h =
        let same = λ (f : ℕ × Number × Number → Number) (j : ℕ) (k : j ≤ i). ap (Option.map R.log) (
          row-map f common j
          ∙ ap (Option.map f) (row-append common later j (omega arith))
          ∙ sym (row-map f (common ++ later) j)) in
        (same (λ e. e.1), same (λ e. e.2))

    reindexed_row-same :
        (params : PairParams F) (c d : PairColumns F) (common later : List (ℕ × Number × Number))
        (t : ℕ)
        → ((i : ℕ) → i < length common → HaveSameRows F R L i c d)
        → position_of F t later ≡ none
        → reindexed_row F R P params c common t ≡ reindexed_row F R P params d (common ++ later) t
    unfolding reindexed_row
    reindexed_row-same params c d common later t same absent =
        elim (Option-cases (position_of F t common)) [
          | inl e ↦ rw (e, position_of-missing F t common later e absent, reindexed_row) refl
          | inr (i, e) ↦
              let (bound, found) = position_of-found F t i common later e in
              rw (e, found, reindexed_row) (pair_row-same F R L P params c d t i law (same i bound))
        ]

    rows-same :
        (params : PairParams F) (c d : PairColumns F) (common later : List (ℕ × Number × Number))
        (bars more pair : List (ℕ × Number))
        → ((i : ℕ) → i < length common → HaveSameRows F R L i c d)
        → later ≡ common_bars F more pair
        → AreAbsent F bars more
        → map (λ e. reindexed_row F R P params c common e.0) bars
          ≡ map (λ e. reindexed_row F R P params d (common ++ later) e.0) bars
    rows-same params c d common later [] more pair same e absent = refl
    rows-same params c d common later ((t, close) ∷ bars) more pair same e (first, others) =
        ap₂ (λ r rs. r ∷ rs)
          (reindexed_row-same params c d common later t same
            (ap (position_of F t) e ∙ common_bars-absent F t more pair first))
          (rows-same params c d common later bars more pair same e others)

    unfoldable rows_of :
        PairParams F
        → PairColumns F
        → List (ℕ × Number × Number)
        → List (ℕ × Number)
        → List (PairRow F)
    rows_of params c common bars = map (λ e. reindexed_row F R P params c common e.0) bars

    -- What a run that returns has passed.
    pair_signals-ok :
        (casefold : String → String) (params : PairParams F) (pair series : Leg F)
        (rows : List (PairRow F))
        → pair_signals F R P casefold params (some pair) series ≡ ok rows
        → let common = common_bars F series.bars pair.bars in
          (c : PairColumns F) × (same_text (casefold pair.symbol) (casefold series.symbol) ≡ false)
          × (ltb (length series.bars) (suc params.lookback) ≡ false)
          × (ltb (length common) (suc params.lookback) ≡ false)
          × (pair_columns F R P params (log_columns F R P common).0 (log_columns F R P common).1
              ≡ ok c)
          × (rows_of params c common series.bars ≡ rows)
    unfolding pair_signals rows_of
    pair_signals-ok casefold params pair series rows h =
        let common = common_bars F series.bars pair.bars in
        let (other, h₁) =
          raise_if-ok (same_text (casefold pair.symbol) (casefold series.symbol))
            (invalid_parameters "pair_symbol") _ h in
        let (enough, h₂) =
          raise_if-ok (ltb (length series.bars) (suc params.lookback))
            (insufficient_data "pair_trading") _ h₁ in
        let (shared, h₃) =
          raise_if-ok (ltb (length common) (suc params.lookback)) (insufficient_data "pair_trading")
            _ h₂ in
        let (c, e, h₄) =
          >>=-eq-ok
            (pair_columns F R P params (log_columns F R P common).0 (log_columns F R P common).1) _
            h₃ in
        (c, other, enough, shared, e, ok_injective h₄)

    pair_signals-returns :
        (casefold : String → String) (params : PairParams F) (pair series : Leg F)
        (common : List (ℕ × Number × Number)) (c : PairColumns F)
        → common_bars F series.bars pair.bars ≡ common
        → same_text (casefold pair.symbol) (casefold series.symbol) ≡ false
        → ltb (length series.bars) (suc params.lookback) ≡ false
        → ltb (length common) (suc params.lookback) ≡ false
        → pair_columns F R P params (log_columns F R P common).0 (log_columns F R P common).1 ≡ ok c
        → pair_signals F R P casefold params (some pair) series
          ≡ ok (rows_of params c common series.bars)
    unfolding pair_signals rows_of
    pair_signals-returns casefold params pair series common c p other enough shared e =
        rw (p, pair_signals, other, enough, shared, e) refl

    still_enough :
        {A : Type 0} (xs ys : List A) (n : ℕ)
        → ltb (length xs) n ≡ false
        → ltb (length (xs ++ ys)) n ≡ false
    still_enough xs ys n h = rw (length-append xs ys) (ground arith)

    -- No look-ahead, with pandas as documented: when the signals of a series return, and later bars of
    -- both legs have no timestamps of the series' own bars, then the signals of the legs with the later
    -- bars return, and they begin with the same rows, whatever the later bars are.
    pub pair_signals-Extends :
        (casefold : String → String) (params : PairParams F) (pair series : Leg F)
        (more_pair more : List (ℕ × Number)) (rows : List (PairRow F))
        → AreAbsent F series.bars more_pair
        → AreAbsent F series.bars more
        → pair_signals F R P casefold params (some pair) series ≡ ok rows
        → (longer : List (PairRow F)) × (pair_signals F R P casefold params
              (some (with_later F pair more_pair))
              (with_later F series more)
            ≡ ok longer)
          × Extends rows longer
    unfolding rows_of
    pair_signals-Extends casefold params pair series more_pair more rows absent_pair absent h =
        let common = common_bars F series.bars pair.bars in
        let later = common_bars F more (pair.bars ++ more_pair) in
        let (c, other, enough, shared, e, same_rows) =
          pair_signals-ok casefold params pair series rows h in
        let whole =
          common_bars-append F series.bars more (pair.bars ++ more_pair)
          ∙ ap (λ t. t ++ later) (common_bars-same F series.bars pair.bars more_pair absent_pair) in
        let last = minus (length common) 1 in
        let agree = log_columns-Agree common later last (ground arith) in
        let (d, returned, same) =
          Alike-ok (HaveSameRows F R L last) _ _ c e
            (pair_columns-Alike F R L P params _ _ _ _ last agree.0 agree.1) in
        let rest = rows_of params d (common ++ later) more in
        let begun =
          rows-same params c d common later series.bars more (pair.bars ++ more_pair)
            (λ i bound. HaveSameRows-le R L last i c d (ground arith) same) refl absent in
        (
          rows_of params d (common ++ later) (series.bars ++ more),
          pair_signals-returns casefold params (with_later F pair more_pair)
              (with_later F series more) (common ++ later) d whole other
              (still_enough series.bars more (suc params.lookback) enough)
              (still_enough common later (suc params.lookback) shared) returned,
          (
            rest,
            ap (λ t. t ++ rest) (sym same_rows ∙ begun)
                ∙ map-append (λ e. reindexed_row F R P params d (common ++ later) e.0) series.bars
                    more,
          ),
        )
