-- ===== src/Backtest/Metrics/Explained.antt =====
-- A metric that is undefined has a reason (services/quant/backtest/metrics.py).
use quantora.Prelude.{
  ◌≡◌, refl, sym, ap, ◌∙◌, false, not, or-false, Option, none, some, List, [], ◌∷◌, map, String,
  same_text, get, get-put, get-put_other, is_in, All, same_text_iff, Bool_ext,
}
use quantora.Float.{Floats}
use quantora.Backtest.Metrics.{
  Statistics, is_none, note, Metrics, Arguments, optional_metrics, noted, compute,
}

-- The test does not depend on the side.
same_text-sym : (s t : String) → same_text s t ≡ same_text t s
same_text-sym s t =
    Bool_ext (same_text s t) (same_text t s)
      (λ e. (same_text_iff t s).1 (sym ((same_text_iff s t).0 e)))
      (λ e. (same_text_iff s t).1 (sym ((same_text_iff t s).0 e)))

get-note {ℓ} :
    {A : Type ℓ} (name : String) (v : Option A) (reason : String) (d : List (String × String))
    → get name d ≡ none
    → is_none (get name (note name v reason d)) ≡ not (is_none v)
unfolding note
get-note name none reason d h = rw (get-put name reason d) refl
get-note name (some v) reason d h = rw h refl

get-note_other {ℓ} :
    {A : Type ℓ} (key name : String) (v : Option A) (reason : String) (d : List (String × String))
    → same_text name key ≡ false
    → get key (note name v reason d) ≡ get key d
unfolding note
get-note_other key name none reason d h = get-put_other name key reason d h
get-note_other key name (some v) reason d h = refl

module _ (F : Floats) where
  open F use {Number}

  -- What is measured: names, values and reasons.
  abbrev Entries : Type 0
  Entries = List (String × Option Number × String)

  abbrev names_of : Entries → List String
  names_of = map (λ e. e.0)

  abbrev HasDistinctNames : Entries → Type 0
  HasDistinctNames [] = Unit
  HasDistinctNames (e ∷ es) = (is_in e.0 (names_of es) ≡ false) × HasDistinctNames es

  get-noted_other :
      (S : Statistics Number) (key : String) (es : Entries) (d : List (String × String))
      → is_in key (names_of es) ≡ false
      → get key (noted F S es d) ≡ get key d
  unfolding noted
  get-noted_other S key [] d h = refl
  get-noted_other S key ((name, v, reason) ∷ es) d h =
      let (other, rest) = or-false (same_text name key) (is_in key (names_of es)) h in
      get-noted_other S key es (note name v reason d) rest
      ∙ get-note_other key name v reason d other

  fresh_after :
      (name : String) (v : Option Number) (reason : String) (es : Entries)
      (d : List (String × String))
      → is_in name (names_of es) ≡ false
      → All (λ e. get e.0 d ≡ none) es
      → All (λ e. get e.0 (note name v reason d) ≡ none) es
  fresh_after name v reason [] d h k = tt
  fresh_after name v reason (e ∷ es) d h (first, others) =
      let (other, rest) = or-false (same_text e.0 name) (is_in name (names_of es)) h in
      (
        get-note_other e.0 name v reason d (same_text-sym name e.0 ∙ other) ∙ first,
        fresh_after name v reason es d rest others,
      )

  noted-explained :
      (S : Statistics Number) (es : Entries) (d : List (String × String))
      → HasDistinctNames es
      → All (λ e. get e.0 d ≡ none) es
      → All (λ e. is_none (get e.0 (noted F S es d)) ≡ not (is_none e.1)) es
  unfolding noted
  noted-explained S [] d h k = tt
  noted-explained S ((name, v, reason) ∷ es) d (alone, distinct) (first, others) = (
    ap is_none (get-noted_other S name es (note name v reason d) alone)
        ∙ get-note name v reason d first,
    noted-explained S es (note name v reason d) distinct
        (fresh_after name v reason es d alone others),
  )

  -- The metrics that may be undefined, by the names that reasons are noted under.
  abbrev pub reported_metrics : Metrics F → List (String × Option Number)
  reported_metrics k =
      ("cagr", k.cagr)
      ∷ ("annualized_volatility", k.annualized_volatility)
      ∷ ("sharpe", k.sharpe)
      ∷ ("sortino", k.sortino)
      ∷ ("calmar", k.calmar)
      ∷ ("win_rate", k.win_rate)
      ∷ ("profit_factor", k.profit_factor)
      ∷ ("average_win", k.average_win)
      ∷ ("average_loss", k.average_loss)
      ∷ ("turnover", k.turnover)
      ∷ []

  -- Whatever is measured: a metric that may be undefined has a reason noted under its name if and
  -- only if it is undefined, and no reason is noted under any other name.
  pub compute-explained :
      (S : Statistics Number) (m : Arguments F S)
      → All
          (λ e. is_none (get e.0 (compute F S m).unavailable) ≡ not (is_none e.1))
          (reported_metrics (compute F S m))
        × ((key : String)
            → is_in key (map (λ e. e.0) (reported_metrics (compute F S m))) ≡ false
            → get key (compute F S m).unavailable ≡ none)
  unfolding compute optional_metrics get
  compute-explained S m =
      let explained =
        noted-explained S (optional_metrics F S m) []
          (refl, (refl, (refl, (refl, (refl, (refl, (refl, (refl, (refl, (refl, tt))))))))))
          (refl, (refl, (refl, (refl, (refl, (refl, (refl, (refl, (refl, (refl, tt)))))))))) in
      (explained, λ key h. get-noted_other S key (optional_metrics F S m) [] h)
