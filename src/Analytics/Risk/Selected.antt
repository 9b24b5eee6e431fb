-- ===== src/Analytics/Risk/Selected.antt =====
-- What the window of a risk report is measured over (services/quant/portfolio/risk.py).
use quantora.Prelude.{
  ℕ, ◌-◌ as minus, ◌≤◌, ◌⊎◌, ◌≡◌, true, false, List, [], ◌∷◌, length, All, String,
}
use quantora.Float.{Floats}
use quantora.Analytics.Risk.{
  is_session, Exclusion, sessions_of, Frames, too_few, too_sparse, closes_of, coverage_of,
}

module _ (F : Floats) where
  open F use {Number, num, div, lt}

  -- Sessions on which a symbol has traded.
  abbrev pub AreSessions : Frames F → List ℕ → String → Type 0
  AreSessions frames index symbol =
      All (λ t. is_session t (sessions_of F (closes_of F frames symbol)) ≡ true) index

  -- A symbol with enough returns, and enough of the sessions that there are.
  abbrev pub HasHistory : Frames F → ℕ → String → Type 0
  HasHistory frames sessions symbol =
      let bars = length (closes_of F frames symbol) in
      (21 ≤ bars) × (lt (coverage_of F bars sessions) (div (num 8) (num 10)) ≡ false)

  -- A symbol with too few returns, or with enough of them and too few of the sessions that there are,
  -- with the numbers that the reason tells.
  abbrev IsExcluded : Frames F → ℕ → String → Exclusion → Type 0
  IsExcluded frames sessions symbol (too_few bars) =
      (bars ≡ length (closes_of F frames symbol)) × (bars ≤ 20)
  IsExcluded frames sessions symbol (too_sparse bars of_sessions) =
      (bars ≡ length (closes_of F frames symbol))
      × (of_sessions ≡ sessions)
      × (21 ≤ bars)
      × (lt (coverage_of F bars sessions) (div (num 8) (num 10)) ≡ true)

  -- Each symbol, in order, is the next that is kept, or the next that is dropped, with its reason.
  abbrev pub IsSplit : Frames F → ℕ → List String → List String → List (String × Exclusion) → Type 0
  IsSplit frames sessions [] kept dropped = (kept ≡ []) × (dropped ≡ [])
  IsSplit frames sessions (symbol ∷ symbols) kept dropped =
      ((others : List String) × (kept ≡ symbol ∷ others)
        × HasHistory frames sessions symbol
        × IsSplit frames sessions symbols others dropped)
      ⊎ ((why : Exclusion) × (others : List (String × Exclusion)) × (dropped
            ≡ (symbol, why) ∷ others)
          × IsExcluded frames sessions symbol why
          × IsSplit frames sessions symbols kept others)
