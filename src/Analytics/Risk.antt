-- ===== src/Analytics/Risk.antt =====
-- The window that a portfolio's risk is measured over, and its returns
-- (services/quant/portfolio/risk.py, `load_window` and `portfolio_return_series`). The closes of a
-- symbol are by their timestamps.
pub mod Selected
use quantora.Prelude.{
  ℕ, ◌-◌ as minus, ◌==◌, Bool, true, false, not, if◌then◌else◌, ltb, Option, none, some, List, [],
  ◌∷◌, ◌++◌, map, length, String, is_in, put, get, Result, ok, err, invalid_request, index_error,
  ◌>>=◌, ◌>>◌, raise_if,
}
use quantora.Float.{Floats}

-- `MIN_RETURN_OBSERVATIONS`
abbrev pub min_return_observations : ℕ
min_return_observations = 20

-- `dict.fromkeys`, in the order of first occurrence, of what has not been seen
unfoldable pub from_keys : List String → List String → List String
from_keys seen [] = []
from_keys seen (s ∷ ss) = elim (is_in s seen) [
  | true ↦ from_keys seen ss
  | false ↦ s ∷ from_keys (s ∷ seen) ss
]

-- A timestamp added to an index that does not have it.
unfoldable pub with_timestamp : ℕ → List ℕ → List ℕ
with_timestamp t [] = t ∷ []
with_timestamp t (u ∷ index) = if t == u then u ∷ index else u ∷ with_timestamp t index

-- `Index.union`, up to order
unfoldable pub union : List ℕ → List ℕ → List ℕ
unfolding with_timestamp
union index [] = index
union index (t ∷ ts) = union (with_timestamp t index) ts

unfoldable pub is_session : ℕ → List ℕ → Bool
is_session t [] = false
is_session t (u ∷ index) = if t == u then true else is_session t index

unfoldable pub intersection : List ℕ → List ℕ → List ℕ
unfolding is_session
intersection [] other = []
intersection (t ∷ ts) other =
    let rest = intersection ts other in if is_session t other then t ∷ rest else rest

unfoldable pub has_none : List String → Bool
has_none [] = true
has_none (symbol ∷ symbols) = false

-- Why a holding is left out, with the bars that it has and the sessions that there are.
pub data Exclusion : Type 0 where
  too_few : ℕ → Exclusion
  too_sparse : ℕ → ℕ → Exclusion

module _ (F : Floats) where
  open F use {Number, num, add as ◌+◌, mul as ◌*◌, div as ◌/◌, lt}

  infixl 65 ◌+◌
  infixl 70 ◌*◌ ◌/◌
  -- The closes of a symbol, by their timestamps.
  abbrev pub Closes : Type 0
  Closes = List (ℕ × Number)

  abbrev pub sessions_of : Closes → List ℕ
  sessions_of = map (λ e. e.0)

  abbrev pub Frames : Type 0
  Frames = List (String × Closes)

  -- `MIN_CALENDAR_COVERAGE`
  abbrev pub min_calendar_coverage : Number
  min_calendar_coverage = num 8 / num 10

  unfoldable pub load_frames : (String → Result Closes) → List String → Frames → Result Frames
  unfolding put
  load_frames loader [] frames = ok frames
  load_frames loader (symbol ∷ symbols) frames = do
    closes ← loader symbol
    load_frames loader symbols (put symbol closes frames)

  unfoldable pub closes_of : Frames → String → Closes
  unfolding get
  closes_of frames symbol = elim (get symbol frames) [ none ↦ [] | some closes ↦ closes ]

  unfoldable pub pooled_over : Frames → List ℕ → List String → List ℕ
  unfolding union closes_of
  pooled_over frames index [] = index
  pooled_over frames index (symbol ∷ symbols) =
      pooled_over frames (union index (sessions_of (closes_of frames symbol))) symbols

  unfoldable pub coverage_of : ℕ → ℕ → Number
  coverage_of bars sessions = if sessions == 0 then num 0 else num bars / num sessions

  -- Whether a symbol with so many bars is left out.
  unfoldable pub excluded : ℕ → ℕ → Option Exclusion
  unfolding coverage_of
  excluded bars sessions =
      if ltb (minus bars 1) min_return_observations
      then some (too_few bars)
      else (if lt (coverage_of bars sessions) min_calendar_coverage
          then some (too_sparse bars sessions)
          else none)

  -- The loop over the holdings: those that are kept, and those that are dropped.
  unfoldable pub judged : Frames → ℕ → List String → List String × List (String × Exclusion)
  unfolding excluded closes_of
  judged frames sessions [] = ([], [])
  judged frames sessions (symbol ∷ symbols) =
      let (kept, dropped) = judged frames sessions symbols in
      elim (excluded (length (closes_of frames symbol)) sessions) [
        | none ↦ (symbol ∷ kept, dropped)
        | some why ↦ (kept, (symbol, why) ∷ dropped)
      ]

  -- The index of `pd.concat(..., join="inner")`
  unfoldable pub shared_index : Frames → List ℕ → List String → List ℕ
  unfolding intersection closes_of
  shared_index frames index [] = index
  shared_index frames index (symbol ∷ symbols) =
      shared_index frames (intersection index (sessions_of (closes_of frames symbol))) symbols

  unfoldable pub sessions_over : Frames → List String → List ℕ
  unfolding shared_index closes_of
  sessions_over frames [] = []
  sessions_over frames (symbol ∷ symbols) =
      shared_index frames (sessions_of (closes_of frames symbol)) symbols

  pub record Selection : Type 0 where
    pub frames : Frames
    pub kept : List String
    pub dropped : List (String × Exclusion)
    pub sessions : List ℕ

  unfoldable pub pooled_calendar : Frames → List String → List ℕ
  unfolding pooled_over closes_of
  pooled_calendar frames [] = []
  pooled_calendar frames (symbol ∷ symbols) =
      pooled_over frames (sessions_of (closes_of frames symbol)) symbols

  -- `load_window` up to the closes on the shared sessions
  unfoldable pub load_window : (String → Result Closes) → List String → String → Result Selection
  unfolding load_frames from_keys pooled_calendar judged sessions_over has_none
  load_window loader symbols benchmark = do
    frames ← load_frames loader (from_keys [] (symbols ++ (benchmark ∷ []))) []
    raise_if (has_none symbols) index_error
    let (kept, dropped) = judged frames (length (pooled_calendar frames symbols)) symbols
    raise_if (has_none kept) (invalid_request "holdings")
    let sessions = sessions_over frames kept
    raise_if (ltb (minus (length sessions) 1) min_return_observations) (invalid_request "sessions")
    ok (record { frames = frames; kept = kept; dropped = dropped; sessions = sessions })

  -- The columns without a weight.
  unfoldable pub unweighted : List String → List (String × Number) → List String
  unfolding get
  unweighted [] weights = []
  unweighted (symbol ∷ symbols) weights =
      let rest = unweighted symbols weights in
      elim (get symbol weights) [ none ↦ symbol ∷ rest | some w ↦ rest ]

  -- One row of returns times the weights of its columns, summed.
  unfoldable pub weighted_return : List (String × Number) → List (String × Number) → Number
  unfolding get
  weighted_return weights [] = num 0
  weighted_return weights ((symbol, r) ∷ columns) =
      let rest = weighted_return weights columns in
      elim (get symbol weights) [ none ↦ rest | some w ↦ r * w + rest ]

  -- `portfolio_return_series`, of rows of returns by symbol
  unfoldable pub portfolio_return_series :
      List String → List (List (String × Number)) → List (String × Number) → Result (List Number)
  unfolding unweighted weighted_return
  portfolio_return_series columns rows weights = do
    raise_if (not (has_none (unweighted columns weights))) (invalid_request "weights")
    ok (map (weighted_return weights) rows)
