-- ===== src/Data/Examples.antt =====
-- The theorem on validation, applied at a concrete frame (services/quant/data/validation.py).
use quantora.Prelude.{
  ℕ, suc, ◌+◌, ◌-◌, ◌≡◌, ◌≢◌, ◌↔◌, refl, Bool, true, ◌&&◌, and-true, if◌then◌else◌, ◌==◌, ==_iff,
  leb, Bool-cases, inl, inr, some, List, [], ◌∷◌, All, arith,
}
use quantora.Rational.{ℚ, exact, of_frac}
use quantora.Rational.Fractions.{frac}
use quantora.Data.Validation.{
  Calendar, PriceRow, QualityReport, accepted, validate_prices, index_of,
}
use quantora.Data.Validation.Rows.{IsValidRow}
use quantora.Data.Validation.Sound.{
  IsDistinct, IsSorted, IsIncreasing, IsCalendar, validate_prices-IsValidRow,
}

-- How often a timestamp occurs, and how many pairs of rows have one timestamp.
abbrev occurrences : ℕ → List ℕ → ℕ
occurrences t [] = 0
occurrences t (u ∷ ts) = let rest = occurrences t ts in if t == u then suc rest else rest

abbrev repeated : List ℕ → ℕ
repeated [] = 0
repeated (t ∷ ts) = occurrences t ts + repeated ts

abbrev is_sorted : List ℕ → Bool
is_sorted [] = true
is_sorted (t ∷ []) = true
is_sorted (t ∷ u ∷ ts) = let rest = is_sorted (u ∷ ts) in leb t u && rest

-- A timestamp is a day, and every day is a business day.
abbrev pub calendar : Calendar
calendar = record {
  count_duplicated = repeated;
  is_monotonic_increasing = is_sorted;
  count_out_of_order = λ ts. 0;
  days = λ a b. b - a;
  business_days = λ a b. b - a - 1;
}

occurrences_iff : (t : ℕ) (ts : List ℕ) → (occurrences t ts ≡ 0) ↔ All (λ u. t ≢ u) ts
occurrences_iff t [] = (λ h. tt, λ h. refl)
occurrences_iff t (u ∷ ts) = elim (Bool-cases (t == u)) [
  | inl same ↦ (
    λ h. absurd (omega (arith, rw same at h)),
    λ (h : All (λ v. t ≢ v) (u ∷ ts)). absurd (h.0 ((==_iff t u).0 same)),
  )
  | inr other ↦ (
    λ h. ((λ e. cc ((==_iff t u).1 e, other)), (occurrences_iff t ts).0 (rw other at h)),
    λ (h : All (λ v. t ≢ v) (u ∷ ts)). rw other ((occurrences_iff t ts).1 h.1),
  )
]

repeated_iff : (ts : List ℕ) → (repeated ts ≡ 0) ↔ IsDistinct ts
repeated_iff [] = (λ h. tt, λ h. refl)
repeated_iff (t ∷ ts) = (
  λ h. ((occurrences_iff t ts).0 (omega (arith, h)), (repeated_iff ts).0 (omega (arith, h))),
  λ (h : IsDistinct (t ∷ ts)). omega (arith, (occurrences_iff t ts).1 h.0, (repeated_iff ts).1 h.1),
)

ordered_iff : (ts : List ℕ) → (is_sorted ts ≡ true) ↔ IsSorted ts
ordered_iff [] = (λ h. tt, λ h. refl)
ordered_iff (t ∷ []) = (λ h. tt, λ h. refl)
ordered_iff (t ∷ u ∷ ts) = (
  λ h.
      let (below, rest) = and-true (leb t u) (is_sorted (u ∷ ts)) h in
      (ground (arith, below), (ordered_iff (u ∷ ts)).0 rest),
  λ (h : IsSorted (t ∷ u ∷ ts)). rw ((ordered_iff (u ∷ ts)).1 h.1) (ground (arith, h.0)),
)

pub calendar-IsCalendar : IsCalendar calendar
calendar-IsCalendar = record { duplicated_iff = repeated_iff; monotonic_iff = ordered_iff }

abbrev q : ℕ → ℚ
q n = of_frac (frac n 0 0)

abbrev price_row : ℕ → PriceRow exact
price_row time = record {
  timestamp = time;
  open_price = some (q 100);
  high = some (q 104);
  low = some (q 98);
  close = some (q 103);
  adj_close = some (q 103);
  volume = some (q 5000);
}

abbrev pub frame : List (PriceRow exact)
frame = price_row 1 ∷ price_row 2 ∷ price_row 9 ∷ []

validate_prices-IsValidRow_example :
    ((report : QualityReport) × (validate_prices exact calendar frame "TCS.NS" "1d"
        ≡ accepted report))
    ↔ (IsIncreasing (index_of exact frame) × All (IsValidRow exact) frame)
validate_prices-IsValidRow_example =
    validate_prices-IsValidRow exact calendar calendar-IsCalendar frame "TCS.NS" "1d"
