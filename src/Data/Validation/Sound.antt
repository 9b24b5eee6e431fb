-- ===== src/Data/Validation/Sound.antt =====
-- What validation accepts (services/quant/data/validation.py).
use quantora.Prelude.{
  ℕ, ◌≡◌, ◌≢◌, ◌≤◌, ◌<◌, ◌↔◌, refl, ap, true, not, List, [], ◌∷◌, String, All, arith,
}
use quantora.Float.{Floats}
use quantora.Data.Validation.{
  Calendar, Violation, accepted, check_timestamps, PriceRow, check_values, index_of, outcome_of,
  report_of, validate_prices, QualityReport,
}
use quantora.Data.Validation.Rows.{
  no_violation, append_empty, empty_append, no_test, zero_test, is_zero, positive, IsValidRow,
  check_values-IsValidRow, IsValidRow-check_values,
}

abbrev pub IsDistinct : List ℕ → Type 0
IsDistinct [] = Unit
IsDistinct (t ∷ ts) = All (λ u. t ≢ u) ts × IsDistinct ts

abbrev pub IsSorted : List ℕ → Type 0
IsSorted [] = Unit
IsSorted (t ∷ []) = Unit
IsSorted (t ∷ u ∷ ts) = (t ≤ u) × IsSorted (u ∷ ts)

abbrev pub IsIncreasing : List ℕ → Type 0
IsIncreasing [] = Unit
IsIncreasing (t ∷ []) = Unit
IsIncreasing (t ∷ u ∷ ts) = (t < u) × IsIncreasing (u ∷ ts)

-- As documented: no row is counted when none is repeated, and a monotonic index never falls.
pub record IsCalendar (calendar : Calendar) : Type 0 where
  pub duplicated_iff : (ts : List ℕ) → (calendar.count_duplicated ts ≡ 0) ↔ IsDistinct ts
  pub monotonic_iff : (ts : List ℕ) → (calendar.is_monotonic_increasing ts ≡ true) ↔ IsSorted ts

rising_of : (ts : List ℕ) → IsDistinct ts → IsSorted ts → IsIncreasing ts
rising_of [] d s = tt
rising_of (t ∷ []) d s = tt
rising_of (t ∷ u ∷ ts) ((other, _), d) (below, s) =
    (grind (arith, other, below), rising_of (u ∷ ts) d s)

ordered_of : (ts : List ℕ) → IsIncreasing ts → IsSorted ts
ordered_of [] h = tt
ordered_of (t ∷ []) h = tt
ordered_of (t ∷ u ∷ ts) (below, h) = (omega (arith, below), ordered_of (u ∷ ts) h)

above_all : (t u : ℕ) (ts : List ℕ) → t < u → IsIncreasing (u ∷ ts) → All (λ v. t ≢ v) ts
above_all t u [] below h = tt
above_all t u (v ∷ ts) below (next, h) =
    (λ e. absurd (omega (arith, below, next, e)), above_all t v ts (omega (arith, below, next)) h)

unrepeated_of : (ts : List ℕ) → IsIncreasing ts → IsDistinct ts
unrepeated_of [] h = tt
unrepeated_of (t ∷ []) h = (tt, tt)
unrepeated_of (t ∷ u ∷ ts) (below, h) =
    ((λ e. absurd (omega (arith, below, e)), above_all t u ts below h), unrepeated_of (u ∷ ts) h)

module _ (F : Floats) where
  outcome_accepted :
      (vs : List Violation) (r s : QualityReport) → outcome_of F vs r ≡ accepted s → vs ≡ []
  outcome_accepted [] r s h = refl
  outcome_accepted (v ∷ vs) r s h = cc

  -- With the index as documented: a frame is accepted if and only if its timestamps are strictly
  -- increasing and each of its rows is complete, has positive prices and a volume that is not
  -- negative, and has the open and the close between the low and the high.
  pub validate_prices-IsValidRow :
      (calendar : Calendar)
      → IsCalendar calendar
      → (frame : List (PriceRow F)) (symbol interval : String)
      → ((report : QualityReport) × (validate_prices F calendar frame symbol interval
            ≡ accepted report))
        ↔ (IsIncreasing (index_of F frame) × All (IsValidRow F) frame)
  unfolding validate_prices check_timestamps
  validate_prices-IsValidRow calendar law frame symbol interval =
      let index = index_of F frame in
      (
        λ (found : (report : QualityReport) × (validate_prices F calendar frame symbol interval
                ≡ accepted report)).
            let (timing, values) = append_empty _ _ (outcome_accepted _ _ found.0 found.1) in
            let (repeats, order) = append_empty _ _ timing in
            (
              rising_of index
                  ((law.duplicated_iff index).0
                    (is_zero _ (no_violation _ "duplicate_timestamp" _ repeats)))
                  ((law.monotonic_iff index).0
                    (positive F _ (no_violation _ "non_monotonic_timestamp" _ order))),
              check_values-IsValidRow F frame values,
            ),
        λ (sound : IsIncreasing index × All (IsValidRow F) frame). (
          report_of F calendar frame symbol interval,
          ap (λ vs. outcome_of F vs (report_of F calendar frame symbol interval))
              (empty_append (check_timestamps calendar index) (check_values F frame)
                (empty_append _ _
                  (no_test _ "duplicate_timestamp" _
                    (zero_test _ ((law.duplicated_iff index).1 (unrepeated_of index sound.0))))
                  (no_test _ "non_monotonic_timestamp" _
                    (ap not ((law.monotonic_iff index).1 (ordered_of index sound.0)))))
                (IsValidRow-check_values F frame sound.1)),
        ),
      )
