-- ===== src/Data/Validation.antt =====
-- The validation of price bars (services/quant/data/validation.py). A row is a timestamp with values
-- that may be NaN, which is `none`; the index is always one of timestamps. What pandas says of the
-- index, and of days between timestamps, is a parameter. Messages and samples are left out.

pub mod Rows
pub mod Sound
use quantora.Prelude.{
  ℕ, suc, Bool, true, false, ◌&&◌, ◌||◌, not, if◌then◌else◌, ◌==◌, ltb, leb, Option, none, some,
  List, [], ◌∷◌, ◌++◌, map, length, String, same_text,
}
use quantora.Float.{Floats, le}

-- `duplicated(keep=False).sum()`, `is_monotonic_increasing`, the count of neighbours out of order,
-- `(b - a).days`, and the number of business days strictly between two timestamps
pub record Calendar : Type 0 where
  pub count_duplicated : List ℕ → ℕ
  pub is_monotonic_increasing : List ℕ → Bool
  pub count_out_of_order : List ℕ → ℕ
  pub days : ℕ → ℕ → ℕ
  pub business_days : ℕ → ℕ → ℕ

pub record Violation : Type 0 where
  pub rule : String
  pub row_count : ℕ

pub record Gap : Type 0 where
  pub after : ℕ
  pub before : ℕ
  pub calendar_days : ℕ
  pub missing_business_days : ℕ

pub record QualityReport : Type 0 where
  pub symbol : String
  pub interval : String
  pub row_count : ℕ
  pub gaps : List Gap
  pub severity : String

-- A report, or the violations that `DataValidationError` carries.
pub data Outcome : Type 0 where
  accepted : QualityReport → Outcome
  rejected : List Violation → Outcome

abbrev pub violation_if : Bool → String → ℕ → List Violation
violation_if true rule count = record { rule = rule; row_count = count } ∷ []
violation_if false rule count = []

unfoldable pub check_timestamps : Calendar → List ℕ → List Violation
check_timestamps calendar index =
    violation_if (not (calendar.count_duplicated index == 0)) "duplicate_timestamp"
      (calendar.count_duplicated index)
    ++ violation_if (not (calendar.is_monotonic_increasing index)) "non_monotonic_timestamp"
        (calendar.count_out_of_order index)

-- The gap between two neighbours, if it is long and has a business day in it.
unfoldable pub gap_between : Calendar → ℕ → ℕ → List Gap
gap_between calendar after before =
    if ltb (calendar.days after before) 4 || calendar.business_days after before == 0
    then []
    else (record {
      after = after;
      before = before;
      calendar_days = calendar.days after before;
      missing_business_days = calendar.business_days after before;
    }
        ∷ [])

unfoldable pub gaps_of : Calendar → List ℕ → List Gap
unfolding gap_between
gaps_of calendar [] = []
gaps_of calendar (t ∷ []) = []
gaps_of calendar (t ∷ u ∷ ts) = gap_between calendar t u ++ gaps_of calendar (u ∷ ts)

abbrev is_daily : String → Bool
is_daily interval = same_text interval "1d" || same_text interval "1wk" || same_text interval "1mo"

unfoldable pub detect_gaps : Calendar → List ℕ → String → List Gap
unfolding gaps_of
detect_gaps calendar index interval = if is_daily interval then gaps_of calendar index else []

-- `max(gaps, key=...)`, which keeps the first on a tie
unfoldable pub worst_of : Gap → List Gap → Gap
worst_of worst [] = worst
worst_of worst (g ∷ gs) =
    worst_of (if ltb worst.missing_business_days g.missing_business_days then g else worst) gs

unfoldable pub severity_of : List Gap → String
unfolding worst_of
severity_of [] = "clean"
severity_of (g ∷ gs) =
    if leb 10 (worst_of g gs).calendar_days then "severe_gaps" else "gaps_detected"

module _ (F : Floats) where
  open F use {Number, num, lt}

  pub record PriceRow : Type 0 where
    pub timestamp : ℕ
    pub open_price : Option Number
    pub high : Option Number
    pub low : Option Number
    pub close : Option Number
    pub adj_close : Option Number
    pub volume : Option Number

  pub record CompleteRow : Type 0 where
    pub open_price : Number
    pub high : Number
    pub low : Number
    pub close : Number
    pub adj_close : Number
    pub volume : Number

  abbrev six :
      Option Number
      → Option Number
      → Option Number
      → Option Number
      → Option Number
      → Option Number
      → Option CompleteRow
  six (some o) (some h) (some l) (some c) (some a) (some v) =
      some (record { open_price = o; high = h; low = l; close = c; adj_close = a; volume = v })
  six _ _ _ _ _ _ = none

  -- The row, where no field is NaN.
  unfoldable pub complete_row : PriceRow → Option CompleteRow
  complete_row r = six r.open_price r.high r.low r.close r.adj_close r.volume

  unfoldable pub complete_rows : List PriceRow → List CompleteRow
  unfolding complete_row
  complete_rows [] = []
  complete_rows (r ∷ rs) = elim (complete_row r) [
    | none ↦ complete_rows rs
    | some c ↦ c ∷ complete_rows rs
  ]

  unfoldable pub count_missing : List PriceRow → ℕ
  unfolding complete_row
  count_missing [] = 0
  count_missing (r ∷ rs) = elim (complete_row r) [
    | none ↦ suc (count_missing rs)
    | some c ↦ count_missing rs
  ]

  -- The rules on complete rows.
  unfoldable pub is_non_positive : CompleteRow → Bool
  is_non_positive r =
      le F r.open_price (num 0)
      || le F r.high (num 0)
      || le F r.low (num 0)
      || le F r.close (num 0)
      || le F r.adj_close (num 0)

  unfoldable pub has_negative_volume : CompleteRow → Bool
  has_negative_volume r = lt r.volume (num 0)

  unfoldable pub is_high_below_low : CompleteRow → Bool
  is_high_below_low r = lt r.high r.low

  unfoldable pub is_open_out_of_range : CompleteRow → Bool
  is_open_out_of_range r = lt r.open_price r.low || lt r.high r.open_price

  unfoldable pub is_close_out_of_range : CompleteRow → Bool
  is_close_out_of_range r = lt r.close r.low || lt r.high r.close

  -- `mask.sum()`
  unfoldable pub count_rows : (CompleteRow → Bool) → List CompleteRow → ℕ
  count_rows test [] = 0
  count_rows test (r ∷ rs) = let rest = count_rows test rs in if test r then suc rest else rest

  unfoldable pub row_violation : String → (CompleteRow → Bool) → List CompleteRow → List Violation
  unfolding count_rows
  row_violation rule test rows =
      violation_if (not (count_rows test rows == 0)) rule (count_rows test rows)

  unfoldable pub check_values : List PriceRow → List Violation
  unfolding count_missing complete_rows row_violation is_non_positive has_negative_volume
      is_high_below_low is_open_out_of_range is_close_out_of_range
  check_values frame =
      let complete = complete_rows frame in
      violation_if (not (count_missing frame == 0)) "missing_value" (count_missing frame)
      ++ (row_violation "non_positive_price" is_non_positive complete
          ++ (row_violation "negative_volume" has_negative_volume complete
              ++ (row_violation "high_below_low" is_high_below_low complete
                  ++ (row_violation "open_out_of_range" is_open_out_of_range complete
                      ++ row_violation "close_out_of_range" is_close_out_of_range complete))))

  abbrev pub index_of : List PriceRow → List ℕ
  index_of = map (λ r. r.timestamp)

  unfoldable pub report_of : Calendar → List PriceRow → String → String → QualityReport
  unfolding detect_gaps severity_of
  report_of calendar frame symbol interval =
      let gaps = detect_gaps calendar (index_of frame) interval in
      record {
        symbol = symbol;
        interval = interval;
        row_count = length frame;
        gaps = gaps;
        severity = severity_of gaps;
      }

  abbrev outcome_of : List Violation → QualityReport → Outcome
  outcome_of [] report = accepted report
  outcome_of (v ∷ vs) report = rejected (v ∷ vs)

  unfoldable pub validate_prices : Calendar → List PriceRow → String → String → Outcome
  unfolding check_timestamps check_values report_of
  validate_prices calendar frame symbol interval =
      outcome_of (check_timestamps calendar (index_of frame) ++ check_values frame)
        (report_of calendar frame symbol interval)
