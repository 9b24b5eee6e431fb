-- ===== src/Data/Fetched.antt =====
-- The theorem on `get_prices`, applied at a concrete provider (services/quant/data/service.py).
use quantora.Prelude.{ℕ, ◌+◌, ◌≤◌, ◌≡◌, refl, some, All, String, length, ok}
use quantora.Rational.{exact, add, mul, neg, inv, lt}
use quantora.Data.Universe.{get_instrument, lookup}
use quantora.Data.Validation.{
  validate_prices, check_timestamps, check_values, complete_row, complete_rows, count_missing,
  count_rows, index_of,
}
use quantora.Data.Validation.Rows.{IsValidRow}
use quantora.Data.Validation.Sound.{IsIncreasing}
use quantora.Data.Examples.{calendar, calendar-IsCalendar, frame}
use quantora.Data.Service.{
  text, day, Dates, as_iso_date, Provider, Prices, within, by_policy, checked_quality, get_prices,
}
use quantora.Data.Service.Trusted.{AreWithin, get_prices-AreWithin}

-- A timestamp is a day.
abbrev dates : Dates
dates = record { read_date = λ t. some 2; midnight = λ timezone d. d; day_length = 1 }

-- Days 1, 2 and 9, whatever is asked for.
abbrev provider : Provider exact
provider = record {
  name = "fixed";
  fetch = λ ticker first until interval. ok (record { timezone = "Asia/Kolkata"; frame = frame });
}

returned :
    (prices : Prices exact) × (get_prices exact dates calendar provider "TCS.NS"
        (text "2024-01-02")
        (day 9)
        "1d"
        "raw"
      ≡ ok prices)
unfolding get_prices get_instrument lookup as_iso_date within by_policy checked_quality
    validate_prices check_timestamps check_values complete_row complete_rows count_missing
    count_rows add mul neg inv lt
returned = (_, refl)

get_prices-AreWithin_example :
    (first last : ℕ) × (timezone : String) × (as_iso_date dates (text "2024-01-02") "start"
      ≡ ok first)
    × (as_iso_date dates (day 9) "end" ≡ ok last)
    × (first ≤ last)
    × AreWithin exact first (last + 1) returned.0.frame
    × IsIncreasing (index_of exact returned.0.frame)
    × All (IsValidRow exact) returned.0.frame
    × (returned.0.provenance.row_count ≡ length returned.0.frame)
get_prices-AreWithin_example =
    get_prices-AreWithin exact dates calendar provider "TCS.NS" (text "2024-01-02") (day 9) "1d"
      "raw" returned.0 calendar-IsCalendar returned.1
