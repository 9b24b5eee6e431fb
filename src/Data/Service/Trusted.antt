-- ===== src/Data/Service/Trusted.antt =====
-- What `get_prices` returns can be trusted (services/quant/data/service.py): an unvalidated frame reaches
-- no caller.
use quantora.Prelude.{
  ℕ, suc, ◌+◌, ◌≤◌, ◌<◌, ◌≡◌, refl, not, ◌&&◌, and-true, leb, ltb, Bool-cases, inl, inr, List, [],
  ◌∷◌, length, All, String, same_text, is_in, ok, err, invalid_request, data_validation, >>=-eq-ok,
  raise_if-ok, ok_injective, arith,
}
use quantora.Float.{Floats}
use quantora.Data.Universe.{get_instrument}
use quantora.Data.Validation.{
  Calendar, QualityReport, Outcome, accepted, rejected, PriceRow, validate_prices, index_of,
}
use quantora.Data.Validation.Rows.{IsValidRow}
use quantora.Data.Validation.Sound.{IsIncreasing, IsCalendar, validate_prices-IsValidRow}
use quantora.Data.Service.{
  supported_intervals, Requested, Dates, as_iso_date, Provider, adjusted_row, apply_adjustment,
  within, by_policy, Prices, checked_quality, prices_of, get_prices,
}

module _ (F : Floats) where
  -- Rows from one timestamp on and before another.
  abbrev pub AreWithin : ℕ → ℕ → List (PriceRow F) → Type 0
  AreWithin first until = All (λ r. (first ≤ r.timestamp) × (r.timestamp < until))

  within-AreWithin :
      (first until : ℕ) (frame : List (PriceRow F))
      → AreWithin first until (within F first until frame)
  unfolding within
  within-AreWithin first until [] = tt
  within-AreWithin first until (r ∷ rs) =
      elim (Bool-cases (leb first r.timestamp && ltb r.timestamp until)) [
        | inl inside ↦
            let (after, before) = and-true (leb first r.timestamp) (ltb r.timestamp until) inside in
            rw (inside, within) ((ground arith, ground arith), within-AreWithin first until rs)
        | inr outside ↦ rw (outside, within) (within-AreWithin first until rs)
      ]

  -- The adjustment changes no timestamp.
  apply_adjustment-AreWithin :
      (first until : ℕ) (frame : List (PriceRow F))
      → AreWithin first until frame
      → AreWithin first until (apply_adjustment F frame)
  unfolding apply_adjustment adjusted_row
  apply_adjustment-AreWithin first until [] h = tt
  apply_adjustment-AreWithin first until (r ∷ rs) (inside, others) =
      (inside, apply_adjustment-AreWithin first until rs others)

  by_policy-AreWithin :
      (adjustment : String) (first until : ℕ) (frame adjusted : List (PriceRow F))
      → by_policy F adjustment frame ≡ ok adjusted
      → AreWithin first until frame
      → AreWithin first until adjusted
  unfolding by_policy
  by_policy-AreWithin adjustment first until frame adjusted h inside =
      elim (Bool-cases (same_text adjustment "split_and_dividend_adjusted")) [
        | inl split ↦
            rw (← ok_injective (rw (split, by_policy) at h))
              (apply_adjustment-AreWithin first until frame inside)
        | inr other ↦ elim (Bool-cases (same_text adjustment "raw")) [
          | inl raw ↦ rw (← ok_injective (rw (other, raw, by_policy) at h)) inside
          | inr unknown ↦ absurd cc (rw (other, unknown, by_policy) at h)
        ]
      ]

  accepted_of :
      (outcome : Outcome) (symbol : String) (quality : QualityReport)
      → elim outcome [
        | rejected violations ↦ err (data_validation symbol)
        | accepted report ↦ ok report
      ]
        ≡ ok quality
      → (report : QualityReport) × (outcome ≡ accepted report)
  accepted_of (rejected violations) symbol quality h = absurd cc
  accepted_of (accepted report) symbol quality h = (report, refl)

  checked_quality-accepted :
      (calendar : Calendar) (frame : List (PriceRow F)) (symbol interval : String)
      (quality : QualityReport)
      → checked_quality F calendar frame symbol interval ≡ ok quality
      → (report : QualityReport) × (validate_prices F calendar frame symbol interval
          ≡ accepted report)
  unfolding checked_quality
  checked_quality-accepted calendar frame symbol interval quality h =
      accepted_of (validate_prices F calendar frame symbol interval) symbol quality h

  -- With the index as documented: whatever the provider fetches, prices that are returned are rows inside
  -- the requested days, with strictly increasing timestamps, each row complete, with positive prices that
  -- lie between its low and its high and a volume that is not negative, and the provenance counts them.
  pub get_prices-AreWithin :
      (dates : Dates) (calendar : Calendar) (provider : Provider F) (symbol : String)
      (start end : Requested) (interval adjustment : String) (prices : Prices F)
      → IsCalendar calendar
      → get_prices F dates calendar provider symbol start end interval adjustment ≡ ok prices
      → (first last : ℕ) × (timezone : String) × (as_iso_date dates start "start" ≡ ok first)
        × (as_iso_date dates end "end" ≡ ok last)
        × (first ≤ last)
        × AreWithin
            (dates.midnight timezone first)
            (dates.midnight timezone last + dates.day_length)
            prices.frame
        × IsIncreasing (index_of F prices.frame)
        × All (IsValidRow F) prices.frame
        × (prices.provenance.row_count ≡ length prices.frame)
  unfolding get_prices prices_of
  get_prices-AreWithin dates calendar provider symbol start end interval adjustment prices law h =
      let (instrument, known, h₁) = >>=-eq-ok (get_instrument symbol) _ h in
      let (supported, h₂) =
        raise_if-ok (not (is_in interval supported_intervals)) (invalid_request "interval") _ h₁ in
      let (first, from, h₃) = >>=-eq-ok (as_iso_date dates start "start") _ h₂ in
      let (last, to, h₄) = >>=-eq-ok (as_iso_date dates end "end") _ h₃ in
      let (ordered, h₅) = raise_if-ok (ltb last first) (invalid_request "start") _ h₄ in
      let (fetched, answered, h₆) =
        >>=-eq-ok (provider.fetch instrument.provider_ticker first (suc last) interval) _ h₅ in
      let window_start = dates.midnight fetched.timezone first in
      let window_end = dates.midnight fetched.timezone last + dates.day_length in
      let trimmed = within F window_start window_end fetched.frame in
      let (frame, adjusted, h₇) = >>=-eq-ok (by_policy F adjustment trimmed) _ h₆ in
      let (quality, passed, h₈) =
        >>=-eq-ok (checked_quality F calendar frame symbol interval) _ h₇ in
      let (rising, valid) =
        (validate_prices-IsValidRow F calendar law frame symbol interval).0
          (checked_quality-accepted calendar frame symbol interval quality passed) in
      rw (← ok_injective h₈) (
        first,
        last,
        fetched.timezone,
        from,
        to,
        ground arith,
        by_policy-AreWithin adjustment window_start window_end trimmed frame adjusted
            (within-AreWithin window_start window_end fetched.frame),
        rising,
        valid,
        refl,
      )
