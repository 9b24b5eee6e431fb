-- ===== src/Data/Service.antt =====
-- The data layer's public interface, `get_prices` (services/quant/data/service.py). The provider is a
-- parameter, as is what Python and pandas make of dates: a date is the number of its day, and ISO dates,
-- which the code compares as texts, are in the order of their days.
pub mod Trusted
use quantora.Prelude.{
  ℕ, suc, ◌+◌, Bool, true, false, not, ◌&&◌, if◌then◌else◌, leb, ltb, Option, none, some, List, [],
  ◌∷◌, map, length, String, same_text, is_in, Result, ok, err, invalid_request, data_validation,
  ◌>>=◌, ◌>>◌, raise_if,
}
use quantora.Float.{Floats}
use quantora.Data.Universe.{Instrument, get_instrument}
use quantora.Data.Validation.{
  Calendar, QualityReport, Outcome, accepted, rejected, PriceRow, validate_prices,
}

-- `SUPPORTED_INTERVALS`
abbrev pub supported_intervals : List String
supported_intervals = "1d" ∷ "1wk" ∷ "1mo" ∷ "1h" ∷ "30m" ∷ "15m" ∷ "5m" ∷ []

-- A `str`, a `date` or a `datetime`, of the latter the day.
pub data Requested : Type 0 where
  text : String → Requested
  day : ℕ → Requested
  moment : ℕ → Requested

-- `date.fromisoformat`, midnight of a day in a time zone, and a day's length
pub record Dates : Type 0 where
  pub read_date : String → Option ℕ
  pub midnight : String → ℕ → ℕ
  pub day_length : ℕ

-- `_as_iso_date`
unfoldable pub as_iso_date : Dates → Requested → String → Result ℕ
as_iso_date dates (moment d) field = ok d
as_iso_date dates (day d) field = ok d
as_iso_date dates (text t) field = elim (dates.read_date t) [
  | none ↦ err (invalid_request field)
  | some d ↦ ok d
]

module _ (F : Floats) where
  open F use {Number, mul, div}

  -- The frame of a provider, with the time zone of its index.
  pub record Fetched : Type 0 where
    pub timezone : String
    pub frame : List (PriceRow F)

  -- `PriceProvider`: its name, and what it fetches of a ticker, from a day to before another.
  pub record Provider : Type 0 where
    pub name : String
    pub fetch : String → ℕ → ℕ → String → Result Fetched

  -- An operator on two values of a row: NaN where a side is.
  abbrev of_both : (Number → Number → Number) → Option Number → Option Number → Option Number
  of_both op (some x) (some y) = some (op x y)
  of_both op _ _ = none

  unfoldable pub adjusted_row : PriceRow F → PriceRow F
  adjusted_row r =
      let ratio = of_both div r.adj_close r.close in
      record {
        timestamp = r.timestamp;
        open_price = of_both mul r.open_price ratio;
        high = of_both mul r.high ratio;
        low = of_both mul r.low ratio;
        close = r.adj_close;
        adj_close = r.adj_close;
        volume = r.volume;
      }

  -- `_apply_adjustment`
  unfoldable pub apply_adjustment : List (PriceRow F) → List (PriceRow F)
  unfolding adjusted_row
  apply_adjustment frame = map adjusted_row frame

  unfoldable pub within : ℕ → ℕ → List (PriceRow F) → List (PriceRow F)
  within first until [] = []
  within first until (r ∷ rs) =
      let rest = within first until rs in
      if leb first r.timestamp && ltb r.timestamp until then r ∷ rest else rest

  -- The frame by the policy of adjustment.
  unfoldable pub by_policy : String → List (PriceRow F) → Result (List (PriceRow F))
  unfolding apply_adjustment
  by_policy adjustment frame =
      if same_text adjustment "split_and_dividend_adjusted"
      then ok (apply_adjustment frame)
      else (if same_text adjustment "raw" then ok frame else err (invalid_request "adjustment"))

  -- The time of retrieval is left out.
  pub record Provenance : Type 0 where
    pub provider : String
    pub symbol : String
    pub provider_ticker : String
    pub interval : String
    pub timezone : String
    pub adjustment_policy : String
    pub requested_start : ℕ
    pub requested_end : ℕ
    pub row_count : ℕ
    pub first_timestamp : Option ℕ
    pub last_timestamp : Option ℕ
    pub currency : String

  -- `MarketDataResult`, with the members of its series
  pub record Prices : Type 0 where
    pub symbol : String
    pub interval : String
    pub frame : List (PriceRow F)
    pub provenance : Provenance
    pub quality : QualityReport

  abbrev first_of : List (PriceRow F) → Option ℕ
  first_of [] = none
  first_of (r ∷ rs) = some r.timestamp

  abbrev final_of : List (PriceRow F) → Option ℕ
  final_of [] = none
  final_of (r ∷ []) = some r.timestamp
  final_of (r ∷ s ∷ rs) = final_of (s ∷ rs)

  -- `validate_prices`, which raises what it rejects
  unfoldable pub checked_quality :
      Calendar → List (PriceRow F) → String → String → Result QualityReport
  unfolding validate_prices
  checked_quality calendar frame symbol interval =
      elim (validate_prices F calendar frame symbol interval) [
        | rejected violations ↦ err (data_validation symbol)
        | accepted quality ↦ ok quality
      ]

  unfoldable pub prices_of :
      Instrument → Provider → String → String → ℕ → ℕ → List (PriceRow F) → QualityReport → Prices
  prices_of instrument provider interval adjustment start end frame quality = record {
    symbol = instrument.symbol;
    interval = interval;
    frame = frame;
    provenance = record {
      provider = provider.name;
      symbol = instrument.symbol;
      provider_ticker = instrument.provider_ticker;
      interval = interval;
      timezone = instrument.timezone;
      adjustment_policy = adjustment;
      requested_start = start;
      requested_end = end;
      row_count = length frame;
      first_timestamp = first_of frame;
      last_timestamp = final_of frame;
      currency = instrument.currency;
    };
    quality = quality;
  }

  unfoldable pub get_prices :
      Dates → Calendar → Provider → String → Requested → Requested → String → String → Result Prices
  unfolding get_instrument as_iso_date within by_policy checked_quality prices_of
  get_prices dates calendar provider symbol start end interval adjustment = do
    instrument ← get_instrument symbol
    raise_if (not (is_in interval supported_intervals)) (invalid_request "interval")
    start_day ← as_iso_date dates start "start"
    end_day ← as_iso_date dates end "end"
    raise_if (ltb end_day start_day) (invalid_request "start")
    fetched ← provider.fetch instrument.provider_ticker start_day (suc end_day) interval
    let window_start = dates.midnight fetched.timezone start_day
    let window_end = dates.midnight fetched.timezone end_day + dates.day_length
    frame ← by_policy adjustment (within window_start window_end fetched.frame)
    quality ← checked_quality calendar frame symbol interval
    ok (prices_of instrument provider interval adjustment start_day end_day frame quality)
