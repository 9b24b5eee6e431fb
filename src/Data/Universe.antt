-- ===== src/Data/Universe.antt =====
-- The configured instruments (services/quant/data/universe.py).
use quantora.Prelude.{
  Bool, if◌then◌else◌, Option, none, some, List, [], ◌∷◌, map, String, same_text, Result, ok, err,
  unknown_symbol, unknown_universe, false,
}

pub data AssetClass : Type 0 where
  index equity : AssetClass

pub record Instrument : Type 0 where
  pub symbol : String
  pub provider_ticker : String
  pub name : String
  pub asset_class : AssetClass
  pub exchange : String
  pub currency : String
  pub timezone : String
  pub sector : Option String

-- An instrument with the settings of `_NSE`.
abbrev nse : String → String → String → AssetClass → Option String → Instrument
nse symbol provider_ticker name asset_class sector = record {
  symbol = symbol;
  provider_ticker = provider_ticker;
  name = name;
  asset_class = asset_class;
  exchange = "NSE";
  currency = "INR";
  timezone = "Asia/Kolkata";
  sector = sector;
}

abbrev pub instruments : List Instrument
instruments =
    nse "NIFTY" "^NSEI" "NIFTY 50 Index" index none
    ∷ nse "BANKNIFTY" "^NSEBANK" "NIFTY Bank Index" index none
    ∷ nse "RELIANCE.NS" "RELIANCE.NS" "Reliance Industries" equity (some "Energy")
    ∷ nse "TCS.NS" "TCS.NS" "Tata Consultancy Services" equity (some "Information Technology")
    ∷ nse "HDFCBANK.NS" "HDFCBANK.NS" "HDFC Bank" equity (some "Financials")
    ∷ nse "INFY.NS" "INFY.NS" "Infosys" equity (some "Information Technology")
    ∷ nse "ICICIBANK.NS" "ICICIBANK.NS" "ICICI Bank" equity (some "Financials")
    ∷ []

abbrev is_index : AssetClass → Bool
is_index index = Bool.true
is_index equity = false

abbrev is_equity : AssetClass → Bool
is_equity index = false
is_equity equity = Bool.true

abbrev symbols_of : (AssetClass → Bool) → List Instrument → List String
symbols_of wanted [] = []
symbols_of wanted (i ∷ is) =
    let rest = symbols_of wanted is in if wanted i.asset_class then i.symbol ∷ rest else rest

unfoldable pub get_universe : String → Result (List String)
get_universe name =
    if same_text name "mvp"
    then ok (map (λ i. i.symbol) instruments)
    else (if same_text name "indices"
        then ok (symbols_of is_index instruments)
        else (if same_text name "equities"
            then ok (symbols_of is_equity instruments)
            else err (unknown_universe name)))

unfoldable pub lookup : String → List Instrument → Result Instrument
lookup symbol [] = err (unknown_symbol symbol)
lookup symbol (i ∷ is) = if same_text i.symbol symbol then ok i else lookup symbol is

unfoldable pub get_instrument : String → Result Instrument
unfolding lookup
get_instrument symbol = lookup symbol instruments
