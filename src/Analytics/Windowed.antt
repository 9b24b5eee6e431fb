-- ===== src/Analytics/Windowed.antt =====
-- The theorem on the window of a risk report, applied at concrete closes
-- (services/quant/portfolio/risk.py).
use quantora.Prelude.{ℕ, zero, suc, if◌then◌else◌, List, [], ◌∷◌, String, same_text, Result, ok}
use quantora.Rational.{ℚ}
use quantora.Analytics.Examples.{q}

-- So many closes, up to the same session.
abbrev closes : ℕ → List (ℕ × ℚ)
closes zero = []
closes (suc n) = (n, q 100) ∷ closes n

-- One of the holdings has too few bars.
abbrev loader : String → Result (List (ℕ × ℚ))
loader symbol = ok (if same_text symbol "INFY.NS" then closes 5 else closes 22)

abbrev symbols : List String
symbols = "TCS.NS" ∷ "INFY.NS" ∷ []
