-- ===== src/Analytics/Holdings/Weights.antt =====
-- The weights of an allocation (services/quant/portfolio/holdings.py), in exact arithmetic.
use quantora.Prelude.{
  Option, Option-cases, ℕ, ◌≡◌, ◌≢◌, refl, sym, ap, ◌∙◌, false, Bool-cases, inl, inr, List, [], ◌∷◌,
  map, String, ok, >>=-eq-ok, raise_if-ok, ok_injective,
}
use quantora.Float.{Floats, IsExact, le, sum}
use quantora.Float.Order
use quantora.Float.Division
use quantora.Float.Sums
use quantora.Backtest.Portfolio.{price_of}
use quantora.Analytics.Holdings.{
  WeightDict, Concentration, Holding, PositionValue, priced_position, epsilon, concentration,
}
use quantora.Analytics.Holdings.Exposure.{SectorExposure, sector_exposure}
use quantora.Analytics.Holdings.Allocation.{
  Allocation, Portfolio, with_prices, market_values, positions_of, has_bad_price, allocate, value,
}

module _ (F : Floats) where
  open F use {Number, num, add as ◌+◌, mul as ◌*◌, div as ◌/◌, lt}

  infixl 65 ◌+◌
  infixl 70 ◌*◌ ◌/◌
  module _ (X : IsExact F) where
    weights-shares :
        (total : Number) (priced : List (Holding F × Number))
        → map (λ v. v.weight) (positions_of F total priced)
          ≡ map (λ e. e.0.quantity * e.1 / total) priced
    unfolding positions_of priced_position
    weights-shares total [] = refl
    weights-shares total ((h, x) ∷ priced) =
        ap (λ t. h.quantity * x / total ∷ t) (weights-shares total priced)

    symbols-kept :
        (total : Number) (priced : List (Holding F × Number))
        → map (λ v. v.symbol) (positions_of F total priced) ≡ map (λ e. e.0.symbol) priced
    unfolding positions_of priced_position
    symbols-kept total [] = refl
    symbols-kept total ((h, x) ∷ priced) = ap (λ t. h.symbol ∷ t) (symbols-kept total priced)

    with_prices-symbols :
        (prices : List (String × Number)) (hs : List (Holding F))
        (priced : List (Holding F × Number))
        → with_prices F prices hs ≡ ok priced
        → map (λ e. e.0.symbol) priced ≡ map (λ h. h.symbol) hs
    unfolding with_prices
    with_prices-symbols prices [] priced e = cc
    with_prices-symbols prices (h ∷ hs) priced e =
        elim (Option-cases (price_of F h.symbol prices)) [
          | inl missing ↦ cc (rw (missing, with_prices) at e)
          | inr (x, found) ↦
              let (rest, f, g) =
                >>=-eq-ok (with_prices F prices hs) _ (rw (found, with_prices) at e) in
              sym (ap (map (λ e. e.0.symbol)) (ok_injective g))
              ∙ ap (λ t. h.symbol ∷ t) (with_prices-symbols prices hs rest f)
        ]

    ne_of_above : (t : Number) → le F t (epsilon F) ≡ false → t ≢ num 0
    ne_of_above t h = Order.ne_zero_of_pos F X t (elim (Bool-cases (lt (epsilon F) t)) [
      | inl k ↦ X.lt_trans (num 0) (epsilon F) t (Order.tiny_pos F X 9) k
      | inr k ↦ cc (rw k at h)
    ])

    same_positions :
        {total : Number} {t : Option Number} {ps : List (PositionValue F)} {ws : WeightDict F}
        {c : Concentration F} {e : SectorExposure F} {a : Allocation F}
        → ok (record {
          positions = ps;
          total_value = total;
          total_cost = t;
          weights = ws;
          concentration = c;
          sector_exposure = e;
        })
          ≡ ok a
        → a.positions ≡ ps
    same_positions h = cc

    allocate-weights :
        (p : Portfolio F) (priced : List (Holding F × Number)) (top_n : ℕ) (a : Allocation F)
        → allocate F p priced top_n ≡ ok a
        → (sum F (map (λ v. v.weight) a.positions) ≡ num 1)
          × (map (λ v. v.symbol) a.positions ≡ map (λ e. e.0.symbol) priced)
    unfolding allocate market_values
    allocate-weights p priced top_n a h =
        let total = sum F (market_values F priced) in
        let weights =
          map (λ (v : PositionValue F). (v.symbol, v.weight)) (positions_of F total priced) in
        let (_, h1) = raise_if-ok (has_bad_price F priced) _ _ h in
        let (test, h2) = raise_if-ok (le F total (epsilon F)) _ _ h1 in
        let (focus, _, h3) = >>=-eq-ok (concentration F weights top_n) _ h2 in
        let (sectors, _, h4) = >>=-eq-ok (sector_exposure F weights) _ h3 in
        let nonzero = ne_of_above total test in
        (
          ap (λ (v : List (PositionValue F)). sum F (map (λ w. w.weight) v)) (same_positions h4)
              ∙ ap (sum F) (weights-shares total priced)
              ∙ Sums.sum-shares F X (λ (e : Holding F × Number). e.0.quantity * e.1) total priced
                  nonzero
              ∙ Division.div_self F X total nonzero,
          ap (map (λ v. v.symbol)) (same_positions h4) ∙ symbols-kept total priced,
        )

    -- In exact arithmetic: whenever a portfolio can be valued, the weights of its positions sum to
    -- one, and there is one position for each holding, in their order and with its symbol.
    pub value-weights :
        (p : Portfolio F) (prices : List (String × Number)) (top_n : ℕ) (a : Allocation F)
        → value F p prices top_n ≡ ok a
        → (sum F (map (λ v. v.weight) a.positions) ≡ num 1)
          × (map (λ v. v.symbol) a.positions ≡ map (λ h. h.symbol) p.holdings)
    unfolding value
    value-weights p prices top_n a h =
        let (priced, found, k) = >>=-eq-ok (with_prices F prices p.holdings) _ h in
        let (whole, symbols) = allocate-weights p priced top_n a k in
        (whole, symbols ∙ with_prices-symbols prices p.holdings priced found)
