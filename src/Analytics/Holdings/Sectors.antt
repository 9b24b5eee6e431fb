-- ===== src/Analytics/Holdings/Sectors.antt =====
-- The sector breakdown accounts for every weight (services/quant/portfolio/holdings.py).
use quantora.Prelude.{
  ◌≡◌, refl, sym, ap, ◌∙◌, subst, false, if◌then◌else◌, Bool-cases, inl, inr, Option, none, some,
  List, [], ◌∷◌, map, foldl, String, same_text, same_text_iff, All, ok, >>=-eq-ok, ok_injective,
}
use quantora.Float.{Floats, IsExact, sum}
use quantora.Float.Algebra
use quantora.Float.Algebra.{ring}
use quantora.Data.Universe.{Instrument, instruments, lookup, get_instrument}
use quantora.Backtest.Portfolio.Ledger.{foldl-add}
use quantora.Analytics.Holdings.{WeightDict, epsilon}
use quantora.Analytics.Holdings.Exposure.{
  unclassified_label, SectorExposure, add_weight, set_weight, Tally, classify, tally, classified,
  exposure_of, sector_exposure,
}

-- A sector, if there is one, is not called like the bucket of the unclassified.
abbrev IsNamed : Option String → Type 0
IsNamed none = Unit
IsNamed (some sector) = same_text sector unclassified_label ≡ false

lookup-All {κ} :
    (P : Instrument → Type κ) (symbol : String) (is : List Instrument) (i : Instrument)
    → All P is
    → lookup symbol is ≡ ok i
    → P i
unfolding lookup
lookup-All P symbol [] i h e = cc
lookup-All P symbol (j ∷ is) i h e = elim (Bool-cases (same_text j.symbol symbol)) [
  | inl same ↦ subst P (ok_injective (rw same at e)) h.0
  | inr other ↦ lookup-All P symbol is i h.1 (rw other at e)
]

get_instrument-IsNamed :
    (symbol : String) (i : Instrument) → get_instrument symbol ≡ ok i → IsNamed i.sector
unfolding get_instrument
get_instrument-IsNamed symbol i e =
    lookup-All (λ i. IsNamed i.sector) symbol instruments i
      (tt, (tt, (refl, (refl, (refl, (refl, (refl, tt))))))) e

module _ (F : Floats) (X : IsExact F) where
  open F use {Number, num, add as ◌+◌, lt}

  infixl 65 ◌+◌
  -- What is kept under a sector's name.
  abbrev kept : WeightDict F → Number
  kept [] = num 0
  kept ((name, w) ∷ ws) = if same_text name unclassified_label then kept ws else w + kept ws

  classified-sum : (ws : WeightDict F) → sum F (classified F ws) ≡ kept ws
  unfolding classified sum
  classified-sum [] = refl
  classified-sum ((name, w) ∷ ws) = elim (Bool-cases (same_text name unclassified_label)) [
    | inl same ↦ rw same (classified-sum ws)
    | inr other ↦ rw other (
        foldl-add F X (classified F ws) (num 0 + w)
        ∙ ap (λ (t : Number). t + foldl ◌+◌ (num 0) (classified F ws)) (Algebra.zero-add F X w)
        ∙ ap (λ (t : Number). w + t) (classified-sum ws))
  ]

  add_weight-kept :
      (name : String) (weight : Number) (ws : WeightDict F)
      → same_text name unclassified_label ≡ false
      → kept (add_weight F name weight ws) ≡ kept ws + weight
  unfolding add_weight
  add_weight-kept name weight [] h = rw h (simp (ring, X))
  add_weight-kept name weight ((key, w) ∷ ws) h = elim (Bool-cases (same_text key name)) [
    | inl same ↦
        let named : same_text key unclassified_label ≡ false =
          subst (λ k. same_text k unclassified_label ≡ false)
            (sym ((same_text_iff key name).0 same)) h in
        rw (same, named) (simp (ring, X))
    | inr other ↦ elim (Bool-cases (same_text key unclassified_label)) [
      | inl bucket ↦ rw (other, bucket) (add_weight-kept name weight ws h)
      | inr named ↦
          rw (other, named)
            (ap (λ (t : Number). w + t) (add_weight-kept name weight ws h)
              ∙ sym (X.add_assoc w (kept ws) weight))
    ]
  ]

  set_weight-kept :
      (weight : Number) (ws : WeightDict F)
      → kept (set_weight F unclassified_label weight ws) ≡ kept ws
  unfolding set_weight
  set_weight-kept weight [] = refl
  set_weight-kept weight ((key, w) ∷ ws) = elim (Bool-cases (same_text key unclassified_label)) [
    | inl bucket ↦ rw (bucket, bucket) refl
    | inr named ↦ rw (named, named) (ap (λ (t : Number). w + t) (set_weight-kept weight ws))
  ]

  -- What the loop has accounted for.
  abbrev accounted : Tally F → Number
  accounted (sectors, unclassified, total) = kept sectors + total

  classify-accounted :
      (symbol : String) (weight : Number) (sector : Option String) (t : Tally F)
      → IsNamed sector
      → accounted (classify F symbol weight sector t) ≡ accounted t + weight
  unfolding classify
  classify-accounted symbol weight none (sectors, unclassified, total) h = simp (ring, X)
  classify-accounted symbol weight (some sector) (sectors, unclassified, total) h =
      ap (λ (t : Number). t + total) (add_weight-kept sector weight sectors h) ∙ (simp (ring, X))

  tally-accounted :
      (weights : WeightDict F) (s t : Tally F)
      → tally F weights s ≡ ok t
      → accounted t ≡ foldl ◌+◌ (accounted s) (map (λ e. e.1) weights)
  unfolding tally
  tally-accounted [] s t e = sym (ap accounted (ok_injective e))
  tally-accounted ((symbol, weight) ∷ weights) s t e =
      let (i, found, f) = >>=-eq-ok (get_instrument symbol) _ e in
      tally-accounted weights (classify F symbol weight i.sector s) t f
      ∙ ap (λ (a : Number). foldl ◌+◌ a (map (λ e. e.1) weights))
          (classify-accounted symbol weight i.sector s (get_instrument-IsNamed symbol i found))

  exposure_of-accounted :
      (t : Tally F)
      → (exposure_of F t).classified_weight + (exposure_of F t).unclassified_weight ≡ accounted t
  unfolding exposure_of
  exposure_of-accounted (sectors, unclassified, total) = elim (Bool-cases (lt (epsilon F) total)) [
    | inl more ↦ rw more (
        ap (λ (a : Number). a + total)
          (classified-sum (set_weight F unclassified_label total sectors)
            ∙ set_weight-kept total sectors))
    | inr less ↦ rw less (ap (λ (a : Number). a + total) (classified-sum sectors))
  ]

  -- In exact arithmetic: whenever every symbol is in the universe, so that the breakdown returns, the
  -- classified and the unclassified weight together are the sum of the weights, also where the
  -- unclassified weight is too small to be shown as a sector.
  pub sector_exposure-accounted :
      (weights : WeightDict F) (e : SectorExposure F)
      → sector_exposure F weights ≡ ok e
      → e.classified_weight + e.unclassified_weight ≡ sum F (map (λ w. w.1) weights)
  unfolding sector_exposure sum
  sector_exposure-accounted weights e h =
      let (t, f, g) = >>=-eq-ok (tally F weights ([], [], num 0)) _ h in
      ap (λ (e : SectorExposure F). e.classified_weight + e.unclassified_weight)
        (sym (ok_injective g))
      ∙ exposure_of-accounted t
      ∙ tally-accounted weights ([], [], num 0) t f
      ∙ ap (λ (a : Number). foldl ◌+◌ a (map (λ w. w.1) weights)) (X.add-zero (num 0))
