-- ===== src/Analytics/Holdings/Exposure.antt =====
-- `sector_exposure` (services/quant/portfolio/holdings.py).
use quantora.Prelude.{
  if◌then◌else◌, Option, none, some, List, [], ◌∷◌, ◌++◌, String, same_text, sorted_texts, Result,
  ok, ◌>>=◌,
}
use Prim.Native.String.{compare}
use text.Mathlib.Text.{is_lt}
use quantora.Float.{Floats, sum}
use quantora.Data.Universe.{get_instrument}
use quantora.Analytics.Holdings.{WeightDict, epsilon}

abbrev pub unclassified_label : String
unclassified_label = "Unclassified"

module _ (F : Floats) where
  open F use {Number, num, add as ◌+◌, lt}

  infixl 65 ◌+◌
  -- The note, a formatted text, is left out.
  pub record SectorExposure : Type 0 where
    pub sectors : WeightDict F
    pub classified_weight : Number
    pub unclassified_weight : Number
    pub unclassified_symbols : List String

  -- `sectors[name] = sectors.get(name, 0.0) + weight`
  unfoldable pub add_weight : String → Number → WeightDict F → WeightDict F
  add_weight name weight [] = (name, num 0 + weight) ∷ []
  add_weight name weight ((key, w) ∷ ws) =
      let rest = add_weight name weight ws in
      if same_text key name then (key, w + weight) ∷ ws else (key, w) ∷ rest

  -- `sectors[name] = weight`
  unfoldable pub set_weight : String → Number → WeightDict F → WeightDict F
  set_weight name weight [] = (name, weight) ∷ []
  set_weight name weight ((key, w) ∷ ws) =
      let rest = set_weight name weight ws in
      if same_text key name then (key, weight) ∷ ws else (key, w) ∷ rest

  -- The sectors, the unclassified symbols and their weight.
  abbrev pub Tally : Type 0
  Tally = WeightDict F × List String × Number

  -- What the loop does with the sector of one symbol.
  unfoldable pub classify : String → Number → Option String → Tally → Tally
  unfolding add_weight
  classify symbol weight none (sectors, unclassified, total) =
      (sectors, unclassified ++ (symbol ∷ []), total + weight)
  classify symbol weight (some sector) (sectors, unclassified, total) =
      (add_weight sector weight sectors, unclassified, total)

  unfoldable pub tally : WeightDict F → Tally → Result Tally
  unfolding classify
  tally [] state = ok state
  tally ((symbol, weight) ∷ weights) state =
      get_instrument symbol >>= λ i. tally weights (classify symbol weight i.sector state)

  unfoldable pub classified : WeightDict F → List Number
  classified [] = []
  classified ((name, w) ∷ ws) =
      let rest = classified ws in if same_text name unclassified_label then rest else w ∷ rest

  unfoldable pub insert_name : String × Number → WeightDict F → WeightDict F
  insert_name e [] = e ∷ []
  insert_name e (f ∷ fs) =
      let rest = insert_name e fs in if is_lt (compare f.0 e.0) then f ∷ rest else e ∷ f ∷ fs

  -- `dict(sorted(sectors.items()))`; the names are distinct, so they alone decide the order.
  unfoldable pub sorted_sectors : WeightDict F → WeightDict F
  unfolding insert_name
  sorted_sectors [] = []
  sorted_sectors (e ∷ es) = insert_name e (sorted_sectors es)

  unfoldable pub exposure_of : Tally → SectorExposure
  unfolding set_weight classified sorted_sectors sorted_texts
  exposure_of (found, unclassified, weight) =
      let sectors =
        if lt (epsilon F) weight then set_weight unclassified_label weight found else found in
      record {
        sectors = sorted_sectors sectors;
        classified_weight = sum F (classified sectors);
        unclassified_weight = weight;
        unclassified_symbols = sorted_texts unclassified;
      }

  unfoldable pub sector_exposure : WeightDict F → Result SectorExposure
  unfolding tally exposure_of
  sector_exposure weights = tally weights ([], [], num 0) >>= λ t. ok (exposure_of t)
