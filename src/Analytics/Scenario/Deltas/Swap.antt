-- ===== src/Analytics/Scenario/Deltas/Swap.antt =====
-- The comparison read the other way (services/quant/portfolio/scenario.py), in exact arithmetic.
use quantora.Prelude.{
  ◌≡◌, ◌≢◌, refl, ap, ◌∙◌, Bool, true, false, if◌then◌else◌, ◌||◌, All, not, Bool-cases, inl, inr,
  Option, none, some, List, [], ◌∷◌, map, String,
}
use quantora.Float.{Floats, IsExact, abs, tiny}
use quantora.Float.Order
use quantora.Float.Algebra
use quantora.Float.Algebra.{ring}
use quantora.Backtest.Compare.{Direction, higher, lower}
use quantora.Analytics.Scenario.{weight_epsilon}
use quantora.Analytics.Scenario.Deltas.{
  risk_metrics, Measured, Delta, measured, delta_of, is_improved, improved_of, delta_row,
  metric_deltas,
}

abbrev pub mapped {ℓ κ} : {A : Type ℓ} {B : Type κ} → (A → B) → Option A → Option B
mapped f none = none
mapped f (some a) = some (f a)

module _ (F : Floats) (X : IsExact F) where
  open F use {Number, num, sub as ◌-◌, neg, lt}

  infixl 65 ◌-◌
  abs-neg : (d : Number) → abs F (neg d) ≡ abs F d
  unfolding abs
  abs-neg d = elim (Bool-cases (lt d (num 0))) [
    | inl below ↦ rw (below, Order.lt_asymm F X (num 0) (neg d) (Order.neg_pos F X d below)) refl
    | inr above ↦ elim (Bool-cases (lt (neg d) (num 0))) [
      | inl positive ↦ rw (positive, above) (simp (ring, X) refl)
      | inr other ↦
          let zero =
            X.lt_total d (num 0) above (simp (ring, X) at (Order.neg_nonpos F X (neg d) other)) in
          rw (above, other, zero) (Algebra.neg_zero F X)
    ]
  ]

  delta_of-swap :
      (left right : Option Number) → delta_of F right left ≡ mapped neg (delta_of F left right)
  unfolding delta_of
  delta_of-swap none none = refl
  delta_of-swap none (some right) = refl
  delta_of-swap (some left) none = refl
  delta_of-swap (some left) (some right) = ap some (simp (ring, X) refl)

  -- What has moved is not zero.
  moved_ne : (d : Number) → lt (weight_epsilon F) (abs F d) ≡ true → d ≢ num 0
  unfolding abs
  moved_ne d moved zero = cc (
    rw (zero, X.lt_irrefl (num 0)) at moved,
    Order.le_of_lt F X (num 0) (weight_epsilon F) (Order.tiny_pos F X 9),
  )

  is_improved-neg :
      (direction : Direction) (d : Number)
      → lt (weight_epsilon F) (abs F d) ≡ true
      → is_improved F direction (neg d) ≡ not (is_improved F direction d)
  unfolding is_improved
  is_improved-neg higher d moved = elim (Order.trichotomy F X d) [
    | inl up ↦ rw (up, Order.le_of_lt F X (neg d) (num 0) (Order.neg_neg F X d up)) refl
    | inr (inl down) ↦ rw (Order.neg_pos F X d down, Order.le_of_lt F X d (num 0) down) refl
    | inr (inr zero) ↦ absurd (moved_ne d moved zero)
  ]
  is_improved-neg lower d moved = elim (Order.trichotomy F X d) [
    | inl up ↦ rw (Order.neg_neg F X d up, Order.le_of_lt F X (num 0) d up) refl
    | inr (inl down) ↦ rw (down, Order.le_of_lt F X (num 0) (neg d) (Order.neg_pos F X d down)) refl
    | inr (inr zero) ↦ absurd (moved_ne d moved zero)
  ]

  improved_of-neg :
      (direction : Option Direction) (delta : Option Number)
      → improved_of F direction (mapped neg delta) ≡ mapped not (improved_of F direction delta)
  unfolding improved_of
  improved_of-neg none none = refl
  improved_of-neg none (some d) = refl
  improved_of-neg (some direction) none = refl
  improved_of-neg (some direction) (some d) = elim (Bool-cases (lt (weight_epsilon F) (abs F d))) [
    | inl moved ↦ rw (abs-neg d, moved) (ap some (is_improved-neg direction d moved))
    | inr still ↦ rw (abs-neg d, still) refl
  ]

  -- A row is turned into the row of the same metric, read the other way.
  abbrev pub Reverses : Delta F → Delta F → Type 0
  Reverses r s =
      (s.metric ≡ r.metric)
      × (s.before ≡ r.after)
      × (s.after ≡ r.before)
      × (s.delta ≡ mapped neg r.delta)
      × (s.improved ≡ mapped not r.improved)

  delta_row-Reverses :
      (before after : Measured F) (metric : String × String × Option Direction)
      → Reverses (delta_row F before after metric) (delta_row F after before metric)
  unfolding delta_row
  delta_row-Reverses before after (key, label, direction) =
      let left = measured F key before in
      let right = measured F key after in
      (
        refl,
        refl,
        refl,
        delta_of-swap left right,
        ap (improved_of F direction) (delta_of-swap left right)
            ∙ improved_of-neg direction (delta_of F left right),
      )

  abbrev pub Pairwise : List (Delta F) → List (Delta F) → Type 0
  Pairwise [] [] = Unit
  Pairwise (r ∷ rs) (s ∷ ss) = Reverses r s × Pairwise rs ss
  Pairwise _ _ = ⊥

  rows-Reverse :
      (before after : Measured F) (metrics : List (String × String × Option Direction))
      → Pairwise (map (delta_row F before after) metrics) (map (delta_row F after before) metrics)
  rows-Reverse before after [] = tt
  rows-Reverse before after (m ∷ ms) =
      (delta_row-Reverses before after m, rows-Reverse before after ms)

  -- Which of two tests a verdict stands for.
  abbrev first_of : Bool → Bool → Option Bool
  first_of better worse = if better then some true else (if worse then some false else none)

  -- The verdict on a move between two values: by more than 1e-9 up or down, in either direction.
  abbrev verdict : Direction → Number → Number → Option Bool
  verdict higher before after =
      first_of (lt (tiny F 9) (after - before)) (lt (tiny F 9) (before - after))
  verdict lower before after =
      first_of (lt (tiny F 9) (before - after)) (lt (tiny F 9) (after - before))

  -- A change and a verdict that are what two values say; none, where a value or the direction is.
  abbrev IsJudged :
      Option Direction → Option Number → Option Number → Option Number → Option Bool → Type 0
  IsJudged none (some before) (some after) delta improved =
      (delta ≡ some (after - before)) × (improved ≡ none)
  IsJudged (some direction) (some before) (some after) delta improved =
      (delta ≡ some (after - before)) × (improved ≡ verdict direction before after)
  IsJudged direction _ _ delta improved = (delta ≡ none) × (improved ≡ none)

  -- A row with the two measured values, their change and the verdict on it.
  abbrev pub Compares : Measured F → Measured F → Delta F → Type 0
  Compares before after r =
      (r.before ≡ measured F r.metric before)
      × (r.after ≡ measured F r.metric after)
      × IsJudged r.better r.before r.after r.delta r.improved

  moves : (d : Number) → lt (tiny F 9) (abs F d) ≡ (lt (tiny F 9) d || lt (tiny F 9) (neg d))
  moves d = Order.lt-abs F X (tiny F 9) d (Order.tiny_pos F X 9)

  opposite : (before after : Number) → neg (after - before) ≡ before - after
  opposite before after = simp (ring, X) refl

  rising : (d : Number) → lt (tiny F 9) d ≡ true → lt (num 0) d ≡ true
  rising d h = X.lt_trans (num 0) (tiny F 9) d (Order.tiny_pos F X 9) h

  falling : (d : Number) → lt (tiny F 9) (neg d) ≡ true → lt d (num 0) ≡ true
  falling d h = simp (ring, X) at (Order.neg_neg F X (neg d) (rising (neg d) h))

  -- The two verdicts, on a change that is known.
  verdict-higher :
      (d : Number)
      → improved_of F (some higher) (some d) ≡ first_of (lt (tiny F 9) d) (lt (tiny F 9) (neg d))
  unfolding improved_of is_improved
  verdict-higher d = elim (Bool-cases (lt (tiny F 9) d)) [
    | inl up ↦ rw (moves d, up, rising d up) refl
    | inr level ↦ elim (Bool-cases (lt (tiny F 9) (neg d))) [
      | inl down ↦ rw (moves d, level, down, Order.le_of_lt F X d (num 0) (falling d down)) refl
      | inr still ↦ rw (moves d, level, still) refl
    ]
  ]

  verdict-lower :
      (d : Number)
      → improved_of F (some lower) (some d) ≡ first_of (lt (tiny F 9) (neg d)) (lt (tiny F 9) d)
  unfolding improved_of is_improved
  verdict-lower d = elim (Bool-cases (lt (tiny F 9) (neg d))) [
    | inl down ↦
        rw (moves d, down, falling d down)
          (elim (Bool-cases (lt (tiny F 9) d)) [ inl up ↦ rw up refl | inr level ↦ rw level refl ])
    | inr level ↦ elim (Bool-cases (lt (tiny F 9) d)) [
      | inl up ↦ rw (moves d, level, up, Order.le_of_lt F X (num 0) d (rising d up)) refl
      | inr still ↦ rw (moves d, level, still) refl
    ]
  ]

  improved_of-verdict :
      (direction : Direction) (before after : Number)
      → improved_of F (some direction) (some (after - before)) ≡ verdict direction before after
  improved_of-verdict higher before after =
      verdict-higher (after - before)
      ∙ ap (λ d. first_of (lt (tiny F 9) (after - before)) (lt (tiny F 9) d))
          (opposite before after)
  improved_of-verdict lower before after =
      verdict-lower (after - before)
      ∙ ap (λ d. first_of (lt (tiny F 9) d) (lt (tiny F 9) (after - before)))
          (opposite before after)

  judged :
      (direction : Option Direction) (before after : Option Number)
      → IsJudged direction before after
          (delta_of F before after)
          (improved_of F direction (delta_of F before after))
  unfolding delta_of improved_of
  judged none none none = (refl, refl)
  judged none none (some after) = (refl, refl)
  judged none (some before) none = (refl, refl)
  judged none (some before) (some after) = (refl, refl)
  judged (some direction) none none = (refl, refl)
  judged (some direction) none (some after) = (refl, refl)
  judged (some direction) (some before) none = (refl, refl)
  judged (some direction) (some before) (some after) =
      (refl, improved_of-verdict direction before after)

  delta_row-Compares :
      (before after : Measured F) (metric : String × String × Option Direction)
      → Compares before after (delta_row F before after metric)
  unfolding delta_row
  delta_row-Compares before after (key, label, direction) =
      (refl, refl, judged direction (measured F key before) (measured F key after))

  rows-Compare :
      (before after : Measured F) (metrics : List (String × String × Option Direction))
      → All (Compares before after) (map (delta_row F before after) metrics)
  rows-Compare before after [] = tt
  rows-Compare before after (m ∷ ms) =
      (delta_row-Compares before after m, rows-Compare before after ms)

  -- In exact arithmetic: a row of the comparison of before with after holds the two values of its
  -- metric; its change is the value after less the value before, or none where one is missing; and it
  -- is improved if the value moved by more than 1e-9 in the direction of the metric, not improved if
  -- by more than 1e-9 against it, and has no verdict otherwise. Comparing after with before gives,
  -- metric by metric, the values exchanged, the opposite change (or none), and the opposite verdict
  -- (or none).
  pub metric_deltas-Reverse :
      (before after : Measured F)
      → All (Compares before after) (metric_deltas F before after)
        × Pairwise (metric_deltas F before after) (metric_deltas F after before)
  unfolding metric_deltas
  metric_deltas-Reverse before after =
      (rows-Compare before after risk_metrics, rows-Reverse before after risk_metrics)
