-- ===== src/Analytics/Scenario/Changes.antt =====
-- What the list of changes says (services/quant/portfolio/scenario.py), in exact arithmetic.
use quantora.Prelude.{
  is_in, sorted_texts, is_in-sorted_texts, is_in-append, ◌≡◌, refl, sym, ap, ◌∙◌, Bool, true, false,
  not, ◌&&◌, ◌||◌, Bool-cases, inl, inr, List, [], ◌∷◌, ◌++◌, map, String, same_text, same_text_iff,
  get, All, or-false,
}
use quantora.Float.{Floats, IsExact, abs, tiny}
use quantora.Float.Order
use quantora.Float.Algebra.{ring}
use quantora.Analytics.Holdings.{WeightDict}
use quantora.Analytics.Scenario.{
  weight_epsilon, without_repeats, Kind, added, removed, reweighted, Change, weight_in, kind_of,
  is_unchanged, change_of, changes_of, describe_changes,
}

or_absorb : (a b : Bool) → (a ≡ true → b ≡ true) → b ≡ (a || b)
or_absorb true b h = h refl
or_absorb false b h = refl

is_in-without_repeats : (s : String) (ts : List String) → is_in s (without_repeats ts) ≡ is_in s ts
unfolding without_repeats
is_in-without_repeats s [] = refl
is_in-without_repeats s (t ∷ ts) = elim (Bool-cases (is_in t (without_repeats ts))) [
  | inl repeated ↦ rw repeated (
      is_in-without_repeats s ts
      ∙ or_absorb (same_text t s) (is_in s ts)
          (λ e. rw ((same_text_iff t s).0 e) at (sym (is_in-without_repeats t ts) ∙ repeated)))
  | inr first ↦ rw first (ap (λ b. same_text t s || b) (is_in-without_repeats s ts))
]

not-not : (a : Bool) → not (not a) ≡ a
not-not true = refl
not-not false = refl

passed_over : (a b c : Bool) → (a ≡ true → c ≡ false) → (b && c) ≡ ((a || b) && c)
passed_over true true c h = refl
passed_over true false c h = sym (h refl)
passed_over false b c h = refl

listed : (a b c : Bool) → (a ≡ true → c ≡ true) → (a || (b && c)) ≡ ((a || b) && c)
listed true b c h = sym (h refl)
listed false b c h = refl

module _ (F : Floats) (X : IsExact F) where
  open F use {Number, num, sub as ◌-◌, neg, lt}

  infixl 65 ◌-◌
  -- The symbols that are reported.
  abbrev pub reported : List (Change F) → List String
  reported = map (λ c. c.symbol)

  reported-changes_of :
      (base scenario : WeightDict F) (s : String) (symbols : List String)
      → is_in s (reported (changes_of F base scenario symbols))
        ≡ (is_in s symbols && not (is_unchanged F (weight_in F base s) (weight_in F scenario s)))
  unfolding changes_of change_of
  reported-changes_of base scenario s [] = refl
  reported-changes_of base scenario s (t ∷ ts) =
      let moved =
        λ (u : String). not (is_unchanged F (weight_in F base u) (weight_in F scenario u)) in
      let same = λ (e : same_text t s ≡ true). ap moved (sym ((same_text_iff t s).0 e)) in
      elim (Bool-cases (is_unchanged F (weight_in F base t) (weight_in F scenario t))) [
        | inl still ↦ rw still (
            reported-changes_of base scenario s ts
            ∙ passed_over (same_text t s) (is_in s ts) (moved s) (λ e. same e ∙ ap not still))
        | inr moves ↦ rw moves (
            ap (λ b. same_text t s || b) (reported-changes_of base scenario s ts)
            ∙ listed (same_text t s) (is_in s ts) (moved s) (λ e. same e ∙ ap not moves))
      ]

  absent :
      (s : String) (weights : WeightDict F)
      → is_in s (map (λ e. e.0) weights) ≡ false
      → weight_in F weights s ≡ num 0
  unfolding weight_in get
  absent s [] h = refl
  absent s ((t, w) ∷ rest) h =
      let (other, k) = or-false (same_text t s) (is_in s (map (λ e. e.0) rest)) h in
      rw (other, weight_in) (absent s rest k)

  unchanged_zero : is_unchanged F (num 0) (num 0) ≡ true
  unfolding is_unchanged abs
  unchanged_zero =
      rw
        (
          X.sub-eq-add,
          X.add-neg,
          X.lt_irrefl (num 0),
          Order.le_of_lt F X (num 0) (weight_epsilon F) (Order.tiny_pos F X 9),
        )
        refl

  unchanged-moved :
      (before after : Number)
      → not (is_unchanged F before after)
        ≡ (lt (tiny F 9) (after - before) || lt (tiny F 9) (before - after))
  unfolding is_unchanged
  unchanged-moved before after =
      let same : neg (after - before) ≡ before - after = simp (ring, X) refl in
      not-not (lt (tiny F 9) (abs F (after - before)))
      ∙ Order.lt-abs F X (tiny F 9) (after - before) (Order.tiny_pos F X 9)
      ∙ rw same refl

  -- In exact arithmetic, for all symbols: the list reports a symbol if and only if its weight in
  -- the scenario exceeds its weight now by more than 1e-9, or falls below it by more than 1e-9.
  pub reported-describe_changes :
      (base scenario : WeightDict F) (s : String)
      → is_in s (reported (describe_changes F base scenario)) ≡ (
          lt (tiny F 9) (weight_in F scenario s - weight_in F base s)
          || lt (tiny F 9) (weight_in F base s - weight_in F scenario s))
  unfolding describe_changes
  reported-describe_changes base scenario s =
      let keys = λ (d : WeightDict F). map (λ e. e.0) d in
      let all = keys base ++ keys scenario in
      reported-changes_of base scenario s (sorted_texts (without_repeats all))
      ∙ ap (λ b. b && not (is_unchanged F (weight_in F base s) (weight_in F scenario s)))
          (is_in-sorted_texts s (without_repeats all) ∙ is_in-without_repeats s all)
      ∙ elim (Bool-cases (is_in s all)) [
        | inl known ↦ rw known refl
        | inr unknown ↦
            let (held, wanted) =
              or-false _ _ (sym (is_in-append s (keys base) (keys scenario)) ∙ unknown) in
            rw (unknown, absent s base held, absent s scenario wanted, unchanged_zero) refl
      ]
      ∙ unchanged-moved (weight_in F base s) (weight_in F scenario s)

  -- Whether a symbol is held before and after, by the kind of its change.
  abbrev pub Explains : Kind → Number → Number → Type 0
  Explains added before after =
      (lt (weight_epsilon F) before ≡ false) × (lt (weight_epsilon F) after ≡ true)
  Explains removed before after =
      (lt (weight_epsilon F) before ≡ true) × (lt (weight_epsilon F) after ≡ false)
  Explains reweighted before after =
      (lt (weight_epsilon F) before ≡ true) × (lt (weight_epsilon F) after ≡ true)

  -- Two numbers from zero to a bound differ by at most the bound.
  sub_le : (a b e : Number) → lt e a ≡ false → lt b (num 0) ≡ false → lt e (a - b) ≡ false
  sub_le a b e h k =
      rw (X.sub-eq-add)
        (simp (ring, X) at (Order.add-le-add F X a e (neg b) (num 0) h (Order.neg_nonpos F X b k)))

  close :
      (a b e : Number)
      → lt e a ≡ false
      → lt e b ≡ false
      → lt a (num 0) ≡ false
      → lt b (num 0) ≡ false
      → lt e (abs F (a - b)) ≡ false
  unfolding abs
  close a b e ha hb pa pb = elim (Bool-cases (lt (a - b) (num 0))) [
    | inl below ↦ rw below (simp (ring, X) (simp (ring, X) at (sub_le b a e hb pa)))
    | inr above ↦ rw above (sub_le a b e ha pb)
  ]

  kind_of-Explains :
      (before after : Number)
      → lt before (num 0) ≡ false
      → lt after (num 0) ≡ false
      → is_unchanged F before after ≡ false
      → Explains (kind_of F before after) before after
  unfolding is_unchanged kind_of
  kind_of-Explains before after hb ha moved = elim (Bool-cases (lt (weight_epsilon F) before)) [
    | inl held ↦ elim (Bool-cases (lt (weight_epsilon F) after)) [
      | inl kept ↦ rw (held, kept) (held, kept)
      | inr sold ↦ rw (held, sold) (held, sold)
    ]
    | inr absent ↦ elim (Bool-cases (lt (weight_epsilon F) after)) [
      | inl bought ↦ rw absent (absent, bought)
      | inr none_left ↦
          cc (rw (close after before (weight_epsilon F) none_left absent ha hb) at moved)
    ]
  ]

  weight_in-nonneg :
      (s : String) (weights : WeightDict F)
      → All (λ e. lt e.1 (num 0) ≡ false) weights
      → lt (weight_in F weights s) (num 0) ≡ false
  unfolding weight_in get
  weight_in-nonneg s [] h = X.lt_irrefl (num 0)
  weight_in-nonneg s ((t, w) ∷ rest) (first, others) = elim (Bool-cases (same_text t s)) [
    | inl same ↦ rw (same, weight_in) first
    | inr other ↦ rw (other, weight_in) (weight_in-nonneg s rest others)
  ]

  -- A change tells what became of the symbol's weight.
  abbrev pub IsExplained : WeightDict F → WeightDict F → Change F → Type 0
  IsExplained base scenario c =
      (c.weight_before ≡ weight_in F base c.symbol)
      × (c.weight_after ≡ weight_in F scenario c.symbol)
      × (c.delta ≡ c.weight_after - c.weight_before)
      × Explains c.change c.weight_before c.weight_after

  changes_of-IsExplained :
      (base scenario : WeightDict F) (symbols : List String)
      → All (λ e. lt e.1 (num 0) ≡ false) base
      → All (λ e. lt e.1 (num 0) ≡ false) scenario
      → All (IsExplained base scenario) (changes_of F base scenario symbols)
  unfolding changes_of change_of
  changes_of-IsExplained base scenario [] hb hs = tt
  changes_of-IsExplained base scenario (t ∷ ts) hb hs =
      elim (Bool-cases (is_unchanged F (weight_in F base t) (weight_in F scenario t))) [
        | inl still ↦ rw still (changes_of-IsExplained base scenario ts hb hs)
        | inr moves ↦ rw moves (
          (
            refl,
            refl,
            refl,
            kind_of-Explains (weight_in F base t) (weight_in F scenario t)
                (weight_in-nonneg t base hb) (weight_in-nonneg t scenario hs) moves,
          ),
          changes_of-IsExplained base scenario ts hb hs,
        )
      ]

  -- In exact arithmetic, with no negative weights: each reported change carries the weights before
  -- and after and their difference; what was added had at most 1e-9 and has more, what was removed
  -- had more and has at most that, and what was reweighted had and has more.
  pub describe_changes-IsExplained :
      (base scenario : WeightDict F)
      → All (λ e. lt e.1 (num 0) ≡ false) base
      → All (λ e. lt e.1 (num 0) ≡ false) scenario
      → All (IsExplained base scenario) (describe_changes F base scenario)
  unfolding describe_changes
  describe_changes-IsExplained base scenario =
      changes_of-IsExplained base scenario
        (sorted_texts (without_repeats (map (λ e. e.0) base ++ map (λ e. e.0) scenario)))
