-- ===== src/Strategies/PairTrading/Held.antt =====
-- A position of the pair is entered, and held only while the pair can be used
-- (services/quant/strategies/pair_trading.py).
use quantora.Prelude.{
  ℕ, zero, suc, ◌≤◌, ◌⊎◌, ◌≡◌, ◌≢◌, refl, sym, ap, ◌∙◌, Bool, true, false, not, ◌&&◌, if◌then◌else◌,
  Bool-cases, Option-cases, inl, inr, Option, none, some, some_injective, List, arith,
}
use quantora.Float.{Floats, abs}
use quantora.Strategies.Base.{SignalDirection, short, flat, long}
use quantora.Strategies.Columns.{Column, Pandas, IsPandas}
use quantora.Strategies.Columns.Held.{last_decision, held_target-last_decision}
use quantora.Indicators.{Rolling}
use quantora.Strategies.PairTrading.{
  PairParams, PairColumns, is_unusable, is_decoupled, enters_long, enters_short, reverts,
  pair_target, pair_directions, position_of, pair_row, missing_row, reindexed_row,
}

-- A decision for a direction at a row up to this one, and none to be flat since.
abbrev IsTaken : Column (Option SignalDirection) → SignalDirection → ℕ → Type 0
IsTaken decisions d i =
    (j : ℕ) × (j ≤ i) × (decisions j ≡ some d) × ((k : ℕ) → j ≤ k → k ≤ i → decisions k ≢ some flat)

last_or_before : (k i : ℕ) → k ≤ suc i → (k ≡ suc i) ⊎ (k ≤ i)
last_or_before k i h = ground arith

only_zero : (k : ℕ) → k ≤ 0 → k ≡ 0
only_zero k h = omega arith

last_row : (k i : ℕ) → i ≤ k → k ≤ i → k ≡ i
last_row k i h g = omega arith

current-IsTaken :
    (decisions : Column (Option SignalDirection)) (d e : SignalDirection) (i : ℕ)
    → decisions i ≡ some e
    → e ≡ d
    → d ≢ flat
    → IsTaken decisions d i
current-IsTaken decisions d e i now same other = (
  i,
  omega arith,
  now ∙ ap some same,
  λ k after before gone. other (
      some_injective
        (sym (now ∙ ap some same) ∙ ap decisions (sym (last_row k i after before)) ∙ gone)),
)

last_decision-IsTaken :
    (decisions : Column (Option SignalDirection)) (d : SignalDirection) (i : ℕ)
    → last_decision decisions i ≡ d
    → d ≢ flat
    → IsTaken decisions d i
unfolding last_decision
last_decision-IsTaken decisions d zero h other = elim (Option-cases (decisions 0)) [
  | inl e ↦ absurd (other (sym (rw e at h)))
  | inr (e, now) ↦ current-IsTaken decisions d e 0 now (rw now at h) other
]
last_decision-IsTaken decisions d (suc i) h other = elim (Option-cases (decisions (suc i))) [
  | inl e ↦
      let (j, before, taken, kept) = last_decision-IsTaken decisions d i (rw e at h) other in
      (
        j,
        omega arith,
        taken,
        λ k after until. elim (last_or_before k i until) [
          | inl last ↦ λ gone. cc
          | inr earlier ↦ kept k after earlier
        ],
      )
  | inr (e, now) ↦ current-IsTaken decisions d e (suc i) now (rw now at h) other
]

-- Which of two tests a direction stands for.
abbrev pub test_of : Bool → Bool → SignalDirection → Bool
test_of goes_short goes_long short = goes_short
test_of goes_short goes_long long = goes_long
test_of goes_short goes_long flat = false

abbrev chosen : Bool → Bool → Bool → Bool → Option SignalDirection
chosen unusable reverted goes_short goes_long =
    if unusable
    then some flat
    else (if reverted
        then some flat
        else (if goes_short then some short else (if goes_long then some long else none)))

chosen-entered :
    (unusable reverted goes_short goes_long : Bool) (d : SignalDirection)
    → chosen unusable reverted goes_short goes_long ≡ some d
    → d ≢ flat
    → test_of goes_short goes_long d ≡ true
chosen-entered true r s l d h other = absurd (other (sym (some_injective h)))
chosen-entered false true s l d h other = absurd (other (sym (some_injective h)))
chosen-entered false false true l d h other = rw (← some_injective h) refl
chosen-entered false false false true d h other = rw (← some_injective h) refl
chosen-entered false false false false d h other = cc

module _ (F : Floats) where
  open F use {Number, neg, lt}

  -- Whether the band of a direction is crossed.
  abbrev pub entered : PairParams F → SignalDirection → Option Number → Option Number → Bool
  entered params d z correlation =
      test_of (enters_short F params z correlation) (enters_long F params z correlation) d

  pair_target-entered :
      (params : PairParams F) (d : SignalDirection) (z correlation : Option Number)
      → pair_target F params z correlation ≡ some d
      → d ≢ flat
      → entered params d z correlation ≡ true
  unfolding pair_target
  pair_target-entered params d z correlation h other =
      chosen-entered (is_unusable F params z correlation) (reverts F params z correlation)
        (enters_short F params z correlation) (enters_long F params z correlation) d h other

  pair_target-usable :
      (params : PairParams F) (z correlation : Option Number)
      → pair_target F params z correlation ≢ some flat
      → (is_unusable F params z correlation ≡ false) × (reverts F params z correlation ≡ false)
  unfolding pair_target
  pair_target-usable params z correlation h =
      elim (Bool-cases (is_unusable F params z correlation)) [
        | inl unusable ↦ absurd (h (rw unusable refl))
        | inr usable ↦ elim (Bool-cases (reverts F params z correlation)) [
          | inl reverted ↦ absurd (h (rw (reverted, usable) refl))
          | inr apart ↦ (usable, apart)
        ]
      ]

  -- A z-score at or beyond the entry, on the side of a direction.
  abbrev IsBeyond : PairParams F → SignalDirection → Number → Type 0
  IsBeyond params long z = lt (neg params.entry_z) z ≡ false
  IsBeyond params short z = lt z params.entry_z ≡ false
  IsBeyond params flat z = ⊥

  -- A z-score that is known, and at or beyond the entry.
  abbrev IsEntered : PairParams F → SignalDirection → Option Number → Type 0
  IsEntered params d zscore = (z : Number) × (zscore ≡ some z) × IsBeyond params d z

  -- A z-score and a correlation that are known, the one larger in size than the exit, the other not less
  -- than its minimum.
  abbrev IsApart : PairParams F → Option Number → Option Number → Type 0
  IsApart params zscore correlation =
      (z : Number) × (r : Number) × (zscore ≡ some z)
      × (correlation ≡ some r)
      × (lt params.exit_z (abs F z) ≡ true)
      × (lt r params.min_correlation ≡ false)

  not-true : (b : Bool) → not b ≡ true → b ≡ false
  not-true true h = absurd cc
  not-true false h = refl

  both : (a b : Bool) → (a && b) ≡ true → a ≡ true
  both true b h = refl
  both false b h = h

  not_both : (a b : Bool) → (not a && b) ≡ false → b ≡ true → a ≡ true
  not_both true b h k = refl
  not_both false b h k = absurd cc

  entered-IsEntered :
      (params : PairParams F) (d : SignalDirection) (z correlation : Option Number)
      → entered params d z correlation ≡ true
      → IsEntered params d z
  unfolding enters_short enters_long
  entered-IsEntered params short (some z) correlation h =
      (z, refl, not-true (lt z params.entry_z) (both _ _ h))
  entered-IsEntered params long (some z) correlation h =
      (z, refl, not-true (lt (neg params.entry_z) z) (both _ _ h))
  entered-IsEntered params short none correlation h = absurd cc
  entered-IsEntered params long none correlation h = absurd cc
  entered-IsEntered params flat z correlation h = absurd cc

  usable-IsApart :
      (params : PairParams F) (z correlation : Option Number)
      → is_unusable F params z correlation ≡ false
      → reverts F params z correlation ≡ false
      → IsApart params z correlation
  unfolding is_unusable is_decoupled reverts
  usable-IsApart params none correlation h k = absurd cc
  usable-IsApart params (some z) none h k = absurd cc
  usable-IsApart params (some z) (some r) h k =
      (z, r, refl, refl, not_both (lt params.exit_z (abs F z)) _ k (rw h refl), h)

  -- A row of the common index whose position was entered at a row before it or there, and at which, and
  -- since, the pair could be used and its spread had not reverted.
  abbrev pub IsHeld : PairParams F → PairColumns F → SignalDirection → ℕ → Type 0
  IsHeld params c d i =
      (j : ℕ) × (j ≤ i)
      × IsEntered params d (c.zscore j)
      × ((k : ℕ) → j ≤ k → k ≤ i → IsApart params (c.zscore k) (c.correlation k))

  module _ (R : Rolling Number) (P : Pandas Number) (L : IsPandas P) where
    pair_directions-IsHeld :
        (params : PairParams F) (c : PairColumns F) (d : SignalDirection) (i : ℕ)
        → pair_directions F R P params c i ≡ d
        → d ≢ flat
        → IsHeld params c d i
    unfolding pair_directions
    pair_directions-IsHeld params c d i h other =
        let decisions = λ (j : ℕ). pair_target F params (c.zscore j) (c.correlation j) in
        let (j, before, taken, kept) =
          last_decision-IsTaken decisions d i (sym (held_target-last_decision P L decisions i) ∙ h)
            other in
        (
          j,
          before,
          entered-IsEntered params d (c.zscore j) (c.correlation j)
              (pair_target-entered params d (c.zscore j) (c.correlation j) taken other),
          λ k after until.
              let (usable, away) =
                pair_target-usable params (c.zscore k) (c.correlation k) (kept k after until) in
              usable-IsApart params (c.zscore k) (c.correlation k) usable away,
        )

    missing_at :
        (params : PairParams F) (c : PairColumns F) (common : List (ℕ × Number × Number)) (t : ℕ)
        → position_of F t common ≡ none
        → (reindexed_row F R P params c common t).direction ≡ flat
    unfolding reindexed_row missing_row
    missing_at params c common t e = rw (e, reindexed_row, missing_row) refl

    found_at :
        (params : PairParams F) (c : PairColumns F) (common : List (ℕ × Number × Number)) (t i : ℕ)
        → position_of F t common ≡ some i
        → (reindexed_row F R P params c common t).direction ≡ pair_directions F R P params c i
    unfolding reindexed_row pair_row
    found_at params c common t i e = rw (e, reindexed_row, pair_row) refl

    -- With pandas as documented: a row that is not flat stands in the common index, and its position was
    -- entered at that row or one before it, where the z-score was at most minus the entry for a long
    -- position and at least the entry for a short one; from there up to the row the z-score and the
    -- correlation are known, the z-score is larger in size than the exit, and the correlation is not
    -- less than its minimum.
    pub reindexed_row-IsHeld :
        (params : PairParams F) (c : PairColumns F) (common : List (ℕ × Number × Number)) (t : ℕ)
        → (reindexed_row F R P params c common t).direction ≢ flat
        → (i : ℕ) × (position_of F t common ≡ some i)
          × IsHeld params c (reindexed_row F R P params c common t).direction i
    reindexed_row-IsHeld params c common t other = elim (Option-cases (position_of F t common)) [
      | inl e ↦ absurd (other (missing_at params c common t e))
      | inr (i, e) ↦ (
        i,
        e,
        pair_directions-IsHeld params c (reindexed_row F R P params c common t).direction i
            (sym (found_at params c common t i e)) other,
      )
    ]
