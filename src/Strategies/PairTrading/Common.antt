-- ===== src/Strategies/PairTrading/Common.antt =====
-- The timestamps that the two legs share, as later bars come in
-- (services/quant/strategies/pair_trading.py).
use quantora.Prelude.{
  ℕ, zero, suc, ◌<◌, ◌≡◌, refl, sym, ap, ap₂, ◌∙◌, true, false, ◌==◌, Bool-cases, Option-cases, inl,
  inr, Option, some_injective, none, some, List, [], ◌∷◌, ◌++◌, map, length, All, arith,
}
use mathlib.Core.Option
use quantora.Float.{Floats}
use quantora.Strategies.PairTrading.{row, Leg, close_of, common_bars, position_of}

pub row-append {ℓ} :
    {A : Type ℓ} (xs ys : List A) (i : ℕ) → i < length xs → row xs i ≡ row (xs ++ ys) i
unfolding row
row-append [] ys i h = absurd (omega arith)
row-append (x ∷ xs) ys zero h = refl
row-append (x ∷ xs) ys (suc i) h = row-append xs ys i (omega arith)

pub row-map {ℓ κ} :
    {A : Type ℓ} {B : Type κ} (f : A → B) (xs : List A) (i : ℕ)
    → row (map f xs) i ≡ Option.map f (row xs i)
unfolding row
row-map f [] i = refl
row-map f (x ∷ xs) zero = refl
row-map f (x ∷ xs) (suc i) = row-map f xs i

module _ (F : Floats) where
  open F use {Number}

  -- A leg with later bars.
  abbrev pub with_later : Leg F → List (ℕ × Number) → Leg F
  with_later leg later = record { symbol = leg.symbol; bars = leg.bars ++ later }

  -- Timestamps that some bars do not have.
  abbrev pub AreAbsent : List (ℕ × Number) → List (ℕ × Number) → Type 0
  AreAbsent bars later = All (λ e. close_of F e.0 later ≡ none) bars

  pub close_of-append :
      (t : ℕ) (bars later : List (ℕ × Number))
      → close_of F t later ≡ none
      → close_of F t (bars ++ later) ≡ close_of F t bars
  unfolding close_of
  close_of-append t [] later h = h
  close_of-append t ((u, close) ∷ bars) later h = rw (close_of-append t bars later h) refl

  pub common_bars-append :
      (bars later pair : List (ℕ × Number))
      → common_bars F (bars ++ later) pair ≡ common_bars F bars pair ++ common_bars F later pair
  unfolding common_bars
  common_bars-append [] later pair = refl
  common_bars-append ((t, close) ∷ bars) later pair = elim (Option-cases (close_of F t pair)) [
    | inl e ↦ rw (e, common_bars) (common_bars-append bars later pair)
    | inr (other, e) ↦ rw (e, common_bars) (rw (common_bars-append bars later pair) refl)
  ]

  pub common_bars-same :
      (bars pair later : List (ℕ × Number))
      → AreAbsent bars later
      → common_bars F bars (pair ++ later) ≡ common_bars F bars pair
  unfolding common_bars
  common_bars-same [] pair later h = refl
  common_bars-same ((t, close) ∷ bars) pair later (first, others) =
      ap₂ (λ found rest. elim found [ none ↦ rest | some other ↦ (t, close, other) ∷ rest ])
        (close_of-append t pair later first) (common_bars-same bars pair later others)

  pub common_bars-absent :
      (t : ℕ) (bars pair : List (ℕ × Number))
      → close_of F t bars ≡ none
      → position_of F t (common_bars F bars pair) ≡ none
  unfolding common_bars position_of close_of
  common_bars-absent t [] pair h = refl
  common_bars-absent t ((u, close) ∷ bars) pair h = elim (Bool-cases (u == t)) [
    | inl here ↦ absurd cc (rw here at h)
    | inr other ↦ elim (Option-cases (close_of F u pair)) [
      | inl e ↦ rw (e, common_bars) (common_bars-absent t bars pair (rw other at h))
      | inr (found, e) ↦
          rw (e, common_bars)
            (rw (other, position_of) (rw (common_bars-absent t bars pair (rw other at h)) refl))
    ]
  ]

  -- A timestamp at the first row, or where it stands among the others.
  position_of-here :
      (t u : ℕ) (close other_close : Number) (common : List (ℕ × Number × Number))
      → (u == t) ≡ true
      → position_of F t ((u, close, other_close) ∷ common) ≡ some 0
  unfolding position_of
  position_of-here t u close other_close common h = rw h refl

  position_of-next :
      (t u : ℕ) (close other_close : Number) (common : List (ℕ × Number × Number))
      → (u == t) ≡ false
      → position_of F t ((u, close, other_close) ∷ common) ≡ Option.map suc (position_of F t common)
  unfolding position_of
  position_of-next t u close other_close common h = rw h refl

  some-none : {n : ℕ} → some n ≡ none → ⊥
  some-none h = absurd cc

  position_of-empty : (t i : ℕ) → position_of F t [] ≡ some i → ⊥
  unfolding position_of
  position_of-empty t i h = absurd cc

  suc-none : (found : Option ℕ) → Option.map suc found ≡ none → found ≡ none
  suc-none none h = refl
  suc-none (some i) h = absurd cc

  suc-some :
      (found : Option ℕ) (i : ℕ)
      → Option.map suc found ≡ some i
      → (j : ℕ) × (found ≡ some j) × (i ≡ suc j)
  suc-some none i h = absurd cc
  suc-some (some j) i h = (j, refl, sym (some_injective h))

  pub position_of-found :
      (t i : ℕ) (common later : List (ℕ × Number × Number))
      → position_of F t common ≡ some i
      → (i < length common) × (position_of F t (common ++ later) ≡ some i)
  position_of-found t i [] later h = absurd (position_of-empty t i h)
  position_of-found t i ((u, close, other_close) ∷ common) later h = elim (Bool-cases (u == t)) [
    | inl here ↦
        let first = position_of-here t u close other_close common here in
        let zeroth = some_injective (sym first ∙ h) in
        (
          omega arith,
          position_of-here t u close other_close (common ++ later) here ∙ ap some zeroth,
        )
    | inr other ↦
        let (j, e, next) =
          suc-some (position_of F t common) i
            (sym (position_of-next t u close other_close common other) ∙ h) in
        let (bound, found) = position_of-found t j common later e in
        (
          omega arith,
          position_of-next t u close other_close (common ++ later) other
              ∙ ap (Option.map suc) found
              ∙ ap some (sym next),
        )
  ]

  pub position_of-missing :
      (t : ℕ) (common later : List (ℕ × Number × Number))
      → position_of F t common ≡ none
      → position_of F t later ≡ none
      → position_of F t (common ++ later) ≡ none
  position_of-missing t [] later h k = k
  position_of-missing t ((u, close, other_close) ∷ common) later h k = elim (Bool-cases (u == t)) [
    | inl here ↦ absurd (some-none (sym (position_of-here t u close other_close common here) ∙ h))
    | inr other ↦
        let missing =
          suc-none (position_of F t common)
            (sym (position_of-next t u close other_close common other) ∙ h) in
        position_of-next t u close other_close (common ++ later) other
        ∙ ap (Option.map suc) (position_of-missing t common later missing k)
  ]
