-- ===== src/Prelude/Dicts.antt =====
-- Dictionaries with texts as keys, as lists in the order of insertion.
use quantora.Prelude.Lists.{All}
use mathlib.Core.Path.{◌≡◌, refl, ap}
use mathlib.Core.Logic.{inl, inr}
use mathlib.Core.Bool.{Bool, false, ◌||◌}
use mathlib.Core.Option.{Option, none, some}
use mathlib.Core.List.{List, [], ◌∷◌}
use Prim.Native.String.{String}
use text.Mathlib.Text.{◌==◌ as same_text}
use text.Mathlib.TextEquality.{eq_iff as same_text_iff}
use quantora.Prelude.Tests.{if◌then◌else◌, Bool-cases}

-- `d[key] = v` and `d.get(key)`
unfoldable pub put {ℓ} : {A : Type ℓ} → String → A → List (String × A) → List (String × A)
put key v [] = (key, v) ∷ []
put key v ((k, w) ∷ d) =
    let rest = put key v d in if same_text k key then (k, v) ∷ d else (k, w) ∷ rest

unfoldable pub get {ℓ} : {A : Type ℓ} → String → List (String × A) → Option A
get key [] = none
get key ((k, w) ∷ d) = let rest = get key d in if same_text k key then some w else rest

-- `key in d`
abbrev pub has_key {ℓ} : {A : Type ℓ} → String → List (String × A) → Bool
has_key key [] = false
has_key key ((k, w) ∷ d) = let rest = has_key key d in same_text k key || rest

-- An assignment keeps what holds of all values.
pub put-All {ℓ κ} :
    {A : Type ℓ} (Holds : A → Type κ) (key : String) (v : A) (d : List (String × A))
    → Holds v
    → All (λ e. Holds e.1) d
    → All (λ e. Holds e.1) (put key v d)
unfolding put
put-All Holds key v [] h k = (h, tt)
put-All Holds key v ((name, w) ∷ d) h (first, others) = elim (Bool-cases (same_text name key)) [
  | inl same ↦ rw same (h, others)
  | inr other ↦ rw other (first, put-All Holds key v d h others)
]

pub get-put {ℓ} :
    {A : Type ℓ} (key : String) (v : A) (d : List (String × A)) → get key (put key v d) ≡ some v
unfolding get put
get-put key v [] = rw ((same_text_iff key key).1 refl) refl
get-put key v ((k, w) ∷ d) = elim (Bool-cases (same_text k key)) [
  | inl same ↦ rw (same, get, same) refl
  | inr other ↦ rw (other, get, other) (get-put key v d)
]

pub get-put_other {ℓ} :
    {A : Type ℓ} (key name : String) (v : A) (d : List (String × A))
    → same_text key name ≡ false
    → get name (put key v d) ≡ get name d
unfolding get put
get-put_other key name v [] h = rw h refl
get-put_other key name v ((k, w) ∷ d) h = elim (Bool-cases (same_text k key)) [
  | inl same ↦ rw (same, get, (same_text_iff k key).0 same, h) refl
  | inr different ↦
      rw (different, get)
        (ap (λ t. if same_text k name then some w else t) (get-put_other key name v d h))
]
