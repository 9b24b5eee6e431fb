-- ===== src/Prelude/Sorting.antt =====
-- Sorted texts, and membership of a text in a list.
use Prim.Native.String.{String, compare}
use text.Mathlib.Text.{is_lt, ◌==◌ as same_text}
use mathlib.Core.Path.{◌≡◌, refl, sym, ap, ◌∙◌}
use mathlib.Core.Bool.{Bool, true, false, ◌||◌}
use mathlib.Core.Logic.{inl, inr}
use mathlib.Core.List.{List, [], ◌∷◌, ◌++◌}
use quantora.Prelude.Tests.{if◌then◌else◌, Bool-cases}

-- `sorted` of texts
unfoldable pub insert_text : String → List String → List String
insert_text s [] = s ∷ []
insert_text s (t ∷ ts) =
    let rest = insert_text s ts in if is_lt (compare t s) then t ∷ rest else s ∷ t ∷ ts

unfoldable pub sorted_texts : List String → List String
unfolding insert_text
sorted_texts [] = []
sorted_texts (s ∷ ss) = insert_text s (sorted_texts ss)

abbrev pub is_in : String → List String → Bool
is_in s [] = false
is_in s (t ∷ ts) = let rest = is_in s ts in same_text t s || rest

or_comm_left : (a b c : Bool) → (a || (b || c)) ≡ (b || (a || c))
or_comm_left true true c = refl
or_comm_left true false c = refl
or_comm_left false b c = refl

or_assoc : (a b c : Bool) → ((a || b) || c) ≡ (a || (b || c))
or_assoc true b c = refl
or_assoc false b c = refl

pub is_in-append :
    (s : String) (ts us : List String) → is_in s (ts ++ us) ≡ (is_in s ts || is_in s us)
is_in-append s [] us = refl
is_in-append s (t ∷ ts) us =
    ap (λ b. same_text t s || b) (is_in-append s ts us)
    ∙ sym (or_assoc (same_text t s) (is_in s ts) (is_in s us))

is_in-insert_text :
    (s t : String) (ts : List String) → is_in s (insert_text t ts) ≡ (same_text t s || is_in s ts)
unfolding insert_text
is_in-insert_text s t [] = refl
is_in-insert_text s t (u ∷ us) = elim (Bool-cases (is_lt (compare u t))) [
  | inl before ↦ rw before (
      ap (λ b. same_text u s || b) (is_in-insert_text s t us)
      ∙ or_comm_left (same_text u s) (same_text t s) (is_in s us))
  | inr after ↦ rw after refl
]

pub is_in-sorted_texts : (s : String) (ts : List String) → is_in s (sorted_texts ts) ≡ is_in s ts
unfolding sorted_texts
is_in-sorted_texts s [] = refl
is_in-sorted_texts s (t ∷ ts) =
    is_in-insert_text s t (sorted_texts ts) ∙ ap (λ b. same_text t s || b) (is_in-sorted_texts s ts)
