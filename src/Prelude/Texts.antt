-- ===== src/Prelude/Texts.antt =====
-- White space in texts, as Python's `str.strip` sees it.
use quantora.Prelude.Tests.{leb, ◌==◌, if◌then◌else◌, Bool-cases}
use Prim.Native.Nat.{ℕ}
use Prim.Native.Char.{Char, code}
use Prim.Native.String.{String, [], ◌∷◌}
use mathlib.Core.Bool.{Bool, true, false, ◌&&◌, ◌||◌}
use mathlib.Core.Path.{◌≡◌, refl, sym, ap, ◌∙◌}
use mathlib.Core.Logic.{inl, inr}

-- `str.isspace` of one character
abbrev is_space : ℕ → Bool
is_space c =
    leb 9 c && leb c 13
    || leb 28 c && leb c 32
    || c == 133
    || c == 160
    || c == 5760
    || leb 8192 c && leb c 8202
    || c == 8232
    || c == 8233
    || c == 8239
    || c == 8287
    || c == 12288

-- `not s.strip()`
abbrev pub is_blank : String → Bool
is_blank [] = true
is_blank (c ∷ s) = is_space (code c) && is_blank s

abbrev pub is_empty : String → Bool
is_empty [] = true
is_empty (c ∷ s) = false

unfoldable lstrip : String → String
lstrip [] = []
lstrip (c ∷ s) = let rest = lstrip s in if is_space (code c) then rest else c ∷ s

-- A character before a text without white space at its end.
unfoldable put_before : Char → String → String
put_before c s = if is_space (code c) && is_empty s then [] else c ∷ s

unfoldable rstrip : String → String
unfolding put_before
rstrip [] = []
rstrip (c ∷ s) = put_before c (rstrip s)

-- `s.strip()`
unfoldable pub strip : String → String
unfolding lstrip rstrip
strip s = rstrip (lstrip s)

rstrip-rstrip : (s : String) → rstrip (rstrip s) ≡ rstrip s
unfolding rstrip put_before
rstrip-rstrip [] = refl
rstrip-rstrip (c ∷ s) = elim (Bool-cases (is_space (code c) && is_empty (rstrip s))) [
  | inl dropped ↦ rw (dropped, put_before, rstrip) refl
  | inr kept ↦ rw (kept, put_before, rstrip) (rw (rstrip-rstrip s, put_before, kept) refl)
]

put_before_visible : (c : Char) (s : String) → is_space (code c) ≡ false → put_before c s ≡ c ∷ s
unfolding put_before
put_before_visible c s h = rw h refl

lstrip_visible : (c : Char) (s : String) → is_space (code c) ≡ false → lstrip (c ∷ s) ≡ c ∷ s
unfolding lstrip
lstrip_visible c s h = rw h refl

lstrip-rstrip : (s : String) → lstrip (rstrip (lstrip s)) ≡ rstrip (lstrip s)
unfolding lstrip rstrip
lstrip-rstrip [] = refl
lstrip-rstrip (c ∷ s) = elim (Bool-cases (is_space (code c))) [
  | inl space ↦ rw (space, lstrip) (lstrip-rstrip s)
  | inr other ↦
      let whole = put_before_visible c (rstrip s) other in
      ap (λ t. lstrip (rstrip t)) (lstrip_visible c s other)
      ∙ ap lstrip whole
      ∙ lstrip_visible c (rstrip s) other
      ∙ sym whole
      ∙ ap rstrip (sym (lstrip_visible c s other))
]

-- A text that was stripped stays as it is.
pub strip-strip : (s : String) → strip (strip s) ≡ strip s
unfolding strip
strip-strip s = ap rstrip (lstrip-rstrip s) ∙ rstrip-rstrip (lstrip s)
