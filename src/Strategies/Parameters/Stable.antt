-- ===== src/Strategies/Parameters/Stable.antt =====
-- Resolved parameters resolve to themselves (services/quant/strategies/base.py).
use quantora.Prelude.{
  some_injective, ◌≡◌, refl, sym, ap, subst, ◌∙◌, Bool, false, Bool-cases, Option-cases, inl, inr,
  some, String, same_text, strip, strip-strip, is_empty, Error, type_error, invalid_parameters, ok,
  raise_if, ◌>>◌, raise_if-ok, ok_injective,
}
use quantora.Float.{Floats}
use quantora.Strategies.Parameters.{
  Value, integer, decimal, boolean, string, null, Reader, ParameterSpec, is_excluded, to_int,
  to_float, to_text, is_true, coerced, bounded, validate,
}

module _ (F : Floats) (reader : Reader F) where
  open F use {Number}

  to_int-to_int : (v w : Value F) → to_int F reader v ≡ some w → to_int F reader w ≡ some w
  unfolding to_int
  to_int-to_int (integer x) w h =
      subst (λ (u : Value F). to_int F reader u ≡ some u) (some_injective h) refl
  to_int-to_int (decimal x) w h = elim (Bool-cases (F.eq (F.trunc x) x)) [
    | inl whole ↦
        subst (λ (u : Value F). to_int F reader u ≡ some u) (some_injective (rw whole at h)) refl
    | inr broken ↦ cc (rw broken at h)
  ]
  to_int-to_int (boolean b) w h = cc
  to_int-to_int (string s) w h = elim (Option-cases (reader.read_int s)) [
    | inl unread ↦ cc (rw (unread, to_int) at h)
    | inr (x, read) ↦
        subst (λ (u : Value F). to_int F reader u ≡ some u)
          (some_injective (rw (read, to_int) at h)) refl
  ]
  to_int-to_int null w h = cc

  to_float-to_float : (v w : Value F) → to_float F reader v ≡ some w → to_float F reader w ≡ some w
  unfolding to_float
  to_float-to_float (integer x) w h =
      subst (λ (u : Value F). to_float F reader u ≡ some u) (some_injective h) refl
  to_float-to_float (decimal x) w h =
      subst (λ (u : Value F). to_float F reader u ≡ some u) (some_injective h) refl
  to_float-to_float (boolean b) w h =
      subst (λ (u : Value F). to_float F reader u ≡ some u) (some_injective h) refl
  to_float-to_float (string s) w h = elim (Option-cases (reader.read_float s)) [
    | inl unread ↦ cc (rw (unread, to_float) at h)
    | inr (x, read) ↦
        subst (λ (u : Value F). to_float F reader u ≡ some u)
          (some_injective (rw (read, to_float) at h)) refl
  ]
  to_float-to_float null w h = cc

  to_text-to_text : (v w : Value F) → to_text F v ≡ some w → to_text F w ≡ some w
  unfolding to_text
  to_text-to_text (string s) w h = elim (Bool-cases (is_empty (strip s))) [
    | inl blank ↦ cc (rw blank at h)
    | inr visible ↦
        subst (λ (u : Value F). to_text F u ≡ some u) (some_injective (rw visible at h))
          (rw (strip-strip s, visible) refl)
  ]
  to_text-to_text (integer x) w h = cc
  to_text-to_text (decimal x) w h = cc
  to_text-to_text (boolean b) w h = cc
  to_text-to_text null w h = cc

  coerced-coerced :
      (type : String) (v w : Value F)
      → coerced F reader type v ≡ some w
      → coerced F reader type w ≡ some w
  unfolding coerced
  coerced-coerced type v w h = elim (Bool-cases (same_text type "int")) [
    | inl a ↦ rw a (to_int-to_int v w (rw a at h))
    | inr a ↦ elim (Bool-cases (same_text type "float")) [
      | inl b ↦ rw (a, b) (to_float-to_float v w (rw (a, b) at h))
      | inr b ↦ elim (Bool-cases (same_text type "bool")) [
        | inl c ↦
            rw (a, b, c)
              (subst (λ (u : Value F). some (boolean (is_true F u)) ≡ some u)
                (some_injective (rw (a, b, c) at h)) refl)
        | inr c ↦ elim (Bool-cases (same_text type "str")) [
          | inl d ↦ rw (a, b, c, d) (to_text-to_text v w (rw (a, b, c, d) at h))
          | inr d ↦ rw (a, b, c, d) refl
        ]
      ]
    ]
  ]

  -- Past its check of the bounds, a value is unchanged.
  checked-same :
      (low high : Bool) (raised : Error) (v w : Value F)
      → (raise_if low raised >> (raise_if high raised >> ok v)) ≡ ok w
      → v ≡ w
  checked-same low high raised v w h =
      let (_, k) = raise_if-ok low raised _ h in
      let (_, l) = raise_if-ok high raised _ k in ok_injective l

  bounded-same : (spec : ParameterSpec F) (v w : Value F) → bounded F spec v ≡ ok w → v ≡ w
  unfolding bounded
  bounded-same spec (string s) w h = ok_injective h
  bounded-same spec null w h =
      let (_, k) = raise_if-ok _ (type_error spec.name) _ h in ok_injective k
  bounded-same spec (integer x) w h = checked-same _ _ (invalid_parameters spec.name) _ w h
  bounded-same spec (decimal x) w h = checked-same _ _ (invalid_parameters spec.name) _ w h
  bounded-same spec (boolean b) w h = checked-same _ _ (invalid_parameters spec.name) _ w h

  -- The coerced form of a choice is a choice.
  abbrev pub HasStableChoices : ParameterSpec F → Type 0
  HasStableChoices spec =
      (v w : Value F)
      → is_excluded F v spec.choices ≡ false
      → coerced F reader spec.type v ≡ some w
      → is_excluded F w spec.choices ≡ false

  pub validate-validate :
      (spec : ParameterSpec F) (v w : Value F)
      → HasStableChoices spec
      → validate F reader spec v ≡ ok w
      → validate F reader spec w ≡ ok w
  unfolding validate
  validate-validate spec v w stable h =
      let (chosen, k) = raise_if-ok (is_excluded F v spec.choices) _ _ h in
      elim (Option-cases (coerced F reader spec.type v)) [
        | inl failed ↦ cc (rw failed at k)
        | inr (u, e) ↦
            let bound = rw e at k in
            let same = bounded-same spec u w bound in
            subst (λ (t : Value F). validate F reader spec t ≡ ok t) same
              (rw (stable v u chosen e, coerced-coerced spec.type v u e) (bound ∙ ap ok (sym same)))
      ]
