-- ===== src/Strategies/Parameters/Again.antt =====
-- A strategy built from its own parameters (services/quant/strategies/base.py).
use quantora.Prelude.{
  ◌≡◌, refl, sym, ap, subst, ◌∙◌, Bool, true, false, ◌||◌, Bool_ext, or-false, List, [], ◌∷◌, map,
  String, same_text, same_text_iff, get, All, ok, >>=-eq-ok, raise_if-ok, ok_injective,
}
use quantora.Float.{Floats}
use quantora.Strategies.Parameters.{
  Value, Reader, ParameterSpec, validate, Parameters, is_specified, has_unknown_parameter,
  raw_value, resolved_values, StrategyClass, instantiate,
}
use quantora.Strategies.Parameters.Stable.{HasStableChoices, validate-validate}

cons_injective {ℓ} : {A : Type ℓ} {a b : A} {xs ys : List A} → a ∷ xs ≡ b ∷ ys → (a ≡ b) × (xs ≡ ys)
cons_injective e = (cc, cc)

or_true : (b : Bool) → (b || true) ≡ true
or_true true = refl
or_true false = refl

-- The test does not depend on the side.
different : (s t : String) → same_text t s ≡ false → same_text s t ≡ false
different s t h =
    Bool_ext (same_text s t) (same_text t s)
      (λ e. (same_text_iff t s).1 (sym ((same_text_iff s t).0 e)))
      (λ e. (same_text_iff s t).1 (sym ((same_text_iff t s).0 e)))
    ∙ h

module _ (F : Floats) (reader : Reader F) where
  -- No two specifications have one name.
  abbrev pub HasDistinctNames : List (ParameterSpec F) → Type 0
  HasDistinctNames [] = Unit
  HasDistinctNames (spec ∷ specs) =
      (is_specified F spec.name specs ≡ false) × HasDistinctNames specs

  -- What a dictionary has under the names of the specifications, and that it is valid there.
  IsSettled : Parameters F → List (ParameterSpec F) → Parameters F → Type 0
  IsSettled whole [] [] = Unit
  IsSettled whole (spec ∷ specs) ((name, v) ∷ rest) =
      (name ≡ spec.name)
      × (raw_value F spec whole ≡ v)
      × (validate F reader spec v ≡ ok v)
      × IsSettled whole specs rest
  IsSettled whole _ _ = ⊥

  resolved-IsSettled :
      (whole : Parameters F) (specs : List (ParameterSpec F)) (r : Parameters F)
      → IsSettled whole specs r
      → resolved_values F reader specs whole ≡ ok r
  unfolding IsSettled resolved_values
  resolved-IsSettled whole [] [] h = refl
  resolved-IsSettled whole [] (e ∷ r) h = elim h [ ]
  resolved-IsSettled whole (spec ∷ specs) [] h = elim h [ ]
  resolved-IsSettled whole (spec ∷ specs) ((name, v) ∷ rest) (same, raw, valid, others) =
      rw (raw, valid, resolved-IsSettled whole specs rest others, same) refl

  -- An entry under another name changes nothing.
  cons-IsSettled :
      (name : String) (v : Value F) (whole : Parameters F) (specs : List (ParameterSpec F))
      (r : Parameters F)
      → is_specified F name specs ≡ false
      → IsSettled whole specs r
      → IsSettled ((name, v) ∷ whole) specs r
  unfolding IsSettled is_specified raw_value get
  cons-IsSettled name v whole [] [] h k = tt
  cons-IsSettled name v whole [] (e ∷ r) h k = elim k [ ]
  cons-IsSettled name v whole (spec ∷ specs) [] h k = elim k [ ]
  cons-IsSettled name v whole (spec ∷ specs) ((n, w) ∷ rest) h (same, raw, valid, others) =
      let (other, unlisted) = or-false (same_text spec.name name) (is_specified F name specs) h in
      (
        same,
        rw (different name spec.name other, raw_value) raw,
        valid,
        cons-IsSettled name v whole specs rest unlisted others,
      )

  own :
      (spec : ParameterSpec F) (v : Value F) (rest : Parameters F)
      → raw_value F spec ((spec.name, v) ∷ rest) ≡ v
  unfolding raw_value get
  own spec v rest = rw ((same_text_iff spec.name spec.name).1 refl, raw_value) refl

  resolved_values-IsSettled :
      (specs : List (ParameterSpec F)) (parameters r : Parameters F)
      → HasDistinctNames specs
      → All (HasStableChoices F reader) specs
      → resolved_values F reader specs parameters ≡ ok r
      → IsSettled r specs r
  unfolding resolved_values IsSettled
  resolved_values-IsSettled [] parameters r distinct stable h =
      subst (λ (s : Parameters F). IsSettled s [] s) (ok_injective h) tt
  resolved_values-IsSettled (spec ∷ specs) parameters r (fresh, distinct) (first, stable) h =
      let (v, valid, k) = >>=-eq-ok (validate F reader spec (raw_value F spec parameters)) _ h in
      let (rest, e, l) = >>=-eq-ok (resolved_values F reader specs parameters) _ k in
      subst (λ (s : Parameters F). IsSettled s (spec ∷ specs) s) (ok_injective l)
        (
          refl,
          own spec v rest,
          validate-validate F reader spec (raw_value F spec parameters) v first valid,
          cons-IsSettled spec.name v rest specs rest fresh
              (resolved_values-IsSettled specs parameters rest distinct stable e),
        )

  names-resolved_values :
      (specs : List (ParameterSpec F)) (parameters r : Parameters F)
      → resolved_values F reader specs parameters ≡ ok r
      → map (λ e. e.0) r ≡ map (λ s. s.name) specs
  unfolding resolved_values
  names-resolved_values [] parameters r h = ap (map (λ e. e.0)) (sym (ok_injective h))
  names-resolved_values (spec ∷ specs) parameters r h =
      let (v, _, k) = >>=-eq-ok (validate F reader spec (raw_value F spec parameters)) _ h in
      let (rest, e, l) = >>=-eq-ok (resolved_values F reader specs parameters) _ k in
      ap (map (λ e. e.0)) (sym (ok_injective l))
      ∙ ap (λ t. spec.name ∷ t) (names-resolved_values specs parameters rest e)

  -- Among more specifications, names that were known are known.
  has_unknown_parameter_self :
      (specs all : List (ParameterSpec F)) (r : Parameters F)
      → map (λ e. e.0) r ≡ map (λ s. s.name) specs
      → ((name : String) → is_specified F name specs ≡ true → is_specified F name all ≡ true)
      → has_unknown_parameter F all r ≡ false
  unfolding has_unknown_parameter is_specified
  has_unknown_parameter_self [] all [] e sub = refl
  has_unknown_parameter_self [] all (x ∷ r) e sub = cc
  has_unknown_parameter_self (spec ∷ specs) all [] e sub = cc
  has_unknown_parameter_self (spec ∷ specs) all ((name, v) ∷ r) e sub =
      let (same, others) = cons_injective e in
      rw
        (
          sub name (rw ((same_text_iff spec.name name).1 (sym same)) refl),
          has_unknown_parameter_self specs all r others
              (λ n t. sub n (rw (t, or_true (same_text spec.name n)) refl)),
        )
        refl

  -- When no two specifications share a name and coercing a choice gives a choice: a strategy that can
  -- be built has a value for each specification, in their order, and building it again from these
  -- gives the same parameters.
  pub instantiate-again :
      (c : StrategyClass F) (parameters r : Parameters F)
      → HasDistinctNames c.parameter_specs
      → All (HasStableChoices F reader) c.parameter_specs
      → instantiate F reader c parameters ≡ ok r
      → (map (λ e. e.0) r ≡ map (λ s. s.name) c.parameter_specs) × (instantiate F reader c r ≡ ok r)
  unfolding instantiate
  instantiate-again c parameters r distinct stable h =
      let (_, k) = raise_if-ok (has_unknown_parameter F c.parameter_specs parameters) _ _ h in
      let (found, e, l) = >>=-eq-ok (resolved_values F reader c.parameter_specs parameters) _ k in
      let (u, crossed, m) = >>=-eq-ok (c.validate_parameters found) _ l in
      let same = ok_injective m in
      let names = names-resolved_values c.parameter_specs parameters found e in
      subst
        (λ (s : Parameters F).
          (map (λ e. e.0) s ≡ map (λ s. s.name) c.parameter_specs)
          × (instantiate F reader c s ≡ ok s))
        same
        (
          names,
          rw
              (
                has_unknown_parameter_self c.parameter_specs c.parameter_specs found names
                    (λ name t. t),
                resolved-IsSettled found c.parameter_specs found (
                    resolved_values-IsSettled c.parameter_specs parameters found distinct stable e),
                crossed,
              )
              refl,
        )
