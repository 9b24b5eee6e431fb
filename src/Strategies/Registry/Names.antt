-- ===== src/Strategies/Registry/Names.antt =====
-- What a name stands for in the registry (services/quant/strategies/registry.py).
use quantora.Prelude.{
  ◌≡◌, refl, sym, ap, subst, ◌∙◌, true, false, not, Bool-cases, Option-cases, inl, inr, some, List,
  [], ◌∷◌, map, String, same_text, same_text_iff, is_empty, ◌==◌, ==_iff, put, get, get-put,
  get-put_other, some_injective, is_in, is_in-sorted_texts, ok, raise_if-ok, ok_injective,
}
use quantora.Float.{Floats}
use quantora.Strategies.Parameters.{StrategyClass}
use quantora.Strategies.Registry.{
  Registry, registered_over, register, available, get_strategy_class,
}

is_in_of_get {ℓ} :
    {A : Type ℓ} (key : String) (d : List (String × A)) (v : A)
    → get key d ≡ some v
    → is_in key (map (λ e. e.0) d) ≡ true
unfolding get
is_in_of_get key [] v h = cc
is_in_of_get key ((k, w) ∷ d) v h = elim (Bool-cases (same_text k key)) [
  | inl same ↦ rw same refl
  | inr other ↦ rw other (is_in_of_get key d v (rw (other, get) at h))
]

module _ (F : Floats) where
  -- The registries that further registrations lead to.
  pub data Extends (before : Registry F) : Registry F → Type 0 where
    unchanged : Extends before before
    registered :
        {later after : Registry F} (c : StrategyClass F)
        → Extends before later
        → register F c later ≡ ok after
        → Extends before after

  identity_of :
      (b c : StrategyClass F) → not (b.identity == c.identity) ≡ false → b.identity ≡ c.identity
  identity_of b c h = elim (Bool-cases (b.identity == c.identity)) [
    | inl same ↦ (==_iff b.identity c.identity).0 same
    | inr other ↦ cc (rw other at h)
  ]

  put-keeps :
      (c d : StrategyClass F) (r s : Registry F) (name : String)
      → put c.name c r ≡ s
      → get name r ≡ some d
      → (c.name ≡ name → c.identity ≡ d.identity)
      → (e : StrategyClass F) × (get name s ≡ some e) × (e.identity ≡ d.identity)
  put-keeps c d r s name made held own = elim (Bool-cases (same_text c.name name)) [
    | inl same ↦
        let e = (same_text_iff c.name name).0 same in
        (
          c,
          subst (λ (t : Registry F). get name t ≡ some c) made
              (subst (λ n. get n (put c.name c r) ≡ some c) e (get-put c.name c r)),
          own e,
        )
    | inr other ↦ (
      d,
      subst (λ (t : Registry F). get name t ≡ some d) made
          (get-put_other c.name name c r other ∙ held),
      refl,
    )
  ]

  -- A registration keeps what each name stands for, and adds its own.
  register-keeps :
      (c d : StrategyClass F) (r s : Registry F) (name : String)
      → register F c r ≡ ok s
      → get name r ≡ some d
      → (e : StrategyClass F) × (get name s ≡ some e) × (e.identity ≡ d.identity)
  unfolding register registered_over
  register-keeps c d r s name h held =
      let (_, k) = raise_if-ok (is_empty c.name) _ _ h in
      elim (Option-cases (get c.name r)) [
        | inl free ↦
            put-keeps c d r s name (ok_injective (rw (free, registered_over) at k)) held
              (λ e. cc (ap (λ n. get n r) (sym e) ∙ free, held))
        | inr (existing, taken) ↦
            let (same, l) =
              raise_if-ok (not (existing.identity == c.identity)) _ _
                (rw (taken, registered_over) at k) in
            put-keeps c d r s name (ok_injective l) held (λ e.
              sym (identity_of existing c same)
              ∙ ap (λ (t : StrategyClass F). t.identity)
                  (some_injective (sym taken ∙ ap (λ n. get n r) e ∙ held)))
      ]

  kept :
      (r s : Registry F) (name : String) (d : StrategyClass F)
      → Extends r s
      → get name r ≡ some d
      → (e : StrategyClass F) × (get name s ≡ some e) × (e.identity ≡ d.identity)
  kept r s name d unchanged h = (d, h, refl)
  kept r s name d (registered {later} c steps done) h =
      let (e, there, same) = kept r later name d steps h in
      let (f, found, again) = register-keeps c e later s name done there in (f, found, again ∙ same)

  get_of :
      (r : Registry F) (name : String) (d : StrategyClass F)
      → get_strategy_class F r name ≡ ok d
      → get name r ≡ some d
  unfolding get_strategy_class
  get_of r name d h = elim (Option-cases (get name r)) [
    | inl missing ↦ cc (rw (missing, get_strategy_class) at h)
    | inr (c, found) ↦ found ∙ ap some (ok_injective (rw (found, get_strategy_class) at h))
  ]

  -- Whatever is registered after it, a name never comes to stand for another class, and stays
  -- among the names that are available.
  pub get_strategy_class-kept :
      (r s : Registry F) (name : String) (d : StrategyClass F)
      → Extends r s
      → get_strategy_class F r name ≡ ok d
      → (e : StrategyClass F) × (get_strategy_class F s name ≡ ok e)
        × (e.identity ≡ d.identity)
        × (is_in name (available F s) ≡ true)
  unfolding get_strategy_class available
  get_strategy_class-kept r s name d steps h =
      let (e, found, same) = kept r s name d steps (get_of r name d h) in
      (
        e,
        rw (found, get_strategy_class) refl,
        same,
        is_in-sorted_texts name (map (λ x. x.0) s) ∙ is_in_of_get name s e found,
      )
