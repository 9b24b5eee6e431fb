-- ===== src/Strategies/Columns/Held.antt =====
-- A target that is held until the next decision (services/quant/strategies).
use quantora.Prelude.{ℕ, zero, suc, ◌≡◌, refl, sym, ap, ap₂, ◌∙◌, false, Option, none, some, arith}
use quantora.Strategies.Base.{SignalDirection, short, same_direction}
use quantora.Strategies.Columns.{Column, Agree, or_else, or_flat, Pandas, IsPandas, held_target}

abbrev pub decided : Option SignalDirection → SignalDirection → SignalDirection
decided none d = d
decided (some e) d = e

-- The decision of the last row up to this one that has one, or flat.
unfoldable pub last_decision : Column (Option SignalDirection) → ℕ → SignalDirection
last_decision decisions zero = or_flat (decisions 0)
last_decision decisions (suc i) = decided (decisions (suc i)) (last_decision decisions i)

or_flat-or_else :
    (a b : Option SignalDirection) (d : SignalDirection)
    → or_flat b ≡ d
    → or_flat (or_else a b) ≡ decided a d
or_flat-or_else none b d h = h
or_flat-or_else (some e) b d h = refl

module _ {Number : Type 0} (P : Pandas Number) (L : IsPandas P) where
  filled-last_decision :
      (decisions : Column (Option SignalDirection)) (i : ℕ)
      → or_flat (P.ffill decisions i) ≡ last_decision decisions i
  unfolding last_decision
  filled-last_decision decisions zero = ap or_flat (L.ffill_first decisions)
  filled-last_decision decisions (suc i) =
      ap or_flat (L.ffill_next decisions i)
      ∙ or_flat-or_else (decisions (suc i)) (P.ffill decisions i) (last_decision decisions i)
          (filled-last_decision decisions i)

  pub held_target-last_decision :
      (decisions : Column (Option SignalDirection)) (i : ℕ)
      → held_target P decisions i ≡ last_decision decisions i
  unfolding held_target
  held_target-last_decision = filled-last_decision

  last_decision-Agree :
      (c d : Column (Option SignalDirection)) (i : ℕ)
      → Agree i c d
      → last_decision c i ≡ last_decision d i
  unfolding last_decision
  last_decision-Agree c d zero h = ap or_flat (h 0 (omega arith))
  last_decision-Agree c d (suc i) h =
      ap₂ decided (h (suc i) (omega arith)) (last_decision-Agree c d i (λ j k. h j (omega arith)))

  pub held_target-Agree :
      (c d : Column (Option SignalDirection)) (i : ℕ)
      → Agree i c d
      → held_target P c i ≡ held_target P d i
  held_target-Agree c d i h =
      held_target-last_decision c i
      ∙ last_decision-Agree c d i h
      ∙ sym (held_target-last_decision d i)

  -- A decision that is never short.
  abbrev pub IsLongOnly : Option SignalDirection → Type 0
  IsLongOnly none = Unit
  IsLongOnly (some d) = same_direction d short ≡ false

  or_flat-long :
      (a : Option SignalDirection) → IsLongOnly a → same_direction (or_flat a) short ≡ false
  or_flat-long none h = refl
  or_flat-long (some d) h = h

  decided-long :
      (a : Option SignalDirection) (d : SignalDirection)
      → IsLongOnly a
      → same_direction d short ≡ false
      → same_direction (decided a d) short ≡ false
  decided-long none d h k = k
  decided-long (some e) d h k = h

  last_decision-long :
      (c : Column (Option SignalDirection)) (i : ℕ)
      → ((j : ℕ) → IsLongOnly (c j))
      → same_direction (last_decision c i) short ≡ false
  unfolding last_decision
  last_decision-long c zero h = or_flat-long (c 0) (h 0)
  last_decision-long c (suc i) h =
      decided-long (c (suc i)) (last_decision c i) (h (suc i)) (last_decision-long c i h)

  pub held_target-long :
      (c : Column (Option SignalDirection)) (i : ℕ)
      → ((j : ℕ) → IsLongOnly (c j))
      → same_direction (held_target P c i) short ≡ false
  held_target-long c i h = rw (held_target-last_decision c i) (last_decision-long c i h)

  pub shift-Agree :
      {A : Type 0} (c d : Column (Option A)) (i : ℕ) → Agree i c d → Agree i (P.shift c) (P.shift d)
  shift-Agree c d i h zero k = L.shift_first c ∙ sym (L.shift_first d)
  shift-Agree c d i h (suc j) k = L.shift_next c j ∙ h j (omega arith) ∙ sym (L.shift_next d j)
