-- ===== src/Strategies/Bollinger/Causal.antt =====
-- The Bollinger rule does not look ahead, and is not short where it may not be
-- (services/quant/strategies/bollinger.py).
use quantora.Prelude.{ℕ, ◌≡◌, refl, ap, ap₂, false, ◌&&◌, ◌||◌, Bool-cases, inl, inr, some, arith}
use quantora.Float.{Floats}
use quantora.Strategies.Base.{short, same_direction}
use quantora.Strategies.Columns.{Agree, Pandas, IsPandas, row_of}
use quantora.Strategies.Columns.Held.{held_target-Agree, held_target-long, shift-Agree, IsLongOnly}
use quantora.Strategies.Bollinger.{
  BollingerParams, Bands, Cells, below_lower, above_upper, crossed_above_middle,
  crossed_below_middle, entry_target, entry_reason, is_changed, cells_at, entry_targets,
  bollinger_directions, bollinger_signals,
}

module _ (F : Floats) (P : Pandas F.Number) (L : IsPandas P) where
  entry_target-long :
      (params : BollingerParams F) (c : Cells F)
      → params.allow_short ≡ false
      → IsLongOnly P L (entry_target F params c)
  unfolding entry_target
  entry_target-long params c off = elim (Bool-cases (above_upper F c)) [
    | inl over ↦ rw (over, off) refl
    | inr inside ↦ elim (Bool-cases (below_lower F c)) [
      | inl under ↦ rw (inside, under) refl
      | inr within ↦
          elim (Bool-cases
            (params.exit_at_middle && (crossed_above_middle F c || crossed_below_middle F c))) [
              | inl crossed ↦ rw (inside, within, crossed) refl
              | inr still ↦ rw (inside, within, still) tt
            ]
    ]
  ]

  -- With pandas as documented: with `allow_short` off, no row has a short target.
  pub bollinger_signals-long :
      (params : BollingerParams F) (b : Bands F) (i : ℕ)
      → params.allow_short ≡ false
      → same_direction (bollinger_signals F P params b i).direction short ≡ false
  unfolding bollinger_signals row_of bollinger_directions entry_targets
  bollinger_signals-long params b i off =
      held_target-long P L (entry_targets F P params b) i
        (λ j. entry_target-long params (cells_at F P b j) off)

  -- Bands that are the same up to a row.
  pub record HaveSameRows (i : ℕ) (b d : Bands F) : Type 0 where
    pub close : Agree i b.close d.close
    pub middle : Agree i b.middle d.middle
    pub lower : Agree i b.lower d.lower
    pub upper : Agree i b.upper d.upper

  cells_at-Agree :
      (b d : Bands F) (i : ℕ) → HaveSameRows i b d → Agree i (cells_at F P b) (cells_at F P d)
  unfolding cells_at
  cells_at-Agree b d i same j k =
      rw
        (
          same.close j k,
          shift-Agree P L b.close d.close i same.close j k,
          same.middle j k,
          shift-Agree P L b.middle d.middle i same.middle j k,
          same.lower j k,
          same.upper j k,
        )
        refl

  bollinger_directions-Agree :
      (params : BollingerParams F) (b d : Bands F) (i : ℕ)
      → HaveSameRows i b d
      → Agree i (bollinger_directions F P params b) (bollinger_directions F P params d)
  unfolding bollinger_directions entry_targets
  bollinger_directions-Agree params b d i same j k =
      held_target-Agree P L (entry_targets F P params b) (entry_targets F P params d) j
        (λ l m. ap (entry_target F params) (cells_at-Agree b d i same l (omega arith)))

  -- No look-ahead, with pandas as documented: closes and bands that are the same up to a row give the same signal there, its
  -- direction, strength and reason.
  pub bollinger_signals-Agree :
      (params : BollingerParams F) (b d : Bands F) (i : ℕ)
      → HaveSameRows i b d
      → bollinger_signals F P params b i ≡ bollinger_signals F P params d i
  unfolding bollinger_signals
  bollinger_signals-Agree params b d i same =
      let directions = bollinger_directions-Agree params b d i same in
      let shifted =
        shift-Agree P L (λ j. some (bollinger_directions F P params b j))
          (λ j. some (bollinger_directions F P params d j)) i (λ j k. ap some (directions j k)) i
          (omega arith) in
      ap₂ (row_of F) (directions i (omega arith)) (
        ap₂ (entry_reason F params) (cells_at-Agree b d i same i (omega arith))
          (ap₂ (is_changed F) shifted (directions i (omega arith))))
