-- ===== src/Indicators/Causal.antt =====
-- The averages do not look ahead (services/quant/indicators/moving_average.py, macd.py): on a longer
-- series they begin with what they are on the shorter.
use quantora.Prelude.{
  ℕ, suc, ◌-◌ as minus, ◌≤◌, ◌≡◌, refl, sym, ap, ◌∙◌, true, false, not, ltb, Bool-cases, inl, inr,
  Option, none, some, List, [], ◌∷◌, ◌++◌, map, length, take, length-append, row_by_row, ok,
  value_error, >>=-eq-ok, raise_if-ok, ok_injective, arith,
}
use quantora.Float.{Floats}
use quantora.Indicators.{
  Rolling, validate_window, replicate, drop, known_values, restored, both, ema_from, ema_values,
  ema, MacdLines, macd_lines, macd,
}
use quantora.Indicators.Continued.{
  Extends, Extends, Extends-prepend, Extends-append, map-none, take-append, drop-append,
  length-replicate, length-drop, length-map, known_values-append, row_by_row-append,
  restored-append, Extends-more, map-append, length-restored,
}

module _ (F : Floats) where
  open F use {Number, num, sub as ◌-◌}

  infixl 65 ◌-◌
  ema_from-append :
      (alpha current : Number) (xs ys : List Number)
      → Extends (ema_from F alpha current xs) (ema_from F alpha current (xs ++ ys))
  unfolding ema_from
  ema_from-append alpha current [] ys = (ema_from F alpha current ys, refl)
  ema_from-append alpha current (x ∷ xs) ys =
      let next = F.add (F.mul alpha x) (F.mul (num 1 - alpha) current) in
      Extends-prepend (some next) (ema_from F alpha next xs) (ema_from F alpha next (xs ++ ys))
        (ema_from-append alpha next xs ys)

  length-ema_from :
      (alpha current : Number) (xs : List Number) → length (ema_from F alpha current xs) ≡ length xs
  unfolding ema_from
  length-ema_from alpha current [] = refl
  length-ema_from alpha current (x ∷ xs) =
      ap suc (length-ema_from alpha (F.add (F.mul alpha x) (F.mul (num 1 - alpha) current)) xs)

  module _ (R : Rolling Number) where
    length-ema_values :
        (span : ℕ) (xs : List Number)
        → ltb span 1 ≡ false
        → length (ema_values F R span xs) ≡ length xs
    unfolding ema_values
    length-ema_values span xs positive = elim (Bool-cases (ltb (length xs) span)) [
      | inl short ↦ rw (short, ema_values) (length-map (λ v. none) xs)
      | inr full ↦
          rw (full, ema_values, length-append, length-replicate, length-ema_from, length-drop)
            (ground arith)
    ]

    -- The averages where there are values enough for the seed.
    abbrev seeded : ℕ → List Number → List (Option Number)
    seeded span xs =
        let alpha = F.div (num 2) (F.add (num span) (num 1)) in
        let seed = R.mean (take span xs) in
        replicate (minus span 1) none ++ (some seed ∷ ema_from F alpha seed (drop span xs))

    seeded-Extends :
        (span : ℕ) (xs ys : List Number)
        → span ≤ length xs
        → Extends (seeded span xs) (seeded span (xs ++ ys))
    seeded-Extends span xs ys enough =
        let alpha = F.div (num 2) (F.add (num span) (num 1)) in
        let seed = R.mean (take span xs) in
        rw (take-append span xs ys enough, drop-append span xs ys enough)
          (Extends-append (replicate (minus span 1) none)
            (some seed ∷ ema_from F alpha seed (drop span xs))
            (some seed ∷ ema_from F alpha seed (drop span xs ++ ys))
            (Extends-prepend (some seed) (ema_from F alpha seed (drop span xs))
              (ema_from F alpha seed (drop span xs ++ ys))
              (ema_from-append alpha seed (drop span xs) ys)))

    ema_values-short :
        (span : ℕ) (xs : List Number)
        → ltb (length xs) span ≡ true
        → ema_values F R span xs ≡ map (λ v. none) xs
    unfolding ema_values
    ema_values-short span xs h = rw h refl

    ema_values-seeded :
        (span : ℕ) (xs : List Number)
        → ltb (length xs) span ≡ false
        → ema_values F R span xs ≡ seeded span xs
    unfolding ema_values
    ema_values-seeded span xs h = rw h refl

    ema_values-Extends :
        (span : ℕ) (xs ys : List Number)
        → ltb span 1 ≡ false
        → Extends (ema_values F R span xs) (ema_values F R span (xs ++ ys))
    ema_values-Extends span xs ys positive = elim (Bool-cases (ltb (length xs) span)) [
      | inl short ↦ elim (Bool-cases (ltb (length (xs ++ ys)) span)) [
        | inl still ↦
            rw (ema_values-short span xs short, ema_values-short span (xs ++ ys) still)
              (map (λ v. none) ys, map-append (λ v. none) xs ys)
        | inr full ↦
            rw (ema_values-short span xs short, ema_values-seeded span (xs ++ ys) full)
              (Extends-more (map (λ v. none) xs) (replicate (minus span 1) none) _
                (map-none xs (minus span 1) (ground arith)))
      ]
      | inr full ↦
          let longer =
            ema_values-seeded span (xs ++ ys) (rw (length-append xs ys) (ground arith)) in
          rw (ema_values-seeded span xs full, longer) (seeded-Extends span xs ys (ground arith))
    ]

    -- The lines from the two averages, and those of a MACD whose spans are accepted.
    abbrev lines_from : ℕ → List (Option Number) → List (Option Number) → MacdLines F R
    lines_from signal fast_ema slow_ema =
        let line = row_by_row (both F.sub) fast_ema slow_ema in
        macd_lines F R line (ema_values F R signal (known_values line))

    abbrev macd_values : ℕ → ℕ → ℕ → List Number → MacdLines F R
    macd_values fast slow signal xs =
        lines_from signal (ema_values F R fast xs) (ema_values F R slow xs)

    same_lines :
        (signal : ℕ) (a b c d values : List (Option Number)) (lines : MacdLines F R)
        → a ≡ c
        → b ≡ d
        → ema_values F R signal (known_values (row_by_row (both F.sub) c d)) ≡ values
        → macd_lines F R (row_by_row (both F.sub) c d) values ≡ lines
        → lines_from signal a b ≡ lines
    same_lines signal a b c d values lines p q r h = rw (p, q, r) h

    abbrev AreAccepted : ℕ → ℕ → ℕ → Type 0
    AreAccepted fast slow signal =
        (not (ltb fast slow) ≡ false)
        × (ltb fast 1 ≡ false)
        × (ltb slow 1 ≡ false)
        × (ltb signal 1 ≡ false)

    ema-ok :
        (xs : List Number) (span : ℕ) (c : List (Option Number))
        → ema F R xs span ≡ ok c
        → (ltb span 1 ≡ false) × (ema_values F R span xs ≡ c)
    unfolding ema validate_window
    ema-ok xs span c h =
        let (positive, e) =
          raise_if-ok (ltb span 1) (value_error "window") (ok (ema_values F R span xs)) h in
        (positive, ok_injective e)

    macd-ok :
        (xs : List Number) (fast slow signal : ℕ) (lines : MacdLines F R)
        → macd F R xs fast slow signal ≡ ok lines
        → AreAccepted fast slow signal × (macd_values fast slow signal xs ≡ lines)
    unfolding macd
    macd-ok xs fast slow signal lines h =
        let (a, h₁) = raise_if-ok (not (ltb fast slow)) (value_error "fast") _ h in
        let (fast_ema, fast_ok, h₂) = >>=-eq-ok (ema F R xs fast) _ h₁ in
        let (slow_ema, slow_ok, h₃) = >>=-eq-ok (ema F R xs slow) _ h₂ in
        let line = row_by_row (both F.sub) fast_ema slow_ema in
        let (values, signal_ok, h₄) = >>=-eq-ok (ema F R (known_values line) signal) _ h₃ in
        let (b, e₁) = ema-ok xs fast fast_ema fast_ok in
        let (c, e₂) = ema-ok xs slow slow_ema slow_ok in
        let (d, e₃) = ema-ok (known_values line) signal values signal_ok in
        (
          (a, b, c, d),
          same_lines signal _ _ fast_ema slow_ema values lines e₁ e₂ e₃ (ok_injective h₄),
        )

    macd-returns :
        (xs : List Number) (fast slow signal : ℕ)
        → AreAccepted fast slow signal
        → macd F R xs fast slow signal ≡ ok (macd_values fast slow signal xs)
    unfolding macd ema validate_window
    macd-returns xs fast slow signal (a, b, c, d) = rw (a, b, c, d) refl

    -- The lines of a MACD over the other values of a longer series.
    abbrev pub LinesExtend : MacdLines F R → MacdLines F R → Type 0
    LinesExtend lines longer =
        Extends lines.macd longer.macd
        × Extends lines.signal longer.signal
        × Extends lines.histogram longer.histogram

    macd_lines-Extends :
        (signal : ℕ) (line longer : List (Option Number))
        → ltb signal 1 ≡ false
        → Extends line longer
        → LinesExtend
            (macd_lines F R line (ema_values F R signal (known_values line)))
            (macd_lines F R longer (ema_values F R signal (known_values longer)))
    unfolding macd_lines
    macd_lines-Extends signal line longer d (rest, p) =
        let values = ema_values F R signal (known_values line) in
        let more = ema_values F R signal (known_values longer) in
        let grown : Extends values more =
          rw (← p, known_values-append line rest)
            (ema_values-Extends signal (known_values line) (known_values rest) d) in
        let same = sym (length-ema_values signal (known_values line) d) in
        let signals = restored-append line longer values more same (rest, p) grown in
        (
          (rest, p),
          signals,
          row_by_row-append (both F.sub) line longer (restored line values) (restored longer more)
              (sym (length-restored line values)) (rest, p) signals,
        )

    macd_values-Extends :
        (fast slow signal : ℕ) (xs ys : List Number)
        → AreAccepted fast slow signal
        → LinesExtend (macd_values fast slow signal xs) (macd_values fast slow signal (xs ++ ys))
    unfolding macd_lines
    macd_values-Extends fast slow signal xs ys (a, b, c, d) =
        let fast_ema = ema_values-Extends fast xs ys b in
        let slow_ema = ema_values-Extends slow xs ys c in
        let line = row_by_row (both F.sub) (ema_values F R fast xs) (ema_values F R slow xs) in
        let longer =
          row_by_row (both F.sub) (ema_values F R fast (xs ++ ys))
            (ema_values F R slow (xs ++ ys)) in
        let lines =
          row_by_row-append (both F.sub) (ema_values F R fast xs) (ema_values F R fast (xs ++ ys))
            (ema_values F R slow xs) (ema_values F R slow (xs ++ ys))
            (length-ema_values fast xs b ∙ sym (length-ema_values slow xs c)) fast_ema slow_ema in
        macd_lines-Extends signal line longer d lines

    -- No look-ahead: when the MACD of a series returns, that of a longer series returns, and each of its
    -- lines begins with the line of the shorter.
    pub macd-Extends :
        (xs ys : List Number) (fast slow signal : ℕ) (lines : MacdLines F R)
        → macd F R xs fast slow signal ≡ ok lines
        → (longer : MacdLines F R) × (macd F R (xs ++ ys) fast slow signal ≡ ok longer)
          × LinesExtend lines longer
    macd-Extends xs ys fast slow signal lines returned =
        let (accepted, e) = macd-ok xs fast slow signal lines returned in
        (
          macd_values fast slow signal (xs ++ ys),
          macd-returns (xs ++ ys) fast slow signal accepted,
          rw (← e) (macd_values-Extends fast slow signal xs ys accepted),
        )
