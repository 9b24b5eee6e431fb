-- ===== src/Data/Validation/Rows.antt =====
-- The rules on the values of a row, and what is meant by a valid row (services/quant/data/validation.py).
use quantora.Prelude.{
  All-imp, ℕ, ◌≡◌, refl, Bool, true, false, not, ◌||◌, ◌==◌, Bool-cases, Option-cases, or-false,
  inl, inr, some, List, [], ◌∷◌, ◌++◌, String, All, arith,
}
use quantora.Float.{Floats, le}
use quantora.Data.Validation.{
  Violation, violation_if, PriceRow, CompleteRow, complete_row, complete_rows, count_missing,
  is_non_positive, has_negative_volume, is_high_below_low, is_open_out_of_range,
  is_close_out_of_range, count_rows, row_violation, check_values,
}

pub no_violation :
    (test : Bool) (rule : String) (count : ℕ) → violation_if test rule count ≡ [] → test ≡ false
no_violation true rule count h = cc
no_violation false rule count h = refl

pub append_empty : (vs ws : List Violation) → vs ++ ws ≡ [] → (vs ≡ []) × (ws ≡ [])
append_empty [] ws h = (refl, h)
append_empty (v ∷ vs) ws h = cc

pub is_zero : (n : ℕ) → not (n == 0) ≡ false → n ≡ 0
is_zero n h = ground (arith, h)

pub empty_append : (vs ws : List Violation) → vs ≡ [] → ws ≡ [] → vs ++ ws ≡ []
empty_append [] ws h k = k
empty_append (v ∷ vs) ws h k = cc

pub no_test :
    (test : Bool) (rule : String) (count : ℕ) → test ≡ false → violation_if test rule count ≡ []
no_test true rule count h = cc
no_test false rule count h = refl

pub zero_test : (n : ℕ) → n ≡ 0 → not (n == 0) ≡ false
zero_test n h = rw h refl

module _ (F : Floats) where
  open F use {Number, num, lt}

  -- What is meant by a valid row.
  pub record IsValid (c : CompleteRow F) : Type 0 where
    pub open_positive : lt (num 0) c.open_price ≡ true
    pub high_positive : lt (num 0) c.high ≡ true
    pub low_positive : lt (num 0) c.low ≡ true
    pub close_positive : lt (num 0) c.close ≡ true
    pub adj_close_positive : lt (num 0) c.adj_close ≡ true
    pub volume_nonneg : lt c.volume (num 0) ≡ false
    pub low_le_high : lt c.high c.low ≡ false
    pub low_le_open : lt c.open_price c.low ≡ false
    pub open_le_high : lt c.high c.open_price ≡ false
    pub low_le_close : lt c.close c.low ≡ false
    pub close_le_high : lt c.high c.close ≡ false

  abbrev pub IsValidRow : PriceRow F → Type 0
  IsValidRow r = (c : CompleteRow F) × (complete_row F r ≡ some c) × IsValid c

  pub positive : (b : Bool) → not b ≡ false → b ≡ true
  positive true h = refl
  positive false h = cc

  -- A test that no row passes.
  zero_counted :
      (test : CompleteRow F → Bool) (rows : List (CompleteRow F))
      → count_rows F test rows ≡ 0
      → All (λ c. test c ≡ false) rows
  unfolding count_rows
  zero_counted test [] h = tt
  zero_counted test (r ∷ rs) h = elim (Bool-cases (test r)) [
    | inl passed ↦ absurd (omega (arith, rw passed at h))
    | inr failed ↦ (failed, zero_counted test rs (rw failed at h))
  ]

  none_counted :
      (test : CompleteRow F → Bool) (rule : String) (rows : List (CompleteRow F))
      → row_violation F rule test rows ≡ []
      → All (λ c. test c ≡ false) rows
  unfolding row_violation
  none_counted test rule rows h =
      zero_counted test rows (is_zero (count_rows F test rows) (no_violation _ rule _ h))

  counted_none :
      (test : CompleteRow F → Bool) (rule : String) (rows : List (CompleteRow F))
      → All (λ c. test c ≡ false) rows
      → row_violation F rule test rows ≡ []
  unfolding row_violation count_rows
  counted_none test rule [] h = refl
  counted_none test rule (r ∷ rs) (failed, others) = rw failed (counted_none test rule rs others)

  -- The rules on complete rows, of one row.
  abbrev Passes : CompleteRow F → Type 0
  Passes c =
      (is_non_positive F c ≡ false)
      × (has_negative_volume F c ≡ false)
      × (is_high_below_low F c ≡ false)
      × (is_open_out_of_range F c ≡ false)
      × (is_close_out_of_range F c ≡ false)

  Passes-IsValid : (c : CompleteRow F) → Passes c → IsValid c
  unfolding is_non_positive has_negative_volume is_high_below_low is_open_out_of_range
      is_close_out_of_range
  Passes-IsValid c (p, v, hl, o, cl) =
      let low = λ (x : Number). le F x (num 0) in
      let (q1, p5) =
        or-false (low c.open_price || low c.high || low c.low || low c.close) (low c.adj_close) p in
      let (q2, p4) = or-false (low c.open_price || low c.high || low c.low) (low c.close) q1 in
      let (q3, p3) = or-false (low c.open_price || low c.high) (low c.low) q2 in
      let (p1, p2) = or-false (low c.open_price) (low c.high) q3 in
      let (o1, o2) = or-false (lt c.open_price c.low) (lt c.high c.open_price) o in
      let (c1, c2) = or-false (lt c.close c.low) (lt c.high c.close) cl in
      record {
        open_positive = positive _ p1;
        high_positive = positive _ p2;
        low_positive = positive _ p3;
        close_positive = positive _ p4;
        adj_close_positive = positive _ p5;
        volume_nonneg = v;
        low_le_high = hl;
        low_le_open = o1;
        open_le_high = o2;
        low_le_close = c1;
        close_le_high = c2;
      }

  IsValid-Passes : (c : CompleteRow F) → IsValid c → Passes c
  unfolding is_non_positive has_negative_volume is_high_below_low is_open_out_of_range
      is_close_out_of_range
  IsValid-Passes c h = (
    rw (h.open_positive, h.high_positive, h.low_positive, h.close_positive, h.adj_close_positive)
        refl,
    h.volume_nonneg,
    h.low_le_high,
    rw (h.low_le_open, h.open_le_high) refl,
    rw (h.low_le_close, h.close_le_high) refl,
  )

  -- No violation of a value rule.
  all_pass :
      (rows : List (CompleteRow F))
      → All (λ c. is_non_positive F c ≡ false) rows
      → All (λ c. has_negative_volume F c ≡ false) rows
      → All (λ c. is_high_below_low F c ≡ false) rows
      → All (λ c. is_open_out_of_range F c ≡ false) rows
      → All (λ c. is_close_out_of_range F c ≡ false) rows
      → All Passes rows
  all_pass [] p v h o c = tt
  all_pass (r ∷ rs) (p, ps) (v, vs) (h, hs) (o, os) (c, cs) =
      ((p, v, h, o, c), all_pass rs ps vs hs os cs)

  valid_head :
      (r : PriceRow F) (rs : List (PriceRow F)) (c : CompleteRow F)
      → complete_row F r ≡ some c
      → (count_missing F rs ≡ 0 → All Passes (complete_rows F rs) → All IsValidRow rs)
      → count_missing F rs ≡ 0
      → All Passes (c ∷ complete_rows F rs)
      → All IsValidRow (r ∷ rs)
  valid_head r rs c found rest e (first, others) =
      ((c, found, Passes-IsValid c first), rest e others)

  rows_of :
      (frame : List (PriceRow F))
      → count_missing F frame ≡ 0
      → All Passes (complete_rows F frame)
      → All IsValidRow frame
  unfolding count_missing complete_rows
  rows_of [] e h = tt
  rows_of (r ∷ rs) e h = elim (Option-cases (complete_row F r)) [
    | inl missing ↦ absurd (omega (arith, rw (missing, count_missing) at e))
    | inr (c, found) ↦
        valid_head r rs c found (λ k l. rows_of rs k l) (rw (found, count_missing) at e)
          (rw (found, complete_rows) at h)
  ]

  counted_rows :
      (frame : List (PriceRow F))
      → All IsValidRow frame
      → (count_missing F frame ≡ 0) × All Passes (complete_rows F frame)
  unfolding count_missing complete_rows
  counted_rows [] h = (refl, tt)
  counted_rows (r ∷ rs) ((c, found, valid), others) =
      let (none_missing, rest) = counted_rows rs others in
      (
        rw (found, count_missing) none_missing,
        rw (found, complete_rows) (IsValid-Passes c valid, rest),
      )

  pub check_values-IsValidRow :
      (frame : List (PriceRow F)) → check_values F frame ≡ [] → All IsValidRow frame
  unfolding check_values
  check_values-IsValidRow frame h =
      let rows = complete_rows F frame in
      let (missing, h1) = append_empty _ _ h in
      let (price, h2) = append_empty _ _ h1 in
      let (volume, h3) = append_empty _ _ h2 in
      let (high, h4) = append_empty _ _ h3 in
      let (open_price, close) = append_empty _ _ h4 in
      rows_of frame (is_zero (count_missing F frame) (no_violation _ "missing_value" _ missing)) (
        all_pass rows (none_counted (is_non_positive F) "non_positive_price" rows price)
          (none_counted (has_negative_volume F) "negative_volume" rows volume)
          (none_counted (is_high_below_low F) "high_below_low" rows high)
          (none_counted (is_open_out_of_range F) "open_out_of_range" rows open_price)
          (none_counted (is_close_out_of_range F) "close_out_of_range" rows close))

  pub IsValidRow-check_values :
      (frame : List (PriceRow F)) → All IsValidRow frame → check_values F frame ≡ []
  unfolding check_values
  IsValidRow-check_values frame h =
      let rows = complete_rows F frame in
      let (none_missing, passed) = counted_rows frame h in
      empty_append _ _ (no_test _ "missing_value" _ (zero_test _ none_missing)) (
        empty_append _ _
          (counted_none (is_non_positive F) "non_positive_price" rows
            (All-imp (λ (c : CompleteRow F) (k : Passes c). k.0) rows passed))
          (empty_append _ _
            (counted_none (has_negative_volume F) "negative_volume" rows
              (All-imp (λ (c : CompleteRow F) (k : Passes c). k.1) rows passed))
            (empty_append _ _
              (counted_none (is_high_below_low F) "high_below_low" rows
                (All-imp (λ (c : CompleteRow F) (k : Passes c). k.2) rows passed))
              (empty_append _ _
                (counted_none (is_open_out_of_range F) "open_out_of_range" rows
                  (All-imp (λ (c : CompleteRow F) (k : Passes c). k.3) rows passed))
                (counted_none (is_close_out_of_range F) "close_out_of_range" rows
                  (All-imp (λ (c : CompleteRow F) (k : Passes c). k.4) rows passed))))))
