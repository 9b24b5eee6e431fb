-- ===== src/Indicators/Continued.antt =====
-- Columns that continue others, and what the indicators do to them (services/quant/indicators).
use quantora.Prelude.{
  ℕ, zero, suc, ◌-◌ as minus, ◌≤◌, ◌≡◌, refl, sym, ap, ◌∙◌, Option, none, some, List, [], ◌∷◌, ◌++◌,
  append_assoc, map, length, take, row_by_row, arith,
}
use quantora.Indicators.{replicate, drop, known_values, restored}

-- A column continues another.
abbrev pub Extends {ℓ} : {A : Type ℓ} → List A → List A → Type ℓ
Extends {A = A} xs longer = (rest : List A) × (xs ++ rest ≡ longer)

pub Extends-prepend {ℓ} :
    {A : Type ℓ} (x : A) (xs longer : List A) → Extends xs longer → Extends (x ∷ xs) (x ∷ longer)
Extends-prepend x xs longer (rest, e) = (rest, ap (λ t. x ∷ t) e)

pub Extends-append {ℓ} :
    {A : Type ℓ} (front xs longer : List A)
    → Extends xs longer
    → Extends (front ++ xs) (front ++ longer)
Extends-append front xs longer (rest, e) =
    (rest, append_assoc front xs rest ∙ ap (λ t. front ++ t) e)

pub map-none {ℓ κ} :
    {A : Type ℓ} {B : Type κ} (xs : List A) (n : ℕ)
    → length xs ≤ n
    → Extends {A = Option B} (map (λ v. none) xs) (replicate n none)
unfolding replicate
map-none [] n h = (replicate n none, refl)
map-none (x ∷ xs) zero h = absurd (omega arith)
map-none (x ∷ xs) (suc n) h =
    Extends-prepend none (map (λ v. none) xs) (replicate n none) (map-none xs n (omega arith))

pub take-append {ℓ} :
    {A : Type ℓ} (n : ℕ) (xs ys : List A) → n ≤ length xs → take n (xs ++ ys) ≡ take n xs
take-append zero xs ys h = refl
take-append (suc n) [] ys h = absurd (omega arith)
take-append (suc n) (x ∷ xs) ys h = ap (λ t. x ∷ t) (take-append n xs ys (omega arith))

pub drop-append {ℓ} :
    {A : Type ℓ} (n : ℕ) (xs ys : List A) → n ≤ length xs → drop n (xs ++ ys) ≡ drop n xs ++ ys
unfolding drop
drop-append zero xs ys h = refl
drop-append (suc n) [] ys h = absurd (omega arith)
drop-append (suc n) (x ∷ xs) ys h = drop-append n xs ys (omega arith)

pub length-replicate {ℓ} : {A : Type ℓ} (n : ℕ) (a : A) → length (replicate n a) ≡ n
unfolding replicate
length-replicate zero a = refl
length-replicate (suc n) a = ap suc (length-replicate n a)

pub length-drop {ℓ} : {A : Type ℓ} (n : ℕ) (xs : List A) → length (drop n xs) ≡ minus (length xs) n
unfolding drop
length-drop zero xs = omega arith
length-drop (suc n) [] = omega arith
length-drop (suc n) (x ∷ xs) = omega (arith, length-drop n xs)

pub length-map {ℓ κ} :
    {A : Type ℓ} {B : Type κ} (f : A → B) (xs : List A) → length (map f xs) ≡ length xs
length-map f [] = refl
length-map f (x ∷ xs) = ap suc (length-map f xs)

pub known_values-append {ℓ} :
    {A : Type ℓ} (xs ys : List (Option A))
    → known_values (xs ++ ys) ≡ known_values xs ++ known_values ys
unfolding known_values
known_values-append [] ys = refl
known_values-append (none ∷ xs) ys = known_values-append xs ys
known_values-append (some x ∷ xs) ys = ap (λ t. x ∷ t) (known_values-append xs ys)

pub row_by_row-append {ℓ κ μ} :
    {A : Type ℓ} {B : Type κ} {C : Type μ} (op : A → B → C) (xs longer : List A) (ys wider : List B)
    → length xs ≡ length ys
    → Extends xs longer
    → Extends ys wider
    → Extends (row_by_row op xs ys) (row_by_row op longer wider)
row_by_row-append op [] longer ys wider h e k = (row_by_row op longer wider, refl)
row_by_row-append op (x ∷ xs) longer [] wider h e k = absurd (omega arith)
row_by_row-append op (x ∷ xs) longer (y ∷ ys) wider h (e, p) (k, q) =
    let (rest, r) =
      row_by_row-append op xs (xs ++ e) ys (ys ++ k) (omega arith) (e, refl) (k, refl) in
    (rest, rw (← p, ← q) (ap (λ t. op x y ∷ t) r))

pub restored-append {ℓ} :
    {A : Type ℓ} (line longer : List (Option A)) (values more : List (Option A))
    → length (known_values line) ≡ length values
    → Extends line longer
    → Extends values more
    → Extends (restored line values) (restored longer more)
unfolding restored known_values
restored-append [] longer values more h e k = (restored longer more, refl)
restored-append (none ∷ line) longer values more h (e, p) k =
    let (rest, r) = restored-append line (line ++ e) values more h (e, refl) k in
    (rest, rw (← p) (ap (λ t. none ∷ t) r))
restored-append (some x ∷ line) longer [] more h e k = absurd (omega arith)
restored-append (some x ∷ line) longer (v ∷ values) more h (e, p) (k, q) =
    let (rest, r) =
      restored-append line (line ++ e) values (values ++ k) (omega arith) (e, refl) (k, refl) in
    (rest, rw (← p, ← q) (ap (λ t. v ∷ t) r))

pub Extends-more {ℓ} :
    {A : Type ℓ} (xs longer more : List A) → Extends xs longer → Extends xs (longer ++ more)
Extends-more xs longer more (rest, e) =
    (rest ++ more, sym (append_assoc xs rest more) ∙ ap (λ t. t ++ more) e)

pub map-append {ℓ κ} :
    {A : Type ℓ} {B : Type κ} (f : A → B) (xs ys : List A) → map f xs ++ map f ys ≡ map f (xs ++ ys)
map-append f [] ys = refl
map-append f (x ∷ xs) ys = ap (λ t. f x ∷ t) (map-append f xs ys)

pub length-restored {ℓ} :
    {A : Type ℓ} (line values : List (Option A)) → length (restored line values) ≡ length line
unfolding restored
length-restored [] values = refl
length-restored (none ∷ line) values = ap suc (length-restored line values)
length-restored (some x ∷ line) [] = ap suc (length-restored line [])
length-restored (some x ∷ line) (v ∷ values) = ap suc (length-restored line values)
