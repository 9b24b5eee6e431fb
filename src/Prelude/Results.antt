-- ===== src/Prelude/Results.antt =====
-- Fallible code: a value, or the exception that was raised.
use Prim.Native.String.{String}
use mathlib.Core.Path.{◌≡◌, refl}
use mathlib.Core.Bool.{Bool, true, false}

-- `value_error` carries the name of the rejected field.
pub data Error : Type 0 where
  value_error : String → Error
  assertion_error : Error
  index_error : Error
  type_error : String → Error
  key_error : String → Error
  zero_division : Error
  unknown_symbol : String → Error
  unknown_universe : String → Error
  invalid_request : String → Error
  invalid_parameters : String → Error
  insufficient_data : String → Error
  unknown_strategy : String → Error
  not_implemented : String → Error
  pair_data_missing : String → Error
  provider_error : String → Error
  data_validation : String → Error

-- The exception stands first: it is what a caller has to think of.
pub data Result {ℓ} (Value : Type ℓ) : Type ℓ where
  err : Error → Result Value
  ok : Value → Result Value

infixl 5 ◌>>=◌ ◌>>◌
-- What comes after a call runs on the value that it returns.
abbrev pub ◌>>=◌ {ℓ κ} : {V : Type ℓ} {W : Type κ} → Result V → (V → Result W) → Result W
err raised >>= next = err raised
ok v >>= next = next v

-- A chain that returned: its first call did, and so did the rest.
pub >>=-eq-ok {ℓ κ} :
    {V : Type ℓ} {W : Type κ} (first : Result V) (next : V → Result W) {w : W}
    → (first >>= next) ≡ ok w
    → (v : V) × (first ≡ ok v) × (next v ≡ ok w)
>>=-eq-ok (err raised) next returned = cc
>>=-eq-ok (ok v) next returned = (v, refl, returned)

-- What comes after a statement.
abbrev pub ◌>>◌ {κ} : {W : Type κ} → Result (Unit {0}) → Result W → Result W
statement >> rest = statement >>= (λ done. rest)

-- `if test: raise e`
abbrev pub raise_if : Bool → Error → Result (Unit {0})
raise_if true e = err e
raise_if false e = ok tt

-- Code that got past a check.
pub raise_if-ok {ℓ} :
    {B : Type ℓ} (b : Bool) (e : Error) (r : Result B) {x : B}
    → (raise_if b e >> r) ≡ ok x
    → (b ≡ false) × (r ≡ ok x)
raise_if-ok true e r h = cc
raise_if-ok false e r h = (refl, h)

pub ok_injective {ℓ} : {V : Type ℓ} {v w : V} → ok v ≡ ok w → v ≡ w
ok_injective e = cc
