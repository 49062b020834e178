-- ===== src/Common/Outcome.antt =====
-- Python exceptions as values: a call returns, or raises one of the exceptions that the source
-- raises itself or that a built-in raises on the source's path.
use mathlib.Core.Path.{◌≡◌, refl}
use mathlib.Core.Logic.{◌⊎◌, inl, inr}
use mathlib.Core.Bool.{Bool, true, false}

pub data Exception : Type 0 where
  encoding_error script_error value_error index_error key_error overflow_error : Exception
  bkey_error type_error transaction_error assertion_error attribute_error wallet_error : Exception

pub data Result {ℓ} (A : Type ℓ) : Type ℓ where
  ok : A → Result A
  err : Exception → Result A

-- An exception ends a chain of calls.
infixl 5 ◌>>◌ ◌>>=◌
abbrev pub ◌>>=◌ {ℓ κ} : {A : Type ℓ} {B : Type κ} → Result A → (A → Result B) → Result B
err e >>= next = err e
ok x >>= next = next x

abbrev pub ◌>>◌ {ℓ} : {B : Type ℓ} → Result (Unit {0}) → Result B → Result B
first >> second = first >>= λ x. second

-- `if not test: raise e`
abbrev pub guard : Bool → Exception → Result (Unit {0})
guard false e = err e
guard true e = ok tt

pub Result-cases {ℓ} :
    {A : Type ℓ} (r : Result A) → ((a : A) × (r ≡ ok a)) ⊎ ((e : Exception) × (r ≡ err e))
Result-cases (ok a) = inl (a, refl)
Result-cases (err e) = inr (e, refl)

-- A call that returns was reached through calls that return.
pub bind_ok {ℓ κ} :
    {A : Type ℓ} {B : Type κ} (first : Result A) (next : A → Result B) (y : B)
    → (first >>= next) ≡ ok y
    → (x : A) × (first ≡ ok x) × (next x ≡ ok y)
bind_ok (err e) next y h = cc
bind_ok (ok x) next y h = (x, refl, h)

-- A guard that lets a call return holds.
pub guard_ok {ℓ} :
    {B : Type ℓ} (test : Bool) (e : Exception) (rest : Result B) (y : B)
    → (guard test e >> rest) ≡ ok y
    → (test ≡ true) × (rest ≡ ok y)
guard_ok false e rest y h = cc
guard_ok true e rest y h = (refl, h)

-- The value of a call that returns is one.
pub ok_value {ℓ} : {A : Type ℓ} {x y : A} → ok x ≡ ok y → x ≡ y
ok_value {x = x} {y = y} e = let same : x ≡ y = cc in same
