-- ===== src/Prelude/Results.antt =====
-- Exceptions as values: the exception types that the program throws, each with its message.
use mathlib.Core.Path.{◌≡◌, refl}
use mathlib.Core.List.{List}
use mathlib.Core.Logic.{◌⊎◌, inl, inr}
use Prim.Native.Nat.{ℕ}

pub data Error : Type 0 where
  query_error : List ℕ → Error
  invalid_argument : List ℕ → Error
  out_of_range : List ℕ → Error
  runtime_error : List ℕ → Error
  bad_variant_access : Error
  bad_alloc : Error
  undefined_behaviour : Error

-- What a call gives: the exception that it throws, or its value.
pub data Result {ℓ} (Value : Type ℓ) : Type ℓ where
  err : Error → Result Value
  ok : Value → Result Value

infixl 5 ◌>>=◌
abbrev pub ◌>>=◌ {ℓ ℓ'} :
    {Value : Type ℓ} {Next : Type ℓ'} → Result Value → (Value → Result Next) → Result Next
(err thrown) >>= next = err thrown
(ok value) >>= next = next value

-- What is returned through a bind: both parts returned.
pub bind_ok {ℓ ℓ'} :
    {Value : Type ℓ} {Next : Type ℓ'} {y : Next} (r : Result Value) (next : Value → Result Next)
    → (r >>= next) ≡ ok y
    → (x : Value) × (r ≡ ok x) × (next x ≡ ok y)
bind_ok (err thrown) next e = cc
bind_ok (ok x) next e = (x, refl, e)

pub ok_inj {ℓ} : {A : Type ℓ} (a b : A) → ok a ≡ ok b → a ≡ b
ok_inj a b h = cc

pub Result-cases {ℓ} :
    {A : Type ℓ} (r : Result A) → ((e : Error) × (r ≡ err e)) ⊎ ((a : A) × (r ≡ ok a))
Result-cases (err e) = inl (e, refl)
Result-cases (ok a) = inr (a, refl)
