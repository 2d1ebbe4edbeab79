-- ===== src/Outcome.antt =====
-- What a call gives: a value, an exception, or behaviour that C++ leaves undefined.
use ice_log.Prelude.{◌≡◌, refl, Bool, true, false}
use ice_log.Text.{Text}

pub data Exception : Type 0 where
  invalid_argument : Exception
  out_of_range : Exception
  runtime_error : Text → Exception

pub data Outcome {ℓ} (A : Type ℓ) : Type ℓ where
  ok : A → Outcome A
  thrown : Exception → Outcome A
  undefined : Outcome A

infixl 5 ◌>>=◌
abbrev pub ◌>>=◌ {ℓ κ} : {X : Type ℓ} {Y : Type κ} → Outcome X → (X → Outcome Y) → Outcome Y
undefined >>= next = undefined
thrown e >>= next = thrown e
ok x >>= next = next x

-- Where a chain ends in a value, its first step gave one, and the rest made this value of it.
pub >>=-eq-ok {ℓ κ} :
    {X : Type ℓ} {Y : Type κ} (first : Outcome X) (next : X → Outcome Y) {y : Y}
    → (first >>= next) ≡ ok y
    → (x : X) × (next x ≡ ok y) × (first ≡ ok x)
>>=-eq-ok undefined next h = cc
>>=-eq-ok (thrown e) next h = cc
>>=-eq-ok (ok x) next h = (x, h, refl)

abbrev pub is_defined {ℓ} : {X : Type ℓ} → Outcome X → Bool
is_defined undefined = false
is_defined (thrown e) = true
is_defined (ok x) = true

-- A chain of steps that are defined is.
pub >>=-is_defined {ℓ κ} :
    {X : Type ℓ} {Y : Type κ} (first : Outcome X) (next : X → Outcome Y)
    → is_defined first ≡ true
    → ((x : X) → is_defined (next x) ≡ true)
    → is_defined (first >>= next) ≡ true
>>=-is_defined undefined next h k = h
>>=-is_defined (thrown e) next h k = refl
>>=-is_defined (ok x) next h k = k x
