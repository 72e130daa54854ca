-- ===== src/Prelude/Exceptions.antt =====
-- What a C++ function returns or throws. An exception is its class with its message.
use Prim.Native.Nat.{ℕ}
use Prim.Native.String.{String}
use mathlib.Core.Path.{◌≡◌, refl}
use mathlib.Core.Bool.{Bool, true, false}

-- The return codes of libmdbx other than success that the program tells apart.
pub data ReturnCode : Type 0 where
  not_found key_exist incompatible einval eaccess result_true : ReturnCode
  other_code : ℕ → ReturnCode

pub data Exception : Type 0 where
  runtime_error logic_error length_error invalid_argument overflow_error : String → Exception
  -- `check_mdbx` of a code that is not success, with the caller's context
  mdbx_exception : ReturnCode → String → Exception

-- A call that returned, or what it threw.
pub data Result {ℓ} (A : Type ℓ) : Type ℓ where
  throw : Exception → Result A
  ok : A → Result A

-- `if (wrong) throw e;`
abbrev pub throw_if : Bool → Exception → Result (Unit {0})
throw_if false e = ok tt
throw_if true e = throw e

infixl 5 ◌>>=◌
abbrev pub ◌>>=◌ {ℓ κ} : {A : Type ℓ} {B : Type κ} → Result A → (A → Result B) → Result B
throw e >>= next = throw e
ok value >>= next = next value

-- The next call is made only if this one returned.
infixl 5 ◌>>◌
abbrev pub ◌>>◌ {ℓ} : {B : Type ℓ} → Result (Unit {0}) → Result B → Result B
first >> next = first >>= (λ done. next)

pub throw_if-eq-ok : (wrong : Bool) (e : Exception) → throw_if wrong e ≡ ok tt → wrong ≡ false
throw_if-eq-ok false e h = refl
throw_if-eq-ok true e h = cc

-- Of two calls that returned together the first returned what the second was given.
pub >>=-eq-ok {ℓ κ} :
    {A : Type ℓ} {B : Type κ} (first : Result A) (next : A → Result B) {result : B}
    → (first >>= next) ≡ ok result
    → (given : A) × (first ≡ ok given) × (next given ≡ ok result)
>>=-eq-ok (throw e) next returned = cc
>>=-eq-ok (ok value) next returned = (value, refl, returned)
