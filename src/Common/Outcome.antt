-- ===== src/Common/Outcome.antt =====
-- Go's error values, and a value with an error.
use mathlib.Core.Path.{◌≡◌, refl}
use mathlib.Core.Logic.{◌⊎◌, inl, inr}
use p2p_verse.Common.Tests.{Bytes}

-- The errors that the program itself makes, and the text of any other.
pub data Error : Type 0 where
  already_exist no_valid_data no_valid_priv_key invalid_pub_key : Error
  access_key_generation invalid_access no_access_permission : Error
  invalid_base_store invalid_address invalid_message load_failed sync_timeout : Error
  no_public_key not_implemented invalid_bootstrap no_bootstraps reset_timeout : Error
  foreign : Bytes → Error

-- `(T, error)` where a caller reads the value only if the error is nil.
pub data Result {ℓ} (T : Type ℓ) : Type ℓ where
  ok : T → Result T
  err : Error → Result T

-- `if err != nil { return …, err }` before the rest of a function
infixl 5 ◌>>=◌
abbrev pub ◌>>=◌ {ℓ κ} : {T : Type ℓ} {U : Type κ} → Result T → (T → Result U) → Result U
err failure >>= rest = err failure
ok value >>= rest = rest value

-- Where both steps succeed, so does the first.
pub >>=-eq-ok {ℓ κ} :
    {T : Type ℓ} {U : Type κ} (r : Result T) (rest : T → Result U) {u : U}
    → (r >>= rest) ≡ ok u
    → (t : T) × (r ≡ ok t) × (rest t ≡ ok u)
>>=-eq-ok (err failure) rest e = cc
>>=-eq-ok (ok value) rest e = (value, refl, e)

pub ok_injective {ℓ} : {T : Type ℓ} (t u : T) → Result.ok u ≡ Result.ok t → u ≡ t
ok_injective t u e = cc

pub Result-cases {ℓ} :
    {T : Type ℓ} (r : Result T) → ((t : T) × (r ≡ ok t)) ⊎ ((e : Error) × (r ≡ err e))
Result-cases (ok value) = inl (value, refl)
Result-cases (err failure) = inr (failure, refl)
