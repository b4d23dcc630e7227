-- ===== src/Result.antt =====
-- The exceptions of the program and of the Python operations that it uses, and a call that
-- returns or raises. `TenantQuarantinedError` is a `PermissionError`; `ContractError` and
-- `AuthenticationError` are `ValueError`s (security.py, control_plane.py).
use tenantvault_zero_trust_r.Base.{
  ℕ, ◌≡◌, refl, String, Bool, true, false, Option, none, some, ◌⊎◌, inl, inr,
}

pub data Error : Type 0 where
  permission_error tenant_quarantined_error : String → Error
  contract_error authentication_error : String → Error
  runtime_error : String → Error
  value_error key_error type_error attribute_error overflow_error index_error invalid_tag : Error
  http_exception : ℕ → String → Error
  database_error : String → Error
  http_status_error system_exit : ℕ → Error

-- `except PermissionError`
abbrev pub is_permission_error : Error → Bool
is_permission_error (permission_error _) = true
is_permission_error (tenant_quarantined_error _) = true
is_permission_error _ = false

-- `except ValueError`
abbrev pub is_value_error : Error → Bool
is_value_error value_error = true
is_value_error (contract_error _) = true
is_value_error (authentication_error _) = true
is_value_error _ = false

-- What a call returns, or the exception that it raises.
pub data Result {ℓ} (A : Type ℓ) : Type ℓ where
  ok : A → Result A
  err : Error → Result A

-- `if test: raise error`
abbrev pub raise_if : Bool → Error → Result (Unit {0})
raise_if true e = err e
raise_if false e = ok tt

abbrev pub or_raise {ℓ} : {A : Type ℓ} → Option A → Error → Result A
or_raise none e = err e
or_raise (some a) e = ok a

module _ {ℓ κ} {A : Type ℓ} {B : Type κ} where
  infixl 5 ◌>>=◌
  -- One call after another: an exception ends the sequence.
  abbrev pub ◌>>=◌ : Result A → (A → Result B) → Result B
  err e >>= next = err e
  ok value >>= next = next value

  pub >>=-eq-ok :
      (first : Result A) (next : A → Result B) {b : B}
      → (first >>= next) ≡ ok b
      → (value : A) × (first ≡ ok value) × (next value ≡ ok b)
  >>=-eq-ok (err e) next h = cc
  >>=-eq-ok (ok value) next h = (value, refl, h)

infixl 5 ◌>>◌
abbrev pub ◌>>◌ {κ} : {B : Type κ} → Result (Unit {0}) → Result B → Result B
first >> second = first >>= λ _. second

pub Result-cases {ℓ} :
    {A : Type ℓ} (r : Result A) → ((a : A) × (r ≡ ok a)) ⊎ ((e : Error) × (r ≡ err e))
Result-cases (ok a) = inl (a, refl)
Result-cases (err e) = inr (e, refl)

-- Inversion of a guard.
pub raise_if-eq-ok {κ} :
    {B : Type κ} (test : Bool) (e : Error) (f : Unit {0} → Result B) {b : B}
    → (raise_if test e >>= f) ≡ ok b
    → (test ≡ false) × (f tt ≡ ok b)
raise_if-eq-ok true e f h = cc
raise_if-eq-ok false e f h = (refl, h)
