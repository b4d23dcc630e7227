-- ===== src/Exec.antt =====
-- A method call on an object: state and exceptions. What was written before a raise stays
-- written, so the state comes back beside the error too.
pub mod Agreement
pub mod Ensuring
pub mod Unwinding
use tenantvault_zero_trust_r.Base.{◌≡◌, refl, Bool, true, false, ◌⊎◌, inl, inr}
use tenantvault_zero_trust_r.Result.{Error, Result, ok, err}

abbrev pub Exec {ℓ} : Type ℓ → Type ℓ → Type ℓ
Exec S A = S → Result A × S

module _ {ℓ} {S A : Type ℓ} where
  abbrev pub pure : A → Exec S A
  pure a s = (ok a, s)

  abbrev pub raise : Error → Exec S A
  raise e s = (err e, s)

  abbrev pub lift : Result A → Exec S A
  lift r s = (r, s)

  -- A call that only reads the state, and may raise.
  abbrev pub reads : (S → Result A) → Exec S A
  reads f s = (f s, s)

abbrev pub modify {ℓ} : {S : Type ℓ} → (S → S) → Exec S (Unit {ℓ})
modify f s = (ok tt, f s)

module _ {ℓ} {S A B : Type ℓ} where
  abbrev pub continue : Result A → (A → Exec S B) → Exec S B
  continue (ok a) f s = f a s
  continue (err e) f s = (err e, s)

  infixl 5 ◌>>=◌ ◌>>◌
  abbrev pub ◌>>=◌ : Exec S A → (A → Exec S B) → Exec S B
  ◌>>=◌ m f s = let (r, s') = m s in continue r f s'

  abbrev pub ◌>>◌ : Exec S A → Exec S B → Exec S B
  m >> n = m >>= λ _. n

abbrev pub result {ℓ} : {S A : Type ℓ} → Exec S A → S → Result A
result m s = (m s).0

abbrev pub after {ℓ} : {S A : Type ℓ} → Exec S A → S → S
after m s = (m s).1
