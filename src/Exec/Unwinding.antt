-- ===== src/Exec/Unwinding.antt =====
-- Calls that cannot tell two related states apart: they return the same in both and leave related
-- states. One rule for each way to build a call.
use tenantvault_zero_trust_r.Base.{◌≡◌, refl, subst}
use tenantvault_zero_trust_r.Result.{Error, Result, ok, err}
use tenantvault_zero_trust_r.Exec.{Exec, pure, raise, reads, continue, result, after, ◌>>=◌}

pub record Unwinds {ℓ} {W A : Type ℓ} (rel : W → W → Type ℓ) (m : Exec W A) : Type ℓ where
  pub returns : (s t : W) → rel s t → result m s ≡ result m t
  pub leaves : (s t : W) → rel s t → rel (after m s) (after m t)

module _ {ℓ} {W A : Type ℓ} {rel : W → W → Type ℓ} where
  pub Unwinds-pure : (a : A) → Unwinds rel (pure a)
  Unwinds-pure a = record { returns = λ s t h. refl; leaves = λ s t h. h }

  pub Unwinds-raise : (e : Error) → Unwinds {A = A} rel (raise e)
  Unwinds-raise e = record { returns = λ s t h. refl; leaves = λ s t h. h }

  pub Unwinds-reads : (f : W → Result A) → ((s t : W) → rel s t → f s ≡ f t) → Unwinds rel (reads f)
  Unwinds-reads f same = record { returns = same; leaves = λ s t h. h }

module _ {ℓ} {W A B : Type ℓ} {rel : W → W → Type ℓ} (f : A → Exec W B)
    (step : (a : A) → Unwinds rel (f a)) where
  continue_returns :
      (r : Result A) (s t : W) → rel s t → result (continue r f) s ≡ result (continue r f) t
  continue_returns (ok a) s t h = (step a).returns s t h
  continue_returns (err e) s t h = refl

  continue_leaves :
      (r : Result A) (s t : W) → rel s t → rel (after (continue r f) s) (after (continue r f) t)
  continue_leaves (ok a) s t h = (step a).leaves s t h
  continue_leaves (err e) s t h = h

  pub Unwinds-bind : (m : Exec W A) → Unwinds rel m → Unwinds rel (m >>= f)
  Unwinds-bind m k = record {
    returns = λ s t h.
        subst (λ (r : Result A). result (m >>= f) s ≡ result (continue r f) (after m t))
          (k.returns s t h) (continue_returns (m s).0 (m s).1 (m t).1 (k.leaves s t h));
    leaves = λ s t h.
        subst (λ (r : Result A). rel (after (m >>= f) s) (after (continue r f) (after m t)))
          (k.returns s t h) (continue_leaves (m s).0 (m s).1 (m t).1 (k.leaves s t h));
  }

-- A call that leaves the state related to the one that it began in.
pub record Spares {ℓ} {W A : Type ℓ} (rel : W → W → Type ℓ) (m : Exec W A) : Type ℓ where
  pub spares : (s : W) → rel s (after m s)

module _ {ℓ} {W A B : Type ℓ} {rel : W → W → Type ℓ}
    (trans : (s t u : W) → rel s t → rel t u → rel s u) (f : A → Exec W B)
    (step : (a : A) → Spares rel (f a)) where
  continue_spares : (r : Result A) (s t : W) → rel s t → rel s (after (continue r f) t)
  continue_spares (ok a) s t h = trans s t (after (f a) t) h ((step a).spares t)
  continue_spares (err e) s t h = h

  pub Spares-bind : (m : Exec W A) → Spares rel m → Spares rel (m >>= f)
  Spares-bind m k = record { spares = λ s. continue_spares (m s).0 s (m s).1 (k.spares s) }
