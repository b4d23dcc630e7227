-- ===== src/Exec/Agreement.antt =====
-- Two calls on two states, the second of which stands for the first: they return the same and keep
-- the states in step. One rule for each way to build a call.
use tenantvault_zero_trust_r.Base.{◌≡◌, refl, ap, ◌∙◌}
use tenantvault_zero_trust_r.Result.{Error, Result, ok, err}
use tenantvault_zero_trust_r.Exec.{Exec, pure, raise, reads, continue, result, after, ◌>>=◌}

pub record Agree {ℓ} {W V A : Type ℓ} (view : W → V) (m : Exec W A) (n : Exec V A) : Type ℓ where
  pub returns : (w : W) → result m w ≡ result n (view w)
  pub leaves : (w : W) → view (after m w) ≡ after n (view w)

module _ {ℓ} {W V A : Type ℓ} {view : W → V} where
  pub Agree-pure : (a : A) → Agree view (pure a) (pure a)
  Agree-pure a = record { returns = λ w. refl; leaves = λ w. refl }

  pub Agree-raise : (e : Error) → Agree view (raise {A = A} e) (raise e)
  Agree-raise e = record { returns = λ w. refl; leaves = λ w. refl }

  pub Agree-reads :
      (f : W → Result A) (g : V → Result A)
      → ((w : W) → f w ≡ g (view w))
      → Agree view (reads f) (reads g)
  Agree-reads f g same = record { returns = same; leaves = λ w. refl }

module _ {ℓ} {W V A B : Type ℓ} {view : W → V} (f : A → Exec W B) (g : A → Exec V B)
    (step : (a : A) → Agree view (f a) (g a)) where
  continue_returns :
      (r : Result A) (w : W) → result (continue r f) w ≡ result (continue r g) (view w)
  continue_returns (ok a) w = (step a).returns w
  continue_returns (err e) w = refl

  continue_leaves :
      (r : Result A) (w : W) → view (after (continue r f) w) ≡ after (continue r g) (view w)
  continue_leaves (ok a) w = (step a).leaves w
  continue_leaves (err e) w = refl

  pub Agree-bind : (m : Exec W A) (n : Exec V A) → Agree view m n → Agree view (m >>= f) (n >>= g)
  Agree-bind m n h = record {
    returns = λ w.
        continue_returns (m w).0 (m w).1
        ∙ ap (λ (v : V). result (continue (m w).0 g) v) (h.leaves w)
        ∙ ap (λ (r : Result A). result (continue r g) (after n (view w))) (h.returns w);
    leaves = λ w.
        continue_leaves (m w).0 (m w).1
        ∙ ap (λ (v : V). after (continue (m w).0 g) v) (h.leaves w)
        ∙ ap (λ (r : Result A). after (continue r g) (after n (view w))) (h.returns w);
  }
