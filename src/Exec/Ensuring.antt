-- ===== src/Exec/Ensuring.antt =====
-- What holds of the value of a call, whenever the call returns one.
use tenantvault_zero_trust_r.Base.{◌≡◌, refl, ap, subst}
use tenantvault_zero_trust_r.Result.{Result, ok, err}
use tenantvault_zero_trust_r.Exec.{Exec, pure, lift, continue, result, after, ◌>>=◌}

pub record Ensures {S A : Type 0} (m : Exec S A) (Q : A → Type 0) : Type 0 where
  pub ensures : (s : S) (a : A) → result m s ≡ ok a → Q a

pub ok_inj : {A : Type 0} {a b : A} → ok a ≡ ok b → a ≡ b
ok_inj h = cc

module _ {S A : Type 0} where
  pub Ensures-pure : (Q : A → Type 0) (a : A) → Q a → Ensures {S = S} (pure a) Q
  Ensures-pure Q a q = record { ensures = λ s b h. subst Q (ok_inj h) q }

  pub Ensures-lift : (r : Result A) → Ensures {S = S} (lift r) (λ a. r ≡ ok a)
  Ensures-lift r = record { ensures = λ s a h. h }

  pub Ensures-any : (m : Exec S A) → Ensures m (λ a. Unit)
  Ensures-any m = record { ensures = λ s a h. tt }

module _ {S A B : Type 0} where
  continue-ok :
      (r : Result A) (f : A → Exec S B) (s : S) (b : B)
      → result (continue r f) s ≡ ok b
      → (a : A) × (r ≡ ok a) × (result (f a) s ≡ ok b)
  continue-ok (ok a) f s b h = (a, refl, h)
  continue-ok (err e) f s b h = cc

  -- Inversion of a sequence that returns, and the state that it leaves.
  pub bind-eq-ok :
      (m : Exec S A) (f : A → Exec S B) (s : S) {b : B}
      → result (m >>= f) s ≡ ok b
      → (a : A) × (result m s ≡ ok a) × (result (f a) (after m s) ≡ ok b)
  bind-eq-ok m f s {b} h = continue-ok (result m s) f (m s).1 b h

  pub bind-after :
      (m : Exec S A) (f : A → Exec S B) (s : S) (a : A)
      → result m s ≡ ok a
      → after (m >>= f) s ≡ after (f a) (after m s)
  bind-after m f s a h = ap (λ (r : Result A). (continue r f (after m s)).1) h

  pub Ensures-bind :
      {T : A → Type 0} {Q : B → Type 0} (m : Exec S A) (f : A → Exec S B)
      → Ensures m T
      → ((a : A) → T a → Ensures (f a) Q)
      → Ensures (m >>= f) Q
  Ensures-bind m f first next = record {
    ensures = λ s b h.
        let (a, found, rest) = continue-ok (result m s) f (m s).1 b h in
        (next a (first.ensures s a found)).ensures (m s).1 b rest;
  }
