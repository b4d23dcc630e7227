-- ===== src/Http/Answers.antt =====
-- What a response says, and the inversion of what the scripts read of one.
use tenantvault_zero_trust_r.Base.{
  ℕ, ◌≡◌, ◌↔◌, refl, ap, sym, ◌∙◌, Bool, true, false, Option, none, some,
}
use tenantvault_zero_trust_r.Result.{Result, Error, ok, or_raise, raise_if, value_error}
use tenantvault_zero_trust_r.Exec.Ensuring.{ok_inj}
use tenantvault_zero_trust_r.Json.{Json}
use tenantvault_zero_trust_r.Http.{Response, json_of}

pub raise_if-passed :
    (test : Bool) (e : Error) {u : Unit {0}} → raise_if test e ≡ ok u → test ≡ false
raise_if-passed true e h = cc
raise_if-passed false e h = refl

pub or_raise-found :
    {A : Type 0} (o : Option A) (e : Error) (a : A) → or_raise o e ≡ ok a → o ≡ some a
or_raise-found none e a h = cc
or_raise-found (some b) e a h = ap some (ok_inj h)

module _ {F : Type 0} where
  -- A call was answered with the status code `code`.
  pub record Answered (code : ℕ) (call : Result (Response F)) : Type 0 where
    pub response : Response F
    pub answered : call ≡ ok response
    pub status_code : response.status_code ≡ code

  pub Answered-iff :
      (code : ℕ) (call : Result (Response F)) (response : Response F)
      → call ≡ ok response
      → (response.status_code ≡ code) ↔ Answered code call
  Answered-iff code call response at = (
    λ h. record { response = response; answered = at; status_code = h },
    λ h. ap (λ (x : Response F). x.status_code) (ok_inj (sym at ∙ h.answered)) ∙ h.status_code,
  )

  pub json_of-eq-ok : (r : Response F) (v : Json F) → json_of r ≡ ok v → r.body ≡ some v
  json_of-eq-ok r v h = or_raise-found r.body value_error v h
