-- ===== src/Json/Reading.antt =====
-- What a read of a JSON value says about its shape.
use tenantvault_zero_trust_r.Base.{◌≡◌, refl, ap, sym, ◌∙◌, String, Option}
use tenantvault_zero_trust_r.Result.{ok}
use tenantvault_zero_trust_r.Exec.Ensuring.{ok_inj}
use tenantvault_zero_trust_r.Json
use tenantvault_zero_trust_r.Json.{Json, Fields, null, bool, int, float, str, arr, obj, lookup}

module _ {F : Type 0} where
  -- `v.get(key)` returns for a dict only.
  pub get-eq-ok :
      (v : Json F) (k : String) (o : Option (Json F))
      → Json.get v k ≡ ok o
      → (fields : Fields F) × (v ≡ obj fields) × (lookup k fields ≡ o)
  unfolding Json.get
  get-eq-ok (obj fields) k o h = (fields, refl, ok_inj h)
  get-eq-ok null k o h = cc
  get-eq-ok (bool b) k o h = cc
  get-eq-ok (int n) k o h = cc
  get-eq-ok (float x) k o h = cc
  get-eq-ok (str s) k o h = cc
  get-eq-ok (arr vs) k o h = cc

  pub get-eq : (fields : Fields F) (k : String) → Json.get (obj fields) k ≡ ok (lookup k fields)
  unfolding Json.get
  get-eq fields k = refl

  pub lookup-eq :
      (v : Json F) (fields : Fields F) (k : String) (o : Option (Json F))
      → v ≡ obj fields
      → Json.get v k ≡ ok o
      → lookup k fields ≡ o
  lookup-eq v fields k o same h =
      ok_inj (sym (get-eq fields k) ∙ ap (λ (x : Json F). Json.get x k) (sym same) ∙ h)
