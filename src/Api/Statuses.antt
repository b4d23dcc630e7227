-- ===== src/Api/Statuses.antt =====
-- src/tenantvault/api.py: the answers that no store takes part in, `health` and `isolation_status`.
use tenantvault_zero_trust_r.Base.{◌≡◌, String, none, some, List, [], ◌∷◌, arith, inl, inr}
use tenantvault_zero_trust_r.Result
use tenantvault_zero_trust_r.Result.{Result, ok, Result-cases}
use tenantvault_zero_trust_r.Platform.{Platform}
use tenantvault_zero_trust_r.Security.{Principal, TokenAuthority}
use tenantvault_zero_trust_r.Security.Tokens.{IsSigned}
use tenantvault_zero_trust_r.Api.{Headers, authenticated_principal}
use tenantvault_zero_trust_r.Api.Boundary.{authenticated-IsSigned}
use tenantvault_zero_trust_r.Api.Startup.{Settings}

pub record Health : Type 0 where
  pub status : String
  pub service : String
  pub store : String
  pub isolation : String

unfoldable pub health : Settings → Health
health settings = record {
  status = "ok";
  service = "tenantvault";
  store = settings.store_mode;
  isolation = "postgres-rls-ready";
}

pub record IsolationStatus : Type 0 where
  pub tenant_id : String
  pub principal : String
  pub controls : List String

abbrev pub controls_in_place : List String
controls_in_place =
    "signed tenant claim; no caller-supplied tenant selector"
    ∷ "transaction-local database tenant context"
    ∷ "FORCE ROW LEVEL SECURITY on vectors and audit rows"
    ∷ "per-tenant AES-256-GCM source encryption"
    ∷ "tamper-evident audit chain and signed retrieval receipt" ∷ []

module _ {F : Type 0} (P : Platform F) (authority : TokenAuthority) where
  abbrev pub status_of : Principal → IsolationStatus
  status_of principal = record {
    tenant_id = P.uuid_str principal.tenant_id;
    principal = principal.subject;
    controls = controls_in_place;
  }

  unfoldable pub isolation_status : Headers → Result IsolationStatus
  isolation_status headers =
      Result.◌>>=◌ (authenticated_principal P authority headers)
        λ principal. ok (status_of principal)

  -- An isolation status that is answered is that of the tenant and the subject of a bearer token with
  -- the authority's HMAC over its claims, not expired, in a request without a tenant header.
  pub isolation_status_is_own :
      (headers : Headers) (status : IsolationStatus)
      → isolation_status headers ≡ ok status
      → (p : Principal) × (headers.tenant_override ≡ none)
        × (token : String) × (headers.credentials ≡ some token)
        × IsSigned P authority headers.received_at token p
        × (status.tenant_id ≡ P.uuid_str p.tenant_id)
        × (status.principal ≡ p.subject)
  unfolding isolation_status
  isolation_status_is_own headers status e =
      elim (Result-cases (authenticated_principal P authority headers)) [
        | inr (why, refused) ↦ absurd (ground (arith, refused, e))
        | inl (p, verified) ↦
            let (absent, token, given, signed) =
              authenticated-IsSigned P authority headers p verified in
            let same : status_of p ≡ status = ground (arith, verified, e) in
            (p, absent, token, given, signed, cc, cc)
      ]
