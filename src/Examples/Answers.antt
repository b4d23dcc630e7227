-- ===== src/Examples/Answers.antt =====
-- The theorems about the middleware and the isolation status at a concrete request.
use tenantvault_zero_trust_r.Base.{
  ℕ, ◌≡◌, refl, String, Option, none, some, List, [], ◌∷◌, if◌then◌else◌,
}
use tenantvault_zero_trust_r.Result.{ok}
use tenantvault_zero_trust_r.Exec.{Exec, pure, result, after}
use tenantvault_zero_trust_r.Security.{Principal}
use tenantvault_zero_trust_r.Security.Tokens.{IsSigned}
use tenantvault_zero_trust_r.Api.{Headers, authenticated_principal}
use tenantvault_zero_trust_r.Api.Service.{
  same_name, HeaderMap, IsHeaderMap, Request, Response, security_headers, Delivered,
  security_headers_lem,
}
use tenantvault_zero_trust_r.Api.Statuses.{status_of, isolation_status, isolation_status_is_own}
use tenantvault_zero_trust_r.Examples.Tokens.{reading, authority, accepted}
use tenantvault_zero_trust_r.Examples.Toy.{reader}

abbrev Pairs : Type 0
Pairs = List (String × String)

abbrev value_in : String → Pairs → Option String
value_in name [] = none
value_in name ((n, value) ∷ rest) = if same_name name n then some value else value_in name rest

abbrev pairs : HeaderMap Pairs
pairs = record { set = λ name value h. (name, value) ∷ h; get = value_in }

pairs-IsHeaderMap : IsHeaderMap pairs
pairs-IsHeaderMap = record { get_set = λ name other value h. refl }

abbrev answering : Request String → Exec ℕ (Response Pairs String)
answering request =
    pure (record {
      headers = ("cache-control", "public") ∷ ("Server", "uvicorn") ∷ [];
      content = "{}";
    })

abbrev question : Request String
question = record { path = "/v1/query"; content = "?" }

security_headers_lem_example :
    Delivered pairs "/v1/query"
      (result (answering question) 7)
      (result (security_headers pairs answering question) 7)
    × (after (security_headers pairs answering question) 7 ≡ after (answering question) 7)
security_headers_lem_example = security_headers_lem pairs pairs-IsHeaderMap answering question 7

abbrev headers : Headers
headers = record { credentials = some "h.p.s"; tenant_override = none; received_at = 100 }

shown : isolation_status reading authority headers ≡ ok (status_of reading authority reader)
unfolding isolation_status authenticated_principal
shown = rw accepted refl

isolation_status_is_own_example :
    (p : Principal) × (headers.tenant_override ≡ none)
    × (token : String) × (headers.credentials ≡ some token)
    × IsSigned reading authority 100 token p
    × ((status_of reading authority reader).tenant_id ≡ reading.uuid_str p.tenant_id)
    × ((status_of reading authority reader).principal ≡ p.subject)
isolation_status_is_own_example =
    isolation_status_is_own reading authority headers (status_of reading authority reader) shown
