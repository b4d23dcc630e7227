-- ===== src/ReleaseGate.antt =====
-- src/tenantvault/release_verifier.py: the release gate, which calls a deployed service over HTTP.
-- The texts and the time in its report are left out.
mod Report
pub mod Verdict
pub use Report.{TenantAttestation, GateReport}
unfoldable pub use Report.{payload_of, is_good, all_good, attestation_item, gate_report}
use tenantvault_zero_trust_r.Base.{
  ℕ, String, Bool, true, false, Option, none, some, List, [], ◌∷◌, ◌<>◌, ◌==◌, ◌&&◌, if◌then◌else◌,
}
use tenantvault_zero_trust_r.Base.Text.{is_prefix, rstrip}
use tenantvault_zero_trust_r.Result.{Result, ok, or_raise, key_error}
use tenantvault_zero_trust_r.Exec.{Exec, pure, lift, ◌>>=◌, ◌>>◌}
use tenantvault_zero_trust_r.Json
use tenantvault_zero_trust_r.Json.{Json, str, obj, end, field}
use tenantvault_zero_trust_r.Platform.{Platform}
use tenantvault_zero_trust_r.Security.{is_text, to_str}
use tenantvault_zero_trust_r.Http.{
  get, post, Request, Response, Client, raise_for_status, json_of, read_tokens, token_of, given,
}

abbrev pub acme_text : String
acme_text = "22222222-2222-2222-2222-222222222222"

abbrev pub cardiac_question : String
cardiac_question = "Who owns the cardiac escalation review?"

module _ {F : Type 0} where
  abbrev pub get_request : String → List (String × String) → Request F
  get_request url headers = record { method = get; url = url; headers = headers; body = none }

  abbrev pub post_request : String → List (String × String) → Option (Json F) → Request F
  post_request url headers body = record {
    method = post;
    url = url;
    headers = headers;
    body = body;
  }

module _ {F W : Type 0} (P : Platform F) (send : Client F W) where
  -- `{"Authorization": f"Bearer {token}"}`
  abbrev pub authorization : Json F → List (String × String)
  authorization token = ("Authorization", "Bearer " <> to_str P token) ∷ []

  -- The query under another tenant's header, and the one with another tenant in its body.
  abbrev pub override_request : String → Json F → Request F
  override_request url northstar =
      post_request url
        (("Authorization", "Bearer " <> to_str P northstar) ∷ ("X-Tenant-Id", acme_text) ∷ [])
        (some (obj (field "question" (str cardiac_question) end)))

  abbrev pub smuggling_request : String → Json F → Request F
  smuggling_request url northstar =
      post_request url (authorization northstar) (
        some
          (obj (field "question" (str cardiac_question) (field "tenant_id" (str acme_text) end))))

  -- One round of the loop over the tokens.
  unfoldable pub attest_tenant : String → String × Json F → Exec W (TenantAttestation F)
  attest_tenant url (tenant, token) = do
    let headers = authorization token
    attestation ← send (post_request (url <> "/v1/attestations/run") headers none)
    status ← send (get_request (url <> "/v1/control-plane/status") headers)
    lift (attestation_item P tenant attestation status)

  unfoldable pub attest_tenants :
      String → List (String × Json F) → Exec W (List (TenantAttestation F))
  attest_tenants url [] = pure []
  attest_tenants url (t ∷ ts) = do
    item ← attest_tenant url t
    items ← attest_tenants url ts
    pure (item ∷ items)

  unfoldable pub run_release_gate : String → Exec W (GateReport F)
  run_release_gate base_url = do
    let url = rstrip b'/' base_url
    tokens_response ← send (get_request (url <> "/api/demo/tokens") [])
    lift (raise_for_status tokens_response)
    body ← lift (json_of tokens_response)
    tokens ← lift (read_tokens body)
    northstar ← lift (or_raise (token_of "northstar" tokens) key_error)
    header_override ← send (override_request (url <> "/v1/query") northstar)
    body_override ← send (smuggling_request (url <> "/v1/query") northstar)
    attestations ← attest_tenants url tokens
    pure (gate_report P url header_override.status_code body_override.status_code attestations)

-- The exit code of `main`.
abbrev pub gate_exit_code : {F : Type 0} → GateReport F → ℕ
gate_exit_code report = if report.passed then 0 else 1
