-- ===== src/ReleaseGate/Report.antt =====
-- src/tenantvault/release_verifier.py: the report of the release gate and its verdict.
use tenantvault_zero_trust_r.Base.{
  ℕ, String, Bool, true, Option, List, [], ◌∷◌, ◌==◌, ◌&&◌, if◌then◌else◌,
}
use tenantvault_zero_trust_r.Base.Text.{is_prefix}
use tenantvault_zero_trust_r.Result.{Result, ok, ◌>>=◌}
use tenantvault_zero_trust_r.Json
use tenantvault_zero_trust_r.Json.{Json, obj, end}
use tenantvault_zero_trust_r.Platform.{Platform}
use tenantvault_zero_trust_r.Security.{is_text}
use tenantvault_zero_trust_r.Http.{Response, json_of, given}

pub record TenantAttestation (F : Type 0) : Type 0 where
  pub tenant : String
  pub attestation_status_code : ℕ
  pub attestation_status : Option (Json F)
  pub attestation_signature_present : Bool
  pub workspace_state : Option (Json F)
  pub policy_version : Option (Json F)

pub record GateReport (F : Type 0) : Type 0 where
  pub target : String
  pub header_override_status : ℕ
  pub body_override_status : ℕ
  pub tenant_attestations : List (TenantAttestation F)
  pub passed : Bool

module _ {F : Type 0} where
  -- `r.json() if r.headers.get("content-type", "").startswith("application/json") else {}`
  unfoldable pub payload_of : Response F → Result (Json F)
  payload_of r = if is_prefix "application/json" r.content_type then json_of r else ok (obj end)

  -- The condition on one item of the report.
  unfoldable pub is_good : Platform F → TenantAttestation F → Bool
  is_good P item =
      item.attestation_status_code == 200
      && is_text item.attestation_status "passed"
      && item.attestation_signature_present
      && is_text item.workspace_state "active"
      && given P item.policy_version

  unfoldable pub all_good : Platform F → List (TenantAttestation F) → Bool
  all_good P [] = true
  all_good P (item ∷ items) = is_good P item && all_good P items

  -- What one round of the loop appends, from the two responses.
  unfoldable pub attestation_item :
      Platform F → String → Response F → Response F → Result (TenantAttestation F)
  attestation_item P tenant attestation status = do
    attestation_payload ← payload_of attestation
    status_payload ← payload_of status
    attestation_status ← Json.get attestation_payload "status"
    signature ← Json.get attestation_payload "signature"
    workspace_state ← Json.get status_payload "workspace_state"
    policy_version ← Json.get status_payload "policy_version"
    ok (record {
      tenant = tenant;
      attestation_status_code = attestation.status_code;
      attestation_status = attestation_status;
      attestation_signature_present = given P signature;
      workspace_state = workspace_state;
      policy_version = policy_version;
    })

  unfoldable pub gate_report :
      Platform F → String → ℕ → ℕ → List (TenantAttestation F) → GateReport F
  gate_report P url header_override body_override attestations = record {
    target = url;
    header_override_status = header_override;
    body_override_status = body_override;
    tenant_attestations = attestations;
    passed = header_override == 400 && body_override == 422 && all_good P attestations;
  }
