-- ===== src/ControlPlane.antt =====
-- src/tenantvault/control_plane.py: `IsolationControlPlane`. Its parts are the compiled contracts
-- (ControlPlane/Compiler), the state of each tenant's workspace and the attestation ledger.
mod Compiler
pub mod Ledger
pub mod Authorization
pub mod Quarantine
pub mod Contracts
pub mod Boundary
pub use Compiler.{TenantContract, PolicyCompiler}
unfoldable pub use Compiler.{
  required_controls, compile, compile_contract, compile_contracts, check_gate, contract_for,
  has_all, has_texts, in_scope, is_true, is_empty, is_one,
}
use tenantvault_zero_trust_r.Base.{
  ℕ, ◌+◌, ◌*◌, String, Bool, true, false, not, Option, none, some, List, [], ◌∷◌, ◌++◌, ◌&&◌,
  text_eq, if◌then◌else◌,
}
use tenantvault_zero_trust_r.Base.Int.{ℤ, pos, negsuc, leb_ℤ}
use tenantvault_zero_trust_r.Base.Lists.{get_last?}
use tenantvault_zero_trust_r.Base.Dict.{Dict, lookup, insert, bucket}
use tenantvault_zero_trust_r.Result.{
  Error, permission_error, tenant_quarantined_error, key_error, Result, ok, err, raise_if, or_raise,
  ◌>>=◌, ◌>>◌,
}
use tenantvault_zero_trust_r.Exec
use tenantvault_zero_trust_r.Exec.{Exec}
use tenantvault_zero_trust_r.Json.{Json, bool, float, str, obj, end, field, of_option}
use tenantvault_zero_trust_r.Platform.{Platform, Bytes, Uuid, Time}
use tenantvault_zero_trust_r.Security.{Principal}

-- The texts "active" and "quarantined" of `_state`.
pub data Workspace : Type 0 where
  active quarantined : Workspace

abbrev pub is_quarantined : Workspace → Bool
is_quarantined active = false
is_quarantined quarantined = true

abbrev pub workspace_str : Workspace → String
workspace_str active = "active"
workspace_str quarantined = "quarantined"

-- What `record_attestation` reads of the probe: `probe.get("status")` and
-- `probe.get("receipt", {}).get("signature")`.
pub record Probe : Type 0 where
  pub status : Option String
  pub receipt_signature : Option String

-- A signed record of the ledger.
pub record Attestation (F : Type 0) : Type 0 where
  pub attestation_id : Uuid
  pub tenant_id : Uuid
  pub policy_version : String
  pub contract_hash : String
  pub status : String
  pub quarantined : Bool
  pub elapsed_ms : F
  pub issued_at : Time
  pub probe_receipt_signature : Option String
  pub signature : String

-- What a call draws from outside: `uuid4()` and `datetime.now(UTC)`.
pub record AttestationDraw : Type 0 where
  pub attestation_id : Uuid
  pub issued_at : Time

pub record ControlPlane (F : Type 0) : Type 0 where
  pub compiler : PolicyCompiler F
  pub signing_key : Bytes
  pub state : Dict Workspace
  pub attestations : Dict (List (Attestation F))

-- `{tenant_id: value for tenant_id in contracts}`
abbrev pub constant {ℓ} : {V : Type ℓ} → V → Dict TenantContract → Dict V
constant v [] = []
constant v ((k, c) ∷ d) = (k, v) ∷ constant v d

-- `slo_seconds * 1000`
abbrev pub thousand : ℤ → ℤ
thousand (pos n) = pos (n * 1000)
thousand (negsuc n) = negsuc (n * 1000 + 999)

abbrev pub is_passed : Option String → Bool
is_passed none = false
is_passed (some s) = text_eq s "passed"

-- `requested_top_k is not None and requested_top_k > max_results`
abbrev pub exceeds : Option ℤ → ℤ → Bool
exceeds none most = false
exceeds (some k) most = not (leb_ℤ k most)

-- What `status_for` reports.
pub record Status (F : Type 0) : Type 0 where
  pub tenant_id : Uuid
  pub workspace_state : Workspace
  pub policy_version : String
  pub contract_hash : String
  pub attestation_slo_seconds : ℤ
  pub last_attestation : Option (Attestation F)

module _ {F : Type 0} where
  unfoldable pub authorize : ControlPlane F → Principal → Option ℤ → Result TenantContract
  authorize c principal requested_top_k = do
    contract ← contract_for c.compiler principal.tenant_id
    workspace ← or_raise (lookup principal.tenant_id c.state) key_error
    raise_if (is_quarantined workspace) (
        tenant_quarantined_error
          "tenant workspace is quarantined after a failed isolation attestation")
    raise_if (not (has_all contract.required_scopes principal.scopes))
        (permission_error "principal does not satisfy the tenant policy contract")
    raise_if (exceeds requested_top_k contract.max_results)
        (permission_error "requested result count exceeds the tenant policy contract")
    ok contract

  unfoldable pub policy_version : ControlPlane F → Principal → Result String
  policy_version c principal = do
    contract ← contract_for c.compiler principal.tenant_id
    ok contract.policy_version

  unfoldable pub status_for : ControlPlane F → Principal → Result (Status F)
  status_for c principal = do
    contract ← contract_for c.compiler principal.tenant_id
    records ← or_raise (lookup principal.tenant_id c.attestations) key_error
    workspace ← or_raise (lookup principal.tenant_id c.state) key_error
    ok (record {
      tenant_id = principal.tenant_id;
      workspace_state = workspace;
      policy_version = contract.policy_version;
      contract_hash = contract.contract_hash;
      attestation_slo_seconds = contract.attestation_slo_seconds;
      last_attestation = get_last? records;
    })

module _ {F : Type 0} (P : Platform F) where
  unfoldable pub new_plane : PolicyCompiler F → String → ControlPlane F
  new_plane compiler signing_secret = record {
    compiler = compiler;
    signing_key = P.encode signing_secret;
    state = constant active compiler.contracts;
    attestations = constant [] compiler.contracts;
  }
