-- ===== src/ControlPlane/Compiler.antt =====
-- src/tenantvault/control_plane.py: `TenantContract` and `PolicyCompiler`, which reads the reviewed
-- contracts from a JSON text and refuses a text that weakens the boundary.
use tenantvault_zero_trust_r.Base.{
  ◌<>◌, String, Bool, true, false, not, Option, some, List, [], ◌∷◌, ◌&&◌, contains, if◌then◌else◌,
}
use tenantvault_zero_trust_r.Base.Int.{ℤ, pos, leb_ℤ}
use tenantvault_zero_trust_r.Base.Lists.{filter}
use tenantvault_zero_trust_r.Base.Text.{join}
use tenantvault_zero_trust_r.Base.Dict.{Dict, lookup, insert}
use tenantvault_zero_trust_r.Result.{
  contract_error, value_error, Result, ok, raise_if, or_raise, ◌>>=◌, ◌>>◌,
}
use tenantvault_zero_trust_r.Json.{
  Json, bool, int, float, arr, obj, nil, end, get, get_or, subscript, iterate, Member, text, other,
  set_of, has,
}
use tenantvault_zero_trust_r.Platform.{Platform, Bytes, Uuid}
use tenantvault_zero_trust_r.Security.{to_int, to_uuid, to_str}

pub record TenantContract : Type 0 where
  pub tenant_id : Uuid
  pub policy_version : String
  pub max_results : ℤ
  pub required_scopes : List Member
  pub attestation_slo_seconds : ℤ
  pub contract_hash : String

pub record PolicyCompiler (F : Type 0) : Type 0 where
  pub contracts : Dict TenantContract
  pub release_gate : Json F

-- `REQUIRED_CONTROLS`, in the order of `sorted`.
abbrev pub required_controls : List String
required_controls =
    "postgres_force_rls" ∷ "signed_isolation_receipt" ∷ "signed_tenant_claim"
    ∷ "tenant_bound_aes_gcm" ∷ []

-- `wanted.issubset(configured)`: texts among the members of a set.
abbrev pub has_texts : List String → List Member → Bool
has_texts [] ms = true
has_texts (s ∷ ss) ms = if has s ms then has_texts ss ms else false

-- `required_scopes.issubset(scopes)`: members among texts.
abbrev pub in_scope : Member → List String → Bool
in_scope (text s) scopes = contains s scopes
in_scope other scopes = false

abbrev pub has_all : List Member → List String → Bool
has_all [] scopes = true
has_all (m ∷ ms) scopes = if in_scope m scopes then has_all ms scopes else false

-- `1 <= max_results <= 10`
abbrev pub in_range : ℤ → Bool
in_range n = leb_ℤ (pos 1) n && leb_ℤ n (pos 10)

abbrev pub is_empty : Dict TenantContract → Bool
is_empty [] = true
is_empty (_ ∷ _) = false

module _ {F : Type 0} where
  -- `v is True`
  abbrev pub is_true : Option (Json F) → Bool
  is_true (some (bool true)) = true
  is_true _ = false

  unfoldable pub contract_for : PolicyCompiler F → Uuid → Result TenantContract
  contract_for c tenant_id =
      or_raise (lookup tenant_id c.contracts)
        (contract_error "tenant has no approved policy contract")

module _ {F : Type 0} (P : Platform F) where
  -- `v == 1`: Python's `True` and `1.0` are equal to it.
  abbrev pub is_one : Option (Json F) → Bool
  is_one (some (int (pos n))) = leb_ℤ (pos n) (pos 1) && leb_ℤ (pos 1) (pos n)
  is_one (some (bool b)) = b
  is_one (some (float x)) = P.feq_int x (pos 1)
  is_one _ = false

  -- The checks of the schema and of the release gate.
  unfoldable pub check_gate : Json F → Result (Json F)
  check_gate source = do
    version ← get source "schema_version"
    raise_if (not (is_one version)) (contract_error "unsupported policy contract schema")
    release_gate ← get_or source "release_gate" (obj end)
    configured ← set_of (← get_or release_gate "required_controls" (arr nil))
    raise_if (not (has_texts required_controls configured)) (
        contract_error (
          "policy contract removes required controls: "
          <> join ", " (filter (λ s. not (has s configured)) required_controls)))
    on_failure ← get release_gate "quarantine_on_failed_attestation"
    raise_if (not (is_true on_failure))
        (contract_error "failed attestations must quarantine the affected tenant")
    ok release_gate

  -- The body of the loop over the contracts, up to the assignment.
  unfoldable pub compile_contract : Json F → Result TenantContract
  compile_contract raw = do
    tenant_id ← to_uuid P (← subscript raw "tenant_id")
    max_results ← to_int P (← subscript raw "max_results")
    raise_if (not (in_range max_results)) (contract_error "max_results must be between 1 and 10")
    scopes ← set_of (← get_or raw "required_scopes" (arr nil))
    raise_if (not (has "rag:read" scopes))
        (contract_error "every tenant contract must require rag:read")
    version ← subscript raw "policy_version"
    slo ← to_int P (← subscript raw "attestation_slo_seconds")
    ok (record {
      tenant_id = tenant_id;
      policy_version = to_str P version;
      max_results = max_results;
      required_scopes = scopes;
      attestation_slo_seconds = slo;
      contract_hash = P.sha256_hex (P.encode (P.dumps_sorted raw));
    })

  unfoldable pub compile_contracts :
      List (Json F) → Dict TenantContract → Result (Dict TenantContract)
  compile_contracts [] contracts = ok contracts
  compile_contracts (raw ∷ rest) contracts = do
    contract ← compile_contract raw
    compile_contracts rest (insert contract.tenant_id contract contracts)

  -- `PolicyCompiler.from_file`, on the contents of the file.
  unfoldable pub compile : Bytes → Result (PolicyCompiler F)
  compile contents = do
    source ← or_raise (P.loads contents) value_error
    release_gate ← check_gate source
    raws ← iterate (← get_or source "contracts" (arr nil))
    contracts ← compile_contracts raws []
    raise_if (is_empty contracts) (contract_error "at least one tenant contract is required")
    ok (record { contracts = contracts; release_gate = release_gate })
