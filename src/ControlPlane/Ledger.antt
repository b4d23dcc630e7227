-- ===== src/ControlPlane/Ledger.antt =====
-- src/tenantvault/control_plane.py: the methods of `IsolationControlPlane` that write: an
-- attestation is recorded, signed and filed, and a failed one quarantines its tenant.
use tenantvault_zero_trust_r.Base.{List, String, Bool, none, [], ◌∷◌, ◌++◌, ◌&&◌, if◌then◌else◌}
use tenantvault_zero_trust_r.Base.Int.{pos}
use tenantvault_zero_trust_r.Base.Dict.{Dict, lookup, insert}
use tenantvault_zero_trust_r.Result.{key_error, Result, ok, err, or_raise}
use tenantvault_zero_trust_r.Exec.{Exec, reads, modify, ◌>>=◌, ◌>>◌}
use tenantvault_zero_trust_r.Json.{Json, bool, float, str, obj, end, field, of_option}
use tenantvault_zero_trust_r.Platform.{Platform, Bytes, Uuid}
use tenantvault_zero_trust_r.Security.{Principal}
use tenantvault_zero_trust_r.ControlPlane.{
  TenantContract, contract_for, Workspace, quarantined, is_quarantined, Probe, Attestation,
  AttestationDraw, ControlPlane, thousand, is_passed, authorize,
}

module _ {F : Type 0} (P : Platform F) where
  -- The record before it is signed, as the dict that `json.dumps` is given.
  unfoldable pub attestation_json : Attestation F → Json F
  attestation_json r = obj (
      field "attestation_id" (str (P.uuid_str r.attestation_id)) (
        field "tenant_id" (str (P.uuid_str r.tenant_id)) (
          field "policy_version" (str r.policy_version) (
            field "contract_hash" (str r.contract_hash) (
              field "status" (str r.status) (
                field "quarantined" (bool r.quarantined) (
                  field "elapsed_ms" (float r.elapsed_ms) (
                    field "issued_at" (str (P.isoformat r.issued_at)) (
                      field "probe_receipt_signature" (of_option r.probe_receipt_signature)
                        end)))))))))

  unfoldable pub sign_attestation : Bytes → Attestation F → String
  sign_attestation key r = P.hmac_hex key (P.encode (P.dumps_sorted (attestation_json r)))

  abbrev pub verdict : TenantContract → Probe → F → Bool
  verdict contract probe elapsed_ms =
      is_passed probe.status && P.fle_int elapsed_ms (thousand contract.attestation_slo_seconds)

  -- `if not passed: self._state[tenant_id] = "quarantined"`
  abbrev pub quarantine_unless : Bool → Uuid → Dict Workspace → Dict Workspace
  quarantine_unless passed tenant_id state =
      if passed then state else insert tenant_id quarantined state

  abbrev pub unsigned :
      TenantContract → Principal → Probe → F → AttestationDraw → Workspace → Attestation F
  unsigned contract principal probe elapsed_ms draw workspace = record {
    attestation_id = draw.attestation_id;
    tenant_id = principal.tenant_id;
    policy_version = contract.policy_version;
    contract_hash = contract.contract_hash;
    status = if verdict contract probe elapsed_ms then "passed" else "failed";
    quarantined = is_quarantined workspace;
    elapsed_ms = P.round elapsed_ms 2;
    issued_at = draw.issued_at;
    probe_receipt_signature = probe.receipt_signature;
    signature = "";
  }

  -- `record["signature"] = ...`, then the record is appended to the tenant's ledger.
  abbrev pub append_record :
      Uuid → Attestation F → List (Attestation F) → Exec (ControlPlane F) (Attestation F)
  append_record tenant_id r records c =
      let signed = record r { signature = sign_attestation c.signing_key r } in
      (
        ok signed,
        record c { attestations = insert tenant_id (records ++ (signed ∷ [])) c.attestations },
      )

  abbrev pub file_record : Uuid → Attestation F → Exec (ControlPlane F) (Attestation F)
  file_record tenant_id r = do
    records ← reads (λ c. or_raise (lookup tenant_id c.attestations) key_error)
    append_record tenant_id r records

  unfoldable pub record_attestation :
      Principal → Probe → F → AttestationDraw → Exec (ControlPlane F) (Attestation F)
  record_attestation principal probe elapsed_ms draw = do
    contract ← reads (λ c. contract_for c.compiler principal.tenant_id)
    modify (λ c. record c {
      state = quarantine_unless (verdict contract probe elapsed_ms) principal.tenant_id c.state;
    })
    workspace ← reads (λ c. or_raise (lookup principal.tenant_id c.state) key_error)
    file_record principal.tenant_id (unsigned contract principal probe elapsed_ms draw workspace)

  -- `(time.perf_counter() - started) * 1000`
  abbrev pub milliseconds : F → F → F
  milliseconds started finished = P.fmul (P.fsub finished started) (P.of_int (pos 1000))

  -- `attest`: the probe acts on a larger state, of which the control plane is a part. The two
  -- readings of `time.perf_counter()` are arguments.
  module _ {S : Type 0} (plane : S → Result (ControlPlane F)) (put : ControlPlane F → S → S) where
    abbrev pub run_on : {A : Type 0} → Result (ControlPlane F) → Exec (ControlPlane F) A → Exec S A
    run_on (err e) m s = (err e, s)
    run_on (ok c) m s = let (r, d) = m c in (r, put d s)

    abbrev pub on_plane : {A : Type 0} → Exec (ControlPlane F) A → Exec S A
    on_plane m s = run_on (plane s) m s

    unfoldable pub attest :
        Principal → Exec S Probe → F → F → AttestationDraw → Exec S (Attestation F)
    attest principal run_probe started finished draw = do
      on_plane (reads (λ c. authorize c principal none))
      probe ← run_probe
      on_plane (record_attestation principal probe (milliseconds started finished) draw)
