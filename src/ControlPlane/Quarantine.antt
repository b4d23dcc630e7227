-- ===== src/ControlPlane/Quarantine.antt =====
-- Quarantine: which attestations cause it, whom it hits, and that nothing ends it.
use tenantvault_zero_trust_r.Base.{
  List, ◌≡◌, refl, ap, ◌∙◌, ◌≢◌, ◌↔◌, ◌⊎◌, eq_iff, String, true, Option, none, some, [], ◌∷◌, ◌++◌,
  arith, if◌then◌else◌,
}
use tenantvault_zero_trust_r.Base.Int.{ℤ}
use tenantvault_zero_trust_r.Base.Dict.{lookup, lookup-insert}
use tenantvault_zero_trust_r.Result.{tenant_quarantined_error, ok, err}
use tenantvault_zero_trust_r.Exec.{result, after}
use tenantvault_zero_trust_r.Platform.{Platform, Uuid}
use tenantvault_zero_trust_r.Security.{Principal}
use tenantvault_zero_trust_r.ControlPlane.{
  TenantContract, PolicyCompiler, contract_for, Workspace, quarantined, is_quarantined, is_passed,
  Probe, Attestation, AttestationDraw, ControlPlane, thousand, authorize, status_for,
}
use tenantvault_zero_trust_r.ControlPlane.Authorization.{
  IsTracked, AgreeOn, authorize-local, status_for-local,
}
use tenantvault_zero_trust_r.ControlPlane.Ledger.{
  verdict, unsigned, record_attestation, sign_attestation, attestation_json,
}

module _ {F : Type 0} (P : Platform F) where
  module _ (p : Principal) (probe : Probe) (ms : F) (draw : AttestationDraw)
      (c : ControlPlane F) where
    -- The plane after one attestation.
    abbrev next : ControlPlane F
    next = after (record_attestation P p probe ms draw) c

    pub compiler-record : next.compiler ≡ c.compiler
    unfolding record_attestation contract_for
    compiler-record = ground arith

    pub signing_key-record : next.signing_key ≡ c.signing_key
    unfolding record_attestation contract_for
    signing_key-record = ground arith

    -- An attestation leaves what is held of every other tenant as it was.
    pub record_other : (j : Uuid) → j ≢ p.tenant_id → AgreeOn j next c
    unfolding record_attestation contract_for
    record_other j ne = record {
      contract = ground arith;
      state = grind (arith, lookup-insert);
      ledger = grind (arith, lookup-insert);
    }

    pub quarantined-record :
        (j : Uuid) → lookup j c.state ≡ some quarantined → lookup j next.state ≡ some quarantined
    unfolding record_attestation contract_for
    quarantined-record j h = grind (arith, lookup-insert)

    pub record_attestation-IsTracked : IsTracked c → IsTracked next
    unfolding record_attestation contract_for
    record_attestation-IsTracked h = record {
      workspace = λ j e. grind (arith, lookup-insert, h.workspace j);
      ledger = λ j e. grind (arith, lookup-insert, h.ledger j);
    }

    -- What one attestation under the contract `t` does to a workspace `w` and a ledger `rs`.
    pub record IsRecorded (t : TenantContract) (w : Workspace) (rs : List (Attestation F))
        (r : Attestation F) : Type 0 where
      pub returned : result (record_attestation P p probe ms draw) c ≡ ok r
      pub status : r.status ≡ (if verdict P t probe ms then "passed" else "failed")
      pub workspace :
          lookup p.tenant_id next.state ≡ some (if verdict P t probe ms then w else quarantined)
      pub quarantined_flag :
          r.quarantined ≡ is_quarantined (if verdict P t probe ms then w else quarantined)
      pub signature : r.signature ≡ sign_attestation P c.signing_key r
      pub filed : lookup p.tenant_id next.attestations ≡ some (rs ++ (r ∷ []))

    abbrev pub filed_record : TenantContract → Workspace → Attestation F
    filed_record t w =
        let u = unsigned P t p probe ms draw (if verdict P t probe ms then w else quarantined) in
        record u { signature = sign_attestation P c.signing_key u }

    pub record_attestation-IsRecorded :
        (t : TenantContract) (w : Workspace) (rs : List (Attestation F))
        → lookup p.tenant_id c.compiler.contracts ≡ some t
        → lookup p.tenant_id c.state ≡ some w
        → lookup p.tenant_id c.attestations ≡ some rs
        → IsRecorded t w rs (filed_record t w)
    unfolding record_attestation contract_for sign_attestation attestation_json
    record_attestation-IsRecorded t w rs found held kept = record {
      returned = grind (arith, lookup-insert);
      status = refl;
      workspace = grind (arith, lookup-insert);
      quarantined_flag = refl;
      signature = refl;
      filed = grind (arith, lookup-insert);
    }

is_passed_iff : (o : Option String) → (is_passed o ≡ true) ↔ (o ≡ some "passed")
is_passed_iff none = ground arith
is_passed_iff (some s) = ground (arith, eq_iff s "passed")

verdict_iff :
    {F : Type 0} (P : Platform F) (t : TenantContract) (probe : Probe) (ms : F)
    → (verdict P t probe ms ≡ true) ↔ (
        (probe.status ≡ some "passed") × (P.fle_int ms (thousand t.attestation_slo_seconds) ≡ true))
verdict_iff P t probe ms = ground (arith, is_passed_iff probe.status)

-- An attestation under a contract whose tenant has a workspace and a ledger returns a record.
-- The record says "passed" exactly when the probe said "passed" and ended within the contract's
-- time limit, and otherwise it says "failed". A passed attestation leaves the tenant's
-- workspace as it was, a failed one quarantines it; the record's flag tells which state
-- resulted. The record is signed over its own fields and is the newest entry of the tenant's
-- ledger, after the earlier ones.
pub record_attestation_verdict :
    {F : Type 0} (P : Platform F) (p : Principal) (probe : Probe) (ms : F) (draw : AttestationDraw)
    (c : ControlPlane F) (t : TenantContract) (w : Workspace) (rs : List (Attestation F))
    → lookup p.tenant_id c.compiler.contracts ≡ some t
    → lookup p.tenant_id c.state ≡ some w
    → lookup p.tenant_id c.attestations ≡ some rs
    → (r : Attestation F) × (result (record_attestation P p probe ms draw) c ≡ ok r)
      × ((r.status ≡ "passed") ↔ (
          (probe.status ≡ some "passed")
          × (P.fle_int ms (thousand t.attestation_slo_seconds) ≡ true)))
      × (((r.status ≡ "passed")
            × (lookup p.tenant_id (after (record_attestation P p probe ms draw) c).state ≡ some w)
            × (r.quarantined ≡ is_quarantined w))
          ⊎ ((r.status ≡ "failed")
              × (lookup p.tenant_id (after (record_attestation P p probe ms draw) c).state
                  ≡ some quarantined)
              × (r.quarantined ≡ true)))
      × (r.signature ≡ sign_attestation P c.signing_key r)
      × (lookup p.tenant_id (after (record_attestation P p probe ms draw) c).attestations
          ≡ some (rs ++ (r ∷ [])))
record_attestation_verdict P p probe ms draw c t w rs found held kept =
    let h = record_attestation-IsRecorded P p probe ms draw c t w rs found held kept in
    (
      filed_record P p probe ms draw c t w,
      h.returned,
      ground (arith, h.status, verdict_iff P t probe ms, eq_iff "failed" "passed"),
      ground (arith, h.status, h.workspace, h.quarantined_flag),
      h.signature,
      h.filed,
    )

module _ {F : Type 0} (P : Platform F) where
  -- Everything that writes to a control plane.
  pub data Step : ControlPlane F → ControlPlane F → Type 0 where
    attested :
        (p : Principal) (probe : Probe) (ms : F) (draw : AttestationDraw) (c : ControlPlane F)
        → Step c (after (record_attestation P p probe ms draw) c)

  pub data Reach (c : ControlPlane F) : ControlPlane F → Type 0 where
    here : Reach c c
    next_step : {d e : ControlPlane F} → Reach c d → Step d e → Reach c e

  Reach-quarantined :
      {c d : ControlPlane F} (j : Uuid)
      → Reach c d
      → lookup j c.state ≡ some quarantined
      → (d.compiler ≡ c.compiler) × (lookup j d.state ≡ some quarantined)
  Reach-quarantined j here h = (refl, h)
  Reach-quarantined j (next_step r (attested p probe ms draw c)) h =
      let (same, held) = Reach-quarantined j r h in
      (compiler-record P p probe ms draw c ∙ same, quarantined-record P p probe ms draw c j held)

  -- A quarantined tenant that has a contract stays locked out: after any attestations, passed ones
  -- included, whoever asks for that tenant with whatever scopes and count gets
  -- `TenantQuarantinedError`.
  pub quarantine_is_final :
      (c d : ControlPlane F) (p : Principal) (k : Option ℤ) (t : TenantContract)
      → Reach c d
      → lookup p.tenant_id c.compiler.contracts ≡ some t
      → lookup p.tenant_id c.state ≡ some quarantined
      → authorize d p k
        ≡ err (
            tenant_quarantined_error
              "tenant workspace is quarantined after a failed isolation attestation")
  unfolding authorize contract_for
  quarantine_is_final c d p k t r found held =
      let (same, shut) = Reach-quarantined p.tenant_id r held in
      ground (arith, same, shut, ap (λ (x : PolicyCompiler F). x.contracts) same)

  -- An attestation of one tenant changes neither what another tenant is allowed nor what the
  -- control plane reports to it.
  pub attestation_isolated :
      (p q : Principal) (probe : Probe) (ms : F) (draw : AttestationDraw) (c : ControlPlane F)
      (k : Option ℤ)
      → q.tenant_id ≢ p.tenant_id
      → (authorize (after (record_attestation P p probe ms draw) c) q k ≡ authorize c q k)
        × (status_for (after (record_attestation P p probe ms draw) c) q ≡ status_for c q)
  attestation_isolated p q probe ms draw c k ne =
      let same = record_other P p probe ms draw c q.tenant_id ne in
      (authorize-local q same k, status_for-local q same)
