-- ===== src/Engine/FailClosed.antt =====
-- An attestation that comes out failed shuts its tenant out.
use tenantvault_zero_trust_r.Base.{
  ◌≡◌, refl, ap, sym, ◌∙◌, subst, none, some, arith, eq_iff, Bool-cases, Option-cases, inl, inr,
}
use tenantvault_zero_trust_r.Base.Dict.{lookup, lookup-insert}
use tenantvault_zero_trust_r.Result.{ok, Result-cases, Result}
use tenantvault_zero_trust_r.Exec.{result, after}
use tenantvault_zero_trust_r.Platform.{Platform}
use tenantvault_zero_trust_r.Security.{Principal}
use tenantvault_zero_trust_r.Store.{RagStore}
use tenantvault_zero_trust_r.ControlPlane.{
  TenantContract, PolicyCompiler, Workspace, active, quarantined, ControlPlane, Probe, Attestation,
  AttestationDraw, contract_for, authorize,
}
use tenantvault_zero_trust_r.ControlPlane.Authorization.{authorize_iff}
use tenantvault_zero_trust_r.ControlPlane.Ledger
use tenantvault_zero_trust_r.ControlPlane.Ledger.{record_attestation, verdict}
use tenantvault_zero_trust_r.ControlPlane.Quarantine.{
  record_attestation-IsRecorded, filed_record, compiler-record,
}
use tenantvault_zero_trust_r.Engine.{
  Engine, QueryDraw, AttestDraw, plane_of, put_plane, run_probe, attest,
}
use tenantvault_zero_trust_r.Engine.Framing.{run_probe-Frames}
use tenantvault_zero_trust_r.Engine.Lockout.{IsLocked}

module _ {F : Type 0} (P : Platform F) (p : Principal) (probe : Probe) (ms : F)
    (draw : AttestationDraw) (c : ControlPlane F) (t : TenantContract) (w : Workspace)
    (r : Attestation F) where
  -- A record that says "failed" comes with the quarantine of its tenant.
  failed-quarantined :
      lookup p.tenant_id c.compiler.contracts ≡ some t
      → lookup p.tenant_id c.state ≡ some w
      → result (record_attestation P p probe ms draw) c ≡ ok r
      → r.status ≡ "failed"
      → lookup p.tenant_id (after (record_attestation P p probe ms draw) c).state ≡ some quarantined
  unfolding record_attestation contract_for
  failed-quarantined found held returned failed =
      elim (Option-cases (lookup p.tenant_id c.attestations)) [
        | inl lost ↦ absurd (grind (arith, lookup-insert))
        | inr (rs, kept) ↦
            let h = record_attestation-IsRecorded P p probe ms draw c t w rs found held kept in
            let same : filed_record P p probe ms draw c t w ≡ r =
              ground (arith, h.returned, returned) in
            let status = ap (λ (x : Attestation F). x.status) same in
            elim (Bool-cases (verdict P t probe ms)) [
              | inl passed ↦
                  absurd (ground (arith, status, passed, failed, eq_iff "passed" "failed"))
              | inr missed ↦ ground (arith, h.workspace, missed)
            ]
      ]

module _ {F W : Type 0} (P : Platform F) (R : RagStore F W) (p : Principal) where
  -- The probe leaves the control plane of the engine alone.
  run_probe-control_plane :
      (d : QueryDraw) (s : Engine F W)
      → (after (run_probe P R p d) s).control_plane ≡ s.control_plane
  run_probe-control_plane d s =
      (run_probe-Frames P R (λ s u. u.control_plane ≡ s.control_plane) (λ s. refl)
          (λ s t u h k. k ∙ h) (λ s w. refl) p d).spares
        s

  -- An attestation that gets past its probe is the recording of what the probe said.
  attest-recorded :
      (d : AttestDraw F) (s : Engine F W) (c : ControlPlane F) (t : TenantContract) (probe : Probe)
      → s.control_plane ≡ some c
      → authorize c p none ≡ ok t
      → result (run_probe P R p d.probe) (put_plane P R c s) ≡ ok probe
      → attest P R p d s
        ≡ Ledger.run_on P
            (plane_of P R)
            (put_plane P R)
            (ok c)
            (record_attestation P p probe
              (Ledger.milliseconds P d.started d.finished)
              d.attestation)
            (after (run_probe P R p d.probe) (put_plane P R c s))
  unfolding attest Ledger.attest
  attest-recorded d s c t probe present allowed ran =
      rw (present, allowed, ran, run_probe-control_plane d.probe (put_plane P R c s)) refl

  -- An attestation of the engine that returns a record with the status "failed" leaves its tenant,
  -- which has a contract, quarantined in the engine's control plane, whatever the store and the
  -- probe did.
  pub failed_attestation_quarantines :
      (d : AttestDraw F) (s : Engine F W) (r : Attestation F)
      → result (attest P R p d) s ≡ ok r
      → r.status ≡ "failed"
      → (t : TenantContract) × IsLocked p.tenant_id t (after (attest P R p d) s)
  unfolding attest Ledger.attest
  failed_attestation_quarantines d s r e failed = elim (Option-cases s.control_plane) [
    | inl missing ↦ absurd (ground (arith, missing, e))
    | inr (c, present) ↦ elim (Result-cases (authorize c p none)) [
      | inr (why, refused) ↦ absurd (ground (arith, present, refused, e))
      | inl (t, allowed) ↦
          let s1 = put_plane P R c s in
          let ms = Ledger.milliseconds P d.started d.finished in
          elim (Result-cases (result (run_probe P R p d.probe) s1)) [
            | inr (why, raised) ↦ absurd (ground (arith, present, allowed, raised, e))
            | inl (probe, ran) ↦
                let done = attest-recorded d s c t probe present allowed ran in
                let returned : result (record_attestation P p probe ms d.attestation) c ≡ ok r =
                  sym (ap (λ (x : Result (Attestation F) × Engine F W). x.0) done) ∙ e in
                let h = (authorize_iff c p none t).0 allowed in
                (
                  t,
                  subst (λ (x : Result (Attestation F) × Engine F W). IsLocked p.tenant_id t x.1)
                      (sym done)
                      (record {
                        plane = after (record_attestation P p probe ms d.attestation) c;
                        present = refl;
                        contract =
                            ap (λ (m : PolicyCompiler F). lookup p.tenant_id m.contracts)
                              (compiler-record P p probe ms d.attestation c)
                            ∙ h.approved;
                        shut =
                            failed-quarantined P p probe ms d.attestation c t active r h.approved
                              h.is_active returned failed;
                      }),
                )
          ]
    ]
  ]
