-- ===== src/Engine/Lockout.antt =====
-- A quarantined tenant is shut out of every operation of the engine, for good, and its calls change
-- nothing. This holds over any store.
use tenantvault_zero_trust_r.Base.{◌≡◌, refl, ap, ◌∙◌, Option, some, List, [], ◌∷◌}
use tenantvault_zero_trust_r.Base.Dict.{lookup}
use tenantvault_zero_trust_r.Result.{Error, tenant_quarantined_error, err}
use tenantvault_zero_trust_r.Exec.{Exec, after}
use tenantvault_zero_trust_r.Exec.Unwinding.{Spares}
use tenantvault_zero_trust_r.Platform.{Platform, Uuid}
use tenantvault_zero_trust_r.Security.{Principal}
use tenantvault_zero_trust_r.Models.{IngestRequest, QueryRequest}
use tenantvault_zero_trust_r.Store.{RagStore}
use tenantvault_zero_trust_r.ControlPlane.{
  TenantContract, PolicyCompiler, contract_for, quarantined, ControlPlane, authorize,
}
use tenantvault_zero_trust_r.ControlPlane.Ledger
use tenantvault_zero_trust_r.ControlPlane.Ledger.{record_attestation}
use tenantvault_zero_trust_r.ControlPlane.Quarantine.{compiler-record, quarantined-record}
use tenantvault_zero_trust_r.Engine.{
  Engine, IngestDraw, QueryDraw, AttestDraw, check_plane, plane_of, put_plane, ingest, query,
  attest,
}
use tenantvault_zero_trust_r.Engine.Framing.{
  reads-Frames, sequence, ingest-Frames, query-Frames, run_probe-Frames,
}
use tenantvault_zero_trust_r.Engine.Noninterference.{
  Call, ingesting, querying, attesting, step, run,
}

abbrev pub lockout : Error
lockout =
    tenant_quarantined_error "tenant workspace is quarantined after a failed isolation attestation"

-- The engine has a control plane, which has the contract `t` of the tenant `j` and has quarantined
-- the tenant.
pub record IsLocked {F W : Type 0} (j : Uuid) (t : TenantContract) (s : Engine F W) : Type 0 where
  pub plane : ControlPlane F
  pub present : s.control_plane ≡ some plane
  pub contract : lookup j plane.compiler.contracts ≡ some t
  pub shut : lookup j plane.state ≡ some quarantined

module _ {F W : Type 0} (P : Platform F) (R : RagStore F W) (j : Uuid) (t : TenantContract) where
  -- Where `j` is locked out before a call, it is locked out after the call.
  record Lasts (s u : Engine F W) : Type 0 where
    pub lasts : IsLocked j t s → IsLocked j t u

  abbrev Keeps : {A : Type 0} → Exec (Engine F W) A → Type 0
  Keeps m = Spares Lasts m

  Lasts-same : (s : Engine F W) → Lasts s s
  Lasts-same s = record { lasts = λ h. h }

  Lasts-trans : (s u v : Engine F W) → Lasts s u → Lasts u v → Lasts s v
  Lasts-trans s u v a b = record { lasts = λ h. b.lasts (a.lasts h) }

  Lasts-stored : (s : Engine F W) (w : W) → Lasts s (record s { store = w })
  Lasts-stored s w = record {
    lasts =
        λ h. record { plane = h.plane; present = h.present; contract = h.contract; shut = h.shut };
  }

  on_plane-Keeps :
      {A : Type 0} (m : Exec (ControlPlane F) A)
      → ((c : ControlPlane F)
          → lookup j c.compiler.contracts ≡ some t
          → lookup j c.state ≡ some quarantined
          → (lookup j (after m c).compiler.contracts ≡ some t)
            × (lookup j (after m c).state ≡ some quarantined))
      → Keeps (Ledger.on_plane P (plane_of P R) (put_plane P R) m)
  on_plane-Keeps m k = record {
    spares = λ s. record {
      lasts = λ h.
          let (contract, shut) = k h.plane h.contract h.shut in
          rw h.present
            (record { plane = after m h.plane; present = refl; contract = contract; shut = shut });
    };
  }

  attest-Keeps : (p : Principal) (d : AttestDraw F) → Keeps (attest P R p d)
  unfolding attest Ledger.attest
  attest-Keeps p d =
      sequence P R Lasts Lasts-same Lasts-trans Lasts-stored _ _
        (reads-Frames P R Lasts Lasts-same Lasts-trans Lasts-stored _)
        λ _.
          sequence P R Lasts Lasts-same Lasts-trans Lasts-stored _ _
            (on_plane-Keeps _ (λ c h k. (h, k)))
            λ _.
              sequence P R Lasts Lasts-same Lasts-trans Lasts-stored _ _
                (run_probe-Frames P R Lasts Lasts-same Lasts-trans Lasts-stored p d.probe)
                λ probe. on_plane-Keeps _ λ c h k. (
                  ap (λ (m : PolicyCompiler F). lookup j m.contracts)
                        (compiler-record P p probe _ d.attestation c)
                      ∙ h,
                  quarantined-record P p probe _ d.attestation c j k,
                )

  step-Keeps : (c : Call F) (s : Engine F W) → IsLocked j t s → IsLocked j t (step P R c s)
  unfolding step
  step-Keeps (ingesting p r id d) s h =
      ((ingest-Frames P R Lasts Lasts-same Lasts-trans Lasts-stored p r id d).spares s).lasts h
  step-Keeps (querying p r id d) s h =
      ((query-Frames P R Lasts Lasts-same Lasts-trans Lasts-stored p r id d).spares s).lasts h
  step-Keeps (attesting p d) s h = ((attest-Keeps p d).spares s).lasts h

  run-Keeps : (cs : List (Call F)) (s : Engine F W) → IsLocked j t s → IsLocked j t (run P R cs s)
  unfolding run
  run-Keeps [] s h = h
  run-Keeps (c ∷ cs) s h = run-Keeps cs (step P R c s) (step-Keeps c s h)

module _ {F W : Type 0} (P : Platform F) (R : RagStore F W) (p : Principal) (t : TenantContract)
    (s : Engine F W) (h : IsLocked p.tenant_id t s) where
  pub locked-query :
      (r : QueryRequest) (id : Option Uuid) (d : QueryDraw)
      → query P R p r id d s ≡ (err lockout, s)
  unfolding query check_plane authorize contract_for
  locked-query r id d = rw (h.present, h.contract, h.shut) refl

  pub locked-ingest :
      (r : IngestRequest F) (id : Option Uuid) (d : IngestDraw)
      → ingest P R p r id d s ≡ (err lockout, s)
  unfolding ingest check_plane authorize contract_for
  locked-ingest r id d = rw (h.present, h.contract, h.shut) refl

  pub locked-attest : (d : AttestDraw F) → attest P R p d s ≡ (err lockout, s)
  unfolding attest Ledger.attest authorize contract_for
  locked-attest d = rw (h.present, h.contract, h.shut) refl

module _ {F W : Type 0} (P : Platform F) (R : RagStore F W) where
  -- Once the control plane of the engine has quarantined a tenant that has a contract, and after
  -- whatever calls any tenants make, every query, ingestion and attestation by that tenant raises
  -- `TenantQuarantinedError` and leaves the engine, its store included, exactly as it was.
  pub quarantined_tenant_is_shut_out :
      (p : Principal) (t : TenantContract) (cs : List (Call F)) (s : Engine F W)
      → IsLocked p.tenant_id t s
      → ((r : QueryRequest) (id : Option Uuid) (d : QueryDraw)
          → query P R p r id d (run P R cs s) ≡ (err lockout, run P R cs s))
        × ((r : IngestRequest F) (id : Option Uuid) (d : IngestDraw)
            → ingest P R p r id d (run P R cs s) ≡ (err lockout, run P R cs s))
        × ((d : AttestDraw F) → attest P R p d (run P R cs s) ≡ (err lockout, run P R cs s))
  quarantined_tenant_is_shut_out p t cs s h =
      let kept = run-Keeps P R p.tenant_id t cs s h in
      (
        locked-query P R p t (run P R cs s) kept,
        locked-ingest P R p t (run P R cs s) kept,
        locked-attest P R p t (run P R cs s) kept,
      )
