-- ===== src/Engine/Attesting.antt =====
-- `attest` cannot tell apart two engines that hold the same of the caller's tenant.
use tenantvault_zero_trust_r.Base.{List, ◌≡◌, refl, Bool, true, false, Option, none, some}
use tenantvault_zero_trust_r.Base.Dict.{lookup, lookup-insert_self}
use tenantvault_zero_trust_r.Result.{key_error, attribute_error, or_raise}
use tenantvault_zero_trust_r.Exec.{Exec, after, result, reads, modify}
use tenantvault_zero_trust_r.Exec.Unwinding.{Unwinds, Unwinds-pure, Unwinds-reads, Unwinds-bind}
use tenantvault_zero_trust_r.Platform.{Platform, Uuid}
use tenantvault_zero_trust_r.Security.{Principal}
use tenantvault_zero_trust_r.Store.Spec.{Vault, vault}
use tenantvault_zero_trust_r.ControlPlane.{
  contract_for, Probe, Attestation, AttestationDraw, ControlPlane, authorize,
}
use tenantvault_zero_trust_r.ControlPlane.Authorization.{AgreeOn, authorize-local}
use tenantvault_zero_trust_r.ControlPlane.Ledger
use tenantvault_zero_trust_r.ControlPlane.Ledger.{
  verdict, quarantine_unless, unsigned, append_record, file_record, record_attestation,
}
use tenantvault_zero_trust_r.Engine.{
  Engine, need_plane, AttestDraw, QueryDraw, isolation_probe, plane_of, put_plane, run_probe,
  attest,
}
use tenantvault_zero_trust_r.Engine.Isolation.{SamePlane, SameTenant, query-Unwinds}

-- Two control planes with one key that agree on the tenant `j`.
abbrev pub SameRow : {F : Type 0} → Uuid → ControlPlane F → ControlPlane F → Type 0
SameRow j c d = AgreeOn j c d × (c.signing_key ≡ d.signing_key)

module _ {F : Type 0} (P : Platform F) (p : Principal) where
  contract-Unwinds :
      Unwinds
        (SameRow {F = F} p.tenant_id)
        (reads (λ (c : ControlPlane F). contract_for c.compiler p.tenant_id))
  contract-Unwinds = Unwinds-reads _ (λ c d h. unfold contract_for in rw h.0.contract)

  quarantine-Unwinds :
      (passed : Bool)
      → Unwinds (SameRow {F = F} p.tenant_id) (
          modify (λ (c : ControlPlane F). record c {
            state = quarantine_unless P passed p.tenant_id c.state;
          }))
  quarantine-Unwinds true = record { returns = λ c d h. refl; leaves = λ c d h. h }
  quarantine-Unwinds false = record {
    returns = λ c d h. refl;
    leaves = λ c d h. (
      record {
        contract = h.0.contract;
        state = rw (lookup-insert_self, lookup-insert_self);
        ledger = h.0.ledger;
      },
      h.1,
    );
  }

  append_record-Unwinds :
      (r : Attestation F) (records : List (Attestation F))
      → Unwinds (SameRow {F = F} p.tenant_id) (append_record P p.tenant_id r records)
  append_record-Unwinds r records = record {
    returns = λ c d h. rw h.1;
    leaves = λ c d h. (
      record {
        contract = h.0.contract;
        state = h.0.state;
        ledger = rw (lookup-insert_self, lookup-insert_self, h.1);
      },
      h.1,
    );
  }

  file_record-Unwinds :
      (r : Attestation F) → Unwinds (SameRow {F = F} p.tenant_id) (file_record P p.tenant_id r)
  file_record-Unwinds r =
      Unwinds-bind {W = ControlPlane F} {rel = SameRow p.tenant_id} (append_record P p.tenant_id r)
        (append_record-Unwinds r) _
        (Unwinds-reads
          (λ (c : ControlPlane F). or_raise (lookup p.tenant_id c.attestations) key_error)
          (λ c d h. rw h.0.ledger))

  record_attestation-Unwinds :
      (probe : Probe) (ms : F) (draw : AttestationDraw)
      → Unwinds (SameRow {F = F} p.tenant_id) (record_attestation P p probe ms draw)
  unfolding record_attestation
  record_attestation-Unwinds probe ms draw =
      Unwinds-bind _
        (λ contract.
          Unwinds-bind _
            (λ _.
              Unwinds-bind {W = ControlPlane F} {rel = SameRow p.tenant_id}
                (λ workspace.
                  file_record P p.tenant_id (unsigned P contract p probe ms draw workspace))
                (λ workspace. file_record-Unwinds _) _
                (Unwinds-reads
                  (λ (c : ControlPlane F). or_raise (lookup p.tenant_id c.state) key_error)
                  (λ c d h. rw h.0.state)))
            _ (quarantine-Unwinds (verdict P contract probe ms)))
        _ contract-Unwinds

  -- A call on the control planes `a` and `b` of the two engines.
  abbrev on :
      {A : Type 0} → Option (ControlPlane F) → Exec (ControlPlane F) A → Exec (Engine F (Vault F)) A
  on a m =
      Ledger.run_on P (plane_of P (vault P)) (put_plane P (vault P)) (or_raise a attribute_error) m

  module _ {A : Type 0} (m : Exec (ControlPlane F) A) (k : Unwinds (SameRow p.tenant_id) m) where
    on_returns :
        (a b : Option (ControlPlane F)) (s t : Engine F (Vault F))
        → SamePlane p.tenant_id a b
        → result (on a m) s ≡ result (on b m) t
    on_returns none none s t h = refl
    on_returns (some c) (some d) s t h = k.returns c d h
    on_returns none (some d) s t h = absurd h
    on_returns (some c) none s t h = absurd h

    on_leaves :
        (a b : Option (ControlPlane F)) (s t : Engine F (Vault F))
        → SamePlane p.tenant_id a b
        → SameTenant p.tenant_id s t
        → SameTenant p.tenant_id (after (on a m) s) (after (on b m) t)
    on_leaves none none s t h r = r
    on_leaves (some c) (some d) s t h r = record {
      cipher = r.cipher;
      documents = r.documents;
      events = r.events;
      secret = r.secret;
      plane = k.leaves c d h;
    }
    on_leaves none (some d) s t h r = absurd h
    on_leaves (some c) none s t h r = absurd h

    on_plane-Unwinds :
        Unwinds
          (SameTenant p.tenant_id)
          (Ledger.on_plane P (plane_of P (vault P)) (put_plane P (vault P)) m)
    on_plane-Unwinds = record {
      returns = λ s t h. on_returns s.control_plane t.control_plane s t h.plane;
      leaves = λ s t h. on_leaves s.control_plane t.control_plane s t h.plane h;
    }

  run_probe-Unwinds : (d : QueryDraw) → Unwinds (SameTenant p.tenant_id) (run_probe P (vault P) p d)
  unfolding run_probe isolation_probe
  run_probe-Unwinds d =
      Unwinds-bind _ (λ r. Unwinds-pure _) _
        (Unwinds-bind _ (λ r. Unwinds-pure _) _ (query-Unwinds P p _ none d))

  need_plane-local :
      (a b : Option (ControlPlane F))
      → SamePlane p.tenant_id a b
      → need_plane P (vault P) a ≡ need_plane P (vault P) b
  need_plane-local none none h = refl
  need_plane-local (some c) (some d) h = refl
  need_plane-local none (some d) h = absurd h
  need_plane-local (some c) none h = absurd h

  authorize-Unwinds :
      Unwinds (SameRow {F = F} p.tenant_id) (reads (λ (c : ControlPlane F). authorize c p none))
  authorize-Unwinds = Unwinds-reads _ (λ c d h. authorize-local p h.0 none)

  pub attest-Unwinds :
      (d : AttestDraw F) → Unwinds (SameTenant p.tenant_id) (attest P (vault P) p d)
  unfolding attest Ledger.attest
  attest-Unwinds d =
      Unwinds-bind _
        (λ _.
          Unwinds-bind _
            (λ _.
              Unwinds-bind _
                (λ probe. on_plane-Unwinds _ (record_attestation-Unwinds probe _ d.attestation)) _
                (run_probe-Unwinds d.probe))
            _ (on_plane-Unwinds _ authorize-Unwinds))
        _ (Unwinds-reads _ (λ s t h. need_plane-local s.control_plane t.control_plane h.plane))
