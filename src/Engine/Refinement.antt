-- ===== src/Engine/Refinement.antt =====
-- The engine over a store that keeps its promise is the engine over the vault.
use tenantvault_zero_trust_r.Base.{ℕ, ◌≡◌, refl, Option, none, some, String}
use tenantvault_zero_trust_r.Result.{Result, ok, err}
use tenantvault_zero_trust_r.Exec.{Exec, reads, after, result}
use tenantvault_zero_trust_r.Exec.Agreement.{Agree, Agree-pure, Agree-reads, Agree-bind}
use tenantvault_zero_trust_r.Platform.{Platform, Uuid}
use tenantvault_zero_trust_r.Security.{Principal}
use tenantvault_zero_trust_r.Models.{IngestRequest, QueryRequest, AuditEvent}
use tenantvault_zero_trust_r.Store.{RagStore}
use tenantvault_zero_trust_r.Store.Spec.{Vault, vault, Simulates}
use tenantvault_zero_trust_r.ControlPlane.{ControlPlane}
use tenantvault_zero_trust_r.ControlPlane.Ledger
use tenantvault_zero_trust_r.Engine.{
  Engine, IngestDraw, QueryDraw, AttestDraw, on_store, current_policy, respond, or_drawn, ingest,
  query, isolation_probe, need_plane, plane_of, put_plane, run_probe, attest,
}

module _ {F W : Type 0} (view : W → Vault F) where
  abbrev pub engine_view : Engine F W → Engine F (Vault F)
  engine_view s = record {
    store = view s.store;
    receipt_secret = s.receipt_secret;
    control_plane = s.control_plane;
  }

module _ {F W : Type 0} (P : Platform F) (R : RagStore F W) (view : W → Vault F) where
  on_store-Agree :
      {A : Type 0} (m : Exec W A) (n : Exec (Vault F) A)
      → Agree view m n
      → Agree (engine_view view) (on_store P R m) (on_store P (vault P) n)
  on_store-Agree m n h = record {
    returns = λ s. h.returns s.store;
    leaves = λ s i. record {
      store = h.leaves s.store i;
      receipt_secret = s.receipt_secret;
      control_plane = s.control_plane;
    };
  }

  module _ (sim : Simulates P R view) where
    pub ingest-Agree :
        (p : Principal) (r : IngestRequest F) (id : Option Uuid) (d : IngestDraw)
        → Agree (engine_view view) (ingest P R p r id d) (ingest P (vault P) p r id d)
    unfolding ingest
    ingest-Agree p r id d =
        Agree-bind _ _
          (λ _.
            Agree-bind _ _
              (λ document.
                Agree-bind _ _ (λ _. Agree-pure _) _ _
                  (on_store-Agree _ _ (sim.append_audit p _ _)))
              _ _ (on_store-Agree _ _ (sim.ingest p _ _)))
          _ _ (Agree-reads _ _ (λ s. refl))

    pub query-Agree :
        (p : Principal) (r : QueryRequest) (id : Option Uuid) (d : QueryDraw)
        → Agree (engine_view view) (query P R p r id d) (query P (vault P) p r id d)
    unfolding query
    query-Agree p r id d =
        Agree-bind _ _
          (λ _.
            Agree-bind _ _
              (λ hits.
                Agree-bind {A = AuditEvent} _ _
                  (λ event.
                    Agree-bind {A = String} _ _
                      (λ policy.
                        Agree-bind {W = Engine F W} {V = Engine F (Vault F)} {A = ℕ}
                          {view = engine_view view}
                          (λ count. reads (λ s. ok (
                            respond P s.receipt_secret p r (or_drawn id d.request_id) policy count
                              hits event d)))
                          (λ count. reads (λ s. ok (
                            respond P s.receipt_secret p r (or_drawn id d.request_id) policy count
                              hits event d)))
                          (λ count. record { returns = λ s. refl; leaves = λ s. refl }) _ _
                          (on_store-Agree _ _ (sim.count_for_tenant p)))
                      _ _ (Agree-reads _ (λ s. current_policy s.control_plane p) (λ s. refl)))
                  _ _ (on_store-Agree _ _ (sim.append_audit p _ _)))
              _ _ (on_store-Agree _ _ (sim.search p _ _)))
          _ _ (Agree-reads _ _ (λ s. refl))

    isolation_probe-Agree :
        (p : Principal) (d : QueryDraw)
        → Agree (engine_view view) (isolation_probe P R p d) (isolation_probe P (vault P) p d)
    unfolding isolation_probe
    isolation_probe-Agree p d = Agree-bind _ _ (λ r. Agree-pure _) _ _ (query-Agree p _ none d)

    run_on_returns :
        {A : Type 0} (c : Result (ControlPlane F)) (m : Exec (ControlPlane F) A) (s : Engine F W)
        → result (Ledger.run_on P (plane_of P R) (put_plane P R) c m) s
          ≡ result
              (Ledger.run_on P (plane_of P (vault P)) (put_plane P (vault P)) c m)
              (engine_view view s)
    run_on_returns (ok c) m s = refl
    run_on_returns (err e) m s = refl

    run_on_leaves :
        {A : Type 0} (c : Result (ControlPlane F)) (m : Exec (ControlPlane F) A) (s : Engine F W)
        → engine_view view (after (Ledger.run_on P (plane_of P R) (put_plane P R) c m) s)
          ≡ after
              (Ledger.run_on P (plane_of P (vault P)) (put_plane P (vault P)) c m)
              (engine_view view s)
    run_on_leaves (ok c) m s = refl
    run_on_leaves (err e) m s = refl

    on_plane-Agree :
        {A : Type 0} (m : Exec (ControlPlane F) A)
        → Agree
            (engine_view view)
            (Ledger.on_plane P (plane_of P R) (put_plane P R) m)
            (Ledger.on_plane P (plane_of P (vault P)) (put_plane P (vault P)) m)
    on_plane-Agree m = record {
      returns = λ s. run_on_returns (plane_of P R s) m s;
      leaves = λ s. run_on_leaves (plane_of P R s) m s;
    }

    run_probe-Agree :
        (p : Principal) (d : QueryDraw)
        → Agree (engine_view view) (run_probe P R p d) (run_probe P (vault P) p d)
    unfolding run_probe
    run_probe-Agree p d = Agree-bind _ _ (λ r. Agree-pure _) _ _ (isolation_probe-Agree p d)

    need_plane-eq : (o : Option (ControlPlane F)) → need_plane P R o ≡ need_plane P (vault P) o
    need_plane-eq none = refl
    need_plane-eq (some c) = refl

    pub attest-Agree :
        (p : Principal) (d : AttestDraw F)
        → Agree (engine_view view) (attest P R p d) (attest P (vault P) p d)
    unfolding attest Ledger.attest
    attest-Agree p d =
        Agree-bind _ _
          (λ _.
            Agree-bind _ _
              (λ _. Agree-bind _ _ (λ probe. on_plane-Agree _) _ _ (run_probe-Agree p d.probe)) _ _
              (on_plane-Agree _))
          _ _
          (Agree-reads _ (λ s. need_plane P (vault P) s.control_plane)
            (λ s. need_plane-eq s.control_plane))
