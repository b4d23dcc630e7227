-- ===== src/Engine/Sparing.antt =====
-- A call by one tenant leaves alone what the engine holds of another.
use tenantvault_zero_trust_r.Base.{
  ℕ, ◌≡◌, ◌≢◌, refl, sym, ◌∙◌, false, ◌==◌, ==_iff, Option, none, some, List, String, arith,
  Bool-cases, inl, inr,
}
use tenantvault_zero_trust_r.Result.{Result, ok, attribute_error, or_raise}
use tenantvault_zero_trust_r.Exec.{Exec, after, pure, reads, ◌>>=◌}
use tenantvault_zero_trust_r.Exec.Unwinding.{Spares, Spares-bind}
use tenantvault_zero_trust_r.Platform.{Platform, Uuid}
use tenantvault_zero_trust_r.Security.{Principal, can}
use tenantvault_zero_trust_r.Models.{IngestRequest, QueryRequest}
use tenantvault_zero_trust_r.Store.{Chunk, ChunkDraw, AuditEntry, AuditDraw}
use tenantvault_zero_trust_r.Store.Spec
use tenantvault_zero_trust_r.Store.Spec.{Vault, vault}
use tenantvault_zero_trust_r.ControlPlane.{Probe, AttestationDraw, ControlPlane}
use tenantvault_zero_trust_r.ControlPlane.Authorization.{AgreeOn}
use tenantvault_zero_trust_r.ControlPlane.Quarantine.{record_other, signing_key-record}
use tenantvault_zero_trust_r.ControlPlane.Ledger
use tenantvault_zero_trust_r.ControlPlane.Ledger.{record_attestation}
use tenantvault_zero_trust_r.Engine.{
  Engine, IngestDraw, QueryDraw, AttestDraw, on_store, current_policy, respond, or_drawn,
  ingest_entry, ingest_reply, ingest, query, isolation_probe, plane_of, put_plane, run_probe,
  attest,
}
use tenantvault_zero_trust_r.Engine.Isolation.{SamePlane, SameTenant}

module _ {F : Type 0} (j : Uuid) where
  abbrev pub SameAt : Engine F (Vault F) → Engine F (Vault F) → Type 0
  SameAt s t = SameTenant j s t

  AgreeOn-trans : (c d e : ControlPlane F) → AgreeOn j c d → AgreeOn j d e → AgreeOn j c e
  AgreeOn-trans c d e h k = record {
    contract = h.contract ∙ k.contract;
    state = h.state ∙ k.state;
    ledger = h.ledger ∙ k.ledger;
  }

  SamePlane-refl : (a : Option (ControlPlane F)) → SamePlane j a a
  SamePlane-refl none = tt
  SamePlane-refl (some c) = (record { contract = refl; state = refl; ledger = refl }, refl)

  SamePlane-trans :
      (a b c : Option (ControlPlane F)) → SamePlane j a b → SamePlane j b c → SamePlane j a c
  SamePlane-trans none none none h k = tt
  SamePlane-trans (some a) (some b) (some c) h k = (AgreeOn-trans a b c h.0 k.0, h.1 ∙ k.1)
  SamePlane-trans none (some b) c h k = absurd h
  SamePlane-trans (some a) none c h k = absurd h
  SamePlane-trans none none (some c) h k = absurd k
  SamePlane-trans (some a) (some b) none h k = absurd k

  pub SameTenant-refl : (s : Engine F (Vault F)) → SameAt s s
  SameTenant-refl s = record {
    cipher = refl;
    documents = refl;
    events = refl;
    secret = refl;
    plane = SamePlane-refl s.control_plane;
  }

  pub SameTenant-trans : (s t u : Engine F (Vault F)) → SameAt s t → SameAt t u → SameAt s u
  SameTenant-trans s t u h k = record {
    cipher = h.cipher ∙ k.cipher;
    documents = h.documents ∙ k.documents;
    events = h.events ∙ k.events;
    secret = h.secret ∙ k.secret;
    plane = SamePlane-trans s.control_plane t.control_plane u.control_plane h.plane k.plane;
  }

module _ {F : Type 0} (P : Platform F) (p : Principal) (j : Uuid) (differ : j ≢ p.tenant_id) where
  abbrev pub Harmless : {A : Type 0} → Exec (Engine F (Vault F)) A → Type 0
  Harmless m = Spares (SameTenant j) m

  reads-Harmless : {A : Type 0} (f : Engine F (Vault F) → Result A) → Harmless (reads f)
  reads-Harmless f = record { spares = λ s. SameTenant-refl j s }

  not_own : (p.tenant_id == j) ≡ false
  not_own = ground (arith, ==_iff p.tenant_id j)

  search-Harmless : (e : List F) (k : ℕ) → Harmless (on_store P (vault P) (Spec.search P p e k))
  search-Harmless e k = elim (Bool-cases (can p "rag:read")) [
    | inl may ↦ record { spares = λ s. rw may (SameTenant-refl j s) }
    | inr may_not ↦ record { spares = λ s. rw may_not (SameTenant-refl j s) }
  ]

  append_audit-Harmless :
      (e : AuditEntry F) (d : AuditDraw)
      → Harmless (on_store P (vault P) (Spec.append_audit P p e d))
  append_audit-Harmless e d = record {
    spares = λ s. record {
      cipher = refl;
      documents = refl;
      events = rw not_own;
      secret = refl;
      plane = SamePlane-refl j s.control_plane;
    };
  }

  ingest-Harmless :
      (c : Chunk F) (d : ChunkDraw) → Harmless (on_store P (vault P) (Spec.ingest P p c d))
  ingest-Harmless c d = elim (Bool-cases (can p "rag:write")) [
    | inl may ↦ record {
      spares = λ s. rw may (record {
        cipher = refl;
        documents = rw not_own;
        events = refl;
        secret = refl;
        plane = SamePlane-refl j s.control_plane;
      });
    }
    | inr may_not ↦ record { spares = λ s. rw may_not (SameTenant-refl j s) }
  ]

  sequence :
      {A B : Type 0} (m : Exec (Engine F (Vault F)) A) (f : A → Exec (Engine F (Vault F)) B)
      → Harmless m
      → ((a : A) → Harmless (f a))
      → Harmless (m >>= f)
  sequence m f h k = Spares-bind (SameTenant-trans j) f k m h

  pub ingest-Spares :
      (r : IngestRequest F) (id : Option Uuid) (d : IngestDraw)
      → Harmless (ingest P (vault P) p r id d)
  unfolding ingest
  ingest-Spares r id d = sequence _ _ (reads-Harmless _) λ _.
      sequence _ _ (ingest-Harmless _ _) λ document.
        sequence
          (on_store P (vault P)
            (Spec.append_audit P p (ingest_entry P document (or_drawn id d.request_id)) d.audit))
          (λ _. pure (ingest_reply P document)) (append_audit-Harmless _ _)
          (λ _. reads-Harmless (λ s. ok (ingest_reply P document)))

  pub query-Spares :
      (r : QueryRequest) (id : Option Uuid) (d : QueryDraw) → Harmless (query P (vault P) p r id d)
  unfolding query
  query-Spares r id d = sequence _ _ (reads-Harmless _) λ _.
      sequence _ _ (search-Harmless _ _) λ hits. sequence _ _ (append_audit-Harmless _ _) λ event.
        sequence {A = String} _ _ (reads-Harmless (λ s. current_policy s.control_plane p)) λ policy.
          sequence {A = ℕ} (on_store P (vault P) (Spec.count_for_tenant P p))
            (λ count. reads (λ s. ok (
              respond P s.receipt_secret p r (or_drawn id d.request_id) policy count hits event d)))
            (record { spares = λ s. SameTenant-refl j s }) (λ count. reads-Harmless _)

  on_plane-Harmless :
      {A : Type 0} (m : Exec (ControlPlane F) A)
      → ((c : ControlPlane F) → AgreeOn j c (after m c) × (c.signing_key ≡ (after m c).signing_key))
      → Harmless (Ledger.on_plane P (plane_of P (vault P)) (put_plane P (vault P)) m)
  on_plane-Harmless m h = record { spares = λ s. on s.control_plane s refl }
    where
      on :
          (o : Option (ControlPlane F)) (s : Engine F (Vault F))
          → s.control_plane ≡ o
          → SameTenant j s (
              after
                (Ledger.run_on P
                  (plane_of P (vault P))
                  (put_plane P (vault P))
                  (or_raise o attribute_error)
                  m)
                s)
      on none s e = SameTenant-refl j s
      on (some c) s e = record {
        cipher = refl;
        documents = refl;
        events = refl;
        secret = refl;
        plane = rw e (h c);
      }

  record_attestation-AgreeOn :
      (probe : Probe) (ms : F) (d : AttestationDraw) (c : ControlPlane F)
      → AgreeOn j c (after (record_attestation P p probe ms d) c)
        × (c.signing_key ≡ (after (record_attestation P p probe ms d) c).signing_key)
  record_attestation-AgreeOn probe ms d c =
      let h = record_other P p probe ms d c j differ in
      (
        record { contract = sym h.contract; state = sym h.state; ledger = sym h.ledger },
        sym (signing_key-record P p probe ms d c),
      )

  run_probe-Spares : (d : QueryDraw) → Harmless (run_probe P (vault P) p d)
  unfolding run_probe isolation_probe
  run_probe-Spares d =
      sequence _ _ (sequence _ _ (query-Spares _ none d) (λ r. reads-Harmless (λ s. ok _)))
        (λ r. reads-Harmless (λ s. ok _))

  pub attest-Spares : (d : AttestDraw F) → Harmless (attest P (vault P) p d)
  unfolding attest Ledger.attest
  attest-Spares d = sequence _ _ (reads-Harmless _) λ _.
      sequence _ _
        (on_plane-Harmless _ (λ c. (record { contract = refl; state = refl; ledger = refl }, refl)))
        λ _.
          sequence _ _ (run_probe-Spares d.probe)
            λ probe. on_plane-Harmless _ (record_attestation-AgreeOn probe _ d.attestation)
