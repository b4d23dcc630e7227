-- ===== src/Engine/Isolation.antt =====
-- What one tenant's query shows does not depend on any other tenant.
use tenantvault_zero_trust_r.Base.{
  ℕ, ◌≡◌, refl, Option, none, some, List, String, Bool-cases, inl, inr,
}
use tenantvault_zero_trust_r.Base.Int.{ℤ}
use tenantvault_zero_trust_r.Result.{ok}
use tenantvault_zero_trust_r.Exec.{Exec, pure, reads}
use tenantvault_zero_trust_r.Exec.Unwinding.{Unwinds, Unwinds-pure, Unwinds-reads, Unwinds-bind}
use tenantvault_zero_trust_r.Platform.{Platform, Uuid}
use tenantvault_zero_trust_r.Security.{Principal, can}
use tenantvault_zero_trust_r.Models.{IngestRequest, QueryRequest}
use tenantvault_zero_trust_r.Store.{Chunk, ChunkDraw, AuditEntry, AuditDraw}
use tenantvault_zero_trust_r.Store.Spec
use tenantvault_zero_trust_r.Store.Spec.{Vault, vault, Simulates}
use tenantvault_zero_trust_r.ControlPlane.{ControlPlane}
use tenantvault_zero_trust_r.ControlPlane.Authorization.{
  AgreeOn, authorize-local, policy_version-local,
}
use tenantvault_zero_trust_r.Engine.{
  Engine, IngestDraw, QueryDraw, check_plane, current_policy, on_store, respond, or_drawn,
  ingest_entry, ingest_reply, query_entry, ingest, query,
}

-- Either both engines run without a control plane, or their control planes agree on the tenant.
abbrev pub SamePlane :
    {F : Type 0} → Uuid → Option (ControlPlane F) → Option (ControlPlane F) → Type 0
SamePlane j none none = Unit
SamePlane j (some c) (some d) = AgreeOn j c d × (c.signing_key ≡ d.signing_key)
SamePlane j _ _ = ⊥

-- Two engines, over vaults, that hold the same of the tenant `j`.
pub record SameTenant {F : Type 0} (j : Uuid) (s t : Engine F (Vault F)) : Type 0 where
  pub cipher : s.store.cipher ≡ t.store.cipher
  pub documents : s.store.documents j ≡ t.store.documents j
  pub events : s.store.events j ≡ t.store.events j
  pub secret : s.receipt_secret ≡ t.receipt_secret
  pub plane : SamePlane j s.control_plane t.control_plane

check_plane-local :
    {F : Type 0} (p : Principal) (a b : Option (ControlPlane F)) (k : Option ℤ)
    → SamePlane p.tenant_id a b
    → check_plane a p k ≡ check_plane b p k
unfolding check_plane
check_plane-local p none none k h = refl
check_plane-local p (some c) (some d) k h = rw (authorize-local p h.0 k)
check_plane-local p none (some d) k h = absurd h
check_plane-local p (some c) none k h = absurd h

current_policy-local :
    {F : Type 0} (p : Principal) (a b : Option (ControlPlane F))
    → SamePlane p.tenant_id a b
    → current_policy a p ≡ current_policy b p
unfolding current_policy
current_policy-local p none none h = refl
current_policy-local p (some c) (some d) h = policy_version-local p h.0
current_policy-local p none (some d) h = absurd h
current_policy-local p (some c) none h = absurd h

module _ {F : Type 0} (P : Platform F) (p : Principal) where
  abbrev pub Blind : {A : Type 0} → Exec (Engine F (Vault F)) A → Type 0
  Blind m = Unwinds (SameTenant p.tenant_id) m

  pub check_plane-Blind : (k : Option ℤ) → Blind (reads (λ s. check_plane s.control_plane p k))
  check_plane-Blind k =
      Unwinds-reads _ (λ s t h. check_plane-local p s.control_plane t.control_plane k h.plane)

  search-Blind : (e : List F) (k : ℕ) → Blind (on_store P (vault P) (Spec.search P p e k))
  search-Blind e k = elim (Bool-cases (can p "rag:read")) [
    | inl may ↦ record {
      returns = λ s t h. rw (may, h.cipher, h.documents);
      leaves = λ s t h. rw may h;
    }
    | inr may_not ↦ record { returns = λ s t h. rw may_not; leaves = λ s t h. rw may_not h }
  ]

  count-Blind : Blind (on_store P (vault P) (Spec.count_for_tenant P p))
  count-Blind = record { returns = λ s t h. rw h.documents; leaves = λ s t h. h }

  append_audit-Blind :
      (e : AuditEntry F) (d : AuditDraw) → Blind (on_store P (vault P) (Spec.append_audit P p e d))
  append_audit-Blind e d = record {
    returns = λ s t h. rw h.events;
    leaves = λ s t h. record {
      cipher = h.cipher;
      documents = h.documents;
      events = rw h.events;
      secret = h.secret;
      plane = h.plane;
    };
  }

  ingest-Blind : (c : Chunk F) (d : ChunkDraw) → Blind (on_store P (vault P) (Spec.ingest P p c d))
  ingest-Blind c d = elim (Bool-cases (can p "rag:write")) [
    | inl may ↦ record {
      returns = λ s t h. rw (may, h.cipher);
      leaves = λ s t h. rw may (record {
        cipher = h.cipher;
        documents = rw (h.cipher, h.documents);
        events = h.events;
        secret = h.secret;
        plane = h.plane;
      });
    }
    | inr may_not ↦ record { returns = λ s t h. rw may_not; leaves = λ s t h. rw may_not h }
  ]

  pub ingest-Unwinds :
      (r : IngestRequest F) (id : Option Uuid) (d : IngestDraw)
      → Blind (ingest P (vault P) p r id d)
  unfolding ingest
  ingest-Unwinds r id d =
      Unwinds-bind _
        (λ _.
          Unwinds-bind _
            (λ document.
              Unwinds-bind {W = Engine F (Vault F)} {rel = SameTenant p.tenant_id}
                (λ _. pure (ingest_reply P document)) (λ _. Unwinds-pure (ingest_reply P document))
                _ (append_audit-Blind (ingest_entry P document (or_drawn id d.request_id)) d.audit))
            _ (ingest-Blind _ _))
        _ (check_plane-Blind none)

  pub query-Unwinds :
      (r : QueryRequest) (id : Option Uuid) (d : QueryDraw) → Blind (query P (vault P) p r id d)
  unfolding query
  query-Unwinds r id d =
      Unwinds-bind _
        (λ _.
          Unwinds-bind _
            (λ hits.
              Unwinds-bind _
                (λ event.
                  Unwinds-bind {A = String} _
                    (λ policy.
                      Unwinds-bind {W = Engine F (Vault F)} {A = ℕ} {rel = SameTenant p.tenant_id}
                        (λ count. reads (λ s. ok (
                          respond P s.receipt_secret p r (or_drawn id d.request_id) policy count
                            hits event d)))
                        (λ count. Unwinds-reads _ (λ s t h. rw h.secret)) _ count-Blind)
                    _
                    (Unwinds-reads (λ s. current_policy s.control_plane p)
                      (λ s t h. current_policy-local p s.control_plane t.control_plane h.plane)))
                _ (append_audit-Blind (query_entry P r hits (or_drawn id d.request_id)) d.audit))
            _ (search-Blind _ _))
        _ (check_plane-Blind _)
