-- ===== src/Store/Spec.antt =====
-- What a store promises, apart from how it keeps its rows: a vault gives each tenant a list of
-- documents and a list of audit events, reads change nothing, and each operation touches the lists
-- of its caller's tenant only. `Simulates` says that a store behaves as the vault that it stands
-- for; the engine's theorems ask for no more.
use tenantvault_zero_trust_r.Base.{ℕ, not, List, [], ◌∷◌, ◌++◌, String, ◌==◌, if◌then◌else◌}
use tenantvault_zero_trust_r.Base.Lists.{length, take}
use tenantvault_zero_trust_r.Result.{permission_error, ok, raise_if}
use tenantvault_zero_trust_r.Exec.{Exec, pure, lift, reads, modify, ◌>>=◌, ◌>>◌}
use tenantvault_zero_trust_r.Exec.Agreement.{Agree}
use tenantvault_zero_trust_r.Platform.{Platform, Uuid}
use tenantvault_zero_trust_r.Security.{Principal, can, TenantCipher}
use tenantvault_zero_trust_r.Models.{StoredDocument, RetrievalHit, AuditEvent}
use tenantvault_zero_trust_r.Store.{Chunk, ChunkDraw, AuditEntry, AuditDraw, RagStore}
use tenantvault_zero_trust_r.Memory.{sealed, hits_of, head_of, new_event}
use tenantvault_zero_trust_r.Memory.Ranking.{ranked}

pub record Vault (F : Type 0) : Type 0 where
  pub cipher : TenantCipher
  pub documents : Uuid → List (StoredDocument F)
  pub events : Uuid → List AuditEvent

-- The function, with one more item at the end of one list.
abbrev pub extended {ℓ} : {A : Type ℓ} → Uuid → A → (Uuid → List A) → Uuid → List A
extended k x f j = if k == j then f j ++ (x ∷ []) else f j

module _ {F : Type 0} (P : Platform F) where
  abbrev pub search : Principal → List F → ℕ → Exec (Vault F) (List (RetrievalHit F))
  search principal embedding top_k = do
    lift (raise_if (not (can principal "rag:read")) (permission_error "principal lacks rag:read"))
    reads (λ v.
        hits_of P v.cipher principal
          (take top_k (ranked P embedding (v.documents principal.tenant_id))))

  abbrev pub count_for_tenant : Principal → Exec (Vault F) ℕ
  count_for_tenant principal = reads (λ v. ok (length (v.documents principal.tenant_id)))

  abbrev pub audit_head : Principal → Exec (Vault F) String
  audit_head principal = reads (λ v. ok (head_of (v.events principal.tenant_id)))

  abbrev pub ingest : Principal → Chunk F → ChunkDraw → Exec (Vault F) (StoredDocument F)
  ingest principal chunk draw = do
    lift (raise_if (not (can principal "rag:write")) (permission_error "principal lacks rag:write"))
    document ← reads (λ v. ok (sealed P v.cipher principal chunk draw))
    modify (λ v. record v { documents = extended principal.tenant_id document v.documents })
    pure document

  abbrev pub append_audit : Principal → AuditEntry F → AuditDraw → Exec (Vault F) AuditEvent
  append_audit principal entry draw = do
    previous_hash ← audit_head principal
    let event = new_event P principal entry previous_hash draw
    modify (λ v. record v { events = extended principal.tenant_id event v.events })
    pure event

  abbrev pub vault : RagStore F (Vault F)
  vault = record {
    ingest = ingest;
    search = search;
    count_for_tenant = count_for_tenant;
    append_audit = append_audit;
    audit_head = audit_head;
  }

pub record Simulates {F W : Type 0} (P : Platform F) (R : RagStore F W) (view : W → Vault F)
    : Type 0 where
  pub ingest :
      (p : Principal) (c : Chunk F) (d : ChunkDraw)
      → Agree view (R.ingest p c d) ((vault P).ingest p c d)
  pub search :
      (p : Principal) (e : List F) (k : ℕ) → Agree view (R.search p e k) ((vault P).search p e k)
  pub count_for_tenant :
      (p : Principal) → Agree view (R.count_for_tenant p) ((vault P).count_for_tenant p)
  pub append_audit :
      (p : Principal) (e : AuditEntry F) (d : AuditDraw)
      → Agree view (R.append_audit p e d) ((vault P).append_audit p e d)
  pub audit_head : (p : Principal) → Agree view (R.audit_head p) ((vault P).audit_head p)
