-- ===== src/Memory/Refinement.antt =====
-- `MemoryRagStore` keeps the promise of a store: what its dicts hold, bucket by bucket, is the
-- vault that it stands for. The empty buckets that reads leave behind do not show.
use mathlib.Core.Path.{fun_ext}
use tenantvault_zero_trust_r.Base.{
  ℕ, ◌≡◌, refl, ap, ◌∙◌, List, [], ◌∷◌, ◌++◌, arith, ==_iff, Bool-cases, inl, inr,
}
use tenantvault_zero_trust_r.Base.Dict.{bucket, insert, touch, bucket-insert, bucket-touch}
use tenantvault_zero_trust_r.Platform.{Platform, Uuid}
use tenantvault_zero_trust_r.Security.{Principal, can}
use tenantvault_zero_trust_r.Models.{StoredDocument, AuditEvent}
use tenantvault_zero_trust_r.Store.{Chunk, ChunkDraw, AuditEntry, AuditDraw}
use tenantvault_zero_trust_r.Memory.{
  MemoryRagStore, sealed, new_event, ingest, search, count_for_tenant, append_audit, audit_head,
  add_document, add_event, head_of, memory_store,
}
use tenantvault_zero_trust_r.Store.Spec
use tenantvault_zero_trust_r.Store.Spec.{Vault, extended, vault, Simulates}
use tenantvault_zero_trust_r.Exec.Agreement.{Agree}

abbrev pub view_of : {F : Type 0} → MemoryRagStore F → Vault F
view_of s = record {
  cipher = s.cipher;
  documents = λ j. bucket j s.documents;
  events = λ j. bucket j s.events;
}

module _ {ℓ} {A : Type ℓ} where
  -- The buckets of a dict, as a function of the tenant.
  abbrev buckets : List (Uuid × List A) → Uuid → List A
  buckets d j = bucket j d

  touched : (k : Uuid) (d : List (Uuid × List A)) → buckets (touch k d) ≡ buckets d
  touched k d = fun_ext λ j. bucket-touch k j d

  appended :
      (k : Uuid) (x : A) (d : List (Uuid × List A))
      → buckets (insert k (bucket k d ++ (x ∷ [])) d) ≡ extended k x (buckets d)
  appended k x d =
      fun_ext λ j. ground (arith, ==_iff k j, bucket-insert k j (bucket k d ++ (x ∷ [])) d)

module _ {F : Type 0} (s : MemoryRagStore F) where
  view-read_documents :
      (k : Uuid) → view_of (record s { documents = touch k s.documents }) ≡ view_of s
  view-read_documents k = λ i. record {
    cipher = s.cipher;
    documents = touched k s.documents i;
    events = buckets s.events;
  }

  view-read_events : (k : Uuid) → view_of (record s { events = touch k s.events }) ≡ view_of s
  view-read_events k = λ i. record {
    cipher = s.cipher;
    documents = buckets s.documents;
    events = touched k s.events i;
  }

  view-add_document :
      (x : StoredDocument F)
      → view_of (add_document x s)
        ≡ record (view_of s) { documents = extended x.tenant_id x (buckets s.documents) }
  view-add_document x = λ i. record {
    cipher = s.cipher;
    documents = appended x.tenant_id x s.documents i;
    events = buckets s.events;
  }

  view-add_event :
      (e : AuditEvent)
      → view_of (add_event e s)
        ≡ record (view_of s) { events = extended e.tenant_id e (buckets s.events) }
  view-add_event e = λ i. record {
    cipher = s.cipher;
    documents = buckets s.documents;
    events = appended e.tenant_id e s.events i;
  }

module _ {F : Type 0} (P : Platform F) where
  search-Agree :
      (p : Principal) (e : List F) (k : ℕ) → Agree view_of (search P p e k) (Spec.search P p e k)
  unfolding search
  search-Agree p e k = elim (Bool-cases (can p "rag:read")) [
    | inl may ↦ record {
      returns = λ s. rw may;
      leaves = λ s. rw may (view-read_documents s p.tenant_id);
    }
    | inr may_not ↦ record { returns = λ s. rw may_not; leaves = λ s. rw may_not }
  ]

  count-Agree :
      (p : Principal) → Agree view_of (count_for_tenant {F = F} p) (Spec.count_for_tenant P p)
  unfolding count_for_tenant
  count-Agree p = record { returns = λ s. refl; leaves = λ s. view-read_documents s p.tenant_id }

  audit_head-Agree : (p : Principal) → Agree view_of (audit_head {F = F} p) (Spec.audit_head P p)
  unfolding audit_head
  audit_head-Agree p = record { returns = λ s. refl; leaves = λ s. view-read_events s p.tenant_id }

  ingest-Agree :
      (p : Principal) (c : Chunk F) (d : ChunkDraw)
      → Agree view_of (ingest P p c d) (Spec.ingest P p c d)
  unfolding ingest sealed
  ingest-Agree p c d = elim (Bool-cases (can p "rag:write")) [
    | inl may ↦ record {
      returns = λ s. rw may;
      leaves = λ s. rw may (view-add_document s (sealed P s.cipher p c d));
    }
    | inr may_not ↦ record { returns = λ s. rw may_not; leaves = λ s. rw may_not }
  ]

  append_audit-Agree :
      (p : Principal) (e : AuditEntry F) (d : AuditDraw)
      → Agree view_of (append_audit P p e d) (Spec.append_audit P p e d)
  unfolding append_audit new_event
  append_audit-Agree p e d = record {
    returns = λ s. refl;
    leaves = λ s.
        let event = new_event P p e (head_of (bucket p.tenant_id s.events)) d in
        view-add_event (record s { events = touch p.tenant_id s.events }) event
        ∙ ap (λ (v : Vault F). record v { events = extended p.tenant_id event v.events })
            (view-read_events s p.tenant_id);
  }

  -- Every operation of the in-memory store returns what the vault returns, errors included, and
  -- leaves the state that stands for the vault's.
  pub memory_store-Simulates : Simulates P (memory_store P) view_of
  memory_store-Simulates = record {
    ingest = ingest-Agree;
    search = search-Agree;
    count_for_tenant = count-Agree;
    append_audit = append_audit-Agree;
    audit_head = audit_head-Agree;
  }
