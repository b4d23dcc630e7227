-- ===== src/Memory.antt =====
-- src/tenantvault/store.py: `MemoryRagStore`. Each tenant has a bucket of documents and a bucket of
-- audit events, in dicts that grow an empty bucket when a missing one is read.
pub mod Ranking
pub mod Order
pub mod Refinement
pub mod Integrity
pub mod Retrieval
pub mod Evidence
use tenantvault_zero_trust_r.Base.{
  ℕ, zero, suc, String, Bool, true, false, not, Option, none, some, List, [], ◌∷◌, ◌++◌, map,
  text_eq, if◌then◌else◌,
}
use tenantvault_zero_trust_r.Base.Int.{pos}
use tenantvault_zero_trust_r.Base.Lists.{length, take, get_last?, filter}
use tenantvault_zero_trust_r.Base.Text
use tenantvault_zero_trust_r.Base.Sorting.{sort}
use tenantvault_zero_trust_r.Base.Dict.{Dict, insert, bucket, touch}
use tenantvault_zero_trust_r.Result
use tenantvault_zero_trust_r.Result.{permission_error, Result, ok, err, raise_if}
use tenantvault_zero_trust_r.Exec.{Exec, pure, lift, reads, modify, ◌>>=◌, ◌>>◌}
use tenantvault_zero_trust_r.Json.{Json, int, str, obj, end, field}
use tenantvault_zero_trust_r.Platform.{Platform, Uuid}
use tenantvault_zero_trust_r.Security.{Principal, can, TenantCipher, encrypt, decrypt, digest}
use tenantvault_zero_trust_r.Models.{StoredDocument, RetrievalHit, AuditEvent}
use tenantvault_zero_trust_r.Memory.Ranking.{ranked}
use tenantvault_zero_trust_r.Store.{Chunk, ChunkDraw, AuditEntry, AuditDraw, RagStore}

pub record MemoryRagStore (F : Type 0) : Type 0 where
  pub cipher : TenantCipher
  pub documents : Dict (List (StoredDocument F))
  pub events : Dict (List AuditEvent)

-- `__post_init__`
unfoldable pub new_store : {F : Type 0} → TenantCipher → MemoryRagStore F
new_store cipher = record { cipher = cipher; documents = []; events = [] }

-- `"0" * 64`
unfoldable pub genesis : String
genesis = Text.replicate 64 "0"

-- `events[-1].event_hash if events else "0" * 64`
abbrev pub head_of : List AuditEvent → String
head_of events = elim (get_last? events) [ none ↦ genesis | some e ↦ e.event_hash ]

-- `previous_hash or None`
abbrev pub or_none : String → Option String
or_none s = if text_eq s "" then none else some s

module _ {F : Type 0} where
  abbrev pub own_documents : MemoryRagStore F → Uuid → List (StoredDocument F)
  own_documents s tenant_id = bucket tenant_id s.documents

  abbrev pub own_events : MemoryRagStore F → Uuid → List AuditEvent
  own_events s tenant_id = bucket tenant_id s.events

  -- The reads `self._documents[tenant_id]` and `self._events[tenant_id]`.
  abbrev pub read_documents : Uuid → Exec (MemoryRagStore F) (List (StoredDocument F))
  read_documents tenant_id s =
      (ok (own_documents s tenant_id), record s { documents = touch tenant_id s.documents })

  abbrev pub read_events : Uuid → Exec (MemoryRagStore F) (List AuditEvent)
  read_events tenant_id s =
      (ok (own_events s tenant_id), record s { events = touch tenant_id s.events })

  abbrev pub add_document : StoredDocument F → MemoryRagStore F → MemoryRagStore F
  add_document d s = record s {
    documents = insert d.tenant_id (own_documents s d.tenant_id ++ (d ∷ [])) s.documents;
  }

  abbrev pub add_event : AuditEvent → MemoryRagStore F → MemoryRagStore F
  add_event e s = record s {
    events = insert e.tenant_id (own_events s e.tenant_id ++ (e ∷ [])) s.events;
  }

  unfoldable pub count_for_tenant : Principal → Exec (MemoryRagStore F) ℕ
  count_for_tenant principal = do found ← read_documents principal.tenant_id; pure (length found)

  unfoldable pub audit_head : Principal → Exec (MemoryRagStore F) String
  audit_head principal = do events ← read_events principal.tenant_id; pure (head_of events)

module _ {F : Type 0} (P : Platform F) where
  -- The document that `ingest` stores.
  unfoldable pub sealed : TenantCipher → Principal → Chunk F → ChunkDraw → StoredDocument F
  sealed cipher principal chunk draw =
      let (nonce, ciphertext) = encrypt P cipher principal.tenant_id chunk.content draw.nonce in
      record {
        document_id = draw.document_id;
        tenant_id = principal.tenant_id;
        title = chunk.title;
        source_uri = chunk.source_uri;
        nonce = nonce;
        ciphertext = ciphertext;
        content_sha256 = digest P chunk.content;
        embedding = chunk.embedding;
        metadata = chunk.metadata;
        created_at = draw.created_at;
      }

  unfoldable pub ingest :
      Principal → Chunk F → ChunkDraw → Exec (MemoryRagStore F) (StoredDocument F)
  ingest principal chunk draw = do
    lift (raise_if (not (can principal "rag:write")) (permission_error "principal lacks rag:write"))
    document ← reads (λ s. ok (sealed s.cipher principal chunk draw))
    modify (add_document document)
    pure document

  -- One hit of the loop over the ranked documents.
  unfoldable pub hit_of : TenantCipher → Principal → F × StoredDocument F → Result (RetrievalHit F)
  hit_of cipher principal (score, document) =
      Result.◌>>=◌ (decrypt P cipher principal.tenant_id document.nonce document.ciphertext)
        λ plaintext. ok (record {
          document_id = document.document_id;
          title = document.title;
          source_uri = document.source_uri;
          excerpt = Text.take 500 plaintext;
          score = P.round score 4;
          content_sha256 = document.content_sha256;
        })

  unfoldable pub hits_of :
      TenantCipher → Principal → List (F × StoredDocument F) → Result (List (RetrievalHit F))
  hits_of cipher principal [] = ok []
  hits_of cipher principal (r ∷ rs) =
      Result.◌>>=◌ (hit_of cipher principal r)
        λ hit. Result.◌>>=◌ (hits_of cipher principal rs) λ hits. ok (hit ∷ hits)

  unfoldable pub search : Principal → List F → ℕ → Exec (MemoryRagStore F) (List (RetrievalHit F))
  search principal embedding top_k = do
    lift (raise_if (not (can principal "rag:read")) (permission_error "principal lacks rag:read"))
    candidates ← read_documents principal.tenant_id
    reads (λ s. hits_of s.cipher principal (take top_k (ranked P embedding candidates)))

  -- What is hashed into the chain.
  unfoldable pub audit_json : Principal → AuditEntry F → String → AuditDraw → Json F
  audit_json principal entry previous_hash draw = obj (
      field "tenant_id" (str (P.uuid_str principal.tenant_id)) (
        field "actor" (str principal.subject) (
          field "action" (str entry.action) (
            field "request_id" (str (P.uuid_str entry.request_id)) (
              field "result_count" (int (pos entry.result_count)) (
                field "detail" (obj entry.detail) (
                  field "previous_hash" (str previous_hash)
                    (field "created_at" (str (P.isoformat draw.created_at)) end))))))))

  unfoldable pub new_event : Principal → AuditEntry F → String → AuditDraw → AuditEvent
  new_event principal entry previous_hash draw = record {
    event_id = draw.event_id;
    tenant_id = principal.tenant_id;
    actor_id = principal.subject;
    action = entry.action;
    request_id = entry.request_id;
    result_count = entry.result_count;
    previous_hash = or_none previous_hash;
    event_hash =
        P.sha256_hex (P.encode (P.dumps_sorted (audit_json principal entry previous_hash draw)));
    created_at = draw.created_at;
  }

  unfoldable pub append_audit :
      Principal → AuditEntry F → AuditDraw → Exec (MemoryRagStore F) AuditEvent
  unfolding audit_head
  append_audit principal entry draw = do
    previous_hash ← audit_head principal
    let event = new_event principal entry previous_hash draw
    modify (add_event event)
    pure event

  -- The class meets the protocol.
  abbrev pub memory_store : RagStore F (MemoryRagStore F)
  memory_store = record {
    ingest = ingest;
    search = search;
    count_for_tenant = count_for_tenant;
    append_audit = append_audit;
    audit_head = audit_head;
  }
