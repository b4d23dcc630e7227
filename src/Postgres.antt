-- ===== src/Postgres.antt =====
-- src/tenantvault/store.py: `PostgresRagStore`. Every statement runs in a transaction of its own that
-- first sets the tenant. The connection is assumed to stay up.
pub mod Tables
pub mod Fence
pub mod Outcomes
pub mod Retrieval
pub mod Acceptance
pub mod Audit
pub mod Forks
pub mod Duplicates
use tenantvault_zero_trust_r.Base.{
  ℕ, ◌<>◌, String, Bool, true, false, not, Option, none, some, List, [], ◌∷◌, map, text_eq,
  if◌then◌else◌,
}
use tenantvault_zero_trust_r.Base.Int.{pos}
use tenantvault_zero_trust_r.Base.Lists.{length}
use tenantvault_zero_trust_r.Base.Text
use tenantvault_zero_trust_r.Base.Text.{join}
use tenantvault_zero_trust_r.Result
use tenantvault_zero_trust_r.Result.{
  permission_error, database_error, Result, ok, err, raise_if, or_raise,
}
use tenantvault_zero_trust_r.Exec.{Exec, pure, lift, reads, modify, ◌>>=◌, ◌>>◌}
use tenantvault_zero_trust_r.Json.{Json, int, str, obj, end, field}
use tenantvault_zero_trust_r.Platform.{Platform, Uuid}
use tenantvault_zero_trust_r.Security.{Principal, can, TenantCipher, decrypt}
use tenantvault_zero_trust_r.Models.{StoredDocument, RetrievalHit, AuditEvent}
use tenantvault_zero_trust_r.Store.{Chunk, ChunkDraw, AuditEntry, AuditDraw, RagStore}
use tenantvault_zero_trust_r.Memory.{genesis, sealed}
use tenantvault_zero_trust_r.Postgres.Tables.{
  DocumentRow, EventRow, Database, Server, Session, require_tenant, document_tenant_fence,
  audit_tenant_fence, visible_documents, visible_events, check_document, check_event, add_row,
  add_event_row, settle,
}

pub record PostgresRagStore (F : Type 0) : Type 0 where
  pub cipher : TenantCipher
  pub database : Database F

-- `str(row[0]) if row else "0" * 64`
abbrev pub hash_or_genesis : {F : Type 0} → Option (EventRow F) → String
hash_or_genesis none = genesis
hash_or_genesis (some row) = row.event_hash

-- `previous_hash if previous_hash != "0" * 64 else None`
abbrev pub unless_genesis : String → Option String
unless_genesis s = if text_eq s genesis then none else some s

module _ {F : Type 0} (P : Platform F) where
  -- `_vector_literal`
  unfoldable pub vector_literal : List F → String
  vector_literal vector = "[" <> (join "," (map (P.format_fixed 8) vector) <> "]")

  -- `_transaction`: `set_config('app.tenant_id', ..., true)`, then the body. An exception rolls back.
  -- The body is given the tenant that the policies and the column defaults read back.
  abbrev pub in_transaction :
      {A : Type 0} → Principal → (Uuid → Exec (Database F) A) → Exec (Database F) A
  in_transaction principal body db =
      settle db ((lift (require_tenant P (some (P.uuid_str principal.tenant_id))) >>= body) db)

  abbrev pub transaction :
      {A : Type 0} → Principal → (Uuid → Exec (Database F) A) → Exec (PostgresRagStore F) A
  transaction principal body s =
      let (r, db) = in_transaction principal body s.database in (r, record s { database = db })

  -- The row that `INSERT INTO rag.documents` adds for a document.
  unfoldable pub row_of : Uuid → StoredDocument F → DocumentRow F
  row_of tenant_id document = record {
    document_id = document.document_id;
    tenant_id = tenant_id;
    title = document.title;
    source_uri = document.source_uri;
    content_ciphertext = document.ciphertext;
    content_nonce = document.nonce;
    content_sha256 = document.content_sha256;
    metadata = document.metadata;
    embedding = vector_literal document.embedding;
  }

  unfoldable pub hit_of : TenantCipher → Principal → DocumentRow F × F → Result (RetrievalHit F)
  hit_of cipher principal (row, score) =
      Result.◌>>=◌ (decrypt P cipher principal.tenant_id row.content_nonce row.content_ciphertext)
        λ plaintext. ok (record {
          document_id = row.document_id;
          title = row.title;
          source_uri = row.source_uri;
          excerpt = Text.take 500 plaintext;
          score = P.round score 4;
          content_sha256 = row.content_sha256;
        })

  unfoldable pub hits_of :
      TenantCipher → Principal → List (DocumentRow F × F) → Result (List (RetrievalHit F))
  hits_of cipher principal [] = ok []
  hits_of cipher principal (r ∷ rs) =
      Result.◌>>=◌ (hit_of cipher principal r)
        λ hit. Result.◌>>=◌ (hits_of cipher principal rs) λ hits. ok (hit ∷ hits)

  -- What is hashed into the chain.
  unfoldable pub audit_json : Principal → AuditEntry F → String → AuditDraw → Json F
  audit_json principal entry previous_hash draw = obj (
      field "tenant" (str (P.uuid_str principal.tenant_id)) (
        field "actor" (str principal.subject) (
          field "action" (str entry.action) (
            field "request" (str (P.uuid_str entry.request_id)) (
              field "results" (int (pos entry.result_count)) (
                field "detail" (obj entry.detail) (
                  field "previous" (str previous_hash)
                    (field "time" (str (P.isoformat draw.created_at)) end))))))))

  unfoldable pub new_event : Principal → AuditEntry F → String → AuditDraw → AuditEvent
  new_event principal entry previous_hash draw = record {
    event_id = draw.event_id;
    tenant_id = principal.tenant_id;
    actor_id = principal.subject;
    action = entry.action;
    request_id = entry.request_id;
    result_count = entry.result_count;
    previous_hash = unless_genesis previous_hash;
    event_hash =
        P.sha256_hex (P.encode (P.dumps_sorted (audit_json principal entry previous_hash draw)));
    created_at = draw.created_at;
  }

  -- The row that `INSERT INTO audit.events` adds for an event.
  unfoldable pub event_row_of : Uuid → AuditEvent → AuditEntry F → EventRow F
  event_row_of tenant_id event entry = record {
    event_id = event.event_id;
    tenant_id = tenant_id;
    actor_id = event.actor_id;
    action = event.action;
    request_id = event.request_id;
    result_count = event.result_count;
    detail = entry.detail;
    previous_hash = event.previous_hash;
    event_hash = event.event_hash;
    created_at = event.created_at;
  }

  module _ (V : Server F) where
    unfoldable pub insert_event : AuditEvent → AuditEntry F → Uuid → Exec (Database F) (Unit {0})
    insert_event event entry tenant_id = do
      reads (check_event V (event_row_of tenant_id event entry))
      modify (add_event_row (event_row_of tenant_id event entry))

    -- What `append_audit` does once it has read the head: a second transaction.
    unfoldable pub append_after :
        Principal → AuditEntry F → AuditDraw → String → Exec (PostgresRagStore F) AuditEvent
    append_after principal entry draw previous_hash = do
      transaction principal (insert_event (new_event principal entry previous_hash draw) entry)
      pure (new_event principal entry previous_hash draw)

    unfoldable pub insert_document : StoredDocument F → Uuid → Exec (Database F) (Unit {0})
    insert_document document tenant_id = do
      reads (check_document V (row_of tenant_id document))
      modify (add_row (row_of tenant_id document))

    unfoldable pub ingest :
        Principal → Chunk F → ChunkDraw → Exec (PostgresRagStore F) (StoredDocument F)
    ingest principal chunk draw = do
      lift (
          raise_if (not (can principal "rag:write")) (permission_error "principal lacks rag:write"))
      document ← reads (λ s. ok (sealed P s.cipher principal chunk draw))
      transaction principal (insert_document document)
      pure document

    -- The `SELECT` of `search`, behind the policy.
    unfoldable pub select_nearest : List F → ℕ → Uuid → Exec (Database F) (List (DocumentRow F × F))
    select_nearest embedding top_k tenant_id = reads (λ db.
        or_raise
          (V.nearest (vector_literal embedding) top_k (document_tenant_fence tenant_id)
            db.documents)
          (database_error "invalid vector"))

    unfoldable pub search :
        Principal → List F → ℕ → Exec (PostgresRagStore F) (List (RetrievalHit F))
    search principal embedding top_k = do
      lift (raise_if (not (can principal "rag:read")) (permission_error "principal lacks rag:read"))
      rows ← transaction principal (select_nearest embedding top_k)
      reads (λ s. hits_of s.cipher principal rows)

    unfoldable pub count_for_tenant : Principal → Exec (PostgresRagStore F) ℕ
    count_for_tenant principal =
        transaction principal
          (λ tenant_id. reads (λ db. ok (length (visible_documents tenant_id db))))

    unfoldable pub audit_head : Principal → Exec (PostgresRagStore F) String
    audit_head principal =
        transaction principal
          (λ tenant_id. reads (λ db. ok (hash_or_genesis (V.newest (visible_events tenant_id db)))))

    unfoldable pub append_audit :
        Principal → AuditEntry F → AuditDraw → Exec (PostgresRagStore F) AuditEvent
    append_audit principal entry draw = audit_head principal >>= append_after principal entry draw

    -- The class meets the protocol.
    abbrev pub postgres_store : RagStore F (PostgresRagStore F)
    postgres_store = record {
      ingest = ingest;
      search = search;
      count_for_tenant = count_for_tenant;
      append_audit = append_audit;
      audit_head = audit_head;
    }
