-- ===== src/Models.antt =====
-- src/tenantvault/models.py: requests, stored documents, hits, receipts and audit events. The
-- defaults that draw a UUID or the time are fields that the caller gives.
use tenantvault_zero_trust_r.Base.{ℕ, String, Bool, Option, List, ◌&&◌, leb}
use tenantvault_zero_trust_r.Base.Text.{len}
use tenantvault_zero_trust_r.Json.{Fields}
use tenantvault_zero_trust_r.Platform.{Bytes, Uuid, Time}

pub record IngestRequest (F : Type 0) : Type 0 where
  pub title : String
  pub content : String
  pub source_uri : String
  pub metadata : Fields F

pub record QueryRequest : Type 0 where
  pub question : String
  pub top_k : ℕ

-- The bounds that the fields declare.
unfoldable pub is_valid_ingest : {F : Type 0} → IngestRequest F → Bool
is_valid_ingest r =
    leb 1 (len r.title)
    && leb (len r.title) 160
    && leb 1 (len r.content)
    && leb (len r.content) 20000
    && leb (len r.source_uri) 500

unfoldable pub is_valid_query : QueryRequest → Bool
is_valid_query r =
    leb 2 (len r.question) && leb (len r.question) 2000 && leb 1 r.top_k && leb r.top_k 10

pub record StoredDocument (F : Type 0) : Type 0 where
  pub document_id : Uuid
  pub tenant_id : Uuid
  pub title : String
  pub source_uri : String
  pub nonce : Bytes
  pub ciphertext : Bytes
  pub content_sha256 : String
  pub embedding : List F
  pub metadata : Fields F
  pub created_at : Time

pub record RetrievalHit (F : Type 0) : Type 0 where
  pub document_id : Uuid
  pub title : String
  pub source_uri : String
  pub excerpt : String
  pub score : F
  pub content_sha256 : String

pub record IsolationReceipt : Type 0 where
  pub receipt_id : Uuid
  pub request_id : Uuid
  pub tenant_id : Uuid
  pub actor : String
  pub policy_version : String
  pub search_space_count : ℕ
  pub result_document_hashes : List String
  pub audit_chain_head : String
  pub issued_at : Time
  pub signature : String

pub record AuditEvent : Type 0 where
  pub event_id : Uuid
  pub tenant_id : Uuid
  pub actor_id : String
  pub action : String
  pub request_id : Uuid
  pub result_count : ℕ
  pub previous_hash : Option String
  pub event_hash : String
  pub created_at : Time
