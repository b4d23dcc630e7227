-- ===== src/Store.antt =====
-- src/tenantvault/store.py: the protocol `RagStore`, which the engine is written against, and
-- `sign_receipt`. `W` is the state of a store. What a call draws from outside is an argument.
pub mod Spec
use tenantvault_zero_trust_r.Base.{ℕ, String, List}
use tenantvault_zero_trust_r.Exec.{Exec}
use tenantvault_zero_trust_r.Json.{Json, Fields}
use tenantvault_zero_trust_r.Platform.{Platform, Bytes, Uuid, Time}
use tenantvault_zero_trust_r.Security.{Principal}
use tenantvault_zero_trust_r.Models.{StoredDocument, RetrievalHit, AuditEvent}

-- The keyword arguments of `ingest`.
pub record Chunk (F : Type 0) : Type 0 where
  pub title : String
  pub content : String
  pub source_uri : String
  pub metadata : Fields F
  pub embedding : List F

-- `os.urandom(12)`, `uuid4()` and `datetime.now(UTC)` in `ingest`.
pub record ChunkDraw : Type 0 where
  pub nonce : Bytes
  pub document_id : Uuid
  pub created_at : Time

-- The keyword arguments of `append_audit`.
pub record AuditEntry (F : Type 0) : Type 0 where
  pub action : String
  pub request_id : Uuid
  pub result_count : ℕ
  pub detail : Fields F

pub record AuditDraw : Type 0 where
  pub event_id : Uuid
  pub created_at : Time

pub record RagStore (F W : Type 0) : Type 0 where
  pub ingest : Principal → Chunk F → ChunkDraw → Exec W (StoredDocument F)
  pub search : Principal → List F → ℕ → Exec W (List (RetrievalHit F))
  pub count_for_tenant : Principal → Exec W ℕ
  pub append_audit : Principal → AuditEntry F → AuditDraw → Exec W AuditEvent
  pub audit_head : Principal → Exec W String

unfoldable pub sign_receipt : {F : Type 0} → Platform F → String → Json F → String
sign_receipt P secret payload = P.hmac_hex (P.encode secret) (P.encode (P.dumps_sorted payload))
