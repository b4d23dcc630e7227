-- ===== src/Engine/Answer.antt =====
-- src/tenantvault/engine.py: what the methods of `TenantVaultEngine` answer (replies, the grounded
-- answer, receipts and audit entries), apart from the calls that they make, and what they draw from
-- outside.
use tenantvault_zero_trust_r.Base.{
  ℕ, ◌+◌, ◌<>◌, String, Bool, true, false, Option, none, some, List, [], ◌∷◌, map, ◌==◌,
  if◌then◌else◌,
}
use tenantvault_zero_trust_r.Base.Int.{pos}
use tenantvault_zero_trust_r.Base.Lists.{length}
use tenantvault_zero_trust_r.Base.Text.{occurs_in, join, replace}
use tenantvault_zero_trust_r.Json.{Json, int, str, arr, obj, end, field, texts}
use tenantvault_zero_trust_r.Platform.{Platform, Uuid, Time}
use tenantvault_zero_trust_r.Security.{Principal}
use tenantvault_zero_trust_r.Models.{
  QueryRequest, StoredDocument, RetrievalHit, IsolationReceipt, AuditEvent,
}
use tenantvault_zero_trust_r.Store.{ChunkDraw, AuditEntry, AuditDraw, sign_receipt}
use tenantvault_zero_trust_r.ControlPlane.{AttestationDraw}
use Prim.Native.Char.{char}

-- `POLICY_VERSION`, `NORTHSTAR_TENANT`
abbrev pub default_policy_version : String
default_policy_version = "zt-rag/2026.09/rls+tenant-keys+receipts"

abbrev pub northstar_tenant : Uuid
northstar_tenant = 0x11111111111111111111111111111111

pub record IngestReply : Type 0 where
  pub document_id : Uuid
  pub content_sha256 : String
  pub tenant_bound : Bool
  pub message : String

pub record QueryReply (F : Type 0) : Type 0 where
  pub answer : String
  pub sources : List (RetrievalHit F)
  pub isolation_receipt : IsolationReceipt

pub record ProbeReply : Type 0 where
  pub status : String
  pub assertion : String
  pub receipt : IsolationReceipt

-- What one call draws from outside.
pub record IngestDraw : Type 0 where
  pub request_id : Uuid
  pub chunk : ChunkDraw
  pub audit : AuditDraw

pub record QueryDraw : Type 0 where
  pub request_id : Uuid
  pub audit : AuditDraw
  pub receipt_id : Uuid
  pub issued_at : Time

pub record AttestDraw (F : Type 0) : Type 0 where
  pub probe : QueryDraw
  pub started : F
  pub finished : F
  pub attestation : AttestationDraw

-- `request_id or uuid4()`
abbrev pub or_drawn : Option Uuid → Uuid → Uuid
or_drawn none drawn = drawn
or_drawn (some given) drawn = given

module _ {F : Type 0} where
  -- `f"[{index + 1}] {hit.title}"`, from a first index on
  abbrev pub citations : Platform F → ℕ → List (RetrievalHit F) → List String
  citations P index [] = []
  citations P index (hit ∷ hits) =
      ("[" <> (P.int_str (pos (index + 1)) <> ("] " <> hit.title))) ∷ citations P (index + 1) hits

  unfoldable pub grounded_answer : Platform F → String → List (RetrievalHit F) → String
  grounded_answer P question [] =
      "No tenant-scoped evidence matched this question. TenantVault will not broaden the search boundary."
  grounded_answer P question (hit ∷ hits) =
      "Tenant-scoped evidence: "
      <> (replace 10 (char 32 tt) hit.excerpt
          <> ("  Sources: " <> join ", " (citations P 0 (hit ∷ hits))))

  -- `any(canary in source["excerpt"] for source in sources)`
  unfoldable pub leaked : String → List (RetrievalHit F) → Bool
  leaked canary [] = false
  leaked canary (hit ∷ hits) = if occurs_in canary hit.excerpt then true else leaked canary hits

abbrev pub other_tenant_canary : Uuid → String
other_tenant_canary tenant_id =
    if tenant_id == northstar_tenant then "CONDOR-74-NEVER-LEAK" else "ORCHID-27-NEVER-LEAK"

module _ {F : Type 0} (P : Platform F) where
  -- The receipt, before it is signed.
  unfoldable pub receipt_of :
      Principal
      → Uuid
      → String
      → ℕ
      → List (RetrievalHit F)
      → AuditEvent
      → QueryDraw
      → IsolationReceipt
  receipt_of principal request_id policy count hits event draw = record {
    receipt_id = draw.receipt_id;
    request_id = request_id;
    tenant_id = principal.tenant_id;
    actor = principal.subject;
    policy_version = policy;
    search_space_count = count;
    result_document_hashes = map (λ h. h.content_sha256) hits;
    audit_chain_head = event.event_hash;
    issued_at = draw.issued_at;
    signature = "";
  }

  -- `receipt_payload`: the fields that the signature covers.
  unfoldable pub receipt_payload : IsolationReceipt → Json F
  receipt_payload r = obj (
      field "request_id" (str (P.uuid_str r.request_id)) (
        field "tenant_id" (str (P.uuid_str r.tenant_id)) (
          field "actor" (str r.actor) (
            field "policy_version" (str r.policy_version) (
              field "search_space_count" (int (pos r.search_space_count)) (
                field "result_document_hashes" (arr (texts r.result_document_hashes))
                  (field "audit_chain_head" (str r.audit_chain_head) end)))))))

  unfoldable pub signed : String → IsolationReceipt → IsolationReceipt
  signed secret r = record r { signature = sign_receipt P secret (receipt_payload r) }

  -- The end of `query`: the signed receipt, the answer and the reply.
  unfoldable pub respond :
      String
      → Principal
      → QueryRequest
      → Uuid
      → String
      → ℕ
      → List (RetrievalHit F)
      → AuditEvent
      → QueryDraw
      → QueryReply F
  respond secret principal request request_id policy count hits event draw = record {
    answer = grounded_answer P request.question hits;
    sources = hits;
    isolation_receipt =
        signed secret (receipt_of principal request_id policy count hits event draw);
  }

  -- The audit entry and the reply of `ingest`.
  unfoldable pub ingest_entry : StoredDocument F → Uuid → AuditEntry F
  ingest_entry document request_id = record {
    action = "document.ingested";
    request_id = request_id;
    result_count = 1;
    detail = field "document_hash" (str document.content_sha256) end;
  }

  unfoldable pub ingest_reply : StoredDocument F → IngestReply
  ingest_reply document = record {
    document_id = document.document_id;
    content_sha256 = document.content_sha256;
    tenant_bound = true;
    message = "Encrypted chunk stored in the caller's tenant partition.";
  }

  -- The audit entry of `query`.
  unfoldable pub query_entry : QueryRequest → List (RetrievalHit F) → Uuid → AuditEntry F
  query_entry request hits request_id = record {
    action = "retrieval.completed";
    request_id = request_id;
    result_count = length hits;
    detail = field "query_sha256" (str (P.sha256_hex (P.encode request.question))) end;
  }
