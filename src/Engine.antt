-- ===== src/Engine.antt =====
-- src/tenantvault/engine.py: `TenantVaultEngine`, over any store that meets the protocol and
-- with or without a control plane.
mod Answer
pub mod Refinement
pub mod Isolation
pub mod Attesting
pub mod Sparing
pub mod Noninterference
pub mod Receipts
pub mod Framing
pub mod Lockout
pub mod FailClosed
pub mod Probing
pub use Answer.{IngestReply, QueryReply, ProbeReply, IngestDraw, QueryDraw, AttestDraw}
unfoldable pub use Answer.{
  default_policy_version, northstar_tenant, or_drawn, citations, grounded_answer, leaked,
  other_tenant_canary, receipt_of, receipt_payload, signed, respond, ingest_entry, ingest_reply,
  query_entry,
}
use tenantvault_zero_trust_r.Base.{
  ℕ, zero, suc, ◌+◌, ◌<>◌, String, Bool, true, false, Option, none, some, List, [], ◌∷◌, map, ◌==◌,
  if◌then◌else◌,
}
use tenantvault_zero_trust_r.Base.Int.{ℤ, pos}
use tenantvault_zero_trust_r.Base.Lists.{length}
use tenantvault_zero_trust_r.Base.Text
use tenantvault_zero_trust_r.Base.Text.{occurs_in, join, replace}
use tenantvault_zero_trust_r.Result
use tenantvault_zero_trust_r.Result.{runtime_error, Result, ok, err}
use tenantvault_zero_trust_r.Exec.{Exec, pure, raise, lift, reads, ◌>>=◌, ◌>>◌}
use tenantvault_zero_trust_r.Json.{Json, int, str, arr, obj, end, field, texts}
use tenantvault_zero_trust_r.Platform.{Platform, Bytes, Uuid, Time}
use tenantvault_zero_trust_r.Security.{Principal}
use tenantvault_zero_trust_r.Embedding.{embed}
use tenantvault_zero_trust_r.Models.{
  IngestRequest, QueryRequest, StoredDocument, RetrievalHit, IsolationReceipt, AuditEvent,
}
use tenantvault_zero_trust_r.Store.{ChunkDraw, AuditEntry, AuditDraw, RagStore, sign_receipt}
use tenantvault_zero_trust_r.ControlPlane
use tenantvault_zero_trust_r.ControlPlane.{
  ControlPlane, authorize, Probe, Attestation, AttestationDraw,
}
use tenantvault_zero_trust_r.ControlPlane.Ledger
use Prim.Native.Char.{Char, char}

pub record Engine (F W : Type 0) : Type 0 where
  pub store : W
  pub receipt_secret : String
  pub control_plane : Option (ControlPlane F)

module _ {F : Type 0} where
  -- `if self.control_plane: self.control_plane.authorize(...)`
  unfoldable pub check_plane : Option (ControlPlane F) → Principal → Option ℤ → Result (Unit {0})
  check_plane none principal top_k = ok tt
  check_plane (some plane) principal top_k =
      Result.◌>>=◌ (authorize plane principal top_k) λ _. ok tt

  -- `self.control_plane.policy_version(principal) if self.control_plane else POLICY_VERSION`
  unfoldable pub current_policy : Option (ControlPlane F) → Principal → Result String
  current_policy none principal = ok default_policy_version
  current_policy (some plane) principal = ControlPlane.policy_version plane principal

module _ {F W : Type 0} (P : Platform F) (R : RagStore F W) where
  abbrev pub on_store : {A : Type 0} → Exec W A → Exec (Engine F W) A
  on_store m s = let (r, w) = m s.store in (r, record s { store = w })

  unfoldable pub ingest :
      Principal → IngestRequest F → Option Uuid → IngestDraw → Exec (Engine F W) IngestReply
  ingest principal request request_id draw = do
    reads (λ s. check_plane s.control_plane principal none)
    document ← on_store (
        R.ingest principal
          (record {
            title = request.title;
            content = request.content;
            source_uri = request.source_uri;
            metadata = request.metadata;
            embedding = embed P request.content;
          })
          draw.chunk)
    on_store (
        R.append_audit principal (ingest_entry P document (or_drawn request_id draw.request_id))
          draw.audit)
    pure (ingest_reply P document)

  unfoldable pub query :
      Principal → QueryRequest → Option Uuid → QueryDraw → Exec (Engine F W) (QueryReply F)
  query principal request request_id draw = do
    reads (λ s. check_plane s.control_plane principal (some (pos request.top_k)))
    hits ← on_store (R.search principal (embed P request.question) request.top_k)
    event ← on_store (
        R.append_audit principal (query_entry P request hits (or_drawn request_id draw.request_id))
          draw.audit)
    policy ← reads (λ s. current_policy s.control_plane principal)
    count ← on_store (R.count_for_tenant principal)
    reads (λ s. ok (
        respond P s.receipt_secret principal request (or_drawn request_id draw.request_id) policy
          count hits event draw))

  unfoldable pub isolation_probe : Principal → QueryDraw → Exec (Engine F W) ProbeReply
  isolation_probe principal draw = do
    let canary = other_tenant_canary principal.tenant_id
    probe ← query principal (record { question = canary; top_k = 3 }) none draw
    pure (record {
      status = if leaked canary probe.sources then "failed" else "passed";
      assertion = "A cross-tenant canary was not present in this caller's retrieval results.";
      receipt = probe.isolation_receipt;
    })

  abbrev pub read_probe : ProbeReply → Probe
  read_probe r = record { status = some r.status; receipt_signature = some r.receipt.signature }

  -- `if not self.control_plane: raise RuntimeError(...)`
  abbrev pub need_plane : Option (ControlPlane F) → Result (Unit {0})
  need_plane none = err (runtime_error "an isolation control plane is required for attestation")
  need_plane (some c) = ok tt

  -- `self.control_plane`, where there is one.
  abbrev pub plane_of : Engine F W → Result (ControlPlane F)
  plane_of s = Result.or_raise s.control_plane Result.attribute_error

  abbrev pub put_plane : ControlPlane F → Engine F W → Engine F W
  put_plane c s = record s { control_plane = some c }

  -- `lambda: self.isolation_probe(principal)`
  unfoldable pub run_probe : Principal → QueryDraw → Exec (Engine F W) Probe
  run_probe principal draw = do reply ← isolation_probe principal draw; pure (read_probe reply)

  unfoldable pub attest : Principal → AttestDraw F → Exec (Engine F W) (Attestation F)
  attest principal draw = do
    reads (λ s. need_plane s.control_plane)
    Ledger.attest P plane_of put_plane principal (run_probe principal draw.probe) draw.started
        draw.finished draw.attestation
