-- ===== src/Api.antt =====
-- src/tenantvault/api.py: the endpoints over one engine. FastAPI has parsed and validated the body
-- and resolves the dependency on the principal before it calls a handler; an `http_exception`
-- carries the status code and the detail of the answer. Any other exception that is left is an
-- internal error (500).
pub mod Boundary
pub mod Startup
pub mod Restart
pub mod Service
pub mod Statuses
use tenantvault_zero_trust_r.Base.{
  ℕ, String, Bool, true, false, not, Option, none, some, List, [], ◌∷◌,
}
use tenantvault_zero_trust_r.Base.Int.{pos}
use tenantvault_zero_trust_r.Result
use tenantvault_zero_trust_r.Result.{
  Error, permission_error, tenant_quarantined_error, authentication_error, http_exception, Result,
  ok, err, raise_if,
}
use tenantvault_zero_trust_r.Exec.{Exec, lift, reads, ◌>>=◌, ◌>>◌}
use tenantvault_zero_trust_r.Platform.{Platform, Uuid, Time}
use tenantvault_zero_trust_r.Security.{Principal, TokenAuthority, verify, mint}
use tenantvault_zero_trust_r.Models.{IngestRequest, QueryRequest}
use tenantvault_zero_trust_r.Store.{RagStore}
use tenantvault_zero_trust_r.ControlPlane.{ControlPlane, Attestation, Status, status_for}
use tenantvault_zero_trust_r.Engine
use tenantvault_zero_trust_r.Engine.{
  Engine, IngestReply, QueryReply, ProbeReply, IngestDraw, QueryDraw, AttestDraw, northstar_tenant,
}

-- `BETA`
abbrev pub acme_tenant : Uuid
acme_tenant = 0x22222222222222222222222222222222

-- The headers that the dependency reads, and the time at which it reads them.
pub record Headers : Type 0 where
  pub credentials : Option String
  pub tenant_override : Option String
  pub received_at : Time

abbrev pub is_given : Option String → Bool
is_given none = false
is_given (some s) = true

-- `except AuthenticationError`
unfoldable pub as_unauthorized : Error → Error
as_unauthorized (authentication_error message) = http_exception 401 message
as_unauthorized e = e

-- `except PermissionError`: a quarantined tenant is among them.
unfoldable pub as_forbidden : Error → Error
as_forbidden (permission_error message) = http_exception 403 message
as_forbidden (tenant_quarantined_error message) = http_exception 403 message
as_forbidden e = e

-- `except TenantQuarantinedError`, then `except PermissionError`
unfoldable pub as_locked : Error → Error
as_locked (tenant_quarantined_error message) = http_exception 423 message
as_locked (permission_error message) = http_exception 403 message
as_locked e = e

abbrev pub translated : {A : Type 0} → (Error → Error) → Result A → Result A
translated f (ok a) = ok a
translated f (err e) = err (f e)

-- `try`/`except` around a method
abbrev pub catching : {S A : Type 0} → (Error → Error) → Exec S A → Exec S A
catching f m s = let (r, t) = m s in (translated f r, t)

-- One entry of what `demo_tokens` returns.
pub record DemoIdentity : Type 0 where
  pub label : String
  pub token : String

module _ {F : Type 0} (P : Platform F) (authority : TokenAuthority) where
  abbrev pub bearer : Option String → Time → Result Principal
  bearer none now = err (http_exception 401 "Bearer credential required")
  bearer (some token) now = translated as_unauthorized (verify P authority token now)

  unfoldable pub authenticated_principal : Headers → Result Principal
  authenticated_principal h =
      Result.◌>>◌
        (raise_if (is_given h.tenant_override) (
          http_exception 400
            "X-Tenant-Id is forbidden; tenant identity comes only from the signed credential."))
        (bearer h.credentials h.received_at)

  -- The two identities of the demo by name, in demo mode.
  unfoldable pub demo_tokens : Bool → Time → Result (List (String × DemoIdentity))
  demo_tokens demo_mode now =
      Result.◌>>◌ (raise_if (not demo_mode) (http_exception 404 "Demo identities are disabled")) (
        ok (
          (
            "northstar",
            record {
              label = "Northstar Health";
              token =
                  mint P authority northstar_tenant "alice@northstar.example"
                    ("rag:read" ∷ "rag:write" ∷ []) (pos 3600) now;
            },
          )
          ∷ (
            "acme",
            record {
              label = "Acme Robotics";
              token =
                  mint P authority acme_tenant "bob@acme.example" ("rag:read" ∷ "rag:write" ∷ [])
                    (pos 3600) now;
            },
          )
          ∷ []))

  module _ {W : Type 0} (R : RagStore F W) where
    -- The handlers, each after its dependency.
    unfoldable pub ingest : Headers → IngestRequest F → IngestDraw → Exec (Engine F W) IngestReply
    ingest headers request draw = do
      principal ← lift (authenticated_principal headers)
      catching as_forbidden (Engine.ingest P R principal request none draw)

    unfoldable pub query : Headers → QueryRequest → QueryDraw → Exec (Engine F W) (QueryReply F)
    query headers request draw = do
      principal ← lift (authenticated_principal headers)
      catching as_locked (Engine.query P R principal request none draw)

    unfoldable pub isolation_probe : Headers → QueryDraw → Exec (Engine F W) ProbeReply
    isolation_probe headers draw = do
      principal ← lift (authenticated_principal headers)
      catching as_forbidden (Engine.isolation_probe P R principal draw)

    unfoldable pub run_attestation : Headers → AttestDraw F → Exec (Engine F W) (Attestation F)
    run_attestation headers draw = do
      principal ← lift (authenticated_principal headers)
      catching as_locked (Engine.attest P R principal draw)

    -- `engine.control_plane.status_for(principal) if engine.control_plane else {}`
    abbrev pub status_or_empty : Option (ControlPlane F) → Principal → Result (Option (Status F))
    status_or_empty none principal = ok none
    status_or_empty (some plane) principal =
        Result.◌>>=◌ (status_for plane principal) λ status. ok (some status)

    unfoldable pub control_plane_status : Headers → Exec (Engine F W) (Option (Status F))
    control_plane_status headers = do
      principal ← lift (authenticated_principal headers)
      reads (λ s. status_or_empty s.control_plane principal)
