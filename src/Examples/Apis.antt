-- ===== src/Examples/Apis.antt =====
-- The theorems about the endpoints at a concrete request.
use tenantvault_zero_trust_r.Base.{ℕ, ◌≡◌, refl, none, some, String, []}
use tenantvault_zero_trust_r.Base.Sorting.{sort}
use tenantvault_zero_trust_r.Result.{http_exception, ok, err}
use tenantvault_zero_trust_r.Exec.{result, after}
use tenantvault_zero_trust_r.Security.{Principal, can}
use tenantvault_zero_trust_r.Security.Tokens.{IsSigned}
use tenantvault_zero_trust_r.Models.{IngestRequest, QueryRequest}
use tenantvault_zero_trust_r.ControlPlane.{contract_for, authorize, policy_version}
use tenantvault_zero_trust_r.Memory.{
  memory_store, genesis, new_event, search, hits_of, append_audit, audit_head, count_for_tenant,
}
use tenantvault_zero_trust_r.Memory.Ranking.{ranked, scored}
use tenantvault_zero_trust_r.Memory.Refinement.{view_of, memory_store-Simulates}
use tenantvault_zero_trust_r.Engine
use tenantvault_zero_trust_r.Engine.{
  QueryReply, IngestDraw, QueryDraw, AttestDraw, check_plane, current_policy, respond, query_entry,
}
use tenantvault_zero_trust_r.Engine.Receipts.{IsAccounted}
use tenantvault_zero_trust_r.Engine.Lockout.{IsLocked}
use tenantvault_zero_trust_r.Api.{
  Headers, authenticated_principal, query, ingest, run_attestation, isolation_probe,
}
use tenantvault_zero_trust_r.Api.Boundary.{
  message, answered_query_is_authentic, quarantined_status_codes,
}
use tenantvault_zero_trust_r.Examples.Tokens.{reading, authority, accepted}
use tenantvault_zero_trust_r.Examples.Toy.{
  reader, contract, shut_plane, engine, question, query_draw,
}
use tenantvault_zero_trust_r.Memory.{MemoryRagStore}
use tenantvault_zero_trust_r.Engine.{Engine}

abbrev headers : Headers
headers = record { credentials = some "h.p.s"; tenant_override = none; received_at = 100 }

verified : authenticated_principal reading authority headers ≡ ok reader
unfolding authenticated_principal
verified = rw accepted refl

abbrev reply : QueryReply ℕ
reply =
    respond reading "secret" reader question 21 "v1" 0 []
      (new_event reading reader (query_entry reading question [] 21) genesis query_draw.audit)
      query_draw

answered :
    result (query reading authority (memory_store reading) headers question query_draw) engine
    ≡ ok reply
unfolding query Engine.query check_plane authorize contract_for current_policy policy_version search
    can hits_of ranked scored sort append_audit audit_head count_for_tenant
answered = rw verified refl

answered_query_is_authentic_example :
    (p : Principal) × (headers.tenant_override ≡ none)
    × (token : String) × (headers.credentials ≡ some token)
    × IsSigned reading authority 100 token p
    × IsAccounted reading p question none query_draw "secret"
        (view_of engine.store)
        (view_of
          (after
            (query reading authority (memory_store reading) headers question query_draw)
            engine).store)
        reply
answered_query_is_authentic_example =
    answered_query_is_authentic reading authority (memory_store reading) view_of
      (memory_store-Simulates reading) headers question query_draw engine reply answered

abbrev shut : Engine ℕ (MemoryRagStore ℕ)
shut = record engine { control_plane = some shut_plane }

shut-IsLocked : IsLocked 1 (contract 1) shut
shut-IsLocked = record { plane = shut_plane; present = refl; contract = refl; shut = refl }

quarantined_status_codes_example :
    ((r : QueryRequest) (d : QueryDraw)
      → query reading authority (memory_store reading) headers r d shut
        ≡ (err (http_exception 423 message), shut))
    × ((d : AttestDraw ℕ)
        → run_attestation reading authority (memory_store reading) headers d shut
          ≡ (err (http_exception 423 message), shut))
    × ((r : IngestRequest ℕ) (d : IngestDraw)
        → ingest reading authority (memory_store reading) headers r d shut
          ≡ (err (http_exception 403 message), shut))
    × ((d : QueryDraw)
        → isolation_probe reading authority (memory_store reading) headers d shut
          ≡ (err (http_exception 403 message), shut))
quarantined_status_codes_example =
    quarantined_status_codes reading authority (memory_store reading) headers reader (contract 1)
      shut verified shut-IsLocked
