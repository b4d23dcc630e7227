-- ===== src/Examples/Engines.antt =====
-- The engine's theorems at concrete engines over the in-memory store.
use tenantvault_zero_trust_r.Base.{ℕ, ◌≡◌, refl, Option, none, some, List, [], ◌∷◌}
use tenantvault_zero_trust_r.Base.Int.{pos}
use tenantvault_zero_trust_r.Base.Sorting.{sort}
use tenantvault_zero_trust_r.Result.{permission_error, ok, err}
use tenantvault_zero_trust_r.Exec.{result, after}
use tenantvault_zero_trust_r.Platform.{Uuid}
use tenantvault_zero_trust_r.Security.{can}
use tenantvault_zero_trust_r.Models.{IngestRequest, QueryRequest}
use tenantvault_zero_trust_r.ControlPlane.{
  TenantContract, ControlPlane, contract_for, authorize, policy_version,
}
use tenantvault_zero_trust_r.Memory.{
  MemoryRagStore, memory_store, genesis, new_event, search, hits_of, append_audit, audit_head,
  count_for_tenant,
}
use tenantvault_zero_trust_r.Memory.Ranking.{ranked, scored}
use tenantvault_zero_trust_r.Memory.Refinement.{view_of, memory_store-Simulates}
use tenantvault_zero_trust_r.Engine.{
  Engine, QueryReply, IngestDraw, QueryDraw, AttestDraw, check_plane, current_policy, respond,
  query_entry, ingest, query, attest,
}
use tenantvault_zero_trust_r.Engine.Noninterference.{
  Call, ingesting, querying, attesting, own, run, query_noninterference, attest_noninterference,
}
use tenantvault_zero_trust_r.Engine.Receipts.{IsAccounted, query-IsAccounted}
use tenantvault_zero_trust_r.Engine.Lockout.{lockout, IsLocked, quarantined_tenant_is_shut_out}
use tenantvault_zero_trust_r.Base.{true}
use tenantvault_zero_trust_r.ControlPlane.{Attestation}
use tenantvault_zero_trust_r.ControlPlane.Ledger
use tenantvault_zero_trust_r.ControlPlane.Ledger.{record_attestation, sign_attestation}
use tenantvault_zero_trust_r.Store.{sign_receipt}
use tenantvault_zero_trust_r.Engine.{run_probe, isolation_probe, leaked, signed}
use tenantvault_zero_trust_r.Engine.FailClosed.{failed_attestation_quarantines}
use tenantvault_zero_trust_r.Engine.Probing.{small_cap_blocks_attestation}
use tenantvault_zero_trust_r.Examples.Toy.{
  toy, reader, neighbour, contract, compiler, shut_plane, open_plane, engine, upload, question,
  ingest_draw, query_draw, attest_draw,
}

abbrev calls : List (Call ℕ)
calls =
    ingesting neighbour upload none ingest_draw
    ∷ ingesting reader upload none ingest_draw
    ∷ attesting neighbour attest_draw
    ∷ querying neighbour question none query_draw
    ∷ []

query_noninterference_example :
    result
      (query toy (memory_store toy) reader question none query_draw)
      (run toy (memory_store toy) calls engine)
    ≡ result
        (query toy (memory_store toy) reader question none query_draw)
        (run toy (memory_store toy) (own 1 calls) engine)
query_noninterference_example =
    query_noninterference toy (memory_store toy) view_of (memory_store-Simulates toy) reader
      question none query_draw calls engine

attest_noninterference_example :
    result
      (attest toy (memory_store toy) reader attest_draw)
      (run toy (memory_store toy) calls engine)
    ≡ result
        (attest toy (memory_store toy) reader attest_draw)
        (run toy (memory_store toy) (own 1 calls) engine)
attest_noninterference_example =
    attest_noninterference toy (memory_store toy) view_of (memory_store-Simulates toy) reader
      attest_draw calls engine

abbrev policy_reply : QueryReply ℕ
policy_reply =
    respond toy "secret" reader question 21 "v1" 0 []
      (new_event toy reader (query_entry toy question [] 21) genesis query_draw.audit) query_draw

answered :
    result (query toy (memory_store toy) reader question none query_draw) engine ≡ ok policy_reply
unfolding query check_plane authorize contract_for current_policy policy_version search can hits_of
    ranked scored sort append_audit audit_head count_for_tenant
answered = refl

query-IsAccounted_example :
    IsAccounted toy reader question none query_draw "secret"
      (view_of engine.store)
      (view_of (after (query toy (memory_store toy) reader question none query_draw) engine).store)
      policy_reply
query-IsAccounted_example =
    query-IsAccounted toy (memory_store toy) view_of (memory_store-Simulates toy) reader question
      none query_draw engine policy_reply answered

abbrev shut_engine : Engine ℕ (MemoryRagStore ℕ)
shut_engine = record engine { control_plane = some shut_plane }

shut_engine-IsLocked : IsLocked 1 (contract 1) shut_engine
shut_engine-IsLocked = record { plane = shut_plane; present = refl; contract = refl; shut = refl }

quarantined_tenant_is_shut_out_example :
    ((r : QueryRequest) (id : Option Uuid) (d : QueryDraw)
      → query toy (memory_store toy) reader r id d (run toy (memory_store toy) calls shut_engine)
        ≡ (err lockout, run toy (memory_store toy) calls shut_engine))
    × ((r : IngestRequest ℕ) (id : Option Uuid) (d : IngestDraw)
        → ingest toy (memory_store toy) reader r id d (run toy (memory_store toy) calls shut_engine)
          ≡ (err lockout, run toy (memory_store toy) calls shut_engine))
    × ((d : AttestDraw ℕ)
        → attest toy (memory_store toy) reader d (run toy (memory_store toy) calls shut_engine)
          ≡ (err lockout, run toy (memory_store toy) calls shut_engine))
quarantined_tenant_is_shut_out_example =
    quarantined_tenant_is_shut_out toy (memory_store toy) reader (contract 1) calls shut_engine
      shut_engine-IsLocked

-- A contract that `PolicyCompiler` accepts, with a cap of two.
abbrev small : TenantContract
small = record (contract 1) { max_results = pos 2 }

abbrev small_plane : ControlPlane ℕ
small_plane = record open_plane { compiler = record compiler { contracts = (1, small) ∷ [] } }

abbrev small_engine : Engine ℕ (MemoryRagStore ℕ)
small_engine = record engine { control_plane = some small_plane }

small_allowed : authorize small_plane reader none ≡ ok small
unfolding authorize contract_for
small_allowed = refl

small_cap_blocks_attestation_example :
    attest toy (memory_store toy) reader attest_draw small_engine ≡ (
      err (permission_error "requested result count exceeds the tenant policy contract"),
      small_engine,
    )
small_cap_blocks_attestation_example =
    small_cap_blocks_attestation toy (memory_store toy) reader attest_draw small_engine small_plane
      small refl small_allowed refl

-- A probe that takes fifty seconds, twenty more than the contract allows.
abbrev slow : AttestDraw ℕ
slow = record attest_draw { finished = 50 }

abbrev slow_record : Attestation ℕ
slow_record = record {
  attestation_id = 7;
  tenant_id = 1;
  policy_version = "v1";
  contract_hash = "hash";
  status = "failed";
  quarantined = true;
  elapsed_ms = 50000;
  issued_at = 100;
  probe_receipt_signature = some "mac";
  signature = "mac";
}

recorded : result (attest toy (memory_store toy) reader slow) engine ≡ ok slow_record
unfolding attest Ledger.attest run_probe isolation_probe leaked respond signed sign_receipt
    record_attestation sign_attestation query check_plane authorize contract_for current_policy
    policy_version search can hits_of ranked scored sort append_audit audit_head count_for_tenant
recorded = refl

failed_attestation_quarantines_example :
    (t : TenantContract) × IsLocked 1 t (after (attest toy (memory_store toy) reader slow) engine)
failed_attestation_quarantines_example =
    failed_attestation_quarantines toy (memory_store toy) reader slow engine slow_record recorded
      refl
