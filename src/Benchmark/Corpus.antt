-- ===== src/Benchmark/Corpus.antt =====
-- scripts/fault_injection_benchmark.py: the tenants of the benchmark, their canaries and what is
-- ingested for them.
use tenantvault_zero_trust_r.Base.{ℕ, ◌+◌, ◌<>◌, String, [], ◌∷◌}
use tenantvault_zero_trust_r.Json.{Json, end}
use tenantvault_zero_trust_r.Platform.{Platform, Uuid}
use tenantvault_zero_trust_r.Security.{Principal}
use tenantvault_zero_trust_r.Models.{IngestRequest, QueryRequest, IsolationReceipt}
use tenantvault_zero_trust_r.Engine.{receipt_payload}

-- `UUID(int=index + 1)`
abbrev pub tenant : ℕ → Uuid
tenant index = index + 1

module _ {F : Type 0} (P : Platform F) where
  -- `f"{n:02d}"`
  abbrev pub two_digits : ℕ → String
  two_digits n = P.padded 2 n

  unfoldable pub benchmark_principal : ℕ → Principal
  benchmark_principal index = record {
    tenant_id = tenant index;
    subject = "benchmark-tenant-" <> two_digits (index + 1);
    scopes = "rag:read" ∷ "rag:write" ∷ [];
  }

  unfoldable pub canary_for : ℕ → String
  canary_for index = "TENANT-" <> (two_digits (index + 1) <> "-CANARY-DO-NOT-DISCLOSE")

  -- The payload of a receipt, with another tenant put in.
  unfoldable pub tampered_payload : IsolationReceipt → Uuid → Json F
  tampered_payload receipt other = receipt_payload P (record receipt { tenant_id = other })

  unfoldable pub restricted_brief : ℕ → IngestRequest F
  restricted_brief index = record {
    title = "Tenant " <> (two_digits (index + 1) <> " restricted brief");
    source_uri = "benchmark://tenant-" <> (two_digits (index + 1) <> "/restricted");
    content = canary_for index <> (" belongs only to tenant " <> (two_digits (index + 1) <> "."));
    metadata = end;
  }

  unfoldable pub operational_note : ℕ → ℕ → IngestRequest F
  operational_note index number = record {
    title = "Tenant " <> (two_digits (index + 1) <> (" operational note " <> two_digits number));
    source_uri =
        "benchmark://tenant-" <> (two_digits (index + 1) <> ("/note-" <> two_digits number));
    content =
        "Tenant "
        <> (two_digits (index + 1)
            <> (" internal operational note "
                <> (two_digits number <> ". This synthetic document is a retrieval distractor.")));
    metadata = end;
  }

  -- `QueryRequest(question=canary_for(index), top_k=1)`
  unfoldable pub canary_request : ℕ → QueryRequest
  canary_request index = record { question = canary_for index; top_k = 1 }
