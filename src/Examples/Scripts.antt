-- ===== src/Examples/Scripts.antt =====
-- The embedder, the ranking, the benchmark and the two measuring scripts at concrete inputs.
use Prim.Native.Nat.{min}
use mathlib.Core.List.{Perm, Mem}
use mathlib.Core.List.Perm
use tenantvault_zero_trust_r.Base.{
  ℕ, ◌≡◌, ◌≢◌, ◌↔◌, ◌<◌, refl, String, true, false, none, some, List, [], ◌∷◌, ◌++◌, arith, text_eq,
  Option, Bool, ◌==◌, if◌then◌else◌,
}
use tenantvault_zero_trust_r.Base.Int.{pos}
use tenantvault_zero_trust_r.Base.Lists.{length, All}
use tenantvault_zero_trust_r.Base.Sorting.{sort}
use tenantvault_zero_trust_r.Result.{ok}
use tenantvault_zero_trust_r.Exec.{Exec, result, pure}
use tenantvault_zero_trust_r.Json.{
  Json, str, arr, obj, nil, cons, end, field, get, lookup, subscript,
}
use tenantvault_zero_trust_r.Platform.{Platform}
use tenantvault_zero_trust_r.Models.{StoredDocument}
use tenantvault_zero_trust_r.Memory.{MemoryRagStore, search, hits_of, own_documents}
use tenantvault_zero_trust_r.Memory.Order.{IsOrdering, close_documents, search_takes_nearest}
use tenantvault_zero_trust_r.Embedding.{embed, slot_of, dimensions}
use tenantvault_zero_trust_r.Embedding.Bounds.{embed_bounds}
use tenantvault_zero_trust_r.Benchmark.{BenchmarkDraw}
use tenantvault_zero_trust_r.Http.{Request, Response, Client, read_tokens}
use tenantvault_zero_trust_r.ReleaseGate.{TenantAttestation, GateReport, acme_text}
use tenantvault_zero_trust_r.ReleaseGate.Verdict as GateVerdict
use tenantvault_zero_trust_r.Http.Answers.{Answered}
use tenantvault_zero_trust_r.Measure.Runs.{reply, AllValid}
use tenantvault_zero_trust_r.Measure.Claims
use tenantvault_zero_trust_r.Measure.{
  Job, retrieval, canary_probe, LiveReport, jobs, percentile, measure, boundary_checks, post_json,
  run_jobs, check, is_valid_retrieval, receipt_in, is_valid_probe, live_report,
}
use tenantvault_zero_trust_r.Security.{to_str, can}
use tenantvault_zero_trust_r.Base.Text.{rstrip}
use tenantvault_zero_trust_r.Measure.Percentile.{percentile_in_range}
use tenantvault_zero_trust_r.Measure.Accounts.{IsAccount, measure_accounts}
use tenantvault_zero_trust_r.Examples.Toy.{toy, cipher, reader, ingest_draw, query_draw}

embed_bounds_example :
    (length (embed toy "orchid") ≡ dimensions)
    × (slot_of (255 ∷ 255 ∷ 255 ∷ 255 ∷ []) < length (embed toy "orchid"))
embed_bounds_example = embed_bounds toy "orchid" (255 ∷ 255 ∷ 255 ∷ 255 ∷ [])

below-IsOrdering : IsOrdering toy
below-IsOrdering = record {
  asymmetric = λ x y h. ground arith;
  transitive = λ x y z h k. ground arith;
}

abbrev note : List ℕ → StoredDocument ℕ
note embedding = record {
  document_id = 12;
  tenant_id = 1;
  title = "Plan";
  source_uri = "doc://plan";
  nonce = [];
  ciphertext = [];
  content_sha256 = "hash";
  embedding = embedding;
  metadata = end;
  created_at = 101;
}

abbrev notes : List (StoredDocument ℕ)
notes = note (1 ∷ []) ∷ note (3 ∷ []) ∷ note (2 ∷ []) ∷ []

abbrev noted : MemoryRagStore ℕ
noted = record { cipher = cipher; documents = (1, notes) ∷ []; events = [] }

may_read : can reader "rag:read" ≡ true
unfolding can
may_read = refl

search_takes_nearest_example :
    (best rest : List (ℕ × StoredDocument ℕ)) × (result (search toy reader (1 ∷ []) 2) noted
      ≡ hits_of toy cipher reader best)
    × Perm (best ++ rest) (close_documents toy (1 ∷ []) (own_documents noted 1))
    × (length best ≡ min 2 (length (close_documents toy (1 ∷ []) (own_documents noted 1))))
    × All (λ a. All (λ b. toy.flt a.0 b.0 ≡ false) rest) best
search_takes_nearest_example =
    search_takes_nearest toy below-IsOrdering noted reader (1 ∷ []) 2 may_read

abbrev draw : BenchmarkDraw
draw = record {
  document = λ i j. ingest_draw;
  attack = λ i j. query_draw;
  receipt = λ i. query_draw;
}

-- Of the latencies 30, 10 and 20, with a fraction that rounds up to the second.
abbrev second : Platform ℕ
second = record toy { ceil = λ x. pos 2 }

abbrev latencies : List ℕ
latencies = 30 ∷ 10 ∷ 20 ∷ []

some_latency : latencies ≢ []
some_latency h = cc

percentile_in_range_example : (x : ℕ) × (percentile second latencies 1 ≡ ok x) × Mem x latencies
percentile_in_range_example = percentile_in_range second latencies 1 some_latency (omega arith)

-- A service that answers as the deployed one should. Its tokens are "n" and "a".
abbrev northstar_text : String
northstar_text = "11111111-1111-1111-1111-111111111111"

abbrev demo_tokens : Json ℕ
demo_tokens = obj (
    field "northstar" (obj (field "token" (str "n") end))
      (field "acme" (obj (field "token" (str "a") end)) end))

abbrev owner_of : List (String × String) → String
owner_of [] = ""
owner_of ((name, value) ∷ headers) = if text_eq value "Bearer n" then northstar_text else acme_text

abbrev good_body : String → Json ℕ
good_body owner = obj (
    field "status" (str "passed") (
      field "signature" (str "mac") (
        field "workspace_state" (str "active") (
          field "policy_version" (str "v1") (
            field "sources" (arr (cons (str "Plan") nil)) (
              field "isolation_receipt"
                (obj (field "tenant_id" (str owner) (field "signature" (str "mac") end))) end))))))

abbrev is_some : Option (Json ℕ) → Bool
is_some none = false
is_some (some v) = true

abbrev claims_tenant : Option (Json ℕ) → Bool
claims_tenant (some (obj fs)) = is_some (lookup "tenant_id" fs)
claims_tenant _ = false

abbrev status_of : Request ℕ → ℕ
status_of r = if length r.headers == 2 then 400 else if claims_tenant r.body then 422 else 200

abbrev answer : Request ℕ → Response ℕ
answer r =
    if text_eq r.url "x/api/demo/tokens"
    then record {
      status_code = 200;
      raises = false;
      content_type = "application/json";
      body = some demo_tokens;
    }
    else record {
      status_code = status_of r;
      raises = false;
      content_type = "application/json";
      body = some (good_body (owner_of r.headers));
    }

abbrev service : Client ℕ (Unit {0})
service r = pure (answer r)

abbrev clock : Exec (Unit {0}) ℕ
clock = pure 7

abbrev item : String → TenantAttestation ℕ
item tenant = record {
  tenant = tenant;
  attestation_status_code = 200;
  attestation_status = some (str "passed");
  attestation_signature_present = true;
  workspace_state = some (str "active");
  policy_version = some (str "v1");
}

abbrev gate : GateReport ℕ
gate = record {
  target = "x";
  header_override_status = 400;
  body_override_status = 422;
  tenant_attestations = item "northstar" ∷ item "acme" ∷ [];
  passed = true;
}

-- The jobs of one round, completed in another order.
abbrev completed : List Job
completed =
    record { kind = canary_probe; tenant = "northstar" }
    ∷ record { kind = retrieval; tenant = "northstar" }
    ∷ record { kind = retrieval; tenant = "acme" }
    ∷ record { kind = canary_probe; tenant = "acme" }
    ∷ []

completed-Perm : Perm completed (jobs 1)
completed-Perm =
    Perm.swap (record { kind = retrieval; tenant = "northstar" })
      (record { kind = canary_probe; tenant = "northstar" })
      (record { kind = retrieval; tenant = "acme" }
        ∷ record { kind = canary_probe; tenant = "acme" }
        ∷ [])

abbrev live : LiveReport ℕ
live = record {
  header_override_status = 400;
  body_override_status = 422;
  retrieval_attempted = 2;
  retrieval_passed = 2;
  p50_ms = 14000;
  p95_ms = 7000;
  canary_attempted = 2;
  canary_passed = 2;
  exposures_observed = 0;
  passed = true;
}

live_run : result (measure toy service clock "x" (pos 1) (pos 8) completed) tt ≡ ok live
unfolding measure rstrip read_tokens boundary_checks post_json run_jobs check to_str
    is_valid_retrieval receipt_in get subscript is_valid_probe live_report percentile sort
live_run = refl

measure_accounts_example :
    (a : Response ℕ) × (document : Json ℕ) × (tokens : List (String × Json ℕ)) × (result
        (service (Claims.first_request toy service clock (rstrip b'/' "x")))
        tt
      ≡ ok a)
    × (a.raises ≡ false)
    × (a.body ≡ some document)
    × (read_tokens document ≡ ok tokens)
    × IsAccount 1 live
    × ((live.passed ≡ true) ↔ (
        Answered 400 (
          reply toy service clock
            (Claims.header_claim toy service clock (rstrip b'/' "x") tokens)
            tt)
        × Answered 422 (
            reply toy service clock
              (Claims.body_claim toy service clock (rstrip b'/' "x") tokens)
              tt)
        × AllValid toy service clock (rstrip b'/' "x") tokens completed tt))
measure_accounts_example =
    measure_accounts toy service clock "x" 1 (pos 8) completed tt live completed-Perm live_run
