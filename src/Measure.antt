-- ===== src/Measure.antt =====
-- scripts/measure_live_isolation.py: the measurement of a live service. The client and the clock are
-- parameters; the checks of the thread pool are taken one by one, in the order in which they
-- complete. The texts and the time in the report are left out.
mod Report
pub mod Percentile
pub mod Validity
pub mod Runs
pub mod Claims
pub mod Accounts
pub use Report.{Kind, retrieval, canary_probe, Job, Measurement, LiveReport}
unfoldable pub use Report.{
  payload_or_mark, percentile, rank, receipt_in, is_valid_retrieval, is_valid_probe, live_report,
  is_retrieval, retrievals, probes, valid_count, invalid_count, get_elem?, median_of,
}
use tenantvault_zero_trust_r.Base.{
  ℕ, zero, suc, String, Bool, true, false, not, Option, none, some, List, [], ◌∷◌, ◌++◌, ◌<>◌, ◌==◌,
  ◌&&◌, if◌then◌else◌, ◌||◌, leb, ltb, text_eq,
}
use tenantvault_zero_trust_r.Base.Int.{ℤ, pos, leb_ℤ, pos_part}
use tenantvault_zero_trust_r.Base.Text.{rstrip}
use tenantvault_zero_trust_r.Result.{Result, ok, err, or_raise, raise_if, key_error, system_exit}
use tenantvault_zero_trust_r.Exec.{Exec, pure, lift, ◌>>=◌, ◌>>◌}
use tenantvault_zero_trust_r.Json.{Json, int, str, obj, end, field}
use tenantvault_zero_trust_r.Platform.{Platform}
use tenantvault_zero_trust_r.Security.{to_str}
use tenantvault_zero_trust_r.Http.{
  get, post, Request, Response, Client, raise_for_status, json_of, read_tokens, token_of,
}

-- `QUESTIONS[tenant]`
abbrev pub question_for : String → String
question_for tenant =
    if text_eq tenant "northstar"
    then "Who owns the cardiac escalation review?"
    else "What is restricted in the Acme flight systems note?"

-- `TENANTS[tenant]`
abbrev pub tenant_text : String → String
tenant_text tenant =
    if text_eq tenant "northstar"
    then "11111111-1111-1111-1111-111111111111"
    else "22222222-2222-2222-2222-222222222222"

-- The jobs of one iteration, and of all.
abbrev pub round : List Job
round =
    record { kind = retrieval; tenant = "northstar" }
    ∷ record { kind = canary_probe; tenant = "northstar" }
    ∷ record { kind = retrieval; tenant = "acme" }
    ∷ record { kind = canary_probe; tenant = "acme" }
    ∷ []

abbrev pub jobs : ℕ → List Job
jobs zero = []
jobs (suc n) = round ++ jobs n

module _ {F W : Type 0} (P : Platform F) (send : Client F W) (perf_counter : Exec W F) where
  unfoldable pub post_json :
      String → List (String × String) → Option (Json F) → Exec W (ℕ × Json F × F)
  post_json url headers body = do
    started ← perf_counter
    response ← send (record { method = post; url = url; headers = headers; body = body })
    finished ← perf_counter
    pure (
      response.status_code,
      payload_or_mark response.body,
      P.fmul (P.fsub finished started) (P.of_int (pos 1000)),
    )

  -- `{"Authorization": f"Bearer {tokens[tenant]}"}`
  abbrev pub headers_for : List (String × Json F) → String → Result (List (String × String))
  headers_for tokens tenant =
      tenantvault_zero_trust_r.Result.◌>>=◌ (or_raise (token_of tenant tokens) key_error)
        λ token. ok (("Authorization", "Bearer " <> to_str P token) ∷ [])

  abbrev pub question_body : String → Json F
  question_body tenant =
      obj (field "question" (str (question_for tenant)) (field "top_k" (int (pos 3)) end))

  -- `retrieval(tenant)`, `canary_probe(tenant)`
  unfoldable pub check : String → List (String × Json F) → Kind → String → Exec W (Measurement F)
  check url tokens retrieval tenant = do
    headers ← lift (headers_for tokens tenant)
    answer ← post_json (url <> "/v1/query") headers (some (question_body tenant))
    valid ← lift (is_valid_retrieval P (tenant_text tenant) answer.0 answer.1)
    pure (record { kind = retrieval; latency_ms = answer.2; valid = valid })
  check url tokens canary_probe tenant = do
    headers ← lift (headers_for tokens tenant)
    answer ← post_json (url <> "/v1/isolation/probe") headers none
    pure (record {
      kind = canary_probe;
      latency_ms = answer.2;
      valid = is_valid_probe answer.0 answer.1;
    })

  unfoldable pub run_jobs :
      String → List (String × Json F) → List Job → Exec W (List (Measurement F))
  run_jobs url tokens [] = pure []
  run_jobs url tokens (j ∷ js) = do
    m ← check url tokens j.kind j.tenant
    ms ← run_jobs url tokens js
    pure (m ∷ ms)

  -- The two calls that claim another tenant.
  unfoldable pub boundary_checks : String → List (String × Json F) → Exec W (ℕ × ℕ)
  boundary_checks url tokens = do
    alpha_headers ← lift (headers_for tokens "northstar")
    by_header ←
        post_json (url <> "/v1/query") (alpha_headers ++ (("X-Tenant-Id", tenant_text "acme") ∷ []))
          (some (obj (field "question" (str (question_for "northstar")) end)))
    by_body ← post_json (url <> "/v1/query") alpha_headers (
        some (
          obj (
            field "question" (str (question_for "northstar"))
              (field "tenant_id" (str (tenant_text "acme")) end))))
    pure (by_header.0, by_body.0)

  -- `parser.error` exits with 2.
  abbrev pub check_arguments : ℤ → ℤ → Result (Unit {0})
  check_arguments iterations workers =
      raise_if (not (leb_ℤ (pos 1) iterations) || not (leb_ℤ (pos 1) workers)) (system_exit 2)

  abbrev pub tokens_request : String → Request F
  tokens_request url = record {
    method = get;
    url = url <> "/api/demo/tokens";
    headers = [];
    body = none;
  }

  -- `main` up to the report: `completed` is the order in which the jobs complete.
  unfoldable pub measure : String → ℤ → ℤ → List Job → Exec W (LiveReport F)
  measure base iterations workers completed = do
    lift (check_arguments iterations workers)
    let url = rstrip b'/' base
    tokens_response ← send (tokens_request url)
    lift (raise_for_status tokens_response)
    body ← lift (json_of tokens_response)
    tokens ← lift (read_tokens body)
    statuses ← boundary_checks url tokens
    results ← run_jobs url tokens completed
    lift (live_report P statuses.0 statuses.1 results)
