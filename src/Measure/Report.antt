-- ===== src/Measure/Report.antt =====
-- scripts/measure_live_isolation.py: what is measured, and the report on it.
use tenantvault_zero_trust_r.Base.{
  ℕ, zero, suc, ◌-◌, String, Bool, true, false, not, Option, none, some, List, [], ◌∷◌, map, ◌==◌,
  ◌&&◌,
}
use tenantvault_zero_trust_r.Base.Int.{ℤ, pos, negsuc}
use tenantvault_zero_trust_r.Base.Lists.{length, filter}
use tenantvault_zero_trust_r.Base.Sorting.{sort}
use tenantvault_zero_trust_r.Result.{Result, ok, err, or_raise, index_error, value_error, ◌>>=◌}
use tenantvault_zero_trust_r.Json
use tenantvault_zero_trust_r.Json.{Json, bool, obj, end, field}
use tenantvault_zero_trust_r.Platform.{Platform}
use tenantvault_zero_trust_r.Security.{is_text}
use tenantvault_zero_trust_r.Http.{given}

pub data Kind : Type 0 where
  retrieval canary_probe : Kind

pub record Job : Type 0 where
  pub kind : Kind
  pub tenant : String

pub record Measurement (F : Type 0) : Type 0 where
  pub kind : Kind
  pub latency_ms : F
  pub valid : Bool

pub record LiveReport (F : Type 0) : Type 0 where
  pub header_override_status : ℕ
  pub body_override_status : ℕ
  pub retrieval_attempted : ℕ
  pub retrieval_passed : ℕ
  pub p50_ms : F
  pub p95_ms : F
  pub canary_attempted : ℕ
  pub canary_passed : ℕ
  pub exposures_observed : ℕ
  pub passed : Bool

-- `max(0, n - 1)` of a whole number
abbrev pub rank : ℤ → ℕ
rank (pos n) = n - 1
rank (negsuc n) = 0

-- `values[i]`
abbrev pub get_elem? : {A : Type 0} → List A → ℕ → Option A
get_elem? [] i = none
get_elem? (x ∷ xs) zero = some x
get_elem? (x ∷ xs) (suc i) = get_elem? xs i

-- The payload of `post_json`: what `response.json()` returns, or a mark where it raises.
abbrev pub payload_or_mark : {F : Type 0} → Option (Json F) → Json F
payload_or_mark none = obj (field "unparseable_response" (bool true) end)
payload_or_mark (some v) = v

module _ {F : Type 0} (P : Platform F) where
  unfoldable pub percentile : List F → F → Result F
  percentile [] fraction = ok (P.literal 0 0)
  percentile (x ∷ xs) fraction =
      let ordered = sort P.flt (x ∷ xs) in
      or_raise
        (get_elem? ordered (rank (P.ceil (P.fmul (P.of_int (pos (length ordered))) fraction))))
        index_error

  -- `payload.get("isolation_receipt", {}) if isinstance(payload, dict) else {}`
  unfoldable pub receipt_in : Json F → Json F
  receipt_in (obj fs) = Json.or_default (obj end) (Json.lookup "isolation_receipt" fs)
  receipt_in _ = obj end

  -- The `valid` field of a retrieval. What follows a test that fails is not evaluated.
  abbrev pub and_then : Bool → Result Bool → Result Bool
  and_then true r = r
  and_then false r = ok false

  unfoldable pub is_valid_retrieval : String → ℕ → Json F → Result Bool
  unfolding receipt_in
  is_valid_retrieval tenant_id status payload =
      let receipt = receipt_in payload in
      and_then (status == 200) (
        Json.get receipt "tenant_id" >>= λ owner. and_then (is_text owner tenant_id) (
          Json.get receipt "signature" >>= λ signature.
          and_then (given P signature)
            (Json.get payload "sources" >>= λ sources. ok (given P sources))))

-- The `valid` field of a probe.
unfoldable pub is_valid_probe : {F : Type 0} → ℕ → Json F → Bool
is_valid_probe status (obj fs) = status == 200 && is_text (Json.lookup "status" fs) "passed"
is_valid_probe status _ = false

abbrev pub is_retrieval : Kind → Bool
is_retrieval retrieval = true
is_retrieval canary_probe = false

module _ {F : Type 0} where
  abbrev pub retrievals : List (Measurement F) → List (Measurement F)
  retrievals ms = filter (λ m. is_retrieval m.kind) ms

  abbrev pub probes : List (Measurement F) → List (Measurement F)
  probes ms = filter (λ m. not (is_retrieval m.kind)) ms

  -- `sum(result["valid"] for result in results)`, and the same of `not result["valid"]`
  abbrev pub valid_count : List (Measurement F) → ℕ
  valid_count ms = length (filter (λ m. m.valid) ms)

  abbrev pub invalid_count : List (Measurement F) → ℕ
  invalid_count ms = length (filter (λ m. not m.valid) ms)

  -- `statistics.median`: no data is an error.
  abbrev pub median_of : Platform F → List F → Result F
  median_of P [] = err value_error
  median_of P (x ∷ xs) = ok (P.median (x ∷ xs))

  unfoldable pub live_report : Platform F → ℕ → ℕ → List (Measurement F) → Result (LiveReport F)
  live_report P by_header by_body results = do
    let latencies = map (λ m. m.latency_ms) (retrievals results)
    p50 ← median_of P latencies
    p95 ← percentile P latencies (P.literal 95 2)
    let attempted = length (retrievals results)
    let passed = valid_count (retrievals results)
    let exposures = invalid_count (probes results)
    ok (record {
      header_override_status = by_header;
      body_override_status = by_body;
      retrieval_attempted = attempted;
      retrieval_passed = passed;
      p50_ms = P.round p50 2;
      p95_ms = P.round p95 2;
      canary_attempted = length (probes results);
      canary_passed = valid_count (probes results);
      exposures_observed = exposures;
      passed = by_header == 400 && by_body == 422 && attempted == passed && exposures == 0;
    })
