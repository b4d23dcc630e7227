-- ===== src/Benchmark.antt =====
-- scripts/fault_injection_benchmark.py: `run_benchmark`, which attacks every pair of tenants of a
-- new engine over `MemoryRagStore`, and the exit code of its `main`. The texts that the report
-- explains itself with are left out, and so is the validation of the requests that it builds.
mod Corpus
pub mod Runs
pub mod Seeding
pub mod Counting
pub mod Attacks
pub mod Receipts
pub mod Outcome
pub use Corpus.{tenant, two_digits}
unfoldable pub use Corpus.{
  benchmark_principal, canary_for, tampered_payload, restricted_brief, operational_note,
  canary_request,
}
use tenantvault_zero_trust_r.Base.{
  ℕ, zero, suc, ◌+◌, ◌*◌, ◌-◌, ◌%◌, String, Bool, true, false, not, Option, none, some, List, [],
  ◌∷◌, ◌++◌, ◌==◌, text_eq, ◌&&◌, if◌then◌else◌,
}
use tenantvault_zero_trust_r.Base.Int.{ℤ, pos, leb_ℤ, pos_part}
use tenantvault_zero_trust_r.Base.Lists.{get_last?}
use tenantvault_zero_trust_r.Base.Dict.{Dict, lookup, insert}
use tenantvault_zero_trust_r.Result
use tenantvault_zero_trust_r.Result.{
  Error, Result, ok, err, raise_if, or_raise, value_error, index_error, key_error, invalid_tag,
  is_value_error,
}
use tenantvault_zero_trust_r.Exec.{Exec, pure, lift, reads, result, ◌>>=◌, ◌>>◌}
use tenantvault_zero_trust_r.Platform.{Platform, Uuid}
use tenantvault_zero_trust_r.Security.{TenantCipher, decrypt}
use tenantvault_zero_trust_r.Models.{StoredDocument}
use tenantvault_zero_trust_r.Store.{sign_receipt}
use tenantvault_zero_trust_r.Memory.{MemoryRagStore, memory_store, new_store, read_documents}
use tenantvault_zero_trust_r.Embedding.{embed, cosine_similarity}
use tenantvault_zero_trust_r.Engine.{
  Engine, IngestDraw, QueryDraw, QueryReply, on_store, ingest, query, leaked,
}

-- What the calls of the engine draw: those that ingest, by tenant and document, the attacks, by
-- attacker and victim, and the queries whose receipts are tampered with.
pub record BenchmarkDraw : Type 0 where
  pub document : ℕ → ℕ → IngestDraw
  pub attack : ℕ → ℕ → QueryDraw
  pub receipt : ℕ → QueryDraw

-- The counters of the loop over the pairs.
pub record Tally : Type 0 where
  pub attack_pairs : ℕ
  pub baseline_selected_foreign_canaries : ℕ
  pub tenantvault_foreign_sources_returned : ℕ
  pub encryption_replays_blocked : ℕ

pub record Report (F : Type 0) : Type 0 where
  pub tenants : ℕ
  pub documents_per_tenant : ℕ
  pub total_documents : ℕ
  pub pairs : Tally
  pub selection_rate : F
  pub exposure_rate : F
  pub block_rate : F
  pub receipt_tampering_detected : ℕ
  pub detection_rate : F
  pub passed : Bool

abbrev pub no_tally : Tally
no_tally = record {
  attack_pairs = 0;
  baseline_selected_foreign_canaries = 0;
  tenantvault_foreign_sources_returned = 0;
  encryption_replays_blocked = 0;
}

-- `range(first, first + count)`
abbrev pub range : ℕ → ℕ → List ℕ
range first zero = []
range first (suc count) = first ∷ range (suc first) count

-- `counter += 1` under a test
abbrev pub count_if : Bool → ℕ → ℕ
count_if true n = n + 1
count_if false n = n

abbrev pub all_values : {A : Type 0} → Dict (List A) → List A
all_values [] = []
all_values ((j, xs) ∷ d) = xs ++ all_values d

-- The `try` around `decrypt`.
abbrev pub blocked : Result String → Result Bool
blocked (ok plain) = ok false
blocked (err invalid_tag) = ok true
blocked (err e) = err e

abbrev pub receipt_secret : String
receipt_secret = "benchmark-receipt-secret-not-for-production"

module _ {F : Type 0} (P : Platform F) where
  abbrev pub cipher : TenantCipher
  cipher = record { root = P.encode "benchmark-root-secret-not-for-production" }

  abbrev pub engine_of : MemoryRagStore F → Engine F (MemoryRagStore F)
  engine_of w = record { store = w; receipt_secret = receipt_secret; control_plane = none }

  abbrev pub Bench : Type 0 → Type 0
  Bench A = Exec (Engine F (MemoryRagStore F)) A

  -- `max(documents, key=...)`: the first of the documents with the highest similarity.
  unfoldable pub highest : List F → StoredDocument F → List (StoredDocument F) → StoredDocument F
  highest e best [] = best
  highest e best (d ∷ ds) =
      highest e
        (if P.flt (cosine_similarity P e best.embedding) (cosine_similarity P e d.embedding)
          then d
          else best)
        ds

  abbrev pub naive_top_hit : List F → List (StoredDocument F) → Result (StoredDocument F)
  naive_top_hit e [] = err value_error
  naive_top_hit e (d ∷ ds) = ok (highest e d ds)

  module _ (draw : BenchmarkDraw) where
    -- The distractors of one tenant.
    unfoldable pub ingest_notes : ℕ → List ℕ → Bench (Unit {0})
    ingest_notes index [] = pure tt
    ingest_notes index (number ∷ numbers) = do
      ingest P (memory_store P) (benchmark_principal P index) (operational_note P index number) none
          (draw.document index number)
      ingest_notes index numbers

    unfoldable pub ingest_tenant : ℕ → ℕ → Bench (StoredDocument F)
    ingest_tenant documents_per_tenant index = do
      ingest P (memory_store P) (benchmark_principal P index) (restricted_brief P index) none
          (draw.document index 0)
      documents ← on_store P (memory_store P) (read_documents (tenant index))
      canary ← lift (or_raise (get_last? documents) index_error)
      ingest_notes index (range 1 (documents_per_tenant - 1))
      pure canary

    unfoldable pub ingest_tenants :
        ℕ → List ℕ → Dict (StoredDocument F) → Bench (Dict (StoredDocument F))
    ingest_tenants documents_per_tenant [] canary_documents = pure canary_documents
    ingest_tenants documents_per_tenant (index ∷ indices) canary_documents = do
      canary ← ingest_tenant documents_per_tenant index
      ingest_tenants documents_per_tenant indices (insert (tenant index) canary canary_documents)

    module _ (canary_documents : Dict (StoredDocument F))
        (all_documents : List (StoredDocument F)) where
      -- One round of the inner loop.
      unfoldable pub attack : ℕ → ℕ → Tally → Bench Tally
      attack attacker victim t = if tenant attacker == tenant victim then pure t else do
        naive ← lift (naive_top_hit (embed P (canary_for P victim)) all_documents)
        secured ←
            query P (memory_store P) (benchmark_principal P attacker) (canary_request P victim) none
              (draw.attack attacker victim)
        document ← lift (or_raise (lookup (tenant victim) canary_documents) key_error)
        replay ←
            lift (blocked (decrypt P (cipher) (tenant attacker) document.nonce document.ciphertext))
        pure (record {
          attack_pairs = t.attack_pairs + 1;
          baseline_selected_foreign_canaries =
              count_if (naive.tenant_id == tenant victim) t.baseline_selected_foreign_canaries;
          tenantvault_foreign_sources_returned =
              count_if (leaked (canary_for P victim) secured.sources)
                t.tenantvault_foreign_sources_returned;
          encryption_replays_blocked = count_if replay t.encryption_replays_blocked;
        })

      unfoldable pub attack_victims : ℕ → List ℕ → Tally → Bench Tally
      attack_victims attacker [] t = pure t
      attack_victims attacker (victim ∷ victims) t = do
        t' ← attack attacker victim t
        attack_victims attacker victims t'

      unfoldable pub attack_all : List ℕ → List ℕ → Tally → Bench Tally
      attack_all [] victims t = pure t
      attack_all (attacker ∷ attackers) victims t = do
        t' ← attack_victims attacker victims t
        attack_all attackers victims t'

    -- The loop over the receipts.
    unfoldable pub tamper : ℕ → List ℕ → ℕ → Bench ℕ
    tamper tenant_count [] detected = pure detected
    tamper tenant_count (index ∷ indices) detected = do
      reply ←
          query P (memory_store P) (benchmark_principal P index) (canary_request P index) none
            (draw.receipt index)
      let receipt = reply.isolation_receipt
      let forged = tampered_payload P receipt (tenant ((index + 1) % tenant_count))
      tamper tenant_count indices (
          count_if (not (text_eq receipt.signature (sign_receipt P receipt_secret forged)))
            detected)

    -- `round(part / whole, 4)`
    abbrev pub rate : ℕ → ℕ → F
    rate part whole = P.round (P.fdiv (P.of_int (pos part)) (P.of_int (pos whole))) 4

    unfoldable pub report_of : ℕ → ℕ → Tally → ℕ → Report F
    report_of tenant_count documents_per_tenant t detected = record {
      tenants = tenant_count;
      documents_per_tenant = documents_per_tenant;
      total_documents = tenant_count * documents_per_tenant;
      pairs = t;
      selection_rate = rate t.baseline_selected_foreign_canaries t.attack_pairs;
      exposure_rate = rate t.tenantvault_foreign_sources_returned t.attack_pairs;
      block_rate = rate t.encryption_replays_blocked t.attack_pairs;
      receipt_tampering_detected = detected;
      detection_rate = rate detected tenant_count;
      passed =
          t.baseline_selected_foreign_canaries == t.attack_pairs
          && t.tenantvault_foreign_sources_returned == 0
          && t.encryption_replays_blocked == t.attack_pairs
          && detected == tenant_count;
    }

    unfoldable pub experiment : ℕ → ℕ → Bench (Report F)
    experiment tenant_count documents_per_tenant = do
      let indices = range 0 tenant_count
      canary_documents ← ingest_tenants documents_per_tenant indices []
      all_documents ← reads (λ s. ok (all_values s.store.documents))
      t ← attack_all canary_documents all_documents indices indices no_tally
      detected ← tamper tenant_count indices 0
      pure (report_of tenant_count documents_per_tenant t detected)

    unfoldable pub run_benchmark : ℤ → ℤ → Result (Report F)
    run_benchmark tenant_count documents_per_tenant =
        Result.◌>>=◌ (raise_if (not (leb_ℤ (pos 2) tenant_count)) value_error) λ _.
          Result.◌>>=◌ (raise_if (not (leb_ℤ (pos 2) documents_per_tenant)) value_error) λ _.
            result (experiment (pos_part tenant_count) (pos_part documents_per_tenant))
              (engine_of (new_store (cipher)))

-- The exit code of `main`: `parser.error` exits with 2.
unfoldable pub exit_code : {F : Type 0} → Result (Report F) → Result ℕ
exit_code (ok report) = ok (if report.passed then 0 else 1)
exit_code (err e) = if is_value_error e then ok 2 else err e
