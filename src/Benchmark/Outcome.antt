-- ===== src/Benchmark/Outcome.antt =====
-- What the benchmark reports (scripts/fault_injection_benchmark.py, `run_benchmark` and `main`).
use tenantvault_zero_trust_r.Base.{ℕ, ◌*◌, ◌-◌, ◌≡◌, ◌↔◌, true, false}
use tenantvault_zero_trust_r.Base.Dict.{Dict}
use tenantvault_zero_trust_r.Base.Lists.{All}
use tenantvault_zero_trust_r.Result.{Result}
use tenantvault_zero_trust_r.Exec.{◌>>=◌}
use tenantvault_zero_trust_r.Platform.{Platform}
use tenantvault_zero_trust_r.Models.{StoredDocument}
use tenantvault_zero_trust_r.Memory.{MemoryRagStore}
use tenantvault_zero_trust_r.Memory.Integrity.{Reach}
use tenantvault_zero_trust_r.Engine.{Engine}
use tenantvault_zero_trust_r.Benchmark.{BenchmarkDraw, Report, cipher, range, all_values}
use tenantvault_zero_trust_r.Benchmark.Counting.{selects, leaks, detects, IsTally, all_rivals}
use tenantvault_zero_trust_r.Benchmark.Receipts.{IsTampered}

module _ {F : Type 0} (P : Platform F) (draw : BenchmarkDraw) where
  -- What holds of the report on `n` tenants with `d` documents each.
  pub record IsReport (n d : ℕ) (r : Report F) : Type 0 where
    pub total : r.total_documents ≡ n * d
    -- The corpus is what a store that the benchmark reached holds.
    pub known : Dict (StoredDocument F)
    pub seeded : MemoryRagStore F
    pub seeded_reach : Reach P (cipher P) seeded
    -- There is an attack for each ordered pair, in this order, and the counters count them.
    pub tally :
        IsTally P draw known
          (all_values seeded.documents)
          (all_rivals (range 0 n) (range 0 n))
          r.pairs
    pub attempts : r.pairs.attack_pairs ≡ n * (n - 1)
    pub blocks : r.pairs.encryption_replays_blocked ≡ n * (n - 1)
    -- There is a tampering for each tenant, and the counter counts those that are detected.
    pub tampered : IsTampered P draw n (range 0 n) r.receipt_tampering_detected
    pub verdict : (r.passed ≡ true) ↔ (
        All (λ a. selects P draw a ≡ true) tally.attacks
        × All (λ a. leaks P draw a ≡ false) tally.attacks
        × All (λ t. detects P draw t ≡ true) tampered.tamperings)
