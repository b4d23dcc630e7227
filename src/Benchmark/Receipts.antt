-- ===== src/Benchmark/Receipts.antt =====
-- The loop over the receipts that are tampered with (scripts/fault_injection_benchmark.py).
use mathlib.Core.List.{append_assoc, append-nil, map-append}
use tenantvault_zero_trust_r.Base.{ℕ, ◌≡◌, refl, sym, ap, ◌∙◌, subst, List, [], ◌∷◌, ◌++◌, map}
use tenantvault_zero_trust_r.Base.Lists.{length, filter}
use tenantvault_zero_trust_r.Platform.{Platform}
use tenantvault_zero_trust_r.Memory.{MemoryRagStore}
use tenantvault_zero_trust_r.Memory.Integrity.{Reach}
use tenantvault_zero_trust_r.Memory.Retrieval.{IsOpening}
use tenantvault_zero_trust_r.Engine.{Engine}
use tenantvault_zero_trust_r.Benchmark.{
  BenchmarkDraw, benchmark_principal, canary_request, cipher, count_if, tamper,
}
use tenantvault_zero_trust_r.Benchmark.Runs.{Returns, query-Returns}
use tenantvault_zero_trust_r.Benchmark.Seeding.{benchmark_principal-may_read}
use tenantvault_zero_trust_r.Benchmark.Counting.{Tampering, detects, count-append}

module _ {F : Type 0} (P : Platform F) (draw : BenchmarkDraw) (n : ℕ) where
  abbrev pub index_of : Tampering P draw n → ℕ
  index_of t = t.index

  -- The counter after the receipts of the tenants `is`.
  pub record IsTampered (is : List ℕ) (x : ℕ) : Type 0 where
    pub tamperings : List (Tampering P draw n)
    pub indices : map index_of tamperings ≡ is
    pub detected : x ≡ length (filter (detects P draw) tamperings)

  tamper_one-IsTampered :
      (i : ℕ) (done : List ℕ) (x : ℕ)
      → IsTampered done x
      → (t : Tampering P draw n) → t.index ≡ i
      → IsTampered (done ++ (i ∷ [])) (count_if (detects P draw t) x)
  tamper_one-IsTampered i done x h t same = record {
    tamperings = h.tamperings ++ (t ∷ []);
    indices =
        map-append index_of h.tamperings (t ∷ [])
        ∙ ap (λ (is : List ℕ). is ++ (t.index ∷ [])) h.indices
        ∙ ap (λ (j : ℕ). done ++ (j ∷ [])) same;
    detected =
        ap (count_if (detects P draw t)) h.detected
        ∙ sym (count-append (detects P draw) h.tamperings t);
  }

  pub tamper-Returns :
      IsOpening P
      → (is done : List ℕ) (x : ℕ) (w : MemoryRagStore F) → Reach P (cipher P) w
      → IsTampered done x
      → Returns P (tamper P draw n is x) w (λ y _. IsTampered (done ++ is) y)
  unfolding tamper
  tamper-Returns opening [] done x w r h = record {
    value = x;
    next = w;
    ran = refl;
    reach = r;
    holds = subst (λ (js : List ℕ). IsTampered js x) (sym (append-nil done)) h;
  }
  tamper-Returns opening (i ∷ is) done x w r h =
      let asked =
        query-Returns P opening (benchmark_principal P i) (canary_request P i) (draw.receipt i) w r
          (benchmark_principal-may_read P draw i) in
      let t : Tampering P draw n = record {
        index = i;
        store = w;
        store_reach = r;
        reply = asked.value;
        replied = ap (λ (y : _ × Engine F (MemoryRagStore F)). y.0) asked.ran;
      } in
      let rest =
        tamper-Returns opening is (done ++ (i ∷ [])) (count_if (detects P draw t) x) asked.next
          asked.reach (tamper_one-IsTampered i done x h t refl) in
      record {
        value = rest.value;
        next = rest.next;
        ran = rw (asked.ran) rest.ran;
        reach = rest.reach;
        holds =
            subst (λ (js : List ℕ). IsTampered js rest.value) (append_assoc done (i ∷ []) is)
              rest.holds;
      }
