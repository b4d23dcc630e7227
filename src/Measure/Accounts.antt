-- ===== src/Measure/Accounts.antt =====
-- What the report of a measurement adds up to (scripts/measure_live_isolation.py, `main`).
use native.Mathlib.Nat.{ℕ_set}
use mathlib.Core.Logic.{∥∥₁_elim}
use mathlib.Core.List.{Perm, Permᴰ}
use tenantvault_zero_trust_r.Base.{
  ℕ, zero, suc, ◌+◌, ◌*◌, ◌≤◌, ◌≡◌, ◌↔◌, refl, ap, ◌∙◌, String, Bool, true, false, not, List, [],
  ◌∷◌, map, arith, some, subst,
}
use tenantvault_zero_trust_r.Base.Int.{ℤ, pos}
use tenantvault_zero_trust_r.Base.Lists.{length, filter, All}
use tenantvault_zero_trust_r.Base.Text.{rstrip}
use tenantvault_zero_trust_r.Result.{ok, >>=-eq-ok}
use tenantvault_zero_trust_r.Exec.{Exec, result, after, lift}
use tenantvault_zero_trust_r.Exec.Ensuring.{ok_inj, bind-eq-ok}
use tenantvault_zero_trust_r.Json.{Json}
use tenantvault_zero_trust_r.Platform.{Platform}
use tenantvault_zero_trust_r.Http.{Response, Client, raise_for_status, json_of, read_tokens}
use tenantvault_zero_trust_r.Http.Answers.{Answered, json_of-eq-ok, raise_if-passed}
use tenantvault_zero_trust_r.Measure.{
  Kind, Job, Measurement, LiveReport, is_retrieval, retrievals, probes, valid_count, invalid_count,
  median_of, percentile, live_report, jobs, check_arguments, run_jobs, boundary_checks, measure,
}
use tenantvault_zero_trust_r.Measure.Runs.{Answers, reply, AllValid, run_jobs-eq-ok}
use tenantvault_zero_trust_r.Measure.Claims.{
  first_request, header_claim, body_claim, told, header_tried, body_tried, boundary_checks-IsTried,
}

module _ {A : Type 0} (p : A → Bool) where
  count-Permᴰ : {xs ys : List A} → Permᴰ xs ys → length (filter p xs) ≡ length (filter p ys)
  count-Permᴰ Permᴰ.nil = refl
  count-Permᴰ (Permᴰ.cons e d) = ground (arith, ap p e, count-Permᴰ d)
  count-Permᴰ (Permᴰ.swap e f) = ground (arith, ap p e, ap p f)
  count-Permᴰ (Permᴰ.trans d e) = count-Permᴰ d ∙ count-Permᴰ e

  count-Perm : {xs ys : List A} → Perm xs ys → length (filter p xs) ≡ length (filter p ys)
  count-Perm h = ∥∥₁_elim h (ℕ_set _ _) count-Permᴰ

-- Each round has two jobs of each kind.
jobs-retrievals : (n : ℕ) → length (filter (λ j. is_retrieval j.kind) (jobs n)) ≡ 2 * n
jobs-retrievals zero = omega arith
jobs-retrievals (suc n) = omega (arith, jobs-retrievals n)

jobs-probes : (n : ℕ) → length (filter (λ j. not (is_retrieval j.kind)) (jobs n)) ≡ 2 * n
jobs-probes zero = omega arith
jobs-probes (suc n) = omega (arith, jobs-probes n)

module _ {F : Type 0} where
  valid-invalid : (ms : List (Measurement F)) → valid_count ms + invalid_count ms ≡ length ms
  valid-invalid [] = omega arith
  valid-invalid (m ∷ ms) = ground (arith, valid-invalid ms)

  Answers-count :
      (p : Kind → Bool) (js : List Job) (ms : List (Measurement F))
      → Answers js ms
      → length (filter (λ m. p m.kind) ms) ≡ length (filter (λ j. p j.kind) js)
  Answers-count p [] [] h = refl
  Answers-count p (j ∷ js) (m ∷ ms) h = ground (arith, ap p h.0, Answers-count p js ms h.1)
  Answers-count p [] (m ∷ ms) h = absurd h
  Answers-count p (j ∷ js) [] h = absurd h

  -- What the report adds up to.
  pub record IsAccount (n : ℕ) (r : LiveReport F) : Type 0 where
    pub retrievals_attempted : r.retrieval_attempted ≡ 2 * n
    pub retrievals_passed : r.retrieval_passed ≤ 2 * n
    pub probes_attempted : r.canary_attempted ≡ 2 * n
    pub probes_answered : r.canary_passed + r.exposures_observed ≡ 2 * n

  live_report-IsAccount :
      (P : Platform F) (by_header by_body n : ℕ) (js : List Job) (ms : List (Measurement F))
      (r : LiveReport F)
      → Perm js (jobs n)
      → Answers js ms
      → live_report P by_header by_body ms ≡ ok r
      → IsAccount n r
  unfolding live_report
  live_report-IsAccount P by_header by_body n js ms r perm answers h =
      let latencies = map (λ m. m.latency_ms) (retrievals ms) in
      let (p50, at50, h1) = >>=-eq-ok (median_of P latencies) _ h in
      let (p95, at95, h2) = >>=-eq-ok (percentile P latencies (P.literal 95 2)) _ h1 in
      let tried : length (retrievals ms) ≡ 2 * n =
        Answers-count is_retrieval js ms answers
        ∙ count-Perm (λ j. is_retrieval j.kind) perm
        ∙ jobs-retrievals n in
      let probed : length (probes ms) ≡ 2 * n =
        Answers-count (λ k. not (is_retrieval k)) js ms answers
        ∙ count-Perm (λ j. not (is_retrieval j.kind)) perm
        ∙ jobs-probes n in
      let good = valid-invalid (retrievals ms) in
      let clean = valid-invalid (probes ms) in
      subst (IsAccount n) (ok_inj h2) (record {
        retrievals_attempted = tried;
        retrievals_passed = omega (arith, good, tried);
        probes_attempted = probed;
        probes_answered = omega (arith, clean, probed);
      })

  all_valid-counts :
      (ms : List (Measurement F))
      → All (λ (m : Measurement F). m.valid ≡ true) ms
      → (invalid_count (retrievals ms) ≡ 0) × (invalid_count (probes ms) ≡ 0)
  all_valid-counts [] h = (refl, refl)
  all_valid-counts (m ∷ ms) h = ground (arith, h.0, all_valid-counts ms h.1)

  counts-all_valid :
      (ms : List (Measurement F))
      → invalid_count (retrievals ms) ≡ 0
      → invalid_count (probes ms) ≡ 0
      → All (λ (m : Measurement F). m.valid ≡ true) ms
  counts-all_valid [] h k = tt
  counts-all_valid (m ∷ ms) h k =
      (ground (arith, h, k), counts-all_valid ms (ground (arith, h)) (ground (arith, k)))

  verdict-all_valid :
      (P : Platform F) (by_header by_body : ℕ) (ms : List (Measurement F)) (r : LiveReport F)
      → live_report P by_header by_body ms ≡ ok r
      → (r.passed ≡ true)
        ↔ ((by_header ≡ 400) × (by_body ≡ 422) × All (λ (m : Measurement F). m.valid ≡ true) ms)
  unfolding live_report
  verdict-all_valid P by_header by_body ms r h =
      let latencies = map (λ m. m.latency_ms) (retrievals ms) in
      let (p50, at50, h1) = >>=-eq-ok (median_of P latencies) _ h in
      let (p95, at95, h2) = >>=-eq-ok (percentile P latencies (P.literal 95 2)) _ h1 in
      let good = valid-invalid (retrievals ms) in
      subst
        (λ (x : LiveReport F).
          (x.passed ≡ true)
          ↔ ((by_header ≡ 400) × (by_body ≡ 422) × All (λ (m : Measurement F). m.valid ≡ true) ms))
        (ok_inj h2)
        (
          λ passed. (
            ground arith,
            ground arith,
            counts-all_valid ms (ground (arith, good)) (ground arith),
          ),
          λ all. ground (arith, good, all.0, all.1, all_valid-counts ms all.2),
        )

module _ {F W : Type 0} (P : Platform F) (send : Client F W) (perf_counter : Exec W F) where
  -- Whenever the measurement returns a report after `n` rounds, in whatever order its jobs
  -- complete, the service has answered the first request with a document of tokens. The report
  -- counts two retrievals and two probes per round, and the probes that passed and the exposures
  -- are all the probes. It says "passed" exactly when the service answers, to the requests that
  -- follow, in this order: 400 to a query by northstar's token with acme in the header
  -- "X-Tenant-Id", 422 to one with acme in its body, and to each job, by the token of its tenant:
  -- a query with 200, sources and a receipt that names the tenant and has a signature, and a probe
  -- with 200 and the status "passed". Nothing is assumed of the service.
  pub measure_accounts :
      (base : String) (n : ℕ) (workers : ℤ) (completed : List Job) (s : W) (r : LiveReport F)
      → Perm completed (jobs n)
      → result (measure P send perf_counter base (pos n) workers completed) s ≡ ok r
      → (answer : Response F) × (document : Json F) × (tokens : List (String × Json F)) × (result
            (send (first_request P send perf_counter (rstrip b'/' base)))
            s
          ≡ ok answer)
        × (answer.raises ≡ false)
        × (answer.body ≡ some document)
        × (read_tokens document ≡ ok tokens)
        × IsAccount n r
        × ((r.passed ≡ true) ↔ (
            Answered 400 (
              reply P send perf_counter
                (header_claim P send perf_counter (rstrip b'/' base) tokens)
                (told P send perf_counter (rstrip b'/' base) s))
            × Answered 422 (
                reply P send perf_counter
                  (body_claim P send perf_counter (rstrip b'/' base) tokens)
                  (header_tried P send perf_counter (rstrip b'/' base) tokens s))
            × AllValid P send perf_counter
                (rstrip b'/' base)
                tokens
                completed
                (body_tried P send perf_counter (rstrip b'/' base) tokens s)))
  unfolding measure
  measure_accounts base n workers completed s r perm h =
      let url = rstrip b'/' base in
      let (u, at0, h0) =
        bind-eq-ok (lift (check_arguments P send perf_counter (pos n) workers)) _ s h in
      let (answer, at1, h1) = bind-eq-ok (send (first_request P send perf_counter url)) _ s h0 in
      let s1 = told P send perf_counter url s in
      let (v, at2, h2) = bind-eq-ok (lift (raise_for_status answer)) _ s1 h1 in
      let (document, at3, h3) = bind-eq-ok (lift (json_of answer)) _ s1 h2 in
      let (tokens, at4, h4) = bind-eq-ok (lift (read_tokens document)) _ s1 h3 in
      let claims = boundary_checks P send perf_counter url tokens in
      let (statuses, at5, h5) = bind-eq-ok claims _ s1 h4 in
      let (ms, at6, h6) =
        bind-eq-ok (run_jobs P send perf_counter url tokens completed) _ (after claims s1) h5 in
      let tried = boundary_checks-IsTried P send perf_counter url tokens s1 statuses at5 in
      let (answers, valid) =
        run_jobs-eq-ok P send perf_counter url tokens completed (after claims s1) ms at6 in
      let good =
        subst
          (λ (t : W).
            All (λ (m : Measurement F). m.valid ≡ true) ms
            ↔ AllValid P send perf_counter url tokens completed t)
          tried.next valid in
      let verdict = verdict-all_valid P statuses.0 statuses.1 ms r h6 in
      (
        answer,
        document,
        tokens,
        at1,
        raise_if-passed answer.raises _ at2,
        json_of-eq-ok answer document at3,
        at4,
        live_report-IsAccount P statuses.0 statuses.1 n completed ms r perm answers h6,
        (
          λ passed.
              let all = verdict.0 passed in
              (tried.by_header.0 all.0, tried.by_body.0 all.1, good.0 all.2),
          λ all. verdict.1 (tried.by_header.1 all.0, tried.by_body.1 all.1, good.1 all.2),
        ),
      )
