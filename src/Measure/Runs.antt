-- ===== src/Measure/Runs.antt =====
-- What the service answers to the jobs of a measurement, one after the other, and what is measured
-- of it (scripts/measure_live_isolation.py).
use tenantvault_zero_trust_r.Base.{
  ℕ, ◌≡◌, ◌↔◌, ap, sym, subst, ◌∙◌, String, Bool, true, Option, none, some, List, [], ◌∷◌, ◌<>◌,
}
use tenantvault_zero_trust_r.Base.Int.{pos}
use tenantvault_zero_trust_r.Base.Lists.{All}
use tenantvault_zero_trust_r.Result.{Result, ok, or_raise, key_error, >>=-eq-ok}
use tenantvault_zero_trust_r.Exec.{Exec, result, after, lift}
use tenantvault_zero_trust_r.Exec.Ensuring.{ok_inj, bind-eq-ok, bind-after}
use tenantvault_zero_trust_r.Json.{Json, null, int, str, obj, end, field, or_default}
use tenantvault_zero_trust_r.Platform.{Platform}
use tenantvault_zero_trust_r.Security.{to_str}
use tenantvault_zero_trust_r.Http.{post, Request, Response, Client, token_of}
use tenantvault_zero_trust_r.Measure.Report.{
  Kind, retrieval, canary_probe, Job, Measurement, payload_or_mark, is_valid_retrieval,
  is_valid_probe,
}
use tenantvault_zero_trust_r.Measure.{
  question_for, tenant_text, headers_for, post_json, question_body, check, run_jobs,
}
use tenantvault_zero_trust_r.Measure.Validity.{
  IsValidRetrieval, IsPassedProbe, is_valid_retrieval_iff, is_valid_probe_iff,
}

-- The measurements are of the jobs, one each.
abbrev pub Answers : {F : Type 0} → List Job → List (Measurement F) → Type 0
Answers [] [] = Unit
Answers (j ∷ js) (m ∷ ms) = (m.kind ≡ j.kind) × Answers js ms
Answers _ _ = ⊥

or_default-found :
    {F : Type 0} (o : Option (Json F)) (token : Json F)
    → or_raise o key_error ≡ ok token
    → or_default null o ≡ token
or_default-found none token h = cc
or_default-found (some v) token h = ok_inj h

module _ {F W : Type 0} (P : Platform F) (send : Client F W) (perf_counter : Exec W F) where
  abbrev pub bearer : List (String × Json F) → String → String × String
  bearer tokens tenant =
      ("Authorization", "Bearer " <> to_str P (or_default null (token_of tenant tokens)))

  -- The requests of the jobs, as the service sees them.
  abbrev pub query_request : String → List (String × Json F) → String → Request F
  query_request url tokens tenant = record {
    method = post;
    url = url <> "/v1/query";
    headers = bearer tokens tenant ∷ [];
    body =
        some (obj (field "question" (str (question_for tenant)) (field "top_k" (int (pos 3)) end)));
  }

  abbrev pub probe_request : String → List (String × Json F) → String → Request F
  probe_request url tokens tenant = record {
    method = post;
    url = url <> "/v1/isolation/probe";
    headers = bearer tokens tenant ∷ [];
    body = none;
  }

  -- The clock is read before and after a request.
  abbrev pub reply : Request F → W → Result (Response F)
  reply q s = result (send q) (after perf_counter s)

  abbrev pub replied : Request F → W → W
  replied q s = after perf_counter (after (send q) (after perf_counter s))

  abbrev pub job_request : String → List (String × Json F) → Kind → String → Request F
  job_request url tokens retrieval tenant = query_request url tokens tenant
  job_request url tokens canary_probe tenant = probe_request url tokens tenant

  abbrev pub IsValidReply : Kind → String → Result (Response F) → Type 0
  IsValidReply retrieval tenant call = IsValidRetrieval P (tenant_text tenant) call
  IsValidReply canary_probe tenant call = IsPassedProbe P call

  -- Job by job, starting from the state `s` of the service: the reply is valid.
  abbrev pub AllValid : String → List (String × Json F) → List Job → W → Type 0
  AllValid url tokens [] s = Unit
  AllValid url tokens (j ∷ js) s =
      IsValidReply j.kind j.tenant (reply (job_request url tokens j.kind j.tenant) s)
      × AllValid url tokens js (replied (job_request url tokens j.kind j.tenant) s)

  abbrev pub asking : String → Option (Json F) → List (String × String) → Request F
  asking url body headers = record { method = post; url = url; headers = headers; body = body }

  pub post_json-eq-ok :
      (url : String) (headers : List (String × String)) (body : Option (Json F)) (s : W)
      (status : ℕ × Json F × F)
      → result (post_json P send perf_counter url headers body) s ≡ ok status
      → (response : Response F) × (reply (asking url body headers) s ≡ ok response)
        × (status.0 ≡ response.status_code)
        × (status.1 ≡ payload_or_mark response.body)
        × (after (post_json P send perf_counter url headers body) s
            ≡ replied (asking url body headers) s)
  unfolding post_json
  post_json-eq-ok url headers body s status h =
      let q = asking url body headers in
      let (started, at1, h1) = bind-eq-ok perf_counter _ s h in
      let (response, at2, h2) = bind-eq-ok (send q) _ (after perf_counter s) h1 in
      let s2 = after (send q) (after perf_counter s) in
      let (finished, at3, h3) = bind-eq-ok perf_counter _ s2 h2 in
      let same = ok_inj h3 in
      (
        response,
        at2,
        sym (ap (λ (x : ℕ × Json F × F). x.0) same),
        sym (ap (λ (x : ℕ × Json F × F). x.1) same),
        bind-after perf_counter _ s started at1
            ∙ bind-after (send q) _ (after perf_counter s) response at2
            ∙ bind-after perf_counter _ s2 finished at3,
      )

  pub headers_for-eq-ok :
      (tokens : List (String × Json F)) (tenant : String) (headers : List (String × String))
      → headers_for P send perf_counter tokens tenant ≡ ok headers
      → headers ≡ bearer tokens tenant ∷ []
  headers_for-eq-ok tokens tenant headers h =
      let (token, found, made) = >>=-eq-ok (or_raise (token_of tenant tokens) key_error) _ h in
      sym (ok_inj made)
      ∙ ap (λ (x : Json F). ("Authorization", "Bearer " <> to_str P x) ∷ [])
          (sym (or_default-found (token_of tenant tokens) token found))

  -- What a check that returns has measured.
  record IsChecked (url : String) (tokens : List (String × Json F)) (kind : Kind) (tenant : String)
      (s : W) (m : Measurement F) (q : Request F) : Type 0 where
    kind_of : m.kind ≡ kind
    valid_if : (m.valid ≡ true) ↔ IsValidReply kind tenant (reply q s)
    next : after (check P send perf_counter url tokens kind tenant) s ≡ replied q s

  check-eq-ok :
      (url : String) (tokens : List (String × Json F)) (kind : Kind) (tenant : String) (s : W)
      (m : Measurement F)
      → result (check P send perf_counter url tokens kind tenant) s ≡ ok m
      → IsChecked url tokens kind tenant s m (job_request url tokens kind tenant)
  unfolding check
  check-eq-ok url tokens retrieval tenant s m h =
      let body = some (question_body P send perf_counter tenant) in
      let (headers, at1, h1) =
        bind-eq-ok (lift (headers_for P send perf_counter tokens tenant)) _ s h in
      let call = post_json P send perf_counter (url <> "/v1/query") headers body in
      let (answer, at2, h2) = bind-eq-ok call _ s h1 in
      let (response, replied_at, code, payload, next) =
        post_json-eq-ok (url <> "/v1/query") headers body s answer at2 in
      let (valid, at3, h3) =
        bind-eq-ok (lift (is_valid_retrieval P (tenant_text tenant) answer.0 answer.1)) _
          (after call s) h2 in
      let q = asking (url <> "/v1/query") body in
      let judged : is_valid_retrieval P (tenant_text tenant) response.status_code
            (payload_or_mark response.body)
          ≡ ok valid =
        sym (
          ap (λ (c : ℕ). is_valid_retrieval P (tenant_text tenant) c answer.1) code
          ∙ ap (λ (v : Json F). is_valid_retrieval P (tenant_text tenant) response.status_code v)
              payload)
        ∙ at3 in
      subst (λ (hs : List (String × String)). IsChecked url tokens retrieval tenant s m (q hs))
        (headers_for-eq-ok tokens tenant headers at1)
        (record {
          kind_of = sym (ap (λ (x : Measurement F). x.kind) (ok_inj h3));
          valid_if =
              subst
                (λ (x : Result (Response F)).
                  (m.valid ≡ true) ↔ IsValidRetrieval P (tenant_text tenant) x)
                (sym replied_at)
                (subst
                  (λ (x : Measurement F).
                    (x.valid ≡ true) ↔ IsValidRetrieval P (tenant_text tenant) (ok response))
                  (ok_inj h3)
                  (is_valid_retrieval_iff P (tenant_text tenant) response valid judged));
          next =
              bind-after (lift (headers_for P send perf_counter tokens tenant)) _ s headers at1
              ∙ bind-after call _ s answer at2
              ∙ bind-after (lift (is_valid_retrieval P (tenant_text tenant) answer.0 answer.1)) _
                  (after call s) valid at3
              ∙ next;
        })
  check-eq-ok url tokens canary_probe tenant s m h =
      let (headers, at1, h1) =
        bind-eq-ok (lift (headers_for P send perf_counter tokens tenant)) _ s h in
      let call = post_json P send perf_counter (url <> "/v1/isolation/probe") headers none in
      let (answer, at2, h2) = bind-eq-ok call _ s h1 in
      let (response, replied_at, code, payload, next) =
        post_json-eq-ok (url <> "/v1/isolation/probe") headers none s answer at2 in
      let q = asking (url <> "/v1/isolation/probe") none in
      let judged =
        ap (λ (c : ℕ). is_valid_probe c answer.1) code
        ∙ ap (λ (v : Json F). is_valid_probe response.status_code v) payload in
      subst (λ (hs : List (String × String)). IsChecked url tokens canary_probe tenant s m (q hs))
        (headers_for-eq-ok tokens tenant headers at1)
        (record {
          kind_of = sym (ap (λ (x : Measurement F). x.kind) (ok_inj h2));
          valid_if =
              subst (λ (x : Result (Response F)). (m.valid ≡ true) ↔ IsPassedProbe P x)
                (sym replied_at)
                (subst (λ (b : Bool). (b ≡ true) ↔ IsPassedProbe P (ok response))
                  (sym judged ∙ ap (λ (x : Measurement F). x.valid) (ok_inj h2))
                  (is_valid_probe_iff P response));
          next =
              bind-after (lift (headers_for P send perf_counter tokens tenant)) _ s headers at1
              ∙ bind-after call _ s answer at2
              ∙ next;
        })

  -- The jobs of a measurement that returns: each is measured, and all are valid exactly when all
  -- the replies are.
  pub run_jobs-eq-ok :
      (url : String) (tokens : List (String × Json F)) (js : List Job) (s : W)
      (ms : List (Measurement F))
      → result (run_jobs P send perf_counter url tokens js) s ≡ ok ms
      → Answers js ms × (All (λ (m : Measurement F). m.valid ≡ true) ms ↔ AllValid url tokens js s)
  unfolding run_jobs
  run_jobs-eq-ok url tokens [] s ms h =
      subst
        (λ (x : List (Measurement F)).
          Answers [] x × (All (λ (m : Measurement F). m.valid ≡ true) x ↔ Unit {0}))
        (ok_inj h) (tt, (λ _. tt, λ _. tt))
  run_jobs-eq-ok url tokens (j ∷ js) s ms h =
      let one = check P send perf_counter url tokens j.kind j.tenant in
      let q = job_request url tokens j.kind j.tenant in
      let (m, at1, h1) = bind-eq-ok one _ s h in
      let (rest, at2, h2) =
        bind-eq-ok (run_jobs P send perf_counter url tokens js) _ (after one s) h1 in
      let checked = check-eq-ok url tokens j.kind j.tenant s m at1 in
      let others = run_jobs-eq-ok url tokens js (after one s) rest at2 in
      let moved =
        subst
          (λ (t : W). All (λ (x : Measurement F). x.valid ≡ true) rest ↔ AllValid url tokens js t)
          checked.next others.1 in
      subst
        (λ (x : List (Measurement F)).
          Answers (j ∷ js) x
          × (All (λ (y : Measurement F). y.valid ≡ true) x ↔ AllValid url tokens (j ∷ js) s))
        (ok_inj h2)
        (
          (checked.kind_of, others.0),
          (
            λ all. (checked.valid_if.0 all.0, moved.0 all.1),
            λ all. (checked.valid_if.1 all.0, moved.1 all.1),
          ),
        )
