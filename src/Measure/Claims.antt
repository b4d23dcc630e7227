-- ===== src/Measure/Claims.antt =====
-- The two calls of the measurement that claim another tenant, and the states of the service before
-- and after them (scripts/measure_live_isolation.py).
use tenantvault_zero_trust_r.Base.{
  ℕ, ◌≡◌, ◌↔◌, ap, sym, ◌∙◌, String, List, [], ◌∷◌, ◌++◌, some, none, subst, ◌<>◌,
}
use tenantvault_zero_trust_r.Result.{ok}
use tenantvault_zero_trust_r.Exec.{Exec, result, after, lift}
use tenantvault_zero_trust_r.Exec.Ensuring.{ok_inj, bind-eq-ok, bind-after}
use tenantvault_zero_trust_r.Json.{Json, str, obj, end, field}
use tenantvault_zero_trust_r.Platform.{Platform}
use tenantvault_zero_trust_r.Http.{get, post, Request, Client}
use tenantvault_zero_trust_r.Http.Answers.{Answered, Answered-iff}
use tenantvault_zero_trust_r.Measure.{
  headers_for, post_json, question_for, tenant_text, boundary_checks,
}
use tenantvault_zero_trust_r.Measure.Runs.{
  bearer, reply, replied, asking, post_json-eq-ok, headers_for-eq-ok,
}

module _ {F W : Type 0} (P : Platform F) (send : Client F W) (perf_counter : Exec W F) where
  -- The requests before the jobs.
  abbrev pub first_request : String → Request F
  first_request url = record {
    method = get;
    url = url <> "/api/demo/tokens";
    headers = [];
    body = none;
  }

  abbrev pub header_claim : String → List (String × Json F) → Request F
  header_claim url tokens = record {
    method = post;
    url = url <> "/v1/query";
    headers =
        bearer P send perf_counter tokens "northstar"
        ∷ ("X-Tenant-Id", "22222222-2222-2222-2222-222222222222")
        ∷ [];
    body = some (obj (field "question" (str "Who owns the cardiac escalation review?") end));
  }

  abbrev pub body_claim : String → List (String × Json F) → Request F
  body_claim url tokens = record {
    method = post;
    url = url <> "/v1/query";
    headers = bearer P send perf_counter tokens "northstar" ∷ [];
    body = some (
        obj (
          field "question" (str "Who owns the cardiac escalation review?")
            (field "tenant_id" (str "22222222-2222-2222-2222-222222222222") end)));
  }

  -- The states of the service: after the tokens, after the first claim, and after the second.
  abbrev pub told : String → W → W
  told url s = after (send (first_request url)) s

  abbrev pub header_tried : String → List (String × Json F) → W → W
  header_tried url tokens s = replied P send perf_counter (header_claim url tokens) (told url s)

  abbrev pub body_tried : String → List (String × Json F) → W → W
  body_tried url tokens s =
      replied P send perf_counter (body_claim url tokens) (header_tried url tokens s)

  -- What the two claims were answered, from the state `s`.
  pub record IsTried (url : String) (tokens : List (String × Json F)) (s : W) (statuses : ℕ × ℕ)
      (q1 q2 : Request F) : Type 0 where
    pub by_header : (statuses.0 ≡ 400) ↔ Answered 400 (reply P send perf_counter q1 s)
    pub by_body :
        (statuses.1 ≡ 422)
        ↔ Answered 422 (reply P send perf_counter q2 (replied P send perf_counter q1 s))
    pub next :
        after (boundary_checks P send perf_counter url tokens) s
        ≡ replied P send perf_counter q2 (replied P send perf_counter q1 s)

  pub boundary_checks-IsTried :
      (url : String) (tokens : List (String × Json F)) (s : W) (statuses : ℕ × ℕ)
      → result (boundary_checks P send perf_counter url tokens) s ≡ ok statuses
      → IsTried url tokens s statuses (header_claim url tokens) (body_claim url tokens)
  unfolding boundary_checks
  boundary_checks-IsTried url tokens s statuses h =
      let query = url <> "/v1/query" in
      let plain = some (obj (field "question" (str (question_for "northstar")) end)) in
      let claiming = some (
        obj (
          field "question" (str (question_for "northstar"))
            (field "tenant_id" (str (tenant_text "acme")) end))) in
      let (headers, at1, h1) =
        bind-eq-ok (lift (headers_for P send perf_counter tokens "northstar")) _ s h in
      let with_header = headers ++ (("X-Tenant-Id", tenant_text "acme") ∷ []) in
      let first = post_json P send perf_counter query with_header plain in
      let (a, at2, h2) = bind-eq-ok first _ s h1 in
      let second = post_json P send perf_counter query headers claiming in
      let (b, at3, h3) = bind-eq-ok second _ (after first s) h2 in
      let (response, got, code, _, next) =
        post_json-eq-ok P send perf_counter query with_header plain s a at2 in
      let (response', got', code', _, next') =
        post_json-eq-ok P send perf_counter query headers claiming (after first s) b at3 in
      let q1 = λ (hs : List (String × String)).
        asking P send perf_counter query plain (hs ++ (("X-Tenant-Id", tenant_text "acme") ∷ [])) in
      let q2 = asking P send perf_counter query claiming in
      let status1 : statuses.0 ≡ response.status_code =
        sym (ap (λ (x : ℕ × ℕ). x.0) (ok_inj h3)) ∙ code in
      let status2 : statuses.1 ≡ response'.status_code =
        sym (ap (λ (x : ℕ × ℕ). x.1) (ok_inj h3)) ∙ code' in
      subst (λ (hs : List (String × String)). IsTried url tokens s statuses (q1 hs) (q2 hs))
        (headers_for-eq-ok P send perf_counter tokens "northstar" headers at1)
        (record {
          by_header =
              subst (λ (c : ℕ). (c ≡ 400) ↔ Answered 400 (reply P send perf_counter (q1 headers) s))
                (sym status1) (Answered-iff 400 _ response got);
          by_body =
              subst
                (λ (t : W).
                  (statuses.1 ≡ 422) ↔ Answered 422 (reply P send perf_counter (q2 headers) t))
                next
                (subst
                  (λ (c : ℕ).
                    (c ≡ 422)
                    ↔ Answered 422 (reply P send perf_counter (q2 headers) (after first s)))
                  (sym status2) (Answered-iff 422 _ response' got'));
          next =
              bind-after (lift (headers_for P send perf_counter tokens "northstar")) _ s headers at1
              ∙ bind-after first _ s a at2
              ∙ bind-after second _ (after first s) b at3
              ∙ next'
              ∙ ap (replied P send perf_counter (q2 headers)) next;
        })
