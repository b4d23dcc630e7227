-- ===== src/Measure/Validity.antt =====
-- When the measurement counts an answer as valid (scripts/measure_live_isolation.py, `retrieval` and
-- `canary_probe`), in terms of the response.
use tenantvault_zero_trust_r.Base.{
  ℕ, ◌≡◌, ◌↔◌, refl, ap, sym, subst, ◌∙◌, String, Bool, true, false, Option, none, some, arith,
  eq_iff, ◌==◌, ==_iff,
}
use tenantvault_zero_trust_r.Result.{Result, ok, >>=-eq-ok}
use tenantvault_zero_trust_r.Exec.Ensuring.{ok_inj}
use tenantvault_zero_trust_r.Json
use tenantvault_zero_trust_r.Json.{
  Json, Fields, null, bool, int, float, str, arr, obj, end, field, lookup, or_default,
}
use tenantvault_zero_trust_r.Json.Reading.{get-eq-ok, get-eq, lookup-eq}
use tenantvault_zero_trust_r.Platform.{Platform}
use tenantvault_zero_trust_r.Security.{is_text}
use tenantvault_zero_trust_r.Security.Tokens.{is_text-eq}
use tenantvault_zero_trust_r.Http.{Response, given}
use tenantvault_zero_trust_r.Measure.Report.{
  and_then, payload_or_mark, is_valid_retrieval, is_valid_probe, receipt_in,
}

module _ {F : Type 0} (P : Platform F) where
  -- A call was answered by 200 and a JSON object with sources, and with a receipt that names the
  -- tenant and has a signature.
  pub record IsValidRetrieval (tenant_id : String) (call : Result (Response F)) : Type 0 where
    pub response : Response F
    pub answered : call ≡ ok response
    pub status_code : response.status_code ≡ 200
    pub fields : Fields F
    pub body : response.body ≡ some (obj fields)
    pub receipt : Fields F
    pub receipt_at : lookup "isolation_receipt" fields ≡ some (obj receipt)
    pub owner : lookup "tenant_id" receipt ≡ some (str tenant_id)
    pub signed : given P (lookup "signature" receipt) ≡ true
    pub sources : given P (lookup "sources" fields) ≡ true

  -- A call was answered by 200 and a JSON object that says "passed".
  pub record IsPassedProbe (call : Result (Response F)) : Type 0 where
    pub response : Response F
    pub answered : call ≡ ok response
    pub status_code : response.status_code ≡ 200
    pub fields : Fields F
    pub body : response.body ≡ some (obj fields)
    pub status : lookup "status" fields ≡ some (str "passed")

  and_then-true :
      (b : Bool) (r : Result Bool) → and_then P b r ≡ ok true → (b ≡ true) × (r ≡ ok true)
  and_then-true true r h = (refl, h)
  and_then-true false r h = cc

  or_default-some :
      (o : Option (Json F)) (receipt : Fields F) (k : String) (x : Json F)
      → or_default (obj end) o ≡ obj receipt
      → lookup k receipt ≡ some x
      → o ≡ some (obj receipt)
  or_default-some none receipt k x same at =
      let missing : lookup k receipt ≡ none =
        lookup-eq (obj end) receipt k none same (get-eq end k) in
      absurd (ground (arith, missing, at))
  or_default-some (some v) receipt k x same at = ap some same

  -- A receipt that holds something was found in a document.
  receipt_in-eq :
      (body : Option (Json F)) (fields receipt : Fields F) (k : String) (x : Json F)
      → payload_or_mark body ≡ obj fields
      → receipt_in P (payload_or_mark body) ≡ obj receipt
      → lookup k receipt ≡ some x
      → (body ≡ some (obj fields)) × (lookup "isolation_receipt" fields ≡ some (obj receipt))
  unfolding receipt_in
  receipt_in-eq none fields receipt k x same found at =
      let missing : lookup k receipt ≡ none =
        lookup-eq (obj end) receipt k none found (get-eq end k) in
      absurd (ground (arith, missing, at))
  receipt_in-eq (some v) fields receipt k x same found at =
      let here : receipt_in P (obj fields) ≡ obj receipt = ap (receipt_in P) (sym same) ∙ found in
      (ap some same, or_default-some (lookup "isolation_receipt" fields) receipt k x here at)

  valid-IsValidRetrieval :
      (tenant_id : String) (response : Response F)
      → is_valid_retrieval P tenant_id response.status_code (payload_or_mark response.body)
        ≡ ok true
      → IsValidRetrieval tenant_id (ok response)
  unfolding is_valid_retrieval
  valid-IsValidRetrieval tenant_id response h =
      let payload = payload_or_mark response.body in
      let receipt = receipt_in P payload in
      let (code, h1) = and_then-true (response.status_code == 200) _ h in
      let (owner, at_owner, h2) = >>=-eq-ok (Json.get receipt "tenant_id") _ h1 in
      let (own, h3) = and_then-true (is_text owner tenant_id) _ h2 in
      let (signature, at_signature, h4) = >>=-eq-ok (Json.get receipt "signature") _ h3 in
      let (signed, h5) = and_then-true (given P signature) _ h4 in
      let (sources, at_sources, h6) = >>=-eq-ok (Json.get payload "sources") _ h5 in
      let (fields, same, sources_at) = get-eq-ok payload "sources" sources at_sources in
      let (entries, is_entries, owner_at) = get-eq-ok receipt "tenant_id" owner at_owner in
      let owner_is = owner_at ∙ is_text-eq owner tenant_id own in
      let (body, receipt_at) =
        receipt_in-eq response.body fields entries "tenant_id" (str tenant_id) same is_entries
          owner_is in
      record {
        response = response;
        answered = refl;
        status_code = (==_iff response.status_code 200).0 code;
        fields = fields;
        body = body;
        receipt = entries;
        receipt_at = receipt_at;
        owner = owner_is;
        signed =
            ap (given P) (lookup-eq receipt entries "signature" signature is_entries at_signature)
            ∙ signed;
        sources = ap (given P) sources_at ∙ ok_inj h6;
      }

  IsValidRetrieval-valid :
      (tenant_id : String) (response : Response F)
      → IsValidRetrieval tenant_id (ok response)
      → is_valid_retrieval P tenant_id response.status_code (payload_or_mark response.body)
        ≡ ok true
  unfolding is_valid_retrieval receipt_in Json.get
  IsValidRetrieval-valid tenant_id response h =
      let one : h.response ≡ response = sym (ok_inj h.answered) in
      subst
        (λ (x : Response F).
          is_valid_retrieval P tenant_id x.status_code (payload_or_mark x.body) ≡ ok true)
        one
        (rw
          (
            h.status_code,
            h.body,
            h.receipt_at,
            h.owner,
            (eq_iff tenant_id tenant_id).1 refl,
            h.signed,
            h.sources,
          )
          refl)

  pub is_valid_retrieval_iff :
      (tenant_id : String) (response : Response F) (b : Bool)
      → is_valid_retrieval P tenant_id response.status_code (payload_or_mark response.body) ≡ ok b
      → (b ≡ true) ↔ IsValidRetrieval tenant_id (ok response)
  is_valid_retrieval_iff tenant_id response b h = (
    λ good. valid-IsValidRetrieval tenant_id response (h ∙ ap ok good),
    λ valid. ok_inj (sym h ∙ IsValidRetrieval-valid tenant_id response valid),
  )

  probe-fields :
      (code : ℕ) (v : Json F)
      → is_valid_probe code v ≡ true
      → (code ≡ 200)
        × ((fields : Fields F) × (v ≡ obj fields) × (lookup "status" fields ≡ some (str "passed")))
  unfolding is_valid_probe
  probe-fields code (obj fields) h =
      (ground arith, (fields, refl, is_text-eq (lookup "status" fields) "passed" (ground arith)))
  probe-fields code null h = cc
  probe-fields code (bool b) h = cc
  probe-fields code (int n) h = cc
  probe-fields code (float x) h = cc
  probe-fields code (str s) h = cc
  probe-fields code (arr vs) h = cc

  probe-body :
      (body : Option (Json F)) (fields : Fields F) (x : Json F)
      → payload_or_mark body ≡ obj fields
      → lookup "status" fields ≡ some x
      → body ≡ some (obj fields)
  probe-body none fields x same at =
      let missing : lookup "status" fields ≡ none =
        lookup-eq (payload_or_mark none) fields "status" none same (get-eq _ "status") in
      absurd (ground (arith, missing, at))
  probe-body (some v) fields x same at = ap some same

  pub is_valid_probe_iff :
      (response : Response F)
      → (is_valid_probe response.status_code (payload_or_mark response.body) ≡ true)
        ↔ IsPassedProbe (ok response)
  unfolding is_valid_probe
  is_valid_probe_iff response = (
    λ h.
        let (code, passed) = probe-fields response.status_code (payload_or_mark response.body) h in
        record {
          response = response;
          answered = refl;
          status_code = code;
          fields = passed.0;
          body = probe-body response.body passed.0 (str "passed") passed.1 passed.2;
          status = passed.2;
        },
    λ h.
        let one : h.response ≡ response = sym (ok_inj h.answered) in
        subst (λ (x : Response F). is_valid_probe x.status_code (payload_or_mark x.body) ≡ true) one
          (rw (h.status_code, h.body, h.status) refl),
  )
