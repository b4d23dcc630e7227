-- ===== src/ReleaseGate/Verdict/Items.antt =====
-- One item of the report of the release gate, against the two responses that it is made of
-- (src/tenantvault/release_verifier.py).
use tenantvault_zero_trust_r.Base.{
  ◌≡◌, ◌↔◌, refl, ap, sym, subst, ◌∙◌, String, Bool, true, Option, none, some, arith, Bool-cases,
  inl, inr, if◌then◌else◌,
}
use tenantvault_zero_trust_r.Base.Text.{is_prefix}
use tenantvault_zero_trust_r.Result.{Result, ok, >>=-eq-ok}
use tenantvault_zero_trust_r.Exec.Ensuring.{ok_inj}
use tenantvault_zero_trust_r.Json
use tenantvault_zero_trust_r.Json.{Json, Fields, str, obj, end, lookup}
use tenantvault_zero_trust_r.Json.Reading.{get-eq-ok, get-eq, lookup-eq}
use tenantvault_zero_trust_r.Platform.{Platform}
use tenantvault_zero_trust_r.Security.Tokens.{is_text-eq}
use tenantvault_zero_trust_r.Http.{Response, given, json_of}
use tenantvault_zero_trust_r.Http.Answers.{json_of-eq-ok}
use tenantvault_zero_trust_r.ReleaseGate.Report.{
  TenantAttestation, is_good, attestation_item, payload_of,
}

module _ {F : Type 0} where
  -- A payload with something in it comes from a JSON response.
  payload_of-eq-ok :
      (r : Response F) (v : Json F) (k : String) (x : Json F)
      → payload_of r ≡ ok v
      → Json.get v k ≡ ok (some x)
      → (fields : Fields F) × (v ≡ obj fields)
        × (is_prefix "application/json" r.content_type ≡ true)
        × (r.body ≡ some (obj fields))
  unfolding payload_of
  payload_of-eq-ok r v k x h found =
      let (fields, same, at) = get-eq-ok v k (some x) found in
      let Chosen = λ (b : Bool). (if b then json_of r else ok (obj end)) ≡ ok v in
      elim (Bool-cases (is_prefix "application/json" r.content_type)) [
        | inl json ↦ (fields, same, json, json_of-eq-ok r v (subst Chosen json h) ∙ ap some same)
        | inr other ↦
            let empty : obj end ≡ obj fields = ok_inj (subst Chosen other h) ∙ same in
            let missing : lookup k fields ≡ none =
              lookup-eq (obj end) fields k none empty (get-eq end k) in
            absurd (ground (arith, missing, at))
      ]

  payload_of-eq :
      (r : Response F) (v : Json F)
      → is_prefix "application/json" r.content_type ≡ true
      → r.body ≡ some v
      → payload_of r ≡ ok v
  unfolding payload_of
  payload_of-eq r v json body = rw (json, body) refl

module _ {F : Type 0} (P : Platform F) where
  -- An attestation was answered by 200, with a JSON object that says "passed" and has a signature.
  pub record IsPassed (call : Result (Response F)) : Type 0 where
    pub response : Response F
    pub answered : call ≡ ok response
    pub status_code : response.status_code ≡ 200
    pub is_json : is_prefix "application/json" response.content_type ≡ true
    pub fields : Fields F
    pub body : response.body ≡ some (obj fields)
    pub status : lookup "status" fields ≡ some (str "passed")
    pub signed : given P (lookup "signature" fields) ≡ true

  -- A status was answered with a JSON object that says "active" and names a policy version.
  pub record IsActive (call : Result (Response F)) : Type 0 where
    pub response : Response F
    pub answered : call ≡ ok response
    pub is_json : is_prefix "application/json" response.content_type ≡ true
    pub fields : Fields F
    pub body : response.body ≡ some (obj fields)
    pub workspace_state : lookup "workspace_state" fields ≡ some (str "active")
    pub governed : given P (lookup "policy_version" fields) ≡ true

  -- What the item is made of.
  record IsItemOf (attestation status : Response F) (item : TenantAttestation F) : Type 0 where
    status_code : item.attestation_status_code ≡ attestation.status_code
    first : Json F
    first_at : payload_of attestation ≡ ok first
    second : Json F
    second_at : payload_of status ≡ ok second
    status_at : Json.get first "status" ≡ ok item.attestation_status
    signature : Option (Json F)
    signature_at : Json.get first "signature" ≡ ok signature
    signed : item.attestation_signature_present ≡ given P signature
    state_at : Json.get second "workspace_state" ≡ ok item.workspace_state
    version_at : Json.get second "policy_version" ≡ ok item.policy_version

  attestation_item-IsItemOf :
      (tenant : String) (attestation status : Response F) (item : TenantAttestation F)
      → attestation_item P tenant attestation status ≡ ok item
      → IsItemOf attestation status item
  unfolding attestation_item
  attestation_item-IsItemOf tenant attestation status item h =
      let (a, at_a, h1) = >>=-eq-ok (payload_of attestation) _ h in
      let (b, at_b, h2) = >>=-eq-ok (payload_of status) _ h1 in
      let (c, at_c, h3) = >>=-eq-ok (Json.get a "status") _ h2 in
      let (d, at_d, h4) = >>=-eq-ok (Json.get a "signature") _ h3 in
      let (e, at_e, h5) = >>=-eq-ok (Json.get b "workspace_state") _ h4 in
      let (f, at_f, h6) = >>=-eq-ok (Json.get b "policy_version") _ h5 in
      subst (IsItemOf attestation status) (ok_inj h6) (record {
        status_code = refl;
        first = a;
        first_at = at_a;
        second = b;
        second_at = at_b;
        status_at = at_c;
        signature = d;
        signature_at = at_d;
        signed = refl;
        state_at = at_e;
        version_at = at_f;
      })

  module _ (attestation status : Response F) (item : TenantAttestation F)
      (k : IsItemOf attestation status item) where
    good-IsPassed : is_good P item ≡ true → IsPassed (ok attestation)
    unfolding is_good
    good-IsPassed h =
        let says = is_text-eq item.attestation_status "passed" (ground arith) in
        let status_at = k.status_at ∙ ap ok says in
        let (fields, same, json, body) =
          payload_of-eq-ok attestation k.first "status" (str "passed") k.first_at status_at in
        let code : item.attestation_status_code ≡ 200 = ground arith in
        let present : item.attestation_signature_present ≡ true = ground arith in
        record {
          response = attestation;
          answered = refl;
          status_code = sym k.status_code ∙ code;
          is_json = json;
          fields = fields;
          body = body;
          status = lookup-eq k.first fields "status" _ same status_at;
          signed =
              ap (given P) (lookup-eq k.first fields "signature" _ same k.signature_at)
              ∙ sym k.signed
              ∙ present;
        }

    good-IsActive : is_good P item ≡ true → IsActive (ok status)
    unfolding is_good
    good-IsActive h =
        let says = is_text-eq item.workspace_state "active" (ground arith) in
        let state_at = k.state_at ∙ ap ok says in
        let (fields, same, json, body) =
          payload_of-eq-ok status k.second "workspace_state" (str "active") k.second_at state_at in
        let version : given P item.policy_version ≡ true = ground arith in
        record {
          response = status;
          answered = refl;
          is_json = json;
          fields = fields;
          body = body;
          workspace_state = lookup-eq k.second fields "workspace_state" _ same state_at;
          governed =
              ap (given P) (lookup-eq k.second fields "policy_version" _ same k.version_at)
              ∙ version;
        }

    passed_status :
        (h : IsPassed (ok attestation))
        → (item.attestation_status_code ≡ 200)
          × (item.attestation_status ≡ some (str "passed"))
          × (item.attestation_signature_present ≡ true)
    passed_status h =
        let one : h.response ≡ attestation = sym (ok_inj h.answered) in
        let read : payload_of attestation ≡ ok (obj h.fields) =
          subst (λ (x : Response F). payload_of x ≡ ok (obj h.fields)) one
            (payload_of-eq h.response (obj h.fields) h.is_json h.body) in
        let same : k.first ≡ obj h.fields = ok_inj (sym k.first_at ∙ read) in
        (
          k.status_code ∙ ap (λ (x : Response F). x.status_code) (sym one) ∙ h.status_code,
          sym (lookup-eq k.first h.fields "status" _ same k.status_at) ∙ h.status,
          k.signed
              ∙ sym (ap (given P) (lookup-eq k.first h.fields "signature" _ same k.signature_at))
              ∙ h.signed,
        )

    active_status :
        (h : IsActive (ok status))
        → (item.workspace_state ≡ some (str "active")) × (given P item.policy_version ≡ true)
    active_status h =
        let one : h.response ≡ status = sym (ok_inj h.answered) in
        let read : payload_of status ≡ ok (obj h.fields) =
          subst (λ (x : Response F). payload_of x ≡ ok (obj h.fields)) one
            (payload_of-eq h.response (obj h.fields) h.is_json h.body) in
        let same : k.second ≡ obj h.fields = ok_inj (sym k.second_at ∙ read) in
        (
          sym (lookup-eq k.second h.fields "workspace_state" _ same k.state_at) ∙ h.workspace_state,
          sym (ap (given P) (lookup-eq k.second h.fields "policy_version" _ same k.version_at))
              ∙ h.governed,
        )

  -- The condition on an item holds exactly when the two responses are as they should be.
  pub is_good_iff :
      (tenant : String) (attestation status : Response F) (item : TenantAttestation F)
      → attestation_item P tenant attestation status ≡ ok item
      → (is_good P item ≡ true) ↔ (IsPassed (ok attestation) × IsActive (ok status))
  unfolding is_good
  is_good_iff tenant attestation status item made =
      let k = attestation_item-IsItemOf tenant attestation status item made in
      (
        λ h. (good-IsPassed attestation status item k h, good-IsActive attestation status item k h),
        λ h.
            let (code, says, signed) = passed_status attestation status item k h.0 in
            let (active, governed) = active_status attestation status item k h.1 in
            rw (code, says, signed, active, governed) refl,
      )
