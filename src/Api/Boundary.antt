-- ===== src/Api/Boundary.antt =====
-- From the bearer token of a request to the receipt of its answer, and what a quarantined tenant is
-- answered.
use tenantvault_zero_trust_r.Base.{
  ◌≡◌, refl, String, Option, none, some, arith, Option-cases, inl, inr,
}
use tenantvault_zero_trust_r.Result.{Error, http_exception, Result, ok, err, Result-cases}
use tenantvault_zero_trust_r.Exec.{result, after}
use tenantvault_zero_trust_r.Platform.{Platform, Time}
use tenantvault_zero_trust_r.Security.{Principal, TokenAuthority, verify}
use tenantvault_zero_trust_r.Security.Tokens.{IsSigned, verify_sound}
use tenantvault_zero_trust_r.Models.{IngestRequest, QueryRequest}
use tenantvault_zero_trust_r.Store.{RagStore}
use tenantvault_zero_trust_r.Store.Spec.{Vault, Simulates}
use tenantvault_zero_trust_r.ControlPlane.{TenantContract}
use tenantvault_zero_trust_r.Engine
use tenantvault_zero_trust_r.Engine.{Engine, QueryReply, IngestDraw, QueryDraw, AttestDraw}
use tenantvault_zero_trust_r.Engine.Receipts.{IsAccounted, query-IsAccounted}
use tenantvault_zero_trust_r.Engine.Lockout.{IsLocked, locked-query, locked-ingest, locked-attest}
use tenantvault_zero_trust_r.Api.{
  Headers, as_unauthorized, as_forbidden, as_locked, translated, bearer, authenticated_principal,
  ingest, query, run_attestation, isolation_probe,
}

translated-ok :
    {A : Type 0} (f : Error → Error) (r : Result A) {a : A} → translated f r ≡ ok a → r ≡ ok a
translated-ok f (ok b) h = h
translated-ok f (err e) h = cc

module _ {F : Type 0} (P : Platform F) (a : TokenAuthority) where
  bearer-IsSigned :
      (credentials : Option String) (now : Time) (p : Principal)
      → bearer P a credentials now ≡ ok p
      → (token : String) × (credentials ≡ some token) × IsSigned P a now token p
  bearer-IsSigned none now p h = cc
  bearer-IsSigned (some token) now p h = (
    token,
    refl,
    verify_sound P a now token p (translated-ok as_unauthorized (verify P a token now) h),
  )

  pub authenticated-IsSigned :
      (h : Headers) (p : Principal)
      → authenticated_principal P a h ≡ ok p
      → (h.tenant_override ≡ none)
        × (token : String) × (h.credentials ≡ some token)
        × IsSigned P a h.received_at token p
  unfolding authenticated_principal
  authenticated-IsSigned h p e = elim (Option-cases h.tenant_override) [
    | inl absent ↦
        let (token, given, signed) =
          bearer-IsSigned h.credentials h.received_at p (ground (arith, absent, e)) in
        (absent, token, given, signed)
    | inr (s, given) ↦ absurd (ground (arith, given))
  ]

module _ {F W : Type 0} (P : Platform F) (a : TokenAuthority) (R : RagStore F W)
    (view : W → Vault F) (sim : Simulates P R view) where
  -- A query that the API answers, over any store that keeps its promise, came without a tenant
  -- header and with a bearer token that carries the token authority's HMAC over its claims and
  -- that has not expired. Its
  -- receipt accounts for a search of exactly the tenant that the signed claims of that token name.
  pub answered_query_is_authentic :
      (h : Headers) (r : QueryRequest) (d : QueryDraw) (s : Engine F W) (reply : QueryReply F)
      → result (query P a R h r d) s ≡ ok reply
      → (p : Principal) × (h.tenant_override ≡ none)
        × (token : String) × (h.credentials ≡ some token)
        × IsSigned P a h.received_at token p
        × IsAccounted P p r none d s.receipt_secret
            (view s.store)
            (view (after (query P a R h r d) s).store)
            reply
  unfolding query
  answered_query_is_authentic h r d s reply e =
      elim (Result-cases (authenticated_principal P a h)) [
        | inr (why, refused) ↦ absurd (ground (arith, refused, e))
        | inl (p, verified) ↦
            let (absent, token, given, signed) = authenticated-IsSigned P a h p verified in
            let answered : result (Engine.query P R p r none d) s ≡ ok reply =
              translated-ok as_locked (result (Engine.query P R p r none d) s)
                (ground (arith, verified, e)) in
            (
              p,
              absent,
              token,
              given,
              signed,
              rw verified (query-IsAccounted P R view sim p r none d s reply answered),
            )
      ]

abbrev pub message : String
message = "tenant workspace is quarantined after a failed isolation attestation"

module _ {F W : Type 0} (P : Platform F) (a : TokenAuthority) (R : RagStore F W) where
  -- An authenticated caller of a quarantined tenant is answered 423 by the endpoints of queries and
  -- attestations, but 403 by those of documents and of the probe, which catch the quarantine as a
  -- `PermissionError`. In each case the engine is left as it was.
  pub quarantined_status_codes :
      (h : Headers) (p : Principal) (t : TenantContract) (s : Engine F W)
      → authenticated_principal P a h ≡ ok p
      → IsLocked p.tenant_id t s
      → ((r : QueryRequest) (d : QueryDraw)
          → query P a R h r d s ≡ (err (http_exception 423 message), s))
        × ((d : AttestDraw F) → run_attestation P a R h d s ≡ (err (http_exception 423 message), s))
        × ((r : IngestRequest F) (d : IngestDraw)
            → ingest P a R h r d s ≡ (err (http_exception 403 message), s))
        × ((d : QueryDraw) → isolation_probe P a R h d s ≡ (err (http_exception 403 message), s))
  unfolding query ingest run_attestation isolation_probe Engine.isolation_probe as_locked
      as_forbidden
  quarantined_status_codes h p t s verified locked = (
    λ r d. rw (verified, locked-query P R p t s locked r none d) refl,
    λ d. rw (verified, locked-attest P R p t s locked d) refl,
    λ r d. rw (verified, locked-ingest P R p t s locked r none d) refl,
    λ d. rw (verified, locked-query P R p t s locked _ none d) refl,
  )
