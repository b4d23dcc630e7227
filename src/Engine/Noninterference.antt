-- ===== src/Engine/Noninterference.antt =====
-- Noninterference: whatever sequence of calls the tenants make, each tenant sees what it would see
-- alone. The engine runs over any store that keeps its promise.
use tenantvault_zero_trust_r.Base.{
  ◌≡◌, ◌≢◌, refl, ap, sym, ◌∙◌, subst, ◌==◌, ==_iff, Option, none, some, List, [], ◌∷◌, arith,
  Bool-cases, inl, inr, if◌then◌else◌,
}
use tenantvault_zero_trust_r.Exec.{after, result}
use tenantvault_zero_trust_r.Platform.{Platform, Uuid}
use tenantvault_zero_trust_r.Security.{Principal}
use tenantvault_zero_trust_r.Models.{IngestRequest, QueryRequest}
use tenantvault_zero_trust_r.Store.{RagStore}
use tenantvault_zero_trust_r.Store.Spec.{Vault, vault, Simulates}
use tenantvault_zero_trust_r.ControlPlane.{ControlPlane}
use tenantvault_zero_trust_r.Engine.{
  Engine, IngestDraw, QueryDraw, AttestDraw, ingest, query, attest,
}
use tenantvault_zero_trust_r.Engine.Refinement.{
  engine_view, ingest-Agree, query-Agree, attest-Agree,
}
use tenantvault_zero_trust_r.Engine.Isolation.{SamePlane, SameTenant, ingest-Unwinds, query-Unwinds}
use tenantvault_zero_trust_r.Engine.Attesting.{attest-Unwinds}
use tenantvault_zero_trust_r.Engine.Sparing.{
  SameTenant-refl, SameTenant-trans, ingest-Spares, query-Spares, attest-Spares,
}

-- A call of the engine by a verified principal, with what it draws from outside.
pub data Call (F : Type 0) : Type 0 where
  ingesting : Principal → IngestRequest F → Option Uuid → IngestDraw → Call F
  querying : Principal → QueryRequest → Option Uuid → QueryDraw → Call F
  attesting : Principal → AttestDraw F → Call F

abbrev pub caller : {F : Type 0} → Call F → Uuid
caller (ingesting p r id d) = p.tenant_id
caller (querying p r id d) = p.tenant_id
caller (attesting p d) = p.tenant_id

-- The engine after a call, whether it returned or raised, and after a sequence of calls.
unfoldable pub step : {F W : Type 0} → Platform F → RagStore F W → Call F → Engine F W → Engine F W
step P R (ingesting p r id d) s = after (ingest P R p r id d) s
step P R (querying p r id d) s = after (query P R p r id d) s
step P R (attesting p d) s = after (attest P R p d) s

unfoldable pub run :
    {F W : Type 0} → Platform F → RagStore F W → List (Call F) → Engine F W → Engine F W
run P R [] s = s
run P R (c ∷ cs) s = run P R cs (step P R c s)

-- The calls of the tenant `j`.
unfoldable pub own : {F : Type 0} → Uuid → List (Call F) → List (Call F)
own j [] = []
own j (c ∷ cs) = let rest = own j cs in if caller c == j then c ∷ rest else rest

SamePlane-sym :
    {F : Type 0} (j : Uuid) (a b : Option (ControlPlane F)) → SamePlane j a b → SamePlane j b a
SamePlane-sym j none none h = tt
SamePlane-sym j (some c) (some d) h = (
  record { contract = sym h.0.contract; state = sym h.0.state; ledger = sym h.0.ledger },
  sym h.1,
)
SamePlane-sym j none (some d) h = absurd h
SamePlane-sym j (some c) none h = absurd h

SameTenant-sym :
    {F : Type 0} (j : Uuid) (s t : Engine F (Vault F)) → SameTenant j s t → SameTenant j t s
SameTenant-sym j s t h = record {
  cipher = sym h.cipher;
  documents = sym h.documents;
  events = sym h.events;
  secret = sym h.secret;
  plane = SamePlane-sym j s.control_plane t.control_plane h.plane;
}

module _ {F : Type 0} (P : Platform F) where
  step-own :
      (c : Call F) (s t : Engine F (Vault F))
      → SameTenant (caller c) s t
      → SameTenant (caller c) (step P (vault P) c s) (step P (vault P) c t)
  unfolding step
  step-own (ingesting p r id d) s t h = (ingest-Unwinds P p r id d).leaves s t h
  step-own (querying p r id d) s t h = (query-Unwinds P p r id d).leaves s t h
  step-own (attesting p d) s t h = (attest-Unwinds P p d).leaves s t h

  step-other :
      (j : Uuid) (c : Call F) (s : Engine F (Vault F))
      → j ≢ caller c
      → SameTenant j s (step P (vault P) c s)
  unfolding step
  step-other j (ingesting p r id d) s ne = (ingest-Spares P p j ne r id d).spares s
  step-other j (querying p r id d) s ne = (query-Spares P p j ne r id d).spares s
  step-other j (attesting p d) s ne = (attest-Spares P p j ne d).spares s

  step-mine :
      (j : Uuid) (c : Call F) (s t : Engine F (Vault F))
      → caller c ≡ j
      → SameTenant j s t
      → SameTenant j (step P (vault P) c s) (step P (vault P) c t)
  step-mine j c s t e h =
      subst (λ i. SameTenant {F = F} i (step P (vault P) c s) (step P (vault P) c t)) e
        (step-own c s t (subst (λ i. SameTenant {F = F} i s t) (sym e) h))

  run-own :
      (j : Uuid) (cs : List (Call F)) (s t : Engine F (Vault F))
      → SameTenant j s t
      → SameTenant j (run P (vault P) cs s) (run P (vault P) (own j cs) t)
  unfolding run own
  run-own j [] s t h = h
  run-own j (c ∷ cs) s t h = elim (Bool-cases (caller c == j)) [
    | inl mine ↦ rw mine (
        run-own j cs (step P (vault P) c s) (step P (vault P) c t)
          (step-mine j c s t ((==_iff _ _).0 mine) h))
    | inr foreign ↦ rw foreign (
        run-own j cs (step P (vault P) c s) t (
          SameTenant-trans j (step P (vault P) c s) s t
            (SameTenant-sym j s (step P (vault P) c s)
              (step-other j c s (ground (arith, foreign, ==_iff (caller c) j))))
            h))
  ]

module _ {F W : Type 0} (P : Platform F) (R : RagStore F W) (view : W → Vault F)
    (sim : Simulates P R view) where
  step-view :
      (c : Call F) (s : Engine F W)
      → engine_view view (step P R c s) ≡ step P (vault P) c (engine_view view s)
  unfolding step
  step-view (ingesting p r id d) s = (ingest-Agree P R view sim p r id d).leaves s
  step-view (querying p r id d) s = (query-Agree P R view sim p r id d).leaves s
  step-view (attesting p d) s = (attest-Agree P R view sim p d).leaves s

  run-view :
      (cs : List (Call F)) (s : Engine F W)
      → engine_view view (run P R cs s) ≡ run P (vault P) cs (engine_view view s)
  unfolding run
  run-view [] s = refl
  run-view (c ∷ cs) s = run-view cs (step P R c s) ∙ ap (run P (vault P) cs) (step-view c s)

  -- Over any store that keeps its promise, and after any sequence of ingestions, queries and
  -- attestations by any tenants, failing ones included, a query by a tenant has the outcome
  -- (reply, sources, receipt, or error) that it would have had if only that tenant's own calls
  -- had been made.
  pub query_noninterference :
      (p : Principal) (r : QueryRequest) (id : Option Uuid) (d : QueryDraw) (cs : List (Call F))
      (s : Engine F W)
      → result (query P R p r id d) (run P R cs s)
        ≡ result (query P R p r id d) (run P R (own p.tenant_id cs) s)
  query_noninterference p r id d cs s =
      let v = engine_view view s in
      (query-Agree P R view sim p r id d).returns (run P R cs s)
      ∙ ap (result (query P (vault P) p r id d)) (run-view cs s)
      ∙ (query-Unwinds P p r id d).returns (run P (vault P) cs v)
          (run P (vault P) (own p.tenant_id cs) v)
          (run-own P p.tenant_id cs v v (SameTenant-refl p.tenant_id v))
      ∙ sym (ap (result (query P (vault P) p r id d)) (run-view (own p.tenant_id cs) s))
      ∙ sym ((query-Agree P R view sim p r id d).returns (run P R (own p.tenant_id cs) s))

  -- Over any store that keeps its promise, and after any sequence of calls by any tenants, an
  -- attestation by a tenant has the outcome (the signed record, or the error) that it would
  -- have had if only that tenant's own calls had been made.
  pub attest_noninterference :
      (p : Principal) (d : AttestDraw F) (cs : List (Call F)) (s : Engine F W)
      → result (attest P R p d) (run P R cs s)
        ≡ result (attest P R p d) (run P R (own p.tenant_id cs) s)
  attest_noninterference p d cs s =
      let v = engine_view view s in
      (attest-Agree P R view sim p d).returns (run P R cs s)
      ∙ ap (result (attest P (vault P) p d)) (run-view cs s)
      ∙ (attest-Unwinds P p d).returns (run P (vault P) cs v)
          (run P (vault P) (own p.tenant_id cs) v)
          (run-own P p.tenant_id cs v v (SameTenant-refl p.tenant_id v))
      ∙ sym (ap (result (attest P (vault P) p d)) (run-view (own p.tenant_id cs) s))
      ∙ sym ((attest-Agree P R view sim p d).returns (run P R (own p.tenant_id cs) s))
