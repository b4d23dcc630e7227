-- ===== src/Engine/Receipts.antt =====
-- What a query that returns has done and what its receipt says, over any store that keeps its
-- promise.
use tenantvault_zero_trust_r.Base.{
  ◌≡◌, refl, ap, sym, ◌∙◌, subst, String, true, Option, some, List, [], ◌∷◌, ◌++◌, map, arith,
  ==_refl, Bool-cases, inl, inr,
}
use tenantvault_zero_trust_r.Base.Int.{pos}
use tenantvault_zero_trust_r.Base.Lists.{length, take}
use tenantvault_zero_trust_r.Result.{Result, ok, Result-cases}
use tenantvault_zero_trust_r.Exec.{result, after}
use tenantvault_zero_trust_r.Platform.{Platform, Uuid}
use tenantvault_zero_trust_r.Security.{Principal, can}
use tenantvault_zero_trust_r.Embedding.{embed}
use tenantvault_zero_trust_r.Models.{QueryRequest, RetrievalHit, AuditEvent}
use tenantvault_zero_trust_r.Memory.{head_of, hits_of, new_event}
use tenantvault_zero_trust_r.Memory.Ranking.{ranked}
use tenantvault_zero_trust_r.Store.{RagStore, sign_receipt}
use tenantvault_zero_trust_r.Store.Spec.{Vault, extended, vault, Simulates}
use tenantvault_zero_trust_r.Engine.{
  Engine, QueryReply, QueryDraw, or_drawn, check_plane, current_policy, receipt_payload, signed,
  respond, receipt_of, query_entry, query,
}
use tenantvault_zero_trust_r.Engine.Refinement.{engine_view, query-Agree}

module _ {F : Type 0} (P : Platform F) (p : Principal) (r : QueryRequest) (id : Option Uuid)
    (d : QueryDraw) where
  abbrev hits_in : Vault F → Result (List (RetrievalHit F))
  hits_in v =
      hits_of P v.cipher p (take r.top_k (ranked P (embed P r.question) (v.documents p.tenant_id)))

  abbrev event_in : Vault F → List (RetrievalHit F) → AuditEvent
  event_in v hs =
      new_event P p (query_entry P r hs (or_drawn id d.request_id)) (head_of (v.events p.tenant_id))
        d.audit

  module _ (s : Engine F (Vault F)) where
    -- The tests of a query that returns.
    record IsAnswered (hs : List (RetrievalHit F)) (policy : String) : Type 0 where
      pub checked : check_plane s.control_plane p (some (pos r.top_k)) ≡ ok tt
      pub may : can p "rag:read" ≡ true
      pub found : hits_in s.store ≡ ok hs
      pub policy_read : current_policy s.control_plane p ≡ ok policy

    abbrev answer_to : List (RetrievalHit F) → String → QueryReply F
    answer_to hs policy =
        respond P s.receipt_secret p r (or_drawn id d.request_id) policy
          (length (s.store.documents p.tenant_id)) hs (event_in s.store hs) d

    abbrev state_after : List (RetrievalHit F) → Engine F (Vault F)
    state_after hs = record s {
      store = record s.store { events = extended p.tenant_id (event_in s.store hs) s.store.events };
    }

    IsAnswered-query :
        (hs : List (RetrievalHit F)) (policy : String)
        → IsAnswered hs policy
        → query P (vault P) p r id d s ≡ (ok (answer_to hs policy), state_after hs)
    unfolding query
    IsAnswered-query hs policy h = rw (h.checked, h.may, h.found, h.policy_read) refl

    query-IsAnswered :
        (reply : QueryReply F)
        → result (query P (vault P) p r id d) s ≡ ok reply
        → (hs : List (RetrievalHit F)) × (policy : String) × IsAnswered hs policy
    unfolding query
    query-IsAnswered reply h =
        elim (Result-cases (check_plane s.control_plane p (some (pos r.top_k)))) [
          | inr (e, refused) ↦ absurd (ground (arith, refused))
          | inl (u, checked) ↦ elim (Bool-cases (can p "rag:read")) [
            | inr may_not ↦ absurd (ground (arith, checked, may_not))
            | inl may ↦ elim (Result-cases (hits_in s.store)) [
              | inr (e, failed) ↦ absurd (ground (arith, checked, may, failed))
              | inl (hs, found) ↦ elim (Result-cases (current_policy s.control_plane p)) [
                | inr (e, failed) ↦ absurd (ground (arith, checked, may, found, failed))
                | inl (policy, policy_read) ↦ (
                  hs,
                  policy,
                  record { checked = checked; may = may; found = found; policy_read = policy_read },
                )
              ]
            ]
          ]
        ]

  -- The receipt accounts for the query: `a` and `b` are the vaults before and after.
  pub record IsAccounted (secret : String) (a b : Vault F) (reply : QueryReply F) : Type 0 where
    pub event : AuditEvent
    pub tenant_id : reply.isolation_receipt.tenant_id ≡ p.tenant_id
    pub actor : reply.isolation_receipt.actor ≡ p.subject
    pub request_id : reply.isolation_receipt.request_id ≡ or_drawn id d.request_id
    pub searched : reply.isolation_receipt.search_space_count ≡ length (a.documents p.tenant_id)
    pub hashes :
        reply.isolation_receipt.result_document_hashes ≡ map (λ h. h.content_sha256) reply.sources
    pub head : reply.isolation_receipt.audit_chain_head ≡ event.event_hash
    pub signature :
        reply.isolation_receipt.signature
        ≡ sign_receipt P secret (receipt_payload P reply.isolation_receipt)
    pub logged : b.events p.tenant_id ≡ a.events p.tenant_id ++ (event ∷ [])
    pub action : event.action ≡ "retrieval.completed"
    pub counted : event.result_count ≡ length reply.sources
    pub untouched : b.documents ≡ a.documents

  answer_to-IsAccounted :
      (s : Engine F (Vault F)) (hs : List (RetrievalHit F)) (policy : String)
      → IsAccounted s.receipt_secret s.store (state_after s hs).store (answer_to s hs policy)
  unfolding respond signed receipt_of receipt_payload new_event query_entry
  answer_to-IsAccounted s hs policy = record {
    event = event_in s.store hs;
    tenant_id = refl;
    actor = refl;
    request_id = refl;
    searched = refl;
    hashes = refl;
    head = refl;
    signature = refl;
    logged = rw (==_refl p.tenant_id) refl;
    action = refl;
    counted = refl;
    untouched = refl;
  }

  vault-IsAccounted :
      (s : Engine F (Vault F)) (reply : QueryReply F)
      → result (query P (vault P) p r id d) s ≡ ok reply
      → IsAccounted s.receipt_secret s.store (after (query P (vault P) p r id d) s).store reply
  vault-IsAccounted s reply h =
      let (hs, policy, answered) = query-IsAnswered s reply h in
      let run = IsAnswered-query s hs policy answered in
      let same : answer_to s hs policy ≡ reply =
        ground (arith, ap (λ (q : Result (QueryReply F) × Engine F (Vault F)). q.0) run) in
      subst
        (λ (q : QueryReply F).
          IsAccounted s.receipt_secret s.store (after (query P (vault P) p r id d) s).store q)
        same
        (subst
          (λ (t : Engine F (Vault F)).
            IsAccounted s.receipt_secret s.store t.store (answer_to s hs policy))
          (sym (ap (λ (q : Result (QueryReply F) × Engine F (Vault F)). q.1) run))
          (answer_to-IsAccounted s hs policy))

module _ {F W : Type 0} (P : Platform F) (R : RagStore F W) (view : W → Vault F)
    (sim : Simulates P R view) where
  -- A query that returns, over any store that keeps its promise, adds one audit event to the
  -- tenant's list and changes no document. The event counts the sources of the reply. The receipt
  -- names the principal's tenant and subject, counts all and only the tenant's documents as the
  -- search space, lists the digests of the sources, carries the hash of that event as the head of
  -- the audit chain, and is signed over these fields with the engine's receipt secret.
  pub query-IsAccounted :
      (p : Principal) (r : QueryRequest) (id : Option Uuid) (d : QueryDraw) (s : Engine F W)
      (reply : QueryReply F)
      → result (query P R p r id d) s ≡ ok reply
      → IsAccounted P p r id d s.receipt_secret
          (view s.store)
          (view (after (query P R p r id d) s).store)
          reply
  query-IsAccounted p r id d s reply h =
      let agree = query-Agree P R view sim p r id d in
      subst
        (λ (t : Engine F (Vault F)).
          IsAccounted P p r id d s.receipt_secret (view s.store) t.store reply)
        (sym (agree.leaves s))
        (vault-IsAccounted P p r id d (engine_view view s) reply (sym (agree.returns s) ∙ h))
