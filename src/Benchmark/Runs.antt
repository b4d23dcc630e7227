-- ===== src/Benchmark/Runs.antt =====
-- Calls of the benchmark's engine that return, and what holds then
-- (scripts/fault_injection_benchmark.py, over src/tenantvault/engine.py).
use tenantvault_zero_trust_r.Base.{
  ℕ, ◌≡◌, refl, ap, ◌∙◌, ◌==◌, true, none, List, [], ◌∷◌, ◌++◌, Bool-cases, inl, inr, arith,
}
use tenantvault_zero_trust_r.Base.Dict.{Dict, insert, bucket-insert}
use tenantvault_zero_trust_r.Result.{Result, ok}
use tenantvault_zero_trust_r.Exec.{after, ◌>>=◌}
use tenantvault_zero_trust_r.Platform.{Platform, Uuid}
use tenantvault_zero_trust_r.Security.{Principal, TenantCipher, can}
use tenantvault_zero_trust_r.Models.{IngestRequest, QueryRequest, StoredDocument}
use tenantvault_zero_trust_r.Memory
use tenantvault_zero_trust_r.Memory.{
  MemoryRagStore, memory_store, own_documents, sealed, search, append_audit, audit_head,
  count_for_tenant, new_store, new_event, head_of, own_events, add_document,
}
use tenantvault_zero_trust_r.Memory.Integrity.{
  Step, ingested, searched, counted, audited, headed, Reach, start, then_step,
}
use tenantvault_zero_trust_r.Memory.Retrieval.{IsOpening, search_returns}
use tenantvault_zero_trust_r.Embedding.{embed}
use tenantvault_zero_trust_r.Base.{subst}
use tenantvault_zero_trust_r.Base.Lists.{length}
use tenantvault_zero_trust_r.Store.{Chunk}
use tenantvault_zero_trust_r.Engine.{
  IngestDraw, QueryDraw, check_plane, current_policy, ingest, query, respond, query_entry,
  ingest_entry, ingest_reply, default_policy_version,
}
use tenantvault_zero_trust_r.Benchmark.{Bench, engine_of, cipher, all_values, receipt_secret}

-- The dict holds a document at least.
abbrev pub Filled : {F : Type 0} → Dict (List (StoredDocument F)) → Type 0
Filled {F} d = (x : StoredDocument F) × (xs : List (StoredDocument F)) × (all_values d ≡ x ∷ xs)

module _ {A : Type 0} where
  append-filled :
      (xs : List A) (x : A) (ys : List A)
      → (y : A) × (zs : List A) × ((xs ++ (x ∷ [])) ++ ys ≡ y ∷ zs)
  append-filled [] x ys = (x, ys, refl)
  append-filled (y ∷ xs) x ys = (y, (xs ++ (x ∷ [])) ++ ys, refl)

  after-filled :
      (xs ys : List A)
      → ((y : A) × (zs : List A) × (ys ≡ y ∷ zs))
      → (y : A) × (zs : List A) × (xs ++ ys ≡ y ∷ zs)
  after-filled [] ys h = h
  after-filled (x ∷ xs) ys h = (x, xs ++ ys, refl)

  pub insert-filled :
      (k : ℕ) (xs : List A) (x : A) (d : Dict (List A))
      → (y : A) × (ys : List A) × (all_values (insert k (xs ++ (x ∷ [])) d) ≡ y ∷ ys)
  insert-filled k xs x [] = append-filled xs x []
  insert-filled k xs x ((j, ws) ∷ d) = elim (Bool-cases (j == k)) [
    | inl same ↦ rw same (append-filled xs x (all_values d))
    | inr differ ↦ rw differ (after-filled ws _ (insert-filled k xs x d))
  ]

module _ {F : Type 0} (P : Platform F) where
  Step-cipher : {s t : MemoryRagStore F} → Step P s t → t.cipher ≡ s.cipher
  unfolding Memory.ingest search count_for_tenant append_audit audit_head
  Step-cipher (ingested p c d) = elim (Bool-cases (can p "rag:write")) [
    | inl may ↦ rw may refl
    | inr may_not ↦ rw may_not refl
  ]
  Step-cipher (searched p e k) = elim (Bool-cases (can p "rag:read")) [
    | inl may ↦ rw may refl
    | inr may_not ↦ rw may_not refl
  ]
  Step-cipher (counted p) = refl
  Step-cipher (audited p e d) = refl
  Step-cipher (headed p) = refl

  pub Reach-cipher : (c : TenantCipher) {s : MemoryRagStore F} → Reach P c s → s.cipher ≡ c
  unfolding new_store
  Reach-cipher c start = refl
  Reach-cipher c (then_step r step) = Step-cipher step ∙ Reach-cipher c r

  -- The call returns a value, from a store that the benchmark's operations reach.
  pub record Returns {A : Type 0} (m : Bench P A) (w : MemoryRagStore F)
      (Q : A → MemoryRagStore F → Type 0) : Type 0 where
    pub value : A
    pub next : MemoryRagStore F
    pub ran : m (engine_of P w) ≡ (ok value, engine_of P next)
    pub reach : Reach P (cipher P) next
    pub holds : Q value next

  module _ {A B : Type 0} (w : MemoryRagStore F) where
    pub Returns-bind :
        {Q : A → MemoryRagStore F → Type 0} {T : B → MemoryRagStore F → Type 0}
        → (m : Bench P A) (f : A → Bench P B) → Returns m w Q
        → ((a : A) (v : MemoryRagStore F) → Reach P (cipher P) v → Q a v → Returns (f a) v T)
        → Returns (m >>= f) w T
    Returns-bind m f h k =
        let rest = k h.value h.next h.reach h.holds in
        record {
          value = rest.value;
          next = rest.next;
          ran = rw (h.ran) rest.ran;
          reach = rest.reach;
          holds = rest.holds;
        }

  abbrev pub Anything : {A : Type 0} → A → MemoryRagStore F → Type 0
  Anything a v = Unit

  pub query-Returns :
      IsOpening P
      → (p : Principal) (q : QueryRequest) (draw : QueryDraw) (w : MemoryRagStore F)
      → Reach P (cipher P) w
      → can p "rag:read" ≡ true
      → Returns (query P (memory_store P) p q none draw) w Anything
  unfolding query check_plane current_policy count_for_tenant append_audit audit_head
  query-Returns law p q draw w r may =
      let e = embed P q.question in
      let (hits, found, few, good) = search_returns P law (cipher P) w p e q.top_k r may in
      let entry = query_entry P q hits draw.request_id in
      let w1 = after (search P p e q.top_k) w in
      let w2 = after (append_audit P p entry draw.audit) w1 in
      record {
        value =
            respond P receipt_secret p q draw.request_id default_policy_version
              (length (own_documents w2 p.tenant_id)) hits
              (new_event P p entry (head_of (own_events w1 p.tenant_id)) draw.audit) draw;
        next = after (count_for_tenant p) w2;
        ran = rw found refl;
        reach =
            then_step (then_step (then_step r (searched p e q.top_k)) (audited p entry draw.audit))
              (counted p);
        holds = tt;
      }

  -- The tenant's last document, and one of all.
  pub record IsFilled (j : Uuid) (w : MemoryRagStore F) : Type 0 where
    pub earlier : List (StoredDocument F)
    pub last : StoredDocument F
    pub bucket_at : own_documents w j ≡ earlier ++ (last ∷ [])
    pub filled : Filled w.documents

  pub ingest-Returns :
      (p : Principal) (request : IngestRequest F) (draw : IngestDraw) (w : MemoryRagStore F)
      → Reach P (cipher P) w
      → can p "rag:write" ≡ true
      → Returns (ingest P (memory_store P) p request none draw) w (λ _ v. IsFilled p.tenant_id v)
  unfolding ingest Memory.ingest check_plane append_audit audit_head sealed
  ingest-Returns p request draw w r may =
      let chunk : Chunk F = record {
        title = request.title;
        content = request.content;
        source_uri = request.source_uri;
        metadata = request.metadata;
        embedding = embed P request.content;
      } in
      let document = sealed P w.cipher p chunk draw.chunk in
      let entry = ingest_entry P document draw.request_id in
      let w1 = add_document document w in
      let w2 = after (append_audit P p entry draw.audit) w1 in
      let ran : Memory.ingest P p chunk draw.chunk w ≡ (ok document, w1) = rw may refl in
      record {
        value = ingest_reply P document;
        next = w2;
        ran = rw may refl;
        reach =
            then_step
              (subst (Reach P (cipher P))
                (ap (λ (x : Result (StoredDocument F) × MemoryRagStore F). x.1) ran)
                (then_step r (ingested p chunk draw.chunk)))
              (audited p entry draw.audit);
        holds = record {
          earlier = own_documents w p.tenant_id;
          last = document;
          bucket_at = ground (
            arith,
            bucket-insert p.tenant_id p.tenant_id (own_documents w p.tenant_id ++ (document ∷ []))
                w.documents,
          );
          filled = insert-filled p.tenant_id (own_documents w p.tenant_id) document w.documents;
        };
      }
