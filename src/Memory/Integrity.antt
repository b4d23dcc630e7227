-- ===== src/Memory/Integrity.antt =====
-- What every state of `MemoryRagStore` that its operations can reach satisfies: each document was
-- sealed for the tenant that holds it, and each tenant's audit events form one chain of hashes.
use tenantvault_zero_trust_r.Base.{
  ℕ, ◌≡◌, refl, ap, ◌∙◌, sym, subst, List, [], ◌∷◌, ◌++◌, String, arith, ◌==◌, ==_iff, Bool-cases,
  inl, inr,
}
use tenantvault_zero_trust_r.Base.Lists.{All, All-append}
use tenantvault_zero_trust_r.Base.Dict.{Dict, bucket, insert, touch, bucket-insert, bucket-touch}
use tenantvault_zero_trust_r.Exec.{after}
use tenantvault_zero_trust_r.Platform.{Platform, Uuid}
use tenantvault_zero_trust_r.Security.{Principal, TenantCipher, can}
use tenantvault_zero_trust_r.Models.{StoredDocument, AuditEvent}
use tenantvault_zero_trust_r.Store.{Chunk, ChunkDraw, AuditEntry, AuditDraw}
use tenantvault_zero_trust_r.Memory.{
  MemoryRagStore, new_store, genesis, head_of, own_documents, own_events, sealed, new_event, ingest,
  search, count_for_tenant, append_audit, audit_head,
}

-- The bucket of `j`, once an item has been appended to the bucket of `k`.
bucket-append {ℓ} :
    {A : Type ℓ} (k j : Uuid) (x : A) (d : Dict (List A)) (Q : List A → Type 0)
    → Q (bucket j d)
    → (k ≡ j → Q (bucket j d) → Q (bucket j d ++ (x ∷ [])))
    → Q (bucket j (insert k (bucket k d ++ (x ∷ [])) d))
bucket-append k j x d Q h grow = elim (Bool-cases (k == j)) [
  | inl same ↦
      let e : k ≡ j = (==_iff k j).0 same in
      subst Q (ground (arith, bucket-insert k j (bucket k d ++ (x ∷ [])) d, e)) (grow e h)
  | inr differ ↦ subst Q (ground (arith, bucket-insert k j (bucket k d ++ (x ∷ [])) d, differ)) h
]

module _ {F : Type 0} (P : Platform F) where
  -- The document is what `ingest` made of some text for the tenant `j`.
  pub record IsSealed (cipher : TenantCipher) (j : Uuid) (d : StoredDocument F) : Type 0 where
    pub owner : Principal
    pub owner_tenant : owner.tenant_id ≡ j
    pub chunk : Chunk F
    pub draw : ChunkDraw
    pub made : d ≡ sealed P cipher owner chunk draw

  -- The event is what `append_audit` made of some entry for the tenant `j`, over the hash `prior`.
  pub record IsLink (j : Uuid) (prior : String) (e : AuditEvent) : Type 0 where
    pub actor : Principal
    pub actor_tenant : actor.tenant_id ≡ j
    pub entry : AuditEntry F
    pub draw : AuditDraw
    pub made : e ≡ new_event P actor entry prior draw

  -- Each event covers the hash of the one before it, the first one `prior`.
  abbrev pub IsChain : Uuid → String → List AuditEvent → Type 0
  IsChain j prior [] = Unit
  IsChain j prior (e ∷ es) = IsLink j prior e × IsChain j e.event_hash es

  -- The hash that the next event has to cover.
  abbrev pub last_hash : String → List AuditEvent → String
  last_hash prior [] = prior
  last_hash prior (e ∷ es) = last_hash e.event_hash es

  last_hash-head_of :
      (e : AuditEvent) (es : List AuditEvent) → last_hash e.event_hash es ≡ head_of (e ∷ es)
  last_hash-head_of e [] = refl
  last_hash-head_of e (x ∷ es) = last_hash-head_of x es

  pub genesis-head_of : (es : List AuditEvent) → last_hash genesis es ≡ head_of es
  genesis-head_of [] = refl
  genesis-head_of (e ∷ es) = last_hash-head_of e es

  IsChain-append :
      (j : Uuid) (prior : String) (es : List AuditEvent) (e : AuditEvent)
      → IsChain j prior es
      → IsLink j (last_hash prior es) e
      → IsChain j prior (es ++ (e ∷ []))
  IsChain-append j prior [] e h k = (k, tt)
  IsChain-append j prior (x ∷ es) e h k = (h.0, IsChain-append j x.event_hash es e h.1 k)

  pub record IsIntact (s : MemoryRagStore F) : Type 0 where
    pub documents : (j : Uuid) → All (IsSealed s.cipher j) (own_documents s j)
    pub events : (j : Uuid) → IsChain j genesis (own_events s j)

  -- The operations of the store, whether they return or raise.
  pub data Step (s : MemoryRagStore F) : MemoryRagStore F → Type 0 where
    ingested : (p : Principal) (c : Chunk F) (d : ChunkDraw) → Step s (after (ingest P p c d) s)
    searched : (p : Principal) (e : List F) (k : ℕ) → Step s (after (search P p e k) s)
    counted : (p : Principal) → Step s (after (count_for_tenant p) s)
    audited :
        (p : Principal) (e : AuditEntry F) (d : AuditDraw) → Step s (after (append_audit P p e d) s)
    headed : (p : Principal) → Step s (after (audit_head p) s)

  pub data Reach (cipher : TenantCipher) : MemoryRagStore F → Type 0 where
    start : Reach cipher (new_store cipher)
    then_step : {s t : MemoryRagStore F} → Reach cipher s → Step s t → Reach cipher t

  module _ (s : MemoryRagStore F) (h : IsIntact s) where
    read_documents-IsIntact : (k : Uuid) → IsIntact (record s { documents = touch k s.documents })
    read_documents-IsIntact k = record {
      documents = λ j.
          subst (All (IsSealed s.cipher j)) (sym (bucket-touch k j s.documents)) (h.documents j);
      events = h.events;
    }

    read_events-IsIntact : (k : Uuid) → IsIntact (record s { events = touch k s.events })
    read_events-IsIntact k = record {
      documents = h.documents;
      events = λ j. subst (IsChain j genesis) (sym (bucket-touch k j s.events)) (h.events j);
    }

    ingest-IsIntact :
        (p : Principal) (c : Chunk F) (d : ChunkDraw) → IsIntact (after (ingest P p c d) s)
    unfolding ingest sealed
    ingest-IsIntact p c d = elim (Bool-cases (can p "rag:write")) [
      | inr may_not ↦ rw may_not h
      | inl may ↦ rw may (record {
        documents = λ j.
            bucket-append p.tenant_id j (sealed P s.cipher p c d) s.documents
              (All (IsSealed s.cipher j)) (h.documents j)
              λ same kept.
                All-append (IsSealed s.cipher j) _ _ kept
                  (record { owner = p; owner_tenant = same; chunk = c; draw = d; made = refl }, tt);
        events = h.events;
      })
    ]

    append_audit-IsIntact :
        (p : Principal) (e : AuditEntry F) (d : AuditDraw)
        → IsIntact (after (append_audit P p e d) s)
    unfolding append_audit new_event
    append_audit-IsIntact p e d =
        let head = head_of (own_events s p.tenant_id) in
        let event = new_event P p e head d in
        let read = read_events-IsIntact p.tenant_id in
        record {
          documents = h.documents;
          events = λ j.
              bucket-append p.tenant_id j event (touch p.tenant_id s.events) (IsChain j genesis)
                (read.events j)
                λ same kept. IsChain-append j genesis _ event kept (record {
                  actor = p;
                  actor_tenant = same;
                  entry = e;
                  draw = d;
                  made =
                      ap (λ (x : String). new_event P p e x d)
                        (ap (λ (i : Uuid). head_of (bucket i s.events)) same
                          ∙ ap head_of (sym (bucket-touch p.tenant_id j s.events))
                          ∙ sym (genesis-head_of (bucket j (touch p.tenant_id s.events))));
                });
        }

    search-IsIntact : (p : Principal) (e : List F) (k : ℕ) → IsIntact (after (search P p e k) s)
    unfolding search
    search-IsIntact p e k = elim (Bool-cases (can p "rag:read")) [
      | inl may ↦ rw may (read_documents-IsIntact p.tenant_id)
      | inr may_not ↦ rw may_not h
    ]

  Step-IsIntact : {s t : MemoryRagStore F} → IsIntact s → Step s t → IsIntact t
  unfolding count_for_tenant audit_head
  Step-IsIntact {s = s} h (ingested p c d) = ingest-IsIntact s h p c d
  Step-IsIntact {s = s} h (searched p e k) = search-IsIntact s h p e k
  Step-IsIntact {s = s} h (counted p) = read_documents-IsIntact s h p.tenant_id
  Step-IsIntact {s = s} h (audited p e d) = append_audit-IsIntact s h p e d
  Step-IsIntact {s = s} h (headed p) = read_events-IsIntact s h p.tenant_id

  -- In every state that the store's operations reach from an empty store, each document in a
  -- tenant's bucket was sealed for that tenant, and the tenant's audit events form one chain: the
  -- first event's hash covers sixty-four zeros, and every later one covers the hash before it.
  pub Reach-IsIntact : (cipher : TenantCipher) {s : MemoryRagStore F} → Reach cipher s → IsIntact s
  unfolding new_store
  Reach-IsIntact cipher start = record { documents = λ j. tt; events = λ j. tt }
  Reach-IsIntact cipher (then_step r step) = Step-IsIntact (Reach-IsIntact cipher r) step
