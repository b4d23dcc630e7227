-- ===== src/Postgres/Retrieval.antt =====
-- What a search of `PostgresRagStore` returns, and what every state that its operations reach
-- satisfies.
use tenantvault_zero_trust_r.Base.{
  ℕ, ◌≡◌, refl, ap, sym, subst, ◌≤◌, String, Bool, true, some, List, [], ◌∷◌, ◌⊎◌, ◌==◌, ==_iff,
  Bool-cases, inl, inr,
}
use tenantvault_zero_trust_r.Base.Lists.{filter, All, All-append, length}
use tenantvault_zero_trust_r.Exec.{after}
use tenantvault_zero_trust_r.Platform.{Platform, Uuid}
use tenantvault_zero_trust_r.Security.{Principal, TenantCipher}
use tenantvault_zero_trust_r.Store.{Chunk, ChunkDraw, AuditEntry, AuditDraw}
use tenantvault_zero_trust_r.Memory.{sealed}
use tenantvault_zero_trust_r.Postgres.Tables.{
  DocumentRow, Server, document_tenant_fence, visible_documents,
}
use tenantvault_zero_trust_r.Postgres.{PostgresRagStore, row_of, ingest, search, append_after}
use tenantvault_zero_trust_r.Postgres.Outcomes.{
  search-kept, count-returned, document, stored, ingest-cases, append_after-cases,
  append_audit-after, head_in, audit_head-returned,
}
use tenantvault_zero_trust_r.Postgres.Fence.{
  IsUuidText, filter-append_own, filter-append_other, Step, ingested, searched, counted, audited,
  headed, resumed,
}

abbrev pub Among : {A : Type 0} → A → List A → Type 0
Among x [] = ⊥
Among x (y ∷ ys) = (x ≡ y) ⊎ Among x ys

pub All-Among {κ} :
    {A : Type 0} (Q : A → Type κ) (x : A) (ys : List A) → All Q ys → Among x ys → Q x
All-Among Q x [] h a = absurd a
All-Among Q x (y ∷ ys) h (inl e) = subst Q (sym e) h.0
All-Among Q x (y ∷ ys) h (inr a) = All-Among Q x ys h.1 a

-- The server answers a query by a vector of the column's type with at most as many rows as the
-- limit, all of them rows that the policy shows.
pub record IsFencing {F : Type 0} (V : Server F) : Type 0 where
  pub answers :
      (query : String) (limit : ℕ) (policy : DocumentRow F → Bool) (rows : List (DocumentRow F))
      → V.is_vector query ≡ true
      → (found : List (DocumentRow F × F)) × (V.nearest query limit policy rows ≡ some found)
        × All (λ r. Among r.0 (filter policy rows)) found
        × (length found ≤ limit)

module _ {F : Type 0} (P : Platform F) where
  -- The row holds what `ingest` made of some text for the tenant `j`.
  pub record IsSealedRow (cipher : TenantCipher) (j : Uuid) (row : DocumentRow F) : Type 0 where
    pub owner : Principal
    pub owner_tenant : owner.tenant_id ≡ j
    pub chunk : Chunk F
    pub draw : ChunkDraw
    pub made : row ≡ row_of P owner.tenant_id (sealed P cipher owner chunk draw)

  abbrev pub AllSealed : PostgresRagStore F → Type 0
  AllSealed s = (j : Uuid) → All (IsSealedRow s.cipher j) (visible_documents j s.database)

  pub data Reach (V : Server F) (cipher : TenantCipher) (tenants : List Uuid)
      : PostgresRagStore F → Type 0 where
    migrated : Reach V cipher tenants (record {
      cipher = cipher;
      database = record { tenants = tenants; documents = []; events = [] };
    })
    then_step :
        {s t : PostgresRagStore F} (p : Principal)
        → Reach V cipher tenants s
        → Step P V p s t
        → Reach V cipher tenants t

  module _ (uuids : IsUuidText P) (V : Server F) (s : PostgresRagStore F) (h : AllSealed s)
      (p : Principal) where
    -- A call that leaves the documents alone.
    unchanged :
        (t : PostgresRagStore F)
        → s.cipher ≡ t.cipher
        → s.database.documents ≡ t.database.documents
        → AllSealed t
    unchanged t same rows j =
        subst (λ c. All (IsSealedRow c j) (visible_documents j t.database)) same
          (subst (λ r. All (IsSealedRow s.cipher j) (filter (document_tenant_fence j) r)) rows
            (h j))

    stored-AllSealed : (c : Chunk F) (d : ChunkDraw) → AllSealed (stored P uuids V p s c d)
    stored-AllSealed c d j = elim (Bool-cases (p.tenant_id == j)) [
      | inl own ↦
          subst (All (IsSealedRow s.cipher j))
            (sym (
              filter-append_own (document_tenant_fence j) s.database.documents
                (row_of P p.tenant_id (document P uuids V p s c d)) (unfold row_of in own)))
            (All-append (IsSealedRow s.cipher j) _ _ (h j) (
              record {
                owner = p;
                owner_tenant = (==_iff p.tenant_id j).0 own;
                chunk = c;
                draw = d;
                made = refl;
              },
              tt,
            ))
      | inr foreign ↦
          subst (All (IsSealedRow s.cipher j))
            (sym (
              filter-append_other (document_tenant_fence j) s.database.documents
                (row_of P p.tenant_id (document P uuids V p s c d)) (unfold row_of in foreign)))
            (h j)
    ]

    ingest-AllSealed : (c : Chunk F) (d : ChunkDraw) → AllSealed (after (ingest P V p c d) s)
    ingest-AllSealed c d = elim (ingest-cases P uuids V p s c d) [
      | inl (e, done) ↦ subst AllSealed (sym (ap (λ (x : _ × PostgresRagStore F). x.1) done)) h
      | inr done ↦
          subst AllSealed (sym (ap (λ (x : _ × PostgresRagStore F). x.1) done))
            (stored-AllSealed c d)
    ]

    append_after-AllSealed :
        (a : AuditEntry F) (d : AuditDraw) (head : String)
        → AllSealed (after (append_after P V p a d head) s)
    append_after-AllSealed a d head = elim (append_after-cases P uuids V p s a d head) [
      | inl (e, done) ↦ subst AllSealed (sym (ap (λ (x : _ × PostgresRagStore F). x.1) done)) h
      | inr done ↦ subst AllSealed (sym (ap (λ (x : _ × PostgresRagStore F). x.1) done)) h
    ]

    search-AllSealed : (e : List F) (k : ℕ) → AllSealed (after (search P V p e k) s)
    search-AllSealed e k = subst AllSealed (sym (search-kept P uuids V p s e k)) h

    Step-AllSealed : (t : PostgresRagStore F) → Step P V p s t → AllSealed t
    Step-AllSealed t (ingested c d) = ingest-AllSealed c d
    Step-AllSealed t (searched e k) = search-AllSealed e k
    Step-AllSealed t counted =
        subst AllSealed
          (sym (ap (λ (x : _ × PostgresRagStore F). x.1) (count-returned P uuids V p s))) h
    Step-AllSealed t (audited e d) =
        subst AllSealed
          (sym (ap (λ (x : _ × PostgresRagStore F). x.1) (append_audit-after P uuids V p s e d)))
          (append_after-AllSealed e d (head_in P uuids V p s))
    Step-AllSealed t headed =
        subst AllSealed
          (sym (ap (λ (x : _ × PostgresRagStore F). x.1) (audit_head-returned P uuids V p s))) h
    Step-AllSealed t (resumed e d head) = append_after-AllSealed e d head

  pub Reach-AllSealed :
      IsUuidText P
      → (V : Server F) (cipher : TenantCipher) (tenants : List Uuid) (s : PostgresRagStore F)
      → Reach V cipher tenants s
      → AllSealed s
  Reach-AllSealed uuids V cipher tenants s migrated = λ j. tt
  Reach-AllSealed uuids V cipher tenants t (then_step {s = s} p r step) =
      Step-AllSealed uuids V s (Reach-AllSealed uuids V cipher tenants s r) p t step
