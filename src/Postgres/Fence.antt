-- ===== src/Postgres/Fence.antt =====
-- The fence of the policies: what a tenant's transactions see and what they can write, whatever the
-- statement.
use tenantvault_zero_trust_r.Base.{
  ℕ, ◌≡◌, ◌≢◌, refl, sym, ◌∙◌, String, Bool, true, false, some, List, [], ◌∷◌, ◌++◌, arith, ◌==◌,
  ==_iff, text_eq, inl, inr,
}
use tenantvault_zero_trust_r.Base.Lists.{filter}
use tenantvault_zero_trust_r.Result.{Result, ok, err, Result-cases}
use tenantvault_zero_trust_r.Exec.{Exec, reads, after, ◌>>=◌}
use tenantvault_zero_trust_r.Exec.Unwinding.{Spares, Spares-bind}
use tenantvault_zero_trust_r.Platform.{Platform, Uuid}
use tenantvault_zero_trust_r.Security.{Principal}
use tenantvault_zero_trust_r.Models.{StoredDocument, AuditEvent}
use tenantvault_zero_trust_r.Store.{Chunk, ChunkDraw, AuditEntry, AuditDraw}
use tenantvault_zero_trust_r.Memory.{sealed}
use tenantvault_zero_trust_r.Postgres.Tables.{
  DocumentRow, Database, Server, require_tenant, document_tenant_fence, audit_tenant_fence,
  visible_documents, visible_events, check_document, check_event, settle,
}
use tenantvault_zero_trust_r.Postgres.{
  PostgresRagStore, transaction, row_of, event_row_of, insert_document, insert_event,
  select_nearest, new_event, append_after, hits_of, ingest, search, count_for_tenant, append_audit,
  audit_head,
}

-- A UUID is read back from its text, which is not empty.
pub record IsUuidText {F : Type 0} (P : Platform F) : Type 0 where
  pub parses : (j : Uuid) → P.uuid_parse (P.uuid_str j) ≡ some j
  pub present : (j : Uuid) → text_eq (P.uuid_str j) "" ≡ false

-- An item that the test leaves out does not show.
pub filter-append_other {ℓ} :
    {A : Type ℓ} (p : A → Bool) (xs : List A) (x : A)
    → p x ≡ false
    → filter p (xs ++ (x ∷ [])) ≡ filter p xs
filter-append_other p [] x h = rw h
filter-append_other p (y ∷ ys) x h = ground (arith, filter-append_other p ys x h)

pub filter-append_own {ℓ} :
    {A : Type ℓ} (p : A → Bool) (xs : List A) (x : A)
    → p x ≡ true
    → filter p (xs ++ (x ∷ [])) ≡ filter p xs ++ (x ∷ [])
filter-append_own p [] x h = rw h
filter-append_own p (y ∷ ys) x h = ground (arith, filter-append_own p ys x h)

-- Two databases show the tenant `j` the same.
pub record SameRows {F : Type 0} (j : Uuid) (a b : Database F) : Type 0 where
  pub documents : visible_documents j a ≡ visible_documents j b
  pub events : visible_events j a ≡ visible_events j b

module _ {F : Type 0} (j : Uuid) where
  pub SameRows-refl : (a : Database F) → SameRows j a a
  SameRows-refl a = record { documents = refl; events = refl }

  SameRows-trans : (a b c : Database F) → SameRows j a b → SameRows j b c → SameRows j a c
  SameRows-trans a b c h k = record {
    documents = h.documents ∙ k.documents;
    events = h.events ∙ k.events;
  }

module _ {F : Type 0} (P : Platform F) (uuids : IsUuidText P) where
  pub require_tenant-own : (j : Uuid) → require_tenant P (some (P.uuid_str j)) ≡ ok j
  unfolding require_tenant
  require_tenant-own j = rw (uuids.present j, uuids.parses j)

module _ {F : Type 0} (P : Platform F) (uuids : IsUuidText P) (V : Server F) (p : Principal)
    (j : Uuid) (differ : j ≢ p.tenant_id) where
  abbrev Fenced : {A : Type 0} → Exec (PostgresRagStore F) A → Type 0
  Fenced m = Spares (λ s t. SameRows j s.database t.database) m

  not_own : (p.tenant_id == j) ≡ false
  not_own = ground (arith, ==_iff p.tenant_id j)

  settle_fenced :
      {A : Type 0} (db : Database F) (m : Result A × Database F)
      → SameRows j db m.1
      → SameRows j db (settle db m).1
  settle_fenced db (ok a, e) h = h
  settle_fenced db (err why, e) h = SameRows-refl j db

  transaction-Fenced :
      {A : Type 0} (body : Uuid → Exec (Database F) A)
      → ((db : Database F) → SameRows j db (after (body p.tenant_id) db))
      → Fenced (transaction P p body)
  transaction-Fenced body h = record {
    spares = λ s.
        rw (require_tenant-own P uuids p.tenant_id)
          (settle_fenced s.database (body p.tenant_id s.database) (h s.database));
  }

  reads-Fenced : {A : Type 0} (f : PostgresRagStore F → Result A) → Fenced (reads f)
  reads-Fenced f = record { spares = λ s. SameRows-refl j s.database }

  sequence :
      {A B : Type 0} (m : Exec (PostgresRagStore F) A) (f : A → Exec (PostgresRagStore F) B)
      → Fenced m
      → ((a : A) → Fenced (f a))
      → Fenced (m >>= f)
  sequence m f h k =
      Spares-bind (λ s t u. SameRows-trans j s.database t.database u.database) f k m h

  insert_document_fenced :
      (d : StoredDocument F) (db : Database F)
      → SameRows j db (after (insert_document P V d p.tenant_id) db)
  unfolding insert_document
  insert_document_fenced d db = elim (Result-cases (check_document V (row_of P p.tenant_id d) db)) [
    | inr (e, refused) ↦ rw (after, refused) (SameRows-refl j db)
    | inl (u, passed) ↦
        rw (after, passed)
          (record {
            documents = sym (
                filter-append_other (document_tenant_fence j) db.documents (row_of P p.tenant_id d)
                  (unfold row_of in not_own));
            events = refl;
          })
  ]

  insert_event_fenced :
      (e : AuditEvent) (entry : AuditEntry F) (db : Database F)
      → SameRows j db (after (insert_event P V e entry p.tenant_id) db)
  unfolding insert_event
  insert_event_fenced e entry db =
      elim (Result-cases (check_event V (event_row_of P p.tenant_id e entry) db)) [
        | inr (why, refused) ↦ rw (after, refused) (SameRows-refl j db)
        | inl (u, passed) ↦
            rw (after, passed)
              (record {
                documents = refl;
                events = sym (
                    filter-append_other (audit_tenant_fence j) db.events
                      (event_row_of P p.tenant_id e entry) (unfold event_row_of in not_own));
              })
      ]

  ingest-Fenced : (c : Chunk F) (d : ChunkDraw) → Fenced (ingest P V p c d)
  unfolding ingest
  ingest-Fenced c d = sequence {A = Unit {0}} _ _ (reads-Fenced (λ s. _)) λ _.
      sequence {A = StoredDocument F} (reads (λ s. ok (sealed P s.cipher p c d))) _ (reads-Fenced _)
        λ document.
          sequence {A = Unit {0}} (transaction P p (insert_document P V document)) _
            (transaction-Fenced _ (insert_document_fenced document))
            λ _. reads-Fenced (λ s. ok document)

  search-Fenced : (e : List F) (k : ℕ) → Fenced (search P V p e k)
  unfolding search select_nearest
  search-Fenced e k = sequence {A = Unit {0}} _ _ (reads-Fenced (λ s. _)) λ _.
      sequence {A = List (DocumentRow F × F)} (transaction P p (select_nearest P V e k))
        (λ rows. reads (λ s. hits_of P s.cipher p rows)) (transaction-Fenced _ (SameRows-refl j))
        (λ rows. reads-Fenced _)

  count-Fenced : Fenced (count_for_tenant P V p)
  unfolding count_for_tenant
  count-Fenced = transaction-Fenced _ (SameRows-refl j)

  audit_head-Fenced : Fenced (audit_head P V p)
  unfolding audit_head
  audit_head-Fenced = transaction-Fenced _ (SameRows-refl j)

  append_after-Fenced :
      (e : AuditEntry F) (d : AuditDraw) (head : String) → Fenced (append_after P V p e d head)
  unfolding append_after
  append_after-Fenced e d head =
      sequence {A = Unit {0}} (transaction P p (insert_event P V (new_event P p e head d) e)) _
        (transaction-Fenced _ (insert_event_fenced (new_event P p e head d) e))
        λ _. reads-Fenced (λ s. ok (new_event P p e head d))

  append_audit-Fenced : (e : AuditEntry F) (d : AuditDraw) → Fenced (append_audit P V p e d)
  unfolding append_audit
  append_audit-Fenced e d =
      sequence (audit_head P V p) (append_after P V p e d) audit_head-Fenced
        (append_after-Fenced e d)

module _ {F : Type 0} (P : Platform F) (V : Server F) where
  -- The operations of the store by a principal, whether they return or raise.
  pub data Step (p : Principal) (s : PostgresRagStore F) : PostgresRagStore F → Type 0 where
    ingested : (c : Chunk F) (d : ChunkDraw) → Step p s (after (ingest P V p c d) s)
    searched : (e : List F) (k : ℕ) → Step p s (after (search P V p e k) s)
    counted : Step p s (after (count_for_tenant P V p) s)
    audited : (e : AuditEntry F) (d : AuditDraw) → Step p s (after (append_audit P V p e d) s)
    headed : Step p s (after (audit_head P V p) s)
    -- The second transaction of an `append_audit` whose first one read the hash `head` earlier.
    resumed :
        (e : AuditEntry F) (d : AuditDraw) (head : String)
        → Step p s (after (append_after P V p e d head) s)

  -- Where UUIDs are read back from their texts, no operation of a tenant's principal, failing ones
  -- and the two halves of an interrupted `append_audit` included, changes what the policies show to
  -- another tenant, documents or audit events.
  pub Step-SameRows :
      IsUuidText P
      → (p : Principal) (j : Uuid) (s t : PostgresRagStore F) → j ≢ p.tenant_id
      → Step p s t
      → SameRows j s.database t.database
  Step-SameRows uuids p j s t ne (ingested c d) = (ingest-Fenced P uuids V p j ne c d).spares s
  Step-SameRows uuids p j s t ne (searched e k) = (search-Fenced P uuids V p j ne e k).spares s
  Step-SameRows uuids p j s t ne counted = (count-Fenced P uuids V p j ne).spares s
  Step-SameRows uuids p j s t ne (audited e d) = (append_audit-Fenced P uuids V p j ne e d).spares s
  Step-SameRows uuids p j s t ne headed = (audit_head-Fenced P uuids V p j ne).spares s
  Step-SameRows uuids p j s t ne (resumed e d head) =
      (append_after-Fenced P uuids V p j ne e d head).spares s
