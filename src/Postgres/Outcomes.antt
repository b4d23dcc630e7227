-- ===== src/Postgres/Outcomes.antt =====
-- How each writing operation of `PostgresRagStore` ends: what it stores and returns, or an error
-- after which the database is as it was.
use tenantvault_zero_trust_r.Base.{
  ℕ, ◌≡◌, ◌≢◌, refl, ap, String, true, false, Option, none, some, List, Option-cases, ◌⊎◌, inl, inr,
  Bool-cases,
}
use tenantvault_zero_trust_r.Base.Lists.{length}
use tenantvault_zero_trust_r.Result.{
  Error, permission_error, database_error, Result, ok, err, Result-cases,
}
use tenantvault_zero_trust_r.Exec.{after}
use tenantvault_zero_trust_r.Platform.{Platform}
use tenantvault_zero_trust_r.Security.{Principal, can}
use tenantvault_zero_trust_r.Models.{StoredDocument, RetrievalHit}
use tenantvault_zero_trust_r.Store.{Chunk, ChunkDraw, AuditEntry, AuditDraw}
use tenantvault_zero_trust_r.Memory.{sealed}
use tenantvault_zero_trust_r.Postgres.Tables.{
  DocumentRow, document_tenant_fence, visible_documents, Server, check_document, check_event,
  add_row, add_event_row, visible_events,
}
use tenantvault_zero_trust_r.Postgres.{
  PostgresRagStore, row_of, event_row_of, insert_document, insert_event, new_event, append_after,
  append_audit, audit_head, hash_or_genesis, ingest, vector_literal, search, select_nearest,
  hits_of, count_for_tenant,
}
use tenantvault_zero_trust_r.Postgres.Fence.{IsUuidText, require_tenant-own}

pub ok-ne-err : {A : Type 0} {a : A} {e : Error} → ok a ≢ err e
ok-ne-err h = cc

module _ {F : Type 0} (P : Platform F) (uuids : IsUuidText P) (V : Server F) (p : Principal)
    (s : PostgresRagStore F) where
  abbrev Outcome : Type 0 → Type 0
  Outcome A = Result A × PostgresRagStore F

  module _ (c : Chunk F) (d : ChunkDraw) where
    abbrev pub document : StoredDocument F
    document = sealed P s.cipher p c d

    abbrev pub stored : PostgresRagStore F
    stored = record s { database = add_row (row_of P p.tenant_id document) s.database }

    pub ingest-forbidden :
        can p "rag:write" ≡ false
        → ingest P V p c d s ≡ (err (permission_error "principal lacks rag:write"), s)
    unfolding ingest
    ingest-forbidden may_not = rw may_not refl

    pub ingest-refused :
        (e : Error)
        → can p "rag:write" ≡ true
        → check_document V (row_of P p.tenant_id document) s.database ≡ err e
        → ingest P V p c d s ≡ (err e, s)
    unfolding ingest insert_document
    ingest-refused e may refused = rw (may, require_tenant-own P uuids p.tenant_id, refused) refl

    pub ingest-stored :
        can p "rag:write" ≡ true
        → check_document V (row_of P p.tenant_id document) s.database ≡ ok tt
        → ingest P V p c d s ≡ (ok document, stored)
    unfolding ingest insert_document
    ingest-stored may passed = rw (may, require_tenant-own P uuids p.tenant_id, passed) refl

  module _ (e : AuditEntry F) (d : AuditDraw) (head : String) where
    abbrev pub appended : PostgresRagStore F
    appended = record s {
      database = add_event_row (event_row_of P p.tenant_id (new_event P p e head d) e) s.database;
    }

    pub append_after-refused :
        (why : Error)
        → check_event V (event_row_of P p.tenant_id (new_event P p e head d) e) s.database ≡ err why
        → append_after P V p e d head s ≡ (err why, s)
    unfolding append_after insert_event
    append_after-refused why refused = rw (require_tenant-own P uuids p.tenant_id, refused) refl

    pub append_after-appended :
        check_event V (event_row_of P p.tenant_id (new_event P p e head d) e) s.database ≡ ok tt
        → append_after P V p e d head s ≡ (ok (new_event P p e head d), appended)
    unfolding append_after insert_event
    append_after-appended passed = rw (require_tenant-own P uuids p.tenant_id, passed) refl

  -- An ingestion raises and changes nothing, or it stores its document.
  pub ingest-cases :
      (c : Chunk F) (d : ChunkDraw)
      → ((e : Error) × (ingest P V p c d s ≡ (err e, s)))
        ⊎ (ingest P V p c d s ≡ (ok (document c d), stored c d))
  ingest-cases c d = elim (Bool-cases (can p "rag:write")) [
    | inr may_not ↦ inl (permission_error "principal lacks rag:write", ingest-forbidden c d may_not)
    | inl may ↦
        elim (Result-cases (check_document V (row_of P p.tenant_id (document c d)) s.database)) [
          | inr (e, refused) ↦ inl (e, ingest-refused c d e may refused)
          | inl (u, passed) ↦ inr (ingest-stored c d may passed)
        ]
  ]

  pub append_after-cases :
      (a : AuditEntry F) (d : AuditDraw) (head : String)
      → ((e : Error) × (append_after P V p a d head s ≡ (err e, s)))
        ⊎ (append_after P V p a d head s ≡ (ok (new_event P p a head d), appended a d head))
  append_after-cases a d head =
      elim (Result-cases
        (check_event V (event_row_of P p.tenant_id (new_event P p a head d) a) s.database)) [
          | inr (e, refused) ↦ inl (e, append_after-refused a d head e refused)
          | inl (u, passed) ↦ inr (append_after-appended a d head passed)
        ]

  -- The hash that `audit_head` returns.
  abbrev pub head_in : String
  head_in = hash_or_genesis (V.newest (visible_events p.tenant_id s.database))

  pub audit_head-returned : audit_head P V p s ≡ (ok head_in, s)
  unfolding audit_head
  audit_head-returned = rw (require_tenant-own P uuids p.tenant_id) refl

  pub append_audit-after :
      (e : AuditEntry F) (d : AuditDraw)
      → append_audit P V p e d s ≡ append_after P V p e d head_in s
  unfolding append_audit
  append_audit-after e d = rw audit_head-returned refl

  -- What the server answers to the `SELECT` of `search`.
  abbrev pub rows_in : List F → ℕ → Option (List (DocumentRow F × F))
  rows_in e k =
      V.nearest (vector_literal P e) k (document_tenant_fence p.tenant_id) s.database.documents

  pub search-answered :
      (e : List F) (k : ℕ) (rows : List (DocumentRow F × F))
      → can p "rag:read" ≡ true
      → rows_in e k ≡ some rows
      → search P V p e k s ≡ (hits_of P s.cipher p rows, s)
  unfolding search select_nearest
  search-answered e k rows may answered =
      rw (may, require_tenant-own P uuids p.tenant_id, answered) refl

  search-rejected :
      (e : List F) (k : ℕ)
      → can p "rag:read" ≡ true
      → rows_in e k ≡ none
      → search P V p e k s ≡ (err (database_error "invalid vector"), s)
  unfolding search select_nearest
  search-rejected e k may rejected = rw (may, require_tenant-own P uuids p.tenant_id, rejected) refl

  search-forbidden :
      (e : List F) (k : ℕ)
      → can p "rag:read" ≡ false
      → search P V p e k s ≡ (err (permission_error "principal lacks rag:read"), s)
  unfolding search
  search-forbidden e k may_not = rw may_not refl

  -- A search changes nothing.
  pub search-kept : (e : List F) (k : ℕ) → after (search P V p e k) s ≡ s
  search-kept e k = elim (Bool-cases (can p "rag:read")) [
    | inr may_not ↦ ap (λ (x : Outcome (List (RetrievalHit F))). x.1) (search-forbidden e k may_not)
    | inl may ↦ elim (Option-cases (rows_in e k)) [
      | inl rejected ↦
          ap (λ (x : Outcome (List (RetrievalHit F))). x.1) (search-rejected e k may rejected)
      | inr (rows, answered) ↦
          ap (λ (x : Outcome (List (RetrievalHit F))). x.1) (search-answered e k rows may answered)
    ]
  ]

  pub count-returned :
      count_for_tenant P V p s ≡ (ok (length (visible_documents p.tenant_id s.database)), s)
  unfolding count_for_tenant
  count-returned = rw (require_tenant-own P uuids p.tenant_id) refl
